-- ===== src/Auth/Devices.antt =====
-- The swarm's device pool.
use stark_stir_service.Common.{
  ℕ, suc, ◌*◌, ◌%◌, Bool, true, false, not, ◌||◌, Option, none, some, List, [], ◌∷◌, map,
  if◌then◌else◌, Text, text,
}
use mathlib.Core.Option
use mathlib.Core.List.{reverse}
use stark_stir_service.Auth.{
  AuthDb, AuthError, Result, ok, err, SwarmDevice, DeviceRow, DeviceStatus, idle, busy, offline,
  as_str, parse, any_row, update_rows, delete_rows, user_has_id, device_has_id, device_named,
  timestamp, nanos,
}

-- A foreign key that may be NULL.
abbrev pub is_known_user : AuthDb → Option ℕ → Bool
is_known_user d none = true
is_known_user d (some id) = any_row (user_has_id id) d.users

unfoldable pub register_device :
    ℕ
    → AuthDb
    → Text
    → Text
    → Option Text
    → ℕ
    → ℕ
    → Option ℕ
    → Option Text
    → Result SwarmDevice × AuthDb
register_device now d name address bearer_token max_trace_log2 ram_mb registered_by notes =
    if any_row (device_named name) d.devices || not (is_known_user d registered_by)
    then (err AuthError.db, d)
    else (
      ok (record {
        id = d.next_device;
        name = name;
        address = address;
        bearer_token = bearer_token;
        max_trace_log2 = max_trace_log2;
        ram_mb = ram_mb;
        status = idle;
        last_seen = none;
        registered_at = now;
        registered_by = registered_by;
        notes = notes;
      }),
      record d {
        devices =
            record {
              id = d.next_device;
              name = name;
              address = address;
              bearer_token = bearer_token;
              max_trace_log2 = max_trace_log2;
              ram_mb = ram_mb;
              status = text "idle";
              last_seen = none;
              registered_at = timestamp now;
              registered_by = registered_by;
              notes = notes;
            }
            ∷ d.devices;
        next_device = suc d.next_device;
      },
    )

abbrev pub row_device : DeviceRow → SwarmDevice
row_device r = record {
  id = r.id;
  name = r.name;
  address = r.address;
  bearer_token = r.bearer_token;
  max_trace_log2 = r.max_trace_log2 % 4294967296;
  ram_mb = r.ram_mb % 4294967296;
  status = parse r.status;
  last_seen = Option.map (λ t. t * nanos) r.last_seen;
  registered_at = r.registered_at * nanos;
  registered_by = r.registered_by;
  notes = r.notes;
}

-- `ORDER BY id ASC` is the oldest row first.
unfoldable pub list_devices : AuthDb → List SwarmDevice
list_devices d = reverse (map row_device d.devices)

abbrev pub is_idle : DeviceStatus → Bool
is_idle idle = true
is_idle busy = false
is_idle offline = false

unfoldable pub keep_idle : List SwarmDevice → List SwarmDevice
keep_idle [] = []
keep_idle (v ∷ vs) = if is_idle v.status then v ∷ keep_idle vs else keep_idle vs

unfoldable pub list_idle_devices : AuthDb → List SwarmDevice
unfolding list_devices keep_idle
list_idle_devices d = keep_idle (list_devices d)

unfoldable pub remove_device : AuthDb → ℕ → AuthDb
remove_device d id = record d { devices = delete_rows (device_has_id id) d.devices }

unfoldable pub set_device_status : ℕ → AuthDb → ℕ → DeviceStatus → AuthDb
set_device_status now d id status = record d {
  devices =
      update_rows (device_has_id id)
        (λ r. record r { status = as_str status; last_seen = some (timestamp now) }) d.devices;
}

unfoldable pub touch_device_heartbeat : ℕ → AuthDb → ℕ → AuthDb
touch_device_heartbeat now d id = record d {
  devices =
      update_rows (device_has_id id) (λ r. record r { last_seen = some (timestamp now) }) d.devices;
}
