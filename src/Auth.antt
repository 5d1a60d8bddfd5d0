-- ===== src/Auth.antt =====
-- crates/auth/src/lib.rs: users, bearer tokens, admin sessions and the swarm's device pool.
-- The SQLite tables of `SCHEMA_SQL` are lists of rows, the newest row first, each with the next id
-- that AUTOINCREMENT hands out. The constraints UNIQUE and REFERENCES make an insertion fail with
-- `db`. A call is one step, as each holds the connection's mutex; `bootstrap_admin` takes the mutex
-- for each of its parts, and is modelled as run with no other call between them. `Utc::now()` is an
-- argument, in nanoseconds since the epoch, one value for the readings of a call; a stored timestamp
-- is in seconds, and all times and lifetimes are assumed to be at least 0 and within chrono's range:
-- a negative lifetime is not covered. Random bytes are arguments too. Of the other errors of SQLite
-- (a full disk, a locked file) nothing is said.
pub mod Rows
pub mod Tokens
pub mod Users
pub mod Sessions
pub mod Devices
pub mod Invariant
pub mod History
pub mod Preserved
pub mod Lifecycle
pub mod Logins
pub mod Bootstrap
use stark_stir_service.Common.{
  ℕ, suc, ◌+◌, ◌*◌, ◌/◌, Bool, true, false, not, ◌&&◌, ◌||◌, Option, none, some, List, [], ◌∷◌,
  ◌++◌, map, ltb, ◌==◌, if◌then◌else◌, Text, text, text_eq, length,
}
use mathlib.Core.Option
use mathlib.Core.List.{reverse}

pub data AuthError : Type 0 where
  db invalid_credentials invalid_token token_expired token_revoked session_invalid : AuthError
  hash user_not_found internal : Text → AuthError

pub data Result {ℓ} (A : Type ℓ) : Type ℓ where
  ok : A → Result A
  err : AuthError → Result A

-- What the crates argon2, sha3 and hex compute.
pub record Crypto : Type 0 where
  -- A password hashed under a salt, and its verification; `hash` if the stored text is malformed.
  pub argon_hash : Text → Text → Result Text
  pub argon_verify : Text → Text → Result (Unit {0})
  -- SHA3-256 of the bytes, and lowercase hexadecimal.
  pub sha3_256 : List ℕ → List ℕ
  pub hex_encode : List ℕ → Text

pub record User : Type 0 where
  pub id : ℕ
  pub username : Text
  pub created_at : ℕ
  pub is_admin : Bool

pub record ApiTokenInfo : Type 0 where
  pub id : ℕ
  pub name : Text
  pub scope : Text
  pub created_at : ℕ
  pub expires_at : Option ℕ
  pub revoked : Bool
  pub last_used : Option ℕ
  pub created_by : ℕ

pub record CreatedToken : Type 0 where
  pub info : ApiTokenInfo
  pub bearer : Text

pub record ValidatedToken : Type 0 where
  pub token_id : ℕ
  pub scope : Text
  pub user_id : ℕ

pub record Session : Type 0 where
  pub user_id : ℕ
  pub username : Text
  pub is_admin : Bool
  pub expires_at : ℕ

pub data DeviceStatus : Type 0 where
  idle busy offline : DeviceStatus

unfoldable pub as_str : DeviceStatus → Text
as_str idle = text "idle"
as_str busy = text "busy"
as_str offline = text "offline"

unfoldable pub parse : Text → DeviceStatus
parse s =
    if text_eq s (text "busy") then busy else (if text_eq s (text "offline") then offline else idle)

pub record SwarmDevice : Type 0 where
  pub id : ℕ
  pub name : Text
  pub address : Text
  pub bearer_token : Option Text
  pub max_trace_log2 : ℕ
  pub ram_mb : ℕ
  pub status : DeviceStatus
  pub last_seen : Option ℕ
  pub registered_at : ℕ
  pub registered_by : Option ℕ
  pub notes : Option Text

-- The rows of the four tables.
pub record UserRow : Type 0 where
  pub id : ℕ
  pub username : Text
  pub password_hash : Text
  pub created_at : ℕ
  pub is_admin : Bool

pub record TokenRow : Type 0 where
  pub id : ℕ
  pub name : Text
  pub scope : Text
  pub token_hash : Text
  pub created_at : ℕ
  pub expires_at : Option ℕ
  pub revoked : Bool
  pub last_used : Option ℕ
  pub created_by : ℕ

pub record SessionRow : Type 0 where
  pub id : Text
  pub user_id : ℕ
  pub created_at : ℕ
  pub expires_at : ℕ

pub record DeviceRow : Type 0 where
  pub id : ℕ
  pub name : Text
  pub address : Text
  pub bearer_token : Option Text
  pub max_trace_log2 : ℕ
  pub ram_mb : ℕ
  pub status : Text
  pub last_seen : Option ℕ
  pub registered_at : ℕ
  pub registered_by : Option ℕ
  pub notes : Option Text

pub record AuthDb : Type 0 where
  pub users : List UserRow
  pub next_user : ℕ
  pub tokens : List TokenRow
  pub next_token : ℕ
  pub sessions : List SessionRow
  pub devices : List DeviceRow
  pub next_device : ℕ

-- A freshly migrated database.
abbrev pub empty : AuthDb
empty = record {
  users = [];
  next_user = 1;
  tokens = [];
  next_token = 1;
  sessions = [];
  devices = [];
  next_device = 1;
}

-- `timestamp()`: nanoseconds to whole seconds.
abbrev pub nanos : ℕ
nanos = 1000000000

abbrev pub timestamp : ℕ → ℕ
timestamp now = now / nanos

-- The first row that meets a `WHERE` clause.
unfoldable pub find_row {ℓ} : {A : Type ℓ} → (A → Bool) → List A → Option A
find_row p [] = none
find_row p (r ∷ rs) = if p r then some r else find_row p rs

unfoldable pub any_row {ℓ} : {A : Type ℓ} → (A → Bool) → List A → Bool
any_row p [] = false
any_row p (r ∷ rs) = p r || any_row p rs

-- `UPDATE … WHERE`, `DELETE … WHERE`, and `SELECT COUNT(*) … WHERE`.
unfoldable pub update_rows {ℓ} : {A : Type ℓ} → (A → Bool) → (A → A) → List A → List A
update_rows p f [] = []
update_rows p f (r ∷ rs) = (if p r then f r else r) ∷ update_rows p f rs

unfoldable pub delete_rows {ℓ} : {A : Type ℓ} → (A → Bool) → List A → List A
delete_rows p [] = []
delete_rows p (r ∷ rs) = if p r then delete_rows p rs else r ∷ delete_rows p rs

unfoldable pub count_rows {ℓ} : {A : Type ℓ} → (A → Bool) → List A → ℕ
count_rows p [] = 0
count_rows p (r ∷ rs) = (if p r then 1 else 0) + count_rows p rs

-- The rows that the statements select.
abbrev pub user_named : Text → UserRow → Bool
user_named username r = text_eq r.username username

abbrev pub user_has_id : ℕ → UserRow → Bool
user_has_id id r = r.id == id

abbrev pub token_hashed : Text → TokenRow → Bool
token_hashed h r = text_eq r.token_hash h

abbrev pub token_has_id : ℕ → TokenRow → Bool
token_has_id id r = r.id == id

abbrev pub session_has_id : Text → SessionRow → Bool
session_has_id id r = text_eq r.id id

abbrev pub device_has_id : ℕ → DeviceRow → Bool
device_has_id id r = r.id == id

abbrev pub device_named : Text → DeviceRow → Bool
device_named name r = text_eq r.name name

-- The token's hash that is stored: the bearer string never is.
unfoldable pub hash_bearer : Crypto → Text → Text
hash_bearer c bearer = c.hex_encode (c.sha3_256 (text "STARK-API-BEARER-V1" ++ bearer))

-- `random` is the 32 bytes, or for a session the 24 bytes, from the system's generator.
unfoldable pub generate_bearer_string : Crypto → List ℕ → Text
generate_bearer_string c random = text "stark_" ++ c.hex_encode random

unfoldable pub generate_session_id : Crypto → List ℕ → Text
generate_session_id c random = c.hex_encode random
