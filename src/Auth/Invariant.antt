-- ===== src/Auth/Invariant.antt =====
-- The tables stay well formed: the constraints of the schema, and ids that fall along each table.
use stark_stir_service.Common.{
  ℕ, ◌≡◌, refl, Bool, true, Option, List, [], ◌∷◌, inl, inr, arith, Text, Bool-cases, Option-cases,
}
use stark_stir_service.Auth.{
  AuthDb, Crypto, Result, ok, err, UserRow, TokenRow, SessionRow, DeviceRow, find_row, any_row,
  update_rows, delete_rows, token_hashed, token_has_id, session_has_id, user_has_id, user_named,
  device_has_id, hash_bearer,
}
use stark_stir_service.Auth.Rows.{
  Descending, Distinct, update-Descending, update-Distinct, delete-Descending, delete-Distinct,
}
use stark_stir_service.Auth.Users.{create_user, new_user_row}
use stark_stir_service.Auth.Tokens.{create_token, validate_bearer, is_expired}
use stark_stir_service.Auth.Sessions.{
  create_session, validate_session, delete_session, check_session,
}
use stark_stir_service.Auth.Devices.{register_device, remove_device}

-- The references to users that the schema declares.
abbrev pub OwnedTokens : List UserRow → List TokenRow → Type 0
OwnedTokens us [] = Unit
OwnedTokens us (r ∷ rs) = (any_row (user_has_id r.created_by) us ≡ true) × OwnedTokens us rs

abbrev pub OwnedSessions : List UserRow → List SessionRow → Type 0
OwnedSessions us [] = Unit
OwnedSessions us (r ∷ rs) = (any_row (user_has_id r.user_id) us ≡ true) × OwnedSessions us rs

pub record IsWellFormed (d : AuthDb) : Type 0 where
  pub user_ids : Descending (λ r. r.id) d.next_user d.users
  pub user_names : Distinct (λ r. r.username) d.users
  pub token_ids : Descending (λ r. r.id) d.next_token d.tokens
  pub token_hashes : Distinct (λ r. r.token_hash) d.tokens
  pub token_owners : OwnedTokens d.users d.tokens
  pub session_ids : Distinct (λ r. r.id) d.sessions
  pub session_owners : OwnedSessions d.users d.sessions
  pub device_ids : Descending (λ r. r.id) d.next_device d.devices
  pub device_names : Distinct (λ r. r.name) d.devices

OwnedTokens-cons :
    (u : UserRow) (us : List UserRow) (rs : List TokenRow)
    → OwnedTokens us rs
    → OwnedTokens (u ∷ us) rs
unfolding any_row
OwnedTokens-cons u us [] w = tt
OwnedTokens-cons u us (r ∷ rs) w = ground (arith, OwnedTokens-cons u us rs w.1)

OwnedSessions-cons :
    (u : UserRow) (us : List UserRow) (rs : List SessionRow)
    → OwnedSessions us rs
    → OwnedSessions (u ∷ us) rs
unfolding any_row
OwnedSessions-cons u us [] w = tt
OwnedSessions-cons u us (r ∷ rs) w = ground (arith, OwnedSessions-cons u us rs w.1)

OwnedTokens-update :
    (us : List UserRow) (p : TokenRow → Bool) (f : TokenRow → TokenRow)
    → ((r : TokenRow) → (f r).created_by ≡ r.created_by)
    → (rs : List TokenRow) → OwnedTokens us rs
    → OwnedTokens us (update_rows p f rs)
unfolding update_rows
OwnedTokens-update us p f k [] w = tt
OwnedTokens-update us p f k (r ∷ rs) w = ground (arith, k r, OwnedTokens-update us p f k rs w.1)

OwnedSessions-delete :
    (us : List UserRow) (p : SessionRow → Bool) (rs : List SessionRow)
    → OwnedSessions us rs
    → OwnedSessions us (delete_rows p rs)
unfolding delete_rows
OwnedSessions-delete us p [] w = tt
OwnedSessions-delete us p (r ∷ rs) w = ground (arith, OwnedSessions-delete us p rs w.1)

pub create_user-IsWellFormed :
    (c : Crypto) (now : ℕ) (salt : Text) (d : AuthDb) (name password : Text) (admin : Bool)
    → IsWellFormed d
    → IsWellFormed (create_user c now salt d name password admin).1
unfolding create_user
create_user-IsWellFormed c now salt d name password admin w =
    hashed (c.argon_hash salt password) refl
  where
    hashed :
        (r : Result Text)
        → c.argon_hash salt password ≡ r
        → IsWellFormed (create_user c now salt d name password admin).1
    hashed (err x) e = rw (e, create_user) w
    hashed (ok h) e = elim (Bool-cases (any_row (user_named name) d.users)) [
      | inl taken ↦ rw (e, create_user, taken) w
      | inr fresh ↦
          let row = new_user_row now d name h admin in
          rw (e, create_user, fresh)
            (record {
              user_ids = (omega arith, w.user_ids);
              user_names = (fresh, w.user_names);
              token_ids = w.token_ids;
              token_hashes = w.token_hashes;
              token_owners = OwnedTokens-cons row d.users d.tokens w.token_owners;
              session_ids = w.session_ids;
              session_owners = OwnedSessions-cons row d.users d.sessions w.session_owners;
              device_ids = w.device_ids;
              device_names = w.device_names;
            })
    ]

pub create_token-IsWellFormed :
    (c : Crypto) (now : ℕ) (random : List ℕ) (d : AuthDb) (user : ℕ) (name scope : Text)
    (ttl : Option ℕ)
    → IsWellFormed d
    → IsWellFormed (create_token c now random d user name scope ttl).1
unfolding create_token
create_token-IsWellFormed c now random d user name scope ttl w = ground arith

pub update_tokens-IsWellFormed :
    (d : AuthDb) (p : TokenRow → Bool) (f : TokenRow → TokenRow)
    → ((r : TokenRow) → (f r).id ≡ r.id)
    → ((r : TokenRow) → (f r).token_hash ≡ r.token_hash)
    → ((r : TokenRow) → (f r).created_by ≡ r.created_by)
    → IsWellFormed d
    → IsWellFormed (record d { tokens = update_rows p f d.tokens })
update_tokens-IsWellFormed d p f i h o w = record {
  user_ids = w.user_ids;
  user_names = w.user_names;
  token_ids = update-Descending (λ r. r.id) p f i d.next_token d.tokens w.token_ids;
  token_hashes = update-Distinct (λ r. r.token_hash) p f h d.tokens w.token_hashes;
  token_owners = OwnedTokens-update d.users p f o d.tokens w.token_owners;
  session_ids = w.session_ids;
  session_owners = w.session_owners;
  device_ids = w.device_ids;
  device_names = w.device_names;
}

pub validate_bearer-IsWellFormed :
    (c : Crypto) (now : ℕ) (d : AuthDb) (bearer : Text)
    → IsWellFormed d
    → IsWellFormed (validate_bearer c now d bearer).1
unfolding validate_bearer
validate_bearer-IsWellFormed c now d bearer w =
    elim (Option-cases (find_row (token_hashed (hash_bearer c bearer)) d.tokens)) [
      | inl e ↦ rw (e, validate_bearer) w
      | inr (r, e) ↦ elim (Bool-cases r.revoked) [
        | inl dead ↦ rw (e, validate_bearer, dead) w
        | inr live ↦ elim (Bool-cases (is_expired r.expires_at now)) [
          | inl late ↦ rw (e, validate_bearer, live, late) w
          | inr valid ↦
              rw (e, validate_bearer, live, valid)
                (update_tokens-IsWellFormed d (token_has_id r.id) _ (λ s. refl) (λ s. refl)
                  (λ s. refl) w)
        ]
      ]
    ]

pub create_session-IsWellFormed :
    (c : Crypto) (now : ℕ) (random : List ℕ) (d : AuthDb) (user ttl : ℕ)
    → IsWellFormed d
    → IsWellFormed (create_session c now random d user ttl).1
unfolding create_session
create_session-IsWellFormed c now random d user ttl w = ground arith

pub delete_session-IsWellFormed :
    (d : AuthDb) (id : Text) → IsWellFormed d → IsWellFormed (delete_session d id)
unfolding delete_session
delete_session-IsWellFormed d id w = record {
  user_ids = w.user_ids;
  user_names = w.user_names;
  token_ids = w.token_ids;
  token_hashes = w.token_hashes;
  token_owners = w.token_owners;
  session_ids = delete-Distinct (λ r. r.id) (session_has_id id) d.sessions w.session_ids;
  session_owners = OwnedSessions-delete d.users (session_has_id id) d.sessions w.session_owners;
  device_ids = w.device_ids;
  device_names = w.device_names;
}

pub validate_session-IsWellFormed :
    (now : ℕ) (d : AuthDb) (id : Text) → IsWellFormed d → IsWellFormed (validate_session now d id).1
unfolding validate_session check_session
validate_session-IsWellFormed now d id w = ground (arith, delete_session-IsWellFormed d id w)

pub update_devices-IsWellFormed :
    (d : AuthDb) (p : DeviceRow → Bool) (f : DeviceRow → DeviceRow)
    → ((r : DeviceRow) → (f r).id ≡ r.id)
    → ((r : DeviceRow) → (f r).name ≡ r.name)
    → IsWellFormed d
    → IsWellFormed (record d { devices = update_rows p f d.devices })
update_devices-IsWellFormed d p f i n w = record {
  user_ids = w.user_ids;
  user_names = w.user_names;
  token_ids = w.token_ids;
  token_hashes = w.token_hashes;
  token_owners = w.token_owners;
  session_ids = w.session_ids;
  session_owners = w.session_owners;
  device_ids = update-Descending (λ r. r.id) p f i d.next_device d.devices w.device_ids;
  device_names = update-Distinct (λ r. r.name) p f n d.devices w.device_names;
}

pub register_device-IsWellFormed :
    (now : ℕ) (d : AuthDb) (name address : Text) (bearer : Option Text) (log2 ram : ℕ)
    (by : Option ℕ) (notes : Option Text)
    → IsWellFormed d
    → IsWellFormed (register_device now d name address bearer log2 ram by notes).1
unfolding register_device
register_device-IsWellFormed now d name address bearer log2 ram by notes w = ground arith

pub remove_device-IsWellFormed :
    (d : AuthDb) (id : ℕ) → IsWellFormed d → IsWellFormed (remove_device d id)
unfolding remove_device
remove_device-IsWellFormed d id w = record {
  user_ids = w.user_ids;
  user_names = w.user_names;
  token_ids = w.token_ids;
  token_hashes = w.token_hashes;
  token_owners = w.token_owners;
  session_ids = w.session_ids;
  session_owners = w.session_owners;
  device_ids =
      delete-Descending (λ r. r.id) (device_has_id id) d.next_device d.devices w.device_ids;
  device_names = delete-Distinct (λ r. r.name) (device_has_id id) d.devices w.device_names;
}
