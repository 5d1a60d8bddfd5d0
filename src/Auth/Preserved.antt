-- ===== src/Auth/Preserved.antt =====
-- The invariant holds after any history of calls, and what follows for the listings.
use stark_stir_service.Common.{
  ℕ, refl, true, not, none, List, [], ◌∷◌, inl, inr, Text, ◌==◌, Bool-cases, Option-cases,
}
use stark_stir_service.Auth.{
  AuthDb, Crypto, Result, ok, err, User, TokenRow, CreatedToken, empty, count_rows, token_has_id,
  device_has_id,
}
use stark_stir_service.Auth.Users.{create_user, find_user_by_name}
use stark_stir_service.Auth.Tokens.{
  create_token, revoke_token, bootstrap_admin, bootstrap_token, bootstrap_result, bootstrap_with,
  bootstrap_scope,
}
use stark_stir_service.Auth.Devices.{set_device_status, touch_device_heartbeat}
use stark_stir_service.Auth.History.{
  Call, step, run, creates_user, creates_token, revokes, validates, creates_session,
  validates_session, deletes_session, bootstraps, registers, removes, sets_status, touches,
}
use stark_stir_service.Auth.Invariant.{
  IsWellFormed, create_user-IsWellFormed, create_token-IsWellFormed, update_tokens-IsWellFormed,
  validate_bearer-IsWellFormed, create_session-IsWellFormed, delete_session-IsWellFormed,
  validate_session-IsWellFormed, update_devices-IsWellFormed, register_device-IsWellFormed,
  remove_device-IsWellFormed,
}

bootstrap_token-IsWellFormed :
    (c : Crypto) (now : ℕ) (random : List ℕ) (d : AuthDb) (user : User) (name : Text)
    → IsWellFormed d
    → IsWellFormed (bootstrap_token c now random d user name).1
unfolding bootstrap_token
bootstrap_token-IsWellFormed c now random d user name w =
    elim (Bool-cases (count_rows (λ (r : TokenRow). not r.revoked) d.tokens == 0)) [
      | inl dead ↦ rw dead (
          handled (create_token c now random d user.id name bootstrap_scope none)
            (create_token-IsWellFormed c now random d user.id name bootstrap_scope none w))
      | inr live ↦ rw live w
    ]
  where
    handled :
        (made : Result CreatedToken × AuthDb)
        → IsWellFormed made.1
        → IsWellFormed (bootstrap_result user made).1
    handled (ok t, d') v = v
    handled (err e, d') v = v

bootstrap_admin-IsWellFormed :
    (c : Crypto) (now : ℕ) (salt : Text) (random : List ℕ) (d : AuthDb) (name password token : Text)
    → IsWellFormed d
    → IsWellFormed (bootstrap_admin c now salt random d name password token).1
unfolding bootstrap_admin
bootstrap_admin-IsWellFormed c now salt random d name password token w =
    elim (Option-cases (find_user_by_name d name)) [
      | inl e ↦
          rw (e, bootstrap_admin)
            (handled (create_user c now salt d name password true)
              (create_user-IsWellFormed c now salt d name password true w))
      | inr (user, e) ↦
          rw (e, bootstrap_admin) (bootstrap_token-IsWellFormed c now random d user token w)
    ]
  where
    handled :
        (made : Result User × AuthDb)
        → IsWellFormed made.1
        → IsWellFormed (bootstrap_with c now random token made).1
    handled (ok user, d') v = bootstrap_token-IsWellFormed c now random d' user token v
    handled (err x, d') v = v

-- Every call keeps the tables well formed: ids fall along each table and lie below the next id,
-- names, token hashes and session ids are unique, and each token and session has its user.
pub step-IsWellFormed :
    (c : Crypto) (d : AuthDb) (x : Call) → IsWellFormed d → IsWellFormed (step c d x)
unfolding step revoke_token set_device_status touch_device_heartbeat
step-IsWellFormed c d (creates_user now salt name password admin) w =
    create_user-IsWellFormed c now salt d name password admin w
step-IsWellFormed c d (creates_token now random user name scope ttl) w =
    create_token-IsWellFormed c now random d user name scope ttl w
step-IsWellFormed c d (revokes id) w =
    update_tokens-IsWellFormed d (token_has_id id) _ (λ r. refl) (λ r. refl) (λ r. refl) w
step-IsWellFormed c d (validates now bearer) w = validate_bearer-IsWellFormed c now d bearer w
step-IsWellFormed c d (creates_session now random user ttl) w =
    create_session-IsWellFormed c now random d user ttl w
step-IsWellFormed c d (validates_session now id) w = validate_session-IsWellFormed now d id w
step-IsWellFormed c d (deletes_session id) w = delete_session-IsWellFormed d id w
step-IsWellFormed c d (bootstraps now salt random name password token) w =
    bootstrap_admin-IsWellFormed c now salt random d name password token w
step-IsWellFormed c d (registers now name address bearer log2 ram by notes) w =
    register_device-IsWellFormed now d name address bearer log2 ram by notes w
step-IsWellFormed c d (removes id) w = remove_device-IsWellFormed d id w
step-IsWellFormed c d (sets_status now id status) w =
    update_devices-IsWellFormed d (device_has_id id) _ (λ r. refl) (λ r. refl) w
step-IsWellFormed c d (touches now id) w =
    update_devices-IsWellFormed d (device_has_id id) _ (λ r. refl) (λ r. refl) w

run-IsWellFormed :
    (c : Crypto) (d : AuthDb) (xs : List Call) → IsWellFormed d → IsWellFormed (run c d xs)
unfolding run
run-IsWellFormed c d [] w = w
run-IsWellFormed c d (x ∷ xs) w = run-IsWellFormed c (step c d x) xs (step-IsWellFormed c d x w)

empty-IsWellFormed : IsWellFormed empty
empty-IsWellFormed = record {
  user_ids = tt;
  user_names = tt;
  token_ids = tt;
  token_hashes = tt;
  token_owners = tt;
  session_ids = tt;
  session_owners = tt;
  device_ids = tt;
  device_names = tt;
}

-- A freshly migrated database has well formed tables after any history of calls: ids in order and
-- below the next id, names, token hashes and session ids unique, tokens and sessions with a user.
pub run-empty-IsWellFormed : (c : Crypto) (xs : List Call) → IsWellFormed (run c empty xs)
run-empty-IsWellFormed c xs = run-IsWellFormed c empty xs empty-IsWellFormed
