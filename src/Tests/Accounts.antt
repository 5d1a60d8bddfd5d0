-- ===== src/Tests/Accounts.antt =====
-- A short history of the database under a Crypto that stores what it is given.
use stark_stir_service.Common.{
  ℕ, ◌+◌, ◌*◌, ◌/◌, ◌≡◌, ◌≢◌, refl, true, false, Option, none, some, List, [], ◌∷◌, if◌then◌else◌,
  ltb, Text, text, text_eq, arith,
}
use stark_stir_service.Auth.{
  AuthDb, AuthError, Crypto, Result, ok, err, User, UserRow, TokenRow, CreatedToken, empty,
  find_row, any_row, user_named, user_has_id, session_has_id, token_hashed, hash_bearer,
  generate_bearer_string, generate_session_id, timestamp, nanos, count_rows,
}
use stark_stir_service.Auth.Users.{create_user, new_user_row, verify_login, find_user_by_name}
use stark_stir_service.Auth.Tokens.{
  create_token, new_token, new_token_row, revoke_token, validate_bearer, bootstrap_scope,
  bootstrap_admin, bootstrap_token,
}
use stark_stir_service.Auth.Sessions.{create_session, validate_session, delete_session}
use stark_stir_service.Auth.Invariant.{IsWellFormed}
use stark_stir_service.Auth.History.{Call, validates, revokes, creates_user, step, run, AllSpare}
use stark_stir_service.Auth.Preserved.{step-IsWellFormed, run-empty-IsWellFormed}
use stark_stir_service.Auth.Lifecycle.{revoke_token-validate_bearer, create_token-validate_bearer}
use stark_stir_service.Auth.Logins.{
  create_session-validate_session, delete_session-validate_session, create_user-verify_login,
}
use stark_stir_service.Auth.Bootstrap.{bootstrap_admin-idempotent}

abbrev plain : Crypto
plain = record {
  argon_hash = λ salt password. ok password;
  argon_verify =
      λ attempt stored. if text_eq attempt stored then ok tt else err AuthError.invalid_credentials;
  sha3_256 = λ bytes. bytes;
  hex_encode = λ bytes. bytes;
}

abbrev ann : Text
ann = text "ann"

-- Three seconds after the epoch.
abbrev now : ℕ
now = 3000000000

abbrev with_user : AuthDb
with_user = (create_user plain now [] empty ann (text "pw") true).1

abbrev made : CreatedToken
made = new_token plain now (7 ∷ []) with_user 1 (text "t") (text "prove") (some 5)

abbrev with_token : AuthDb
with_token = (create_token plain now (7 ∷ []) with_user 1 (text "t") (text "prove") (some 5)).1

abbrev later_calls : List Call
later_calls =
    validates 4000000000 made.bearer
    ∷ revokes 5
    ∷ creates_user now [] (text "bob") (text "x") false
    ∷ []

step-IsWellFormed_example :
    IsWellFormed
      (step plain (run plain empty later_calls) (creates_user now [] ann (text "pw") true))
step-IsWellFormed_example =
    step-IsWellFormed plain (run plain empty later_calls) (creates_user now [] ann (text "pw") true)
      (run-empty-IsWellFormed plain later_calls)

run-empty-IsWellFormed_example :
    IsWellFormed (run plain empty (creates_user now [] ann (text "pw") true ∷ later_calls))
run-empty-IsWellFormed_example =
    run-empty-IsWellFormed plain (creates_user now [] ann (text "pw") true ∷ later_calls)

creates :
    (create_token plain now (7 ∷ []) with_user 1 (text "t") (text "prove") (some 5)).0 ≡ ok made
unfolding create_token create_user any_row user_named text_eq user_has_id token_hashed
creates = refl

spares : AllSpare (λ id. made.info.id ≢ id) later_calls
unfolding create_user any_row user_named text_eq
spares = (tt, (λ e. omega (arith, e), (tt, tt)))

create_token-validate_bearer_example :
    (validate_bearer plain 5000000000 (run plain with_token later_calls) made.bearer).0 ≡ (
      if ltb ((now + 5 * nanos) / nanos) (5000000000 / nanos)
      then err AuthError.token_expired
      else ok (record { token_id = made.info.id; scope = text "prove"; user_id = 1 }))
create_token-validate_bearer_example =
    create_token-validate_bearer plain now (7 ∷ []) with_user 1 (text "t") (text "prove") (some 5)
      made later_calls 5000000000 creates spares

abbrev made_row : TokenRow
made_row = new_token_row plain now (7 ∷ []) with_user 1 (text "t") (text "prove") (some 5)

stored : find_row (token_hashed (hash_bearer plain made.bearer)) with_token.tokens ≡ some made_row
unfolding create_token create_user any_row user_named text_eq user_has_id token_hashed find_row
    hash_bearer generate_bearer_string
stored = refl

revoke_token-validate_bearer_example :
    (validate_bearer plain 9
      (run plain (revoke_token with_token made_row.id) later_calls)
      made.bearer).0
    ≡ err AuthError.token_revoked
revoke_token-validate_bearer_example =
    revoke_token-validate_bearer plain with_token made.bearer made_row later_calls 9 stored

-- A session of one hour.
abbrev session_id : Text
session_id = generate_session_id plain (8 ∷ [])

abbrev with_session : AuthDb
with_session = (create_session plain now (8 ∷ []) with_user 1 1).1

abbrev ann_row : UserRow
ann_row = new_user_row now empty ann (text "pw") true

starts : (create_session plain now (8 ∷ []) with_user 1 1).0 ≡ ok session_id
unfolding create_session create_user any_row user_named text_eq user_has_id session_has_id
starts = refl

known : find_row (user_has_id 1) with_user.users ≡ some ann_row
unfolding create_user any_row user_named text_eq user_has_id find_row
known = refl

create_session-validate_session_example : validate_session 4000000000 with_session session_id ≡ (
    if ltb 3603000000000 4000000000
    then (err AuthError.session_invalid, delete_session with_session session_id)
    else (
      ok (record {
        user_id = 1;
        username = ann_row.username;
        is_admin = ann_row.is_admin;
        expires_at = 3603000000000;
      }),
      with_session,
    ))
create_session-validate_session_example =
    create_session-validate_session plain now (8 ∷ []) with_user 1 1 4000000000 session_id ann_row
      starts known

delete_session-validate_session_example :
    validate_session 4000000000 (delete_session with_session session_id) session_id
    ≡ (err AuthError.session_invalid, delete_session with_session session_id)
delete_session-validate_session_example =
    delete_session-validate_session 4000000000 with_session session_id

abbrev ann_user : User
ann_user = record { id = 1; username = ann; created_at = now; is_admin = true }

signs_up : (create_user plain now [] empty ann (text "pw") true).0 ≡ ok ann_user
unfolding create_user any_row user_named text_eq
signs_up = refl

create_user-verify_login_example :
    (h : Text) × (plain.argon_hash [] (text "pw") ≡ ok h)
    × ((attempt : Text)
        → verify_login plain with_user ann attempt ≡ elim (plain.argon_verify attempt h) [
          | ok _ ↦ ok (record ann_user { created_at = timestamp now * nanos })
          | err e ↦ err e
        ])
create_user-verify_login_example =
    create_user-verify_login plain now [] empty ann (text "pw") true ann_user signs_up

abbrev booted : Result (User × Option CreatedToken) × AuthDb
booted = bootstrap_admin plain now [] (7 ∷ []) empty ann (text "pw") (text "boot")

abbrev boot_token : CreatedToken
boot_token = new_token plain now (7 ∷ []) with_user 1 (text "boot") bootstrap_scope none

boots : booted.0 ≡ ok (ann_user, some boot_token)
unfolding bootstrap_admin bootstrap_token find_user_by_name create_user create_token count_rows
    find_row any_row user_named text_eq user_has_id token_hashed
boots = refl

bootstrap_admin-idempotent_example :
    (u' : User) × (bootstrap_admin plain 5000000000 []
        (9 ∷ [])
        booted.1
        ann
        (text "other")
        (text "again")
      ≡ (ok (u', none), booted.1))
    × (u'.id ≡ ann_user.id)
bootstrap_admin-idempotent_example =
    bootstrap_admin-idempotent plain now 5000000000 [] [] (7 ∷ []) (9 ∷ []) empty ann (text "pw")
      (text "other") (text "boot") (text "again") ann_user (some boot_token) boots
