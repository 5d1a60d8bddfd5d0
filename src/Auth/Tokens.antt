-- ===== src/Auth/Tokens.antt =====
-- The table of API tokens: creation, listing, revocation, validation of a bearer string.
use stark_stir_service.Common.{
  ℕ, suc, ◌+◌, ◌*◌, Bool, true, false, not, ◌||◌, Option, none, some, List, ◌∷◌, map, if◌then◌else◌,
  ltb, Text, text, ◌==◌,
}
use mathlib.Core.Option
use stark_stir_service.Auth.{
  AuthDb, AuthError, Crypto, Result, ok, err, User, ApiTokenInfo, CreatedToken, ValidatedToken,
  TokenRow, find_row, any_row, update_rows, count_rows, user_has_id, token_hashed, token_has_id,
  timestamp, nanos, hash_bearer, generate_bearer_string,
}
use stark_stir_service.Auth.Users.{create_user, find_user_by_name}

-- The row that is inserted.
abbrev pub new_token_row : Crypto → ℕ → List ℕ → AuthDb → ℕ → Text → Text → Option ℕ → TokenRow
new_token_row c now random d user_id name scope ttl_secs = record {
  id = d.next_token;
  name = name;
  scope = scope;
  token_hash = hash_bearer c (generate_bearer_string c random);
  created_at = timestamp now;
  expires_at = Option.map (λ s. timestamp (now + s * nanos)) ttl_secs;
  revoked = false;
  last_used = none;
  created_by = user_id;
}

-- What the caller is shown.
abbrev pub new_token : Crypto → ℕ → List ℕ → AuthDb → ℕ → Text → Text → Option ℕ → CreatedToken
new_token c now random d user_id name scope ttl_secs = record {
  info = record {
    id = d.next_token;
    name = name;
    scope = scope;
    created_at = now;
    expires_at = Option.map (λ s. now + s * nanos) ttl_secs;
    revoked = false;
    last_used = none;
    created_by = user_id;
  };
  bearer = generate_bearer_string c random;
}

unfoldable pub create_token :
    Crypto → ℕ → List ℕ → AuthDb → ℕ → Text → Text → Option ℕ → Result CreatedToken × AuthDb
create_token c now random d user_id name scope ttl_secs =
    let token_hash = hash_bearer c (generate_bearer_string c random) in
    if any_row (token_hashed token_hash) d.tokens || not (any_row (user_has_id user_id) d.users)
    then (err AuthError.db, d)
    else (
      ok (new_token c now random d user_id name scope ttl_secs),
      record d {
        tokens = new_token_row c now random d user_id name scope ttl_secs ∷ d.tokens;
        next_token = suc d.next_token;
      },
    )

abbrev pub row_info : TokenRow → ApiTokenInfo
row_info r = record {
  id = r.id;
  name = r.name;
  scope = r.scope;
  created_at = r.created_at * nanos;
  expires_at = Option.map (λ t. t * nanos) r.expires_at;
  revoked = r.revoked;
  last_used = Option.map (λ t. t * nanos) r.last_used;
  created_by = r.created_by;
}

-- `ORDER BY id DESC` is the newest row first.
unfoldable pub list_tokens : AuthDb → List ApiTokenInfo
list_tokens d = map row_info d.tokens

unfoldable pub revoke_token : AuthDb → ℕ → AuthDb
revoke_token d token_id = record d {
  tokens = update_rows (token_has_id token_id) (λ r. record r { revoked = true }) d.tokens;
}

-- `expires_at` is set and lies before the current second.
abbrev pub is_expired : Option ℕ → ℕ → Bool
is_expired none now = false
is_expired (some exp) now = ltb exp (timestamp now)

unfoldable pub validate_bearer : Crypto → ℕ → AuthDb → Text → Result ValidatedToken × AuthDb
validate_bearer c now d bearer = elim (find_row (token_hashed (hash_bearer c bearer)) d.tokens) [
  | none ↦ (err AuthError.invalid_token, d)
  | some r ↦
      if r.revoked
      then (err AuthError.token_revoked, d)
      else (if is_expired r.expires_at now then (err AuthError.token_expired, d) else (
        ok (record { token_id = r.id; scope = r.scope; user_id = r.created_by }),
        record d {
          tokens =
              update_rows (token_has_id r.id) (λ s. record s { last_used = some (timestamp now) })
                d.tokens;
        },
      ))
]

abbrev pub bootstrap_scope : Text
bootstrap_scope = text "stark:prove stark:verify stark:read"

abbrev pub bootstrap_result :
    User → Result CreatedToken × AuthDb → Result (User × Option CreatedToken) × AuthDb
bootstrap_result user (err e, d) = (err e, d)
bootstrap_result user (ok t, d) = (ok (user, some t), d)

-- The second half of `bootstrap_admin`, once the user is known.
unfoldable pub bootstrap_token :
    Crypto → ℕ → List ℕ → AuthDb → User → Text → Result (User × Option CreatedToken) × AuthDb
unfolding create_token
bootstrap_token c now random d user name =
    if count_rows (λ (r : TokenRow). not r.revoked) d.tokens == 0
    then bootstrap_result user (create_token c now random d user.id name bootstrap_scope none)
    else (ok (user, none), d)

abbrev pub bootstrap_with :
    Crypto → ℕ → List ℕ → Text → Result User × AuthDb → Result (User × Option CreatedToken) × AuthDb
bootstrap_with c now random token_name (err e, d) = (err e, d)
bootstrap_with c now random token_name (ok user, d) = bootstrap_token c now random d user token_name

unfoldable pub bootstrap_admin :
    Crypto
    → ℕ
    → Text
    → List ℕ
    → AuthDb
    → Text
    → Text
    → Text
    → Result (User × Option CreatedToken) × AuthDb
unfolding bootstrap_token create_user find_user_by_name
bootstrap_admin c now salt random d username password token_name =
    elim (find_user_by_name d username) [
      | some user ↦ bootstrap_token c now random d user token_name
      | none ↦
          bootstrap_with c now random token_name (create_user c now salt d username password true)
    ]
