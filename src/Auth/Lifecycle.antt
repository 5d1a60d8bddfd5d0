-- ===== src/Auth/Lifecycle.antt =====
-- What a caller may rely on of a token, from its creation to its revocation.
use stark_stir_service.Common.{
  ℕ, ◌+◌, ◌*◌, ◌/◌, ltb, ◌≡◌, ◌≢◌, refl, sym, ap, ◌∙◌, true, false, not, ◌||◌, Option, none, some,
  List, ◌∷◌, inl, inr, arith, if◌then◌else◌, Text, text_eq_refl, Bool-cases,
}
use mathlib.Core.Option
use stark_stir_service.Auth.{
  AuthDb, AuthError, Crypto, Result, ok, err, TokenRow, CreatedToken, find_row, any_row,
  token_hashed, token_has_id, user_has_id, hash_bearer, timestamp, nanos, generate_bearer_string,
}
use stark_stir_service.Auth.Rows.{find_row-update}
use stark_stir_service.Auth.Tokens.{
  create_token, new_token, new_token_row, revoke_token, validate_bearer, is_expired,
}
use stark_stir_service.Auth.History.{Call, run, AllSpare, run-Tracked, any_spare}

validate_bearer-revoked :
    (c : Crypto) (now : ℕ) (d : AuthDb) (bearer : Text) (r : TokenRow)
    → find_row (token_hashed (hash_bearer c bearer)) d.tokens ≡ some r
    → r.revoked ≡ true
    → (validate_bearer c now d bearer).0 ≡ err AuthError.token_revoked
unfolding validate_bearer
validate_bearer-revoked c now d bearer r e dead = rw (e, validate_bearer, dead)

validate_bearer-live :
    (c : Crypto) (now : ℕ) (d : AuthDb) (bearer : Text) (r : TokenRow)
    → find_row (token_hashed (hash_bearer c bearer)) d.tokens ≡ some r
    → r.revoked ≡ false
    → (validate_bearer c now d bearer).0 ≡ (
        if is_expired r.expires_at now
        then err AuthError.token_expired
        else ok (record { token_id = r.id; scope = r.scope; user_id = r.created_by }))
unfolding validate_bearer
validate_bearer-live c now d bearer r e live = elim (Bool-cases (is_expired r.expires_at now)) [
  | inl late ↦ rw (e, validate_bearer, live, late)
  | inr valid ↦ rw (e, validate_bearer, live, valid)
]

-- Once the id of a stored token is revoked, its bearer string is answered with `token_revoked`,
-- at any later time and whatever calls come in between.
pub revoke_token-validate_bearer :
    (c : Crypto) (d : AuthDb) (bearer : Text) (r : TokenRow) (xs : List Call) (now : ℕ)
    → find_row (token_hashed (hash_bearer c bearer)) d.tokens ≡ some r
    → (validate_bearer c now (run c (revoke_token d r.id) xs) bearer).0
      ≡ err AuthError.token_revoked
unfolding revoke_token
revoke_token-validate_bearer c d bearer r xs now e =
    let h = hash_bearer c bearer in
    let (s, found, dead) =
      run-Tracked c h (λ s. s.revoked ≡ true) (λ _. Unit) (λ s t p. p) (λ s id q same p. refl)
        (revoke_token d r.id) xs (any_spare xs)
        (
          record r { revoked = true },
          find_row-update (token_hashed h) (token_has_id r.id) _ (λ s. refl) d.tokens
              ∙ ap (Option.map _) e
              ∙ ground arith,
          refl,
        ) in
    validate_bearer-revoked c now (run c (revoke_token d r.id) xs) bearer s found dead

-- What a stored row says of the token that was handed out.
record Matches (t : CreatedToken) (r : TokenRow) : Type 0 where
  same_id : r.id ≡ t.info.id
  same_scope : r.scope ≡ t.info.scope
  same_owner : r.created_by ≡ t.info.created_by
  same_expiry : r.expires_at ≡ Option.map timestamp t.info.expires_at
  live : r.revoked ≡ false

pub create_token-ok :
    (c : Crypto) (now : ℕ) (random : List ℕ) (d : AuthDb) (user : ℕ) (name scope : Text)
    (ttl : Option ℕ) (t : CreatedToken)
    → (create_token c now random d user name scope ttl).0 ≡ ok t
    → (t ≡ new_token c now random d user name scope ttl)
      × ((create_token c now random d user name scope ttl).1.tokens
          ≡ new_token_row c now random d user name scope ttl ∷ d.tokens)
      × ((create_token c now random d user name scope ttl).1.users ≡ d.users)
unfolding create_token
create_token-ok c now random d user name scope ttl t e =
    let h = hash_bearer c (generate_bearer_string c random) in
    elim (Bool-cases
      (any_row (token_hashed h) d.tokens || not (any_row (user_has_id user) d.users))) [
        | inl taken ↦ absurd (failed (rw taken at e))
        | inr fresh ↦
            let made : ok (new_token c now random d user name scope ttl) ≡ ok t = rw fresh at e in
            (cc made, rw fresh, rw fresh)
      ]
  where
    failed : ◌≡◌ {A = Result CreatedToken} (err AuthError.db) (ok t) → ⊥
    failed e = cc

create_token-stored :
    (c : Crypto) (now : ℕ) (random : List ℕ) (d : AuthDb) (user : ℕ) (name scope : Text)
    (ttl : Option ℕ) (t : CreatedToken)
    → (create_token c now random d user name scope ttl).0 ≡ ok t
    → (r : TokenRow) × (find_row
          (token_hashed (hash_bearer c t.bearer))
          (create_token c now random d user name scope ttl).1.tokens
        ≡ some r)
      × Matches t r
unfolding find_row
create_token-stored c now random d user name scope ttl t e =
    let (made, rows, _) = create_token-ok c now random d user name scope ttl t e in
    (
      new_token_row c now random d user name scope ttl,
      rw (rows, made, text_eq_refl (hash_bearer c (generate_bearer_string c random))),
      rw made (record {
        same_id = refl;
        same_scope = refl;
        same_owner = refl;
        same_expiry = expiry ttl;
        live = refl;
      }),
    )
  where
    expiry :
        (o : Option ℕ)
        → Option.map (λ s. timestamp (now + s * nanos)) o
          ≡ Option.map timestamp (Option.map (λ s. now + s * nanos) o)
    expiry none = refl
    expiry (some s) = refl

expires_from :
    (now later : ℕ) (ttl : Option ℕ)
    → is_expired (Option.map timestamp (Option.map (λ s. now + s * nanos) ttl)) later
      ≡ elim ttl [ none ↦ false | some s ↦ ltb ((now + s * nanos) / nanos) (later / nanos) ]
expires_from now later none = refl
expires_from now later (some s) = refl

-- A token that was created without a lifetime is good for its scope, and for its owner, at any
-- later time; one with a lifetime of s seconds is good up to the second in which it ends, and
-- answered with `token_expired` after it: whatever calls come in between, as long as none of them
-- revokes its id.
pub create_token-validate_bearer :
    (c : Crypto) (now : ℕ) (random : List ℕ) (d : AuthDb) (user : ℕ) (name scope : Text)
    (ttl : Option ℕ) (t : CreatedToken) (xs : List Call) (later : ℕ)
    → (create_token c now random d user name scope ttl).0 ≡ ok t
    → AllSpare (λ id. t.info.id ≢ id) xs
    → (validate_bearer c later
        (run c (create_token c now random d user name scope ttl).1 xs)
        t.bearer).0
      ≡ (if elim ttl [ none ↦ false | some s ↦ ltb ((now + s * nanos) / nanos) (later / nanos) ]
          then err AuthError.token_expired
          else ok (record { token_id = t.info.id; scope = scope; user_id = user }))
create_token-validate_bearer c now random d user name scope ttl t xs later e spare =
    let d' = (create_token c now random d user name scope ttl).1 in
    let (r, found, m) =
      run-Tracked c (hash_bearer c t.bearer) (Matches t) (λ id. t.info.id ≢ id)
        (λ r s m. record {
          same_id = m.same_id;
          same_scope = m.same_scope;
          same_owner = m.same_owner;
          same_expiry = m.same_expiry;
          live = m.live;
        })
        (λ r id other same m. absurd (other (sym m.same_id ∙ same))) d' xs spare
        (create_token-stored c now random d user name scope ttl t e) in
    let (created, _, _) = create_token-ok c now random d user name scope ttl t e in
    let late : is_expired r.expires_at later
        ≡ elim ttl [ none ↦ false | some s ↦ ltb ((now + s * nanos) / nanos) (later / nanos) ] =
      rw (m.same_expiry, created) (expires_from now later ttl) in
    validate_bearer-live c later (run c d' xs) t.bearer r found m.live
    ∙ rw (late, m.same_id, m.same_scope, m.same_owner, created)
