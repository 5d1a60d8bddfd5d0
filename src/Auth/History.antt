-- ===== src/Auth/History.antt =====
-- Sequences of calls, and what becomes of a token and of a session in the course of one.
use stark_stir_service.Common.{
  ℕ, ◌≡◌, refl, ap, ◌∙◌, Bool, true, false, not, ◌||◌, Option, none, some, List, [], ◌∷◌, ◌⊎◌, inl,
  inr, arith, if◌then◌else◌, Text, text_eq, text_eq_iff, ◌==◌, ==_iff, Bool-cases, Option-cases,
}
use mathlib.Core.Option
use stark_stir_service.Auth.{
  AuthDb, Crypto, Result, ok, err, User, TokenRow, CreatedToken, DeviceStatus, find_row, any_row,
  update_rows, count_rows, token_hashed, token_has_id, user_has_id, hash_bearer, timestamp,
  generate_bearer_string,
}
use stark_stir_service.Auth.Rows.{find_row-update, any_row-find}
use stark_stir_service.Auth.Users.{create_user, find_user_by_name}
use stark_stir_service.Auth.Tokens.{
  create_token, new_token_row, revoke_token, validate_bearer, bootstrap_admin, bootstrap_token,
  bootstrap_result, bootstrap_with, bootstrap_scope, is_expired,
}
use stark_stir_service.Auth.Sessions.{create_session, validate_session, delete_session}
use stark_stir_service.Auth.Devices.{
  register_device, remove_device, set_device_status, touch_device_heartbeat,
}

-- The calls that write to the database, each with its time and its random bytes.
pub data Call : Type 0 where
  creates_user : ℕ → Text → Text → Text → Bool → Call
  creates_token : ℕ → List ℕ → ℕ → Text → Text → Option ℕ → Call
  revokes : ℕ → Call
  validates : ℕ → Text → Call
  creates_session : ℕ → List ℕ → ℕ → ℕ → Call
  validates_session : ℕ → Text → Call
  deletes_session : Text → Call
  bootstraps : ℕ → Text → List ℕ → Text → Text → Text → Call
  registers : ℕ → Text → Text → Option Text → ℕ → ℕ → Option ℕ → Option Text → Call
  removes : ℕ → Call
  sets_status : ℕ → ℕ → DeviceStatus → Call
  touches : ℕ → ℕ → Call

unfoldable pub step : Crypto → AuthDb → Call → AuthDb
step c d (creates_user now salt name password admin) =
    (create_user c now salt d name password admin).1
step c d (creates_token now random user name scope ttl) =
    (create_token c now random d user name scope ttl).1
step c d (revokes id) = revoke_token d id
step c d (validates now bearer) = (validate_bearer c now d bearer).1
step c d (creates_session now random user ttl) = (create_session c now random d user ttl).1
step c d (validates_session now id) = (validate_session now d id).1
step c d (deletes_session id) = delete_session d id
step c d (bootstraps now salt random name password token) =
    (bootstrap_admin c now salt random d name password token).1
step c d (registers now name address bearer log2 ram by notes) =
    (register_device now d name address bearer log2 ram by notes).1
step c d (removes id) = remove_device d id
step c d (sets_status now id status) = set_device_status now d id status
step c d (touches now id) = touch_device_heartbeat now d id

unfoldable pub run : Crypto → AuthDb → List Call → AuthDb
run c d [] = d
run c d (x ∷ xs) = run c (step c d x) xs

-- The tokens of a call that mints one: unchanged, or with a row of a new hash in front.
abbrev Grown : List TokenRow → List TokenRow → Type 0
Grown ts ts' =
    (ts' ≡ ts)
    ⊎ ((row : TokenRow) × (any_row (token_hashed row.token_hash) ts ≡ false) × (ts' ≡ row ∷ ts))

create_token-Grown :
    (c : Crypto) (now : ℕ) (random : List ℕ) (d : AuthDb) (user : ℕ) (name scope : Text)
    (ttl : Option ℕ)
    → Grown d.tokens (create_token c now random d user name scope ttl).1.tokens
unfolding create_token
create_token-Grown c now random d user name scope ttl =
    let h = hash_bearer c (generate_bearer_string c random) in
    elim (Bool-cases
      (any_row (token_hashed h) d.tokens || not (any_row (user_has_id user) d.users))) [
        | inl taken ↦ inl (rw taken)
        | inr fresh ↦
            inr (new_token_row c now random d user name scope ttl, or_left _ _ fresh, rw fresh)
      ]
  where
    or_left : (a b : Bool) → (a || b) ≡ false → a ≡ false
    or_left a b e = ground arith

create_user-tokens :
    (c : Crypto) (now : ℕ) (salt : Text) (d : AuthDb) (name password : Text) (admin : Bool)
    → (create_user c now salt d name password admin).1.tokens ≡ d.tokens
unfolding create_user
create_user-tokens c now salt d name password admin = ground arith

create_session-tokens :
    (c : Crypto) (now : ℕ) (random : List ℕ) (d : AuthDb) (user ttl : ℕ)
    → (create_session c now random d user ttl).1.tokens ≡ d.tokens
unfolding create_session
create_session-tokens c now random d user ttl = ground arith

validate_session-tokens :
    (now : ℕ) (d : AuthDb) (id : Text) → (validate_session now d id).1.tokens ≡ d.tokens
unfolding validate_session
validate_session-tokens now d id = ground arith

register_device-tokens :
    (now : ℕ) (d : AuthDb) (name address : Text) (bearer : Option Text) (log2 ram : ℕ)
    (by : Option ℕ) (notes : Option Text)
    → (register_device now d name address bearer log2 ram by notes).1.tokens ≡ d.tokens
unfolding register_device
register_device-tokens now d name address bearer log2 ram by notes = ground arith

bootstrap_token-Grown :
    (c : Crypto) (now : ℕ) (random : List ℕ) (d : AuthDb) (user : User) (name : Text)
    → Grown d.tokens (bootstrap_token c now random d user name).1.tokens
unfolding bootstrap_token
bootstrap_token-Grown c now random d user name =
    elim (Bool-cases (count_rows (λ (r : TokenRow). not r.revoked) d.tokens == 0)) [
      | inl dead ↦ rw dead (
          handled (create_token c now random d user.id name bootstrap_scope none)
            (create_token-Grown c now random d user.id name bootstrap_scope none))
      | inr live ↦ inl (rw live)
    ]
  where
    handled :
        (made : Result CreatedToken × AuthDb)
        → Grown d.tokens made.1.tokens
        → Grown d.tokens (bootstrap_result user made).1.tokens
    handled (ok t, d') g = g
    handled (err e, d') g = g

bootstrap_admin-Grown :
    (c : Crypto) (now : ℕ) (salt : Text) (random : List ℕ) (d : AuthDb) (name password token : Text)
    → Grown d.tokens (bootstrap_admin c now salt random d name password token).1.tokens
unfolding bootstrap_admin
bootstrap_admin-Grown c now salt random d name password token =
    elim (Option-cases (find_user_by_name d name)) [
      | inl none_e ↦
          rw (none_e, bootstrap_admin)
            (handled (create_user c now salt d name password true)
              (create_user-tokens c now salt d name password true))
      | inr (user, e) ↦ rw (e, bootstrap_admin) (bootstrap_token-Grown c now random d user token)
    ]
  where
    handled :
        (made : Result User × AuthDb)
        → made.1.tokens ≡ d.tokens
        → Grown d.tokens (bootstrap_with c now random token made).1.tokens
    handled (ok user, d') e = rw (← e) (bootstrap_token-Grown c now random d' user token)
    handled (err x, d') e = inl e

-- Calls that may revoke only ids for which `P` holds.
abbrev pub Spares : (ℕ → Type 0) → Call → Type 0
Spares P (revokes id) = P id
Spares P (creates_user _ _ _ _ _) = Unit
Spares P (creates_token _ _ _ _ _ _) = Unit
Spares P (validates _ _) = Unit
Spares P (creates_session _ _ _ _) = Unit
Spares P (validates_session _ _) = Unit
Spares P (deletes_session _) = Unit
Spares P (bootstraps _ _ _ _ _ _) = Unit
Spares P (registers _ _ _ _ _ _ _ _) = Unit
Spares P (removes _) = Unit
Spares P (sets_status _ _ _) = Unit
Spares P (touches _ _) = Unit

abbrev pub AllSpare : (ℕ → Type 0) → List Call → Type 0
AllSpare P [] = Unit
AllSpare P (x ∷ xs) = Spares P x × AllSpare P xs

-- With no id to spare, every history will do.
pub any_spare : (xs : List Call) → AllSpare (λ _. Unit {0}) xs
any_spare [] = tt
any_spare (x ∷ xs) = (one x, any_spare xs)
  where
    one : (x : Call) → Spares (λ _. Unit {0}) x
    one (revokes id) = tt
    one (creates_user _ _ _ _ _) = tt
    one (creates_token _ _ _ _ _ _) = tt
    one (validates _ _) = tt
    one (creates_session _ _ _ _) = tt
    one (validates_session _ _) = tt
    one (deletes_session _) = tt
    one (bootstraps _ _ _ _ _ _) = tt
    one (registers _ _ _ _ _ _ _ _) = tt
    one (removes _) = tt
    one (sets_status _ _ _) = tt
    one (touches _ _) = tt

-- The row under the hash `h` keeps a property that a use does not change, nor a revocation that
-- the calls may make.
module _ (c : Crypto) (h : Text) (P : TokenRow → Type 0) (Q : ℕ → Type 0)
    (use_keeps : (r : TokenRow) (t : ℕ) → P r → P (record r { last_used = some t }))
    (revoke_keeps : (r : TokenRow) (id : ℕ)
      → Q id
      → r.id ≡ id
      → P r
      → P (record r { revoked = true })) where
  abbrev Tracked : List TokenRow → Type 0
  Tracked ts = (r : TokenRow) × (find_row (token_hashed h) ts ≡ some r) × P r

  Grown-Tracked : (ts ts' : List TokenRow) → Grown ts ts' → Tracked ts → Tracked ts'
  unfolding find_row
  Grown-Tracked ts ts' (inl e) (r, f, p) = (r, rw e f, p)
  Grown-Tracked ts ts' (inr (row, fresh, e)) (r, f, p) = (
    r,
    rw e (elim (Bool-cases (text_eq row.token_hash h)) [
      | inl same ↦ absurd (clash ((text_eq_iff row.token_hash h).0 same))
      | inr other ↦ rw other f
    ]),
    p,
  )
    where
      clash : row.token_hash ≡ h → ⊥
      clash e = cc (any_row-find (token_hashed h) ts r f, rw e at fresh)

  update-Tracked :
      (q : TokenRow → Bool) (f : TokenRow → TokenRow) (ts : List TokenRow)
      → ((r : TokenRow) → (f r).token_hash ≡ r.token_hash)
      → ((r : TokenRow) → q r ≡ true → P r → P (f r))
      → Tracked ts
      → Tracked (update_rows q f ts)
  update-Tracked q f ts same keeps (r, e, p) = (
    if q r then f r else r,
    find_row-update (token_hashed h) q f (λ s. rw (same s)) ts
        ∙ ap (Option.map (λ s. if q s then f s else s)) e,
    elim (Bool-cases (q r)) [ inl y ↦ rw y (keeps r y p) | inr n ↦ rw n p ],
  )

  validate-Tracked :
      (d : AuthDb) (now : ℕ) (bearer : Text)
      → Tracked d.tokens
      → Tracked (validate_bearer c now d bearer).1.tokens
  unfolding validate_bearer
  validate-Tracked d now bearer t =
      elim (Option-cases (find_row (token_hashed (hash_bearer c bearer)) d.tokens)) [
        | inl e ↦ rw (e, validate_bearer) t
        | inr (r, e) ↦ elim (Bool-cases r.revoked) [
          | inl dead ↦ rw (e, validate_bearer, dead) t
          | inr live ↦ elim (Bool-cases (is_expired r.expires_at now)) [
            | inl late ↦ rw (e, validate_bearer, live, late) t
            | inr valid ↦
                rw (e, validate_bearer, live, valid)
                  (update-Tracked (token_has_id r.id) _ d.tokens (λ s. refl)
                    (λ s _ p. use_keeps s (timestamp now) p) t)
          ]
        ]
      ]

  step-Tracked :
      (d : AuthDb) (x : Call) → Spares Q x → Tracked d.tokens → Tracked (step c d x).tokens
  unfolding step delete_session remove_device set_device_status touch_device_heartbeat revoke_token
  step-Tracked d (creates_user now salt name password admin) s t =
      rw (create_user-tokens c now salt d name password admin) t
  step-Tracked d (creates_token now random user name scope ttl) s t =
      Grown-Tracked _ _ (create_token-Grown c now random d user name scope ttl) t
  step-Tracked d (revokes id) s t =
      update-Tracked (token_has_id id) _ d.tokens (λ r. refl)
        (λ r e p. revoke_keeps r id s ((==_iff r.id id).0 e) p) t
  step-Tracked d (validates now bearer) s t = validate-Tracked d now bearer t
  step-Tracked d (creates_session now random user ttl) s t =
      rw (create_session-tokens c now random d user ttl) t
  step-Tracked d (validates_session now id) s t = rw (validate_session-tokens now d id) t
  step-Tracked d (deletes_session id) s t = t
  step-Tracked d (bootstraps now salt random name password token) s t =
      Grown-Tracked _ _ (bootstrap_admin-Grown c now salt random d name password token) t
  step-Tracked d (registers now name address bearer log2 ram by notes) s t =
      rw (register_device-tokens now d name address bearer log2 ram by notes) t
  step-Tracked d (removes id) s t = t
  step-Tracked d (sets_status now id status) s t = t
  step-Tracked d (touches now id) s t = t

  pub run-Tracked :
      (d : AuthDb) (xs : List Call) → AllSpare Q xs → Tracked d.tokens → Tracked (run c d xs).tokens
  unfolding run
  run-Tracked d [] s t = t
  run-Tracked d (x ∷ xs) s t = run-Tracked (step c d x) xs s.1 (step-Tracked d x s.0 t)
