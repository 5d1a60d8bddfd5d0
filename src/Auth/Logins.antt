-- ===== src/Auth/Logins.antt =====
-- What a caller may rely on of sessions, of the password login and of the bootstrap at startup.
use stark_stir_service.Common.{
  ℕ, suc, ◌+◌, ◌*◌, ◌/◌, ◌≡◌, refl, ◌∙◌, Bool, not, ◌||◌, some, List, ◌∷◌, inl, inr, if◌then◌else◌,
  ltb, Text, text_eq_refl, Bool-cases,
}
use stark_stir_service.Auth.{
  AuthDb, AuthError, Crypto, Result, ok, err, User, UserRow, SessionRow, find_row, any_row,
  session_has_id, user_has_id, user_named, timestamp, nanos, generate_session_id,
}
use stark_stir_service.Auth.Rows.{find_row-delete_self}
use stark_stir_service.Auth.Users.{create_user, new_user_row, verify_login, verified}
use stark_stir_service.Auth.Sessions.{
  create_session, new_session_row, validate_session, delete_session, check_session,
}

-- A session that was deleted is gone, and its id is answered with `session_invalid`.
pub delete_session-validate_session :
    (now : ℕ) (d : AuthDb) (id : Text)
    → validate_session now (delete_session d id) id
      ≡ (err AuthError.session_invalid, delete_session d id)
unfolding validate_session delete_session
delete_session-validate_session now d id =
    rw (find_row-delete_self (session_has_id id) d.sessions, validate_session)

validate_session-found :
    (now : ℕ) (d : AuthDb) (id : Text) (s : SessionRow) (u : UserRow)
    → find_row (session_has_id id) d.sessions ≡ some s
    → find_row (user_has_id s.user_id) d.users ≡ some u
    → validate_session now d id ≡ check_session now d id s u
unfolding validate_session
validate_session-found now d id s u e f = rw (e, validate_session, f)

create_session-ok :
    (c : Crypto) (now : ℕ) (random : List ℕ) (d : AuthDb) (user ttl_hours : ℕ) (id : Text)
    → (create_session c now random d user ttl_hours).0 ≡ ok id
    → (id ≡ generate_session_id c random)
      × ((create_session c now random d user ttl_hours).1
          ≡ record d { sessions = new_session_row c now random user ttl_hours ∷ d.sessions })
unfolding create_session
create_session-ok c now random d user ttl_hours id e =
    let new = generate_session_id c random in
    elim (Bool-cases
      (any_row (session_has_id new) d.sessions || not (any_row (user_has_id user) d.users))) [
        | inl taken ↦ absurd (failed (rw taken at e))
        | inr fresh ↦ let made : ok new ≡ ok id = rw fresh at e in (cc made, rw fresh)
      ]
  where
    failed : ◌≡◌ {A = Result Text} (err AuthError.db) (ok id) → ⊥
    failed e = cc

-- A fresh session names its user until it expires; the first use after that deletes it.
pub create_session-validate_session :
    (c : Crypto) (now : ℕ) (random : List ℕ) (d : AuthDb) (user ttl_hours later : ℕ) (id : Text)
    (u : UserRow)
    → (create_session c now random d user ttl_hours).0 ≡ ok id
    → find_row (user_has_id user) d.users ≡ some u
    → let d' = (create_session c now random d user ttl_hours).1 in
      let expires = (now + ttl_hours * 3600 * nanos) / nanos * nanos in
      validate_session later d' id ≡ (
        if ltb expires later then (err AuthError.session_invalid, delete_session d' id) else (
          ok (record {
            user_id = user;
            username = u.username;
            is_admin = u.is_admin;
            expires_at = expires;
          }),
          d',
        ))
unfolding check_session find_row
create_session-validate_session c now random d user ttl_hours later id u e f =
    let new = generate_session_id c random in
    let row = new_session_row c now random user ttl_hours in
    let (made, kept) = create_session-ok c now random d user ttl_hours id e in
    rw (kept, made)
      (validate_session-found later (record d { sessions = row ∷ d.sessions }) new row u
        (rw (text_eq_refl new)) f)

pub create_user-ok :
    (c : Crypto) (now : ℕ) (salt : Text) (d : AuthDb) (name password : Text) (admin : Bool)
    (u : User)
    → (create_user c now salt d name password admin).0 ≡ ok u
    → (h : Text) × (c.argon_hash salt password ≡ ok h)
      × (u ≡ record { id = d.next_user; username = name; created_at = now; is_admin = admin })
      × ((create_user c now salt d name password admin).1 ≡ record d {
        users = new_user_row now d name h admin ∷ d.users;
        next_user = suc d.next_user;
      })
unfolding create_user
create_user-ok c now salt d name password admin u e = hashed (c.argon_hash salt password) refl
  where
    refused : (x : AuthError) → ◌≡◌ {A = Result User} (err x) (ok u) → ⊥
    refused x e = cc

    hashed :
        (r : Result Text)
        → c.argon_hash salt password ≡ r
        → (h : Text) × (c.argon_hash salt password ≡ ok h)
          × (u ≡ record { id = d.next_user; username = name; created_at = now; is_admin = admin })
          × ((create_user c now salt d name password admin).1 ≡ record d {
            users = new_user_row now d name h admin ∷ d.users;
            next_user = suc d.next_user;
          })
    hashed (err x) f = absurd (refused x (rw (f, create_user) at e))
    hashed (ok h) f = elim (Bool-cases (any_row (user_named name) d.users)) [
      | inl taken ↦ absurd (refused AuthError.db (rw (f, create_user, taken) at e))
      | inr fresh ↦
          let made : ok
                (record { id = d.next_user; username = name; created_at = now; is_admin = admin })
              ≡ ok u =
            rw (f, create_user, fresh) at e in
          (h, f, cc made, rw (f, create_user, fresh))
    ]

stored_login :
    (c : Crypto) (now : ℕ) (d d' : AuthDb) (name h : Text) (admin : Bool) (u : User)
    → u ≡ record { id = d.next_user; username = name; created_at = now; is_admin = admin }
    → d'
      ≡ record d { users = new_user_row now d name h admin ∷ d.users; next_user = suc d.next_user }
    → (attempt : Text)
    → verify_login c d' name attempt
      ≡ verified (c.argon_verify attempt h) (record u { created_at = timestamp now * nanos })
unfolding verify_login find_row
stored_login c now d d' name h admin u made kept attempt =
    rw (kept, verify_login, text_eq_refl name, made)

verified-cases :
    (r : Result (Unit {0})) (u : User) → verified r u ≡ elim r [ ok _ ↦ ok u | err e ↦ err e ]
verified-cases (ok _) u = refl
verified-cases (err e) u = refl

-- After a user was created, a login under that name succeeds for exactly the passwords that Argon2
-- verifies against the hash made at the creation, under the id and the rights given then; any other
-- password gets the error of the verification.
pub create_user-verify_login :
    (c : Crypto) (now : ℕ) (salt : Text) (d : AuthDb) (name password : Text) (admin : Bool)
    (u : User)
    → (create_user c now salt d name password admin).0 ≡ ok u
    → (h : Text) × (c.argon_hash salt password ≡ ok h)
      × ((attempt : Text)
          → verify_login c (create_user c now salt d name password admin).1 name attempt
            ≡ elim (c.argon_verify attempt h) [
              | ok _ ↦ ok (record u { created_at = timestamp now * nanos })
              | err e ↦ err e
            ])
create_user-verify_login c now salt d name password admin u e =
    let (h, hashed, made, kept) = create_user-ok c now salt d name password admin u e in
    (
      h,
      hashed,
      λ attempt.
          stored_login c now d _ name h admin u made kept attempt
          ∙ verified-cases (c.argon_verify attempt h)
              (record u { created_at = timestamp now * nanos }),
    )
