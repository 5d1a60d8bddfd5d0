-- ===== src/Auth/Bootstrap.antt =====
-- The bootstrap at startup is idempotent.
use stark_stir_service.Common.{
  ℕ, ◌≡◌, refl, ◌∙◌, true, false, not, Option, none, some, List, inl, inr, arith, Text,
  text_eq_refl, ◌==◌, Bool-cases, Option-cases,
}
use stark_stir_service.Auth.{
  AuthDb, Crypto, Result, ok, err, User, TokenRow, CreatedToken, find_row, count_rows,
}
use stark_stir_service.Auth.Users.{create_user, new_user_row, find_user_by_name, row_user}
use stark_stir_service.Auth.Tokens.{
  create_token, bootstrap_admin, bootstrap_token, bootstrap_result, bootstrap_with, bootstrap_scope,
}
use stark_stir_service.Auth.Lifecycle.{create_token-ok}
use stark_stir_service.Auth.Logins.{create_user-ok}

abbrev live_tokens : AuthDb → ℕ
live_tokens d = count_rows (λ (r : TokenRow). not r.revoked) d.tokens

bootstrap_admin-settled :
    (c : Crypto) (now : ℕ) (salt : Text) (random : List ℕ) (d : AuthDb) (name password token : Text)
    (u : User)
    → find_user_by_name d name ≡ some u
    → (live_tokens d == 0) ≡ false
    → bootstrap_admin c now salt random d name password token ≡ (ok (u, none), d)
unfolding bootstrap_admin bootstrap_token
bootstrap_admin-settled c now salt random d name password token u found live =
    rw (found, bootstrap_admin, live)

-- What a successful call leaves behind.
record Settled (d d' : AuthDb) (user u : User) : Type 0 where
  same_user : u ≡ user
  same_users : d'.users ≡ d.users
  has_live : (live_tokens d' == 0) ≡ false

bootstrap_token-Settled :
    (c : Crypto) (now : ℕ) (random : List ℕ) (d : AuthDb) (user u : User) (token : Text)
    (o : Option CreatedToken)
    → (bootstrap_token c now random d user token).0 ≡ ok (u, o)
    → Settled d (bootstrap_token c now random d user token).1 user u
unfolding bootstrap_token count_rows
bootstrap_token-Settled c now random d user u token o h = elim (Bool-cases (live_tokens d == 0)) [
  | inl dead ↦ rw dead (
      handled (create_token c now random d user.id token bootstrap_scope none) minted
        (rw dead at h))
  | inr live ↦
      let e : ok (user, none) ≡ ok (u, o) = rw live at h in
      rw live (record { same_user = cc e; same_users = refl; has_live = live })
]
  where
    handled :
        (made : Result CreatedToken × AuthDb)
        → ((t : CreatedToken)
            → made.0 ≡ ok t
            → (made.1.users ≡ d.users) × ((live_tokens made.1 == 0) ≡ false))
        → (bootstrap_result user made).0 ≡ ok (u, o)
        → Settled d (bootstrap_result user made).1 user u
    handled (ok t, d') facts e =
        let (users, live) = facts t refl in
        record { same_user = cc e; same_users = users; has_live = live }
    handled (err x, d') facts e = cc

    minted :
        (t : CreatedToken)
        → (create_token c now random d user.id token bootstrap_scope none).0 ≡ ok t
        → ((create_token c now random d user.id token bootstrap_scope none).1.users ≡ d.users)
          × ((live_tokens (create_token c now random d user.id token bootstrap_scope none).1 == 0)
              ≡ false)
    minted t e =
        let (_, rows, users) =
          create_token-ok c now random d user.id token bootstrap_scope none t e in
        (users, rw rows (ground arith))

find_user_by_name-users :
    (d d' : AuthDb) (name : Text)
    → d'.users ≡ d.users
    → find_user_by_name d' name ≡ find_user_by_name d name
unfolding find_user_by_name
find_user_by_name-users d d' name e = rw e

-- The user is in the table, and some token is live.
abbrev Ready : AuthDb → Text → User → Type 0
Ready d name u =
    (u' : User) × (find_user_by_name d name ≡ some u')
    × (u'.id ≡ u.id)
    × ((live_tokens d == 0) ≡ false)

Settled-Ready :
    (d d' : AuthDb) (name : Text) (user u found : User)
    → find_user_by_name d name ≡ some found
    → found.id ≡ user.id
    → Settled d d' user u
    → Ready d' name u
Settled-Ready d d' name user u found e same s =
    (found, find_user_by_name-users d d' name s.same_users ∙ e, cc (same, s.same_user), s.has_live)

create_user-found :
    (c : Crypto) (now : ℕ) (salt : Text) (d : AuthDb) (name password : Text) (v : User)
    → (create_user c now salt d name password true).0 ≡ ok v
    → (w : User) × (find_user_by_name (create_user c now salt d name password true).1 name ≡ some w)
      × (w.id ≡ v.id)
unfolding find_user_by_name find_row
create_user-found c now salt d name password v e =
    let (h, hashed, made, kept) = create_user-ok c now salt d name password true v e in
    (row_user (new_user_row now d name h true), rw (kept, text_eq_refl name), cc made)

bootstrap_admin-Ready :
    (c : Crypto) (now : ℕ) (salt : Text) (random : List ℕ) (d : AuthDb) (name password token : Text)
    (u : User) (o : Option CreatedToken)
    → (bootstrap_admin c now salt random d name password token).0 ≡ ok (u, o)
    → Ready (bootstrap_admin c now salt random d name password token).1 name u
unfolding bootstrap_admin
bootstrap_admin-Ready c now salt random d name password token u o h =
    elim (Option-cases (find_user_by_name d name)) [
      | inl e ↦
          rw (e, bootstrap_admin)
            (handled (create_user c now salt d name password true)
              (create_user-found c now salt d name password) (rw (e, bootstrap_admin) at h))
      | inr (user, e) ↦
          rw (e, bootstrap_admin)
            (Settled-Ready d _ name user u user e refl (
              bootstrap_token-Settled c now random d user u token o (rw (e, bootstrap_admin) at h)))
    ]
  where
    handled :
        (made : Result User × AuthDb)
        → ((v : User)
            → made.0 ≡ ok v
            → (w : User) × (find_user_by_name made.1 name ≡ some w) × (w.id ≡ v.id))
        → (bootstrap_with c now random token made).0 ≡ ok (u, o)
        → Ready (bootstrap_with c now random token made).1 name u
    handled (ok v, d') facts e =
        let (w, found, same) = facts v refl in
        Settled-Ready d' _ name v u w found same
          (bootstrap_token-Settled c now random d' v u token o e)
    handled (err x, d') facts e = cc

-- After a successful bootstrap a second one, with any password and any token name, mints no token,
-- leaves the database as it is, and returns the user of the first.
pub bootstrap_admin-idempotent :
    (c : Crypto) (now now' : ℕ) (salt salt' : Text) (random random' : List ℕ) (d : AuthDb)
    (name password password' token token' : Text) (u : User) (o : Option CreatedToken)
    → (bootstrap_admin c now salt random d name password token).0 ≡ ok (u, o)
    → let d' = (bootstrap_admin c now salt random d name password token).1 in
      (u' : User) × (bootstrap_admin c now' salt' random' d' name password' token'
        ≡ (ok (u', none), d'))
      × (u'.id ≡ u.id)
bootstrap_admin-idempotent c now now' salt salt' random random' d name password password' token
      token' u o h =
    let (u', found, same, live) =
      bootstrap_admin-Ready c now salt random d name password token u o h in
    (u', bootstrap_admin-settled c now' salt' random' _ name password' token' u' found live, same)
