-- ===== src/Auth/Users.antt =====
-- The table of users, and the password login.
use stark_stir_service.Common.{
  ℕ, suc, ◌*◌, Bool, Option, none, some, ◌∷◌, if◌then◌else◌, Text, length,
}
use mathlib.Core.Option
use stark_stir_service.Auth.{
  AuthDb, AuthError, Crypto, Result, ok, err, User, UserRow, find_row, any_row, user_named,
  timestamp, nanos,
}

-- A row as it is read back: the timestamp in seconds becomes a time again.
abbrev pub row_user : UserRow → User
row_user r = record {
  id = r.id;
  username = r.username;
  created_at = r.created_at * nanos;
  is_admin = r.is_admin;
}

-- The row that is inserted.
abbrev pub new_user_row : ℕ → AuthDb → Text → Text → Bool → UserRow
new_user_row now d username password_hash is_admin = record {
  id = d.next_user;
  username = username;
  password_hash = password_hash;
  created_at = timestamp now;
  is_admin = is_admin;
}

unfoldable pub create_user : Crypto → ℕ → Text → AuthDb → Text → Text → Bool → Result User × AuthDb
create_user c now salt d username password is_admin = elim (c.argon_hash salt password) [
  | err e ↦ (err e, d)
  | ok password_hash ↦ if any_row (user_named username) d.users then (err AuthError.db, d) else (
    ok (record { id = d.next_user; username = username; created_at = now; is_admin = is_admin }),
    record d {
      users = new_user_row now d username password_hash is_admin ∷ d.users;
      next_user = suc d.next_user;
    },
  )
]

unfoldable pub find_user_by_name : AuthDb → Text → Option User
find_user_by_name d username = Option.map row_user (find_row (user_named username) d.users)

unfoldable pub count_users : AuthDb → ℕ
count_users d = length d.users

-- `verify_password(…)?; Ok(user)`.
abbrev pub verified : Result (Unit {0}) → User → Result User
verified (err e) user = err e
verified (ok _) user = ok user

unfoldable pub verify_login : Crypto → AuthDb → Text → Text → Result User
verify_login c d username password = elim (find_row (user_named username) d.users) [
  | none ↦ err AuthError.invalid_credentials
  | some r ↦ verified (c.argon_verify password r.password_hash) (row_user r)
]
