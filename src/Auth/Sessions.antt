-- ===== src/Auth/Sessions.antt =====
-- The table of admin sessions.
use stark_stir_service.Common.{
  ℕ, ◌+◌, ◌*◌, not, ◌||◌, none, some, List, ◌∷◌, if◌then◌else◌, ltb, Text,
}
use stark_stir_service.Auth.{
  AuthDb, AuthError, Crypto, Result, ok, err, Session, SessionRow, UserRow, find_row, any_row,
  delete_rows, user_has_id, session_has_id, timestamp, nanos, generate_session_id,
}

-- The row that is inserted.
abbrev pub new_session_row : Crypto → ℕ → List ℕ → ℕ → ℕ → SessionRow
new_session_row c now random user_id ttl_hours = record {
  id = generate_session_id c random;
  user_id = user_id;
  created_at = timestamp now;
  expires_at = timestamp (now + ttl_hours * 3600 * nanos);
}

unfoldable pub create_session : Crypto → ℕ → List ℕ → AuthDb → ℕ → ℕ → Result Text × AuthDb
create_session c now random d user_id ttl_hours =
    let session_id = generate_session_id c random in
    if any_row (session_has_id session_id) d.sessions || not (any_row (user_has_id user_id) d.users)
    then (err AuthError.db, d)
    else (
      ok session_id,
      record d { sessions = new_session_row c now random user_id ttl_hours ∷ d.sessions },
    )

unfoldable pub delete_session : AuthDb → Text → AuthDb
delete_session d session_id = record d {
  sessions = delete_rows (session_has_id session_id) d.sessions;
}

-- The rows of the join, tested for expiry.
unfoldable pub check_session : ℕ → AuthDb → Text → SessionRow → UserRow → Result Session × AuthDb
unfolding delete_session
check_session now d session_id s u =
    if ltb (s.expires_at * nanos) now
    then (err AuthError.session_invalid, delete_session d session_id)
    else (
      ok (record {
        user_id = s.user_id;
        username = u.username;
        is_admin = u.is_admin;
        expires_at = s.expires_at * nanos;
      }),
      d,
    )

unfoldable pub validate_session : ℕ → AuthDb → Text → Result Session × AuthDb
unfolding check_session
validate_session now d session_id = elim (find_row (session_has_id session_id) d.sessions) [
  | none ↦ (err AuthError.session_invalid, d)
  | some s ↦ elim (find_row (user_has_id s.user_id) d.users) [
    | none ↦ (err AuthError.session_invalid, d)
    | some u ↦ check_session now d session_id s u
  ]
]
