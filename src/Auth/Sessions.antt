-- ===== src/Auth/Sessions.antt =====
-- Sessions on the server, backend/app/services/auth.py.
use doc_grading.Prelude.{
  ℕ, ◌+◌, Bool, false, ◌&&◌, Option, none, some, find, put, ltb, is_none, if◌then◌else◌,
}
use doc_grading.Models.Rows.{Session, User}
use doc_grading.Models.Db.{Db}
use doc_grading.Models.Tx.{Tx, pure, modify, new_uuid, ◌>>=◌, ◌>>◌}
use doc_grading.Jobs.Defs.{seconds}
use doc_grading.Auth.Login.{is_active}

unfoldable pub put_session : ℕ → Session → Tx (Unit {0})
put_session id s = modify λ db. record db { sessions = put id s db.sessions }

abbrev pub new_session : ℕ → ℕ → ℕ → Session
new_session now lifetime user_id = record {
  user_id = user_id;
  created_at = now;
  expires_at = now + seconds lifetime;
  revoked_at = none;
}

-- `lifetime` is the setting `session_lifetime_seconds`
unfoldable pub create_session : ℕ → ℕ → ℕ → Tx ℕ
create_session now lifetime user_id = do
  id ← new_uuid
  put_session id (new_session now lifetime user_id)
  pure id

abbrev is_active_user : Option User → Bool
is_active_user none = false
is_active_user (some u) = is_active u.status

abbrev pub valid_row : ℕ → Db → Option Session → Option Session
valid_row now db none = none
valid_row now db (some s) =
    if is_none s.revoked_at && ltb now s.expires_at && is_active_user (find s.user_id db.users)
    then some s
    else none

-- the session, if it is neither revoked nor expired and its user is active
unfoldable pub get_valid_session : ℕ → ℕ → Db → Option Session
get_valid_session now id db = valid_row now db (find id db.sessions)

abbrev pub revoke_row : ℕ → ℕ → Option Session → Tx (Unit {0})
revoke_row now id none = pure tt
revoke_row now id (some s) =
    if is_none s.revoked_at then put_session id (record s { revoked_at = some now }) else pure tt

unfoldable pub revoke_session : ℕ → ℕ → Tx (Unit {0})
revoke_session now id db = revoke_row now id (find id db.sessions) db
