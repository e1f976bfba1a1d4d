-- ===== src/Auth/Login.antt =====
-- `_authenticate_user` of backend/app/services/auth.py, with the lockout that an account carries.
use doc_grading.Prelude.{
  ℕ, ◌+◌, String, Bool, true, false, ◌&&◌, Option, none, some, put, find_by, ltb, leb, str_eq,
  if◌then◌else◌,
}
use doc_grading.Models.Enums.{UserStatus}
use doc_grading.Models.Rows.{User}
use doc_grading.Models.Tx.{Tx, pure, modify, ◌>>◌}
use doc_grading.Jobs.Defs.{seconds}

-- the settings, in seconds and attempts
pub record Settings : Type 0 where
  pub login_failure_window_seconds : ℕ
  pub login_ip_max_failed_attempts : ℕ
  pub login_max_failed_attempts : ℕ
  pub login_lockout_seconds : ℕ

-- What the code uses of Argon2, and the lower case of an email address.
pub record Crypto : Type 0 where
  pub verify_password : String → String → Bool
  pub needs_rehash : String → Bool
  pub hash_password : String → String
  pub lower : String → String

unfoldable pub put_user : ℕ → User → Tx (Unit {0})
put_user id row = modify λ db. record db { users = put id row db.users }

abbrev pub is_active : UserStatus → Bool
is_active UserStatus.active = true
is_active UserStatus.locked = false

-- `login_locked_until > now`
abbrev pub is_locked : ℕ → Option ℕ → Bool
is_locked now none = false
is_locked now (some until) = ltb now until

-- the fields that an expired lock resets
abbrev unlocked : Option ℕ → User → User
unlocked none u = u
unlocked (some until) u = record u {
  failed_login_attempts = 0;
  failed_login_window_started_at = none;
  login_locked_until = none;
}

abbrev pub after_lock : User → User
after_lock u = unlocked u.login_locked_until u

-- `started is None or started + window <= now`
abbrev pub is_new_window : ℕ → ℕ → Option ℕ → Bool
is_new_window window now none = true
is_new_window window now (some started) = leb (started + seconds window) now

abbrev pub counted : Settings → ℕ → User → User
counted s now u =
    if is_new_window s.login_failure_window_seconds now u.failed_login_window_started_at
    then record u { failed_login_attempts = 1; failed_login_window_started_at = some now }
    else record u { failed_login_attempts = u.failed_login_attempts + 1 }

abbrev pub locked_at_limit : Settings → ℕ → User → User
locked_at_limit s now u =
    if leb s.login_max_failed_attempts u.failed_login_attempts
    then record u { login_locked_until = some (now + seconds s.login_lockout_seconds) }
    else u

-- the row after a wrong password
unfoldable pub failed_login : Settings → ℕ → User → User
failed_login s now u = locked_at_limit s now (counted s now (after_lock u))

-- the row after the right one
unfoldable pub passed_login : Crypto → String → User → User
passed_login c password u = record u {
  failed_login_attempts = 0;
  failed_login_window_started_at = none;
  login_locked_until = none;
  password_hash =
      if c.needs_rehash u.password_hash then c.hash_password password else u.password_hash;
}

abbrev pub check_password : Settings → Crypto → ℕ → String → ℕ → User → Tx (Option ℕ)
check_password s c now password id u =
    if c.verify_password password u.password_hash
    then (do put_user id (passed_login c password u); pure (some id))
    else (do put_user id (failed_login s now u); pure none)

abbrev pub sign_in : Settings → Crypto → ℕ → String → Option (ℕ × User) → Tx (Option ℕ)
sign_in s c now password none = pure none
sign_in s c now password (some (id, u)) =
    if is_locked now u.login_locked_until then pure none else check_password s c now password id u

abbrev pub is_account : Crypto → String → User → Bool
is_account c normalized_email u = str_eq (c.lower u.email) normalized_email && is_active u.status

-- `normalized_email` is `email.strip().lower()`; the result is the user's identifier.
unfoldable pub authenticate_account : Settings → Crypto → ℕ → String → String → Tx (Option ℕ)
authenticate_account s c now normalized_email password db =
    sign_in s c now password (find_by (is_account c normalized_email) db.users) db
