-- ===== src/Auth/Lockout.antt =====
-- Guessing a password locks the account, backend/app/services/auth.py.
use doc_grading.Prelude.{
  ℕ, ◌+◌, ◌≤◌, ◌<◌, ◌≡◌, refl, String, true, false, none, some, List, [], ◌∷◌, ◌++◌, All, length,
  find_by, put, HasUniqueKeys, put-HasUniqueKeys, find_by-put, find-find_by, arith,
}
use doc_grading.Models.Rows.{User}
use doc_grading.Models.Db.{Db}
use doc_grading.Models.Tx.{tx, returned, persisted, pure}
use doc_grading.Jobs.Defs.{seconds}
use doc_grading.Auth.Login.{
  Settings, Crypto, authenticate_account, is_account, is_locked, failed_login, put_user,
}

-- one sign-in after another, each at its time and with its password
pub try_all : Settings → Crypto → String → List (ℕ × String) → Db → Db
try_all s c email [] db = db
try_all s c email ((now, password) ∷ rest) db =
    try_all s c email rest (persisted db (authenticate_account s c now email password db))

module _ (s : Settings) (c : Crypto) (email : String) where
  -- the account's row
  pub record HasAccount (id : ℕ) (u : User) (db : Db) : Type 0 where
    pub unique : HasUniqueKeys db.users
    pub account : find_by (is_account c email) db.users ≡ some (id, u)

  -- While an account is locked, every password is refused, the right one too, and nothing changes.
  pub locked-refuses :
      (now id : ℕ) (u : User) (password : String) (db : Db)
      → HasAccount id u db
      → is_locked now u.login_locked_until ≡ true
      → authenticate_account s c now email password db ≡ returned none db
  unfolding authenticate_account pure
  locked-refuses now id u password db h l = rw (h.account, l) refl

  stored-HasAccount :
      (id : ℕ) (u u' : User) (db : Db)
      → HasAccount id u db
      → u'.email ≡ u.email
      → u'.status ≡ u.status
      → HasAccount id u' (record db { users = put id u' db.users })
  stored-HasAccount id u u' db h e t = record {
    unique = put-HasUniqueKeys id u' db.users h.unique;
    account =
        find_by-put (is_account c email) id u u' db.users h.unique h.account
          (rw (e, t) (find-find_by (is_account c email) db.users h.unique h.account).1);
  }

  failed-email : (now : ℕ) (u : User) → (failed_login s now u).email ≡ u.email
  unfolding failed_login
  failed-email now u = ground arith

  failed-status : (now : ℕ) (u : User) → (failed_login s now u).status ≡ u.status
  unfolding failed_login
  failed-status now u = ground arith

  failed-hash : (now : ℕ) (u : User) → (failed_login s now u).password_hash ≡ u.password_hash
  unfolding failed_login
  failed-hash now u = ground arith

  -- a wrong password counts
  wrong-counts :
      (now id : ℕ) (u : User) (password : String) (db : Db)
      → HasAccount id u db
      → is_locked now u.login_locked_until ≡ false
      → c.verify_password password u.password_hash ≡ false
      → HasAccount id
          (failed_login s now u)
          (persisted db (authenticate_account s c now email password db))
  unfolding authenticate_account put_user tx
  wrong-counts now id u password db h l w =
      rw (h.account, l, w)
        (stored-HasAccount id u (failed_login s now u) db h (failed-email now u)
          (failed-status now u))

  module _ (start : ℕ) where
    -- a row within the window that began at `start`, with so many failures, and not locked
    pub record IsCounting (failures : ℕ) (u : User) : Type 0 where
      pub failures_are : u.failed_login_attempts ≡ failures
      pub began : u.failed_login_window_started_at ≡ some start
      pub open_ : u.login_locked_until ≡ none

    abbrev pub IsSoon : ℕ → Type 0
    IsSoon now = now < start + seconds s.login_failure_window_seconds

    next-IsCounting :
        (now n : ℕ) (u : User)
        → IsSoon now
        → IsCounting n u
        → n + 1 < s.login_max_failed_attempts
        → IsCounting (n + 1) (failed_login s now u)
    unfolding failed_login
    next-IsCounting now n u h i l = record {
      failures_are = ground (arith, i.failures_are, i.began, i.open_);
      began = ground (arith, i.failures_are, i.began, i.open_);
      open_ = ground (arith, i.failures_are, i.began, i.open_);
    }

    last-locks :
        (now n : ℕ) (u : User)
        → IsSoon now
        → IsCounting n u
        → s.login_max_failed_attempts ≤ n + 1
        → (failed_login s now u).login_locked_until ≡ some (now + seconds s.login_lockout_seconds)
    unfolding failed_login
    last-locks now n u h i l = ground (arith, i.failures_are, i.began, i.open_)

    -- within the window, with a password that does not fit the hash
    abbrev pub IsWrong : String → ℕ × String → Type 0
    IsWrong hash (now, password) = IsSoon now × (c.verify_password password hash ≡ false)

    -- an account that is locked until the given time
    pub record IsLocked (id until : ℕ) (db : Db) : Type 0 where
      pub user : User
      pub has : HasAccount id user db
      pub until_is : user.login_locked_until ≡ some until

    guessed :
        (tries : List (ℕ × String)) (last id n : ℕ) (password : String) (u : User) (db : Db)
        → HasAccount id u db
        → IsCounting n u
        → n + length tries + 1 ≡ s.login_max_failed_attempts
        → All (IsWrong u.password_hash) tries
        → IsWrong u.password_hash (last, password)
        → IsLocked id
            (last + seconds s.login_lockout_seconds)
            (try_all s c email (tries ++ ((last, password) ∷ [])) db)
    unfolding try_all
    guessed [] last id n password u db h i e ws w = record {
      user = failed_login s last u;
      has = wrong-counts last id u password db h (rw i.open_ refl) w.1;
      until_is = last-locks last n u w.0 i (omega (arith, e));
    }
    guessed ((now, p) ∷ tries) last id n password u db h i e ws w =
        guessed tries last id (n + 1) password (failed_login s now u) _
          (wrong-counts now id u p db h (rw i.open_ refl) ws.0.1)
          (next-IsCounting now n u ws.0.0 i (omega (arith, e))) (omega (arith, e))
          (rw (failed-hash now u) ws.1) (rw (failed-hash now u) w)

    -- When wrong passwords are tried on an account within one window, and the failures reach the
    -- limit with the last of them, then until the lockout after it is over every password is
    -- refused, the right one too, and nothing changes.
    pub guessing-locks :
        (tries : List (ℕ × String)) (last id n later : ℕ) (password any_password : String)
        (u : User) (db : Db)
        → HasAccount id u db
        → IsCounting n u
        → n + length tries + 1 ≡ s.login_max_failed_attempts
        → All (IsWrong u.password_hash) tries
        → IsWrong u.password_hash (last, password)
        → later < last + seconds s.login_lockout_seconds
        → authenticate_account s c later email any_password
            (try_all s c email (tries ++ ((last, password) ∷ [])) db)
          ≡ returned none (try_all s c email (tries ++ ((last, password) ∷ [])) db)
    guessing-locks tries last id n later password any_password u db h i e ws w soon =
        let locked = guessed tries last id n password u db h i e ws w in
        locked-refuses later id locked.user any_password _ locked.has
          (rw locked.until_is (ground arith))
