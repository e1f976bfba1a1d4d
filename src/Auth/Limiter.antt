-- ===== src/Auth/Limiter.antt =====
-- The failed attempts of each client, `_reserve_login_attempt`, `_release_login_attempt` and
-- `authenticate_user` of backend/app/services/auth.py. The table is the process's, so no rollback
-- undoes it. A client address is a number; the monotonic clock counts microseconds.
use doc_grading.Prelude.{
  ℕ, ◌+◌, ◌-◌, String, Bool, true, false, Option, none, some, [], ◌∷◌, Table, find, put, length,
  leb, ltb, if◌then◌else◌,
}
use doc_grading.Models.Db.{Db}
use doc_grading.Models.Tx.{Outcome, returned, raised, committed, Error}
use doc_grading.Jobs.Defs.{seconds}
use doc_grading.Auth.Login.{Settings, Crypto, authenticate_account}

-- the start of the window and the count
abbrev pub Attempts : Type 0
Attempts = Table (ℕ × ℕ)

abbrev pub max_tracked : ℕ
max_tracked = 10000

abbrev pub is_expired : ℕ → ℕ → ℕ → Bool
is_expired window now started = leb (started + seconds window) now

-- the entry that the attempt is counted in
abbrev pub current : ℕ → ℕ → Option (ℕ × ℕ) → ℕ × ℕ
current window now none = (now, 0)
current window now (some (started, count)) =
    if is_expired window now started then (now, 0) else (started, count)

-- the first pass of the eviction: entries whose window is over
unfoldable pub drop_expired : ℕ → ℕ → Attempts → Attempts
drop_expired window now [] = []
drop_expired window now ((ip, (started, count)) ∷ t) =
    if is_expired window now started
    then drop_expired window now t
    else (ip, (started, count)) ∷ drop_expired window now t

-- the second: the oldest entry, in the order of insertion
abbrev pub drop_oldest : Attempts → Attempts
drop_oldest [] = []
drop_oldest (_ ∷ t) = t

abbrev pub drop_if_full : Attempts → Attempts
drop_if_full t = if leb max_tracked (length t) then drop_oldest t else t

unfoldable pub make_room : ℕ → ℕ → Option (ℕ × ℕ) → Attempts → Attempts
make_room window now (some entry) t = t
make_room window now none t =
    if leb max_tracked (length t) then drop_if_full (drop_expired window now t) else t

-- `none` where the code raises 429
unfoldable pub reserve_login_attempt : Settings → ℕ → ℕ → Attempts → Option Attempts
reserve_login_attempt s now ip t =
    let (started, count) = current s.login_failure_window_seconds now (find ip t) in
    if leb s.login_ip_max_failed_attempts count
    then none
    else some
        (put ip (started, count + 1) (make_room s.login_failure_window_seconds now (find ip t) t))

abbrev pub decremented : Option (ℕ × ℕ) → ℕ → Attempts → Attempts
decremented none ip t = t
decremented (some (started, count)) ip t = if ltb 0 count then put ip (started, count - 1) t else t

unfoldable pub release_login_attempt : ℕ → Attempts → Attempts
release_login_attempt ip t = decremented (find ip t) ip t

abbrev settle : ℕ → Outcome (Option ℕ) → Attempts → Attempts
settle ip (returned (some id) db) t = release_login_attempt ip t
settle ip (returned none db) t = t
settle ip (raised e) t = release_login_attempt ip t
settle ip (committed e db) t = release_login_attempt ip t

abbrev busy : Error
busy = Error.http 503 "Sign-in is busy. Try again shortly."

abbrev too_many : Error
too_many = Error.http 429 "Too many failed sign-in attempts. Try again later."

-- `has_slot` says whether the semaphore has been acquired within its five seconds.
abbrev in_slot : Bool → Outcome (Option ℕ) → Outcome (Option ℕ)
in_slot true o = o
in_slot false o = raised busy

abbrev settled : ℕ → Option Attempts → Attempts → Outcome (Option ℕ) → Outcome (Option ℕ) × Attempts
settled ip none t o = (raised too_many, t)
settled ip (some reserved) t o = (o, settle ip o reserved)

-- Reserve, check in a slot, and release on success and on an exception.
unfoldable pub authenticate_user :
    Settings
    → Crypto
    → ℕ
    → ℕ
    → Bool
    → ℕ
    → String
    → String
    → Attempts
    → Db
    → Outcome (Option ℕ) × Attempts
authenticate_user s c now clock has_slot ip normalized_email password t db =
    settled ip (reserve_login_attempt s clock ip t) t
      (in_slot has_slot (authenticate_account s c now normalized_email password db))
