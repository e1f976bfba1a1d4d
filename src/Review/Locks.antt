-- ===== src/Review/Locks.antt =====
-- Review locks, backend/app/services/review.py: one reviewer at a time holds a submission, for ten
-- minutes after the last heartbeat.
use doc_grading.Prelude.{
  ℕ, ◌+◌, Bool, true, false, not, ◌&&◌, ◌||◌, Option, none, some, find, put, remove, ◌==◌, ltb, leb,
  if◌then◌else◌,
}
use doc_grading.Models.Enums.{has_role, is_admin}
use doc_grading.Models.Json.{Json, Fields}
use doc_grading.Models.Rows.{User, ReviewLock}
use doc_grading.Models.Tx.{lookup, Tx, Error, pure, raise, modify, new_uuid, ◌>>=◌, ◌>>◌}
use doc_grading.Audit.{record_audit}
use doc_grading.Jobs.Defs.{seconds}
use doc_grading.Review.Access.{submission_for_review}

abbrev pub lock_ttl : ℕ
lock_ttl = seconds 600

-- `ReviewLockResponse`, less the name that the holder is shown by
pub record LockResponse : Type 0 where
  pub acquired : Bool
  pub submission_id : ℕ
  pub reviewer_user_id : ℕ
  pub expires_at : ℕ

abbrev pub lock_response : ℕ → ReviewLock → Bool → LockResponse
lock_response submission_id lock acquired = record {
  acquired = acquired;
  submission_id = submission_id;
  reviewer_user_id = lock.reviewer_user_id;
  expires_at = lock.expires_at;
}

unfoldable pub put_lock : ℕ → ReviewLock → Tx (Unit {0})
put_lock id lock = modify λ db. record db { review_locks = put id lock db.review_locks }

abbrev pub is_live : ℕ → ReviewLock → Bool
is_live now lock = ltb now lock.expires_at

-- the lock that its holder renews, or that another reviewer takes after it has expired
abbrev pub renewed : ℕ → ℕ → ReviewLock → ReviewLock
renewed now user_id lock = record lock {
  acquired_at =
      if not (lock.reviewer_user_id == user_id) || leb lock.expires_at now
      then now
      else lock.acquired_at;
  reviewer_user_id = user_id;
  expires_at = now + lock_ttl;
}

abbrev new_lock : ℕ → ℕ → ℕ → ReviewLock
new_lock now id user_id = record {
  id = id;
  reviewer_user_id = user_id;
  acquired_at = now;
  expires_at = now + lock_ttl;
}

abbrev pub acquire_row : ℕ → ℕ → ℕ → Option ReviewLock → Tx LockResponse
acquire_row now submission_id user_id none = do
  id ← new_uuid
  put_lock submission_id (new_lock now id user_id)
  pure (lock_response submission_id (new_lock now id user_id) true)
acquire_row now submission_id user_id (some lock) =
    if is_live now lock && not (lock.reviewer_user_id == user_id)
    then (do
      holder ←
          lookup (λ db. find lock.reviewer_user_id db.users)
            (Error.http 500 "Review lock holder is missing")
      pure (lock_response submission_id lock false))
    else (do
      put_lock submission_id (renewed now user_id lock)
      pure (lock_response submission_id (renewed now user_id lock) true))

unfoldable pub acquire_review_lock : ℕ → ℕ → ℕ → User → Tx LockResponse
acquire_review_lock now submission_id user_id user = do
  submission_for_review submission_id user_id user true
  (λ db. acquire_row now submission_id user_id (find submission_id db.review_locks) db)

abbrev pub not_held : Error
not_held = Error.http 409 "Review lock is not held"

abbrev pub held_by_another : Error
held_by_another = Error.http 409 "Review lock is held by another reviewer"

abbrev pub require_row : ℕ → ℕ → Option ReviewLock → Tx ReviewLock
require_row now user_id none = raise not_held
require_row now user_id (some lock) =
    if leb lock.expires_at now
    then raise not_held
    else if not (lock.reviewer_user_id == user_id)
    then raise held_by_another
    else pure lock

unfoldable pub require_review_lock : ℕ → ℕ → ℕ → User → Tx ReviewLock
require_review_lock now submission_id user_id user = do
  submission_for_review submission_id user_id user true
  (λ db. require_row now user_id (find submission_id db.review_locks) db)

abbrev pub extended : ℕ → ReviewLock → ReviewLock
extended now lock = record lock { expires_at = now + lock_ttl }

unfoldable pub heartbeat_review_lock : ℕ → ℕ → ℕ → User → Tx LockResponse
heartbeat_review_lock now submission_id user_id user = do
  lock ← require_review_lock now submission_id user_id user
  put_lock submission_id (extended now lock)
  pure (lock_response submission_id (extended now lock) true)

unfoldable pub delete_lock : ℕ → Tx (Unit {0})
delete_lock id = modify λ db. record db { review_locks = remove id db.review_locks }

unfoldable pub record_force_release : ℕ → ℕ → ReviewLock → Tx (Unit {0})
record_force_release user_id submission_id lock =
    record_audit user_id "ReviewLock" lock.id "ADMIN_RELEASE"
      (some (
        Fields.field "submission_id" (Json.num submission_id) (
          Fields.field "reviewer_user_id" (Json.num lock.reviewer_user_id) (
            Fields.field "acquired_at" (Json.num lock.acquired_at)
              (Fields.field "expires_at" (Json.num lock.expires_at) Fields.end)))))
      (some (Fields.field "released" (Json.bool true) Fields.end)) "Admin released review lock"

abbrev pub is_force_release : ℕ → ℕ → User → ReviewLock → Bool
is_force_release now user_id user lock =
    has_role is_admin user.roles
    && (not (lock.reviewer_user_id == user_id) || leb lock.expires_at now)

abbrev pub release_row : ℕ → ℕ → ℕ → User → Option ReviewLock → Tx (Unit {0})
release_row now submission_id user_id user none = raise not_held
release_row now submission_id user_id user (some lock) =
    if is_force_release now user_id user lock
    then (do record_force_release user_id submission_id lock; delete_lock submission_id)
    else if leb lock.expires_at now
    then raise not_held
    else if not (lock.reviewer_user_id == user_id)
    then raise held_by_another
    else delete_lock submission_id

unfoldable pub release_review_lock : ℕ → ℕ → ℕ → User → Tx (Unit {0})
release_review_lock now submission_id user_id user = do
  submission_for_review submission_id user_id user false
  (λ db. release_row now submission_id user_id user (find submission_id db.review_locks) db)
