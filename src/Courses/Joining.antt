-- ===== src/Courses/Joining.antt =====
-- Joining a course by a code, with its limit of requests, backend/app/services/course_join.py. What
-- the limit and a refused code write is committed before the error is raised.
use doc_grading.Prelude.{
  ℕ, ◌+◌, ◌-◌, ◌/◌, String, Bool, true, false, not, ◌&&◌, ◌||◌, Option, none, some, List, [], ◌∷◌,
  find, find_by, put, remove, Table, leb, ltb, max, ◌==◌, if◌then◌else◌, str_eq, all_chars,
  len_text, any, take, concat,
}
use doc_grading.Models.Enums.{JoinedVia, has_role, is_student}
use doc_grading.Models.Rows.{User, Course, Membership, JoinRateLimit}
use doc_grading.Models.Db.{Db}
use doc_grading.Models.Tx.{
  Tx, Error, Outcome, returned, raised, committed, pure, raise_if, gets, modify, new_uuid,
  commit_and_raise, ◌>>=◌, ◌>>◌,
}
use doc_grading.Audit.{record_audit}
use doc_grading.Jobs.Defs.{seconds}
use doc_grading.Courses.{
  Folding, put_membership, member_snapshot, is_membership_of, is_active_member,
}
use doc_grading.Courses.Codes.{
  lock_joinable_course, refusal, normalize_join_code, has_code, is_revoked, is_past_expiry,
}
use doc_grading.Courses.Members.{new_membership, rejoined}

pub record JoinSettings : Type 0 where
  pub max_requests : ℕ
  pub window_seconds : ℕ
  -- `_rate_limit_subject_digest`, the keyed digest of a subject
  pub digest : String → String

abbrev pub has_subject : String → JoinRateLimit → Bool
has_subject subject_hash row = str_eq row.subject_hash subject_hash

-- `now - row.window_started_at >= window`
abbrev pub is_over : ℕ → JoinSettings → JoinRateLimit → Bool
is_over now s row = leb (row.window_started_at + seconds s.window_seconds) now

-- the rest of the window, in seconds rounded up
abbrev pub retry_after_of : ℕ → JoinSettings → JoinRateLimit → ℕ
retry_after_of now s row =
    ((row.window_started_at + seconds s.window_seconds) - now + 999999) / 1000000

abbrev pub new_limit : ℕ → String → JoinRateLimit
new_limit now subject_hash = record {
  subject_hash = subject_hash;
  window_started_at = now;
  request_count = 1;
}

abbrev pub restarted : ℕ → JoinRateLimit → JoinRateLimit
restarted now row = record row { window_started_at = now; request_count = 1 }

abbrev pub one_more : JoinRateLimit → JoinRateLimit
one_more row = record row { request_count = row.request_count + 1 }

unfoldable pub put_limit : ℕ → JoinRateLimit → Tx (Unit {0})
put_limit id row = modify λ db. record db { join_rate_limits = put id row db.join_rate_limits }

unfoldable pub count_row : ℕ → JoinSettings → String → Option (ℕ × JoinRateLimit) → Tx (ℕ × ℕ)
count_row now s subject_hash none = do
  id ← new_uuid
  put_limit id (new_limit now subject_hash)
  pure (1, 0)
count_row now s subject_hash (some (id, row)) =
    if is_over now s row
    then (do put_limit id (restarted now row); pure (1, 0))
    else (do put_limit id (one_more row); pure (row.request_count + 1, retry_after_of now s row))

-- one turn of the loop: the count of the subject's requests, and when to come back
unfoldable pub count_request : ℕ → JoinSettings → String → Tx (ℕ × ℕ)
count_request now s subject_hash db =
    count_row now s subject_hash (find_by (has_subject subject_hash) db.join_rate_limits) db

abbrev is_expired_limit : ℕ → JoinSettings → List String → JoinRateLimit → Bool
is_expired_limit now s digests row =
    ltb (row.window_started_at + seconds s.window_seconds) now
    && not (any (str_eq row.subject_hash) digests)

unfoldable pub insert_limit :
    ℕ × JoinRateLimit → List (ℕ × JoinRateLimit) → List (ℕ × JoinRateLimit)
insert_limit a [] = a ∷ []
insert_limit (i, a) ((j, b) ∷ t) =
    let rest = insert_limit (i, a) t in
    if leb a.window_started_at b.window_started_at then (i, a) ∷ (j, b) ∷ t else (j, b) ∷ rest

-- the expired rows that no other transaction holds, by the start of their windows
unfoldable pub expired_limits :
    (JoinRateLimit → Bool) → (ℕ → Bool) → Table JoinRateLimit → List (ℕ × JoinRateLimit)
expired_limits is_expired locked [] = []
expired_limits is_expired locked ((id, row) ∷ t) =
    let rest = expired_limits is_expired locked t in
    if is_expired row && not (locked id) then insert_limit (id, row) rest else rest

unfoldable pub remove_limits : List (ℕ × JoinRateLimit) → Table JoinRateLimit → Table JoinRateLimit
remove_limits [] t = t
remove_limits ((id, row) ∷ rows) t = remove_limits rows (remove id t)

abbrev pub without_expired :
    ℕ → JoinSettings → (ℕ → Bool) → List String → Table JoinRateLimit → Table JoinRateLimit
without_expired now s locked digests t =
    remove_limits (take 100 (expired_limits (is_expired_limit now s digests) locked t)) t

abbrev pub limited_error : ℕ → Error
limited_error retry_after =
    Error.retry_later 429 "JOIN_RATE_LIMITED" "Too many join attempts" (max 1 retry_after)

unfoldable pub commit_if_limited : Bool → ℕ → Tx (Unit {0})
commit_if_limited true retry_after = commit_and_raise (limited_error retry_after)
commit_if_limited false retry_after = pure tt

-- `account` and `ip` are the two subjects.
unfoldable pub enforce_join_rate_limit :
    ℕ → JoinSettings → (ℕ → Bool) → String → String → Tx (Unit {0})
enforce_join_rate_limit now s locked account ip = do
  (a, a_retry) ← count_request now s (s.digest account)
  (b, b_retry) ← count_request now s (s.digest ip)
  modify λ db. record db {
    join_rate_limits =
        without_expired now s locked (s.digest account ∷ s.digest ip ∷ []) db.join_rate_limits;
  }
  commit_if_limited (ltb s.max_requests a || ltb s.max_requests b) (max a_retry b_retry)

-- `CODE_ALPHABET`
abbrev pub in_alphabet : ℕ → Bool
in_alphabet c =
    (leb b'A' c && leb c b'Z' && not (c == b'I') && not (c == b'L') && not (c == b'O'))
    || c == b'0'
    || (leb b'2' c && leb c b'9')

abbrev pub is_join_code : String → Bool
is_join_code s = len_text s == 20 && all_chars in_alphabet s

-- `if test: await _raise_after_commit(db, error)`
unfoldable pub refuse_if : Bool → Error → Tx (Unit {0})
refuse_if true e = commit_and_raise e
refuse_if false e = pure tt

unfoldable pub or_refuse {ℓ} : {A : Type ℓ} → Option A → Error → Tx A
or_refuse none e = commit_and_raise e
or_refuse (some a) e = pure a

-- an error of the lock is raised after a commit
abbrev pub after_commit {ℓ} : {A : Type ℓ} → Db → Outcome A → Outcome A
after_commit db (returned a db') = returned a db'
after_commit db (raised e) = committed e db
after_commit db (committed e db') = committed e db'

unfoldable pub lock_or_refuse : ℕ → Tx Course
lock_or_refuse course_id db = after_commit db (lock_joinable_course course_id db)

-- `CourseJoinOutcome`, with the membership
pub data Joined : Type 0 where
  new_member rejoined_member already_member : ℕ → Joined

unfoldable pub admit_new : ℕ → ℕ → ℕ → Tx Joined
admit_new now course_id user_id = do
  id ← new_uuid
  let m = new_membership now JoinedVia.code course_id user_id
  put_membership id m
  record_audit user_id "Membership" id "JOIN_MEMBER" none (some (member_snapshot m))
      "Course joined by code"
  pure (Joined.new_member id)

unfoldable pub admit : ℕ → ℕ → ℕ → Option (ℕ × Membership) → Tx Joined
admit now course_id user_id none = admit_new now course_id user_id
admit now course_id user_id (some (id, m)) =
    if is_active_member m then pure (Joined.already_member id) else (do
      put_membership id (rejoined now JoinedVia.code m)
      record_audit user_id "Membership" id "REACTIVATE_MEMBER" (some (member_snapshot m))
          (some (member_snapshot (rejoined now JoinedVia.code m))) "Course joined by code"
      pure (Joined.rejoined_member id))

abbrev pub invalid_code : Error
invalid_code = refusal "JOIN_CODE_INVALID" "Join code is invalid" 404

unfoldable pub redeem : ℕ → ℕ → String → Tx (Joined × ℕ)
redeem now user_id code = do
  refuse_if (not (is_join_code code)) invalid_code
  found ← gets λ db. find_by (has_code code) db.join_codes
  (code_id, located) ← or_refuse found invalid_code
  course ← lock_or_refuse located.course_id
  again ← gets λ db. find code_id db.join_codes
  row ← or_refuse again invalid_code
  refuse_if (is_revoked row) (refusal "JOIN_CODE_REVOKED" "Join code is revoked" 410)
  refuse_if (is_past_expiry now row.expires_at)
      (refusal "JOIN_CODE_EXPIRED" "Join code is expired" 410)
  membership ← gets λ db. find_by (is_membership_of located.course_id user_id) db.memberships
  outcome ← admit now located.course_id user_id membership
  pure (outcome, located.course_id)

-- `account:{user.id}` and `ip:{host}`
abbrev pub host_of : Option String → String
host_of none = "unknown"
host_of (some host) = host

unfoldable pub join_course :
    ℕ
    → JoinSettings
    → Folding
    → (ℕ → String)
    → (ℕ → Bool)
    → String
    → ℕ
    → User
    → Option String
    → Tx (Joined × ℕ)
join_course now s fold uuid_text locked code user_id user client = do
  raise_if (not (has_role is_student user.roles)) (Error.http 403 "Insufficient permissions")
  enforce_join_rate_limit now s locked (concat ("account:" ∷ uuid_text user_id ∷ []))
      (concat ("ip:" ∷ host_of client ∷ []))
  redeem now user_id (normalize_join_code fold code)
