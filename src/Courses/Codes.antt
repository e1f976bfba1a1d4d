-- ===== src/Courses/Codes.antt =====
-- The join codes of courses, backend/app/services/course_join.py. The advisory lock lets one
-- mutation of codes run at a time; here each is a transaction of its own anyhow.
use doc_grading.Prelude.{
  ℕ, String, Bool, true, false, not, ◌&&◌, ◌||◌, Option, none, some, List, [], ◌∷◌, find, find_by,
  put, Table, leb, ltb, ◌==◌, is_none, if◌then◌else◌, str_eq, strip,
}
use doc_grading.Models.Json.{Json, Fields}
use doc_grading.Models.Rows.{Course, CourseJoinCode}
use doc_grading.Models.Tx.{Tx, Error, pure, raise_if, gets, lookup, modify, new_uuid, ◌>>=◌, ◌>>◌}
use doc_grading.Audit.{record_audit}
use doc_grading.Courses.{Folding, is_read_only}

abbrev pub normalize_join_code : Folding → String → String
normalize_join_code fold value = fold.upper (strip value)

-- `_error`
abbrev pub refusal : String → String → ℕ → Error
refusal code message status = Error.coded status code message

-- `_state`
abbrev pub state_of : ℕ → Option ℕ → ℕ → String
state_of now (some revoked_at) expires_at = "REVOKED"
state_of now none expires_at = if leb expires_at now then "EXPIRED" else "ACTIVE"

abbrev pub moment_or_null : Option ℕ → Json
moment_or_null none = Json.null
moment_or_null (some at) = Json.num at

-- `_snapshot`
abbrev pub code_snapshot : ℕ → CourseJoinCode → Fields
code_snapshot now row = Fields.field "course_id" (Json.num row.course_id) (
    Fields.field "expires_at" (Json.num row.expires_at) (
      Fields.field "revoked_at" (moment_or_null row.revoked_at)
        (Fields.field "status" (Json.str (state_of now row.revoked_at row.expires_at)) Fields.end)))

-- `_lock_active_course` of course_join.py
unfoldable pub lock_joinable_course : ℕ → Tx Course
lock_joinable_course course_id = do
  course ←
      lookup (λ db. find course_id db.courses) (refusal "COURSE_NOT_FOUND" "Course not found" 404)
  raise_if (is_read_only course.status)
      (refusal "COURSE_ARCHIVED" "Archived courses are read-only" 409)
  pure course

abbrev pub is_revoked : CourseJoinCode → Bool
is_revoked row = not (is_none row.revoked_at)

-- is the first moment later than the second, or no moment at all? The order is `desc` with no
-- moment first.
abbrev later_moment : Option ℕ → Option ℕ → Bool
later_moment none none = false
later_moment none (some b) = true
later_moment (some a) none = false
later_moment (some a) (some b) = ltb b a

-- The `order_by` of `_lock_course_code`: codes that are not revoked, then the latest revoked, then
-- the latest made, then the highest identifier.
abbrev pub comes_first : ℕ × CourseJoinCode → ℕ × CourseJoinCode → Bool
comes_first (i, a) (j, b) =
    later_moment a.revoked_at b.revoked_at
    || (not (later_moment b.revoked_at a.revoked_at)
        && (ltb b.created_at a.created_at || (a.created_at == b.created_at && ltb j i)))

abbrev pub first_code : ℕ × CourseJoinCode → Option (ℕ × CourseJoinCode) → ℕ × CourseJoinCode
first_code a none = a
first_code a (some b) = if comes_first b a then b else a

-- `_lock_course_code`
unfoldable pub course_code : ℕ → Table CourseJoinCode → Option (ℕ × CourseJoinCode)
course_code course_id [] = none
course_code course_id ((id, row) ∷ t) =
    let rest = course_code course_id t in
    if row.course_id == course_id then some (first_code (id, row) rest) else rest

abbrev pub has_code : String → CourseJoinCode → Bool
has_code code row = str_eq row.code code

-- The loop of `_create_code_row`, on the codes that `generate_join_code` draws.
unfoldable pub first_unused : List String → Table CourseJoinCode → Option String
first_unused [] t = none
first_unused (code ∷ draws) t =
    let rest = first_unused draws t in
    if is_none (find_by (has_code code) t) then some code else rest

unfoldable pub put_code : ℕ → CourseJoinCode → Tx (Unit {0})
put_code id row = modify λ db. record db { join_codes = put id row db.join_codes }

abbrev pub new_code : ℕ → ℕ → String → ℕ → CourseJoinCode
new_code now course_id code expires_at = record {
  course_id = course_id;
  code = code;
  expires_at = expires_at;
  revoked_at = none;
  created_at = now;
}

-- `_create_code_row`; it diverges if no draw is unused
unfoldable pub create_code_row : ℕ → List String → ℕ → ℕ → Tx (ℕ × CourseJoinCode)
create_code_row now draws course_id expires_at = do
  code ← lookup (λ db. first_unused draws db.join_codes) Error.diverged
  id ← new_uuid
  put_code id (new_code now course_id code expires_at)
  pure (id, new_code now course_id code expires_at)

-- `_valid_expiry`, of a moment with a time zone
abbrev pub is_past_expiry : ℕ → ℕ → Bool
is_past_expiry now expires_at = leb expires_at now

abbrev pub invalid_expiry : Error
invalid_expiry = refusal "INVALID_EXPIRY" "expires_at must be in the future" 422

abbrev pub is_current_of : ℕ → CourseJoinCode → Bool
is_current_of course_id row = row.course_id == course_id && is_none row.revoked_at

unfoldable pub create_join_code : ℕ → List String → ℕ → ℕ → ℕ → Tx ℕ
create_join_code now draws course_id expires_at actor_user_id = do
  lock_joinable_course course_id
  raise_if (is_past_expiry now expires_at) invalid_expiry
  current ← gets λ db. find_by (is_current_of course_id) db.join_codes
  raise_if (not (is_none current))
      (refusal "JOIN_CODE_EXISTS" "Course already has an active join code" 409)
  (id, row) ← create_code_row now draws course_id expires_at
  record_audit actor_user_id "CourseJoinCode" id "CREATE_JOIN_CODE" none
      (some (code_snapshot now row)) "Course join code created"
  pure id

abbrev pub code_not_found : Error
code_not_found = refusal "JOIN_CODE_NOT_FOUND" "Join code not found" 404

unfoldable pub get_join_code : ℕ → Tx (ℕ × CourseJoinCode)
get_join_code course_id = lookup (λ db. course_code course_id db.join_codes) code_not_found

abbrev pub extended_code : ℕ → CourseJoinCode → CourseJoinCode
extended_code expires_at row = record row { expires_at = expires_at }

unfoldable pub update_join_code : ℕ → ℕ → ℕ → ℕ → Tx ℕ
update_join_code now course_id expires_at actor_user_id = do
  lock_joinable_course course_id
  (id, row) ← lookup (λ db. course_code course_id db.join_codes) code_not_found
  raise_if (is_revoked row) (refusal "JOIN_CODE_REVOKED" "Join code is revoked" 410)
  raise_if (is_past_expiry now expires_at) invalid_expiry
  put_code id (extended_code expires_at row)
  record_audit actor_user_id "CourseJoinCode" id "UPDATE_JOIN_CODE" (some (code_snapshot now row))
      (some (code_snapshot now (extended_code expires_at row))) "Course join code expiry updated"
  pure id

abbrev pub revoked_code : ℕ → CourseJoinCode → CourseJoinCode
revoked_code now row = record row { revoked_at = some now }

unfoldable pub revoke_join_code : ℕ → ℕ → ℕ → Tx ℕ
revoke_join_code now course_id actor_user_id = do
  lock_joinable_course course_id
  (id, row) ← lookup (λ db. course_code course_id db.join_codes) code_not_found
  raise_if (is_revoked row) (refusal "JOIN_CODE_REVOKED" "Join code is already revoked" 410)
  put_code id (revoked_code now row)
  record_audit actor_user_id "CourseJoinCode" id "REVOKE_JOIN_CODE" (some (code_snapshot now row))
      (some (code_snapshot now (revoked_code now row))) "Course join code revoked"
  pure id

abbrev pub snapshot_of : ℕ → Option (ℕ × CourseJoinCode) → Option Fields
snapshot_of now none = none
snapshot_of now (some (id, row)) = some (code_snapshot now row)

unfoldable pub revoke_old : ℕ → Option (ℕ × CourseJoinCode) → Tx (Unit {0})
revoke_old now none = pure tt
revoke_old now (some (id, row)) =
    if is_revoked row then pure tt else put_code id (revoked_code now row)

unfoldable pub regenerate_join_code : ℕ → List String → ℕ → ℕ → ℕ → Tx ℕ
regenerate_join_code now draws course_id expires_at actor_user_id = do
  lock_joinable_course course_id
  raise_if (is_past_expiry now expires_at) invalid_expiry
  old ← gets λ db. course_code course_id db.join_codes
  revoke_old now old
  (id, row) ← create_code_row now draws course_id expires_at
  record_audit actor_user_id "CourseJoinCode" id "REGENERATE_JOIN_CODE" (snapshot_of now old)
      (some (code_snapshot now row)) "Course join code regenerated"
  pure id
