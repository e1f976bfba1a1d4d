-- ===== src/Courses.antt =====
-- What the operations on courses share, backend/app/services/course.py and course_join.py.
pub mod Records
pub mod Members
pub mod Codes
pub mod Joining
pub mod Draws
pub mod CodeTable
pub mod Latest
pub mod OneCode
pub mod CodeRequests
pub mod Untouched
pub mod Admission
pub mod Roster
pub mod OneEach
pub mod MemberRequests
use doc_grading.Prelude.{
  ◌&&◌, ℕ, String, Bool, true, false, not, Option, none, some, find, put, str_eq, ◌==◌,
  if◌then◌else◌,
}
use doc_grading.Models.Enums.{CourseStatus, MembershipStatus, JoinedVia}
use doc_grading.Models.Json.{Json, Fields}
use doc_grading.Models.Rows.{Course, Membership}
use doc_grading.Notifications.{is_active_membership}
use doc_grading.Models.Tx.{Tx, Error, pure, raise_if, lookup, modify, ◌>>=◌, ◌>>◌}

-- what the code takes from Python and from PostgreSQL: `str.lower`, `str.upper` and `lower` of SQL
pub record Folding : Type 0 where
  pub lower : String → String
  pub upper : String → String
  pub sql_lower : String → String

abbrev pub is_read_only : CourseStatus → Bool
is_read_only CourseStatus.archived = true
is_read_only CourseStatus.active = false

abbrev pub is_other_revision : Option ℕ → ℕ → Bool
is_other_revision none revision = false
is_other_revision (some expected_revision) revision = not (revision == expected_revision)

-- `_lock_active_course` of course.py
unfoldable pub lock_active_course : ℕ → Option ℕ → Tx Course
lock_active_course course_id expected_revision = do
  course ← lookup (λ db. find course_id db.courses) (Error.http 404 "Course not found")
  raise_if (is_other_revision expected_revision course.revision)
      (Error.http 412 "Course revision conflict")
  raise_if (is_read_only course.status) (Error.http 409 "Archived courses are read-only")
  pure course

unfoldable pub put_course : ℕ → Course → Tx (Unit {0})
put_course id course = modify λ db. record db { courses = put id course db.courses }

unfoldable pub put_membership : ℕ → Membership → Tx (Unit {0})
put_membership id m = modify λ db. record db { memberships = put id m db.memberships }

abbrev pub membership_status_value : MembershipStatus → String
membership_status_value MembershipStatus.active = "ACTIVE"
membership_status_value MembershipStatus.removed = "REMOVED"

abbrev pub joined_via_value : JoinedVia → String
joined_via_value JoinedVia.manual = "MANUAL"
joined_via_value JoinedVia.code = "CODE"

-- `_member_snapshot`
abbrev pub member_snapshot : Membership → Fields
member_snapshot m = Fields.field "course_id" (Json.num m.course_id) (
    Fields.field "user_id" (Json.num m.user_id) (
      Fields.field "status" (Json.str (membership_status_value m.status)) (
        Fields.field "joined_via" (Json.str (joined_via_value m.joined_via))
          (Fields.field "joined_at" (Json.num m.joined_at) Fields.end))))

-- the membership of a student, active or not; there is one at most
abbrev pub is_membership_of : ℕ → ℕ → Membership → Bool
is_membership_of course_id user_id m = m.course_id == course_id && m.user_id == user_id

abbrev pub is_active_member : Membership → Bool
is_active_member m = is_active_membership m.status

-- `reason or default`
abbrev pub reason_or : Option String → String → String
reason_or none default = default
reason_or (some reason) default = if str_eq reason "" then default else reason
