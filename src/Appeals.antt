-- ===== src/Appeals.antt =====
-- Requests of students to review a published result, backend/app/services/appeal.py.
pub mod Frame
pub mod Answers
pub mod Opening
pub mod Requests
pub mod OneOpen
use doc_grading.Prelude.{
  ℕ, String, Bool, true, false, not, ◌&&◌, Option, none, some, find, put, is_none, ◌==◌,
  if◌then◌else◌,
}
use doc_grading.Models.Enums.{
  CourseStatus, AssignmentStatus, ReviewRequestStatus, NotificationType, request_status_value,
  has_role, is_admin, is_teacher,
}
use doc_grading.Models.Json.{Json, Fields, str_or_null, num_or_null}
use doc_grading.Models.Rows.{User, Course, Assignment, ReviewRequest}
use doc_grading.Models.Db.{Db}
use doc_grading.Models.Tx.{Tx, Error, pure, raise, raise_if, lookup, modify, ◌>>=◌, ◌>>◌}
use doc_grading.Audit.{record_audit}
use doc_grading.Notifications.{add_student_course_notification}

abbrev pub state_snapshot : ReviewRequest → Fields
state_snapshot r = Fields.field "status" (Json.str (request_status_value r.status)) (
    Fields.field "response" (str_or_null r.response) (
      Fields.field "responded_by_user_id" (num_or_null r.responded_by_user_id)
        (Fields.field "responded_at" (num_or_null r.responded_at) Fields.end)))

-- a row of the join, without the texts that only the response shows
pub record Context : Type 0 where
  pub request : ReviewRequest
  pub assignment : Assignment
  pub course : Course

-- the inner joins on the student, the criterion and the result find their rows
abbrev has_related : ReviewRequest → Db → Bool
has_related r db =
    not (is_none (find r.student_id db.users))
    && not (is_none (find r.criterion_version_id db.criteria))
    && not (is_none (find r.published_result_id db.published_results))

abbrev pub of_owner : Option ℕ → Course → Bool
of_owner none course = true
of_owner (some user_id) course = course.owner_teacher_id == user_id

abbrev pub joined : Option ℕ → Db → Option ReviewRequest → Option Context
joined owner db none = none
joined owner db (some r) = elim (find r.submission_id db.submissions) [
  | none ↦ none
  | some s ↦ elim (find s.assignment_id db.assignments) [
    | none ↦ none
    | some a ↦ elim (find a.course_id db.courses) [
      | none ↦ none
      | some c ↦
          if has_related r db && of_owner owner c
          then some (record { request = r; assignment = a; course = c })
          else none
    ]
  ]
]

-- `_get_request_with_course`, where `owner` is `owner_teacher_id`
unfoldable pub request_with_course : ℕ → Option ℕ → Db → Option Context
request_with_course id owner db = joined owner db (find id db.review_requests)

abbrev pub not_found : Error
not_found = Error.http 404 "Review request not found"

abbrev pub is_archived_course : CourseStatus → Bool
is_archived_course CourseStatus.archived = true
is_archived_course CourseStatus.active = false

abbrev pub is_archived_assignment : AssignmentStatus → Bool
is_archived_assignment AssignmentStatus.archived = true
is_archived_assignment _ = false

abbrev pub is_open : ReviewRequestStatus → Bool
is_open ReviewRequestStatus.open_ = true
is_open _ = false

-- whose courses the user may answer for: `none` for an administrator
unfoldable pub answers_for : ℕ → User → Tx (Option ℕ)
answers_for user_id user =
    if has_role is_admin user.roles
    then pure none
    else if has_role is_teacher user.roles
    then pure (some user_id)
    else raise (Error.http 403 "Review request access denied")

abbrev pub notice_of : ReviewRequestStatus → NotificationType
notice_of ReviewRequestStatus.resolved = NotificationType.review_request_resolved
notice_of _ = NotificationType.review_request_rejected

abbrev action_of : ReviewRequestStatus → String
action_of ReviewRequestStatus.resolved = "RESOLVE"
action_of _ = "REJECT"

abbrev pub answered : ℕ → ReviewRequestStatus → String → ℕ → ReviewRequest → ReviewRequest
answered now status response user_id r = record r {
  status = status;
  response = some response;
  responded_by_user_id = some user_id;
  responded_at = some now;
}

unfoldable pub put_request : ℕ → ReviewRequest → Tx (Unit {0})
put_request id r = modify λ db. record db { review_requests = put id r db.review_requests }

-- The response is given by the row.
unfoldable pub respond_review_request :
    ℕ → ℕ → ReviewRequestStatus → String → ℕ → User → Tx ReviewRequest
respond_review_request now id status response user_id user = do
  owner ← answers_for user_id user
  c ← lookup (λ db. request_with_course id owner db) not_found
  raise_if (is_archived_course c.course.status) (Error.http 409 "Archived courses are read-only")
  raise_if (is_archived_assignment c.assignment.status)
      (Error.http 409 "Archived assignments are read-only")
  request ← lookup (λ db. find id db.review_requests) not_found
  raise_if (is_open status) (Error.http 422 "Response status must be RESOLVED or REJECTED")
  raise_if (not (is_open request.status)) (Error.http 409 "Review request is already terminal")
  put_request id (answered now status response user_id request)
  add_student_course_notification request.student_id c.assignment.course_id (notice_of status)
      (Fields.field "review_request_id" (Json.num id) Fields.end)
  record_audit user_id "ReviewRequest" id (action_of status) (some (state_snapshot request))
      (some (state_snapshot (answered now status response user_id request))) response
  after ← lookup (λ db. request_with_course id owner db) not_found
  pure after.request
