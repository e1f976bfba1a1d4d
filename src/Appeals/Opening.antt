-- ===== src/Appeals/Opening.antt =====
-- Opening a request to review a published result, `create_review_request`.
use doc_grading.Prelude.{
  ℕ, ◌+◌, String, Bool, false, not, ◌&&◌, ◌||◌, Option, none, some, find, find_by, is_none, all,
  ltb, ◌==◌, eq_opt, if◌then◌else◌, List,
}
use doc_grading.Models.Enums.{UserRole, ReviewRequestStatus, NotificationType, has_role, is_student}
use doc_grading.Models.Json.{Json, Items, Fields, get}
use doc_grading.Models.Rows.{
  User, Course, Assignment, Submission, DocumentVersion, PublishedResultVersion, CriterionVersion,
  Finding, AnalysisJob, ReviewRequest,
}
use doc_grading.Models.Db.{Db}
use doc_grading.Models.Tx.{Tx, Error, pure, raise_if, lookup, or_raise, gets, new_uuid, ◌>>=◌, ◌>>◌}
use doc_grading.Audit.{record_audit}
use doc_grading.Notifications.{add_notification, is_active_student_of}
use doc_grading.Jobs.Defs.{seconds}
use doc_grading.Review.Publish.{is_published, latest_document_id, latest_result_id, snapshot_field}
use doc_grading.Appeals.{
  request_with_course, not_found, put_request, state_snapshot, is_open, is_archived_course,
  is_archived_assignment,
}

-- `_WINDOW`
abbrev pub window : ℕ
window = seconds 604800

-- The schema has exactly one of `criterion_id` and `finding_id`.
pub record NewRequest : Type 0 where
  pub submission_id : ℕ
  pub criterion_id : Option ℕ
  pub finding_id : Option ℕ
  pub reason : String

-- `set(user.roles) == {STUDENT}`
abbrev pub is_pure_student : List UserRole → Bool
is_pure_student roles = has_role is_student roles && all is_student roles

pub record ResultContext : Type 0 where
  pub result : PublishedResultVersion
  pub version : DocumentVersion
  pub assignment : Assignment
  pub course : Course

-- the course of a submission of the student
abbrev pub in_course :
    ℕ → Db → PublishedResultVersion → DocumentVersion → Option Submission → Option ResultContext
in_course student_id db r v none = none
in_course student_id db r v (some s) = elim (find s.assignment_id db.assignments) [
  | none ↦ none
  | some a ↦ elim (find a.course_id db.courses) [
    | none ↦ none
    | some c ↦
        if s.student_id == student_id
        then some (record { result = r; version = v; assignment = a; course = c })
        else none
  ]
]

-- the result and the rows it is joined with
abbrev pub of_result : ℕ → ℕ → Db → Option PublishedResultVersion → Option ResultContext
of_result submission_id student_id db none = none
of_result submission_id student_id db (some r) = elim (find r.document_version_id db.documents) [
  | none ↦ none
  | some v ↦
      if v.submission_id == submission_id
      then in_course student_id db r v (find v.submission_id db.submissions)
      else none
]

-- `_load_request_context`; the selects that lock follow the same joins, so they find their rows too
unfoldable pub request_context : ℕ → ℕ → ℕ → Db → Option ResultContext
request_context result_id submission_id student_id db =
    of_result submission_id student_id db (find result_id db.published_results)

-- `published_at < now - _WINDOW or published_at > now`
abbrev pub is_out_of_window : ℕ → ℕ → Bool
is_out_of_window now published_at = ltb (published_at + window) now || ltb now published_at

-- the criterion of an item of the snapshot, if it is of this finding
abbrev link_of : ℕ → Option Json → Option Json → Option ℕ
link_of finding_id (some (Json.num f)) (some (Json.num c)) =
    if f == finding_id then some c else none
link_of finding_id _ _ = none

abbrev or_next : Option ℕ → Option ℕ → Option ℕ
or_next none next = next
or_next (some c) next = some c

-- the first item of the finding
abbrev criterion_in : ℕ → Items → Option ℕ
criterion_in finding_id Items.nil = none
criterion_in finding_id (Items.cons (Json.obj raw) rest) =
    or_next (link_of finding_id (get "finding_id" raw) (get "criterion_version_id" raw))
      (criterion_in finding_id rest)
criterion_in finding_id (Items.cons _ rest) = criterion_in finding_id rest

abbrev criterion_among : Option ℕ → Json → Option ℕ
criterion_among (some finding_id) (Json.arr findings) = criterion_in finding_id findings
criterion_among _ _ = none

abbrev of_rubric : ℕ → Option CriterionVersion → Option CriterionVersion
of_rubric rubric_id none = none
of_rubric rubric_id (some cv) = if cv.rubric_version_id == rubric_id then some cv else none

abbrev of_version : ℕ → Option AnalysisJob → Bool
of_version version_id none = false
of_version version_id (some job) = job.document_version_id == version_id

-- the select on `Finding` finds a row
abbrev finding_exists : ℕ → ℕ → Db → Option Finding → Bool
finding_exists criterion_id version_id db none = false
finding_exists criterion_id version_id db (some f) =
    f.criterion_version_id == criterion_id && of_version version_id (find f.analysis_job_id db.jobs)

abbrev stored_finding : Option ℕ → Db → Option Finding
stored_finding none db = none
stored_finding (some id) db = find id db.findings

abbrev is_asked_for : ℕ → ℕ → CriterionVersion → Bool
is_asked_for rubric_id criterion_id cv =
    cv.rubric_version_id == rubric_id && cv.criterion_id == criterion_id

-- the version of the criterion that the request is about, and its finding
unfoldable pub target : Option ℕ → Option ℕ → ResultContext → Tx (ℕ × Option ℕ)
target (some criterion_id) finding_id c = do
  (id, _) ←
      lookup (λ db. find_by (is_asked_for c.assignment.rubric_version_id criterion_id) db.criteria)
        (Error.http 409 "Criterion is not in assignment rubric")
  pure (id, none)
target none finding_id c = do
  id ←
      or_raise
        (criterion_among finding_id
          (snapshot_field "findings" c.result.snapshot (Json.arr Items.nil)))
        (Error.http 409 "Finding is not in published result")
  cv ←
      lookup (λ db. of_rubric c.assignment.rubric_version_id (find id db.criteria))
        (Error.http 409 "Finding criterion not found")
  exists ←
      gets λ db. finding_exists id c.result.document_version_id db (stored_finding finding_id db)
  raise_if (not exists) (Error.http 409 "Finding does not belong to document")
  pure (id, finding_id)

-- an open request of the student on the criterion of the result
abbrev pub is_duplicate : ℕ → ℕ → ℕ → ReviewRequest → Bool
is_duplicate result_id student_id criterion_version_id r =
    r.published_result_id == result_id
    && r.student_id == student_id
    && r.criterion_version_id == criterion_version_id
    && is_open r.status

abbrev pub new_request : ℕ → ℕ → ℕ → Option ℕ → NewRequest → ReviewRequest
new_request result_id user_id criterion_version_id finding_id payload = record {
  published_result_id = result_id;
  submission_id = payload.submission_id;
  student_id = user_id;
  criterion_version_id = criterion_version_id;
  finding_id = finding_id;
  status = ReviewRequestStatus.open_;
  reason = payload.reason;
  response = none;
  responded_by_user_id = none;
  responded_at = none;
}

-- The response is given by the row and its identifier.
unfoldable pub create_review_request : ℕ → ℕ → NewRequest → ℕ → User → Tx (ℕ × ReviewRequest)
create_review_request now result_id payload user_id user = do
  raise_if (not (is_pure_student user.roles))
      (Error.http 403 "Only students may open review requests")
  c ←
      lookup (λ db. request_context result_id payload.submission_id user_id db)
        (Error.http 404 "Published result not found")
  member ← gets λ db. find_by (is_active_student_of c.assignment.course_id user_id) db.memberships
  raise_if (is_none member) (Error.http 404 "Published result not found")
  raise_if (not (is_published c.version.status)) (Error.http 409 "Document is not published")
  raise_if (is_archived_course c.course.status) (Error.http 409 "Archived courses are read-only")
  raise_if (is_archived_assignment c.assignment.status)
      (Error.http 409 "Archived assignments are read-only")
  latest_document ← gets (latest_document_id payload.submission_id)
  raise_if (not (eq_opt latest_document (some c.result.document_version_id)))
      (Error.http 409 "Only latest document result may be reviewed")
  latest ← gets (latest_result_id c.result.document_version_id)
  raise_if (not (eq_opt latest (some result_id)))
      (Error.http 409 "Only latest published result may be reviewed")
  raise_if (is_out_of_window now c.result.published_at)
      (Error.http 409 "Review request window has expired")
  (criterion_version_id, finding_id) ← target payload.criterion_id payload.finding_id c
  duplicate ←
      gets λ db. find_by (is_duplicate result_id user_id criterion_version_id) db.review_requests
  raise_if (not (is_none duplicate)) (Error.http 409 "Open review request already exists")
  id ← new_uuid
  let request = new_request result_id user_id criterion_version_id finding_id payload
  put_request id request
  add_notification c.course.owner_teacher_id NotificationType.review_request_created
      (Fields.field "review_request_id" (Json.num id) Fields.end)
  record_audit user_id "ReviewRequest" id "OPEN" (some (Fields.field "status" Json.null Fields.end))
      (some (state_snapshot request)) payload.reason
  stored ← lookup (λ db. request_with_course id none db) not_found
  pure (id, stored.request)
