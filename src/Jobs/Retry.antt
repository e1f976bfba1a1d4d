-- ===== src/Jobs/Retry.antt =====
-- Who may see a job, and the retry of a failed one, backend/app/services/analysis_job.py.
use doc_grading.Prelude.{
  ℕ, String, Bool, true, false, not, ◌&&◌, Option, none, some, find, find_by, ◌==◌, leb, is_some,
  str_eq, if◌then◌else◌,
}
use doc_grading.Models.Enums.{
  AnalysisJobStatus, DocumentStatus, error, job_status_value, has_role, is_admin, is_teacher,
  is_student,
}
use doc_grading.Models.Json.{Json, Fields, get, pop}
use doc_grading.Models.Rows.{AnalysisJob, DocumentVersion, User}
use doc_grading.Models.Db.{Db}
use doc_grading.Models.Tx.{Tx, Error, pure, raise, gets, raise_if, ◌>>=◌, ◌>>◌}
use doc_grading.Audit.{record_audit}
use doc_grading.Notifications.{is_active_student_of}
use doc_grading.Jobs.Outbox.{enqueue_analysis_job_dispatch}
use doc_grading.Jobs.Defs.{document_context, put_job, put_document, status_field}

-- the select of `authorize_job`: the student, the course and its owner
unfoldable pub job_context : ℕ → Db → Option (ℕ × ℕ × ℕ)
job_context document_version_id db = elim (document_context document_version_id db) [
  | none ↦ none
  | some (student_id, course_id) ↦ elim (find course_id db.courses) [
    | none ↦ none
    | some c ↦ some (student_id, course_id, c.owner_teacher_id)
  ]
]

abbrev is_active_student : Db → ℕ → ℕ → Bool
is_active_student db course_id user_id =
    is_some (find_by (is_active_student_of course_id user_id) db.memberships)

abbrev pub not_found : Error
not_found = Error.http 404 "Analysis job not found"

abbrev is_owner_row : ℕ → Option (ℕ × ℕ × ℕ) → Bool
is_owner_row user_id none = false
is_owner_row user_id (some (_, _, owner_id)) = owner_id == user_id

abbrev is_student_row : Db → ℕ → Option (ℕ × ℕ × ℕ) → Bool
is_student_row db user_id none = false
is_student_row db user_id (some (student_id, course_id, _)) =
    student_id == user_id && is_active_student db course_id user_id

-- The tests after the select repeat its conditions, so one test stands for both.
unfoldable pub may_access : Db → AnalysisJob → ℕ → User → Bool → Bool
may_access db job user_id user retry =
    if has_role is_admin user.roles
    then true
    else if has_role is_teacher user.roles
    then is_owner_row user_id (job_context job.document_version_id db)
    else if has_role is_student user.roles && not retry
    then is_student_row db user_id (job_context job.document_version_id db)
    else false

unfoldable pub authorize_job : AnalysisJob → ℕ → User → Bool → Tx (Unit {0})
authorize_job job user_id user retry db =
    raise_if (not (may_access db job user_id user retry)) not_found db

abbrev pub is_error : AnalysisJobStatus → Bool
is_error error = true
is_error _ = false

abbrev is_cancelled : Option Json → Bool
is_cancelled (some (Json.str s)) = str_eq s "CANCELLED"
is_cancelled _ = false

abbrev legacy_key : String
legacy_key = "_alembic_20260828_0006_legacy_cancelled"

-- the snapshot without the marker of a job that was cancelled before the status was dropped
unfoldable pub without_marker : Fields → Fields
without_marker snapshot =
    if is_cancelled (get legacy_key snapshot) then pop legacy_key snapshot else snapshot

abbrev pub retried : ℕ → AnalysisJob → AnalysisJob
retried now job = record job {
  status = AnalysisJobStatus.queued;
  snapshot = without_marker job.snapshot;
  error_code = none;
  error_detail = none;
  finished_at = none;
  started_at = none;
  heartbeat_at = none;
  queued_at = now;
}

unfoldable pub requeue_document : ℕ → Option DocumentVersion → Tx (Unit {0})
requeue_document id none = pure tt
requeue_document id (some doc) = put_document id (record doc { status = DocumentStatus.queued })

unfoldable pub requeue_job : ℕ → ℕ → ℕ → AnalysisJob → Tx (Unit {0})
requeue_job now id user_id locked = do
  doc ← gets λ db. find locked.document_version_id db.documents
  requeue_document locked.document_version_id doc
  put_job id (retried now locked)
  enqueue_analysis_job_dispatch now id (some now)
  record_audit user_id "AnalysisJob" id "QUEUED"
      (some (status_field (job_status_value locked.status))) (some (status_field "QUEUED"))
      "Analysis job retry requested"

-- what follows the select for update
abbrev pub retry_row : ℕ → ℕ → ℕ → Option AnalysisJob → Tx (Unit {0})
retry_row now id user_id none = raise Error.no_result_found
retry_row now id user_id (some locked) = do
  raise_if (not (is_error locked.status)) (Error.http 409 "Job is not in ERROR")
  raise_if (leb locked.max_attempts locked.attempt_count) (Error.http 409 "Retry limit reached")
  requeue_job now id user_id locked

-- The caller has loaded `job`; the row is read again under a lock.
unfoldable pub retry_job : ℕ → ℕ → AnalysisJob → ℕ → User → Tx (Unit {0})
retry_job now id job user_id user = do
  authorize_job job user_id user true
  (λ db. retry_row now id user_id (find id db.jobs) db)
