-- ===== src/Jobs/Defs.antt =====
-- What the operations of backend/app/services/analysis_job.py share: tests on a job's row, writes
-- of rows, the joins that they select by, and the creation of a job.
use doc_grading.Prelude.{
  ℕ, ◌+◌, ◌*◌, String, Bool, true, false, Option, none, some, find, put, find_by, ◌&&◌, ◌==◌, leb,
}
use doc_grading.Models.Enums.{AnalysisJobStatus, queued, running}
use doc_grading.Models.Enums.{analysis_job_error}
use doc_grading.Models.Json.{Json, Fields}
use doc_grading.Models.Rows.{AnalysisJob, DocumentVersion, Submission}
use doc_grading.Models.Db.{Db}
use doc_grading.Models.Tx.{lookup, Tx, Error, pure, modify, new_uuid, ◌>>=◌, ◌>>◌}
use doc_grading.Audit.{record_system_audit}
use doc_grading.Notifications.{add_student_course_notification}
use doc_grading.Jobs.Outbox.{enqueue_analysis_job_dispatch}

-- `timedelta(seconds=n)` in microseconds
abbrev pub seconds : ℕ → ℕ
seconds n = n * 1000000

abbrev pub is_queued : AnalysisJobStatus → Bool
is_queued queued = true
is_queued _ = false

abbrev pub is_running : AnalysisJobStatus → Bool
is_running running = true
is_running _ = false

-- `coalesce(heartbeat_at, started_at, queued_at)`
abbrev pub touched : Option ℕ → Option ℕ → ℕ → ℕ
touched (some heartbeat_at) _ _ = heartbeat_at
touched none (some started_at) _ = started_at
touched none none queued_at = queued_at

abbrev pub last_touch : AnalysisJob → ℕ
last_touch job = touched job.heartbeat_at job.started_at job.queued_at

-- `last_touch <= now - lease`
abbrev pub is_stale : ℕ → ℕ → AnalysisJob → Bool
is_stale now lease job = leb (last_touch job + seconds lease) now

unfoldable pub put_job : ℕ → AnalysisJob → Tx (Unit {0})
put_job id job = modify λ db. record db { jobs = put id job db.jobs }

unfoldable pub put_document : ℕ → DocumentVersion → Tx (Unit {0})
put_document id doc = modify λ db. record db { documents = put id doc db.documents }

-- `{"status": value}`
abbrev pub status_field : String → Fields
status_field value = Fields.field "status" (Json.str value) Fields.end

abbrev assignment_of : Db → Option Submission → Option (ℕ × ℕ)
assignment_of db none = none
assignment_of db (some s) = elim (find s.assignment_id db.assignments) [
  | none ↦ none
  | some a ↦ some (s.student_id, a.course_id)
]

-- the student and the course, by the joins from a document version to its assignment
unfoldable pub document_context : ℕ → Db → Option (ℕ × ℕ)
document_context id db = elim (find id db.documents) [
  | none ↦ none
  | some d ↦ assignment_of db (find d.submission_id db.submissions)
]

-- `_notify_error`
unfoldable pub notify_error : ℕ → ℕ → Tx (Unit {0})
notify_error id document_version_id = do
  (student_id, course_id) ←
      lookup (λ db. document_context document_version_id db) Error.no_result_found
  add_student_course_notification student_id course_id analysis_job_error
      (Fields.field "analysis_job_id" (Json.num id) Fields.end)
  pure tt

-- The job's columns at its creation, for the snapshot of the active LLM route, if there is one.
abbrev pub initial_snapshot : Option Json → Fields
initial_snapshot none =
    Fields.field "pipeline" (Json.str "pdf-ingestion")
      (Fields.field "version" (Json.num 1) Fields.end)
initial_snapshot (some route) =
    Fields.field "pipeline" (Json.str "pdf-ingestion")
      (Fields.field "version" (Json.num 1) (Fields.field "llm_route" route Fields.end))

abbrev pub new_job : ℕ → ℕ → ℕ → Option Json → AnalysisJob
new_job now document_version_id rubric_version_id route = record {
  document_version_id = document_version_id;
  rubric_version_id = rubric_version_id;
  status = queued;
  attempt_count = 0;
  max_attempts = 3;
  snapshot = initial_snapshot route;
  queued_at = now;
  started_at = none;
  heartbeat_at = none;
  finished_at = none;
  error_code = none;
  error_detail = none;
}

abbrev pub is_job_of : ℕ → ℕ → AnalysisJob → Bool
is_job_of document_version_id rubric_version_id job =
    job.document_version_id == document_version_id && job.rubric_version_id == rubric_version_id

unfoldable pub enqueue_if : Bool → ℕ → ℕ → Tx (Unit {0})
enqueue_if true now id = enqueue_analysis_job_dispatch now id none
enqueue_if false now id = pure tt

-- what follows the select for update
unfoldable pub get_or_create : ℕ → ℕ → ℕ → Option Json → Option (ℕ × AnalysisJob) → Tx ℕ
get_or_create now document_version_id rubric_version_id route (some (id, job)) = do
  enqueue_if (is_queued job.status) now id
  pure id
get_or_create now document_version_id rubric_version_id route none = do
  id ← new_uuid
  put_job id (new_job now document_version_id rubric_version_id route)
  enqueue_analysis_job_dispatch now id none
  record_system_audit "AnalysisJob" id "QUEUED" none (some (status_field "QUEUED"))
      "Analysis job created"
  pure id

-- `route` is what `_llm_route_snapshot` has selected.
unfoldable pub create_or_get_job : ℕ → ℕ → ℕ → Option Json → Tx ℕ
create_or_get_job now document_version_id rubric_version_id route db =
    get_or_create now document_version_id rubric_version_id route
      (find_by (is_job_of document_version_id rubric_version_id) db.jobs) db
