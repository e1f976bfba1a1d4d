-- ===== src/Jobs/Finish.antt =====
-- The writes of a worker, backend/app/services/analysis_job.py: the heartbeat and the two ends of a
-- job. Each is guarded by the attempt that the worker has claimed.
use doc_grading.Prelude.{
  ℕ, zero, suc, String, Bool, true, false, ◌&&◌, Option, none, some, find, ◌==◌, if◌then◌else◌,
}
use doc_grading.Models.Enums.{done, error, awaiting_review, document_status_value}
use doc_grading.Models.Json.{Json, Fields}
use doc_grading.Models.Rows.{AnalysisJob, DocumentVersion}
use doc_grading.Models.Tx.{Tx, pure, gets, ◌>>=◌, ◌>>◌}
use doc_grading.Audit.{record_system_audit}
use doc_grading.Jobs.Defs.{is_running, put_job, put_document, status_field, notify_error}

-- the `where` of the three updates
abbrev pub is_held : ℕ → AnalysisJob → Bool
is_held attempt_count job = is_running job.status && job.attempt_count == attempt_count

abbrev pub touch : ℕ → ℕ → ℕ → Option AnalysisJob → Tx Bool
touch now id attempt_count none = pure false
touch now id attempt_count (some job) =
    if is_held attempt_count job
    then (do put_job id (record job { heartbeat_at = some now }); pure true)
    else pure false

unfoldable pub update_heartbeat : ℕ → ℕ → ℕ → Tx Bool
update_heartbeat now id attempt_count db = touch now id attempt_count (find id db.jobs) db

-- the document's part of `mark_done`
unfoldable pub await_review : ℕ → Option DocumentVersion → Tx (Unit {0})
await_review id none = pure tt
await_review id (some doc) = do
  put_document id
      (record doc { status = awaiting_review; failure_code = none; failure_detail = none })
  record_system_audit "DocumentVersion" id "AWAITING_REVIEW"
      (some (status_field (document_status_value doc.status)))
      (some (status_field "AWAITING_REVIEW")) "Document processing completed"

abbrev pub finished : ℕ → AnalysisJob → AnalysisJob
finished now job = record job { status = done; finished_at = some now }

abbrev pub finish : ℕ → ℕ → ℕ → Option AnalysisJob → Tx Bool
finish now id attempt_count none = pure false
finish now id attempt_count (some job) =
    if is_held attempt_count job
    then (do
      put_job id (finished now job)
      record_system_audit "AnalysisJob" id "DONE" (some (status_field "RUNNING"))
          (some (status_field "DONE")) "PDF ingestion completed"
      doc ← gets λ db. find job.document_version_id db.documents
      await_review job.document_version_id doc
      pure true)
    else pure false

unfoldable pub mark_done : ℕ → ℕ → ℕ → Tx Bool
mark_done now id attempt_count db = finish now id attempt_count (find id db.jobs) db

-- `s[:n]`
abbrev take_chars : ℕ → String → String
take_chars zero s = ""
take_chars (suc n) String.[] = ""
take_chars (suc n) (String.◌∷◌ c s) = String.◌∷◌ c (take_chars n s)

-- `detail[:1000]`
pub truncated : String → String
truncated detail = take_chars 1000 detail

abbrev pub failed : ℕ → String → String → AnalysisJob → AnalysisJob
failed now code detail job = record job {
  status = error;
  error_code = some code;
  error_detail = some (truncated detail);
  finished_at = some now;
}

abbrev pub fail : ℕ → ℕ → String → String → ℕ → Option AnalysisJob → Tx Bool
fail now id code detail attempt_count none = pure false
fail now id code detail attempt_count (some job) =
    if is_held attempt_count job
    then (do
      put_job id (failed now code detail job)
      record_system_audit "AnalysisJob" id "ERROR" (some (status_field "RUNNING"))
          (some (
            Fields.field "status" (Json.str "ERROR")
              (Fields.field "error_code" (Json.str code) Fields.end)))
          "PDF ingestion failed"
      notify_error id job.document_version_id
      pure true)
    else pure false

unfoldable pub mark_error : ℕ → ℕ → String → String → ℕ → Tx Bool
mark_error now id code detail attempt_count db =
    fail now id code detail attempt_count (find id db.jobs) db
