-- ===== src/Worker.antt =====
-- The task of a worker, `_run_analysis_job` of backend/app/workers/tasks.py. It is two transactions:
-- the first claims a job, and the second stores what has become of it. Between them other
-- transactions may run, the heartbeats of the worker among them.
pub mod Fenced
pub mod Agreement
use doc_grading.Prelude.{ℕ, ◌+◌, String, Bool, true, false, Option, none, some, find, if◌then◌else◌}
use doc_grading.Models.Enums.{DocumentStatus, invalid, processing_failed}
use doc_grading.Models.Json.{Json}
use doc_grading.Models.Rows.{AnalysisJob, DocumentVersion}
use doc_grading.Models.Db.{Db}
use doc_grading.Models.Tx.{
  Tx, Error, Outcome, returned, raised, committed, pure, raise, gets, lookup, or_raise, ◌>>=◌, ◌>>◌,
}
use doc_grading.Jobs.Outbox.{enqueue_analysis_job_dispatch}
use doc_grading.Jobs.Defs.{seconds, put_document}
use doc_grading.Jobs.Claim.{claim_next_job, claim_job_by_id, active_lease_retry_delay}
use doc_grading.Jobs.Finish.{mark_done, mark_error}
use doc_grading.Jobs.Report.{processing_failure_report}

-- What the first transaction commits: a claim, nothing to do, or a job that another worker has; then
-- the task raises `_ActiveLease` and Celery runs it again.
pub data Start : Type 0 where
  claimed_job : ℕ → Start
  nothing : Start
  active_lease : ℕ → Start

unfoldable pub claim_target : ℕ → ℕ → (ℕ → Bool) → Option ℕ → Tx (Option ℕ)
claim_target now lease locked none = claim_next_job now lease locked
claim_target now lease locked (some id) = claim_job_by_id now lease locked id

abbrev pub delay_of : ℕ → ℕ → Option ℕ → Db → Option ℕ
delay_of now lease none db = none
delay_of now lease (some id) db = active_lease_retry_delay now lease id db

-- the job is to be delivered again when the lease may be over
unfoldable pub postpone : ℕ → Option ℕ → Option ℕ → Tx Start
postpone now (some id) (some retry_after) = do
  enqueue_analysis_job_dispatch now id (some (now + seconds retry_after))
  pure (Start.active_lease retry_after)
postpone now _ _ = pure Start.nothing

unfoldable pub or_postpone : ℕ → ℕ → Option ℕ → Option ℕ → Tx Start
or_postpone now lease job_id (some id) = pure (Start.claimed_job id)
or_postpone now lease job_id none = do
  retry_after ← gets (delay_of now lease job_id)
  postpone now job_id retry_after

unfoldable pub start_task : ℕ → ℕ → (ℕ → Bool) → Option ℕ → Tx Start
start_task now lease locked job_id = do
  job ← claim_target now lease locked job_id
  or_postpone now lease job_id job

-- what a stage has come to: a value, `SQLAlchemyError`, or any other exception
pub data Stage {ℓ} (A : Type ℓ) : Type ℓ where
  value : A → Stage A
  database_error other_error : Stage A

-- `ir.content["source"]`
pub record Source : Type 0 where
  pub sha256 : String
  pub size_bytes : ℕ
  pub page_count : ℕ

-- what `get_or_build_document_ir` comes to: `PDFValidationError` and `DocumentIRExtractionError` besides
pub data Extraction : Type 0 where
  extracted : Source → Extraction
  invalid_pdf : String → String → Json → Extraction
  not_extracted extraction_database_error : Extraction

-- The stages between the transactions; the evaluations are made if the job has a rubric.
pub record Stages : Type 0 where
  pub fetched : Bool
  pub extraction : Extraction
  pub file_integrity : Stage (Unit {0})
  pub citations : Stage (Unit {0})

pub data JobOutcome : Type 0 where
  storage_error ir_extraction_error : JobOutcome
  validation_error : String → String → Json → JobOutcome
  evaluation_error : String → String → JobOutcome
  success : Source → JobOutcome
  -- the transaction is rolled back, and the error is raised
  aborted : JobOutcome

abbrev after_citations : Source → Stage (Unit {0}) → JobOutcome
after_citations source (value _) = success source
after_citations source database_error = aborted
after_citations source other_error =
    evaluation_error "CITATION_EVALUATION_FAILED" "Citation evaluation failed"

abbrev after_integrity : Source → Stage (Unit {0}) → Stage (Unit {0}) → JobOutcome
after_integrity source (value _) citations = after_citations source citations
after_integrity source database_error citations = aborted
after_integrity source other_error citations =
    evaluation_error "FILE_INTEGRITY_EVALUATION_FAILED" "File integrity evaluation failed"

abbrev after_extraction : Stages → Extraction → JobOutcome
after_extraction stages (extracted source) =
    after_integrity source stages.file_integrity stages.citations
after_extraction stages (invalid_pdf code detail report) = validation_error code detail report
after_extraction stages not_extracted = ir_extraction_error
after_extraction stages extraction_database_error = aborted

unfoldable pub outcome_of : Stages → JobOutcome
outcome_of stages =
    if stages.fetched then after_extraction stages stages.extraction else storage_error

abbrev pub failed_version :
    DocumentStatus → String → String → Json → DocumentVersion → DocumentVersion
failed_version status code detail report v = record v {
  status = status;
  failure_code = some code;
  failure_detail = some detail;
  validation_report = report;
}

abbrev pub processed_version : Source → DocumentVersion → DocumentVersion
processed_version source v = record v {
  sha256 = source.sha256;
  size_bytes = source.size_bytes;
  page_count = some source.page_count;
}

-- `job.document_version`
unfoldable pub document_of : ℕ → Tx DocumentVersion
document_of id = lookup (λ db. find id db.documents) Error.attribute_error

module _ (now : ℕ) (lower : String → String) (id document_id attempt : ℕ) where
  unfoldable pub fail_with : DocumentStatus → String → String → Json → Tx Bool
  fail_with status code detail report = do
    v ← document_of document_id
    put_document document_id (failed_version status code detail report v)
    mark_error now id code detail attempt

  -- a failure of the system, which keeps the report's diagnostics
  unfoldable pub fail_processing : String → String → Tx Bool
  fail_processing code detail = do
    v ← document_of document_id
    report ←
        or_raise (processing_failure_report code (lower code) v.validation_report) Error.type_error
    fail_with processing_failed code detail report

  unfoldable pub succeed_with : Source → Tx Bool
  succeed_with source = do
    v ← document_of document_id
    put_document document_id (processed_version source v)
    mark_done now id attempt

  unfoldable pub store_outcome : JobOutcome → Tx Bool
  store_outcome storage_error = fail_processing "PDF_STORAGE_ERROR" "Object storage read failed"
  store_outcome ir_extraction_error =
      fail_processing "PDF_IR_EXTRACTION_FAILED" "Document structure extraction failed"
  store_outcome (validation_error code detail report) = fail_with invalid code detail report
  store_outcome (evaluation_error code detail) = fail_processing code detail
  store_outcome (success source) = succeed_with source
  store_outcome aborted = raise Error.sqlalchemy_error

  -- `rollback` if the job is no longer the worker's, and `commit` otherwise
  abbrev pub commit_if : Db → Outcome Bool → Outcome (Option ℕ)
  commit_if db (returned true db') = returned (some id) db'
  commit_if db (returned false db') = returned none db
  commit_if db (raised e) = raised e
  commit_if db (committed e db') = committed e db'

  unfoldable pub finish_task : JobOutcome → Tx (Option ℕ)
  finish_task outcome db = commit_if db (store_outcome outcome db)
