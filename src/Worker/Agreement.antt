-- ===== src/Worker/Agreement.antt =====
-- The job and its document end together: what `_run_analysis_job` stores in one transaction.
use doc_grading.Prelude.{
  ℕ, ◌≡◌, refl, ap, ◌∙◌, String, Bool, true, false, none, some, inl, inr, find, find-put_self,
  arith, Bool-cases, Option-cases,
}
use doc_grading.Models.Enums.{
  DocumentStatus, invalid, processing_failed, awaiting_review, done, error,
}
use doc_grading.Models.Json.{Json}
use doc_grading.Models.Rows.{AnalysisJob, DocumentVersion}
use doc_grading.Models.Db.{Db}
use doc_grading.Models.Tx.{tx, Outcome, returned, raised, committed, raise}
use doc_grading.Models.Ensures.{Ensures}
use doc_grading.Models.Hoare.{Ensures-lookup, Ensures-or_raise}
use doc_grading.Models.Reads.{Ensures-seq}
use doc_grading.Audit.{record_system_audit}
use doc_grading.Jobs.Defs.{put_job, put_document, document_context, notify_error}
use doc_grading.Jobs.Finish.{
  is_held, mark_done, mark_error, finish, fail, finished, failed, await_review,
}
use doc_grading.Jobs.Notify.{notify_error_lem}
use doc_grading.Worker.{
  JobOutcome, Source, finish_task, store_outcome, fail_with, fail_processing, succeed_with,
  document_of, commit_if, failed_version, processed_version,
}

-- the row of a document that waits for its review
abbrev waiting : DocumentVersion → DocumentVersion
waiting v = record v { status = awaiting_review; failure_code = none; failure_detail = none }

abbrev pub IsProcessed : Source → AnalysisJob → DocumentVersion → Type 0
IsProcessed source job v =
    (job.status ≡ done)
    × (v.status ≡ awaiting_review)
    × (v.failure_code ≡ none)
    × (v.sha256 ≡ source.sha256)
    × (v.size_bytes ≡ source.size_bytes)
    × (v.page_count ≡ some source.page_count)

abbrev pub HasFailed : DocumentStatus → String → AnalysisJob → DocumentVersion → Type 0
HasFailed status code job v =
    (job.status ≡ error)
    × (job.error_code ≡ some code)
    × (v.status ≡ status)
    × (v.failure_code ≡ some code)

-- How the rows of a job and its document agree on an outcome.
abbrev pub Agree : JobOutcome → AnalysisJob → DocumentVersion → Type 0
Agree JobOutcome.storage_error = HasFailed processing_failed "PDF_STORAGE_ERROR"
Agree JobOutcome.ir_extraction_error = HasFailed processing_failed "PDF_IR_EXTRACTION_FAILED"
Agree (JobOutcome.validation_error code detail report) = HasFailed invalid code
Agree (JobOutcome.evaluation_error code detail) = HasFailed processing_failed code
Agree (JobOutcome.success source) = IsProcessed source
Agree JobOutcome.aborted = λ job v. ⊥

-- The database has rows of the job and of the document, and `R` holds of them.
pub record Both (id document_id : ℕ) (R : AnalysisJob → DocumentVersion → Type 0) (db : Db)
    : Type 0 where
  pub job : AnalysisJob
  pub document : DocumentVersion
  pub has_job : find id db.jobs ≡ some job
  pub has_document : find document_id db.documents ≡ some document
  pub agree : R job document

notify_error-keeps :
    (id document_id : ℕ) (d : Db)
    → Ensures
        (λ _ db'. (db'.jobs ≡ d.jobs) × (db'.documents ≡ d.documents))
        (notify_error id document_id d)
notify_error-keeps id document_id d = elim (Option-cases (document_context document_id d)) [
  | inl e ↦ ground (arith, notify_error_lem id document_id d)
  | inr (c, e) ↦ ground (arith, notify_error_lem id document_id d)
]

module _ (now id attempt : ℕ) (job : AnalysisJob) (v : DocumentVersion) (d : Db)
    (R : AnalysisJob → DocumentVersion → Type 0) (f : find id d.jobs ≡ some job)
    (g : find job.document_version_id d.documents ≡ some v) where
  abbrev P : Bool → Db → Type 0
  P b db' = b ≡ true → Both id job.document_version_id R db'

  finish-Both : R (finished now job) (waiting v) → Ensures P (finish now id attempt (some job) d)
  unfolding await_review put_job put_document record_system_audit tx
  finish-Both r = elim (Bool-cases (is_held attempt job)) [
    | inl h ↦ rw h (
        rw g (λ _. record {
          job = finished now job;
          document = waiting v;
          has_job = find-put_self id _ d.jobs;
          has_document = find-put_self job.document_version_id _ d.documents;
          agree = r;
        }))
    | inr h ↦ rw h (λ e. ground arith)
  ]

  fail-Both :
      (code detail : String)
      → R (failed now code detail job) v
      → Ensures P (fail now id code detail attempt (some job) d)
  unfolding put_job record_system_audit tx
  fail-Both code detail r = elim (Bool-cases (is_held attempt job)) [
    | inl h ↦ rw h (
        Ensures-seq _ P (notify_error id job.document_version_id) _ _
          (notify_error-keeps id job.document_version_id _)
          (λ _ d' k _. record {
            job = failed now code detail job;
            document = v;
            has_job = ap (find id) k.0 ∙ find-put_self id _ d.jobs;
            has_document = ap (find job.document_version_id) k.1 ∙ g;
            agree = r;
          }))
    | inr h ↦ rw h (λ e. ground arith)
  ]

module _ (now : ℕ) (lower : String → String) (id attempt : ℕ) (job : AnalysisJob) (db : Db)
    (f : find id db.jobs ≡ some job) where
  abbrev EndsWith : (AnalysisJob → DocumentVersion → Type 0) → Bool → Db → Type 0
  EndsWith R b db' = b ≡ true → Both id job.document_version_id R db'

  abbrev EndsBy : JobOutcome → Bool → Db → Type 0
  EndsBy o = EndsWith (Agree o)

  fail_with-Both :
      (status : DocumentStatus) (code detail : String) (report : Json)
      → Ensures
          (EndsWith (HasFailed status code))
          (fail_with now lower id job.document_version_id attempt status code detail report db)
  unfolding fail_with document_of put_document mark_error tx
  fail_with-Both status code detail report =
      Ensures-lookup (EndsWith (HasFailed status code))
        (λ d. find job.document_version_id d.documents) _ _ db
        (λ v g. rw f (
          fail-Both now id attempt job (failed_version status code detail report v) _
            (HasFailed status code) f (find-put_self job.document_version_id _ db.documents) code
            detail (refl, refl, refl, refl)))

  fail_processing-Both :
      (code detail : String)
      → Ensures
          (EndsWith (HasFailed processing_failed code))
          (fail_processing now lower id job.document_version_id attempt code detail db)
  unfolding fail_processing document_of
  fail_processing-Both code detail = Ensures-lookup _ _ _ _ db (λ v g.
      Ensures-or_raise _ _ _ _ db (λ report e. fail_with-Both processing_failed code detail report))

  succeed_with-Both :
      (source : Source)
      → Ensures
          (EndsWith (IsProcessed source))
          (succeed_with now lower id job.document_version_id attempt source db)
  unfolding succeed_with document_of put_document mark_done tx
  succeed_with-Both source =
      Ensures-lookup (EndsWith (IsProcessed source)) (λ d. find job.document_version_id d.documents)
        _ _ db
        (λ v g. rw f (
          finish-Both now id attempt job (processed_version source v) _ (IsProcessed source) f
            (find-put_self job.document_version_id _ db.documents)
            (refl, refl, refl, refl, refl, refl)))

  store_outcome-Both :
      (o : JobOutcome)
      → Ensures (EndsBy o) (store_outcome now lower id job.document_version_id attempt o db)
  unfolding store_outcome raise
  store_outcome-Both JobOutcome.storage_error = fail_processing-Both _ _
  store_outcome-Both JobOutcome.ir_extraction_error = fail_processing-Both _ _
  store_outcome-Both (JobOutcome.validation_error code detail report) =
      fail_with-Both invalid code detail report
  store_outcome-Both (JobOutcome.evaluation_error code detail) = fail_processing-Both code detail
  store_outcome-Both (JobOutcome.success source) = succeed_with-Both source
  store_outcome-Both JobOutcome.aborted = tt

  stored :
      (o : JobOutcome) (r : Outcome Bool)
      → Ensures (EndsBy o) r
      → Ensures
          (λ r db'. r ≡ some id → Both id job.document_version_id (Agree o) db')
          (commit_if now lower id job.document_version_id attempt db r)
  stored o (returned true d) q = λ _. q refl
  stored o (returned false d) q = λ e. ground arith
  stored o (raised e) q = tt
  stored o (committed e d) q = q

-- When the task of a worker returns its job, then the rows of the job and of its document agree with
-- the outcome of the stages: after a success, the job is done and the document awaits its review with
-- the digest, the size and the pages that the extraction found; otherwise the job has failed with
-- the code of the failure, and the document has the same code, as invalid after a failed validation
-- and as failed in processing after the other failures. An aborted task returns no job.
pub finish_task-Agree :
    (now : ℕ) (lower : String → String) (id attempt : ℕ) (job : AnalysisJob) (o : JobOutcome)
    (db : Db)
    → find id db.jobs ≡ some job
    → Ensures
        (λ r db'. r ≡ some id → Both id job.document_version_id (Agree o) db')
        (finish_task now lower id job.document_version_id attempt o db)
unfolding finish_task
finish_task-Agree now lower id attempt job o db f =
    stored now lower id attempt job db f o _ (store_outcome-Both now lower id attempt job db f o)
