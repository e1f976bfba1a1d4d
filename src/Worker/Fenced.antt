-- ===== src/Worker/Fenced.antt =====
-- A worker whose job has been taken over changes nothing, whatever has become of its stages.
use doc_grading.Prelude.{
  ℕ, ◌≤◌, ◌≡◌, refl, sym, ap, ◌∙◌, String, Bool, false, none, some, ◌⊎◌, inl, inr, find,
}
use doc_grading.Models.Enums.{DocumentStatus, invalid, processing_failed}
use doc_grading.Models.Json.{Json}
use doc_grading.Models.Rows.{AnalysisJob, DocumentVersion}
use doc_grading.Models.Db.{Db}
use doc_grading.Models.Tx.{tx, Error, Outcome, returned, raised, committed, raise}
use doc_grading.Models.Ensures.{Ensures, Ensures-mono}
use doc_grading.Models.Hoare.{Ensures-lookup, Ensures-or_raise}
use doc_grading.Models.Reads.{Ensures-seq}
use doc_grading.Jobs.Defs.{put_document}
use doc_grading.Jobs.Claim.{claim_job_by_id}
use doc_grading.Jobs.Fencing.{IsFenced, lost-IsFenced, claim-IsLost, IsLost}
use doc_grading.Worker.{
  JobOutcome, Source, finish_task, store_outcome, fail_with, fail_processing, succeed_with,
  document_of, commit_if,
}

module _ (now : ℕ) (lower : String → String) (id document_id attempt : ℕ) (db : Db)
    (lost : IsLost id attempt db) where
  abbrev Q : Bool → Db → Type 0
  Q b _ = b ≡ false

  fenced : (d : Db) → d.jobs ≡ db.jobs → IsFenced id attempt d
  fenced d e = lost-IsFenced id attempt d (λ job f. lost job (sym (ap (find id) e) ∙ f))

  put_document-jobs :
      (v : DocumentVersion) → Ensures (λ _ db'. db'.jobs ≡ db.jobs) (put_document document_id v db)
  unfolding put_document tx
  put_document-jobs v = refl

  fail_with-Q :
      (status : DocumentStatus) (code detail : String) (report : Json)
      → Ensures Q (fail_with now lower id document_id attempt status code detail report db)
  unfolding fail_with document_of
  fail_with-Q status code detail report = Ensures-lookup Q _ _ _ db (λ v f.
      Ensures-seq (λ _ db'. db'.jobs ≡ db.jobs) Q _ _ db (put_document-jobs _)
        (λ _ d e. rw ((fenced d e).no_error now code detail) refl))

  fail_processing-Q :
      (code detail : String)
      → Ensures Q (fail_processing now lower id document_id attempt code detail db)
  unfolding fail_processing document_of
  fail_processing-Q code detail = Ensures-lookup Q _ _ _ db (λ v f.
      Ensures-or_raise Q _ _ _ db (λ report e. fail_with-Q processing_failed code detail report))

  succeed_with-Q :
      (source : Source) → Ensures Q (succeed_with now lower id document_id attempt source db)
  unfolding succeed_with document_of
  succeed_with-Q source = Ensures-lookup Q _ _ _ db (λ v f.
      Ensures-seq (λ _ db'. db'.jobs ≡ db.jobs) Q _ _ db (put_document-jobs _)
        (λ _ d e. rw ((fenced d e).no_done now) refl))

  store_outcome-Q :
      (o : JobOutcome) → Ensures Q (store_outcome now lower id document_id attempt o db)
  unfolding store_outcome raise
  store_outcome-Q JobOutcome.storage_error = fail_processing-Q _ _
  store_outcome-Q JobOutcome.ir_extraction_error = fail_processing-Q _ _
  store_outcome-Q (JobOutcome.validation_error code detail report) =
      fail_with-Q invalid code detail report
  store_outcome-Q (JobOutcome.evaluation_error code detail) = fail_processing-Q code detail
  store_outcome-Q (JobOutcome.success source) = succeed_with-Q source
  store_outcome-Q JobOutcome.aborted = tt

  rolled_back :
      (o : Outcome Bool)
      → Ensures Q o
      → (commit_if now lower id document_id attempt db o ≡ returned none db)
        ⊎ ((e : Error) × (commit_if now lower id document_id attempt db o ≡ raised e))
  rolled_back (returned b d) q = rw q (inl refl)
  rolled_back (raised e) q = inr (e, refl)
  rolled_back (committed e d) q = absurd q

  finish_task-rolls_back :
      (o : JobOutcome)
      → (finish_task now lower id document_id attempt o db ≡ returned none db)
        ⊎ ((e : Error) × (finish_task now lower id document_id attempt o db ≡ raised e))
  unfolding finish_task
  finish_task-rolls_back o = rolled_back _ (store_outcome-Q o)

-- When a claim of a job has returned it, then a task that has the job under an attempt of before
-- ends by a rollback: it returns nothing, or raises, and nothing is written, whatever has become of
-- its stages.
pub claim-finish_task :
    (now lease : ℕ) (locked : ℕ → Bool) (id document_id attempt : ℕ) (job : AnalysisJob) (db : Db)
    → find id db.jobs ≡ some job
    → attempt ≤ job.attempt_count
    → Ensures
        (λ r db'.
          r ≡ some id
          → (later : ℕ) (lower : String → String) (o : JobOutcome)
          → (finish_task later lower id document_id attempt o db' ≡ returned none db')
            ⊎ ((e : Error) × (finish_task later lower id document_id attempt o db' ≡ raised e)))
        (claim_job_by_id now lease locked id db)
claim-finish_task now lease locked id document_id attempt job db f old =
    Ensures-mono (λ r db'. r ≡ some id → IsLost id attempt db') _ _
      (λ r db' lost h later lower o.
        finish_task-rolls_back later lower id document_id attempt db' (lost h) o)
      (claim-IsLost now lease locked id attempt job db f old)
