-- ===== src/Jobs/Writes.antt =====
-- The other operations on jobs as changes of the table.
use doc_grading.Prelude.{
  ℕ, ◌≡◌, refl, String, Bool, true, false, Option, none, some, arith, inl, inr, Bool-cases, Table,
  find, put, find_by, leb,
}
use doc_grading.Models.Json.{Json}
use doc_grading.Models.Rows.{AnalysisJob, User, DocumentVersion}
use doc_grading.Models.Db.{Db}
use doc_grading.Models.Tx.{Tx, tx, pure, raise, raise_if, ◌>>◌}
use doc_grading.Models.Ensures.{Ensures, Ensures-mono}
use doc_grading.Audit.{record_system_audit}
use doc_grading.Jobs.Outbox.{enqueue_analysis_job_dispatch}
use doc_grading.Jobs.Defs.{
  create_or_get_job, get_or_create, is_job_of, enqueue_if, put_job, is_queued,
}
use doc_grading.Jobs.Finish.{
  is_held, touch, finish, fail, await_review, update_heartbeat, mark_done, mark_error,
}
use doc_grading.Jobs.Retry.{
  retried, requeue_job, retry_job, retry_row, requeue_document, is_error, authorize_job, may_access,
}
use doc_grading.Jobs.Machine.{Step}
use doc_grading.Jobs.Moves.{Moves, Moves-put_job, Moves-then, Moves-bind, keeps_rules}
use doc_grading.Jobs.Refines.{Moves-notify_error}
use doc_grading.Jobs.Changes.{Changes}

module _ {t : Table AnalysisJob} where
  Moves-await_review : (id : ℕ) (doc : Option DocumentVersion) → Moves t t (await_review id doc)
  unfolding await_review
  Moves-await_review id none = search keeps_rules
  Moves-await_review id (some doc) = search keeps_rules

  Moves-requeue_document :
      (id : ℕ) (doc : Option DocumentVersion) → Moves t t (requeue_document id doc)
  unfolding requeue_document
  Moves-requeue_document id none = search keeps_rules
  Moves-requeue_document id (some doc) = search keeps_rules

  Moves-enqueue_if : (b : Bool) (now id : ℕ) → Moves t t (enqueue_if b now id)
  unfolding enqueue_if
  Moves-enqueue_if true now id = search keeps_rules
  Moves-enqueue_if false now id = search keeps_rules

module _ {t : Table AnalysisJob} where
  Moves-requeue_job :
      (now id user_id : ℕ) (job : AnalysisJob)
      → Moves t (put id (retried now job) t) (requeue_job now id user_id job)
  unfolding requeue_job
  Moves-requeue_job now id user_id job = Moves-bind {t' = t} _ _ (search keeps_rules) (λ doc.
      Moves-then _ _ (Moves-requeue_document job.document_version_id doc)
        (Moves-then _ _ (Moves-put_job id (retried now job)) (search keeps_rules)))

module _ (now lease : ℕ) (db : Db) where
  abbrev Changed {ℓ} : {A : Type ℓ} → A → Db → Type 0
  Changed _ db' = Changes now lease db.next_uuid db.jobs db'.jobs

  by_step :
      {A : Type 0} (id : ℕ) (job job' : AnalysisJob) (m : Tx A)
      → find id db.jobs ≡ some job
      → Step now lease job job'
      → Moves db.jobs (put id job' db.jobs) m
      → Ensures Changed (m db)
  by_step id job job' m f s k =
      Ensures-mono _ Changed _ (λ a db' e. Changes.moved id job job' f s e) (k.at db refl)

  by_nothing : {A : Type 0} (m : Tx A) → Moves db.jobs db.jobs m → Ensures Changed (m db)
  by_nothing m k = Ensures-mono _ Changed _ (λ a db' e. Changes.same e) (k.at db refl)

  module _ (id attempt : ℕ) where
    touch-Changed :
        (row : Option AnalysisJob)
        → find id db.jobs ≡ row
        → Ensures Changed (touch now id attempt row db)
    touch-Changed none e = by_nothing (pure false) (search keeps_rules)
    touch-Changed (some job) e = elim (Bool-cases (is_held attempt job)) [
      | inl h ↦ rw h (
          by_step id job _ _ e (Step.beat (ground arith) refl)
            (Moves-then _ _ (Moves-put_job id _) (search keeps_rules)))
      | inr h ↦ rw h (by_nothing (pure false) (search keeps_rules))
    ]

    finish-Changed :
        (row : Option AnalysisJob)
        → find id db.jobs ≡ row
        → Ensures Changed (finish now id attempt row db)
    finish-Changed none e = by_nothing (pure false) (search keeps_rules)
    finish-Changed (some job) e = elim (Bool-cases (is_held attempt job)) [
      | inl h ↦ rw h (
          by_step id job _ _ e (Step.finish (ground arith) refl) (
            Moves-then _ _ (Moves-put_job id _) (search (keeps_rules, Moves-await_review) depth 8)))
      | inr h ↦ rw h (by_nothing (pure false) (search keeps_rules))
    ]

    fail-Changed :
        (code detail : String) (row : Option AnalysisJob)
        → find id db.jobs ≡ row
        → Ensures Changed (fail now id code detail attempt row db)
    fail-Changed code detail none e = by_nothing (pure false) (search keeps_rules)
    fail-Changed code detail (some job) e = elim (Bool-cases (is_held attempt job)) [
      | inl h ↦ rw h (
          by_step id job _ _ e (Step.fail code detail (ground arith) refl) (
            Moves-then _ _ (Moves-put_job id _) (search (keeps_rules, Moves-notify_error) depth 8)))
      | inr h ↦ rw h (by_nothing (pure false) (search keeps_rules))
    ]

    pub update_heartbeat-Changed : Ensures Changed (update_heartbeat now id attempt db)
    unfolding update_heartbeat
    update_heartbeat-Changed = touch-Changed (find id db.jobs) refl

    pub mark_done-Changed : Ensures Changed (mark_done now id attempt db)
    unfolding mark_done
    mark_done-Changed = finish-Changed (find id db.jobs) refl

    pub mark_error-Changed :
        (code detail : String) → Ensures Changed (mark_error now id code detail attempt db)
    unfolding mark_error
    mark_error-Changed code detail = fail-Changed code detail (find id db.jobs) refl

  retry_row-Changed :
      (id user_id : ℕ) (row : Option AnalysisJob)
      → find id db.jobs ≡ row
      → Ensures Changed (retry_row now id user_id row db)
  unfolding raise raise_if ◌>>◌
  retry_row-Changed id user_id none e = tt
  retry_row-Changed id user_id (some job) e = elim (Bool-cases (is_error job.status)) [
    | inr h ↦ rw h tt
    | inl h ↦ rw h (elim (Bool-cases (leb job.max_attempts job.attempt_count)) [
      | inl k ↦ rw k tt
      | inr k ↦ rw k (
          by_step id job _ _ e (Step.retry (ground arith) (ground arith) refl)
            (Moves-requeue_job now id user_id job))
    ])
  ]

  pub retry_job-Changed :
      (id : ℕ) (job : AnalysisJob) (user_id : ℕ) (user : User)
      → Ensures Changed (retry_job now id job user_id user db)
  unfolding retry_job authorize_job raise_if ◌>>◌
  retry_job-Changed id job user_id user = elim (Bool-cases (may_access db job user_id user true)) [
    | inl h ↦ ground (arith, retry_row-Changed id user_id (find id db.jobs) refl)
    | inr h ↦ ground arith
  ]

  module _ (document_version_id rubric_version_id : ℕ) (route : Option Json) where
    get_or_create-Changed :
        (existing : Option (ℕ × AnalysisJob))
        → Ensures Changed
            (get_or_create now document_version_id rubric_version_id route existing db)
    unfolding get_or_create put_job enqueue_analysis_job_dispatch record_system_audit tx
    get_or_create-Changed (some (id, job)) =
        by_nothing (enqueue_if (is_queued job.status) now id >> pure id)
          (search (keeps_rules, Moves-enqueue_if))
    get_or_create-Changed none = Changes.added document_version_id rubric_version_id route refl

    pub create_or_get_job-Changed :
        Ensures Changed (create_or_get_job now document_version_id rubric_version_id route db)
    unfolding create_or_get_job
    create_or_get_job-Changed =
        get_or_create-Changed (find_by (is_job_of document_version_id rubric_version_id) db.jobs)
