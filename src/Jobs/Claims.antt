-- ===== src/Jobs/Claims.antt =====
-- What a claim does, on every branch, as a relation between the table before, the result, and the
-- table after.
use doc_grading.Prelude.{
  ℕ, ◌≤◌, ◌<◌, ◌≡◌, refl, Bool, true, false, Option, none, some, arith, inl, inr, Bool-cases, Table,
  put, ltb,
}
use doc_grading.Models.Enums.{AnalysisJobStatus, queued, running, done, error}
use doc_grading.Models.Rows.{AnalysisJob}
use doc_grading.Models.Db.{Db}
use doc_grading.Models.Tx.{pure}
use doc_grading.Models.Ensures.{Ensures, Ensures-mono}
use doc_grading.Jobs.Defs.{is_stale}
use doc_grading.Jobs.Claim.{
  claimed, exhausted, requeued, recover, handle, handle_locked_job, is_claimable,
}
use doc_grading.Jobs.Moves.{Moves-returning}
use doc_grading.Jobs.Refines.{Moves-exhaust, Moves-mark_running, Moves-requeue}

module _ (now lease id : ℕ) (job : AnalysisJob) (t : Table AnalysisJob) where
  pub data Claims (r : Option ℕ) (t' : Table AnalysisJob) : Type 0 where
    fresh : job.status ≡ queued → r ≡ some id → t' ≡ put id (claimed now job) t → Claims r t'
    took_over :
        job.status ≡ running
        → is_stale now lease job ≡ true
        → job.attempt_count < job.max_attempts
        → r ≡ some id
        → t' ≡ put id (claimed now (requeued now job)) t
        → Claims r t'
    gave_up :
        job.status ≡ running
        → is_stale now lease job ≡ true
        → job.max_attempts ≤ job.attempt_count
        → r ≡ none
        → t' ≡ put id (exhausted now job) t
        → Claims r t'
    skipped : is_claimable now lease job ≡ false → r ≡ none → t' ≡ t → Claims r t'

module _ (now lease id : ℕ) (job : AnalysisJob) (db : Db) where
  abbrev IsClaim : Option ℕ → Db → Type 0
  IsClaim r db' = Claims now lease id job db.jobs r db'.jobs

  recover-IsClaim :
      job.status ≡ running
      → is_stale now lease job ≡ true
      → (b : Bool) → ltb job.attempt_count job.max_attempts ≡ b
      → Ensures IsClaim (recover now id job db)
  recover-IsClaim e s true h = rw h (
      Ensures-mono _ IsClaim _ (λ r db' q. took_over e s (ground arith) q.0 q.1)
        (Moves-returning _ (some id) db (Moves-requeue now id job) refl))
  recover-IsClaim e s false h = rw h (
      Ensures-mono _ IsClaim _ (λ r db' q. gave_up e s (ground arith) q.0 q.1)
        (Moves-returning _ none db (Moves-exhaust now id job) refl))

  skip-IsClaim : is_claimable now lease job ≡ false → Ensures IsClaim (pure none db)
  unfolding pure
  skip-IsClaim h = skipped h refl refl

  handle-IsClaim :
      (status : AnalysisJobStatus)
      → job.status ≡ status
      → Ensures IsClaim (handle status now lease id job db)
  handle-IsClaim queued e =
      Ensures-mono _ IsClaim _ (λ r db' q. fresh e q.0 q.1)
        (Moves-returning _ (some id) db (Moves-mark_running now id job) refl)
  handle-IsClaim running e = elim (Bool-cases (is_stale now lease job)) [
    | inl s ↦ rw s (recover-IsClaim e s (ltb job.attempt_count job.max_attempts) refl)
    | inr s ↦ rw s (skip-IsClaim (ground arith))
  ]
  handle-IsClaim done e = skip-IsClaim (ground arith)
  handle-IsClaim error e = skip-IsClaim (ground arith)

  -- If `_handle_locked_job` returns, then it has claimed a queued job; it has taken a running job
  -- over whose lease has expired with an attempt left; it has given the job up, for want of an
  -- attempt, and returned nothing; or the job can not be claimed, and nothing has changed.
  pub handle_locked_job-IsClaim : Ensures IsClaim (handle_locked_job now lease id job db)
  unfolding handle_locked_job
  handle_locked_job-IsClaim = handle-IsClaim job.status refl
