-- ===== src/Jobs/Fencing.antt =====
-- A worker whose lease has been taken over can no longer write to its job.
use doc_grading.Prelude.{
  ℕ, ◌+◌, ◌≤◌, ◌≡◌, ◌≢◌, ◌⊎◌, refl, String, Bool, false, ◌==◌, not, ◌&&◌, Option, some, arith, inl,
  inr, Bool-cases, Option-cases, find, find-put_self, ==_iff,
}
use doc_grading.Models.Enums.{AnalysisJobStatus}
use doc_grading.Models.Rows.{AnalysisJob}
use doc_grading.Jobs.Defs.{is_running}
use doc_grading.Models.Db.{Db}
use doc_grading.Models.Tx.{returned, pure}
use doc_grading.Models.Ensures.{Ensures, Ensures-mono}
use doc_grading.Jobs.Claim.{claim_job_by_id, claim_found, is_claimable, claimed, requeued}
use doc_grading.Jobs.Claims.{Claims, handle_locked_job-IsClaim}
use doc_grading.Jobs.Finish.{is_held, update_heartbeat, mark_done, mark_error}

-- the job is gone, not RUNNING, or under another attempt
abbrev pub IsLost : ℕ → ℕ → Db → Type 0
IsLost id attempt db =
    (job : AnalysisJob) → find id db.jobs ≡ some job → is_held attempt job ≡ false

-- no write of the worker that holds `attempt` has an effect
pub record IsFenced (id attempt : ℕ) (db : Db) : Type 0 where
  pub no_heartbeat : (now : ℕ) → update_heartbeat now id attempt db ≡ returned false db
  pub no_done : (now : ℕ) → mark_done now id attempt db ≡ returned false db
  pub no_error :
      (now : ℕ) (code detail : String)
      → mark_error now id code detail attempt db ≡ returned false db

-- a worker that holds nothing can write nothing
pub lost-IsFenced : (id attempt : ℕ) (db : Db) → IsLost id attempt db → IsFenced id attempt db
unfolding update_heartbeat mark_done mark_error pure
lost-IsFenced id attempt db h = elim (Option-cases (find id db.jobs)) [
  | inl e ↦ record {
    no_heartbeat = λ now. ground arith;
    no_done = λ now. ground arith;
    no_error = λ now c d. ground arith;
  }
  | inr (job, e) ↦ record {
    no_heartbeat = λ now. ground (arith, h job);
    no_done = λ now. ground (arith, h job);
    no_error = λ now c d. ground (arith, h job);
  }
]

not_running :
    (status : AnalysisJobStatus) → status ≢ AnalysisJobStatus.running → is_running status ≡ false
not_running AnalysisJobStatus.queued n = refl
not_running AnalysisJobStatus.running n = absurd (n refl)
not_running AnalysisJobStatus.done n = refl
not_running AnalysisJobStatus.error n = refl

not_held :
    (attempt : ℕ) (job : AnalysisJob)
    → (job.status ≢ AnalysisJobStatus.running) ⊎ (job.attempt_count ≢ attempt)
    → is_held attempt job ≡ false
not_held attempt job (inl n) = rw (not_running job.status n) refl
not_held attempt job (inr n) = elim (Bool-cases (job.attempt_count == attempt)) [
  | inl h ↦ absurd (n ((==_iff job.attempt_count attempt).0 h))
  | inr h ↦ ground arith
]

-- The three writes of a worker return `false` and change nothing when the job is gone, or has another
-- status than RUNNING, or has another number of attempts than the worker's.
pub not_held-IsFenced :
    (id attempt : ℕ) (db : Db)
    → ((job : AnalysisJob)
        → find id db.jobs ≡ some job
        → (job.status ≢ AnalysisJobStatus.running) ⊎ (job.attempt_count ≢ attempt))
    → IsFenced id attempt db
not_held-IsFenced id attempt db h =
    lost-IsFenced id attempt db (λ job f. not_held attempt job (h job f))

-- the row that a claim which returned the job has left
won :
    (now lease id : ℕ) (job : AnalysisJob) (r : Option ℕ) (db db' : Db)
    → Claims now lease id job db.jobs r db'.jobs
    → r ≡ some id
    → (row : AnalysisJob) × (find id db'.jobs ≡ some row)
      × (row.attempt_count ≡ job.attempt_count + 1)
won now lease id job r db db' (Claims.fresh s e f) h =
    (claimed now job, rw f (find-put_self id _ db.jobs), refl)
won now lease id job r db db' (Claims.took_over s t a e f) h =
    (claimed now (requeued now job), rw f (find-put_self id _ db.jobs), refl)
won now lease id job r db db' (Claims.gave_up s t a e f) h = cc
won now lease id job r db db' (Claims.skipped c e f) h = cc

claim_found-IsLost :
    (now lease : ℕ) (locked : ℕ → Bool) (id attempt : ℕ) (job : AnalysisJob) (db : Db)
    → attempt ≤ job.attempt_count
    → Ensures
        (λ r db'. r ≡ some id → IsLost id attempt db')
        (claim_found now lease locked id (some job) db)
unfolding pure
claim_found-IsLost now lease locked id attempt job db old =
    elim (Bool-cases (not (locked id) && is_claimable now lease job)) [
      | inl h ↦ rw h (
          Ensures-mono _ (λ r db'. r ≡ some id → IsLost id attempt db') _
            (λ r db' c e other g.
              let (row, f, n) = won now lease id job r db db' c e in
              ground (arith, ==_iff other.attempt_count attempt))
            (handle_locked_job-IsClaim now lease id job db))
      | inr h ↦ rw h (λ e. cc)
    ]

-- a claim that has returned the job has taken it from every attempt before
pub claim-IsLost :
    (now lease : ℕ) (locked : ℕ → Bool) (id attempt : ℕ) (job : AnalysisJob) (db : Db)
    → find id db.jobs ≡ some job
    → attempt ≤ job.attempt_count
    → Ensures
        (λ r db'. r ≡ some id → IsLost id attempt db')
        (claim_job_by_id now lease locked id db)
unfolding claim_job_by_id
claim-IsLost now lease locked id attempt job db e old =
    rw e (claim_found-IsLost now lease locked id attempt job db old)

-- Once a claim of a job has returned it, the three writes under any attempt that the job had
-- before return `false` and change nothing.
pub claim-fences :
    (now lease : ℕ) (locked : ℕ → Bool) (id attempt : ℕ) (job : AnalysisJob) (db : Db)
    → find id db.jobs ≡ some job
    → attempt ≤ job.attempt_count
    → Ensures
        (λ r db'. r ≡ some id → IsFenced id attempt db')
        (claim_job_by_id now lease locked id db)
claim-fences now lease locked id attempt job db e old =
    Ensures-mono (λ r db'. r ≡ some id → IsLost id attempt db') _ _
      (λ r db' lost h. lost-IsFenced id attempt db' (lost h))
      (claim-IsLost now lease locked id attempt job db e old)
