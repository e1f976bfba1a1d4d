-- ===== src/Tests/JobRuns.antt =====
-- Analysis jobs.
use doc_grading.Prelude.{
  String, ℕ, ◌+◌, ◌≡◌, ◌≤◌, refl, Bool, true, false, none, some, List, [], ◌∷◌, arith, ◌⊎◌, inr,
  find, min, max, Table,
}
use doc_grading.Models.Enums.{DocumentStatus}
use doc_grading.Models.Rows.{AnalysisJob, AnalysisJobDispatch}
use doc_grading.Models.Db.{Db}
use doc_grading.Models.Tx.{returned, raised, Error}
use doc_grading.Models.Ensures.{Ensures}
use doc_grading.Jobs.Progress.{claim-progress, IsDone}
use doc_grading.Jobs.Claim.{claimed, claim_job_by_id, claim_next_job}
use doc_grading.Jobs.Finish.{mark_done}
use doc_grading.Jobs.Claims.{Claims}
use doc_grading.Jobs.Changes.{IsValid}
use doc_grading.Jobs.Machine.{IsBounded}
use doc_grading.Jobs.Dispatch.{dispatch_due_analysis_jobs, batch_size}
use doc_grading.Jobs.Delivery.{Fate, dispatch-Fate, dispatch-bounded}
use doc_grading.Jobs.Fencing.{IsFenced, claim-fences, not_held-IsFenced}
use doc_grading.Jobs.Selection.{IsFirst, HasNone, is_free, claim_next_job-earliest}
use doc_grading.Jobs.Trace.{Request, serve_all, serve_all-IsValid}
use doc_grading.Worker.{JobOutcome, finish_task, Source}
use doc_grading.Worker.Fenced.{claim-finish_task}
use doc_grading.Worker.Agreement.{Agree, Both, finish_task-Agree}
use doc_grading.Tests.Data.{school, document, queued_job}

abbrev start : Db
start = school (document DocumentStatus.queued)

abbrev with_job : Db
with_job = record start { jobs = (50, queued_job) ∷ [] }

abbrev nobody : ℕ → Bool
nobody _ = false

-- two workers, the first of which falls silent
abbrev day : List (ℕ × Request)
day =
    (1000, Request.create 8 4 none)
    ∷ (2000, Request.claim_next nobody)
    ∷ (70000000, Request.claim_next nobody)
    ∷ (70000001, Request.done 100 1)
    ∷ (70000002, Request.done 100 2)
    ∷ []

no_jobs : (id : ℕ) (job : AnalysisJob) → find id [] ≡ some job → IsBounded job
unfolding find
no_jobs id job e = ground arith

serve_all-IsValid_example : IsValid (serve_all 60 day start).jobs
serve_all-IsValid_example =
    serve_all-IsValid 60 day start (record { unique = tt; bounded = no_jobs })

claim-fences_example :
    Ensures (λ r db'. r ≡ some 50 → IsFenced 50 0 db') (claim_job_by_id 2000 60 nobody 50 with_job)
unfolding find
claim-fences_example = claim-fences 2000 60 nobody 50 0 queued_job with_job refl (omega arith)

not_held-IsFenced_example : IsFenced 50 1 with_job
unfolding find
not_held-IsFenced_example = not_held-IsFenced 50 1 with_job (λ job e. inr (λ n. ground arith))

claim_next_job-earliest_example :
    ((HasNone (is_free 2000 60 nobody) with_job.jobs)
      × (claim_next_job 2000 60 nobody with_job ≡ returned none with_job))
    ⊎ ((id : ℕ) × (job : AnalysisJob) × IsFirst (is_free 2000 60 nobody) with_job.jobs id job
        × Ensures
            (λ r db'. Claims 2000 60 id job with_job.jobs r db'.jobs)
            (claim_next_job 2000 60 nobody with_job))
unfolding find
claim_next_job-earliest_example = claim_next_job-earliest 2000 60 nobody with_job (refl, tt)

abbrev outbox : Table AnalysisJobDispatch
outbox = (50, record { attempt_count = 2; next_attempt_at = 900; created_at = 100 }) ∷ []

abbrev refuses : ℕ → Bool
refuses _ = false

dispatch-Fate_example :
    Fate 1000 refuses 50
      (find 50 outbox)
      (find 50 (dispatch_due_analysis_jobs 1000 nobody refuses none 10 outbox).1)
dispatch-Fate_example = dispatch-Fate 1000 refuses 50 nobody none 10 outbox

dispatch-bounded_example :
    (dispatch_due_analysis_jobs 1000 nobody refuses none 10 outbox).0 ≤ min (max 1 10) batch_size
dispatch-bounded_example = dispatch-bounded 1000 nobody refuses none 10 outbox

claim-progress_example :
    (db' : Db) × (claim_job_by_id 2000 60 nobody 50 with_job ≡ returned (some 50) db')
    × (db'' : Db) × (mark_done 2500 50 (queued_job.attempt_count + 1) db' ≡ returned true db'')
    × IsDone 50 (queued_job.attempt_count + 1) 2500 db''
unfolding find
claim-progress_example = claim-progress 2000 2500 60 50 nobody queued_job with_job refl refl refl

abbrev running_here : Db
running_here = record start { jobs = (50, claimed 2000 queued_job) ∷ [] }

claim-finish_task_example :
    Ensures
      (λ r db'.
        r ≡ some 50
        → (later : ℕ) (lower : String → String) (o : JobOutcome)
        → (finish_task later lower 50 8 0 o db' ≡ returned none db')
          ⊎ ((e : Error) × (finish_task later lower 50 8 0 o db' ≡ raised e)))
      (claim_job_by_id 2000 60 nobody 50 with_job)
unfolding find
claim-finish_task_example =
    claim-finish_task 2000 60 nobody 50 8 0 queued_job with_job refl (omega arith)

abbrev source : Source
source = record { sha256 = "d"; size_bytes = 1000; page_count = 3 }

finish_task-Agree_example :
    Ensures
      (λ r db'. r ≡ some 50 → Both 50 8 (Agree (JobOutcome.success source)) db')
      (finish_task 3000 (λ s. s) 50 8 1 (JobOutcome.success source) running_here)
unfolding find
finish_task-Agree_example =
    finish_task-Agree 3000 (λ s. s) 50 1 (claimed 2000 queued_job) (JobOutcome.success source)
      running_here refl
