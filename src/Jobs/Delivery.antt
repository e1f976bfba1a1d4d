-- ===== src/Jobs/Delivery.antt =====
-- No wake-up of a job is lost, and none is repeated without a pause.
use doc_grading.Prelude.{
  ℕ, zero, suc, ◌+◌, ◌^◌, ◌≤◌, ◌<◌, ◌≡◌, min, max, refl, Bool, true, false, Option, none, some,
  List, [], ◌∷◌, Table, find, take, length, length-take-le, find-put, find-remove, ◌==◌, ==_iff,
  arith, Bool-cases, inl, inr,
}
use doc_grading.Models.Rows.{AnalysisJobDispatch}
use doc_grading.Jobs.Defs.{seconds}
use doc_grading.Jobs.Dispatch.{
  batch_size, backoff, due, publish_one, publish_batch, dispatch_due_analysis_jobs, postponed,
}

-- What a batch may do to the row of a job: keep it, or hand the job to the broker and drop the row,
-- or postpone the row by two seconds to a minute after a refusal.
pub data Fate (now : ℕ) (accepts : ℕ → Bool) (id : ℕ) (before after : Option AnalysisJobDispatch)
    : Type 0 where
  kept : after ≡ before → Fate now accepts id before after
  sent : accepts id ≡ true → after ≡ none → Fate now accepts id before after
  put_off :
      (d : AnalysisJobDispatch)
      → accepts id ≡ false
      → after ≡ some d
      → now + seconds 2 ≤ d.next_attempt_at
      → d.next_attempt_at ≤ now + seconds 60
      → Fate now accepts id before after

two_to : (k : ℕ) → 1 ≤ 2 ^ k
two_to zero = omega arith
two_to (suc k) = omega (arith, two_to k)

two_to_next : (k : ℕ) → 0 < k → 2 ≤ 2 ^ k
two_to_next zero h = omega arith
two_to_next (suc k) h = omega (arith, two_to k)

-- the pause is between two seconds and a minute
pub backoff-bounds : (n : ℕ) → (2 ≤ backoff (n + 1)) × (backoff (n + 1) ≤ 60)
backoff-bounds n = (omega (arith, two_to_next (min (n + 1) 6) (omega arith)), omega arith)

module _ (now : ℕ) (accepts : ℕ → Bool) (id : ℕ) where
  one-Fate :
      (j : ℕ) (d : AnalysisJobDispatch) (t : Table AnalysisJobDispatch)
      → Fate now accepts id (find id t) (find id (publish_one now accepts (j, d) t))
  unfolding publish_one
  one-Fate j d t = elim (Bool-cases (id == j)) [
    | inl h ↦ elim (Bool-cases (accepts j)) [
      | inl k ↦ Fate.sent (ground (arith, ==_iff id j)) (ground (arith, find-remove j id t))
      | inr k ↦
          Fate.put_off (postponed now d) (ground (arith, ==_iff id j))
            (ground (arith, find-put j id (postponed now d) t))
            (omega (arith, backoff-bounds d.attempt_count))
            (omega (arith, backoff-bounds d.attempt_count))
    ]
    | inr h ↦ elim (Bool-cases (accepts j)) [
      | inl k ↦ Fate.kept (ground (arith, find-remove j id t))
      | inr k ↦ Fate.kept (ground (arith, find-put j id (postponed now d) t))
    ]
  ]

  then-Fate :
      {a b c : Option AnalysisJobDispatch}
      → Fate now accepts id a b
      → Fate now accepts id b c
      → Fate now accepts id a c
  then-Fate f (Fate.kept e) = rw e f
  then-Fate f (Fate.sent k e) = Fate.sent k e
  then-Fate f (Fate.put_off d k e l u) = Fate.put_off d k e l u

  batch-Fate :
      (ds : List (ℕ × AnalysisJobDispatch)) (t : Table AnalysisJobDispatch)
      → Fate now accepts id (find id t) (find id (publish_batch now accepts ds t).1)
  unfolding publish_batch
  batch-Fate [] t = Fate.kept refl
  batch-Fate ((j, d) ∷ ds) t =
      then-Fate (one-Fate j d t) (batch-Fate ds (publish_one now accepts (j, d) t))

  -- Every row of the outbox after a batch is as it was, or its job has been accepted by the broker
  -- and the row is gone, or the broker has refused it and the row waits two seconds to a minute.
  pub dispatch-Fate :
      (locked : ℕ → Bool) (wanted : Option ℕ) (limit : ℕ) (t : Table AnalysisJobDispatch)
      → Fate now accepts id
          (find id t)
          (find id (dispatch_due_analysis_jobs now locked accepts wanted limit t).1)
  unfolding dispatch_due_analysis_jobs
  dispatch-Fate locked wanted limit t = batch-Fate _ t

sent-bound :
    (now : ℕ) (accepts : ℕ → Bool) (ds : List (ℕ × AnalysisJobDispatch))
    (t : Table AnalysisJobDispatch)
    → (publish_batch now accepts ds t).0 ≤ length ds
unfolding publish_batch
sent-bound now accepts [] t = omega arith
sent-bound now accepts ((j, d) ∷ ds) t =
    ground (arith, sent-bound now accepts ds (publish_one now accepts (j, d) t))

-- A batch sends at most ten jobs, and at most the limit when this is positive.
pub dispatch-bounded :
    (now : ℕ) (locked accepts : ℕ → Bool) (wanted : Option ℕ) (limit : ℕ)
    (t : Table AnalysisJobDispatch)
    → (dispatch_due_analysis_jobs now locked accepts wanted limit t).0
      ≤ min (max 1 limit) batch_size
unfolding dispatch_due_analysis_jobs
dispatch-bounded now locked accepts wanted limit t = omega (
  arith,
  sent-bound now accepts (take (min (max 1 limit) batch_size) (due now locked wanted t)) t,
  length-take-le (min (max 1 limit) batch_size) (due now locked wanted t),
)
