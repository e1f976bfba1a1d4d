-- ===== src/Jobs/Changes.antt =====
-- Every operation on jobs adds a new job, makes one step of the machine on one row, or leaves the
-- table alone; so what the machine keeps holds of the table.
use doc_grading.Prelude.{
  ℕ, ◌≡◌, refl, true, false, Option, some, arith, inl, inr, ◌⊎◌, Bool-cases, Table, find, put,
  find-put, HasUniqueKeys, put-HasUniqueKeys, ◌==◌, subst,
}
use doc_grading.Models.Json.{Json}
use doc_grading.Models.Rows.{AnalysisJob}
use doc_grading.Jobs.Defs.{new_job}
use doc_grading.Jobs.Claims.{Claims}
use doc_grading.Jobs.Machine.{Step, IsBounded, Step-IsBounded, new_job-IsBounded}

-- The new row stands under the next identifier.
pub data Changes (now lease next : ℕ) (t t' : Table AnalysisJob) : Type 0 where
  same : t' ≡ t → Changes now lease next t t'
  moved :
      (id : ℕ) (job job' : AnalysisJob)
      → find id t ≡ some job
      → Step now lease job job'
      → t' ≡ put id job' t
      → Changes now lease next t t'
  added :
      (document_version_id rubric_version_id : ℕ) (route : Option Json)
      → t' ≡ put next (new_job now document_version_id rubric_version_id route) t
      → Changes now lease next t t'

-- The table of jobs has a primary key, and every row is within its attempts.
pub record IsValid (t : Table AnalysisJob) : Type 0 where
  pub unique : HasUniqueKeys t
  pub bounded : (id : ℕ) (job : AnalysisJob) → find id t ≡ some job → IsBounded job

put-IsValid :
    (id : ℕ) (job : AnalysisJob) (t : Table AnalysisJob)
    → IsValid t
    → IsBounded job
    → IsValid (put id job t)
put-IsValid id job t v b = record {
  unique = put-HasUniqueKeys id job t v.unique;
  bounded = λ j other e. row j other e (Bool-cases (j == id));
}
  where
    row :
        (j : ℕ) (other : AnalysisJob)
        → find j (put id job t) ≡ some other
        → ((j == id) ≡ true) ⊎ ((j == id) ≡ false)
        → IsBounded other
    row j other e (inl h) = subst IsBounded (ground (arith, find-put id j job t)) b
    row j other e (inr h) = v.bounded j other (ground (arith, find-put id j job t))

-- A change keeps the table valid.
pub Changes-IsValid :
    (now lease next : ℕ) (t t' : Table AnalysisJob)
    → Changes now lease next t t'
    → IsValid t
    → IsValid t'
Changes-IsValid now lease next t t' (Changes.same e) v = rw e v
Changes-IsValid now lease next t t' (Changes.moved id job job' f s e) v =
    rw e (put-IsValid id job' t v (Step-IsBounded now lease s (v.bounded id job f)))
Changes-IsValid now lease next t t' (Changes.added d r route e) v =
    rw e (put-IsValid next _ t v (new_job-IsBounded now d r route))

pub Claims-Changes :
    (now lease next id : ℕ) (job : AnalysisJob) (t : Table AnalysisJob) (r : Option ℕ)
    (t' : Table AnalysisJob)
    → find id t ≡ some job
    → Claims now lease id job t r t'
    → Changes now lease next t t'
Claims-Changes now lease next id job t r t' f (Claims.fresh s e g) =
    Changes.moved id job _ f (Step.claim s refl) g
Claims-Changes now lease next id job t r t' f (Claims.took_over s st a e g) =
    Changes.moved id job _ f (Step.take_over s st a refl) g
Claims-Changes now lease next id job t r t' f (Claims.gave_up s st a e g) =
    Changes.moved id job _ f (Step.give_up s st a refl) g
Claims-Changes now lease next id job t r t' f (Claims.skipped c e g) = Changes.same g
