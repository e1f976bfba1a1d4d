-- ===== src/Jobs/Selection.antt =====
-- The ordered select of `claim_next_job` finds the earliest row that may be claimed.
use doc_grading.Prelude.{
  ℕ, ◌≡◌, refl, Bool, true, false, not, ◌&&◌, Option, none, some, arith, inl, inr, ◌⊎◌, Bool-cases,
  Table, [], ◌∷◌, find, HasUniqueKeys, ==_iff, if◌then◌else◌,
}
use doc_grading.Models.Rows.{AnalysisJob}
use doc_grading.Models.Db.{Db}
use doc_grading.Models.Ensures.{Ensures}
use doc_grading.Models.Tx.{pure, returned}
use doc_grading.Jobs.Claim.{
  select_next, is_before, is_claimable, claim_next_job, first_of_two, handle_selected,
}
use doc_grading.Jobs.Claims.{Claims, handle_locked_job-IsClaim}

module _ (p : ℕ → AnalysisJob → Bool) where
  -- No row that fits comes before this one.
  pub record IsFirst (t : Table AnalysisJob) (id : ℕ) (job : AnalysisJob) : Type 0 where
    pub present : find id t ≡ some job
    pub fits : p id job ≡ true
    pub earliest :
        (j : ℕ) (other : AnalysisJob)
        → find j t ≡ some other
        → p j other ≡ true
        → is_before (j, other) (id, job) ≡ false

  abbrev pub HasNone : Table AnalysisJob → Type 0
  HasNone t = (j : ℕ) (other : AnalysisJob) → find j t ≡ some other → p j other ≡ false

  abbrev Selected : Table AnalysisJob → Option (ℕ × AnalysisJob) → Type 0
  Selected t none = HasNone t
  Selected t (some (id, job)) = IsFirst t id job

  module _ (i : ℕ) (w : AnalysisJob) (t : Table AnalysisJob) (u : HasUniqueKeys ((i, w) ∷ t)) where
    after : Bool → Option (ℕ × AnalysisJob) → Option (ℕ × AnalysisJob)
    after b o = if b then first_of_two (i, w) o else o

    cons-Selected :
        (o : Option (ℕ × AnalysisJob)) (b : Bool)
        → p i w ≡ b
        → Selected t o
        → Selected ((i, w) ∷ t) (after b o)
    unfolding find after
    cons-Selected none false e q = λ j other f. ground (arith, q j other, ==_iff j i)
    cons-Selected none true e q = record {
      present = ground arith;
      fits = e;
      earliest = λ j other f g. ground (arith, q j other, ==_iff j i);
    }
    cons-Selected (some (k, b)) false e q = record {
      present = ground (arith, q.present, ==_iff k i);
      fits = q.fits;
      earliest = λ j other f g. ground (arith, q.earliest j other, ==_iff j i);
    }
    cons-Selected (some (k, b)) true e q = elim (Bool-cases (is_before (k, b) (i, w))) [
      | inl h ↦ rw h (record {
        present = ground (arith, q.present, ==_iff k i);
        fits = q.fits;
        earliest = λ j other f g. ground (arith, q.earliest j other, ==_iff j i);
      })
      | inr h ↦ rw h (record {
        present = ground arith;
        fits = e;
        earliest = λ j other f g. ground (arith, q.earliest j other, ==_iff j i);
      })
    ]

  pub select_next-Selected :
      (t : Table AnalysisJob) → HasUniqueKeys t → Selected t (select_next p t)
  unfolding select_next find after
  select_next-Selected [] u = λ j other e. cc
  select_next-Selected ((i, w) ∷ t) u =
      cons-Selected i w t u (select_next p t) (p i w) refl (select_next-Selected t u.1)

-- what `claim_next_job` selects among
abbrev pub is_free : ℕ → ℕ → (ℕ → Bool) → ℕ → AnalysisJob → Bool
is_free now lease locked id job = not (locked id) && is_claimable now lease job

module _ (now lease : ℕ) (locked : ℕ → Bool) (db : Db) where
  handle_selected_lem :
      (o : Option (ℕ × AnalysisJob))
      → Selected (is_free now lease locked) db.jobs o
      → ((HasNone (is_free now lease locked) db.jobs)
          × (handle_selected now lease o db ≡ returned none db))
        ⊎ ((id : ℕ) × (job : AnalysisJob) × IsFirst (is_free now lease locked) db.jobs id job
            × Ensures
                (λ r db'. Claims now lease id job db.jobs r db'.jobs)
                (handle_selected now lease o db))
  unfolding pure
  handle_selected_lem none h = inl (h, refl)
  handle_selected_lem (some (id, job)) h =
      inr (id, job, h, handle_locked_job-IsClaim now lease id job db)

  -- If no row that others have not locked can be claimed, then the claim returns nothing and
  -- changes nothing. Otherwise it treats the earliest such row, by the time of queueing and then
  -- by identifier.
  pub claim_next_job-earliest :
      HasUniqueKeys db.jobs
      → ((HasNone (is_free now lease locked) db.jobs)
          × (claim_next_job now lease locked db ≡ returned none db))
        ⊎ ((id : ℕ) × (job : AnalysisJob) × IsFirst (is_free now lease locked) db.jobs id job
            × Ensures
                (λ r db'. Claims now lease id job db.jobs r db'.jobs)
                (claim_next_job now lease locked db))
  unfolding claim_next_job
  claim_next_job-earliest u =
      handle_selected_lem (select_next (is_free now lease locked) db.jobs)
        (select_next-Selected (is_free now lease locked) db.jobs u)
