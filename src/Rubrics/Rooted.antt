-- ===== src/Rubrics/Rooted.antt =====
-- The identifiers that rubrics and criteria of backend/app/services/rubric.py have, and what stays in
-- order when a row is stored.
use doc_grading.Prelude.{
  ℕ, ◌≤◌, ◌<◌, ◌≡◌, ap, some, find, put, find-put_cases, HasUniqueKeys, arith, inl, inr,
}
use doc_grading.Models.Rows.{RubricVersion, CriterionVersion}
use doc_grading.Models.Db.{Db}
use doc_grading.Models.Tx.{Outcome, returned, raised, committed}
use doc_grading.Models.Ensures.{Ensures}
use doc_grading.Rubrics.Weights.{IsTotal}
use doc_grading.Rubrics.Totals.{HasTotals}

-- Criteria have unique keys, and the identifiers to come are neither keys of criteria or rubrics nor
-- the rubrics of criteria.
pub record IsRooted (db : Db) : Type 0 where
  pub unique : HasUniqueKeys db.criteria
  pub keys :
      (k : ℕ) (c : CriterionVersion)
      → find k db.criteria ≡ some c
      → (k < db.next_uuid) × (c.rubric_version_id < db.next_uuid)
  pub known : (k : ℕ) (rv : RubricVersion) → find k db.rubrics ≡ some rv → k < db.next_uuid

-- Identifiers are in order, and every rubric's total is the sum of the weights of its enabled criteria.
pub record IsLedger (db : Db) : Type 0 where
  pub ids : IsRooted db
  pub totals : IsTotal db.rubrics db.criteria

module _ (db : Db) (r : IsRooted db) where
  -- the parts of a database that may have changed
  pub put-known :
      (n id : ℕ) (rv : RubricVersion)
      → db.next_uuid ≤ n
      → id < n
      → (k : ℕ) (x : RubricVersion) → find k (put id rv db.rubrics) ≡ some x
      → k < n
  put-known n id rv m i k x f = elim (find-put_cases id k rv x db.rubrics f) [
    | inl (e, _) ↦ omega (arith, e)
    | inr (_, g) ↦ omega (arith, r.known k x g)
  ]

  pub put-keys :
      (n id : ℕ) (cv : CriterionVersion)
      → db.next_uuid ≤ n
      → id < n
      → cv.rubric_version_id < n
      → (k : ℕ) (c : CriterionVersion) → find k (put id cv db.criteria) ≡ some c
      → (k < n) × (c.rubric_version_id < n)
  put-keys n id cv m i b k c f = elim (find-put_cases id k cv c db.criteria f) [
    | inl (e, q) ↦ (omega (arith, e), omega (arith, ap (λ z. z.rubric_version_id) q))
    | inr (_, g) ↦ (omega (arith, (r.keys k c g).0), omega (arith, (r.keys k c g).1))
  ]

  pub later-keys :
      (n : ℕ)
      → db.next_uuid ≤ n
      → (k : ℕ) (c : CriterionVersion) → find k db.criteria ≡ some c
      → (k < n) × (c.rubric_version_id < n)
  later-keys n m k c f = (omega (arith, (r.keys k c f).0), omega (arith, (r.keys k c f).1))

abbrev pub Kept {ℓ} : {A : Type ℓ} → A → Db → Type 0
Kept _ db = IsLedger db

pub both :
    {A : Type 0} (o : Outcome A)
    → Ensures HasTotals o
    → Ensures (λ _ d. IsRooted d) o
    → Ensures Kept o
both (returned a d) t r = record { ids = r; totals = t }
both (raised e) t r = tt
both (committed e d) t r = absurd t
