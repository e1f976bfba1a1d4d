-- ===== src/Rubrics/Ledger.antt =====
-- The criteria of one rubric in the table, for backend/app/services/rubric.py: what deleting a rubric
-- leaves of it.
use doc_grading.Prelude.{
  find_head, find_tail, ℕ, ◌+◌, ◌≡◌, ◌≢◌, refl, sym, ap, ◌∙◌, true, false, none, some, [], ◌∷◌,
  find, HasUniqueKeys, Table, arith, inl, inr, ◌⊎◌, Bool-cases, Option-cases, is_none, ◌==◌, ==_iff,
}
use doc_grading.Models.Rows.{CriterionVersion}
use doc_grading.Rubrics.Weights.{enabled_weight, part_of}
use doc_grading.Rubrics.Edits.{without_criteria}

-- a rubric without criteria weighs nothing
pub enabled_weight-none :
    (r : ℕ) (t : Table CriterionVersion)
    → HasUniqueKeys t
    → ((k : ℕ) (c : CriterionVersion) → find k t ≡ some c → c.rubric_version_id ≢ r)
    → enabled_weight r t ≡ 0
unfolding enabled_weight
enabled_weight-none r [] u n = refl
enabled_weight-none r ((i, x) ∷ t) u n =
    let rest = enabled_weight-none r t u.1 (λ k c f. n k c (find_tail i k x c t u.0 f)) in
    elim (Bool-cases (x.rubric_version_id == r)) [
      | inl h ↦ absurd (n i x (find_head i x t) ((==_iff x.rubric_version_id r).0 h))
      | inr h ↦ ground (arith, rest)
    ]

pub enabled_weight-without :
    (r j : ℕ) (t : Table CriterionVersion)
    → j ≢ r
    → enabled_weight j (without_criteria r t) ≡ enabled_weight j t
unfolding enabled_weight without_criteria
enabled_weight-without r j [] n = refl
enabled_weight-without r j ((i, x) ∷ t) n =
    let rest = enabled_weight-without r j t n in
    elim (Bool-cases (x.rubric_version_id == r)) [
      | inl h ↦ elim (Bool-cases (x.rubric_version_id == j)) [
        | inl k ↦
            absurd
              (n (sym ((==_iff x.rubric_version_id j).0 k) ∙ (==_iff x.rubric_version_id r).0 h))
        | inr k ↦ ground (arith, rest)
      ]
      | inr h ↦ rw h (ap (λ w. part_of j x + w) rest)
    ]

-- what is left of a table is found in the table
pub without-found :
    (r k : ℕ) (c : CriterionVersion) (t : Table CriterionVersion)
    → HasUniqueKeys t
    → find k (without_criteria r t) ≡ some c
    → (find k t ≡ some c) × (c.rubric_version_id ≢ r)
unfolding without_criteria find
without-found r k c [] u f = absurd (nowhere f)
  where
    nowhere : find k [] ≡ some c → ⊥
    nowhere f = ground arith
without-found r k c ((i, x) ∷ t) u f = elim (Bool-cases (x.rubric_version_id == r)) [
  | inl h ↦
      let (g, n) = without-found r k c t u.1 (ap (find k) (sym (dropped h)) ∙ f) in
      (find_tail i k x c t u.0 g, n)
  | inr h ↦ kept (without-found r k c t u.1) h (ap (find k) (sym (stays h)) ∙ f)
]
  where
    dropped :
        (x.rubric_version_id == r) ≡ true → without_criteria r ((i, x) ∷ t) ≡ without_criteria r t
    dropped h = rw h refl

    stays :
        (x.rubric_version_id == r) ≡ false
        → without_criteria r ((i, x) ∷ t) ≡ (i, x) ∷ without_criteria r t
    stays h = rw h refl

    kept :
        (find k (without_criteria r t) ≡ some c → (find k t ≡ some c) × (c.rubric_version_id ≢ r))
        → (x.rubric_version_id == r) ≡ false
        → find k ((i, x) ∷ without_criteria r t) ≡ some c
        → (find k ((i, x) ∷ t) ≡ some c) × (c.rubric_version_id ≢ r)
    kept rest h g = elim (Bool-cases (k == i)) [
      | inl e ↦
          let q : some x ≡ some c = ground arith in
          let p : x ≡ c = cc in
          (
            ground arith,
            λ same.
                ground
                  (arith, ap (λ z. z.rubric_version_id) p ∙ same, ==_iff x.rubric_version_id r),
          )
      | inr e ↦ let (g', n) = rest (ground arith) in (ground arith, n)
    ]

pub unique-without :
    (r : ℕ) (t : Table CriterionVersion) → HasUniqueKeys t → HasUniqueKeys (without_criteria r t)
unfolding without_criteria
unique-without r [] u = tt
unique-without r ((i, x) ∷ t) u = elim (Bool-cases (x.rubric_version_id == r)) [
  | inl h ↦ rw h (unique-without r t u.1)
  | inr h ↦ rw h (gone (Option-cases (find i (without_criteria r t))), unique-without r t u.1)
]
  where
    gone :
        (find i (without_criteria r t) ≡ none)
          ⊎ ((c : CriterionVersion) × (find i (without_criteria r t) ≡ some c))
        → is_none (find i (without_criteria r t)) ≡ true
    gone (inl e) = ap is_none e
    gone (inr (c, e)) = absurd (ground (arith, (without-found r i c t u.1 e).0, u.0))
