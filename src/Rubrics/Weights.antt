-- ===== src/Rubrics/Weights.antt =====
-- The total of a rubric is the sum of the weights of its enabled criteria.
use doc_grading.Prelude.{
  ℕ, ◌+◌, ◌≤◌, ◌≡◌, ◌≢◌, refl, true, ◌&&◌, Option, none, some, arith, find, put, remove, find-put,
  ◌==◌, ==_iff, Table, [], ◌∷◌, HasUniqueKeys, Bool-cases, inl, inr, if◌then◌else◌, is_none,
  remove_absent,
}
use doc_grading.Models.Rows.{RubricVersion, CriterionVersion}

abbrev pub part_of : ℕ → CriterionVersion → ℕ
part_of rubric_id c = if c.rubric_version_id == rubric_id && c.is_enabled then c.weight else 0

unfoldable pub enabled_weight : ℕ → Table CriterionVersion → ℕ
enabled_weight rubric_id [] = 0
enabled_weight rubric_id ((_, c) ∷ t) = part_of rubric_id c + enabled_weight rubric_id t

-- the part of a row that may be absent
abbrev pub part : ℕ → Option CriterionVersion → ℕ
part rubric_id none = 0
part rubric_id (some c) = part_of rubric_id c

pub enabled_weight-put :
    (r k : ℕ) (c : CriterionVersion) (t : Table CriterionVersion)
    → enabled_weight r (put k c t) + part r (find k t) ≡ enabled_weight r t + part_of r c
unfolding enabled_weight put find
enabled_weight-put r k c [] = omega arith
enabled_weight-put r k c ((j, w) ∷ t) = elim (Bool-cases (k == j)) [
  | inl h ↦ rw h (omega arith)
  | inr h ↦ rw h (omega (arith, enabled_weight-put r k c t))
]

pub part-bound : (r k : ℕ) (t : Table CriterionVersion) → part r (find k t) ≤ enabled_weight r t
unfolding enabled_weight find
part-bound r k [] = omega arith
part-bound r k ((j, w) ∷ t) = elim (Bool-cases (k == j)) [
  | inl h ↦ rw h (omega arith)
  | inr h ↦ rw h (omega (arith, part-bound r k t))
]

is_absent : {A : Type 0} (o : Option A) → is_none o ≡ true → o ≡ none
is_absent none e = refl
is_absent (some a) e = cc

pub enabled_weight-remove :
    (r k : ℕ) (t : Table CriterionVersion)
    → HasUniqueKeys t
    → enabled_weight r (remove k t) + part r (find k t) ≡ enabled_weight r t
unfolding enabled_weight remove find
enabled_weight-remove r k [] u = refl
enabled_weight-remove r k ((j, w) ∷ t) u = elim (Bool-cases (k == j)) [
  | inl h ↦
      rw h (rw (remove_absent k t (rw ((==_iff k j).0 h) (is_absent (find j t) u.0))) (omega arith))
  | inr h ↦ rw h (omega (arith, enabled_weight-remove r k t u.1))
]

-- every rubric's total
abbrev pub IsTotal : Table RubricVersion → Table CriterionVersion → Type 0
IsTotal rubrics criteria =
    (id : ℕ) (rv : RubricVersion)
    → find id rubrics ≡ some rv
    → rv.total_weight ≡ enabled_weight id criteria

module _ (rubrics : Table RubricVersion) (t t' : Table CriterionVersion)
    (total : IsTotal rubrics t) where
  -- one rubric stored with its new total, when the others' criteria have not changed
  pub stored-IsTotal :
      (rubric_id : ℕ) (row : RubricVersion)
      → row.total_weight ≡ enabled_weight rubric_id t'
      → ((id : ℕ) → id ≢ rubric_id → enabled_weight id t' ≡ enabled_weight id t)
      → IsTotal (put rubric_id row rubrics) t'
  stored-IsTotal rubric_id row e others id rv f = elim (Bool-cases (id == rubric_id)) [
    | inl h ↦ ground (arith, find-put rubric_id id row rubrics, ==_iff id rubric_id)
    | inr h ↦
        ground
          (arith, find-put rubric_id id row rubrics, ==_iff id rubric_id, total id rv, others id)
  ]
