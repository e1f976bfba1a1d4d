-- ===== src/Rubrics/Opening.antt =====
-- An assignment opens only under a complete rubric, backend/app/services/assignment.py.
use doc_grading.Prelude.{
  ℕ, ◌+◌, ◌≡◌, refl, sym, ◌∙◌, true, Option, some, List, [], ◌∷◌, arith, find, find-put_self, all,
  Table, Bool-cases, inl, inr, ◌==◌, ◌&&◌, ==_iff,
}
use doc_grading.Models.Enums.{open_}
use doc_grading.Models.Json.{Fields}
use doc_grading.Models.Rows.{Assignment, CriterionVersion, RubricVersion}
use doc_grading.Models.Db.{Db}
use doc_grading.Models.Tx.{raise_if, tx, ◌>>◌}
use doc_grading.Models.Ensures.{Ensures, Ensures-mono}
use doc_grading.Models.Hoare.{Ensures-guard, Ensures-gets, Ensures-check}
use doc_grading.Audit.{record_audit}
use doc_grading.Rubrics.Weights.{IsTotal, enabled_weight}
use doc_grading.Rubrics.Assignments.{
  publish_assignment, check_criteria, enabled_criteria, sum_weights, has_complete_level_scale,
  opened, is_draft, put_assignment,
}

-- the sum over the selected criteria is the total that the rubric keeps
pub sum-enabled :
    (r : ℕ) (t : Table CriterionVersion) → sum_weights (enabled_criteria r t) ≡ enabled_weight r t
unfolding sum_weights enabled_criteria enabled_weight
sum-enabled r [] = refl
sum-enabled r ((_, c) ∷ t) = elim (Bool-cases (c.rubric_version_id == r && c.is_enabled)) [
  | inl h ↦ rw h (omega (arith, sum-enabled r t))
  | inr h ↦ rw h (omega (arith, sum-enabled r t))
]

module _ (now actor id : ℕ) (a : Assignment) (db : Db) where
  -- A DRAFT assignment that has been opened under a complete rubric.
  pub record IsOpening (db' : Db) : Type 0 where
    pub was_draft : is_draft a.status ≡ true
    pub full : enabled_weight a.rubric_version_id db.criteria ≡ 10000
    pub scaled :
        all has_complete_level_scale (enabled_criteria a.rubric_version_id db.criteria) ≡ true
    pub row : Assignment
    pub stored : find id db'.assignments ≡ some row
    pub is_opened : row.status ≡ open_
    pub dated : row.published_at ≡ some now
    pub one_more : row.revision ≡ a.revision + 1
    pub same_rubric : row.rubric_version_id ≡ a.rubric_version_id

  check_criteria-lem :
      (cs : List CriterionVersion)
      → Ensures
          (λ _ db'.
            (db' ≡ db) × ((sum_weights cs ≡ 10000) × (all has_complete_level_scale cs ≡ true)))
          (check_criteria cs db)
  unfolding check_criteria raise_if
  check_criteria-lem cs = Ensures-guard Q _ _ _ db (λ h.
      elim (Bool-cases (all has_complete_level_scale cs)) [
        | inl k ↦ rw k (refl, ((==_iff (sum_weights cs) 10000).0 (ground arith), k))
        | inr k ↦ rw k tt
      ])
    where
      Q : Unit {0} → Db → Type 0
      Q _ db' = (db' ≡ db) × ((sum_weights cs ≡ 10000) × (all has_complete_level_scale cs ≡ true))

  stored-IsOpening :
      (before after : Option Fields)
      → is_draft a.status ≡ true
      → sum_weights (enabled_criteria a.rubric_version_id db.criteria) ≡ 10000
      → all has_complete_level_scale (enabled_criteria a.rubric_version_id db.criteria) ≡ true
      → Ensures
          (λ _ db'. IsOpening db')
          ((put_assignment id (opened now a)
              >> record_audit actor "Assignment" id "PUBLISH" before after "Assignment published")
            db)
  unfolding put_assignment record_audit tx
  stored-IsOpening before after d s l = record {
    was_draft = d;
    full = sym (sum-enabled a.rubric_version_id db.criteria) ∙ s;
    scaled = l;
    row = opened now a;
    stored = find-put_self id _ db.assignments;
    is_opened = refl;
    dated = refl;
    one_more = refl;
    same_rubric = refl;
  }

  -- If an assignment is published, then it was a draft, the enabled criteria of its rubric weigh
  -- 100.00 together, each of them defines the levels 0 to 4, and the assignment is stored with the status OPEN, the
  -- time and the next revision, under the same rubric.
  pub publish_assignment-IsOpening :
      Ensures (λ _ db'. IsOpening db') (publish_assignment now actor id a db)
  unfolding publish_assignment
  publish_assignment-IsOpening = Ensures-guard Q _ _ _ db (λ d. Ensures-gets Q _ _ db (
      Ensures-check P Q _ _ db
        (check_criteria-lem (enabled_criteria a.rubric_version_id db.criteria))
        (λ c. stored-IsOpening _ _ (ground arith) c.0 c.1)))
    where
      P : Type 0
      P =
          (sum_weights (enabled_criteria a.rubric_version_id db.criteria) ≡ 10000)
          × (all has_complete_level_scale (enabled_criteria a.rubric_version_id db.criteria) ≡ true)

      Q : Unit {0} → Db → Type 0
      Q _ db' = IsOpening db'

  -- If every rubric's total is the sum of the weights of its enabled criteria, then the rubric of an
  -- assignment that is published carries the total weight 100.00.
  pub publish_assignment-total :
      (rv : RubricVersion)
      → IsTotal db.rubrics db.criteria
      → find a.rubric_version_id db.rubrics ≡ some rv
      → Ensures (λ _ _. rv.total_weight ≡ 10000) (publish_assignment now actor id a db)
  publish_assignment-total rv total loaded =
      Ensures-mono _ _ _ (λ _ db' (o : IsOpening db'). total a.rubric_version_id rv loaded ∙ o.full)
        publish_assignment-IsOpening
