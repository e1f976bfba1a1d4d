-- ===== src/Rubrics/Totals.antt =====
-- The operations on criteria keep every rubric's total.
use doc_grading.Prelude.{
  ℕ, ◌+◌, ◌≤◌, ◌≡◌, refl, Bool, true, false, Option, none, some, arith, find, put, remove,
  HasUniqueKeys,
}
use doc_grading.Models.Json.{Fields}
use doc_grading.Models.Rows.{RubricVersion, CriterionVersion}
use doc_grading.Models.Db.{Db}
use doc_grading.Models.Tx.{Tx, tx, ◌>>◌, ◌>>=◌, pure, gets, new_uuid}
use doc_grading.Models.Ensures.{Ensures}
use doc_grading.Models.Reads.{Reads, raise_if-Reads, Ensures-then}
use doc_grading.Audit.{record_audit}
use doc_grading.Rubrics.Criteria.{
  NewCriterion, CriterionChange, add_criterion, update_criterion, delete_criterion, store_change,
  store_if, has_changes, assert_rubric_mutable, put_rubric, put_criterion, delete_criterion_row,
  changed_criterion, updated_total, enabled_part, moved_total, new_criterion,
}
use doc_grading.Rubrics.Weights.{
  IsTotal, stored-IsTotal, part-bound, enabled_weight-put, enabled_weight-remove,
}

abbrev pub HasTotals {ℓ} : {A : Type ℓ} → A → Db → Type 0
HasTotals _ db = IsTotal db.rubrics db.criteria

pub mutable-Reads : (id : ℕ) (db : Db) → Reads db (assert_rubric_mutable id db)
unfolding assert_rubric_mutable gets ◌>>=◌
mutable-Reads id db = raise_if-Reads _ _ db

module _ (actor rubric_id : ℕ) (rv : RubricVersion) (db : Db)
    (total : IsTotal db.rubrics db.criteria) (loaded : find rubric_id db.rubrics ≡ some rv) where
  added :
      (id : ℕ) (cv : CriterionVersion) (w : ℕ)
      → find id db.criteria ≡ none
      → cv.rubric_version_id ≡ rubric_id
      → w ≡ enabled_part cv.is_enabled cv.weight
      → IsTotal (put rubric_id (moved_total 0 w rv) db.rubrics) (put id cv db.criteria)
  added id cv w fresh r e =
      stored-IsTotal db.rubrics db.criteria _ total rubric_id _
        (ground (arith, enabled_weight-put rubric_id id cv db.criteria, total rubric_id rv))
        (λ j n. ground (arith, enabled_weight-put j id cv db.criteria))

  rest-add :
      (c : NewCriterion) (before after : Option Fields)
      → find db.next_uuid db.criteria ≡ none
      → Ensures HasTotals (
          (new_uuid >>= λ id. new_uuid >>= λ criterion_id.
          (put_criterion id (new_criterion criterion_id rubric_id c)
            >> (put_rubric rubric_id (moved_total 0 (enabled_part c.is_enabled c.weight) rv)
                >> (record_audit actor "CriterionVersion" id "CREATE" before after
                      "Criterion added to rubric"
                    >> pure id))))
            db)
  unfolding put_criterion put_rubric record_audit tx
  rest-add c before after fresh =
      added db.next_uuid (new_criterion (db.next_uuid + 1) rubric_id c) _ fresh refl refl

  -- If every rubric's total is the sum of the weights of its enabled criteria, and the caller has
  -- loaded the rubric as it is stored, then this holds again once a criterion has been added under
  -- a new identifier.
  pub add_criterion-IsTotal :
      (c : NewCriterion)
      → find db.next_uuid db.criteria ≡ none
      → Ensures HasTotals (add_criterion actor rubric_id rv c db)
  unfolding add_criterion
  add_criterion-IsTotal c fresh =
      Ensures-then HasTotals _ _ (mutable-Reads rubric_id db) (rest-add c _ _ fresh)

  module _ (id : ℕ) (cv : CriterionVersion) (stored : find id db.criteria ≡ some cv)
      (belongs : cv.rubric_version_id ≡ rubric_id) where
    within : enabled_part cv.is_enabled cv.weight ≤ rv.total_weight
    within = ground (arith, total rubric_id rv, part-bound rubric_id id db.criteria)

    changed-total :
        (c : CriterionChange)
        → (updated_total c cv rv).total_weight + enabled_part cv.is_enabled cv.weight
          ≡ rv.total_weight
            + enabled_part (changed_criterion c cv).is_enabled (changed_criterion c cv).weight
    changed-total c = ground (arith, within)

    replaced :
        (cv' : CriterionVersion) (rv' : RubricVersion)
        → cv'.rubric_version_id ≡ rubric_id
        → rv'.total_weight + enabled_part cv.is_enabled cv.weight
          ≡ rv.total_weight + enabled_part cv'.is_enabled cv'.weight
        → IsTotal (put rubric_id rv' db.rubrics) (put id cv' db.criteria)
    replaced cv' rv' r e =
        stored-IsTotal db.rubrics db.criteria _ total rubric_id _
          (ground (arith, enabled_weight-put rubric_id id cv' db.criteria, total rubric_id rv))
          (λ j n. ground (arith, enabled_weight-put j id cv' db.criteria))

    changed :
        (c : CriterionChange)
        → IsTotal
            (put rubric_id (updated_total c cv rv) db.rubrics)
            (put id (changed_criterion c cv) db.criteria)
    changed c = replaced (changed_criterion c cv) (updated_total c cv rv) belongs (changed-total c)

    rest-update :
        (c : CriterionChange) → Ensures HasTotals (store_change actor rubric_id rv id cv c db)
    unfolding store_change put_criterion put_rubric record_audit tx
    rest-update c = changed c

    store_if-HasTotals :
        (b : Bool) (m : Tx (Unit {0}))
        → Ensures HasTotals (m db)
        → Ensures HasTotals (store_if b m db)
    unfolding pure
    store_if-HasTotals true m h = h
    store_if-HasTotals false m h = total

    -- If the totals hold, and the caller has loaded the rubric and one of its criteria as they are
    -- stored, then the totals hold after a change of the criterion, be it of its weight, of its
    -- switch, or of both.
    pub update_criterion-IsTotal :
        (c : CriterionChange) → Ensures HasTotals (update_criterion actor rubric_id rv id cv c db)
    unfolding update_criterion
    update_criterion-IsTotal c =
        Ensures-then HasTotals _ _ (mutable-Reads rubric_id db)
          (store_if-HasTotals (has_changes c cv) _ (rest-update c))

    deleted :
        HasUniqueKeys db.criteria
        → IsTotal
            (put rubric_id (moved_total (enabled_part cv.is_enabled cv.weight) 0 rv) db.rubrics)
            (remove id db.criteria)
    deleted u =
        stored-IsTotal db.rubrics db.criteria _ total rubric_id _
          (ground (arith, enabled_weight-remove rubric_id id db.criteria, total rubric_id rv))
          (λ j n. ground (arith, enabled_weight-remove j id db.criteria))

    rest-delete :
        (before after : Option Fields)
        → HasUniqueKeys db.criteria
        → Ensures HasTotals (
            (put_rubric rubric_id (moved_total (enabled_part cv.is_enabled cv.weight) 0 rv)
                >> (record_audit actor "CriterionVersion" id "DELETE" before after
                      "Criterion deleted from rubric"
                    >> delete_criterion_row id))
              db)
    unfolding put_rubric delete_criterion_row record_audit tx
    rest-delete before after u = deleted u

    -- The same of a deletion, where the criteria have unique keys.
    pub delete_criterion-IsTotal :
        HasUniqueKeys db.criteria → Ensures HasTotals (delete_criterion actor rubric_id rv id cv db)
    unfolding delete_criterion
    delete_criterion-IsTotal u =
        Ensures-then HasTotals _ _ (mutable-Reads rubric_id db) (rest-delete _ _ u)
