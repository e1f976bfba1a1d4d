-- ===== src/Rubrics/Life.antt =====
-- The totals of rubrics over their whole life: rubrics are made, edited and deleted, and so are their
-- criteria, by backend/app/services/rubric.py.
use doc_grading.Prelude.{
  ℕ, ◌<◌, ◌≡◌, ◌≢◌, refl, sym, ap, ◌∙◌, subst, Bool, true, false, none, some, find, put, remove,
  find-remove, put-HasUniqueKeys, remove-HasUniqueKeys, HasUniqueKeys, arith, inl, inr, Bool-cases,
  Option-cases, ◌==◌, ==_iff,
}
use doc_grading.Models.Rows.{RubricVersion, CriterionVersion}
use doc_grading.Models.Db.{Db}
use doc_grading.Models.Tx.{Tx, tx, pure, modify}
use doc_grading.Models.Ensures.{Ensures}
use doc_grading.Models.Reads.{Ensures-then}
use doc_grading.Models.Hoare.{Ensures-gets, Ensures-guard, Ensures-modify, Ensures-uuid}
use doc_grading.Audit.{record_audit}
use doc_grading.Rubrics.Criteria.{
  NewRubric, NewCriterion, CriterionChange, create_rubric_version, or_new_id, add_criterion,
  update_criterion, delete_criterion, put_rubric, put_criterion, delete_criterion_row, store_change,
  store_if, has_changes, changed_criterion,
}
use doc_grading.Rubrics.Edits.{
  RubricChange, update_rubric_version, delete_rubric_version, store_rubric, edited_rubric,
  has_rubric_edits, without_criteria,
}
use doc_grading.Rubrics.Weights.{IsTotal, enabled_weight, stored-IsTotal}
use doc_grading.Rubrics.Totals.{
  mutable-Reads, add_criterion-IsTotal, update_criterion-IsTotal, delete_criterion-IsTotal,
}
use doc_grading.Rubrics.Ledger.{
  enabled_weight-none, enabled_weight-without, without-found, unique-without,
}
use doc_grading.Rubrics.Rooted.{IsRooted, IsLedger, put-known, put-keys, later-keys, Kept, both}

module _ (db : Db) (l : IsLedger db) where
  -- a new rubric has no criteria
  new_rubric-IsTotal :
      (rv : RubricVersion)
      → rv.total_weight ≡ 0
      → IsTotal (put db.next_uuid rv db.rubrics) db.criteria
  new_rubric-IsTotal rv e =
      stored-IsTotal db.rubrics db.criteria db.criteria l.totals db.next_uuid rv
        (e
          ∙ sym (
              enabled_weight-none db.next_uuid db.criteria l.ids.unique
                (λ k c f same. omega (arith, (l.ids.keys k c f).1, same))))
        (λ j n. refl)

  pub create_rubric_version-Kept :
      (owner creator : ℕ) (r : NewRubric) → Ensures Kept (create_rubric_version owner creator r db)
  unfolding create_rubric_version or_new_id put_rubric record_audit tx
  create_rubric_version-Kept owner creator r = elim (Option-cases r.rubric_id) [
    | inl e ↦ rw e (record {
      ids = record {
        unique = l.ids.unique;
        keys = later-keys db l.ids _ (omega arith);
        known = put-known db l.ids _ db.next_uuid _ (omega arith) (omega arith);
      };
      totals = new_rubric-IsTotal _ refl;
    })
    | inr (i, e) ↦ rw e (record {
      ids = record {
        unique = l.ids.unique;
        keys = later-keys db l.ids _ (omega arith);
        known = put-known db l.ids _ db.next_uuid _ (omega arith) (omega arith);
      };
      totals = new_rubric-IsTotal _ refl;
    })
  ]

  module _ (actor id : ℕ) (rv : RubricVersion) (loaded : find id db.rubrics ≡ some rv) where
    store_rubric-Kept :
        (b : Bool) (c : RubricChange) → Ensures Kept (store_rubric b id actor c rv db)
    unfolding store_rubric put_rubric record_audit tx
    store_rubric-Kept false c = l
    store_rubric-Kept true c = record {
      ids = record {
        unique = l.ids.unique;
        keys = l.ids.keys;
        known = put-known db l.ids _ id _ (omega arith) (l.ids.known id rv loaded);
      };
      totals =
          stored-IsTotal db.rubrics db.criteria db.criteria l.totals id (edited_rubric c rv)
            (l.totals id rv loaded) (λ j n. refl);
    }

    pub update_rubric_version-Kept :
        (c : RubricChange) → Ensures Kept (update_rubric_version actor id rv c db)
    unfolding update_rubric_version
    update_rubric_version-Kept c =
        Ensures-then Kept _ _ (mutable-Reads id db) (store_rubric-Kept (has_rubric_edits c rv) c)

    -- the rubric and its criteria are gone
    deleted-IsLedger :
        (d : Db)
        → d.rubrics ≡ remove id db.rubrics
        → d.criteria ≡ without_criteria id db.criteria
        → d.next_uuid ≡ db.next_uuid
        → IsLedger d
    deleted-IsLedger d p q n = record {
      ids = record {
        unique = subst HasUniqueKeys (sym q) (unique-without id db.criteria l.ids.unique);
        keys = λ k c f.
            later-keys db l.ids d.next_uuid (omega (arith, n)) k c
              (without-found id k c db.criteria l.ids.unique (ap (find k) (sym q) ∙ f)).0;
        known = λ k x f. omega (arith, n, l.ids.known k x (other k x (ap (find k) (sym p) ∙ f)).1);
      };
      totals = λ k x f.
          let (ne, g) = other k x (ap (find k) (sym p) ∙ f) in
          l.totals k x g
          ∙ sym (enabled_weight-without id k db.criteria ne)
          ∙ ap (enabled_weight k) (sym q);
    }
      where
        other :
            (k : ℕ) (x : RubricVersion)
            → find k (remove id db.rubrics) ≡ some x
            → (k ≢ id) × (find k db.rubrics ≡ some x)
        other k x f = elim (Bool-cases (k == id)) [
          | inl h ↦ absurd (ground (arith, find-remove id k db.rubrics))
          | inr h ↦
              (λ e. ground (arith, (==_iff k id).1 e), ground (arith, find-remove id k db.rubrics))
        ]

    pub delete_rubric_version-Kept : Ensures Kept (delete_rubric_version actor id rv db)
    unfolding delete_rubric_version record_audit modify
    delete_rubric_version-Kept = Ensures-gets Kept _ _ db (
        Ensures-guard Kept _ _ _ db (λ _. Ensures-gets Kept _ _ db (
          Ensures-guard Kept _ _ _ db (λ _. Ensures-gets Kept _ _ db (
            Ensures-guard Kept _ _ _ db (λ _.
              Ensures-then Kept _ _ (mutable-Reads id db)
                (Ensures-modify Kept _ _ db (deleted-IsLedger _ refl refl refl))))))))

    abbrev Rooted {ℓ} : {A : Type ℓ} → A → Db → Type 0
    Rooted _ d = IsRooted d

    known-id : id < db.next_uuid
    known-id = l.ids.known id rv loaded

    unused : find db.next_uuid db.criteria ≡ none
    unused = elim (Option-cases (find db.next_uuid db.criteria)) [
      | inl e ↦ e
      | inr (c, e) ↦ absurd (omega (arith, (l.ids.keys db.next_uuid c e).0))
    ]

    add-Rooted : (c : NewCriterion) → Ensures Rooted (add_criterion actor id rv c db)
    unfolding add_criterion put_criterion put_rubric record_audit modify pure
    add-Rooted c = Ensures-then Rooted _ _ (mutable-Reads id db) (
        Ensures-uuid Rooted _ db (
          Ensures-uuid Rooted _ _ (
            Ensures-modify Rooted _ _ _ (
              Ensures-modify Rooted _ _ _ (
                Ensures-modify Rooted _ _ _ (record {
                  unique = put-HasUniqueKeys db.next_uuid _ db.criteria l.ids.unique;
                  keys =
                      put-keys db l.ids _ db.next_uuid _ (omega arith) (omega arith)
                        (omega (arith, known-id));
                  known = put-known db l.ids _ id _ (omega arith) (omega (arith, known-id));
                }))))))

    pub add_criterion-Kept : (c : NewCriterion) → Ensures Kept (add_criterion actor id rv c db)
    add_criterion-Kept c =
        both _ (add_criterion-IsTotal actor id rv db l.totals loaded c unused) (add-Rooted c)

    module _ (k : ℕ) (cv : CriterionVersion) (stored : find k db.criteria ≡ some cv)
        (belongs : cv.rubric_version_id ≡ id) where
      change-Rooted : (c : CriterionChange) → Ensures Rooted (store_change actor id rv k cv c db)
      unfolding store_change put_criterion put_rubric record_audit tx
      change-Rooted c = record {
        unique = put-HasUniqueKeys k _ db.criteria l.ids.unique;
        keys =
            put-keys db l.ids _ k (changed_criterion c cv) (omega arith) (l.ids.keys k cv stored).0
              (l.ids.keys k cv stored).1;
        known = put-known db l.ids _ id _ (omega arith) known-id;
      }

      store_if-Rooted :
          (b : Bool) (m : Tx (Unit {0})) → Ensures Rooted (m db) → Ensures Rooted (store_if b m db)
      unfolding pure
      store_if-Rooted true m h = h
      store_if-Rooted false m h = l.ids

      update-Rooted :
          (c : CriterionChange) → Ensures Rooted (update_criterion actor id rv k cv c db)
      unfolding update_criterion
      update-Rooted c =
          Ensures-then Rooted _ _ (mutable-Reads id db)
            (store_if-Rooted (has_changes c cv) _ (change-Rooted c))

      pub update_criterion-Kept :
          (c : CriterionChange) → Ensures Kept (update_criterion actor id rv k cv c db)
      update_criterion-Kept c =
          both _ (update_criterion-IsTotal actor id rv db l.totals loaded k cv stored belongs c)
            (update-Rooted c)

      delete-Rooted : Ensures Rooted (delete_criterion actor id rv k cv db)
      unfolding delete_criterion put_rubric delete_criterion_row record_audit modify
      delete-Rooted = Ensures-then Rooted _ _ (mutable-Reads id db) (
          Ensures-modify Rooted _ _ _ (
            Ensures-modify Rooted _ _ _ (record {
              unique = remove-HasUniqueKeys k db.criteria l.ids.unique;
              keys = λ j c f. l.ids.keys j c (left j c f);
              known = put-known db l.ids _ id _ (omega arith) known-id;
            })))
        where
          left :
              (j : ℕ) (c : CriterionVersion)
              → find j (remove k db.criteria) ≡ some c
              → find j db.criteria ≡ some c
          left j c f = elim (Bool-cases (j == k)) [
            | inl h ↦ absurd (ground (arith, find-remove k j db.criteria))
            | inr h ↦ ground (arith, find-remove k j db.criteria)
          ]

      pub delete_criterion-Kept : Ensures Kept (delete_criterion actor id rv k cv db)
      delete_criterion-Kept =
          both _
            (delete_criterion-IsTotal actor id rv db l.totals loaded k cv stored belongs
              l.ids.unique)
            delete-Rooted
