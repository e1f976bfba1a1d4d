-- ===== src/Gate/Decision.antt =====
-- When the quality gate passes, backend/app/services/semantic_gate.py.
use doc_grading.Prelude.{
  ℕ, ◌≡◌, refl, ap, subst, ==_iff, Bool, true, false, Option, none, some, List, [], ◌∷◌, inl, inr,
  arith, Bool-cases, Option-cases,
}
use doc_grading.Gate.{
  RunConfiguration, Approval, same_configuration, is_approved, meets_thresholds, decide, matching,
  first_approved, entry_of, judge, or_head,
}

-- the approval is one of the list
pub data Listed (a : Approval) : List Approval → Type 0 where
  here : (rest : List Approval) → Listed a (a ∷ rest)
  there : (b : Approval) (rest : List Approval) → Listed a rest → Listed a (b ∷ rest)

-- An approval that grants the run: listed, signed, of the same configuration, over the thresholds.
pub record Grants (approvals : List Approval) (run : RunConfiguration) (a : Approval) : Type 0 where
  pub listed : Listed a approvals
  pub same : same_configuration a.configuration run ≡ true
  pub signed : is_approved a ≡ true
  pub good : meets_thresholds a ≡ true

first_is : (a b : Approval) → some a ≡ some b → a ≡ b
first_is a b e = cc

first_approved-lem :
    (run : RunConfiguration) (approvals : List Approval) (a : Approval)
    → first_approved (matching (some run) approvals) ≡ some a
    → Listed a approvals
      × ((same_configuration a.configuration run ≡ true) × (is_approved a ≡ true))
unfolding matching first_approved
first_approved-lem run [] a e = cc
first_approved-lem run (b ∷ approvals) a e =
    elim (Bool-cases (same_configuration b.configuration run)) [
      | inl h ↦ elim (Bool-cases (is_approved b)) [
        | inl k ↦
            subst
              (λ x.
                Listed x (b ∷ approvals)
                × ((same_configuration x.configuration run ≡ true) × (is_approved x ≡ true)))
              (first_is b a (ground arith)) (Listed.here approvals, (h, k))
        | inr k ↦ later (first_approved-lem run approvals a (ground arith))
      ]
      | inr h ↦ later (first_approved-lem run approvals a (ground arith))
    ]
  where
    later :
        Listed a approvals
          × ((same_configuration a.configuration run ≡ true) × (is_approved a ≡ true))
        → Listed a (b ∷ approvals)
          × ((same_configuration a.configuration run ≡ true) × (is_approved a ≡ true))
    later q = (Listed.there b approvals q.0, q.1)

head-lem :
    (ms : List Approval) (a : Approval)
    → first_approved ms ≡ none
    → or_head none ms ≡ some a
    → is_approved a ≡ false
unfolding first_approved
head-lem [] a e f = cc
head-lem (b ∷ ms) a e f = elim (Bool-cases (is_approved b)) [
  | inl h ↦ ground arith
  | inr h ↦ subst (λ x. is_approved x ≡ false) (first_is b a f) h
]

judge-passed :
    (failures : ℕ) (entry : Option Approval)
    → (judge failures entry).is_passed ≡ true
    → (a : Approval) × (entry ≡ some a)
      × (is_approved a ≡ true)
      × (meets_thresholds a ≡ true)
      × (failures ≡ 0)
unfolding judge
judge-passed failures none e = cc
judge-passed failures (some a) e =
    (a, refl, ground arith, ground arith, (==_iff failures 0).0 (ground arith))

entry-lem :
    (run : RunConfiguration) (approvals : List Approval) (a : Approval)
    → entry_of (some run) approvals ≡ some a
    → is_approved a ≡ true
    → first_approved (matching (some run) approvals) ≡ some a
unfolding entry_of
entry-lem run approvals a e h =
    elim (Option-cases (first_approved (matching (some run) approvals))) [
      | inl f ↦ ground (arith, head-lem (matching (some run) approvals) a f)
      | inr (b, f) ↦ ground arith
    ]

-- The gate passes only with a model, with an encoder that never fell back, and with a listed
-- approval that is signed, that covers exactly the run's configuration, and whose benchmark meets
-- the thresholds.
pub decide-Grants :
    (approvals : List Approval) (run : RunConfiguration) (has_model : Bool) (failures : Option ℕ)
    → (decide approvals (some run) has_model failures).is_passed ≡ true
    → (has_model ≡ true) × (failures ≡ some 0) × ((a : Approval) × Grants approvals run a)
unfolding decide
decide-Grants approvals run false failures e = cc
decide-Grants approvals run true none e = cc
decide-Grants approvals run true (some n) e =
    let (a, f, signed, good, z) = judge-passed n (entry_of (some run) approvals) e in
    let (listed, (same, _)) =
      first_approved-lem run approvals a (entry-lem run approvals a f signed) in
    (refl, ap some z, (a, record { listed = listed; same = same; signed = signed; good = good }))
