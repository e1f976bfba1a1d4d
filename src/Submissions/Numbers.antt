-- ===== src/Submissions/Numbers.antt =====
-- The versions of a submission are numbered 1, 2, 3, and so on.
use doc_grading.Prelude.{
  ℕ, ◌+◌, ◌≤◌, ◌≡◌, refl, sym, ap, ◌∙◌, none, some, [], ◌∷◌, find, put, ◌==◌, arith, inl, inr,
  find-put_cases, Table, if◌then◌else◌,
}
use doc_grading.Models.Rows.{DocumentVersion}
use doc_grading.Submissions.{count_versions}

-- Every number is at most the count of the submission's versions, and none is given twice.
pub record IsNumbered (t : Table DocumentVersion) : Type 0 where
  pub bounded :
      (j : ℕ) (d : DocumentVersion)
      → find j t ≡ some d
      → d.version_number ≤ count_versions d.submission_id t
  pub distinct :
      (j k : ℕ) (d e : DocumentVersion)
      → find j t ≡ some d
      → find k t ≡ some e
      → d.submission_id ≡ e.submission_id
      → d.version_number ≡ e.version_number
      → j ≡ k

pub count_versions-put_new :
    (s k : ℕ) (v : DocumentVersion) (t : Table DocumentVersion)
    → find k t ≡ none
    → count_versions s (put k v t)
      ≡ (if v.submission_id == s then count_versions s t + 1 else count_versions s t)
unfolding count_versions find put
count_versions-put_new s k v [] f = ground arith
count_versions-put_new s k v ((j, w) ∷ t) f = ground (arith, count_versions-put_new s k v t)

pub count_versions-put :
    (s k : ℕ) (v w : DocumentVersion) (t : Table DocumentVersion)
    → find k t ≡ some v
    → w.submission_id ≡ v.submission_id
    → count_versions s (put k w t) ≡ count_versions s t
unfolding count_versions find put
count_versions-put s k v w [] f e = ground arith
count_versions-put s k v w ((j, x) ∷ t) f e = ground (arith, count_versions-put s k v w t)

module _ (k : ℕ) (v : DocumentVersion) (t : Table DocumentVersion) (numbered : IsNumbered t) where
  -- no row that was there has the next number of its submission
  no_clash :
      (d e : DocumentVersion) (j : ℕ)
      → d ≡ v
      → find j t ≡ some e
      → d.submission_id ≡ e.submission_id
      → d.version_number ≡ e.version_number
      → v.version_number ≡ count_versions v.submission_id t + 1
      → (i : ℕ) → i ≡ j
  no_clash d e j q h same number next i =
      let s : v.submission_id ≡ e.submission_id = sym (ap (λ x. x.submission_id) q) ∙ same in
      absurd (
        omega (
          arith,
          ap (λ x. x.version_number) q,
          ap (λ x. count_versions x t) s,
          numbered.bounded j e h,
        ))

  -- a version as it was, up to its submission and number
  former :
      (old : DocumentVersion)
      → find k t ≡ some old
      → v.submission_id ≡ old.submission_id
      → v.version_number ≡ old.version_number
      → (i : ℕ) (d : DocumentVersion) → find i (put k v t) ≡ some d
      → (d' : DocumentVersion) × (find i t ≡ some d')
        × (d.submission_id ≡ d'.submission_id)
        × (d.version_number ≡ d'.version_number)
  former old there same_submission same_number i d f = elim (find-put_cases k i v d t f) [
    | inl (q, e) ↦ (
      old,
      ap (λ x. find x t) q ∙ there,
      ap (λ x. x.submission_id) e ∙ same_submission,
      ap (λ x. x.version_number) e ∙ same_number,
    )
    | inr (n, g) ↦ (d, g, refl, refl)
  ]

  -- a new version under the next number
  pub put_new-IsNumbered :
      find k t ≡ none
      → v.version_number ≡ count_versions v.submission_id t + 1
      → IsNumbered (put k v t)
  put_new-IsNumbered fresh next = record {
    bounded = λ j d f. elim (find-put_cases k j v d t f) [
      | inl (q, e) ↦ rw e (ground (arith, count_versions-put_new v.submission_id k v t fresh))
      | inr (n, g) ↦
          ground (arith, count_versions-put_new d.submission_id k v t fresh, numbered.bounded j d g)
    ];
    distinct = λ i j d e f g same number. elim (find-put_cases k i v d t f) [
      | inl (p, dv) ↦ elim (find-put_cases k j v e t g) [
        | inl (q, ev) ↦ p ∙ sym q
        | inr (n, h) ↦ no_clash d e j dv h same number next i
      ]
      | inr (m, h) ↦ elim (find-put_cases k j v e t g) [
        | inl (q, ev) ↦ sym (no_clash e d i ev h (sym same) (sym number) next j)
        | inr (n, h') ↦ numbered.distinct i j d e h h' same number
      ]
    ];
  }

  -- a version that keeps its submission and its number
  pub put-IsNumbered :
      (old : DocumentVersion)
      → find k t ≡ some old
      → v.submission_id ≡ old.submission_id
      → v.version_number ≡ old.version_number
      → IsNumbered (put k v t)
  put-IsNumbered old there same_submission same_number = record {
    bounded = λ j d f. elim (find-put_cases k j v d t f) [
      | inl (q, e) ↦ rw e (
          ground (
            arith,
            count_versions-put v.submission_id k old v t there same_submission,
            numbered.bounded k old there,
          ))
      | inr (n, g) ↦ ground (
        arith,
        count_versions-put d.submission_id k old v t there same_submission,
        numbered.bounded j d g,
      )
    ];
    distinct = λ i j d e f g same number.
        let a = former old there same_submission same_number i d f in
        let b = former old there same_submission same_number j e g in
        numbered.distinct i j a.0 b.0 a.1 b.1 (sym a.2 ∙ same ∙ b.2) (sym a.3 ∙ number ∙ b.3);
  }
