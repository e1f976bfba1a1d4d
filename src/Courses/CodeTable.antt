-- ===== src/Courses/CodeTable.antt =====
-- The table of join codes: what every operation keeps of it.
use doc_grading.Prelude.{
  ℕ, ◌≡◌, ◌≢◌, refl, sym, ap, ◌∙◌, String, Bool, true, false, none, some, find, find_by,
  find_by-none, put, find-put_cases, put-HasUniqueKeys, HasUniqueKeys, Table, arith, inl, inr,
  Bool-cases, ==_iff, eq_iff,
}
use doc_grading.Models.Rows.{CourseJoinCode}
use doc_grading.Courses.Codes.{
  has_code, is_revoked, is_current_of, new_code, revoked_code, extended_code,
}

-- Keys are unique, no code is there twice, and a course has at most one code that is not revoked.
pub record AreCodes (t : Table CourseJoinCode) : Type 0 where
  pub unique : HasUniqueKeys t
  pub one_current :
      (j k : ℕ) (a b : CourseJoinCode)
      → find j t ≡ some a
      → find k t ≡ some b
      → is_revoked a ≡ false
      → is_revoked b ≡ false
      → a.course_id ≡ b.course_id
      → j ≡ k
  pub distinct :
      (j k : ℕ) (a b : CourseJoinCode)
      → find j t ≡ some a
      → find k t ≡ some b
      → a.code ≡ b.code
      → j ≡ k

-- A row fits into the table under a key: the others have other codes, and if it is not revoked, then
-- the others of its course are.
pub record Fits (id : ℕ) (row : CourseJoinCode) (t : Table CourseJoinCode) : Type 0 where
  pub only_current :
      (j : ℕ) (a : CourseJoinCode)
      → j ≢ id
      → find j t ≡ some a
      → is_revoked row ≡ false
      → a.course_id ≡ row.course_id
      → is_revoked a ≡ true
  pub new_text : (j : ℕ) (a : CourseJoinCode) → j ≢ id → find j t ≡ some a → a.code ≢ row.code

contradiction : {b : Bool} → b ≡ true → b ≡ false → ⊥
contradiction p q = ground arith

module _ (id : ℕ) (row : CourseJoinCode) (t : Table CourseJoinCode) (c : AreCodes t)
    (f : Fits id row t) where
  put-one_current :
      (j k : ℕ) (a b : CourseJoinCode)
      → find j (put id row t) ≡ some a
      → find k (put id row t) ≡ some b
      → is_revoked a ≡ false
      → is_revoked b ≡ false
      → a.course_id ≡ b.course_id
      → j ≡ k
  put-one_current j k a b p q r s e = elim (find-put_cases id j row a t p) [
    | inl (h, x) ↦ elim (find-put_cases id k row b t q) [
      | inl (i, y) ↦ h ∙ sym i
      | inr (i, y) ↦ absurd (
          contradiction
            (f.only_current k b i y (ap is_revoked (sym x) ∙ r) (sym e ∙ ap (λ z. z.course_id) x))
            s)
    ]
    | inr (h, x) ↦ elim (find-put_cases id k row b t q) [
      | inl (i, y) ↦ absurd (
          contradiction
            (f.only_current j a h x (ap is_revoked (sym y) ∙ s) (e ∙ ap (λ z. z.course_id) y)) r)
      | inr (i, y) ↦ c.one_current j k a b x y r s e
    ]
  ]

  put-distinct :
      (j k : ℕ) (a b : CourseJoinCode)
      → find j (put id row t) ≡ some a
      → find k (put id row t) ≡ some b
      → a.code ≡ b.code
      → j ≡ k
  put-distinct j k a b p q e = elim (find-put_cases id j row a t p) [
    | inl (h, x) ↦ elim (find-put_cases id k row b t q) [
      | inl (i, y) ↦ h ∙ sym i
      | inr (i, y) ↦ absurd (f.new_text k b i y (sym e ∙ ap (λ z. z.code) x))
    ]
    | inr (h, x) ↦ elim (find-put_cases id k row b t q) [
      | inl (i, y) ↦ absurd (f.new_text j a h x (e ∙ ap (λ z. z.code) y))
      | inr (i, y) ↦ c.distinct j k a b x y e
    ]
  ]

  pub put-AreCodes : AreCodes (put id row t)
  put-AreCodes = record {
    unique = put-HasUniqueKeys id row t c.unique;
    one_current = put-one_current;
    distinct = put-distinct;
  }

module _ (id : ℕ) (row : CourseJoinCode) (t : Table CourseJoinCode) (c : AreCodes t)
    (h : find id t ≡ some row) where
  -- a row that is stored again with its course and its code, revoked if it was
  stored_again-Fits :
      (row' : CourseJoinCode)
      → row'.course_id ≡ row.course_id
      → row'.code ≡ row.code
      → (is_revoked row' ≡ false → is_revoked row ≡ false)
      → Fits id row' t
  stored_again-Fits row' e g r = record {
    only_current = λ j a n f live same. elim (Bool-cases (is_revoked a)) [
      | inl k ↦ k
      | inr k ↦ absurd (n (c.one_current j id a row f h k (r live) (same ∙ e)))
    ];
    new_text = λ j a n f same. n (c.distinct j id a row f h (same ∙ g));
  }

  pub extended-Fits : (expires_at : ℕ) → Fits id (extended_code expires_at row) t
  extended-Fits expires_at = stored_again-Fits _ refl refl (λ r. r)

  pub revoked-Fits : (now : ℕ) → Fits id (revoked_code now row) t
  revoked-Fits now = stored_again-Fits _ refl refl (λ r. ground arith)

-- no code of the course is current
abbrev pub HasNoCurrent : ℕ → Table CourseJoinCode → Type 0
HasNoCurrent course_id t =
    (j : ℕ) (a : CourseJoinCode) → find j t ≡ some a → a.course_id ≡ course_id → is_revoked a ≡ true

pub none-HasNoCurrent :
    (course_id : ℕ) (t : Table CourseJoinCode)
    → find_by (is_current_of course_id) t ≡ none
    → HasNoCurrent course_id t
none-HasNoCurrent course_id t e j a f same =
    ground (
      arith,
      find_by-none (is_current_of course_id) t j a e f,
      (==_iff a.course_id course_id).1 same,
    )

pub new_code-Fits :
    (now course_id : ℕ) (code : String) (expires_at id : ℕ) (t : Table CourseJoinCode)
    → HasNoCurrent course_id t
    → find_by (has_code code) t ≡ none
    → Fits id (new_code now course_id code expires_at) t
new_code-Fits now course_id code expires_at id t none_current unused = record {
  only_current = λ j a n f live same. none_current j a f same;
  new_text = λ j a n f same.
      contradiction ((eq_iff a.code code).1 same) (find_by-none (has_code code) t j a unused f);
}
