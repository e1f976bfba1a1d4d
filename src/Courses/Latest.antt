-- ===== src/Courses/Latest.antt =====
-- The row that `_lock_course_code` selects, backend/app/services/course_join.py.
use doc_grading.Prelude.{
  find_head, find_tail, ℕ, ◌≡◌, refl, sym, ap, ◌∙◌, subst, Bool, true, false, Option, none, some,
  [], ◌∷◌, find, HasUniqueKeys, Table, arith, inl, inr, ◌⊎◌, Bool-cases, Option-cases, ◌==◌, ==_iff,
  is_none, if◌then◌else◌,
}
use doc_grading.Models.Rows.{CourseJoinCode}
use doc_grading.Courses.Codes.{is_revoked, course_code, first_code, comes_first}
use doc_grading.Courses.CodeTable.{HasNoCurrent}

-- The selected row is of the course, and it is revoked only if all of the course are.
pub record IsLatest (course_id id : ℕ) (row : CourseJoinCode) (t : Table CourseJoinCode)
    : Type 0 where
  pub present : find id t ≡ some row
  pub of_course : row.course_id ≡ course_id
  pub no_current : is_revoked row ≡ true → HasNoCurrent course_id t

first_code-revoked :
    (i j : ℕ) (a b : CourseJoinCode)
    → is_revoked (first_code (i, a) (some (j, b))).1 ≡ true
    → (is_revoked a ≡ true) × (is_revoked b ≡ true)
first_code-revoked i j a b e = elim (Option-cases a.revoked_at) [
  | inl p ↦ elim (Option-cases b.revoked_at) [ inl q ↦ ground arith | inr (y, q) ↦ ground arith ]
  | inr (x, p) ↦ elim (Option-cases b.revoked_at) [
    | inl q ↦ ground arith
    | inr (y, q) ↦ ground arith
  ]
]

first_code-cases :
    (i j : ℕ) (a b : CourseJoinCode)
    → (first_code (i, a) (some (j, b)) ≡ (i, a)) ⊎ (first_code (i, a) (some (j, b)) ≡ (j, b))
first_code-cases i j a b = elim (Bool-cases (comes_first (j, b) (i, a))) [
  | inl h ↦ inr (rw h refl)
  | inr h ↦ inl (rw h refl)
]

find_cases :
    (i j : ℕ) (x a : CourseJoinCode) (t : Table CourseJoinCode)
    → find j ((i, x) ∷ t) ≡ some a
    → (x ≡ a) ⊎ (find j t ≡ some a)
unfolding find
find_cases i j x a t f = elim (Bool-cases (j == i)) [
  | inl h ↦ let q : some x ≡ some a = ground arith in inl cc
  | inr h ↦ inr (ground arith)
]

-- what the select finds, or that the course has no code
IsSelected : ℕ → Table CourseJoinCode → Option (ℕ × CourseJoinCode) → Type 0
IsSelected c t none = (j : ℕ) (a : CourseJoinCode) → find j t ≡ some a → (a.course_id == c) ≡ false
IsSelected c t (some (id, row)) = IsLatest c id row t

module _ (c i : ℕ) (x : CourseJoinCode) (t : Table CourseJoinCode)
    (u : is_none (find i t) ≡ true) where
  skipped :
      (o : Option (ℕ × CourseJoinCode))
      → (x.course_id == c) ≡ false
      → IsSelected c t o
      → IsSelected c ((i, x) ∷ t) o
  unfolding IsSelected
  skipped none n s = λ j a f. elim (find_cases i j x a t f) [
    | inl e ↦ ap (λ z. z.course_id == c) (sym e) ∙ n
    | inr g ↦ s j a g
  ]
  skipped (some (id, row)) n s = record {
    present = find_tail i id x row t u s.present;
    of_course = s.of_course;
    no_current = λ r j a f same. elim (find_cases i j x a t f) [
      | inl e ↦ ground (arith, e, (==_iff x.course_id c).1 (ap (λ z. z.course_id) e ∙ same))
      | inr g ↦ s.no_current r j a g same
    ];
  }

  all_revoked :
      (k : ℕ) (b : CourseJoinCode)
      → IsLatest c k b t
      → is_revoked x ≡ true
      → is_revoked b ≡ true
      → HasNoCurrent c ((i, x) ∷ t)
  all_revoked k b s p q j a f same = elim (find_cases i j x a t f) [
    | inl e ↦ ap is_revoked (sym e) ∙ p
    | inr g ↦ s.no_current q j a g same
  ]

  taken :
      (o : Option (ℕ × CourseJoinCode))
      → (x.course_id == c) ≡ true
      → IsSelected c t o
      → IsSelected c ((i, x) ∷ t) (some (first_code (i, x) o))
  unfolding IsSelected
  taken none h s = record {
    present = find_head i x t;
    of_course = (==_iff x.course_id c).0 h;
    no_current = λ r j a f same. elim (find_cases i j x a t f) [
      | inl e ↦ ap is_revoked (sym e) ∙ r
      | inr g ↦ ground (arith, s j a g, (==_iff a.course_id c).1 same)
    ];
  }
  taken (some (k, b)) h s =
      let both = first_code-revoked i k x b in
      let choice : Bool → Bool = λ z. is_revoked (chosen z).1 in
      elim (Bool-cases (comes_first (k, b) (i, x))) [
        | inl q ↦ rw q (record {
          present = find_tail i k x b t u s.present;
          of_course = s.of_course;
          no_current = λ r. all_revoked k b s (both (ap choice q ∙ r)).0 r;
        })
        | inr q ↦ rw q (record {
          present = find_head i x t;
          of_course = (==_iff x.course_id c).0 h;
          no_current = λ r. all_revoked k b s r (both (ap choice q ∙ r)).1;
        })
      ]
    where
      chosen : Bool → ℕ × CourseJoinCode
      chosen z = if z then (k, b) else (i, x)

selected : (c : ℕ) (t : Table CourseJoinCode) → HasUniqueKeys t → IsSelected c t (course_code c t)
unfolding course_code IsSelected find
selected c [] u = λ j a f. ground arith
selected c ((i, x) ∷ t) u = elim (Bool-cases (x.course_id == c)) [
  | inl h ↦ rw h (taken c i x t u.0 (course_code c t) h (selected c t u.1))
  | inr h ↦ rw h (skipped c i x t u.0 (course_code c t) h (selected c t u.1))
]

pub course_code-IsLatest :
    (c id : ℕ) (row : CourseJoinCode) (t : Table CourseJoinCode)
    → HasUniqueKeys t
    → course_code c t ≡ some (id, row)
    → IsLatest c id row t
unfolding IsSelected
course_code-IsLatest c id row t u e = subst (IsSelected c t) e (selected c t u)

pub course_code-HasNoCurrent :
    (c : ℕ) (t : Table CourseJoinCode) → HasUniqueKeys t → course_code c t ≡ none → HasNoCurrent c t
unfolding IsSelected
course_code-HasNoCurrent c t u e j a f same =
    ground (arith, subst (IsSelected c t) e (selected c t u) j a f, (==_iff a.course_id c).1 same)
