-- ===== src/Courses/Draws.antt =====
-- The loop that draws a new join code ends: `_create_code_row` of
-- backend/app/services/course_join.py.
use doc_grading.Prelude.{
  ℕ, ◌+◌, ◌<◌, ◌≤◌, ◌≡◌, refl, sym, ◌∙◌, subst, String, Bool, true, false, not, none, some, List,
  [], ◌∷◌, find_by, put, Table, is_none, if◌then◌else◌, str_eq, eq_iff, any, length, arith, inl,
  inr, Bool-cases, Option-cases,
}
use doc_grading.Models.Rows.{CourseJoinCode}
use doc_grading.Models.Db.{Db}
use doc_grading.Models.Tx.{tx, returned}
use doc_grading.Courses.Codes.{create_code_row, first_unused, has_code, new_code, put_code}

-- no text is there twice
abbrev pub IsDistinct : List String → Type 0
IsDistinct [] = Unit
IsDistinct (s ∷ ss) = (any (str_eq s) ss ≡ false) × IsDistinct ss

abbrev is_used : String → Table CourseJoinCode → Bool
is_used s t = not (is_none (find_by (has_code s) t))

AllUsed : List String → Table CourseJoinCode → Type 0
AllUsed [] t = Unit
AllUsed (s ∷ ss) t = (is_used s t ≡ true) × AllUsed ss t

none-AllUsed :
    (draws : List String) (t : Table CourseJoinCode) → first_unused draws t ≡ none → AllUsed draws t
unfolding first_unused AllUsed
none-AllUsed [] t e = tt
none-AllUsed (s ∷ ss) t e = elim (Bool-cases (is_none (find_by (has_code s) t))) [
  | inl h ↦ ground arith
  | inr h ↦ (ground arith, none-AllUsed ss t (ground arith))
]

-- the rows without the first that has the code
drop_code : String → Table CourseJoinCode → Table CourseJoinCode
drop_code s [] = []
drop_code s ((i, row) ∷ t) =
    let rest = drop_code s t in if str_eq row.code s then t else (i, row) ∷ rest

length-drop_code :
    (s : String) (t : Table CourseJoinCode)
    → is_used s t ≡ true
    → length t ≡ length (drop_code s t) + 1
unfolding drop_code find_by
length-drop_code s [] e = ground arith
length-drop_code s ((i, row) ∷ t) e = ground (arith, length-drop_code s t)

is_used-drop_code :
    (x s : String) (t : Table CourseJoinCode)
    → str_eq s x ≡ false
    → is_used x t ≡ true
    → is_used x (drop_code s t) ≡ true
unfolding drop_code find_by
is_used-drop_code x s [] n e = ground arith
is_used-drop_code x s ((i, row) ∷ t) n e = elim (Bool-cases (str_eq row.code s)) [
  | inl h ↦ elim (Bool-cases (str_eq row.code x)) [
    | inl k ↦
        let same : s ≡ x = sym ((eq_iff row.code s).0 h) ∙ (eq_iff row.code x).0 k in
        ground (arith, (eq_iff s x).1 same)
    | inr k ↦ ground arith
  ]
  | inr h ↦ ground (arith, is_used-drop_code x s t n)
]

AllUsed-drop_code :
    (s : String) (xs : List String) (t : Table CourseJoinCode)
    → any (str_eq s) xs ≡ false
    → AllUsed xs t
    → AllUsed xs (drop_code s t)
unfolding AllUsed
AllUsed-drop_code s [] t n u = tt
AllUsed-drop_code s (x ∷ xs) t n u =
    (is_used-drop_code x s t (ground arith) u.0, AllUsed-drop_code s xs t (ground arith) u.1)

-- distinct codes that are all in the table are not more than its rows
length-AllUsed :
    (xs : List String) (t : Table CourseJoinCode)
    → IsDistinct xs
    → AllUsed xs t
    → length xs ≤ length t
unfolding AllUsed
length-AllUsed [] t d u = omega arith
length-AllUsed (x ∷ xs) t d u = omega (
  arith,
  length-drop_code x t u.0,
  length-AllUsed xs (drop_code x t) d.1 (AllUsed-drop_code x xs t d.0 u.1),
)

enough_draws :
    (draws : List String) (t : Table CourseJoinCode)
    → IsDistinct draws
    → length t < length draws
    → (code : String) × (first_unused draws t ≡ some code)
enough_draws draws t d n = elim (Option-cases (first_unused draws t)) [
  | inl e ↦ absurd (omega (arith, length-AllUsed draws t d (none-AllUsed draws t e)))
  | inr (code, e) ↦ (code, e)
]

-- what the loop ends with is no code of the table
pub first_unused-fresh :
    (draws : List String) (t : Table CourseJoinCode) (code : String)
    → first_unused draws t ≡ some code
    → find_by (has_code code) t ≡ none
unfolding first_unused
first_unused-fresh [] t code e = ground arith
first_unused-fresh (s ∷ ss) t code e = elim (Option-cases (find_by (has_code s) t)) [
  | inl h ↦
      let p : some s ≡ some code = ground (arith, e, h) in
      let q : s ≡ code = cc in subst (λ c. find_by (has_code c) t ≡ none) q h
  | inr (r, h) ↦ first_unused-fresh ss t code (ground arith)
]

-- the database with a new code
abbrev pub with_code : ℕ → ℕ → String → ℕ → Db → Db
with_code now course_id code expires_at db = record db {
  next_uuid = db.next_uuid + 1;
  join_codes = put db.next_uuid (new_code now course_id code expires_at) db.join_codes;
}

pub create_code_row_lem :
    (now : ℕ) (draws : List String) (course_id expires_at : ℕ) (code : String) (db : Db)
    → first_unused draws db.join_codes ≡ some code
    → create_code_row now draws course_id expires_at db
      ≡ returned
          (db.next_uuid, new_code now course_id code expires_at)
          (with_code now course_id code expires_at db)
unfolding create_code_row put_code tx
create_code_row_lem now draws course_id expires_at code db e = ground (arith, e)

-- If the draws are distinct and more than the codes that are stored, then the loop ends: the new row
-- is returned and stored, for the course and under a code that no row has had.
pub create_code_row-ends :
    (now : ℕ) (draws : List String) (course_id expires_at : ℕ) (db : Db)
    → IsDistinct draws
    → length db.join_codes < length draws
    → (code : String) × (db' : Db) × (create_code_row now draws course_id expires_at db
        ≡ returned (db.next_uuid, new_code now course_id code expires_at) db')
      × (db'.join_codes ≡ put db.next_uuid (new_code now course_id code expires_at) db.join_codes)
      × (find_by (has_code code) db.join_codes ≡ none)
create_code_row-ends now draws course_id expires_at db d n =
    let (code, e) = enough_draws draws db.join_codes d n in
    (
      code,
      with_code now course_id code expires_at db,
      create_code_row_lem now draws course_id expires_at code db e,
      refl,
      first_unused-fresh draws db.join_codes code e,
    )
