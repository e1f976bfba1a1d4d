-- ===== src/Courses/Roster.antt =====
-- The memberships of courses, backend/app/models/course.py: a student has one of a course at most.
use doc_grading.Prelude.{
  some-none, ℕ, ◌+◌, ◌≤◌, ◌≡◌, sym, ap, ◌∙◌, subst, none, some, find, find_by, find_by-none, put,
  find-put_ne, find-put_cases, put-HasUniqueKeys, HasUniqueKeys, arith, inl, inr, ==_iff,
}
use doc_grading.Models.Enums.{JoinedVia}
use doc_grading.Models.Rows.{Membership}
use doc_grading.Models.Db.{Db}
use doc_grading.Courses.{is_membership_of}
use doc_grading.Courses.Members.{new_membership}

-- Keys are unique, a student has one membership of a course at most, and the identifiers to come are
-- no keys.
pub record IsRoster (db : Db) : Type 0 where
  pub unique : HasUniqueKeys db.memberships
  pub one_each :
      (j k : ℕ) (a b : Membership)
      → find j db.memberships ≡ some a
      → find k db.memberships ≡ some b
      → a.course_id ≡ b.course_id
      → a.user_id ≡ b.user_id
      → j ≡ k
  pub fresh : (k : ℕ) → db.next_uuid ≤ k → find k db.memberships ≡ none

pub moved-IsRoster :
    (db db' : Db)
    → db'.memberships ≡ db.memberships
    → db.next_uuid ≤ db'.next_uuid
    → IsRoster db
    → IsRoster db'
moved-IsRoster db db' e n r = record {
  unique = subst HasUniqueKeys (sym e) r.unique;
  one_each = λ j k a b f g. r.one_each j k a b (ap (find j) (sym e) ∙ f) (ap (find k) (sym e) ∙ g);
  fresh = λ k m. ap (find k) e ∙ r.fresh k (omega (arith, n, m));
}

-- a row that no other has the course and the user of may be stored
put-one_each :
    (id : ℕ) (m : Membership) (db : Db)
    → IsRoster db
    → ((j : ℕ) (a : Membership)
        → find j db.memberships ≡ some a
        → a.course_id ≡ m.course_id
        → a.user_id ≡ m.user_id
        → j ≡ id)
    → (j k : ℕ) (a b : Membership) → find j (put id m db.memberships) ≡ some a
    → find k (put id m db.memberships) ≡ some b
    → a.course_id ≡ b.course_id
    → a.user_id ≡ b.user_id
    → j ≡ k
put-one_each id m db r alone j k a b p q c u = elim (find-put_cases id j m a db.memberships p) [
  | inl (h, x) ↦ elim (find-put_cases id k m b db.memberships q) [
    | inl (i, y) ↦ h ∙ sym i
    | inr (i, y) ↦
        h ∙ sym (alone k b y (sym c ∙ ap (λ z. z.course_id) x) (sym u ∙ ap (λ z. z.user_id) x))
  ]
  | inr (h, x) ↦ elim (find-put_cases id k m b db.memberships q) [
    | inl (i, y) ↦ alone j a x (c ∙ ap (λ z. z.course_id) y) (u ∙ ap (λ z. z.user_id) y) ∙ sym i
    | inr (i, y) ↦ r.one_each j k a b x y c u
  ]
]

pub stored_again-IsRoster :
    (id : ℕ) (m m' : Membership) (db : Db)
    → IsRoster db
    → find id db.memberships ≡ some m
    → m'.course_id ≡ m.course_id
    → m'.user_id ≡ m.user_id
    → IsRoster (record db { memberships = put id m' db.memberships })
stored_again-IsRoster id m m' db r f c u = record {
  unique = put-HasUniqueKeys id m' db.memberships r.unique;
  one_each = put-one_each id m' db r (λ j a g d v. r.one_each j id a m g f (d ∙ c) (v ∙ u));
  fresh = λ k n.
      find-put_ne id k m' db.memberships
        (λ e. some-none f (ap (λ i. find i db.memberships) (sym e) ∙ r.fresh k n))
      ∙ r.fresh k n;
}

pub new-IsRoster :
    (now : ℕ) (via : JoinedVia) (course_id user_id : ℕ) (db : Db)
    → IsRoster db
    → find_by (is_membership_of course_id user_id) db.memberships ≡ none
    → IsRoster (record db {
      next_uuid = db.next_uuid + 1;
      memberships = put db.next_uuid (new_membership now via course_id user_id) db.memberships;
    })
new-IsRoster now via course_id user_id db r e = record {
  unique = put-HasUniqueKeys db.next_uuid _ db.memberships r.unique;
  one_each = put-one_each db.next_uuid _ db r (λ j a g c u. absurd (
      ground (
        arith,
        find_by-none (is_membership_of course_id user_id) db.memberships j a e g,
        (==_iff a.course_id course_id).1 c,
        (==_iff a.user_id user_id).1 u,
      )));
  fresh = λ k m.
      find-put_ne db.next_uuid k _ db.memberships (λ e. omega (arith, e)) ∙ r.fresh k (omega arith);
}
