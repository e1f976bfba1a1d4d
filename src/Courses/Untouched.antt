-- ===== src/Courses/Untouched.antt =====
-- What the limit of requests and the checks of `join_course` leave alone, and the rules for its
-- refusals, which are committed: backend/app/services/course_join.py.
use doc_grading.Prelude.{
  ℕ, ◌≤◌, ◌≡◌, refl, ◌∙◌, String, Bool, true, false, Option, none, some, find, arith, inl, inr,
  Bool-cases,
}
use doc_grading.Models.Rows.{Course, JoinRateLimit}
use doc_grading.Models.Db.{Db}
use doc_grading.Models.Tx.{
  Tx, Outcome, returned, raised, committed, tx, Error, pure, commit_and_raise, ◌>>=◌, ◌>>◌,
}
use doc_grading.Models.Ensures.{Ensures, Ensures-mono}
use doc_grading.Models.Hoare.{Ensures-lookup, Ensures-guard}
use doc_grading.Models.Ends.{Ends-modify, Ends, Ends-after, Ensures-Ends}
use doc_grading.Courses.{is_read_only}
use doc_grading.Courses.Codes.{lock_joinable_course}
use doc_grading.Courses.Joining.{
  JoinSettings, enforce_join_rate_limit, count_request, count_row, is_over, put_limit,
  commit_if_limited, refuse_if, or_refuse, lock_or_refuse, after_commit,
}

-- What the limit and the checks leave alone.
pub record IsUntouched (db db' : Db) : Type 0 where
  pub users : db'.users ≡ db.users
  pub courses : db'.courses ≡ db.courses
  pub memberships : db'.memberships ≡ db.memberships
  pub join_codes : db'.join_codes ≡ db.join_codes
  pub later_ids : db.next_uuid ≤ db'.next_uuid

pub IsUntouched-trans : (a b c : Db) → IsUntouched a b → IsUntouched b c → IsUntouched a c
IsUntouched-trans a b c p q = record {
  users = q.users ∙ p.users;
  courses = q.courses ∙ p.courses;
  memberships = q.memberships ∙ p.memberships;
  join_codes = q.join_codes ∙ p.join_codes;
  later_ids = omega (arith, p.later_ids, q.later_ids);
}

pub untouched : (db : Db) → IsUntouched db db
untouched db = record {
  users = refl;
  courses = refl;
  memberships = refl;
  join_codes = refl;
  later_ids = omega arith;
}

count_row-IsUntouched :
    (now : ℕ) (s : JoinSettings) (digest : String) (row : Option (ℕ × JoinRateLimit)) (db : Db)
    → Ensures (λ _ db'. IsUntouched db db') (count_row now s digest row db)
unfolding count_row put_limit tx
count_row-IsUntouched now s digest none db = record {
  users = refl;
  courses = refl;
  memberships = refl;
  join_codes = refl;
  later_ids = omega arith;
}
count_row-IsUntouched now s digest (some (id, row)) db = elim (Bool-cases (is_over now s row)) [
  | inl h ↦ rw h (record {
    users = refl;
    courses = refl;
    memberships = refl;
    join_codes = refl;
    later_ids = omega arith;
  })
  | inr h ↦ rw h (record {
    users = refl;
    courses = refl;
    memberships = refl;
    join_codes = refl;
    later_ids = omega arith;
  })
]

count_request-IsUntouched :
    (now : ℕ) (s : JoinSettings) (digest : String) (db : Db)
    → Ensures (λ _ db'. IsUntouched db db') (count_request now s digest db)
unfolding count_request
count_request-IsUntouched now s digest db = count_row-IsUntouched now s digest _ db

module _ {ℓ} {B : Type ℓ} (Q : B → Db → Type 0) (E : Error → Db → Type 0) where
  pub Ends-refuse :
      (b : Bool) (e : Error) (k : Tx B) (db : Db)
      → E e db
      → (b ≡ false → Ends Q E (k db))
      → Ends Q E ((refuse_if b e >> k) db)
  unfolding refuse_if commit_and_raise pure ◌>>◌ ◌>>=◌
  Ends-refuse true e k db x f = x
  Ends-refuse false e k db x f = f refl

  pub Ends-or_refuse :
      {A : Type 0} (o : Option A) (e : Error) (k : A → Tx B) (db : Db)
      → E e db
      → ((a : A) → o ≡ some a → Ends Q E (k a db))
      → Ends Q E ((or_refuse o e >>= k) db)
  unfolding or_refuse commit_and_raise pure ◌>>=◌
  Ends-or_refuse none e k db x f = x
  Ends-or_refuse (some a) e k db x f = f a refl

module _ (now : ℕ) (s : JoinSettings) (locked : ℕ → Bool) (account ip : String) (db : Db) where
  abbrev pub Left {ℓ} : {A : Type ℓ} → A → Db → Type 0
  Left _ db' = IsUntouched db db'

  limited-Ends :
      (b : Bool) (retry : ℕ) (d : Db)
      → IsUntouched db d
      → Ends Left Left (commit_if_limited b retry d)
  unfolding commit_if_limited commit_and_raise pure
  limited-Ends true retry d u = u
  limited-Ends false retry d u = u

  pub enforce-Ends : Ends Left Left (enforce_join_rate_limit now s locked account ip db)
  unfolding enforce_join_rate_limit
  enforce-Ends =
      Ends-after Left Left Left _ _ db
        (Ensures-Ends Left Left _ (count_request-IsUntouched now s (s.digest account) db))
        (λ a d u.
          Ends-after Left Left Left _ _ d
            (Ensures-Ends Left Left _ (
              Ensures-mono _ Left _ (λ _ d' u'. IsUntouched-trans db d d' u u')
                (count_request-IsUntouched now s (s.digest ip) d)))
            (λ b d' u'. Ends-modify Left Left _ _ d' (
              limited-Ends _ _ _ (record {
                users = u'.users;
                courses = u'.courses;
                memberships = u'.memberships;
                join_codes = u'.join_codes;
                later_ids = u'.later_ids;
              }))))

abbrev pub IsWritable : ℕ → Db → Course → Type 0
IsWritable id db c = (find id db.courses ≡ some c) × (is_read_only c.status ≡ false)

abbrev pub IsLocked : ℕ → Db → Course → Db → Type 0
IsLocked id db c d = (d ≡ db) × IsWritable id db c

-- the lock passes for a course that is not archived, or its error is committed
lock_lem : (id : ℕ) (db : Db) → Ensures (IsLocked id db) (lock_joinable_course id db)
unfolding lock_joinable_course pure
lock_lem id db =
    Ensures-lookup (IsLocked id db) _ _ _ db
      (λ c f. Ensures-guard (IsLocked id db) _ _ _ db (λ g. (refl, (f, g))))

after_commit-Ends :
    {A : Type 0} (P : A → Db → Type 0) (db : Db) (o : Outcome A)
    → Ensures P o
    → Ends P (λ e d. d ≡ db) (after_commit db o)
after_commit-Ends P db (returned a d) p = p
after_commit-Ends P db (raised e) p = refl
after_commit-Ends P db (committed e d) p = absurd p

pub lock_or_refuse-Ends :
    (id : ℕ) (db : Db) → Ends (IsLocked id db) (λ e d. d ≡ db) (lock_or_refuse id db)
unfolding lock_or_refuse
lock_or_refuse-Ends id db =
    after_commit-Ends (IsLocked id db) db (lock_joinable_course id db) (lock_lem id db)
