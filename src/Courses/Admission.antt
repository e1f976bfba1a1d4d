-- ===== src/Courses/Admission.antt =====
-- The ends of `join_course`, backend/app/services/course_join.py: an active membership, or a refusal
-- that is committed with the counts of the limit and nothing else.
use doc_grading.Prelude.{
  ℕ, ◌<◌, ◌≡◌, ◌≢◌, refl, sym, ap, ◌∙◌, subst, String, Bool, true, false, Option, none, some, find,
  find_by, find-find_by, find-put_self, find-put_ne, HasUniqueKeys, Table, arith, inl, inr,
  Bool-cases, ==_iff, eq_iff,
}
use doc_grading.Models.Enums.{JoinedVia}
use doc_grading.Models.Rows.{User, Course, Membership, CourseJoinCode}
use doc_grading.Models.Db.{Db}
use doc_grading.Models.Tx.{tx, Error, pure}
use doc_grading.Models.Ensures.{Ensures, Ensures-mono}
use doc_grading.Models.Hoare.{Ensures-after}
use doc_grading.Models.Ends.{
  Ends-seq, Ends, Ends-mono, Ends-guard, Ends-gets, Ends-reads, Ensures-Ends,
}
use doc_grading.Audit.{record_audit}
use doc_grading.Courses.{Folding, put_membership, is_membership_of, is_active_member, is_read_only}
use doc_grading.Courses.Codes.{normalize_join_code, has_code, is_revoked, is_past_expiry}
use doc_grading.Courses.Members.{new_membership, rejoined}
use doc_grading.Courses.Joining.{
  JoinSettings, join_course, redeem, lock_or_refuse, Joined, admit, admit_new,
}
use doc_grading.Courses.Untouched.{
  IsUntouched, IsUntouched-trans, untouched, enforce-Ends, Left, Ends-refuse, Ends-or_refuse,
  IsWritable, IsLocked, lock_or_refuse-Ends,
}

-- the membership that the answer is about
abbrev pub member_of : Joined → ℕ
member_of (Joined.new_member id) = id
member_of (Joined.rejoined_member id) = id
member_of (Joined.already_member id) = id

-- the memberships stay if the user was a member already
abbrev Stays : Joined → Table Membership → Table Membership → Type 0
Stays (Joined.already_member id) before after = after ≡ before
Stays _ before after = Unit

-- The user has an active membership of the course, and the other memberships are as they were.
pub record IsAdmitted (course_id user_id : ℕ) (before : Table Membership) (outcome : Joined)
    (after : Table Membership) : Type 0 where
  pub membership : Membership
  pub stored : find (member_of outcome) after ≡ some membership
  pub of_course : membership.course_id ≡ course_id
  pub of_user : membership.user_id ≡ user_id
  pub active : is_active_member membership ≡ true
  pub others : (j : ℕ) → j ≢ member_of outcome → find j after ≡ find j before
  pub stays : Stays outcome before after

membership_lem :
    (c u : ℕ) (m : Membership) → is_membership_of c u m ≡ true → (m.course_id ≡ c) × (m.user_id ≡ u)
membership_lem c u m h = (ground (arith, ==_iff m.course_id c), ground (arith, ==_iff m.user_id u))

module _ (now course_id user_id : ℕ) (db : Db) where
  abbrev Admitted : Joined → Db → Type 0
  Admitted o db' = IsAdmitted course_id user_id db.memberships o db'.memberships

  admit_new-IsAdmitted : Ensures Admitted (admit_new now course_id user_id db)
  unfolding admit_new put_membership record_audit tx
  admit_new-IsAdmitted = record {
    membership = new_membership now JoinedVia.code course_id user_id;
    stored = find-put_self db.next_uuid _ db.memberships;
    of_course = refl;
    of_user = refl;
    active = refl;
    others = λ j n. find-put_ne db.next_uuid j _ db.memberships n;
    stays = tt;
  }

  admit-IsAdmitted :
      (o : Option (ℕ × Membership))
      → HasUniqueKeys db.memberships
      → find_by (is_membership_of course_id user_id) db.memberships ≡ o
      → Ensures Admitted (admit now course_id user_id o db)
  unfolding admit put_membership record_audit tx
  admit-IsAdmitted none unique e = admit_new-IsAdmitted
  admit-IsAdmitted (some (id, m)) unique e =
      let f = find-find_by (is_membership_of course_id user_id) db.memberships unique e in
      let (c, u) = membership_lem course_id user_id m f.1 in
      elim (Bool-cases (is_active_member m)) [
        | inl h ↦ rw h (record {
          membership = m;
          stored = f.0;
          of_course = c;
          of_user = u;
          active = h;
          others = λ j n. refl;
          stays = refl;
        })
        | inr h ↦ rw h (record {
          membership = rejoined now JoinedVia.code m;
          stored = find-put_self id _ db.memberships;
          of_course = c;
          of_user = u;
          active = refl;
          others = λ j n. find-put_ne id j _ db.memberships n;
          stays = tt;
        })
      ]

-- The code is stored, is not revoked and has not expired; its course is not archived, and the user
-- has an active membership of it.
pub record IsJoined (now user_id : ℕ) (code : String) (db : Db) (r : Joined × ℕ) (db' : Db)
    : Type 0 where
  pub code_id : ℕ
  pub row : CourseJoinCode
  pub stored_code : find code_id db.join_codes ≡ some row
  pub has_text : row.code ≡ code
  pub of_course : row.course_id ≡ r.1
  pub live : is_revoked row ≡ false
  pub in_time : now < row.expires_at
  pub course : Course
  pub found : find r.1 db.courses ≡ some course
  pub writable : is_read_only course.status ≡ false
  pub admitted : IsAdmitted r.1 user_id db.memberships r.0 db'.memberships

module _ (now user_id : ℕ) (code : String) (db : Db) (members : HasUniqueKeys db.memberships)
    (codes : HasUniqueKeys db.join_codes) where
  abbrev Q : Joined × ℕ → Db → Type 0
  Q r db' = IsJoined now user_id code db r db'

  abbrev E : Error → Db → Type 0
  E _ db' = IsUntouched db db'

  redeemed-IsJoined :
      (code_id : ℕ) (located row : CourseJoinCode) (course : Course)
      → find_by (has_code code) db.join_codes ≡ some (code_id, located)
      → find code_id db.join_codes ≡ some row
      → find located.course_id db.courses ≡ some course
      → is_read_only course.status ≡ false
      → is_revoked row ≡ false
      → is_past_expiry now row.expires_at ≡ false
      → (o : Joined) (db' : Db)
      → IsAdmitted located.course_id user_id db.memberships o db'.memberships
      → Q (o, located.course_id) db'
  redeemed-IsJoined code_id located row course f g k w live fresh o db' a =
      let h = find-find_by (has_code code) db.join_codes codes f in
      let same : some located ≡ some row = sym h.0 ∙ g in
      let p : located ≡ row = cc in
      record {
        code_id = code_id;
        row = row;
        stored_code = g;
        has_text = ap (λ z. z.code) (sym p) ∙ (eq_iff located.code code).0 h.1;
        of_course = ap (λ z. z.course_id) (sym p);
        live = live;
        in_time = ground (arith, fresh);
        course = course;
        found = k;
        writable = w;
        admitted = a;
      }

  writable-Ends : (id : ℕ) → Ends (IsLocked id db) E (lock_or_refuse id db)
  writable-Ends id =
      Ends-mono (IsLocked id db) (IsLocked id db) (λ e d. d ≡ db) E (lock_or_refuse id db)
        (λ c d k. k) (λ e d k. subst (IsUntouched db) (sym k) (untouched db))
        (lock_or_refuse-Ends id db)

  -- Whatever holds of an admission, holds of what is returned.
  pub redeem-by :
      (R : Joined × ℕ → Db → Type 0)
      → ((l : ℕ × CourseJoinCode) (row : CourseJoinCode) (course : Course)
          → find_by (has_code code) db.join_codes ≡ some l
          → find l.0 db.join_codes ≡ some row
          → IsWritable l.1.course_id db course
          → is_revoked row ≡ false
          → is_past_expiry now row.expires_at ≡ false
          → Ensures
              (λ o db'. R (o, l.1.course_id) db')
              (admit now l.1.course_id user_id
                (find_by (is_membership_of l.1.course_id user_id) db.memberships)
                db))
      → Ends R E (redeem now user_id code db)
  unfolding redeem pure
  redeem-by R admits = Ends-refuse R E _ _ _ db (untouched db) (λ shape. Ends-gets R E _ _ db (
      Ends-or_refuse R E _ _ _ db (untouched db) (λ l f.
        Ends-reads R E (IsWritable l.1.course_id db) (lock_or_refuse l.1.course_id) _ db
          (writable-Ends l.1.course_id)
          (λ course k. Ends-gets R E _ _ db (
            Ends-or_refuse R E _ _ _ db (untouched db) (λ row g.
              Ends-refuse R E _ _ _ db (untouched db) (λ live.
                Ends-refuse R E _ _ _ db (untouched db) (λ fresh. Ends-gets R E _ _ db (
                  Ensures-Ends R E _ (
                    Ensures-after (λ o db'. R (o, l.1.course_id) db') R _ _ db
                      (admits l row course f g k live fresh) (λ o db' r. r)))))))))))

  redeem-Ends : Ends Q E (redeem now user_id code db)
  redeem-Ends = redeem-by Q (λ l row course f g k live fresh.
      Ensures-mono (Admitted now l.1.course_id user_id db) _ _
        (λ o db' a. redeemed-IsJoined l.0 l.1 row course f g k.0 k.1 live fresh o db' a)
        (admit-IsAdmitted now l.1.course_id user_id db _ members refl))

module _ (now : ℕ) (s : JoinSettings) (fold : Folding) (uuid_text : ℕ → String) (locked : ℕ → Bool)
    (code : String) (user_id : ℕ) (user : User) (client : Option String) (db : Db) where
  abbrev JoinedBy : Joined × ℕ → Db → Type 0
  JoinedBy r db' = IsJoined now user_id (normalize_join_code fold code) db r db'

  moved-IsJoined :
      (d : Db)
      → IsUntouched db d
      → (r : Joined × ℕ) (db' : Db) → IsJoined now user_id (normalize_join_code fold code) d r db'
      → JoinedBy r db'
  moved-IsJoined d u r db' j = record {
    code_id = j.code_id;
    row = j.row;
    stored_code = ap (find j.code_id) (sym u.join_codes) ∙ j.stored_code;
    has_text = j.has_text;
    of_course = j.of_course;
    live = j.live;
    in_time = j.in_time;
    course = j.course;
    found = ap (find r.1) (sym u.courses) ∙ j.found;
    writable = j.writable;
    admitted = subst (λ t. IsAdmitted r.1 user_id t r.0 db'.memberships) u.memberships j.admitted;
  }

  -- If joining a course returns, then the code, as it is normalized, is stored, is not revoked and has
  -- not expired, its course is not archived, and the user has an active membership of this course,
  -- while all other memberships, and all if the user was a member already, are as they were. If it
  -- commits and then raises, then no user, course, membership or code has changed.
  pub join_course-Ends :
      HasUniqueKeys db.memberships
      → HasUniqueKeys db.join_codes
      → Ends JoinedBy
          (λ e db'. IsUntouched db db')
          (join_course now s fold uuid_text locked code user_id user client db)
  unfolding join_course
  join_course-Ends members codes = Ends-guard JoinedBy Refused _ _ _ db (λ student.
      Ends-seq JoinedBy Refused (Left now s locked "" "" db) _ _ db
        (enforce-Ends now s locked _ _ db)
        (λ _ d u.
          Ends-mono (λ r db'. IsJoined now user_id (normalize_join_code fold code) d r db') JoinedBy
            _ Refused _ (λ r db' j. moved-IsJoined d u r db' j)
            (λ e db' v. IsUntouched-trans db d db' u v)
            (redeem-Ends now user_id (normalize_join_code fold code) d
              (subst HasUniqueKeys (sym u.memberships) members)
              (subst HasUniqueKeys (sym u.join_codes) codes))))
    where
      Refused : Error → Db → Type 0
      Refused _ db' = IsUntouched db db'
