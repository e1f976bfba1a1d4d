-- ===== src/Courses/OneEach.antt =====
-- What is asked of the members of courses leaves one membership of a student in a course at most:
-- `add_member` and `remove_member` of backend/app/services/course.py, `join_course` of
-- course_join.py.
use doc_grading.Prelude.{
  ℕ, ◌≡◌, refl, sym, ap, subst, String, Bool, Option, none, some, find_by, find-find_by,
  HasUniqueKeys, arith, inl, inr, Bool-cases,
}
use doc_grading.Models.Enums.{JoinedVia}
use doc_grading.Models.Json.{Fields}
use doc_grading.Models.Rows.{User, Membership, CourseInvite}
use doc_grading.Models.Db.{Db}
use doc_grading.Models.Tx.{tx, Error, pure, modify, ◌>>◌}
use doc_grading.Models.Ensures.{Ensures}
use doc_grading.Models.Hoare.{
  Ensures-guard, Ensures-lookup, Ensures-gets, Ensures-modify, Ensures-uuid,
}
use doc_grading.Models.Reads.{
  Reads, Reads-bind, Reads-then, Ensures-then, raise_if-Reads, Ensures-seq,
}
use doc_grading.Models.Ends.{Ends-seq, Ends, Ends-mono, Ends-guard}
use doc_grading.Review.Access.{lookup-Reads, pure-Reads}
use doc_grading.Audit.{record_audit}
use doc_grading.Courses.{
  Folding, lock_active_course, put_membership, is_membership_of, is_active_member,
}
use doc_grading.Courses.Codes.{normalize_join_code}
use doc_grading.Courses.Members.{
  add_member, remove_member, add_user, invite, enrol, drop_invite, removed_member,
}
use doc_grading.Courses.Joining.{
  enforce_join_rate_limit, JoinSettings, join_course, admit, admit_new,
}
use doc_grading.Courses.Untouched.{IsUntouched, enforce-Ends, Left}
use doc_grading.Courses.Admission.{redeem-by}
use doc_grading.Courses.Roster.{IsRoster, moved-IsRoster, stored_again-IsRoster, new-IsRoster}

abbrev Kept {ℓ} : {A : Type ℓ} → A → Db → Type 0
Kept _ db = IsRoster db

audited-Kept {ℓ} :
    {A : Type ℓ} (actor : ℕ) (type : String) (id : ℕ) (action : String)
    (before after : Option Fields) (reason : String) (a : A) (db : Db)
    → IsRoster db
    → Ensures Kept ((record_audit actor type id action before after reason >> pure a) db)
unfolding record_audit tx
audited-Kept actor type id action before after reason a db r =
    moved-IsRoster db _ refl (omega arith) r

lock-Reads :
    (course_id : ℕ) (revision : Option ℕ) (db : Db)
    → Reads db (lock_active_course course_id revision db)
unfolding lock_active_course
lock-Reads course_id revision db = Reads-bind _ _ (lookup-Reads _ _ db) (λ course.
    Reads-then _ _ (raise_if-Reads _ _ db)
      (Reads-then _ _ (raise_if-Reads _ _ db) (pure-Reads course db)))

module _ (now course_id user_id : ℕ) where
  admit-Kept :
      (db : Db)
      → IsRoster db
      → (o : Option (ℕ × Membership))
      → find_by (is_membership_of course_id user_id) db.memberships ≡ o
      → Ensures Kept (admit now course_id user_id o db)
  unfolding admit admit_new put_membership record_audit tx
  admit-Kept db r none e =
      moved-IsRoster _ _ refl (omega arith)
        (new-IsRoster now JoinedVia.code course_id user_id db r e)
  admit-Kept db r (some (id, m)) e = elim (Bool-cases (is_active_member m)) [
    | inl h ↦ rw h r
    | inr h ↦ rw h (
        moved-IsRoster _ _ refl (omega arith) (
          stored_again-IsRoster id m _ db r
            (find-find_by (is_membership_of course_id user_id) db.memberships r.unique e).0 refl
            refl))
  ]

module _ (now : ℕ) (fold : Folding) (course_id actor_user_id : ℕ) (email : String)
    (reason : Option String) where
  invite-Kept :
      (db : Db)
      → IsRoster db
      → Ensures Kept (invite now fold course_id actor_user_id email reason db)
  unfolding invite
  invite-Kept db r = Ensures-gets Kept _ _ db (
      Ensures-guard Kept _ _ _ db (λ _. Ensures-uuid Kept _ db (
        Ensures-modify Kept _ _ _
          (audited-Kept _ _ _ _ _ _ _ _ _ (moved-IsRoster db _ refl (omega arith) r)))))

  enrol-Kept :
      (user_id : ℕ) (db : Db)
      → IsRoster db
      → (o : Option (ℕ × Membership))
      → find_by (is_membership_of course_id user_id) db.memberships ≡ o
      → Ensures Kept (enrol now fold course_id actor_user_id email reason user_id o db)
  unfolding enrol put_membership record_audit tx
  enrol-Kept user_id db r none e =
      moved-IsRoster _ _ refl (omega arith)
        (new-IsRoster now JoinedVia.manual course_id user_id db r e)
  enrol-Kept user_id db r (some (id, m)) e = moved-IsRoster _ _ refl (omega arith) (
      stored_again-IsRoster id m _ db r
        (find-find_by (is_membership_of course_id user_id) db.memberships r.unique e).0 refl refl)

  drop_invite-keeps :
      (o : Option (ℕ × CourseInvite)) (db : Db)
      → IsRoster db
      → Ensures (λ _ db'. IsRoster db' × (db'.memberships ≡ db.memberships)) (drop_invite o db)
  unfolding drop_invite tx
  drop_invite-keeps none db r = (r, refl)
  drop_invite-keeps (some (id, i)) db r = (moved-IsRoster db _ refl (omega arith) r, refl)

  add_user-Kept :
      (o : Option (ℕ × User)) (db : Db)
      → IsRoster db
      → Ensures Kept (add_user now fold course_id actor_user_id email reason o db)
  unfolding add_user
  add_user-Kept none db r = invite-Kept db r
  add_user-Kept (some (user_id, user)) db r = Ensures-guard Kept _ _ _ db (λ _.
      Ensures-gets Kept _ _ db (
        Ensures-guard Kept _ _ _ db (λ _. Ensures-gets Kept _ _ db (
          Ensures-seq (λ _ db'. IsRoster db' × (db'.memberships ≡ db.memberships)) Kept _ _ db
            (drop_invite-keeps _ db r)
            (λ _ db' k.
              enrol-Kept user_id db' k.0 _
                (ap (find_by (is_membership_of course_id user_id)) k.1))))))

pub add_member-Kept :
    (now : ℕ) (fold : Folding) (course_id actor_user_id : ℕ) (email : String)
    (reason : Option String) (db : Db)
    → IsRoster db
    → Ensures Kept (add_member now fold course_id actor_user_id email reason db)
unfolding add_member
add_member-Kept now fold course_id actor_user_id email reason db r =
    Ensures-then Kept _ _ (lock-Reads course_id none db)
      (Ensures-gets Kept _ _ db (add_user-Kept now fold course_id actor_user_id _ _ _ db r))

pub remove_member-Kept :
    (course_id user_id actor_user_id : ℕ) (reason : Option String) (db : Db)
    → IsRoster db
    → Ensures Kept (remove_member course_id user_id actor_user_id reason db)
unfolding remove_member put_membership record_audit modify
remove_member-Kept course_id user_id actor_user_id reason db r =
    Ensures-then Kept _ _ (lock-Reads course_id none db) (
      Ensures-lookup Kept _ _ _ db (λ m e. Ensures-guard Kept _ _ _ db (λ _.
        Ensures-modify Kept _ _ db (
          moved-IsRoster _ _ refl (omega arith) (
            stored_again-IsRoster m.0 m.1 (removed_member m.1) db r
              (find-find_by (is_membership_of course_id user_id) db.memberships r.unique e).0 refl
              refl)))))

module _ (now : ℕ) (s : JoinSettings) (fold : Folding) (uuid_text : ℕ → String) (locked : ℕ → Bool)
    (code : String) (user_id : ℕ) (user : User) (client : Option String) (db : Db) where
  abbrev KeptError : Error → Db → Type 0
  KeptError _ db' = IsRoster db'

  untouched-IsRoster : (d d' : Db) → IsRoster d → IsUntouched d d' → IsRoster d'
  untouched-IsRoster d d' r u = moved-IsRoster d d' u.memberships u.later_ids r

  enforced :
      (account ip : String)
      → IsRoster db
      → Ends
          (λ _ d. IsUntouched db d)
          KeptError
          (enforce_join_rate_limit now s locked account ip db)
  enforced account ip r =
      Ends-mono (λ _ d. IsUntouched db d) (λ _ d. IsUntouched db d) (λ _ d. IsUntouched db d)
        KeptError (enforce_join_rate_limit now s locked account ip db) (λ a d u. u)
        (λ e d u. untouched-IsRoster db d r u) (enforce-Ends now s locked account ip db)

  pub join_course-Kept :
      IsRoster db
      → HasUniqueKeys db.join_codes
      → Ends Kept KeptError (join_course now s fold uuid_text locked code user_id user client db)
  unfolding join_course
  join_course-Kept r codes = Ends-guard Kept KeptError _ _ _ db (λ student.
      Ends-seq Kept KeptError (Left now s locked "" "" db) _ _ db (enforced _ _ r) (λ _ d u.
        Ends-mono _ Kept _ KeptError _ (λ a d' k. k)
          (λ e d' v. untouched-IsRoster d d' (untouched-IsRoster db d r u) v)
          (redeem-by now user_id (normalize_join_code fold code) d
            (untouched-IsRoster db d r u).unique (subst HasUniqueKeys (sym u.join_codes) codes) Kept
            (λ l row course f g k live fresh.
              admit-Kept now l.1.course_id user_id d (untouched-IsRoster db d r u) _ refl))))
