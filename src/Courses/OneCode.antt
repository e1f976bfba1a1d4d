-- ===== src/Courses/OneCode.antt =====
-- A course has at most one join code that is not revoked, whatever is asked of its codes.
use doc_grading.Prelude.{
  some-none, ℕ, ◌≤◌, ◌≡◌, refl, sym, ap, ◌∙◌, String, false, Option, none, some, List, find, put,
  find-put_ne, find-put_cases, find_by, arith, inl, inr, Option-cases, Bool-cases,
}
use doc_grading.Models.Rows.{CourseJoinCode, AuditEvent}
use doc_grading.Models.Json.{Fields}
use doc_grading.Models.Db.{Db}
use doc_grading.Models.Tx.{tx, pure, ◌>>◌}
use doc_grading.Models.Ensures.{Ensures}
use doc_grading.Models.Hoare.{
  Ensures-guard, Ensures-lookup, Ensures-gets, Ensures-after, Ensures-modify,
}
use doc_grading.Models.Reads.{
  Reads, Reads-bind, Reads-then, Ensures-then, raise_if-Reads, Ensures-seq,
}
use doc_grading.Review.Access.{lookup-Reads, pure-Reads}
use doc_grading.Audit.{record_audit, add_event}
use doc_grading.Courses.Codes.{
  create_join_code, update_join_code, revoke_join_code, regenerate_join_code, create_code_row,
  lock_joinable_course, first_unused, put_code, revoked_code, revoke_old, is_revoked, course_code,
  has_code,
}
use doc_grading.Courses.CodeTable.{
  AreCodes, Fits, put-AreCodes, extended-Fits, revoked-Fits, HasNoCurrent, none-HasNoCurrent,
  new_code-Fits,
}
use doc_grading.Courses.Latest.{IsLatest, course_code-IsLatest, course_code-HasNoCurrent}
use doc_grading.Courses.Draws.{with_code, first_unused-fresh}

-- The codes are well formed, and the identifiers to come are no keys of them.
pub record IsCoded (db : Db) : Type 0 where
  pub codes : AreCodes db.join_codes
  pub fresh : (k : ℕ) → db.next_uuid ≤ k → find k db.join_codes ≡ none

abbrev Kept {ℓ} : {A : Type ℓ} → A → Db → Type 0
Kept _ db = IsCoded db

audited-IsCoded : (e : AuditEvent) (db : Db) → IsCoded db → IsCoded (add_event e db)
audited-IsCoded e db c = record { codes = c.codes; fresh = c.fresh }

stored_again-IsCoded :
    (id : ℕ) (row row' : CourseJoinCode) (db : Db)
    → IsCoded db
    → find id db.join_codes ≡ some row
    → Fits id row' db.join_codes
    → IsCoded (record db { join_codes = put id row' db.join_codes })
stored_again-IsCoded id row row' db c h f = record {
  codes = put-AreCodes id row' db.join_codes c.codes f;
  fresh = λ k n.
      find-put_ne id k row' db.join_codes
        (λ e. some-none h (ap (λ i. find i db.join_codes) (sym e) ∙ c.fresh k n))
      ∙ c.fresh k n;
}

with_code-IsCoded :
    (now course_id : ℕ) (code : String) (expires_at : ℕ) (db : Db)
    → IsCoded db
    → HasNoCurrent course_id db.join_codes
    → find_by (has_code code) db.join_codes ≡ none
    → IsCoded (with_code now course_id code expires_at db)
with_code-IsCoded now course_id code expires_at db c n u = record {
  codes =
      put-AreCodes db.next_uuid _ db.join_codes c.codes
        (new_code-Fits now course_id code expires_at db.next_uuid db.join_codes n u);
  fresh = λ k m.
      find-put_ne db.next_uuid k _ db.join_codes (λ e. omega (arith, e)) ∙ c.fresh k (omega arith);
}

pub lock-Reads : (course_id : ℕ) (db : Db) → Reads db (lock_joinable_course course_id db)
unfolding lock_joinable_course
lock-Reads course_id db =
    Reads-bind _ _ (lookup-Reads _ _ db)
      (λ course. Reads-then _ _ (raise_if-Reads _ _ db) (pure-Reads course db))

audited-Kept {ℓ} :
    {A : Type ℓ} (actor : ℕ) (type : String) (id : ℕ) (action : String)
    (before after : Option Fields) (reason : String) (a : A) (db : Db)
    → IsCoded db
    → Ensures Kept ((record_audit actor type id action before after reason >> pure a) db)
unfolding record_audit tx
audited-Kept actor type id action before after reason a db c = audited-IsCoded _ db c

module _ (now course_id actor_user_id : ℕ) where
  create_row-Kept :
      (draws : List String) (expires_at : ℕ) (db : Db)
      → IsCoded db
      → HasNoCurrent course_id db.join_codes
      → Ensures (λ _ db'. IsCoded db') (create_code_row now draws course_id expires_at db)
  unfolding create_code_row put_code tx
  create_row-Kept draws expires_at db c n = elim (Option-cases (first_unused draws db.join_codes)) [
    | inl e ↦ ground arith
    | inr (code, e) ↦ ground (
      arith,
      with_code-IsCoded now course_id code expires_at db c n
          (first_unused-fresh draws db.join_codes code e),
      e,
    )
  ]

  pub create_join_code-Kept :
      (draws : List String) (expires_at : ℕ) (db : Db)
      → IsCoded db
      → Ensures Kept (create_join_code now draws course_id expires_at actor_user_id db)
  unfolding create_join_code
  create_join_code-Kept draws expires_at db c = Ensures-then Kept _ _ (lock-Reads course_id db) (
      Ensures-guard Kept _ _ _ db (λ _. Ensures-gets Kept _ _ db (
        Ensures-guard Kept _ _ _ db (λ g.
          Ensures-after Kept Kept _ _ db
            (create_row-Kept draws expires_at db c
              (none-HasNoCurrent course_id db.join_codes (ground arith)))
            (λ r db' c'. audited-Kept _ _ _ _ _ _ _ _ db' c')))))

  pub update_join_code-Kept :
      (expires_at : ℕ) (db : Db)
      → IsCoded db
      → Ensures Kept (update_join_code now course_id expires_at actor_user_id db)
  unfolding update_join_code put_code
  update_join_code-Kept expires_at db c = Ensures-then Kept _ _ (lock-Reads course_id db) (
      Ensures-lookup Kept _ _ _ db (λ r e.
        let l = course_code-IsLatest course_id r.0 r.1 db.join_codes c.codes.unique e in
        Ensures-guard Kept _ _ _ db (λ _. Ensures-guard Kept _ _ _ db (λ _.
          Ensures-modify Kept _ _ db (
            audited-Kept _ _ _ _ _ _ _ _ _ (
              stored_again-IsCoded r.0 r.1 _ db c l.present
                (extended-Fits r.0 r.1 db.join_codes c.codes l.present expires_at)))))))

  pub revoke_join_code-Kept :
      (db : Db) → IsCoded db → Ensures Kept (revoke_join_code now course_id actor_user_id db)
  unfolding revoke_join_code put_code
  revoke_join_code-Kept db c = Ensures-then Kept _ _ (lock-Reads course_id db) (
      Ensures-lookup Kept _ _ _ db (λ r e.
        let l = course_code-IsLatest course_id r.0 r.1 db.join_codes c.codes.unique e in
        Ensures-guard Kept _ _ _ db (λ _. Ensures-modify Kept _ _ db (
          audited-Kept _ _ _ _ _ _ _ _ _ (
            stored_again-IsCoded r.0 r.1 _ db c l.present
              (revoked-Fits r.0 r.1 db.join_codes c.codes l.present now))))))

  -- once the old code is revoked, the course has none
  abbrev Cleared : Unit {0} → Db → Type 0
  Cleared _ db = IsCoded db × HasNoCurrent course_id db.join_codes

  revoked-HasNoCurrent :
      (id : ℕ) (row : CourseJoinCode) (db : Db)
      → IsCoded db
      → IsLatest course_id id row db.join_codes
      → is_revoked row ≡ false
      → HasNoCurrent course_id (put id (revoked_code now row) db.join_codes)
  revoked-HasNoCurrent id row db c l live j a f same =
      elim (find-put_cases id j (revoked_code now row) a db.join_codes f) [
        | inl (h, x) ↦ ap is_revoked x
        | inr (h, x) ↦ elim (Bool-cases (is_revoked a)) [
          | inl k ↦ k
          | inr k ↦
              absurd
                (h (c.codes.one_current j id a row x l.present k live (same ∙ sym l.of_course)))
        ]
      ]

  revoke_old-Cleared :
      (db : Db)
      → IsCoded db
      → (old : Option (ℕ × CourseJoinCode)) → course_code course_id db.join_codes ≡ old
      → Ensures Cleared (revoke_old now old db)
  unfolding revoke_old put_code tx
  revoke_old-Cleared db c none e =
      (c, course_code-HasNoCurrent course_id db.join_codes c.codes.unique e)
  revoke_old-Cleared db c (some (id, row)) e =
      let l = course_code-IsLatest course_id id row db.join_codes c.codes.unique e in
      elim (Bool-cases (is_revoked row)) [
        | inl h ↦ rw h (c, l.no_current h)
        | inr h ↦ rw h (
          stored_again-IsCoded id row _ db c l.present
              (revoked-Fits id row db.join_codes c.codes l.present now),
          revoked-HasNoCurrent id row db c l h,
        )
      ]

  pub regenerate_join_code-Kept :
      (draws : List String) (expires_at : ℕ) (db : Db)
      → IsCoded db
      → Ensures Kept (regenerate_join_code now draws course_id expires_at actor_user_id db)
  unfolding regenerate_join_code
  regenerate_join_code-Kept draws expires_at db c =
      Ensures-then Kept _ _ (lock-Reads course_id db) (
        Ensures-guard Kept _ _ _ db (λ _. Ensures-gets Kept _ _ db (
          Ensures-seq Cleared Kept _ _ db (revoke_old-Cleared db c _ refl) (λ _ db' q.
            Ensures-after Kept Kept _ _ db' (create_row-Kept draws expires_at db' q.0 q.1)
              (λ r db'' c'. audited-Kept _ _ _ _ _ _ _ _ db'' c')))))
