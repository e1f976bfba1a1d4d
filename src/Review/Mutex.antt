-- ===== src/Review/Mutex.antt =====
-- An acquired review lock excludes the other reviewers for its ten minutes.
use doc_grading.Prelude.{
  ℕ, ◌+◌, ◌<◌, ◌≡◌, ◌≢◌, refl, sym, subst, ◌∙◌, true, false, not, ◌&&◌, Option, none, some, List,
  All, find, find-put_self, ◌==◌, arith, Bool-cases, Option-cases, inl, inr,
}
use doc_grading.Models.Rows.{User, ReviewLock}
use doc_grading.Models.Db.{Db}
use doc_grading.Models.Tx.{tx, pure, ◌>>◌}
use doc_grading.Models.Ensures.{Ensures, Ensures-mono}
use doc_grading.Models.Reads.{Ensures-then}
use doc_grading.Review.Access.{submission_for_review-Reads}
use doc_grading.Review.Locks.{
  acquire_review_lock, acquire_row, lock_response, renewed, put_lock, lock_ttl, is_live,
  LockResponse,
}
use doc_grading.Review.Exclusion.{serve_all, serve_all-keeps, IsOther, LockRequest}

-- The reviewer holds the submission until `until`.
pub record Holds (s user_id until : ℕ) (db : Db) : Type 0 where
  pub lock : ReviewLock
  pub present : find s db.review_locks ≡ some lock
  pub own : lock.reviewer_user_id ≡ user_id
  pub expires : lock.expires_at ≡ until

module _ (now s user_id : ℕ) (user : User) (db : Db) where
  abbrev IsGrant : LockResponse → Db → Type 0
  IsGrant r db' = r.acquired ≡ true → Holds s user_id (now + lock_ttl) db'

  granted :
      (lock : ReviewLock) (r : LockResponse) (db' : Db)
      → lock.reviewer_user_id ≡ user_id
      → lock.expires_at ≡ now + lock_ttl
      → Ensures IsGrant ((put_lock s lock >> pure r) db')
  unfolding put_lock tx
  granted lock r db' o e = λ _. record {
    lock = lock;
    present = find-put_self s lock db'.review_locks;
    own = o;
    expires = e;
  }

  acquire_row-IsGrant :
      (row : Option ReviewLock) → Ensures IsGrant (acquire_row now s user_id row db)
  unfolding put_lock tx
  acquire_row-IsGrant none = λ _. record {
    lock = _;
    present = find-put_self s _ db.review_locks;
    own = refl;
    expires = refl;
  }
  acquire_row-IsGrant (some row) =
      elim (Bool-cases (is_live now row && not (row.reviewer_user_id == user_id))) [
        | inl h ↦ elim (Option-cases (find row.reviewer_user_id db.users)) [
          | inl u ↦ ground arith
          | inr (u, f) ↦ ground arith
        ]
        | inr h ↦ rw h (granted _ (lock_response s (renewed now user_id row) true) db refl refl)
      ]

  -- A granted lock belongs to the reviewer, for ten minutes.
  pub acquire_review_lock-IsGrant : Ensures IsGrant (acquire_review_lock now s user_id user db)
  unfolding acquire_review_lock
  acquire_review_lock-IsGrant =
      Ensures-then IsGrant _ _ (submission_for_review-Reads s user_id user true db)
        (acquire_row-IsGrant (find s db.review_locks))

module _ (now s other : ℕ) (user : User) (db : Db) (lock : ReviewLock)
    (held : find s db.review_locks ≡ some lock) (live : now < lock.expires_at)
    (foreign : other ≢ lock.reviewer_user_id) where
  refused-row :
      Ensures (λ r db'. (r.acquired ≡ false) × (db' ≡ db)) (acquire_row now s other (some lock) db)
  unfolding tx
  refused-row = elim (Option-cases (find lock.reviewer_user_id db.users)) [
    | inl u ↦ ground arith
    | inr (u, f) ↦ ground arith
  ]

  -- A reviewer who meets the live lock of another is refused, and changes nothing.
  pub acquire_review_lock-refused :
      Ensures (λ r db'. (r.acquired ≡ false) × (db' ≡ db)) (acquire_review_lock now s other user db)
  unfolding acquire_review_lock
  acquire_review_lock-refused =
      Ensures-then (λ r db'. (r.acquired ≡ false) × (db' ≡ db)) _ _
        (submission_for_review-Reads s other user true db) (rw held refused-row)

-- If a reviewer has been granted the lock of a submission, and since then only others than this
-- reviewer have made requests, none of them an administrator and all within ten minutes, then
-- within these minutes nobody else is granted the lock, and a refused request changes nothing.
pub acquired-excludes :
    (then_ now s holder other : ℕ) (holding user : User) (db : Db)
    (rs : List (ℕ × ℕ × User × LockRequest))
    → now < then_ + lock_ttl
    → other ≢ holder
    → All (IsOther (then_ + lock_ttl) holder) rs
    → Ensures
        (λ granted db'.
          granted.acquired ≡ true
          → Ensures
              (λ r db''. (r.acquired ≡ false) × (db'' ≡ serve_all rs db'))
              (acquire_review_lock now s other user (serve_all rs db')))
        (acquire_review_lock then_ s holder holding db)
acquired-excludes then_ now s holder other holding user db rs soon foreign others =
    Ensures-mono (IsGrant then_ s holder holding db) _ _
      (λ granted db' grant acquired.
        let h = grant acquired in
        acquire_review_lock-refused now s other user (serve_all rs db') h.lock
          (serve_all-keeps s h.lock rs db'
            (subst (λ t. All (IsOther t h.lock.reviewer_user_id) rs) (sym h.expires)
              (subst (λ u. All (IsOther (then_ + lock_ttl) u) rs) (sym h.own) others))
            h.present)
          (rw h.expires soon) (λ e. foreign (e ∙ h.own)))
      (acquire_review_lock-IsGrant then_ s holder holding db)
