-- ===== src/Review/Exclusion.antt =====
-- A live review lock keeps every other reviewer out.
use doc_grading.Prelude.{
  ℕ, ◌<◌, ◌≡◌, ◌≢◌, refl, true, false, not, ◌&&◌, Option, none, some, List, [], ◌∷◌, All, find,
  find-put_ne, find-remove, put, remove, sym, subst, ◌⊎◌, ◌≤◌, ◌==◌, leb, arith, Bool-cases,
  Option-cases, inl, inr, ==_iff,
}
use doc_grading.Models.Enums.{has_role, is_admin}
use doc_grading.Models.Rows.{User, ReviewLock}
use doc_grading.Models.Db.{Db}
use doc_grading.Models.Tx.{Outcome, returned, raised, committed, persisted, tx, pure, raise, ◌>>◌}
use doc_grading.Models.Ensures.{Ensures}
use doc_grading.Models.Reads.{Reads, Reads-then, Ensures-then, Ensures-bind}
use doc_grading.Review.Access.{submission_for_review-Reads}
use doc_grading.Review.Locks.{
  acquire_review_lock, acquire_row, heartbeat_review_lock, release_review_lock, release_row,
  require_review_lock, require_row, put_lock, delete_lock, is_live, LockResponse, not_held,
  held_by_another,
}

pub data LockRequest : Type 0 where
  acquire heartbeat release : ℕ → LockRequest

-- the database after one request of a reviewer at the time `now`
pub serve : ℕ → ℕ → User → LockRequest → Db → Db
serve now user_id user (LockRequest.acquire id) db =
    persisted db (acquire_review_lock now id user_id user db)
serve now user_id user (LockRequest.heartbeat id) db =
    persisted db (heartbeat_review_lock now id user_id user db)
serve now user_id user (LockRequest.release id) db =
    persisted db (release_review_lock now id user_id user db)

pub serve_all : List (ℕ × ℕ × User × LockRequest) → Db → Db
serve_all [] db = db
serve_all ((now, user_id, user, r) ∷ rs) db = serve_all rs (serve now user_id user r db)

-- a request before `until` by someone who is neither the holder nor an administrator
abbrev pub IsOther : ℕ → ℕ → ℕ × ℕ × User × LockRequest → Type 0
IsOther until holder (now, user_id, user, r) =
    (now < until) × (user_id ≢ holder) × (has_role is_admin user.roles ≡ false)

-- what `_require_review_lock` has checked
pub record IsHeld (now id user_id : ℕ) (db : Db) (lock : ReviewLock) : Type 0 where
  pub present : find id db.review_locks ≡ some lock
  pub own : lock.reviewer_user_id ≡ user_id
  pub live : now < lock.expires_at

module _ (now id user_id : ℕ) (user : User) (db : Db) where
  require_row-IsHeld :
      (row : Option ReviewLock)
      → find id db.review_locks ≡ row
      → Reads db (require_row now user_id row db)
        × Ensures (λ l _. IsHeld now id user_id db l) (require_row now user_id row db)
  unfolding raise pure
  require_row-IsHeld none e = (Reads.stopped not_held refl, tt)
  require_row-IsHeld (some row) e = elim (Bool-cases (leb row.expires_at now)) [
    | inl h ↦ rw h (Reads.stopped not_held refl, tt)
    | inr h ↦ rw h (elim (Bool-cases (row.reviewer_user_id == user_id)) [
      | inr k ↦ rw k (Reads.stopped held_by_another refl, tt)
      | inl k ↦ rw k (
        Reads.read row refl,
        record {
          present = e;
          own = (==_iff row.reviewer_user_id user_id).0 k;
          live = ground arith;
        },
      )
    ])
  ]

  pub require_review_lock-Reads : Reads db (require_review_lock now id user_id user db)
  unfolding require_review_lock
  require_review_lock-Reads =
      Reads-then _ _ (submission_for_review-Reads id user_id user true db)
        (require_row-IsHeld (find id db.review_locks) refl).0

  -- If the check of the review lock passes, then the caller holds the lock, and it has not expired.
  pub require_review_lock-IsHeld :
      Ensures (λ l _. IsHeld now id user_id db l) (require_review_lock now id user_id user db)
  unfolding require_review_lock
  require_review_lock-IsHeld =
      Ensures-then _ _ _ (submission_for_review-Reads id user_id user true db)
        (require_row-IsHeld (find id db.review_locks) refl).1

module _ (s : ℕ) (lock : ReviewLock) where
  abbrev Keeps {ℓ} : {A : Type ℓ} → A → Db → Type 0
  Keeps _ db' = find s db'.review_locks ≡ some lock

  module _ (now user_id : ℕ) (user : User) (db : Db) (live : now < lock.expires_at)
      (other : user_id ≢ lock.reviewer_user_id) (held : find s db.review_locks ≡ some lock) where
    put_other : (id : ℕ) (l : ReviewLock) → id ≢ s → find s (put id l db.review_locks) ≡ some lock
    put_other id l h = rw (find-put_ne id s l db.review_locks (λ e. h (sym e))) held

    remove_other : (id : ℕ) → id ≢ s → find s (remove id db.review_locks) ≡ some lock
    remove_other id h = ground (arith, find-remove id s db.review_locks, ==_iff s id)

    -- the row of the lock `s` is the one that the other reviewer meets there
    is_elsewhere :
        (id : ℕ) (row : ReviewLock)
        → find id db.review_locks ≡ some row
        → (row.reviewer_user_id ≡ user_id) ⊎ (row.expires_at ≤ now)
        → id ≢ s
    is_elsewhere id row e h q = ground arith

    acquire_row-Keeps :
        (id : ℕ) (row : Option ReviewLock)
        → find id db.review_locks ≡ row
        → Ensures Keeps (acquire_row now id user_id row db)
    unfolding put_lock tx
    acquire_row-Keeps id none e = put_other id _ (λ q. cc)
    acquire_row-Keeps id (some row) e =
        elim (Bool-cases (is_live now row && not (row.reviewer_user_id == user_id))) [
          | inl h ↦ elim (Option-cases (find row.reviewer_user_id db.users)) [
            | inl u ↦ ground arith
            | inr (u, f) ↦ ground arith
          ]
          | inr h ↦ rw h (put_other id _ (is_elsewhere id row e (ground arith)))
        ]

    renew_other :
        (id : ℕ) (l : ReviewLock) (r : LockResponse)
        → id ≢ s
        → Ensures Keeps ((put_lock id l >> pure r) db)
    unfolding put_lock tx
    renew_other id l r h = put_other id l h

    heartbeat-Keeps : (id : ℕ) → Ensures Keeps (heartbeat_review_lock now id user_id user db)
    unfolding heartbeat_review_lock
    heartbeat-Keeps id =
        Ensures-bind Keeps _ _ (require_review_lock-Reads now id user_id user db)
          (λ l e. renew_other id _ _ (is_elsewhere id l (own l e).present (inl (own l e).own)))
      where
        own :
            (l : ReviewLock)
            → require_review_lock now id user_id user db ≡ returned l db
            → IsHeld now id user_id db l
        own l e =
            subst (Ensures (λ l _. IsHeld now id user_id db l)) e
              (require_review_lock-IsHeld now id user_id user db)

    release_row-Keeps :
        has_role is_admin user.roles ≡ false
        → (id : ℕ) (row : Option ReviewLock) → find id db.review_locks ≡ row
        → Ensures Keeps (release_row now id user_id user row db)
    unfolding delete_lock tx
    release_row-Keeps na id none e = tt
    release_row-Keeps na id (some row) e = rw na (elim (Bool-cases (leb row.expires_at now)) [
      | inl h ↦ rw h tt
      | inr h ↦ rw h (elim (Bool-cases (row.reviewer_user_id == user_id)) [
        | inr k ↦ rw k tt
        | inl k ↦ rw k (
            remove_other id
              (is_elsewhere id row e (inl ((==_iff row.reviewer_user_id user_id).0 k))))
      ])
    ])

    persisted-Keeps : {A : Type 0} (o : Outcome A) → Ensures Keeps o → Keeps {0} tt (persisted db o)
    persisted-Keeps (returned a db') k = k
    persisted-Keeps (raised e) k = held
    persisted-Keeps (committed e db') k = absurd k

    serve-Keeps :
        has_role is_admin user.roles ≡ false
        → (r : LockRequest) → Keeps {0} tt (serve now user_id user r db)
    unfolding serve acquire_review_lock release_review_lock
    serve-Keeps na (LockRequest.acquire id) = persisted-Keeps _ (
        Ensures-then Keeps _ _ (submission_for_review-Reads id user_id user true db)
          (acquire_row-Keeps id (find id db.review_locks) refl))
    serve-Keeps na (LockRequest.heartbeat id) = persisted-Keeps _ (heartbeat-Keeps id)
    serve-Keeps na (LockRequest.release id) = persisted-Keeps _ (
        Ensures-then Keeps _ _ (submission_for_review-Reads id user_id user false db)
          (release_row-Keeps na id (find id db.review_locks) refl))

  -- A lock that has not expired stays as it is, whatever reviewers other than its holder request,
  -- administrators apart, on this and on any other submission.
  pub serve_all-keeps :
      (rs : List (ℕ × ℕ × User × LockRequest)) (db : Db)
      → All (IsOther lock.expires_at lock.reviewer_user_id) rs
      → find s db.review_locks ≡ some lock
      → find s (serve_all rs db).review_locks ≡ some lock
  unfolding serve_all
  serve_all-keeps [] db h e = e
  serve_all-keeps ((now, user_id, user, r) ∷ rs) db h e =
      serve_all-keeps rs (serve now user_id user r db) h.1
        (serve-Keeps now user_id user db h.0.0 h.0.1 e h.0.2 r)
