-- ===== src/Notifications/Reading.antt =====
-- Reading touches only the reader's own unread notifications.
use doc_grading.Prelude.{
  ℕ, ◌≡◌, ◌≢◌, refl, sym, subst, true, false, any, Option, none, some, List, [], ◌∷◌, find, ◌==◌,
  ==_iff, arith, Bool-cases, inl, inr, Table,
}
use doc_grading.Models.Rows.{Notification}
use doc_grading.Models.Db.{Db}
use doc_grading.Models.Tx.{modify}
use doc_grading.Models.Ensures.{Ensures}
use doc_grading.Models.Hoare.{Ensures-guard, Ensures-gets}
use doc_grading.Notifications.Inbox.{mark_notifications_read, mark_asked, is_asked, marked}

-- What becomes of the row `k`: it stays if it is not asked for, if it is not there, if it is not the
-- reader's or if it has been read before; otherwise it is read now.
pub data Reading (now user_id k : ℕ) (ids : List ℕ) (before after : Option Notification)
    : Type 0 where
  not_asked :
      any (λ i. i == k) ids ≡ false → after ≡ before → Reading now user_id k ids before after
  missing : before ≡ none → after ≡ none → Reading now user_id k ids before after
  not_own :
      (n : Notification)
      → before ≡ some n
      → n.recipient_id ≢ user_id
      → after ≡ before
      → Reading now user_id k ids before after
  read_before :
      (n : Notification) (at : ℕ)
      → before ≡ some n
      → n.read_at ≡ some at
      → after ≡ before
      → Reading now user_id k ids before after
  is_read :
      (n : Notification)
      → any (λ i. i == k) ids ≡ true
      → before ≡ some n
      → n.recipient_id ≡ user_id
      → n.read_at ≡ none
      → after ≡ some (record n { read_at = some now })
      → Reading now user_id k ids before after

module _ (now user_id k : ℕ) (ids : List ℕ) where
  marked-Reading :
      (n : Notification)
      → any (λ i. i == k) ids ≡ true
      → n.recipient_id ≡ user_id
      → (at : Option ℕ) → n.read_at ≡ at
      → Reading now user_id k ids (some n) (some (marked now at n))
  marked-Reading n a e none r = Reading.is_read n a refl e r refl
  marked-Reading n a e (some at) r = Reading.read_before n at refl r refl

  unmarked-Reading :
      (n : Notification)
      → is_asked ids user_id k n ≡ false
      → Reading now user_id k ids (some n) (some n)
  unmarked-Reading n h = elim (Bool-cases (any (λ i. i == k) ids)) [
    | inl a ↦ Reading.not_own n refl (λ e. ground (arith, ==_iff n.recipient_id user_id)) refl
    | inr a ↦ Reading.not_asked a refl
  ]

  mark_asked-Reading :
      (t : Table Notification)
      → Reading now user_id k ids (find k t) (find k (mark_asked now ids user_id t))
  unfolding mark_asked find
  mark_asked-Reading [] = Reading.missing refl refl
  mark_asked-Reading ((id, n) ∷ t) = elim (Bool-cases (is_asked ids user_id id n)) [
    | inl h ↦ elim (Bool-cases (k == id)) [
      | inl e ↦
          rw (h, e)
            (marked-Reading n
              (subst (λ j. any (λ i. i == j) ids ≡ true) (sym ((==_iff k id).0 e)) (ground arith))
              ((==_iff n.recipient_id user_id).0 (ground arith)) n.read_at refl)
      | inr e ↦ rw (h, e) (mark_asked-Reading t)
    ]
    | inr h ↦ elim (Bool-cases (k == id)) [
      | inl e ↦
          rw (h, e)
            (unmarked-Reading n
              (subst (λ j. is_asked ids user_id j n ≡ false) (sym ((==_iff k id).0 e)) h))
      | inr e ↦ rw (h, e) (mark_asked-Reading t)
    ]
  ]

  -- Marking several notifications as read leaves every row that is not asked for, or not the
  -- reader's, or read before, as it is, and every unread row of the reader that is asked for is read
  -- at this time.
  pub mark_notifications_read-Reading :
      (db : Db)
      → Ensures
          (λ _ db'. Reading now user_id k ids (find k db.notifications) (find k db'.notifications))
          (mark_notifications_read now ids user_id db)
  unfolding mark_notifications_read modify
  mark_notifications_read-Reading db =
      Ensures-gets Q _ _ db (Ensures-guard Q _ _ _ db (λ _. mark_asked-Reading db.notifications))
    where
      Q : Unit {0} → Db → Type 0
      Q _ db' = Reading now user_id k ids (find k db.notifications) (find k db'.notifications)
