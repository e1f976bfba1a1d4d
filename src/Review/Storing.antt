-- ===== src/Review/Storing.antt =====
-- What `save_review_draft` of backend/app/services/review.py stores after its checks.
use doc_grading.Prelude.{
  ℕ, ◌+◌, ◌≡◌, refl, ap, ◌∙◌, Option, none, some, List, [], ◌∷◌, find, find-put_self, put, Table,
  String,
}
use doc_grading.Models.Rows.{ReviewDecision, ReviewDraft, ReviewLock}
use doc_grading.Models.Db.{Db}
use doc_grading.Models.Tx.{
  Outcome, returned, raised, committed, Tx, pure, modify, new_uuid, ◌>>=◌, ◌>>◌,
}
use doc_grading.Models.Ensures.{Ensures, Ensures-mono}
use doc_grading.Models.Reads.{Ensures-seq}
use doc_grading.Models.Hoare.{Ensures-modify}
use doc_grading.Models.Frames.{Frames, IsOrder, Frames-then, frame_rules}
use doc_grading.Review.Locks.{put_lock, extended, lock_ttl}
use doc_grading.Review.Drafts.{put_draft, store_rows, store_decisions, store_decision, key_of}

-- the audit trail and the drafts stay
abbrev pub Keeps : Db → Db → Type 0
Keeps db db' = (db'.audit_events ≡ db.audit_events) × (db'.review_drafts ≡ db.review_drafts)

Keeps-IsOrder : IsOrder Keeps
Keeps-IsOrder = record {
  refl_at = λ db. (refl, refl);
  trans_at = λ a b c p q. (q.0 ∙ p.0, q.1 ∙ p.1);
}

modify-Keeps :
    (f : Db → Table ReviewDecision)
    → Frames Keeps (modify λ db. record db { review_decisions = f db })
unfolding modify
modify-Keeps f = record { at = λ db. (refl, refl) }

new_uuid-Keeps : Frames Keeps new_uuid
unfolding new_uuid
new_uuid-Keeps = record { at = λ db. (refl, refl) }

key_of-Keeps : (o : Option (ℕ × ReviewDecision)) → Frames Keeps (key_of o)
unfolding key_of
key_of-Keeps none = new_uuid-Keeps
key_of-Keeps (some (id, d)) = search (Keeps-IsOrder, frame_rules)

store_decision-Keeps : (d : ReviewDecision) → Frames Keeps (store_decision d)
unfolding store_decision
store_decision-Keeps d = search (Keeps-IsOrder, frame_rules, key_of-Keeps, modify-Keeps)

store_decisions-Keeps : (ds : List ReviewDecision) → Frames Keeps (store_decisions ds)
unfolding store_decisions
store_decisions-Keeps [] = search (Keeps-IsOrder, frame_rules)
store_decisions-Keeps (d ∷ ds) =
    Frames-then Keeps-IsOrder _ _ (store_decision-Keeps d) (store_decisions-Keeps ds)

-- the lock of the submission runs ten minutes from now, for the same reviewer
pub record IsProlonged (now submission_id : ℕ) (lock : ReviewLock) (db : Db) : Type 0 where
  pub row : ReviewLock
  pub stored : find submission_id db.review_locks ≡ some row
  pub until : row.expires_at ≡ now + lock_ttl
  pub same_reviewer : row.reviewer_user_id ≡ lock.reviewer_user_id

pub put_lock-IsProlonged :
    (now submission_id : ℕ) (lock : ReviewLock) (db : Db)
    → Ensures
        (λ _ db'. Keeps db db' × IsProlonged now submission_id lock db')
        (put_lock submission_id (extended now lock) db)
unfolding put_lock modify
put_lock-IsProlonged now submission_id lock db = (
  (refl, refl),
  record {
    row = extended now lock;
    stored = find-put_self submission_id (extended now lock) db.review_locks;
    until = refl;
    same_reviewer = refl;
  },
)

pub store_rows-Keeps :
    (now submission_id : ℕ) (lock : ReviewLock) (draft_id : ℕ) (new : List ReviewDecision) (db : Db)
    → Ensures
        (λ _ db'. Keeps db db' × IsProlonged now submission_id lock db')
        (store_rows now submission_id lock draft_id new db)
unfolding store_rows
store_rows-Keeps now submission_id lock draft_id new db =
    let Q : Unit {0} → Db → Type 0 =
      λ _ db'. Keeps db db' × IsProlonged now submission_id lock db' in
    Ensures-modify Q _ _ db (
      Ensures-seq (λ _ db'. Keeps db db') Q _ _ _ ((store_decisions-Keeps new).at _)
        (λ _ d k.
          Ensures-mono (λ _ d'. Keeps d d' × IsProlonged now submission_id lock d') Q _
            (λ _ d' q. ((q.0.0 ∙ k.0, q.0.1 ∙ k.1), q.1))
            (put_lock-IsProlonged now submission_id lock d)))

-- a block that ends by returning `a`
pub ends_with :
    {A : Type 0} (P : Db → Type 0) (a : A) (m : Tx (Unit {0})) (db : Db)
    → Ensures (λ _ db'. P db') (m db)
    → Ensures (λ r db'. (r ≡ a) × P db') ((m >> pure a) db)
unfolding ◌>>◌ ◌>>=◌ pure
ends_with P a m db f = after (m db) f
  where
    after :
        (o : Outcome (Unit {0}))
        → Ensures (λ _ db'. P db') o
        → Ensures (λ r db'. (r ≡ a) × P db') (((λ _. o) >>= λ _. pure a) db)
    after (returned _ db') q = (refl, q)
    after (raised e) q = tt
    after (committed e db') q = absurd q

-- What is stored after the checks have left `db`: nothing is lost of the audit trail, and the draft
-- has the comment and the revision.
pub record IsStored (id revision : ℕ) (comment : String) (db db' : Db) : Type 0 where
  pub trail : db'.audit_events ≡ db.audit_events
  pub row : ReviewDraft
  pub stored : find id db'.review_drafts ≡ some row
  pub numbered : row.revision ≡ revision
  pub commented : row.comment ≡ comment

-- the draft, and then the rows that the block stores
pub put_draft-IsStored :
    {A : Type 0} (P : Db → Type 0) (a : A) (id : ℕ) (d : ReviewDraft) (m : Tx (Unit {0})) (db : Db)
    → ((db1 : Db) → Ensures (λ _ db'. Keeps db1 db' × P db') (m db1))
    → Ensures
        (λ r db'. (r ≡ a) × IsStored id d.revision d.comment db db' × P db')
        ((put_draft id d >> (m >> pure a)) db)
unfolding put_draft
put_draft-IsStored P a id d m db f = Ensures-modify _ _ _ db (
    Ensures-mono _ (λ r db'. (r ≡ a) × IsStored id d.revision d.comment db db' × P db') _
      (λ r db' q. (
        q.0,
        record {
          trail = q.1.0.0;
          row = d;
          stored = ap (find id) q.1.0.1 ∙ find-put_self id d db.review_drafts;
          numbered = refl;
          commented = refl;
        },
        q.1.1,
      ))
      (ends_with
        (λ db'. Keeps (record db { review_drafts = put id d db.review_drafts }) db' × P db') a m _
        (f _)))
