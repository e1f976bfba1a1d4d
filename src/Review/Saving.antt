-- ===== src/Review/Saving.antt =====
-- What saving a review draft requires and returns.
use doc_grading.Prelude.{ℕ, ◌+◌, ◌≡◌, true, none, some, [], find_by}
use doc_grading.Models.Rows.{ReviewDraft, ReviewLock}
use doc_grading.Models.Db.{Db}
use doc_grading.Models.Ensures.{Ensures}
use doc_grading.Review.Exclusion.{IsHeld}
use doc_grading.Review.Publish.{latest_document_id}
use doc_grading.Review.Decisions.{
  DraftRequest, either_ids, stored_decisions, requested, same_payload,
}
use doc_grading.Review.Drafts.{is_draft_of}
use doc_grading.Review.Overrides.{CheckedAll}
use doc_grading.Review.Storing.{Keeps, IsProlonged, IsStored}

module _ (now submission_id user_id : ℕ) (body : DraftRequest) (db : Db) where
  -- the three ways of a saved draft
  pub data Saved (r : ℕ × ℕ) (db' : Db) : Type 0 where
    -- the stored draft says the same already, and stays at its revision
    repeated :
        (id : ℕ) (draft : ReviewDraft)
        → find_by (is_draft_of body.document_version_id user_id) db.review_drafts ≡ some (id, draft)
        → same_payload draft
            (stored_decisions id db.review_decisions)
            body.comment
            (requested id body.decisions)
          ≡ true
        → r ≡ (id, draft.revision)
        → Keeps db db'
        → Saved r db'
    -- the request is of the stored revision, and its overrides have reasons
    revised :
        (id : ℕ) (draft : ReviewDraft) (db1 : Db)
        → find_by (is_draft_of body.document_version_id user_id) db.review_drafts ≡ some (id, draft)
        → body.revision ≡ draft.revision
        → CheckedAll user_id body.document_version_id
            (stored_decisions id db.review_decisions)
            (requested id body.decisions)
            (either_ids (stored_decisions id db.review_decisions) (requested id body.decisions))
            db
            db1
        → IsStored id (draft.revision + 1) body.comment db1 db'
        → r ≡ (id, draft.revision + 1)
        → Saved r db'
    -- there was no draft, the request is of the first revision, and its overrides have reasons
    first :
        (id : ℕ) (db0 db1 : Db)
        → find_by (is_draft_of body.document_version_id user_id) db.review_drafts ≡ none
        → body.revision ≡ 1
        → CheckedAll user_id body.document_version_id []
            (requested id body.decisions)
            (either_ids [] (requested id body.decisions))
            db0
            db1
        → db0.audit_events ≡ db.audit_events
        → IsStored id 2 body.comment db1 db'
        → r ≡ (id, 2)
        → Saved r db'

  -- A save that has returned: by the holder of the live lock, for the latest document.
  pub record IsSave (r : ℕ × ℕ) (db' : Db) : Type 0 where
    pub lock : ReviewLock
    pub held : IsHeld now submission_id user_id db lock
    pub latest : latest_document_id submission_id db ≡ some body.document_version_id
    pub saved : Saved r db'
    pub prolonged : IsProlonged now submission_id lock db'
