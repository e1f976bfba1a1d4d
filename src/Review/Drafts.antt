-- ===== src/Review/Drafts.antt =====
-- Saving a review draft, `save_review_draft` of backend/app/services/review.py. The findings that
-- the stored decisions and the request name are taken one after another, each once, where the code
-- takes them in the order of a set.
use doc_grading.Prelude.{
  ℕ, ◌+◌, String, Bool, true, false, not, ◌&&◌, Option, none, some, List, [], ◌∷◌, put, find_by,
  ◌==◌, is_some, is_none, Table, if◌then◌else◌,
}
use doc_grading.Models.Rows.{User, Finding, ReviewDraft, ReviewDecision, ReviewLock}
use doc_grading.Models.Tx.{
  Tx, Error, pure, raise, raise_if, or_raise, lookup, gets, modify, new_uuid, ◌>>=◌, ◌>>◌,
}
use doc_grading.Audit.{record_audit}
use doc_grading.Review.Locks.{require_review_lock, put_lock, extended}
use doc_grading.Review.Snapshot.{effective_score}
use doc_grading.Review.Publish.{latest_document_id}
use doc_grading.Review.Decisions.{
  DraftRequest, stored_decisions, requested, same_payload, decision_for, either_ids,
  is_semantic_finding, finding_for_draft, are_findings, verdict_of, is_change, audit_snapshot,
}

-- the reason of an override
abbrev pub override_reason : Option ReviewDecision → Tx String
override_reason none = raise (Error.http 422 "Use ACCEPT with a reason to restore a proposal")
override_reason (some d) = or_raise d.reason (Error.http 422 "Override reason is required")

abbrev pub audit_if :
    Bool → ℕ → ℕ → Finding → ℕ → Option ReviewDecision → Option ReviewDecision → Tx (Unit {0})
audit_if false user_id id finding job_id before after = pure tt
audit_if true user_id id finding job_id before after = do
  reason ← override_reason after
  record_audit user_id "Finding" id "FINDING_OVERRIDE"
      (some (audit_snapshot before (effective_score finding before) job_id))
      (some (audit_snapshot after (effective_score finding after) job_id)) reason

-- one turn of the loop over the findings
unfoldable pub check_finding : ℕ → ℕ → List ReviewDecision → List ReviewDecision → ℕ → Tx (Unit {0})
check_finding user_id document_id old new id = do
  (finding, job_id, job) ←
      lookup (λ db. finding_for_draft db document_id id)
        (Error.http 422 "Decision finding is not in latest document")
  raise_if (is_some (verdict_of (decision_for id new)) && not (is_semantic_finding job id))
      (Error.http 422 "Semantic verdict override requires a semantic finding")
  audit_if (is_change finding (decision_for id old) (decision_for id new)) user_id id finding job_id
      (decision_for id old) (decision_for id new)

unfoldable pub check_findings :
    ℕ → ℕ → List ReviewDecision → List ReviewDecision → List ℕ → Tx (Unit {0})
check_findings user_id document_id old new [] = pure tt
check_findings user_id document_id old new (id ∷ ids) = do
  check_finding user_id document_id old new id
  check_findings user_id document_id old new ids

abbrev is_decision_on : ℕ → ℕ → ReviewDecision → Bool
is_decision_on draft_id finding_id d = d.review_draft_id == draft_id && d.finding_id == finding_id

-- the identifier of the decision that is there, or a new one
unfoldable pub key_of : Option (ℕ × ReviewDecision) → Tx ℕ
key_of none = new_uuid
key_of (some (id, _)) = pure id

unfoldable pub store_decision : ReviewDecision → Tx (Unit {0})
store_decision d = do
  existing ← gets λ db. find_by (is_decision_on d.review_draft_id d.finding_id) db.review_decisions
  id ← key_of existing
  modify λ db. record db { review_decisions = put id d db.review_decisions }

unfoldable pub store_decisions : List ReviewDecision → Tx (Unit {0})
store_decisions [] = pure tt
store_decisions (d ∷ ds) = do store_decision d; store_decisions ds

-- the decisions less those of the draft that the request leaves out
unfoldable pub drop_others : ℕ → List ReviewDecision → Table ReviewDecision → Table ReviewDecision
drop_others draft_id new [] = []
drop_others draft_id new ((id, d) ∷ t) =
    if d.review_draft_id == draft_id && is_none (decision_for d.finding_id new)
    then drop_others draft_id new t
    else (id, d) ∷ drop_others draft_id new t

abbrev pub is_draft_of : ℕ → ℕ → ReviewDraft → Bool
is_draft_of document_id user_id d =
    d.document_version_id == document_id && d.reviewer_user_id == user_id

unfoldable pub put_draft : ℕ → ReviewDraft → Tx (Unit {0})
put_draft id d = modify λ db. record db { review_drafts = put id d db.review_drafts }

abbrev new_draft : ℕ → ℕ → ℕ → ℕ → String → ReviewDraft
new_draft now submission_id document_id user_id comment = record {
  submission_id = submission_id;
  document_version_id = document_id;
  reviewer_user_id = user_id;
  revision = 2;
  comment = comment;
  updated_at = now;
}

abbrev pub revised : ℕ → String → ReviewDraft → ReviewDraft
revised now comment d = record d { comment = comment; revision = d.revision + 1; updated_at = now }

abbrev conflict : Error
conflict = Error.http 409 "Review draft revision conflict"

-- the rows of the request, and the lock for ten minutes more
unfoldable pub store_rows : ℕ → ℕ → ReviewLock → ℕ → List ReviewDecision → Tx (Unit {0})
store_rows now submission_id lock draft_id new = do
  modify λ db. record db { review_decisions = drop_others draft_id new db.review_decisions }
  store_decisions new
  put_lock submission_id (extended now lock)

-- the findings of both, checked one after another
unfoldable pub check_all : ℕ → ℕ → List ReviewDecision → List ReviewDecision → Tx (Unit {0})
check_all user_id document_id old new = do
  known ← gets λ db. are_findings db document_id (either_ids old new)
  raise_if (not known) (Error.http 422 "Decision finding is not in latest document")
  check_findings user_id document_id old new (either_ids old new)

unfoldable pub save_changed :
    ℕ → ℕ → ℕ → ReviewLock → ℕ → DraftRequest → ℕ → ReviewDraft → List ReviewDecision → Tx (ℕ × ℕ)
save_changed now submission_id user_id lock document_id body id draft old = do
  raise_if (not (body.revision == draft.revision)) conflict
  check_all user_id document_id old (requested id body.decisions)
  put_draft id (revised now body.comment draft)
  store_rows now submission_id lock id (requested id body.decisions)
  pure (id, draft.revision + 1)

abbrev pub save_existing :
    Bool
    → ℕ
    → ℕ
    → ℕ
    → ReviewLock
    → ℕ
    → DraftRequest
    → ℕ
    → ReviewDraft
    → List ReviewDecision
    → Tx (ℕ × ℕ)
save_existing true now submission_id user_id lock document_id body id draft old = do
  put_lock submission_id (extended now lock)
  pure (id, draft.revision)
save_existing false now submission_id user_id lock document_id body id draft old =
    save_changed now submission_id user_id lock document_id body id draft old

unfoldable pub save_new : ℕ → ℕ → ℕ → ReviewLock → ℕ → DraftRequest → Tx (ℕ × ℕ)
save_new now submission_id user_id lock document_id body = do
  raise_if (not (body.revision == 1)) conflict
  id ← new_uuid
  check_all user_id document_id [] (requested id body.decisions)
  put_draft id (new_draft now submission_id document_id user_id body.comment)
  store_rows now submission_id lock id (requested id body.decisions)
  pure (id, 2)

abbrev pub save_with :
    ℕ → ℕ → ℕ → ReviewLock → ℕ → DraftRequest → Option (ℕ × ReviewDraft) → Tx (ℕ × ℕ)
save_with now submission_id user_id lock document_id body none =
    save_new now submission_id user_id lock document_id body
save_with now submission_id user_id lock document_id body (some (id, draft)) = do
  old ← gets λ db. stored_decisions id db.review_decisions
  save_existing (same_payload draft old body.comment (requested id body.decisions)) now
      submission_id user_id lock document_id body id draft old

-- The result is the draft's identifier with its revision.
unfoldable pub save_review_draft : ℕ → ℕ → ℕ → User → DraftRequest → Tx (ℕ × ℕ)
save_review_draft now submission_id user_id user body = do
  lock ← require_review_lock now submission_id user_id user
  document_id ←
      lookup (latest_document_id submission_id) (Error.http 422 "Submission has no document")
  raise_if (not (body.document_version_id == document_id))
      (Error.http 409 "Document version changed")
  draft ← gets λ db. find_by (is_draft_of document_id user_id) db.review_drafts
  save_with now submission_id user_id lock document_id body draft
