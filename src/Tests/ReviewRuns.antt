-- ===== src/Tests/ReviewRuns.antt =====
-- Review locks, approvals and publications.
use doc_grading.Prelude.{ℕ, ◌≡◌, refl, true, false, some, List, [], ◌∷◌, arith, find}
use doc_grading.Models.Enums.{DocumentStatus}
use doc_grading.Models.Json.{Json, Fields}
use doc_grading.Models.Rows.{DocumentVersion, ReviewLock, User}
use doc_grading.Models.Db.{Db}
use doc_grading.Models.Tx.{returned}
use doc_grading.Models.Ensures.{Ensures}
use doc_grading.Review.Locks.{acquire_review_lock, require_review_lock}
use doc_grading.Review.Exclusion.{LockRequest, serve_all, serve_all-keeps}
use doc_grading.Review.Mutex.{acquired-excludes}
use doc_grading.Review.Snapshot.{AnchorIndex}
use doc_grading.Review.Publish.{Digest, approve_document_version, approve_new, publish_locked}
use doc_grading.Review.Idempotency.{approve-idempotent}
use doc_grading.Review.Publication.{IsPublication, publish_locked-IsPublication}
use doc_grading.Models.Tx.{result, tx}
use doc_grading.Prelude.{find_by, put}
use doc_grading.Review.Access.{
  submission_for_review, submission_course, course_of, authorize_course, check_course_ownership,
}
use doc_grading.Review.Locks.{put_lock}
use doc_grading.Review.Publish.{latest_version}
use doc_grading.Review.Bulk.{bulk_publish_new}
use doc_grading.Review.BulkPublication.{IsBulk, bulk_publish_new-IsBulk}
use doc_grading.Review.Decisions.{DraftRequest, are_findings, stored_decisions, same_payload}
use doc_grading.Review.Drafts.{
  save_review_draft, save_changed, check_all, check_findings, put_draft, store_rows,
  store_decisions, drop_others,
}
use doc_grading.Review.Approval.{IsApproval, approve_new-IsApproval}
use doc_grading.Tests.Data.{school, document, teacher}

abbrev waiting : Db
waiting = school (document DocumentStatus.awaiting_review)

abbrev digest : Digest
digest payload = "d"

abbrev index : AnchorIndex
index = record { text_le = λ a b. true; elements = λ id anchors. some (λ _ _. Json.null) }

-- another teacher asks twice while the first holds the lock
abbrev others : List (ℕ × ℕ × User × LockRequest)
others =
    (1000, 20, teacher, LockRequest.release 7) ∷ (2000, 20, teacher, LockRequest.acquire 7) ∷ []

acquired-excludes_example :
    Ensures
      (λ granted db'.
        granted.acquired ≡ true
        → Ensures
            (λ r db''. (r.acquired ≡ false) × (db'' ≡ serve_all others db'))
            (acquire_review_lock 3000 7 20 teacher (serve_all others db')))
      (acquire_review_lock 0 7 1 teacher waiting)
acquired-excludes_example =
    acquired-excludes 0 3000 7 1 20 teacher teacher waiting others (omega arith) (λ e. ground arith)
      ((omega arith, (λ e. ground arith), refl), ((omega arith, (λ e. ground arith), refl), tt))

abbrev lock : ReviewLock
lock = record { id = 60; reviewer_user_id = 1; acquired_at = 0; expires_at = 600000000 }

abbrev held : Db
held = record waiting { review_locks = (7, lock) ∷ [] }

serve_all-keeps_example : find 7 (serve_all others held).review_locks ≡ some lock
unfolding find
serve_all-keeps_example =
    serve_all-keeps 7 lock others held
      ((omega arith, (λ e. ground arith), refl), ((omega arith, (λ e. ground arith), refl), tt))
      refl

approve_new-IsApproval_example :
    Ensures
      (λ _ db'. IsApproval 1000 index 8 1 teacher waiting db')
      (approve_new 1000 index 8 1 teacher waiting)
approve_new-IsApproval_example = approve_new-IsApproval 1000 index 8 1 teacher waiting

approve-idempotent_example :
    Ensures
      (λ response db'.
        approve_document_version digest 2000 index 8 1 teacher "key" db' ≡ returned response db')
      (approve_document_version digest 1000 index 8 1 teacher "key" waiting)
unfolding find
approve-idempotent_example =
    approve-idempotent digest 1000 2000 8 1 index index teacher teacher "key" waiting (λ k h. refl)

abbrev approved : DocumentVersion
approved = record (document DocumentStatus.approved) {
  approved_at = some 900;
  approved_by_user_id = some 1;
  approved_snapshot = some (Json.obj Fields.end);
}

publish_locked-IsPublication_example : Ensures (IsPublication 1000 8 approved 1 (school approved)) (
    publish_locked 1000 8 approved
      (record { assignment_id = 5; student_id = 2 })
      3
      1
      "done"
      (school approved))
publish_locked-IsPublication_example =
    publish_locked-IsPublication 1000 8 approved 1 (school approved)
      (record { assignment_id = 5; student_id = 2 }) 3 "done"

bulk_publish_new-IsBulk_example :
    Ensures
      (IsBulk 1000 5 (8 ∷ []) 1 teacher "done" (school approved))
      (bulk_publish_new 1000 5 (8 ∷ []) 1 teacher "done" (school approved))
bulk_publish_new-IsBulk_example =
    bulk_publish_new-IsBulk 1000 5 (8 ∷ []) 1 teacher "done" (school approved)

abbrev request : DraftRequest
request = record { document_version_id = 8; revision = 2; comment = "Better"; decisions = [] }

-- the run of the save, from the lock to the new revision
save_review_draft_run : result (save_review_draft 1000 7 1 teacher request held) ≡ some (9, 3)
unfolding save_review_draft require_review_lock submission_for_review submission_course course_of
    authorize_course check_course_ownership latest_version save_changed check_all check_findings
    are_findings stored_decisions same_payload put_draft store_rows store_decisions drop_others
    put_lock find find_by put tx
save_review_draft_run = refl
