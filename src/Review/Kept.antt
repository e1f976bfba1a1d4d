-- ===== src/Review/Kept.antt =====
-- The operations on documents and results leave the recorded commands alone.
use doc_grading.Prelude.{ℕ, ◌≤◌, ◌≡◌, refl, ◌∙◌, Table, String, Option, none, some, arith}
use doc_grading.Models.Enums.{NotificationType}
use doc_grading.Models.Json.{Fields}
use doc_grading.Models.Rows.{
  Notification, Membership, User, DocumentVersion, PublishedResultVersion, Submission,
}
use doc_grading.Models.Db.{Db}
use doc_grading.Models.Tx.{tx, new_uuid, Tx, modify, pure, ◌>>=◌}
use doc_grading.Models.Reads.{Reads}
use doc_grading.Models.Ensures.{Ensures}
use doc_grading.Models.Frames.{Frames, IsOrder, frame_rules}
use doc_grading.Audit.{record_audit}
use doc_grading.Notifications.{add_student_course_notification, add_notification, reference_payload}
use doc_grading.Jobs.Defs.{put_document}
use doc_grading.Review.Access.{locked_document_context, locked_document_context-Reads}
use doc_grading.Review.Snapshot.{AnchorIndex, approval_snapshot}
use doc_grading.Review.Publish.{add_result, publish_locked, approve_new, publish_new}
use doc_grading.Review.Unpublish.{unpublish_new}

abbrev pub KeepsCommands : Db → Db → Type 0
KeepsCommands db db' = (db'.review_commands ≡ db.review_commands) × (db.next_uuid ≤ db'.next_uuid)

pub keeps-IsOrder : IsOrder KeepsCommands
keeps-IsOrder = record {
  refl_at = λ db. (refl, omega arith);
  trans_at = λ a b c p q. (q.0 ∙ p.0, omega (arith, p.1, q.1));
}

pub Reads-Frames : {A : Type 0} (m : Tx A) → ((db : Db) → Reads db (m db)) → Frames KeepsCommands m
Reads-Frames {A} m r = record { at = λ db. from db (r db) }
  where
    from : (db : Db) → Reads db (m db) → Ensures (λ _ db'. KeepsCommands db db') (m db)
    from db (Reads.read a e) = rw e (refl, omega arith)
    from db (Reads.stopped x e) = rw e tt

new_uuid-Keeps : Frames KeepsCommands new_uuid
unfolding new_uuid
new_uuid-Keeps = record { at = λ db. (refl, omega arith) }

put_document-Keeps : (id : ℕ) (doc : DocumentVersion) → Frames KeepsCommands (put_document id doc)
unfolding put_document tx
put_document-Keeps id doc = record { at = λ db. (refl, omega arith) }

add_result-Keeps : (id : ℕ) (r : PublishedResultVersion) → Frames KeepsCommands (add_result id r)
unfolding add_result tx
add_result-Keeps id r = record { at = λ db. (refl, omega arith) }

record_audit-Keeps :
    (actor : ℕ) (type : String) (id : ℕ) (action : String) (before after : Option Fields)
    (reason : String)
    → Frames KeepsCommands (record_audit actor type id action before after reason)
unfolding record_audit tx
record_audit-Keeps actor type id action before after reason = record {
  at = λ db. (refl, omega arith);
}

reference_payload-Keeps :
    (type : NotificationType) (payload : Fields)
    → Frames KeepsCommands (reference_payload type payload)
unfolding reference_payload
reference_payload-Keeps type payload = search (keeps-IsOrder, frame_rules)

deliver-Keeps :
    (f : Db → Table Notification)
    → Frames KeepsCommands (modify (λ db. record db { notifications = f db }))
unfolding modify
deliver-Keeps f = record { at = λ db. (refl, omega arith) }

add_notification-Keeps :
    (recipient_id : ℕ) (type : NotificationType) (payload : Fields)
    → Frames KeepsCommands (add_notification recipient_id type payload)
unfolding add_notification
add_notification-Keeps recipient_id type payload =
    search (keeps-IsOrder, frame_rules, new_uuid-Keeps, reference_payload-Keeps, deliver-Keeps)
      depth 8

member-Keeps :
    (recipient_id : ℕ) (type : NotificationType) (payload : Fields) (m : Option (ℕ × Membership))
    → Frames KeepsCommands (elim m as (λ _. Tx (Option ℕ)) [
      | none ↦ pure none
      | some _ ↦ (do id ← add_notification recipient_id type payload; pure (some id))
    ])
member-Keeps recipient_id type payload none = search (keeps-IsOrder, frame_rules)
member-Keeps recipient_id type payload (some m) =
    search (keeps-IsOrder, frame_rules, add_notification-Keeps)

notice-Keeps :
    (recipient_id course_id : ℕ) (type : NotificationType) (payload : Fields)
    → Frames KeepsCommands (add_student_course_notification recipient_id course_id type payload)
unfolding add_student_course_notification
notice-Keeps recipient_id course_id type payload = search (keeps-IsOrder, frame_rules, member-Keeps)

context-Keeps :
    (version_id user_id : ℕ) (user : User)
    → Frames KeepsCommands (locked_document_context version_id user_id user)
context-Keeps version_id user_id user =
    Reads-Frames _ (locked_document_context-Reads version_id user_id user)

approval_snapshot-Keeps :
    (index : AnchorIndex) (version_id submission_id : ℕ)
    → Frames KeepsCommands (approval_snapshot index version_id submission_id)
unfolding approval_snapshot
approval_snapshot-Keeps index version_id submission_id =
    search (keeps-IsOrder, frame_rules) depth 12

ruleset keeps_commands = (
  keeps-IsOrder, frame_rules, new_uuid-Keeps, put_document-Keeps, add_result-Keeps,
  record_audit-Keeps, notice-Keeps, context-Keeps, approval_snapshot-Keeps,
)

publish_locked-Keeps :
    (now version_id : ℕ) (version : DocumentVersion) (submission : Submission)
    (course_id user_id : ℕ) (reason : String)
    → Frames KeepsCommands
        (publish_locked now version_id version submission course_id user_id reason)
unfolding publish_locked
publish_locked-Keeps now version_id version submission course_id user_id reason =
    search keeps_commands depth 16

pub approve_new-Keeps :
    (now : ℕ) (index : AnchorIndex) (version_id user_id : ℕ) (user : User)
    → Frames KeepsCommands (approve_new now index version_id user_id user)
unfolding approve_new
approve_new-Keeps now index version_id user_id user = search keeps_commands depth 16

pub publish_new-Keeps :
    (now version_id user_id : ℕ) (user : User) (reason : String)
    → Frames KeepsCommands (publish_new now version_id user_id user reason)
unfolding publish_new
publish_new-Keeps now version_id user_id user reason =
    search (keeps_commands, publish_locked-Keeps) depth 16

pub unpublish_new-Keeps :
    (result_id user_id : ℕ) (user : User) (reason : String)
    → Frames KeepsCommands (unpublish_new result_id user_id user reason)
unfolding unpublish_new
unpublish_new-Keeps result_id user_id user reason = search keeps_commands depth 20
