-- ===== src/Appeals/Frame.antt =====
-- Notices, the audit trail and lookups leave the review requests alone.
use doc_grading.Prelude.{ℕ, ◌≡◌, refl, ◌∙◌, Table, String, Option, none, some}
use doc_grading.Models.Enums.{NotificationType}
use doc_grading.Models.Json.{Fields}
use doc_grading.Models.Rows.{Notification, Membership}
use doc_grading.Models.Db.{Db}
use doc_grading.Models.Tx.{tx, new_uuid, Tx, modify, pure, ◌>>=◌}
use doc_grading.Models.Frames.{Frames, IsOrder, frame_rules}
use doc_grading.Audit.{record_audit}
use doc_grading.Notifications.{add_student_course_notification, add_notification, reference_payload}

abbrev pub SameRequests : Db → Db → Type 0
SameRequests db db' = db'.review_requests ≡ db.review_requests

pub same-IsOrder : IsOrder SameRequests
same-IsOrder = record { refl_at = λ db. refl; trans_at = λ a b c p q. q ∙ p }

new_uuid-Same : Frames SameRequests new_uuid
unfolding new_uuid
new_uuid-Same = record { at = λ db. refl }

pub record_audit-Same :
    (actor : ℕ) (type : String) (id : ℕ) (action : String) (before after : Option Fields)
    (reason : String)
    → Frames SameRequests (record_audit actor type id action before after reason)
unfolding record_audit tx
record_audit-Same actor type id action before after reason = record { at = λ db. refl }

reference_payload-Same :
    (type : NotificationType) (payload : Fields)
    → Frames SameRequests (reference_payload type payload)
unfolding reference_payload
reference_payload-Same type payload = search (same-IsOrder, frame_rules)

deliver-Same :
    (f : Db → Table Notification)
    → Frames SameRequests (modify (λ db. record db { notifications = f db }))
unfolding modify
deliver-Same f = record { at = λ db. refl }

pub add_notification-Same :
    (recipient_id : ℕ) (type : NotificationType) (payload : Fields)
    → Frames SameRequests (add_notification recipient_id type payload)
unfolding add_notification
add_notification-Same recipient_id type payload =
    search (same-IsOrder, frame_rules, new_uuid-Same, reference_payload-Same, deliver-Same) depth 8

member-Same :
    (recipient_id : ℕ) (type : NotificationType) (payload : Fields) (m : Option (ℕ × Membership))
    → Frames SameRequests (elim m as (λ _. Tx (Option ℕ)) [
      | none ↦ pure none
      | some _ ↦ (do id ← add_notification recipient_id type payload; pure (some id))
    ])
member-Same recipient_id type payload none = search (same-IsOrder, frame_rules)
member-Same recipient_id type payload (some m) =
    search (same-IsOrder, frame_rules, add_notification-Same)

pub notice-Same :
    (recipient_id course_id : ℕ) (type : NotificationType) (payload : Fields)
    → Frames SameRequests (add_student_course_notification recipient_id course_id type payload)
unfolding add_student_course_notification
notice-Same recipient_id course_id type payload = search (same-IsOrder, frame_rules, member-Same)
