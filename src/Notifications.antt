-- ===== src/Notifications.antt =====
-- backend/app/services/notification.py.
pub mod Delivery
pub mod Inbox
pub mod Reading
use doc_grading.Prelude.{
  ℕ, String, Bool, true, false, ◌&&◌, Option, none, some, List, [], ◌∷◌, any, all, str_eq, put,
  find_by, if◌then◌else◌, ◌==◌,
}
use doc_grading.Models.Enums.{
  MembershipStatus, NotificationType, analysis_job_error, result_published, review_request_created,
  review_request_resolved, review_request_rejected,
}
use doc_grading.Models.Json.{Json, Fields}
use doc_grading.Models.Rows.{Membership}
use doc_grading.Models.Tx.{Tx, Error, pure, raise_if, gets, modify, new_uuid, ◌>>=◌, ◌>>◌}

-- `NOTIFICATION_PAYLOAD_KEYS`
abbrev pub payload_keys : NotificationType → List String
payload_keys analysis_job_error = "analysis_job_id" ∷ []
payload_keys result_published = "published_result_version_id" ∷ "submission_id" ∷ []
payload_keys review_request_created = "review_request_id" ∷ []
payload_keys review_request_resolved = "review_request_id" ∷ []
payload_keys review_request_rejected = "review_request_id" ∷ []

abbrev keys : Fields → List String
keys Fields.end = []
keys (Fields.field k v r) = k ∷ keys r

-- `uuid.UUID(str(value))` is accepted: an identifier is a number here.
abbrev values_are_uuids : Fields → Bool
values_are_uuids Fields.end = true
values_are_uuids (Fields.field k (Json.num n) r) = values_are_uuids r
values_are_uuids (Fields.field k v r) = false

abbrev member : List String → String → Bool
member ks k = any (str_eq k) ks

-- `_reference_payload`: the keys are exactly those of the type, and each value is an identifier.
unfoldable pub reference_payload : NotificationType → Fields → Tx Fields
reference_payload type payload = do
  let expected = payload_keys type
  let present = keys payload
  raise_if (if all (member expected) present && all (member present) expected then false else true)
      Error.value_error
  raise_if (if values_are_uuids payload then false else true) Error.value_error
  pure payload

unfoldable pub add_notification : ℕ → NotificationType → Fields → Tx ℕ
add_notification recipient_id type payload = do
  id ← new_uuid
  checked ← reference_payload type payload
  modify λ db. record db {
    notifications =
        put id
          (record { recipient_id = recipient_id; type = type; payload = checked; read_at = none })
          db.notifications;
  }
  pure id

abbrev pub is_active_membership : MembershipStatus → Bool
is_active_membership MembershipStatus.active = true
is_active_membership MembershipStatus.removed = false

-- the condition of the select on `Membership`, also of `active_student_membership_exists`
abbrev pub is_active_student_of : ℕ → ℕ → Membership → Bool
is_active_student_of course_id user_id m =
    m.course_id == course_id && m.user_id == user_id && is_active_membership m.status

unfoldable pub add_student_course_notification : ℕ → ℕ → NotificationType → Fields → Tx (Option ℕ)
add_student_course_notification recipient_id course_id type payload = do
  membership ← gets λ db. find_by (is_active_student_of course_id recipient_id) db.memberships
  elim membership [
    | none ↦ pure none
    | some _ ↦ (do id ← add_notification recipient_id type payload; pure (some id))
  ]
