-- ===== src/Notifications/Delivery.antt =====
-- What a notification leaves in the database, for callers that keep the functions shut.
use doc_grading.Prelude.{
  ℕ, ◌+◌, ◌≡◌, refl, Option, none, some, put, find_by, Option-cases, arith, inl, inr,
}
use doc_grading.Models.Enums.{NotificationType, analysis_job_error}
use doc_grading.Models.Json.{Json, Fields}
use doc_grading.Models.Db.{Db}
use doc_grading.Models.Tx.{returned, tx}
use doc_grading.Notifications.{
  reference_payload, add_notification, add_student_course_notification, is_active_student_of,
}

-- the database with one more unread notification
abbrev pub delivered : ℕ → NotificationType → Fields → Db → Db
delivered recipient_id type payload db = record db {
  next_uuid = db.next_uuid + 1;
  notifications =
      put db.next_uuid
        (record { recipient_id = recipient_id; type = type; payload = payload; read_at = none })
        db.notifications;
}

-- delivered to a student who is an active member of the course, and to no one else
abbrev pub delivered_to_student : ℕ → ℕ → NotificationType → Fields → Db → Db
delivered_to_student student_id course_id type payload db =
    elim (find_by (is_active_student_of course_id student_id) db.memberships) [
      | none ↦ db
      | some _ ↦ delivered student_id type payload db
    ]

abbrev pub job_payload : ℕ → Fields
job_payload id = Fields.field "analysis_job_id" (Json.num id) Fields.end

pub job_error_payload :
    (id : ℕ) (db : Db)
    → reference_payload analysis_job_error (job_payload id) db ≡ returned (job_payload id) db
unfolding reference_payload tx
job_error_payload id db = refl

module _ (recipient_id : ℕ) (type : NotificationType) (payload : Fields) (db : Db)
    (fits : (db' : Db) → reference_payload type payload db' ≡ returned payload db') where
  pub add_notification_lem :
      add_notification recipient_id type payload db
      ≡ returned db.next_uuid (delivered recipient_id type payload db)
  unfolding add_notification tx
  add_notification_lem = ground (arith, fits (record db { next_uuid = db.next_uuid + 1 }))

  pub student_notification_lem :
      (course_id : ℕ)
      → (note : Option ℕ) × (add_student_course_notification recipient_id course_id type payload db
          ≡ returned note (delivered_to_student recipient_id course_id type payload db))
  unfolding add_student_course_notification tx
  student_notification_lem course_id =
      elim (Option-cases (find_by (is_active_student_of course_id recipient_id) db.memberships)) [
        | inl e ↦ (none, ground arith)
        | inr (m, e) ↦ (some db.next_uuid, ground (arith, add_notification_lem))
      ]
