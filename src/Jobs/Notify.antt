-- ===== src/Jobs/Notify.antt =====
-- `_notify_error` by what it leaves in the database.
use doc_grading.Prelude.{ℕ, ◌≡◌, Option, none, some, arith, inl, inr, Option-cases}
use doc_grading.Models.Enums.{analysis_job_error}
use doc_grading.Models.Db.{Db}
use doc_grading.Models.Tx.{Outcome, Error, returned, raised, tx}
use doc_grading.Notifications.Delivery.{
  delivered_to_student, student_notification_lem, job_payload, job_error_payload,
}
use doc_grading.Jobs.Defs.{document_context, notify_error}

abbrev pub notified : ℕ → Db → Option (ℕ × ℕ) → Outcome (Unit {0})
notified id db none = raised Error.no_result_found
notified id db (some (student_id, course_id)) =
    returned tt (delivered_to_student student_id course_id analysis_job_error (job_payload id) db)

pub notify_error_lem :
    (id document_version_id : ℕ) (db : Db)
    → notify_error id document_version_id db
      ≡ notified id db (document_context document_version_id db)
unfolding notify_error tx
notify_error_lem id document_version_id db =
    elim (Option-cases (document_context document_version_id db)) [
      | inl e ↦ ground arith
      | inr ((s, c), e) ↦ ground (
        arith,
        student_notification_lem s analysis_job_error (job_payload id) db (job_error_payload id) c,
      )
    ]
