-- ===== src/Review/Unpublish.antt =====
-- Taking a published result back, `unpublish_result` of backend/app/services/review.py.
use doc_grading.Prelude.{ℕ, String, not, some, find, is_blank, eq_opt}
use doc_grading.Models.Enums.{approved, document_status_value}
use doc_grading.Models.Json.{Json, Fields}
use doc_grading.Models.Rows.{User, PublishedResultVersion}
use doc_grading.Models.Tx.{lookup, Tx, Error, pure, raise_if, or_raise, gets, ◌>>=◌, ◌>>◌}
use doc_grading.Audit.{record_audit}
use doc_grading.Jobs.Defs.{put_document}
use doc_grading.Review.Access.{locked_document_context}
use doc_grading.Review.Commands.{Command, command_start, resume}
use doc_grading.Review.Publish.{
  Digest, command, approval_response, is_published, latest_document_id, latest_result_id,
  blank_reason,
}

abbrev pub unpublish_command : Digest → ℕ → ℕ → String → String → Command
unpublish_command digest result_id user_id key reason = command digest user_id "UNPUBLISH" key (
    Fields.field "published_result_id" (Json.num result_id)
      (Fields.field "reason" (Json.str reason) Fields.end))

abbrev result_fields : String → ℕ → PublishedResultVersion → Fields
result_fields status id result = Fields.field "status" (Json.str status) (
    Fields.field "published_result_id" (Json.num id)
      (Fields.field "version_number" (Json.num result.version_number) Fields.end))

-- `version.approved_at.isoformat()` of a version without an approval is an `AttributeError`
unfoldable pub unpublish_new : ℕ → ℕ → User → String → Tx Fields
unpublish_new result_id user_id user reason = do
  result ←
      lookup (λ db. find result_id db.published_results)
        (Error.http 404 "Published result not found")
  (course_id, submission, version) ← locked_document_context result.document_version_id user_id user
  raise_if (not (is_published version.status)) (Error.http 409 "Document is not published")
  latest_document ← gets (latest_document_id version.submission_id)
  raise_if (not (eq_opt latest_document (some result.document_version_id)))
      (Error.http 409 "Only latest document result can be unpublished")
  latest ← gets (latest_result_id result.document_version_id)
  raise_if (not (eq_opt latest (some result_id)))
      (Error.http 409 "Only latest published result can be unpublished")
  put_document result.document_version_id (record version { status = approved })
  record_audit user_id "DocumentVersion" result.document_version_id "UNPUBLISH"
      (some (result_fields (document_status_value version.status) result_id result))
      (some (result_fields "APPROVED" result_id result)) reason
  approved_at ← or_raise version.approved_at Error.attribute_error
  pure (approval_response result.document_version_id "APPROVED" approved_at)

unfoldable pub unpublish_result : Digest → ℕ → ℕ → User → String → String → Tx Fields
unpublish_result digest result_id user_id user key reason = do
  replay ← command_start (unpublish_command digest result_id user_id key reason)
  raise_if (is_blank reason) blank_reason
  resume (unpublish_command digest result_id user_id key reason)
      (unpublish_new result_id user_id user reason) replay
