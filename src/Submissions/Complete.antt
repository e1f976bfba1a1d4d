-- ===== src/Submissions/Complete.antt =====
-- Completing an upload, `complete_upload` of backend/app/services/submission.py. The object is
-- sealed in the storage before the document is queued for analysis.
use doc_grading.Prelude.{
  ℕ, String, Bool, true, false, not, ◌&&◌, ◌||◌, Option, none, some, [], ◌∷◌, find, find_by, ltb,
  ◌==◌, is_none, if◌then◌else◌, str_opt_eq, concat,
}
use doc_grading.Models.Enums.{DocumentStatus}
use doc_grading.Models.Json.{Json}
use doc_grading.Models.Rows.{User, Assignment, Submission, DocumentVersion}
use doc_grading.Models.Db.{Db}
use doc_grading.Models.Tx.{
  Tx, Error, pure, raise, raise_if, lookup, gets, new_uuid, commit_and_raise, ◌>>=◌, ◌>>◌,
}
use doc_grading.Jobs.Defs.{put_document, create_or_get_job, enqueue_if, is_queued}
use doc_grading.Submissions.{
  UploadSettings, Texts, may_upload, is_closed_at, is_uploading, for_student,
}
use doc_grading.Submissions.Initiate.{is_pdf, of_document}

pub record ObjectHead : Type 0 where
  pub content_type : String
  pub content_length : ℕ
  pub etag : String

-- What the storage answers: an object, `StorageObjectNotFound`, `StorageObjectChanged`, or any
-- other exception.
pub data StorageAnswer : Type 0 where
  object : ObjectHead → StorageAnswer
  missing changed unavailable : StorageAnswer

pub record Storage : Type 0 where
  pub head : String → StorageAnswer
  pub seal_upload : String → String → String → StorageAnswer

-- the row of the join, for the student of the submission
abbrev pub of_own_submission :
    ℕ → Db → DocumentVersion → Option Submission → Option (DocumentVersion × Assignment)
of_own_submission user_id db v none = none
of_own_submission user_id db v (some s) =
    elim (for_student user_id db (find s.assignment_id db.assignments)) [
      | none ↦ none
      | some a ↦ if s.student_id == user_id then some (v, a) else none
    ]

abbrev pub with_submission : ℕ → Db → Option DocumentVersion → Option (DocumentVersion × Assignment)
with_submission user_id db none = none
with_submission user_id db (some v) =
    of_own_submission user_id db v (find v.submission_id db.submissions)

unfoldable pub upload_context : ℕ → ℕ → Db → Option (DocumentVersion × Assignment)
upload_context version_id user_id db = with_submission user_id db (find version_id db.documents)

-- a status that follows a completed upload
abbrev pub is_completed : DocumentStatus → Bool
is_completed DocumentStatus.queued = true
is_completed DocumentStatus.processing = true
is_completed DocumentStatus.awaiting_review = true
is_completed DocumentStatus.approved = true
is_completed DocumentStatus.published = true
is_completed _ = false

abbrev pub has_failed : DocumentStatus → Bool
has_failed DocumentStatus.processing_failed = true
has_failed _ = false

-- `is_retryable_storage_failure`: the storage failed before there was a job
abbrev pub is_retryable : ℕ → DocumentVersion → Db → Bool
is_retryable id v db =
    has_failed v.status
    && str_opt_eq v.failure_code (some "STORAGE_UNAVAILABLE")
    && is_none (find_by (of_document id) db.jobs)

abbrev pub is_past : Option ℕ → ℕ → Bool
is_past none now = false
is_past (some at) now = ltb at now

abbrev pub has_expired : ℕ → Bool → DocumentVersion → Bool
has_expired now retryable v = not retryable && is_past v.upload_expires_at now

unfoldable pub completed_already : ℕ → ℕ → Tx ℕ
completed_already now id = do
  (job_id, job) ←
      lookup (λ db. find_by (of_document id) db.jobs)
        (Error.http 409 "Document completion is inconsistent")
  enqueue_if (is_queued job.status) now job_id
  pure job_id

abbrev pub storage_failed : DocumentVersion → DocumentVersion
storage_failed v = record v {
  status = DocumentStatus.processing_failed;
  failure_code = some "STORAGE_UNAVAILABLE";
  failure_detail = some "Object storage is temporarily unavailable";
}

-- the failure is committed, and then the request fails
unfoldable pub fail_storage {ℓ} : {A : Type ℓ} → ℕ → DocumentVersion → Tx A
fail_storage id v = do
  put_document id (storage_failed v)
  commit_and_raise (Error.http 503 "Object storage is temporarily unavailable")

abbrev pub object_not_found : Error
object_not_found = Error.http 409 "Uploaded object not found"

-- `storage.head`
unfoldable pub head_of : ℕ → DocumentVersion → StorageAnswer → Tx ObjectHead
head_of id v (StorageAnswer.object head) = pure head
head_of id v StorageAnswer.missing = raise object_not_found
head_of id v StorageAnswer.changed = fail_storage id v
head_of id v StorageAnswer.unavailable = fail_storage id v

-- `storage.seal_upload`; metadata that do not fit are an exception too
unfoldable pub sealed_of : Texts → ℕ → DocumentVersion → ObjectHead → StorageAnswer → Tx ObjectHead
sealed_of texts id v head (StorageAnswer.object sealed) =
    if is_pdf texts sealed.content_type && sealed.content_length == head.content_length
    then pure sealed
    else fail_storage id v
sealed_of texts id v head StorageAnswer.missing = raise object_not_found
sealed_of texts id v head StorageAnswer.changed =
    raise (Error.http 409 "Uploaded object changed during completion")
sealed_of texts id v head StorageAnswer.unavailable = fail_storage id v

abbrev pub sealed_key : Texts → ℕ → ℕ → String
sealed_key texts id key_id =
    concat ("documents/" ∷ texts.uuid_text id ∷ "/" ∷ texts.uuid_text key_id ∷ ".pdf" ∷ [])

abbrev pub sealed_version : String → ObjectHead → DocumentVersion → DocumentVersion
sealed_version key sealed v = record v {
  storage_key = key;
  content_type = sealed.content_type;
  size_bytes = sealed.content_length;
  status = DocumentStatus.queued;
  failure_code = none;
  failure_detail = none;
}

unfoldable pub seal_and_queue :
    ℕ → Texts → Storage → Option Json → ℕ → DocumentVersion → Assignment → ObjectHead → Tx ℕ
seal_and_queue now texts storage route id v a head = do
  key_id ← new_uuid
  let key = sealed_key texts id key_id
  sealed ← sealed_of texts id v head (storage.seal_upload v.storage_key key head.etag)
  put_document id (sealed_version key sealed v)
  create_or_get_job now id a.rubric_version_id route

-- what follows the checks of the document's status
unfoldable pub complete_new :
    ℕ
    → UploadSettings
    → Texts
    → Storage
    → Option Json
    → ℕ
    → DocumentVersion
    → Assignment
    → Bool
    → Tx ℕ
complete_new now settings texts storage route id v a retryable = do
  raise_if (is_closed_at now a) (Error.http 409 "Assignment is not accepting submissions")
  raise_if (has_expired now retryable v) (Error.http 409 "Upload has expired")
  head ← head_of id v (storage.head v.storage_key)
  raise_if (not (is_pdf texts head.content_type))
      (Error.http 422 "Uploaded object content type is invalid")
  raise_if (head.content_length == 0 || ltb settings.pdf_max_size_bytes head.content_length)
      (Error.http 422 "Uploaded object size is invalid")
  raise_if (not (head.content_length == v.size_bytes))
      (Error.http 422 "Uploaded object size does not match")
  seal_and_queue now texts storage route id v a head

-- The result is the identifier of the job.
unfoldable pub complete_upload :
    ℕ → UploadSettings → Texts → Storage → Option Json → ℕ → ℕ → User → Tx ℕ
complete_upload now settings texts storage route id user_id user = do
  raise_if (not (may_upload user)) (Error.http 403 "Only students may upload submissions")
  (v, a) ← lookup (λ db. upload_context id user_id db) (Error.http 404 "Document version not found")
  retryable ← gets (is_retryable id v)
  if is_completed v.status then completed_already now id else (do
    raise_if (not (is_uploading v.status || retryable))
        (Error.http 409 "Document upload is invalid")
    complete_new now settings texts storage route id v a retryable)
