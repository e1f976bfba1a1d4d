-- ===== src/Submissions/Initiate.antt =====
-- Starting an upload, `initiate_upload` of backend/app/services/submission.py.
use doc_grading.Prelude.{
  ℕ, ◌+◌, String, Bool, true, false, not, ◌&&◌, ◌||◌, Option, none, some, [], ◌∷◌, find, find_by,
  put, leb, ltb, ◌==◌, if◌then◌else◌, str_eq, str_opt_eq, strip, concat, all_chars, len_text,
}
use doc_grading.Models.Enums.{uploading, document_status_value, job_status_value}
use doc_grading.Models.Json.{Json, Fields}
use doc_grading.Models.Rows.{User, Assignment, Submission, DocumentVersion, AnalysisJob}
use doc_grading.Models.Tx.{Tx, Error, pure, raise_if, lookup, gets, modify, new_uuid, ◌>>=◌, ◌>>◌}
use doc_grading.Jobs.Defs.{seconds, put_document}
use doc_grading.Review.Publish.{Digest, latest_document_id}
use doc_grading.Submissions.{
  UploadSettings, Texts, may_upload, is_closed_at, is_uploading, for_student, count_versions,
}

-- what the client says of its file
pub record UploadFile : Type 0 where
  pub filename : String
  pub content_type : String
  pub size_bytes : ℕ
  pub sha256 : String

-- a digit of "0123456789abcdef"
abbrev pub is_hex : ℕ → Bool
is_hex c = (leb b'0' c && leb c b'9') || (leb b'a' c && leb c b'f')

abbrev pub is_digest : String → Bool
is_digest s = len_text s == 64 && all_chars is_hex s

abbrev pub is_pdf : Texts → String → Bool
is_pdf texts content_type = str_eq (strip (texts.lower content_type)) "application/pdf"

-- `_fingerprint`, with the lower case of the digest
abbrev pub fingerprint_of : Digest → UploadFile → String → String
fingerprint_of digest file sha256 = digest (
    Fields.field "content_type" (Json.str file.content_type) (
      Fields.field "filename" (Json.str file.filename) (
        Fields.field "sha256" (Json.str sha256)
          (Fields.field "size_bytes" (Json.num file.size_bytes) Fields.end))))

-- `_presign_response` without the signed address, and `_reused_response`
pub data UploadResponse : Type 0 where
  presigned : ℕ → DocumentVersion → Bool → UploadResponse
  reused : ℕ → DocumentVersion → String → Option ℕ → UploadResponse

abbrev pub version_of : UploadResponse → ℕ
version_of (UploadResponse.presigned id v again) = id
version_of (UploadResponse.reused id v status job) = id

abbrev pub of_document : ℕ → AnalysisJob → Bool
of_document version_id job = job.document_version_id == version_id

abbrev pub with_job : ℕ → DocumentVersion → Option (ℕ × AnalysisJob) → UploadResponse
with_job id v none = UploadResponse.reused id v (document_status_value v.status) none
with_job id v (some (job_id, job)) =
    UploadResponse.reused id v (job_status_value job.status) (some job_id)

unfoldable pub reused_response : ℕ → DocumentVersion → Tx UploadResponse
reused_response id v = gets λ db. with_job id v (find_by (of_document id) db.jobs)

abbrev pub renewed_upload : ℕ → UploadSettings → DocumentVersion → DocumentVersion
renewed_upload now settings v = record v {
  upload_expires_at = some (now + seconds settings.storage_presign_expiry_seconds);
}

-- the answer for a version that is there: an upload that has not ended may go on
unfoldable pub again : ℕ → UploadSettings → ℕ → DocumentVersion → Tx UploadResponse
again now settings id v =
    if is_uploading v.status
    then (do
      put_document id (renewed_upload now settings v)
      pure (UploadResponse.presigned id (renewed_upload now settings v) true))
    else reused_response id v

abbrev pub is_under_key : ℕ → String → DocumentVersion → Bool
is_under_key submission_id key v =
    v.submission_id == submission_id && str_opt_eq v.idempotency_key (some key)

abbrev pub has_digest : ℕ → String → DocumentVersion → Bool
has_digest submission_id sha256 v = v.submission_id == submission_id && str_eq v.sha256 sha256

abbrev pub is_of_student : ℕ → ℕ → Submission → Bool
is_of_student assignment_id student_id s =
    s.assignment_id == assignment_id && s.student_id == student_id

abbrev pub or_new_submission : ℕ → ℕ → Option (ℕ × Submission) → Tx ℕ
or_new_submission assignment_id student_id (some (id, s)) = pure id
or_new_submission assignment_id student_id none = do
  id ← new_uuid
  modify λ db. record db {
    submissions =
        put id (record { assignment_id = assignment_id; student_id = student_id }) db.submissions;
  }
  pure id

-- the submission of the student, made if it is the first upload
unfoldable pub own_submission : ℕ → ℕ → Tx ℕ
own_submission assignment_id student_id db =
    or_new_submission assignment_id student_id
      (find_by (is_of_student assignment_id student_id) db.submissions) db

module _ (now : ℕ) (settings : UploadSettings) (texts : Texts) (digest : Digest) (user_id : ℕ)
    (key : String) (file : UploadFile) (sha256 : String) where
  abbrev pub new_version : ℕ → ℕ → Option ℕ → ℕ → DocumentVersion
  new_version submission_id count previous key_id = record {
    submission_id = submission_id;
    version_number = count + 1;
    previous_version_id = previous;
    storage_key =
        concat ("uploads/" ∷ texts.uuid_text user_id ∷ "/" ∷ texts.uuid_text key_id ∷ ".pdf" ∷ []);
    original_filename = file.filename;
    content_type = "application/pdf";
    size_bytes = file.size_bytes;
    page_count = none;
    sha256 = sha256;
    declared_sha256 = some sha256;
    idempotency_key = some key;
    idempotency_fingerprint = some (fingerprint_of digest file sha256);
    upload_expires_at = some (now + seconds settings.storage_presign_expiry_seconds);
    status = uploading;
    failure_code = none;
    failure_detail = none;
    validation_report = Json.obj Fields.end;
    approved_at = none;
    approved_by_user_id = none;
    approved_snapshot = none;
  }

  unfoldable pub create_version : ℕ → ℕ → Tx UploadResponse
  create_version max_submissions submission_id = do
    count ← gets λ db. count_versions submission_id db.documents
    raise_if (leb max_submissions count) (Error.http 409 "Submission attempt limit reached")
    previous ← gets (latest_document_id submission_id)
    id ← new_uuid
    key_id ← new_uuid
    let v = new_version submission_id count previous key_id
    put_document id v
    pure (UploadResponse.presigned id v false)

  -- what follows the look for a version with the same digest
  unfoldable pub or_create : ℕ → ℕ → Option (ℕ × DocumentVersion) → Tx UploadResponse
  or_create max_submissions submission_id (some (id, v)) = again now settings id v
  or_create max_submissions submission_id none = create_version max_submissions submission_id

  -- what follows the look for a version with the same key
  unfoldable pub or_look_further : ℕ → ℕ → Option (ℕ × DocumentVersion) → Tx UploadResponse
  or_look_further max_submissions submission_id (some (id, v)) = do
    raise_if (not (str_opt_eq v.idempotency_fingerprint (some (fingerprint_of digest file sha256))))
        (Error.http 409 "Idempotency key payload conflict")
    again now settings id v
  or_look_further max_submissions submission_id none = do
    duplicate ← gets λ db. find_by (has_digest submission_id sha256) db.documents
    or_create max_submissions submission_id duplicate

  unfoldable pub upload_version : Assignment → ℕ → Tx UploadResponse
  upload_version a submission_id = do
    existing ← gets λ db. find_by (is_under_key submission_id key) db.documents
    or_look_further a.max_submissions submission_id existing

unfoldable pub initiate_upload :
    ℕ → UploadSettings → Texts → Digest → ℕ → ℕ → User → String → UploadFile → Tx UploadResponse
initiate_upload now settings texts digest assignment_id user_id user key file = do
  raise_if (not (may_upload user)) (Error.http 403 "Only students may upload submissions")
  a ←
      lookup (λ db. for_student user_id db (find assignment_id db.assignments))
        (Error.http 404 "Assignment not found")
  let sha256 = texts.lower file.sha256
  raise_if (not (is_digest sha256)) (Error.http 422 "SHA-256 hint is invalid")
  raise_if (not (is_pdf texts file.content_type))
      (Error.http 422 "Only application/pdf is accepted")
  raise_if (ltb settings.pdf_max_size_bytes file.size_bytes)
      (Error.http 413 "PDF exceeds maximum size")
  raise_if (is_closed_at now a) (Error.http 409 "Assignment is not accepting submissions")
  submission_id ← own_submission assignment_id user_id
  upload_version now settings texts digest user_id key file sha256 a submission_id
