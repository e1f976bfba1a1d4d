-- ===== src/Review/Publish.antt =====
-- Approval and publication, backend/app/services/review.py: APPROVED results are frozen snapshots,
-- and each publication of a document makes the next version of its result.
use doc_grading.Prelude.{
  ℕ, ◌+◌, String, Bool, true, false, not, Option, none, some, [], ◌∷◌, find, put, ◌==◌, ltb, Table,
  if◌then◌else◌, is_blank, max,
}
use doc_grading.Models.Enums.{
  DocumentStatus, awaiting_review, approved, published, result_published, document_status_value,
}
use doc_grading.Models.Json.{Json, Items, Fields, get}
use doc_grading.Models.Rows.{User, Submission, DocumentVersion, PublishedResultVersion}
use doc_grading.Models.Db.{Db}
use doc_grading.Models.Tx.{
  lookup, Tx, Error, pure, raise_if, or_raise, gets, modify, new_uuid, ◌>>=◌, ◌>>◌,
}
use doc_grading.Audit.{record_audit}
use doc_grading.Notifications.{add_student_course_notification}
use doc_grading.Jobs.Defs.{put_document, status_field}
use doc_grading.Review.Access.{locked_document_context}
use doc_grading.Review.Commands.{Command, command_start, resume}
use doc_grading.Review.Snapshot.{AnchorIndex, approval_snapshot}

abbrev pub is_awaiting_review : DocumentStatus → Bool
is_awaiting_review awaiting_review = true
is_awaiting_review _ = false

abbrev pub is_approved : DocumentStatus → Bool
is_approved approved = true
is_approved _ = false

abbrev pub is_published : DocumentStatus → Bool
is_published published = true
is_published _ = false

-- The SHA-256 digest of a payload as canonical JSON.
abbrev pub Digest : Type 0
Digest = Fields → String

abbrev version_payload : ℕ → Fields
version_payload version_id = Fields.field "document_version_id" (Json.num version_id) Fields.end

abbrev pub command : Digest → ℕ → String → String → Fields → Command
command digest user_id action key payload = record {
  actor_user_id = user_id;
  action = action;
  idempotency_key = key;
  fingerprint = digest payload;
}

abbrev pub approve_command : Digest → ℕ → ℕ → String → Command
approve_command digest version_id user_id key =
    command digest user_id "APPROVE" key (version_payload version_id)

abbrev pub approved_row : ℕ → ℕ → Json → DocumentVersion → DocumentVersion
approved_row now user_id snapshot version = record version {
  status = approved;
  approved_at = some now;
  approved_by_user_id = some user_id;
  approved_snapshot = some snapshot;
}

abbrev pub approval_response : ℕ → String → ℕ → Fields
approval_response version_id status approved_at =
    Fields.field "document_version_id" (Json.num version_id) (
      Fields.field "status" (Json.str status)
        (Fields.field "approved_at" (Json.num approved_at) Fields.end))

-- what `approve_document_version` does when there is no replay
unfoldable pub approve_new : ℕ → AnchorIndex → ℕ → ℕ → User → Tx Fields
approve_new now index version_id user_id user = do
  (course_id, submission, version) ← locked_document_context version_id user_id user
  raise_if (not (is_awaiting_review version.status))
      (Error.http 409 "Document is not awaiting review")
  snapshot ← approval_snapshot index version_id version.submission_id
  put_document version_id (approved_row now user_id snapshot version)
  record_audit user_id "DocumentVersion" version_id "APPROVE"
      (some (status_field (document_status_value version.status)))
      (some (
        Fields.field "status" (Json.str "APPROVED") (
          Fields.field "approved_at" (Json.num now)
            (Fields.field "approved_by_user_id" (Json.num user_id) Fields.end))))
      "Teacher approved review snapshot"
  pure (approval_response version_id "APPROVED" now)

unfoldable pub approve_document_version :
    Digest → ℕ → AnchorIndex → ℕ → ℕ → User → String → Tx Fields
approve_document_version digest now index version_id user_id user key = do
  replay ← command_start (approve_command digest version_id user_id key)
  resume (approve_command digest version_id user_id key)
      (approve_new now index version_id user_id user) replay

-- `latest_number or 0`: the highest version number among the results of a document
unfoldable pub latest_number : ℕ → Table PublishedResultVersion → ℕ
latest_number version_id [] = 0
latest_number version_id ((_, r) ∷ t) =
    if r.document_version_id == version_id
    then max r.version_number (latest_number version_id t)
    else latest_number version_id t

abbrev pub new_result : ℕ → ℕ → ℕ → ℕ → ℕ → ℕ → Json → PublishedResultVersion
new_result now version_id number user_id approved_by approved_at snapshot = record {
  document_version_id = version_id;
  version_number = number;
  approved_by_user_id = approved_by;
  published_by_user_id = user_id;
  approved_at = approved_at;
  published_at = now;
  snapshot = snapshot;
}

unfoldable pub add_result : ℕ → PublishedResultVersion → Tx (Unit {0})
add_result id result =
    modify λ db. record db { published_results = put id result db.published_results }

-- the approved snapshot with its approver and time, if all three are there
unfoldable pub approval_of : DocumentVersion → Option (Json × ℕ × ℕ)
approval_of version = elim version.approved_snapshot [
  | none ↦ none
  | some snapshot ↦ elim version.approved_at [
    | none ↦ none
    | some at ↦ elim version.approved_by_user_id [
      | none ↦ none
      | some by_ ↦ some (snapshot, at, by_)
    ]
  ]
]

-- `_publish_locked`: a new result from the approved snapshot, and a notice to the student
unfoldable pub publish_locked :
    ℕ → ℕ → DocumentVersion → Submission → ℕ → ℕ → String → Tx (ℕ × PublishedResultVersion)
publish_locked now version_id version submission course_id user_id reason = do
  raise_if (not (is_approved version.status)) (Error.http 409 "Document is not approved")
  (snapshot, approved_at, approved_by) ←
      or_raise (approval_of version) (Error.http 409 "Approved snapshot is missing")
  latest ← gets λ db. latest_number version_id db.published_results
  id ← new_uuid
  let result = new_result now version_id (latest + 1) user_id approved_by approved_at snapshot
  add_result id result
  add_student_course_notification submission.student_id course_id result_published (
      Fields.field "published_result_version_id" (Json.num id)
        (Fields.field "submission_id" (Json.num version.submission_id) Fields.end))
  put_document version_id (record version { status = published })
  record_audit user_id "DocumentVersion" version_id "PUBLISH"
      (some (status_field (document_status_value version.status)))
      (some (
        Fields.field "status" (Json.str "PUBLISHED") (
          Fields.field "published_result_id" (Json.num id) (
            Fields.field "version_number" (Json.num (latest + 1)) (
              Fields.field "approved_at" (Json.num approved_at) (
                Fields.field "approved_by_user_id" (Json.num approved_by)
                  (Fields.field "published_at" (Json.num now) Fields.end)))))))
      reason
  pure (id, result)

abbrev pub snapshot_field : String → Json → Json → Json
snapshot_field key (Json.obj snapshot) default = elim (get key snapshot) [
  | none ↦ default
  | some v ↦ v
]
snapshot_field key _ default = default

-- `_published_response` of a snapshot whose findings carry the labels of their criteria
abbrev published_response : ℕ → PublishedResultVersion → ℕ → Fields
published_response id result submission_id = Fields.field "published_result_id" (Json.num id) (
    Fields.field "submission_id" (Json.num submission_id) (
      Fields.field "document_version_id" (Json.num result.document_version_id) (
        Fields.field "version_number" (Json.num result.version_number) (
          Fields.field "published_at" (Json.num result.published_at) (
            Fields.field "comment" (snapshot_field "comment" result.snapshot (Json.str "")) (
              Fields.field "findings"
                (snapshot_field "findings" result.snapshot (Json.arr Items.nil)) Fields.end))))))

abbrev pub publish_command : Digest → ℕ → ℕ → String → String → Command
publish_command digest version_id user_id key reason = command digest user_id "PUBLISH" key (
    Fields.field "document_version_id" (Json.num version_id)
      (Fields.field "reason" (Json.str reason) Fields.end))

abbrev pub blank_reason : Error
blank_reason = Error.http 422 "Reason must not be blank"

unfoldable pub publish_new : ℕ → ℕ → ℕ → User → String → Tx Fields
publish_new now version_id user_id user reason = do
  raise_if (is_blank reason) blank_reason
  (course_id, submission, version) ← locked_document_context version_id user_id user
  (id, result) ← publish_locked now version_id version submission course_id user_id reason
  pure (published_response id result version.submission_id)

-- `model_validate` of `PublishedResultResponse` accepts the fields
abbrev pub Schema : Type 0
Schema = Fields → Bool

abbrev result_id_of : Option Json → Option ℕ
result_id_of (some (Json.num id)) = some id
result_id_of _ = none

-- the result with the submission of its document
abbrev result_with_submission : ℕ → Db → Option (PublishedResultVersion × ℕ)
result_with_submission id db = elim (find id db.published_results) [
  | none ↦ none
  | some result ↦ elim (find result.document_version_id db.documents) [
    | none ↦ none
    | some version ↦ some (result, version.submission_id)
  ]
]

-- a response that the schema accepts; otherwise a `ValidationError`
abbrev pub validated : Schema → Fields → Tx Fields
validated schema response = do raise_if (not (schema response)) Error.value_error; pure response

-- the response of the result that a stored response names
unfoldable pub restored : Schema → Fields → Tx Fields
restored schema response = do
  id ←
      or_raise (result_id_of (get "published_result_id" response))
        (Error.http 500 "Persisted publish response is invalid")
  (result, submission_id) ←
      lookup (result_with_submission id)
        (Error.http 500 "Persisted bulk publish response is invalid")
  validated schema (published_response id result submission_id)

-- a stored response as it is, or restored where the schema refuses it; and a new one as it is
unfoldable pub answer : Schema → Option Fields → Fields → Tx Fields
answer schema none response = validated schema response
answer schema (some stored) response = if schema stored then pure stored else restored schema stored

unfoldable pub publish_document_version :
    Schema → Digest → ℕ → ℕ → ℕ → User → String → String → Tx Fields
publish_document_version schema digest now version_id user_id user key reason = do
  replay ← command_start (publish_command digest version_id user_id key reason)
  response ←
      resume (publish_command digest version_id user_id key reason)
        (publish_new now version_id user_id user reason) replay
  answer schema replay response

-- the document version with the highest number, `_latest_document_id`
abbrev higher_of : ℕ × ℕ → Option (ℕ × ℕ) → Option (ℕ × ℕ)
higher_of a none = some a
higher_of (i, m) (some (j, n)) = if ltb m n then some (j, n) else some (i, m)

unfoldable pub latest_version : ℕ → Table DocumentVersion → Option (ℕ × ℕ)
latest_version submission_id [] = none
latest_version submission_id ((id, d) ∷ t) =
    if d.submission_id == submission_id
    then higher_of (id, d.version_number) (latest_version submission_id t)
    else latest_version submission_id t

abbrev pub latest_document_id : ℕ → Db → Option ℕ
latest_document_id submission_id db = elim (latest_version submission_id db.documents) [
  | none ↦ none
  | some (id, _) ↦ some id
]

unfoldable pub latest_result : ℕ → Table PublishedResultVersion → Option (ℕ × ℕ)
latest_result version_id [] = none
latest_result version_id ((id, r) ∷ t) =
    if r.document_version_id == version_id
    then higher_of (id, r.version_number) (latest_result version_id t)
    else latest_result version_id t

abbrev pub latest_result_id : ℕ → Db → Option ℕ
latest_result_id version_id db = elim (latest_result version_id db.published_results) [
  | none ↦ none
  | some (id, _) ↦ some id
]
