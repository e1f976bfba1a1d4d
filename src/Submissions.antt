-- ===== src/Submissions.antt =====
-- What the two halves of an upload share, backend/app/services/submission.py: who may upload, when
-- an assignment accepts an upload, and the versions of a submission.
pub mod Initiate
pub mod Numbers
pub mod Versions
pub mod Uploads
pub mod Complete
pub mod Completion
pub mod Outage
pub mod Sealing
pub mod Recovery
use doc_grading.Prelude.{
  ℕ, ◌+◌, String, Bool, true, false, not, ◌&&◌, ◌||◌, Option, none, some, [], ◌∷◌, find_by, find,
  leb, ◌==◌, Table, is_none, if◌then◌else◌,
}
use doc_grading.Models.Enums.{
  AssignmentStatus, DocumentStatus, uploading, has_role, is_admin, is_teacher, is_student,
}
use doc_grading.Models.Rows.{User, Assignment, Submission, DocumentVersion}
use doc_grading.Models.Db.{Db}
use doc_grading.Notifications.{is_active_student_of}

pub record UploadSettings : Type 0 where
  pub pdf_max_size_bytes : ℕ
  pub storage_presign_expiry_seconds : ℕ

-- what the code takes from Python's libraries: `str.lower`, the text of a `UUID`
pub record Texts : Type 0 where
  pub lower : String → String
  pub uuid_text : ℕ → String

-- `_require_student_upload_actor`
abbrev pub may_upload : User → Bool
may_upload user =
    has_role is_student user.roles
    && not (has_role is_admin user.roles)
    && not (has_role is_teacher user.roles)

abbrev pub accepts : AssignmentStatus → Bool
accepts AssignmentStatus.open_ = true
accepts _ = false

-- `assignment.status != OPEN or assignment.due_at <= now`
abbrev pub is_closed_at : ℕ → Assignment → Bool
is_closed_at now a = not (accepts a.status) || leb a.due_at now

abbrev pub is_uploading : DocumentStatus → Bool
is_uploading uploading = true
is_uploading _ = false

-- the assignment, if the user is an active student of its course
abbrev pub for_student : ℕ → Db → Option Assignment → Option Assignment
for_student user_id db none = none
for_student user_id db (some a) =
    if is_none (find_by (is_active_student_of a.course_id user_id) db.memberships)
    then none
    else some a

-- `count(DocumentVersion.id)` of a submission
unfoldable pub count_versions : ℕ → Table DocumentVersion → ℕ
count_versions submission_id [] = 0
count_versions submission_id ((_, d) ∷ t) =
    if d.submission_id == submission_id
    then count_versions submission_id t + 1
    else count_versions submission_id t
