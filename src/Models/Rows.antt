-- ===== src/Models/Rows.antt =====
-- The rows of the tables, backend/app/models/*.py. A `uuid` is a number, a `datetime` a number of
-- microseconds.
use doc_grading.Prelude.{ℕ, String, Bool, Option, List}
use doc_grading.Models.Enums.{
  UserRole, UserStatus, MembershipStatus, JoinedVia, CourseStatus, AssignmentStatus, DocumentStatus,
  AnalysisJobStatus, NotificationType, ReviewRequestStatus, ReviewDecisionType,
}
use doc_grading.Models.Json.{Json, Fields}

pub record User : Type 0 where
  pub email : String
  pub password_hash : String
  pub roles : List UserRole
  pub status : UserStatus
  pub revision : ℕ
  pub failed_login_attempts : ℕ
  pub failed_login_window_started_at : Option ℕ
  pub login_locked_until : Option ℕ

pub record Course : Type 0 where
  pub code : String
  pub name : String
  pub term : String
  pub owner_teacher_id : ℕ
  pub status : CourseStatus
  pub revision : ℕ

pub record Announcement : Type 0 where
  pub course_id : ℕ
  pub created_by_user_id : ℕ
  pub title : String
  pub body : String

pub record CourseInvite : Type 0 where
  pub course_id : ℕ
  pub email : String
  pub created_by_user_id : ℕ

pub record CourseJoinCode : Type 0 where
  pub course_id : ℕ
  pub code : String
  pub expires_at : ℕ
  pub revoked_at : Option ℕ
  pub created_at : ℕ

pub record JoinRateLimit : Type 0 where
  pub subject_hash : String
  pub window_started_at : ℕ
  pub request_count : ℕ

-- a membership with the role STUDENT
pub record Membership : Type 0 where
  pub course_id : ℕ
  pub user_id : ℕ
  pub status : MembershipStatus
  pub joined_via : JoinedVia
  pub joined_at : ℕ

pub record Assignment : Type 0 where
  pub course_id : ℕ
  pub created_by_teacher_id : ℕ
  pub rubric_version_id : ℕ
  pub title : String
  pub description : Option String
  pub status : AssignmentStatus
  pub due_at : ℕ
  pub max_submissions : ℕ
  pub revision : ℕ
  pub published_at : Option ℕ
  pub closed_at : Option ℕ
  pub first_submission_at : Option ℕ

pub record Submission : Type 0 where
  pub assignment_id : ℕ
  pub student_id : ℕ

pub record DocumentVersion : Type 0 where
  pub submission_id : ℕ
  pub version_number : ℕ
  pub previous_version_id : Option ℕ
  pub storage_key : String
  pub original_filename : String
  pub content_type : String
  pub size_bytes : ℕ
  pub page_count : Option ℕ
  pub sha256 : String
  pub declared_sha256 : Option String
  pub idempotency_key : Option String
  pub idempotency_fingerprint : Option String
  pub upload_expires_at : Option ℕ
  pub status : DocumentStatus
  pub failure_code : Option String
  pub failure_detail : Option String
  pub validation_report : Json
  pub approved_at : Option ℕ
  pub approved_by_user_id : Option ℕ
  pub approved_snapshot : Option Json

pub record AnalysisJob : Type 0 where
  pub document_version_id : ℕ
  pub rubric_version_id : ℕ
  pub status : AnalysisJobStatus
  pub attempt_count : ℕ
  pub max_attempts : ℕ
  pub snapshot : Fields
  pub queued_at : ℕ
  pub started_at : Option ℕ
  pub heartbeat_at : Option ℕ
  pub finished_at : Option ℕ
  pub error_code : Option String
  pub error_detail : Option String

-- the outbox; its key is the unique `analysis_job_id`
pub record AnalysisJobDispatch : Type 0 where
  pub attempt_count : ℕ
  pub next_attempt_at : ℕ
  pub created_at : ℕ

pub record Notification : Type 0 where
  pub recipient_id : ℕ
  pub type : NotificationType
  pub payload : Fields
  pub read_at : Option ℕ

-- `actor_user_id` is `none` for the actor type SYSTEM
pub record AuditEvent : Type 0 where
  pub resource_type : String
  pub resource_id : ℕ
  pub action : String
  pub actor_user_id : Option ℕ
  pub before : Option Fields
  pub after : Option Fields
  pub reason : String

-- its key is the unique `submission_id`
pub record ReviewLock : Type 0 where
  pub id : ℕ
  pub reviewer_user_id : ℕ
  pub acquired_at : ℕ
  pub expires_at : ℕ

pub record ReviewCommand : Type 0 where
  pub actor_user_id : ℕ
  pub action : String
  pub idempotency_key : String
  pub request_fingerprint : String
  pub response : Fields

pub record PublishedResultVersion : Type 0 where
  pub document_version_id : ℕ
  pub version_number : ℕ
  pub approved_by_user_id : ℕ
  pub published_by_user_id : ℕ
  pub approved_at : ℕ
  pub published_at : ℕ
  pub snapshot : Json

pub record ReviewRequest : Type 0 where
  pub published_result_id : ℕ
  pub submission_id : ℕ
  pub student_id : ℕ
  pub criterion_version_id : ℕ
  pub finding_id : Option ℕ
  pub status : ReviewRequestStatus
  pub reason : String
  pub response : Option String
  pub responded_by_user_id : Option ℕ
  pub responded_at : Option ℕ

-- A score is a number of hundredths, as in the numeric columns with two decimal places.
pub record Finding : Type 0 where
  pub analysis_job_id : ℕ
  pub criterion_version_id : ℕ
  pub proposed_score : Option ℕ
  pub description : String
  pub suggestion : Option String

pub record EvidenceAnchor : Type 0 where
  pub finding_id : ℕ
  pub document_ir_id : ℕ
  pub element_id : String
  pub page_number : ℕ

pub record ReviewDraft : Type 0 where
  pub submission_id : ℕ
  pub document_version_id : ℕ
  pub reviewer_user_id : ℕ
  pub revision : ℕ
  pub comment : String
  pub updated_at : ℕ

pub record ReviewDecision : Type 0 where
  pub review_draft_id : ℕ
  pub finding_id : ℕ
  pub decision : ReviewDecisionType
  pub edited_description : Option String
  pub final_score : Option ℕ
  pub edited_semantic_verdict : Option String
  pub reason : Option String

-- A weight is a number of hundredths; of a criterion's levels only the integer `level` is kept.
pub record RubricVersion : Type 0 where
  pub rubric_id : ℕ
  pub version_number : ℕ
  pub source_version_id : Option ℕ
  pub owner_user_id : ℕ
  pub name : String
  pub description : Option String
  pub calculation_method : String
  pub total_weight : ℕ
  pub revision : ℕ

pub record CriterionVersion : Type 0 where
  pub criterion_id : ℕ
  pub rubric_version_id : ℕ
  pub code : String
  pub title : String
  pub description : String
  pub scope : Option String
  pub weight : ℕ
  pub position : ℕ
  pub is_enabled : Bool
  pub evaluation_method : String
  pub levels : List (Option ℕ)
  pub revision : ℕ

pub record Session : Type 0 where
  pub user_id : ℕ
  pub created_at : ℕ
  pub expires_at : ℕ
  pub revoked_at : Option ℕ
