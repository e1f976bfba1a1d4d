-- ===== src/Models/Enums.antt =====
-- The enumerations of backend/app/models/enums.py that the modelled services use.
use doc_grading.Prelude.{Bool, true, false, List, [], ◌∷◌, String, ◌||◌}

pub data UserRole : Type 0 where
  admin teacher student : UserRole

pub data UserStatus : Type 0 where
  active locked : UserStatus

pub data MembershipStatus : Type 0 where
  active removed : MembershipStatus

pub data JoinedVia : Type 0 where
  manual code : JoinedVia

pub data CourseStatus : Type 0 where
  active archived : CourseStatus

pub data AssignmentStatus : Type 0 where
  draft open_ closed archived : AssignmentStatus

pub data DocumentStatus : Type 0 where
  uploading validating invalid queued processing awaiting_review : DocumentStatus
  approved published processing_failed : DocumentStatus

pub data AnalysisJobStatus : Type 0 where
  queued running done error : AnalysisJobStatus

pub data ReviewDecisionType : Type 0 where
  accept edit reject : ReviewDecisionType

pub data ReviewRequestStatus : Type 0 where
  open_ resolved rejected : ReviewRequestStatus

pub data NotificationType : Type 0 where
  analysis_job_error result_published : NotificationType
  review_request_created review_request_resolved review_request_rejected : NotificationType

-- the values that the audit trail stores
abbrev pub document_status_value : DocumentStatus → String
document_status_value DocumentStatus.uploading = "UPLOADING"
document_status_value DocumentStatus.validating = "VALIDATING"
document_status_value DocumentStatus.invalid = "INVALID"
document_status_value DocumentStatus.queued = "QUEUED"
document_status_value DocumentStatus.processing = "PROCESSING"
document_status_value DocumentStatus.awaiting_review = "AWAITING_REVIEW"
document_status_value DocumentStatus.approved = "APPROVED"
document_status_value DocumentStatus.published = "PUBLISHED"
document_status_value DocumentStatus.processing_failed = "PROCESSING_FAILED"

abbrev pub job_status_value : AnalysisJobStatus → String
job_status_value AnalysisJobStatus.queued = "QUEUED"
job_status_value AnalysisJobStatus.running = "RUNNING"
job_status_value AnalysisJobStatus.done = "DONE"
job_status_value AnalysisJobStatus.error = "ERROR"

abbrev pub request_status_value : ReviewRequestStatus → String
request_status_value ReviewRequestStatus.open_ = "OPEN"
request_status_value ReviewRequestStatus.resolved = "RESOLVED"
request_status_value ReviewRequestStatus.rejected = "REJECTED"

abbrev pub is_admin : UserRole → Bool
is_admin UserRole.admin = true
is_admin _ = false

abbrev pub is_teacher : UserRole → Bool
is_teacher UserRole.teacher = true
is_teacher _ = false

abbrev pub is_student : UserRole → Bool
is_student UserRole.student = true
is_student _ = false

-- `role in user.roles`
abbrev pub has_role : (UserRole → Bool) → List UserRole → Bool
has_role p [] = false
has_role p (r ∷ rs) = p r || has_role p rs
