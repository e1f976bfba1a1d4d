-- ===== src/Models/Db.antt =====
-- The database as a record of tables.
use doc_grading.Prelude.{ℕ, List, Table}
use doc_grading.Models.Rows.{
  User, Course, Membership, Assignment, Submission, DocumentVersion, AnalysisJob,
  AnalysisJobDispatch, Notification, AuditEvent, ReviewLock, ReviewCommand, PublishedResultVersion,
  ReviewRequest, Finding, EvidenceAnchor, ReviewDraft, ReviewDecision, RubricVersion,
  CriterionVersion, Session, Announcement, CourseInvite, CourseJoinCode, JoinRateLimit,
}

-- `next_uuid` is what `uuid.uuid4()` yields next: an identifier that no row has.
pub record Db : Type 0 where
  pub next_uuid : ℕ
  pub users : Table User
  pub courses : Table Course
  pub memberships : Table Membership
  pub assignments : Table Assignment
  pub submissions : Table Submission
  pub documents : Table DocumentVersion
  pub jobs : Table AnalysisJob
  pub dispatches : Table AnalysisJobDispatch
  pub notifications : Table Notification
  pub audit_events : List AuditEvent
  pub review_locks : Table ReviewLock
  pub review_commands : Table ReviewCommand
  pub published_results : Table PublishedResultVersion
  pub review_requests : Table ReviewRequest
  pub findings : Table Finding
  pub evidence_anchors : Table EvidenceAnchor
  -- the document IR of a document version
  pub document_irs : Table ℕ
  pub review_drafts : Table ReviewDraft
  pub review_decisions : Table ReviewDecision
  pub rubrics : Table RubricVersion
  pub criteria : Table CriterionVersion
  pub sessions : Table Session
  pub announcements : Table Announcement
  pub invites : Table CourseInvite
  pub join_codes : Table CourseJoinCode
  pub join_rate_limits : Table JoinRateLimit
