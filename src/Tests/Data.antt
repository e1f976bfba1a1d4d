-- ===== src/Tests/Data.antt =====
-- A small course: one teacher, one student, one assignment, one document.
use doc_grading.Prelude.{true, none, some, [], ◌∷◌}
use doc_grading.Models.Enums.{
  UserRole, UserStatus, MembershipStatus, JoinedVia, CourseStatus, AssignmentStatus, DocumentStatus,
}
use doc_grading.Models.Json.{Json, Fields}
use doc_grading.Models.Rows.{
  User, Assignment, DocumentVersion, AnalysisJob, RubricVersion, CriterionVersion, ReviewDraft,
}
use doc_grading.Models.Db.{Db}
use doc_grading.Jobs.Defs.{new_job}

abbrev pub teacher : User
teacher = record {
  email = "an@example.org";
  password_hash = "hash";
  roles = UserRole.teacher ∷ [];
  status = UserStatus.active;
  revision = 1;
  failed_login_attempts = 0;
  failed_login_window_started_at = none;
  login_locked_until = none;
}

abbrev pub document : DocumentStatus → DocumentVersion
document status = record {
  submission_id = 7;
  version_number = 1;
  previous_version_id = none;
  storage_key = "k";
  original_filename = "essay.pdf";
  content_type = "application/pdf";
  size_bytes = 1000;
  page_count = none;
  sha256 = "";
  declared_sha256 = none;
  idempotency_key = none;
  idempotency_fingerprint = none;
  upload_expires_at = none;
  status = status;
  failure_code = none;
  failure_detail = none;
  validation_report = Json.obj Fields.end;
  approved_at = none;
  approved_by_user_id = none;
  approved_snapshot = none;
}

abbrev pub rubric : RubricVersion
rubric = record {
  rubric_id = 12;
  version_number = 1;
  source_version_id = none;
  owner_user_id = 1;
  name = "essay";
  description = none;
  calculation_method = "WEIGHTED_SUM";
  total_weight = 10000;
  revision = 1;
}

abbrev pub criterion : CriterionVersion
criterion = record {
  criterion_id = 11;
  rubric_version_id = 4;
  code = "C";
  title = "Clarity";
  description = "";
  scope = none;
  weight = 10000;
  position = 1;
  is_enabled = true;
  evaluation_method = "AI";
  levels = some 0 ∷ some 1 ∷ some 2 ∷ some 3 ∷ some 4 ∷ [];
  revision = 1;
}

abbrev pub assignment : Assignment
assignment = record {
  course_id = 3;
  created_by_teacher_id = 1;
  rubric_version_id = 4;
  title = "Essay";
  description = none;
  status = AssignmentStatus.draft;
  due_at = 100;
  max_submissions = 3;
  revision = 1;
  published_at = none;
  closed_at = none;
  first_submission_at = none;
}

abbrev pub draft : ReviewDraft
draft = record {
  submission_id = 7;
  document_version_id = 8;
  reviewer_user_id = 1;
  revision = 2;
  comment = "Well done";
  updated_at = 5;
}

-- the course with the document in the given state
abbrev pub school : DocumentVersion → Db
school doc = record {
  next_uuid = 100;
  users = (1, teacher) ∷ [];
  courses =
      (
        3,
        record {
          code = "C1";
          name = "Writing";
          term = "1";
          owner_teacher_id = 1;
          status = CourseStatus.active;
          revision = 1;
        },
      )
      ∷ [];
  memberships =
      (
        6,
        record {
          course_id = 3;
          user_id = 2;
          status = MembershipStatus.active;
          joined_via = JoinedVia.code;
          joined_at = 0;
        },
      )
      ∷ [];
  assignments = (5, assignment) ∷ [];
  submissions = (7, record { assignment_id = 5; student_id = 2 }) ∷ [];
  documents = (8, doc) ∷ [];
  jobs = [];
  dispatches = [];
  notifications = [];
  audit_events = [];
  review_locks = [];
  review_commands = [];
  published_results = [];
  review_requests = [];
  findings = [];
  evidence_anchors = [];
  document_irs = [];
  review_drafts = (9, draft) ∷ [];
  review_decisions = [];
  rubrics = (4, rubric) ∷ [];
  criteria = (10, criterion) ∷ [];
  sessions = [];
  announcements = [];
  invites = [];
  join_codes = [];
  join_rate_limits = [];
}

abbrev pub queued_job : AnalysisJob
queued_job = new_job 1000 8 4 none
