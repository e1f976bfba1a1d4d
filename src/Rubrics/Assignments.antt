-- ===== src/Rubrics/Assignments.antt =====
-- The life of an assignment, backend/app/services/assignment.py: DRAFT, OPEN, CLOSED.
use doc_grading.Prelude.{
  ℕ, ◌+◌, String, Bool, true, false, not, ◌&&◌, ◌||◌, Option, none, some, List, [], ◌∷◌, find, put,
  remove, find_by, is_some, all, any, ◌==◌, leb, Table, if◌then◌else◌, eq_opt,
}
use doc_grading.Models.Enums.{
  AssignmentStatus, draft, open_, closed, CourseStatus, UserRole, has_role, is_admin,
}
use doc_grading.Models.Json.{Json, Fields}
use doc_grading.Models.Rows.{Assignment, CriterionVersion, RubricVersion}
use doc_grading.Models.Tx.{Tx, Error, pure, raise_if, lookup, gets, modify, new_uuid, ◌>>=◌, ◌>>◌}
use doc_grading.Audit.{record_audit}

unfoldable pub put_assignment : ℕ → Assignment → Tx (Unit {0})
put_assignment id row = modify λ db. record db { assignments = put id row db.assignments }

abbrev pub is_draft : AssignmentStatus → Bool
is_draft draft = true
is_draft _ = false

abbrev pub is_open : AssignmentStatus → Bool
is_open open_ = true
is_open _ = false

abbrev is_archived : CourseStatus → Bool
is_archived CourseStatus.archived = true
is_archived CourseStatus.active = false

-- `levels == {0, 1, 2, 3, 4}` of the integers among the levels
abbrev within_scale : Option ℕ → Bool
within_scale none = true
within_scale (some n) = leb n 4

abbrev has_level : List (Option ℕ) → ℕ → Bool
has_level levels n = any (eq_opt (some n)) levels

unfoldable pub has_complete_level_scale : CriterionVersion → Bool
has_complete_level_scale c =
    all within_scale c.levels && all (has_level c.levels) (0 ∷ 1 ∷ 2 ∷ 3 ∷ 4 ∷ [])

-- the enabled criteria of a rubric
unfoldable pub enabled_criteria : ℕ → Table CriterionVersion → List CriterionVersion
enabled_criteria rubric_id [] = []
enabled_criteria rubric_id ((_, c) ∷ t) =
    if c.rubric_version_id == rubric_id && c.is_enabled
    then c ∷ enabled_criteria rubric_id t
    else enabled_criteria rubric_id t

unfoldable pub sum_weights : List CriterionVersion → ℕ
sum_weights [] = 0
sum_weights (c ∷ cs) = c.weight + sum_weights cs

-- `rv.owner_user_id != user_id` unless the caller is an administrator
unfoldable pub check_rubric_ownership : RubricVersion → ℕ → List UserRole → Tx (Unit {0})
check_rubric_ownership rv user_id roles =
    raise_if (not (has_role is_admin roles) && not (rv.owner_user_id == user_id))
      (Error.http 403 "You do not own this rubric")

abbrev new_assignment : ℕ → ℕ → ℕ → String → Option String → ℕ → ℕ → Assignment
new_assignment course_id teacher_id rubric_id title description due_at max_submissions = record {
  course_id = course_id;
  created_by_teacher_id = teacher_id;
  rubric_version_id = rubric_id;
  title = title;
  description = description;
  status = draft;
  due_at = due_at;
  max_submissions = max_submissions;
  revision = 1;
  published_at = none;
  closed_at = none;
  first_submission_at = none;
}

unfoldable pub create_assignment : ℕ → ℕ → List UserRole → ℕ → String → Option String → ℕ → ℕ → Tx ℕ
create_assignment course_id teacher_id roles rubric_id title description due_at max_submissions = do
  course ← lookup (λ db. find course_id db.courses) (Error.http 404 "Course not found")
  raise_if (is_archived course.status)
      (Error.http 409 "Cannot create assignments in an archived course")
  rv ← lookup (λ db. find rubric_id db.rubrics) (Error.http 404 "Rubric not found")
  check_rubric_ownership rv teacher_id roles
  id ← new_uuid
  put_assignment id
      (new_assignment course_id teacher_id rubric_id title description due_at max_submissions)
  record_audit teacher_id "Assignment" id "CREATE" none
      (some (
        Fields.field "title" (Json.str title) (
          Fields.field "course_id" (Json.num course_id)
            (Fields.field "rubric_version_id" (Json.num rubric_id) Fields.end))))
      "Assignment created"
  pure id

unfoldable pub delete_assignment : ℕ → ℕ → Assignment → Tx (Unit {0})
delete_assignment actor_user_id id assignment = do
  raise_if (not (is_draft assignment.status))
      (Error.http 409 "Only DRAFT assignments can be deleted")
  has_submission ← gets λ db. is_some (find_by (λ s. s.assignment_id == id) db.submissions)
  raise_if has_submission (Error.http 409 "Assignments with submissions cannot be deleted")
  record_audit actor_user_id "Assignment" id "DELETE"
      (some (
        Fields.field "course_id" (Json.num assignment.course_id)
          (Fields.field "title" (Json.str assignment.title) Fields.end)))
      none "Assignment deleted"
  modify λ db. record db { assignments = remove id db.assignments }

abbrev is_empty : List CriterionVersion → Bool
is_empty [] = true
is_empty _ = false

-- the tests of `publish_assignment` on the enabled criteria; a total of 100.00 is 10000 hundredths
unfoldable pub check_criteria : List CriterionVersion → Tx (Unit {0})
check_criteria criteria = do
  raise_if (is_empty criteria || not (sum_weights criteria == 10000)) (
      Error.http 422 "Assignment's rubric must have at least one enabled criterion totaling 100.00")
  raise_if (not (all has_complete_level_scale criteria))
      (Error.http 422 "Criterion must define score levels 0 through 4")

abbrev pub opened : ℕ → Assignment → Assignment
opened now a = record a { status = open_; published_at = some now; revision = a.revision + 1 }

unfoldable pub publish_assignment : ℕ → ℕ → ℕ → Assignment → Tx (Unit {0})
publish_assignment now actor_user_id id assignment = do
  raise_if (not (is_draft assignment.status))
      (Error.http 409 "Only DRAFT assignments can be published")
  criteria ← gets λ db. enabled_criteria assignment.rubric_version_id db.criteria
  check_criteria criteria
  put_assignment id (opened now assignment)
  record_audit actor_user_id "Assignment" id "PUBLISH"
      (some (Fields.field "status" (Json.str "DRAFT") Fields.end))
      (some (
        Fields.field "status" (Json.str "OPEN")
          (Fields.field "published_at" (Json.num now) Fields.end)))
      "Assignment published"

abbrev pub shut : ℕ → Assignment → Assignment
shut now a = record a { status = closed; closed_at = some now; revision = a.revision + 1 }

unfoldable pub close_assignment : ℕ → ℕ → ℕ → Assignment → Tx (Unit {0})
close_assignment now actor_user_id id assignment = do
  raise_if (not (is_open assignment.status)) (Error.http 409 "Only OPEN assignments can be closed")
  put_assignment id (shut now assignment)
  record_audit actor_user_id "Assignment" id "CLOSE"
      (some (Fields.field "status" (Json.str "OPEN") Fields.end))
      (some (
        Fields.field "status" (Json.str "CLOSED")
          (Fields.field "closed_at" (Json.num now) Fields.end)))
      "Assignment closed"
