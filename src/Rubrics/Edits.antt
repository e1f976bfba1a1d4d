-- ===== src/Rubrics/Edits.antt =====
-- Edits of assignments and of rubrics, backend/app/services/assignment.py and rubric.py. What is
-- absent stays; a description may be set to nothing.
use doc_grading.Prelude.{
  ℕ, ◌+◌, String, Bool, true, false, not, ◌||◌, Option, none, some, [], ◌∷◌, find, find_by, remove,
  Table, is_some, or_else, str_opt_eq, eq_opt, ◌==◌, if◌then◌else◌, List,
}
use doc_grading.Models.Enums.{UserRole}
use doc_grading.Models.Json.{Json, Fields, str_or_null}
use doc_grading.Models.Rows.{Assignment, RubricVersion, CriterionVersion, AnalysisJob}
use doc_grading.Models.Tx.{Tx, Error, pure, raise_if, lookup, gets, modify, ◌>>=◌, ◌>>◌}
use doc_grading.Audit.{record_audit}
use doc_grading.Rubrics.Criteria.{
  assert_rubric_mutable, put_rubric, differs_str, differs_num, field_if,
}
use doc_grading.Rubrics.Assignments.{put_assignment, is_draft, check_rubric_ownership}

-- `description_set and description != old`
abbrev pub differs_text : Option (Option String) → Option String → Bool
differs_text none old = false
differs_text (some text) old = not (str_opt_eq text old)

abbrev pub text_after : Option (Option String) → Option String → Option String
text_after none old = old
text_after (some text) old = text

abbrev pub text_json : Option (Option String) → Json
text_json none = Json.null
text_json (some text) = str_or_null text

abbrev pub num_json : Option ℕ → Json
num_json none = Json.null
num_json (some n) = Json.num n

pub record AssignmentChange : Type 0 where
  pub title : Option String
  pub description : Option (Option String)
  pub due_at : Option ℕ
  pub max_submissions : Option ℕ
  pub rubric_version_id : Option ℕ

-- An assignment that an equal value skips leaves the same value.
abbrev pub edited_assignment : AssignmentChange → Assignment → Assignment
edited_assignment c a = record a {
  title = or_else c.title a.title;
  description = text_after c.description a.description;
  due_at = or_else c.due_at a.due_at;
  max_submissions = or_else c.max_submissions a.max_submissions;
  rubric_version_id = or_else c.rubric_version_id a.rubric_version_id;
  revision = a.revision + 1;
}

abbrev pub has_edits : AssignmentChange → Assignment → Bool
has_edits c a =
    differs_str c.title a.title
    || differs_text c.description a.description
    || differs_num c.due_at a.due_at
    || differs_num c.max_submissions a.max_submissions
    || differs_num c.rubric_version_id a.rubric_version_id

abbrev pub edits_before : AssignmentChange → Assignment → Fields
edits_before c a = field_if (differs_str c.title a.title) "title" (Json.str a.title) (
    field_if (differs_text c.description a.description) "description" (str_or_null a.description) (
      field_if (differs_num c.due_at a.due_at) "due_at" (Json.num a.due_at) (
        field_if (differs_num c.max_submissions a.max_submissions) "max_submissions"
          (Json.num a.max_submissions)
          (field_if (differs_num c.rubric_version_id a.rubric_version_id) "rubric_version_id"
            (Json.num a.rubric_version_id) Fields.end))))

abbrev pub edits_after : AssignmentChange → Assignment → Fields
edits_after c a = field_if (differs_str c.title a.title) "title" (str_or_null c.title) (
    field_if (differs_text c.description a.description) "description" (text_json c.description) (
      field_if (differs_num c.due_at a.due_at) "due_at" (num_json c.due_at) (
        field_if (differs_num c.max_submissions a.max_submissions) "max_submissions"
          (num_json c.max_submissions)
          (field_if (differs_num c.rubric_version_id a.rubric_version_id) "rubric_version_id"
            (num_json c.rubric_version_id) Fields.end))))

-- another rubric has to be there, and the caller's
unfoldable pub check_rubric_change : Option ℕ → ℕ → ℕ → List UserRole → Tx (Unit {0})
check_rubric_change none old actor_user_id roles = pure tt
check_rubric_change (some rubric_id) old actor_user_id roles =
    if rubric_id == old then pure tt else (do
      rv ← lookup (λ db. find rubric_id db.rubrics) (Error.http 404 "Rubric not found")
      check_rubric_ownership rv actor_user_id roles)

unfoldable pub store_edits : Bool → ℕ → ℕ → AssignmentChange → Assignment → Tx (Unit {0})
store_edits false id actor_user_id c a = pure tt
store_edits true id actor_user_id c a = do
  put_assignment id (edited_assignment c a)
  record_audit actor_user_id "Assignment" id "UPDATE" (some (edits_before c a))
      (some (edits_after c a)) "Assignment updated"

unfoldable pub update_assignment :
    ℕ → List UserRole → ℕ → Assignment → AssignmentChange → Tx (Unit {0})
update_assignment actor_user_id roles id a c = do
  raise_if (not (is_draft a.status)) (Error.http 409 "Only DRAFT assignments can be edited")
  check_rubric_change c.rubric_version_id a.rubric_version_id actor_user_id roles
  store_edits (has_edits c a) id actor_user_id c a

pub record RubricChange : Type 0 where
  pub name : Option String
  pub description : Option (Option String)
  pub calculation_method : Option String

abbrev pub edited_rubric : RubricChange → RubricVersion → RubricVersion
edited_rubric c rv = record rv {
  name = or_else c.name rv.name;
  description = text_after c.description rv.description;
  calculation_method = or_else c.calculation_method rv.calculation_method;
  revision = rv.revision + 1;
}

abbrev pub has_rubric_edits : RubricChange → RubricVersion → Bool
has_rubric_edits c rv =
    differs_str c.name rv.name
    || differs_text c.description rv.description
    || differs_str c.calculation_method rv.calculation_method

abbrev pub rubric_before : RubricChange → RubricVersion → Fields
rubric_before c rv = field_if (differs_str c.name rv.name) "name" (Json.str rv.name) (
    field_if (differs_text c.description rv.description) "description" (str_or_null rv.description)
      (field_if (differs_str c.calculation_method rv.calculation_method) "calculation_method"
        (Json.str rv.calculation_method) Fields.end))

abbrev pub rubric_after : RubricChange → RubricVersion → Fields
rubric_after c rv = field_if (differs_str c.name rv.name) "name" (str_or_null c.name) (
    field_if (differs_text c.description rv.description) "description" (text_json c.description) (
      field_if (differs_str c.calculation_method rv.calculation_method) "calculation_method"
        (str_or_null c.calculation_method) Fields.end))

unfoldable pub store_rubric : Bool → ℕ → ℕ → RubricChange → RubricVersion → Tx (Unit {0})
store_rubric false id actor_user_id c rv = pure tt
store_rubric true id actor_user_id c rv = do
  put_rubric id (edited_rubric c rv)
  record_audit actor_user_id "RubricVersion" id "UPDATE" (some (rubric_before c rv))
      (some (rubric_after c rv)) "Rubric version updated"

unfoldable pub update_rubric_version : ℕ → ℕ → RubricVersion → RubricChange → Tx (Unit {0})
update_rubric_version actor_user_id id rv c = do
  assert_rubric_mutable id
  store_rubric (has_rubric_edits c rv) id actor_user_id c rv

-- the criteria of a rubric are deleted with it
unfoldable pub without_criteria : ℕ → Table CriterionVersion → Table CriterionVersion
without_criteria rubric_id [] = []
without_criteria rubric_id ((id, c) ∷ t) =
    if c.rubric_version_id == rubric_id
    then without_criteria rubric_id t
    else (id, c) ∷ without_criteria rubric_id t

unfoldable pub delete_rubric_version : ℕ → ℕ → RubricVersion → Tx (Unit {0})
delete_rubric_version actor_user_id id rv = do
  assigned ← gets λ db. find_by (λ (a : Assignment). a.rubric_version_id == id) db.assignments
  raise_if (is_some assigned) (Error.http 409 "Cannot delete rubric referenced by assignment")
  analysed ← gets λ db. find_by (λ (j : AnalysisJob). j.rubric_version_id == id) db.jobs
  raise_if (is_some analysed) (Error.http 409 "Cannot delete rubric referenced by analysis job")
  derived ←
      gets λ db. find_by (λ (r : RubricVersion). eq_opt r.source_version_id (some id)) db.rubrics
  raise_if (is_some derived)
      (Error.http 409 "Cannot delete rubric referenced by derived rubric version")
  assert_rubric_mutable id
  record_audit actor_user_id "RubricVersion" id "DELETE"
      (some (
        Fields.field "name" (Json.str rv.name)
          (Fields.field "rubric_id" (Json.num rv.rubric_id) Fields.end)))
      none "Rubric version deleted"
  modify
      λ db. record db { rubrics = remove id db.rubrics; criteria = without_criteria id db.criteria }
