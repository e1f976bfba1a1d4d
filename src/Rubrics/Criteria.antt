-- ===== src/Rubrics/Criteria.antt =====
-- The criteria of a rubric, backend/app/services/rubric.py. The rubric carries the total of the
-- weights of its enabled criteria. The columns `evaluator_config` and `evidence_requirements`, which
-- nothing here reads, are left out.
use doc_grading.Prelude.{
  ℕ, ◌+◌, ◌-◌, String, Bool, true, false, not, ◌&&◌, ◌||◌, Option, none, some, List, [], ◌∷◌, put,
  remove, find_by, is_some, or_else, ◌==◌, str_eq, if◌then◌else◌,
}
use doc_grading.Models.Json.{Json, Items, num_or_null, str_or_null, Fields, str_or_null}
use doc_grading.Models.Rows.{RubricVersion, CriterionVersion, Assignment}
use doc_grading.Models.Tx.{Tx, Error, pure, raise_if, gets, modify, new_uuid, ◌>>=◌, ◌>>◌}
use doc_grading.Audit.{record_audit}

unfoldable pub put_rubric : ℕ → RubricVersion → Tx (Unit {0})
put_rubric id row = modify λ db. record db { rubrics = put id row db.rubrics }

unfoldable pub put_criterion : ℕ → CriterionVersion → Tx (Unit {0})
put_criterion id row = modify λ db. record db { criteria = put id row db.criteria }

unfoldable pub delete_criterion_row : ℕ → Tx (Unit {0})
delete_criterion_row id = modify λ db. record db { criteria = remove id db.criteria }

abbrev pub is_frozen_by : ℕ → Assignment → Bool
is_frozen_by rubric_version_id a =
    a.rubric_version_id == rubric_version_id && is_some a.first_submission_at

-- `_assert_rubric_mutable`; the function in the database makes the same test
unfoldable pub assert_rubric_mutable : ℕ → Tx (Unit {0})
assert_rubric_mutable id = do
  frozen ← gets λ db. is_some (find_by (is_frozen_by id) db.assignments)
  raise_if frozen (Error.http 409 "Rubric is immutable after first assignment submission")

-- `rubric_id or uuid.uuid4()`
unfoldable pub or_new_id : Option ℕ → Tx ℕ
or_new_id (some id) = pure id
or_new_id none = new_uuid

-- what `create_rubric_version` is given besides the users; a version of a rubric names its source
pub record NewRubric : Type 0 where
  pub name : String
  pub description : Option String
  pub calculation_method : String
  pub rubric_id : Option ℕ
  pub version_number : ℕ
  pub source_version_id : Option ℕ

abbrev pub new_rubric : ℕ → ℕ → NewRubric → RubricVersion
new_rubric owner_user_id rubric_id r = record {
  rubric_id = rubric_id;
  version_number = r.version_number;
  source_version_id = r.source_version_id;
  owner_user_id = owner_user_id;
  name = r.name;
  description = r.description;
  calculation_method = r.calculation_method;
  total_weight = 0;
  revision = 1;
}

unfoldable pub create_rubric_version : ℕ → ℕ → NewRubric → Tx ℕ
create_rubric_version owner_user_id created_by_user_id r = do
  id ← new_uuid
  rubric_id ← or_new_id r.rubric_id
  put_rubric id (new_rubric owner_user_id rubric_id r)
  record_audit created_by_user_id "RubricVersion" id "CREATE" none
      (some (
        Fields.field "name" (Json.str r.name)
          (Fields.field "calculation_method" (Json.str r.calculation_method) Fields.end)))
      "Rubric version created"
  pure id

-- the weight that a criterion adds to the total
abbrev pub enabled_part : Bool → ℕ → ℕ
enabled_part true weight = weight
enabled_part false weight = 0

-- what `add_criterion` is given
pub record NewCriterion : Type 0 where
  pub code : String
  pub title : String
  pub description : String
  pub weight : ℕ
  pub position : ℕ
  pub evaluation_method : String
  pub scope : Option String
  pub is_enabled : Bool
  pub levels : Option (List (Option ℕ))

abbrev pub new_criterion : ℕ → ℕ → NewCriterion → CriterionVersion
new_criterion criterion_id rubric_version_id c = record {
  criterion_id = criterion_id;
  rubric_version_id = rubric_version_id;
  code = c.code;
  title = c.title;
  description = c.description;
  scope = c.scope;
  weight = c.weight;
  position = c.position;
  is_enabled = c.is_enabled;
  evaluation_method = c.evaluation_method;
  levels = or_else c.levels [];
  revision = 1;
}

-- the total after the weight `old` has been replaced by `new`
abbrev pub moved_total : ℕ → ℕ → RubricVersion → RubricVersion
moved_total old new rv = record rv {
  total_weight = rv.total_weight + new - old;
  revision = rv.revision + 1;
}

unfoldable pub add_criterion : ℕ → ℕ → RubricVersion → NewCriterion → Tx ℕ
add_criterion actor_user_id rubric_id rv c = do
  assert_rubric_mutable rubric_id
  id ← new_uuid
  criterion_id ← new_uuid
  put_criterion id (new_criterion criterion_id rubric_id c)
  put_rubric rubric_id (moved_total 0 (enabled_part c.is_enabled c.weight) rv)
  record_audit actor_user_id "CriterionVersion" id "CREATE" none
      (some (
        Fields.field "code" (Json.str c.code) (
          Fields.field "title" (Json.str c.title) (
            Fields.field "weight" (Json.num c.weight)
              (Fields.field "rubric_version_id" (Json.num rubric_id) Fields.end)))))
      "Criterion added to rubric"
  pure id

-- what `update_criterion` is given: what is absent stays
pub record CriterionChange : Type 0 where
  pub title : Option String
  pub description : Option String
  pub weight : Option ℕ
  pub position : Option ℕ
  pub is_enabled : Option Bool
  pub evaluation_method : Option String
  pub scope : Option String
  pub levels : Option (List (Option ℕ))

abbrev scope_after : Option String → Option String → Option String
scope_after none old = old
scope_after (some scope) old = some scope

-- An assignment that an equal value skips leaves the same value.
abbrev pub changed_criterion : CriterionChange → CriterionVersion → CriterionVersion
changed_criterion c cv = record cv {
  title = or_else c.title cv.title;
  description = or_else c.description cv.description;
  weight = or_else c.weight cv.weight;
  position = or_else c.position cv.position;
  is_enabled = or_else c.is_enabled cv.is_enabled;
  evaluation_method = or_else c.evaluation_method cv.evaluation_method;
  scope = scope_after c.scope cv.scope;
  levels = or_else c.levels cv.levels;
  revision = cv.revision + 1;
}

-- `value is not None and value != old`
abbrev pub differs_str : Option String → String → Bool
differs_str none old = false
differs_str (some s) old = not (str_eq s old)

abbrev pub differs_num : Option ℕ → ℕ → Bool
differs_num none old = false
differs_num (some n) old = not (n == old)

abbrev differs_bool : Option Bool → Bool → Bool
differs_bool none old = false
differs_bool (some true) old = not old
differs_bool (some false) old = old

-- `if after:`
abbrev pub has_changes : CriterionChange → CriterionVersion → Bool
has_changes c cv =
    differs_str c.title cv.title
    || differs_str c.description cv.description
    || differs_num c.weight cv.weight
    || differs_num c.position cv.position
    || differs_bool c.is_enabled cv.is_enabled
    || differs_str c.evaluation_method cv.evaluation_method
    || is_some c.scope
    || is_some c.levels

-- first the new weight, if the criterion was enabled, and then the switch
abbrev reweighed : CriterionChange → CriterionVersion → ℕ → ℕ
reweighed c cv total =
    if differs_num c.weight cv.weight && cv.is_enabled
    then total + or_else c.weight cv.weight - cv.weight
    else total

abbrev switched : CriterionChange → CriterionVersion → ℕ → ℕ
switched c cv total =
    if differs_bool c.is_enabled cv.is_enabled
    then (if or_else c.is_enabled cv.is_enabled
        then total + or_else c.weight cv.weight
        else total - or_else c.weight cv.weight)
    else total

abbrev pub updated_total : CriterionChange → CriterionVersion → RubricVersion → RubricVersion
updated_total c cv rv = record rv {
  total_weight = switched c cv (reweighed c cv rv.total_weight);
  revision = rv.revision + 1;
}

abbrev criterion_fields : CriterionVersion → Fields
criterion_fields cv = Fields.field "code" (Json.str cv.code) (
    Fields.field "title" (Json.str cv.title)
      (Fields.field "weight" (Json.num cv.weight) Fields.end))

abbrev pub field_if : Bool → String → Json → Fields → Fields
field_if true key value rest = Fields.field key value rest
field_if false key value rest = rest

-- `before` and `after` of the audit trail: the fields that change
abbrev before_fields : CriterionChange → CriterionVersion → Fields
before_fields c cv = field_if (differs_str c.title cv.title) "title" (Json.str cv.title) (
    field_if (differs_str c.description cv.description) "description" (Json.str cv.description) (
      field_if (differs_num c.weight cv.weight) "weight" (Json.num cv.weight) (
        field_if (differs_num c.position cv.position) "position" (Json.num cv.position) (
          field_if (differs_bool c.is_enabled cv.is_enabled) "is_enabled" (Json.bool cv.is_enabled)
            (field_if (differs_str c.evaluation_method cv.evaluation_method) "evaluation_method"
              (Json.str cv.evaluation_method)
              (field_if (is_some c.scope) "scope" (str_or_null cv.scope) Fields.end))))))

abbrev level_items : List (Option ℕ) → Items
level_items [] = Items.nil
level_items (l ∷ ls) = Items.cons (num_or_null l) (level_items ls)

abbrev after_fields : CriterionChange → CriterionVersion → Fields
after_fields c cv = field_if (differs_str c.title cv.title) "title" (str_or_null c.title) (
    field_if (differs_str c.description cv.description) "description" (str_or_null c.description) (
      field_if (differs_num c.weight cv.weight) "weight" (num_or_null c.weight) (
        field_if (differs_num c.position cv.position) "position" (num_or_null c.position) (
          field_if (differs_bool c.is_enabled cv.is_enabled) "is_enabled"
            (Json.bool (or_else c.is_enabled cv.is_enabled))
            (field_if (differs_str c.evaluation_method cv.evaluation_method) "evaluation_method"
              (str_or_null c.evaluation_method)
              (field_if (is_some c.scope) "scope" (str_or_null c.scope) (
                field_if (is_some c.levels) "levels" (Json.arr (level_items (or_else c.levels [])))
                  Fields.end)))))))

unfoldable pub store_change :
    ℕ → ℕ → RubricVersion → ℕ → CriterionVersion → CriterionChange → Tx (Unit {0})
store_change actor_user_id rubric_id rv id cv c = do
  put_criterion id (changed_criterion c cv)
  put_rubric rubric_id (updated_total c cv rv)
  record_audit actor_user_id "CriterionVersion" id "UPDATE" (some (before_fields c cv))
      (some (after_fields c cv)) "Criterion updated"

abbrev pub store_if : Bool → Tx (Unit {0}) → Tx (Unit {0})
store_if true m = m
store_if false m = pure tt

-- The caller has loaded the rubric and its criterion.
unfoldable pub update_criterion :
    ℕ → ℕ → RubricVersion → ℕ → CriterionVersion → CriterionChange → Tx (Unit {0})
update_criterion actor_user_id rubric_id rv id cv c = do
  assert_rubric_mutable rubric_id
  store_if (has_changes c cv) (store_change actor_user_id rubric_id rv id cv c)

unfoldable pub delete_criterion : ℕ → ℕ → RubricVersion → ℕ → CriterionVersion → Tx (Unit {0})
delete_criterion actor_user_id rubric_id rv id cv = do
  assert_rubric_mutable rubric_id
  put_rubric rubric_id (moved_total (enabled_part cv.is_enabled cv.weight) 0 rv)
  record_audit actor_user_id "CriterionVersion" id "DELETE" (some (criterion_fields cv)) none
      "Criterion deleted from rubric"
  delete_criterion_row id
