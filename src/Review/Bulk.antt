-- ===== src/Review/Bulk.antt =====
-- `bulk_publish_document_versions` of backend/app/services/review.py: all the versions, or none.
use doc_grading.Prelude.{
  ℕ, String, Bool, true, false, not, Option, none, some, List, [], ◌∷◌, find, any, all, ◌==◌, leb,
  Table, if◌then◌else◌, is_blank, length,
}
use doc_grading.Models.Json.{Json, Items, Fields, get}
use doc_grading.Models.Rows.{User, Submission, DocumentVersion}
use doc_grading.Models.Db.{Db}
use doc_grading.Models.Tx.{Tx, Error, pure, raise_if, or_raise, lookup, gets, ◌>>=◌, ◌>>◌}
use doc_grading.Review.Access.{authorize_course, is_archived}
use doc_grading.Review.Commands.{Command, command_start, command_finish}
use doc_grading.Review.Publish.{Digest, command, blank_reason, is_approved, publish_locked}

-- a version, and its submission where this belongs to the assignment
abbrev pub Chosen : Type 0
Chosen = ℕ × DocumentVersion × Option Submission

abbrev pub of_assignment : ℕ → Option Submission → Option Submission
of_assignment assignment_id none = none
of_assignment assignment_id (some s) = if s.assignment_id == assignment_id then some s else none

-- `order_by(DocumentVersion.id)`
abbrev pub insert_chosen : Chosen → List Chosen → List Chosen
insert_chosen c [] = c ∷ []
insert_chosen c (d ∷ t) = if leb c.0 d.0 then c ∷ d ∷ t else d ∷ insert_chosen c t

-- the stored versions among those asked for
unfoldable pub choose : Db → ℕ → List ℕ → Table DocumentVersion → List Chosen
choose db assignment_id version_ids [] = []
choose db assignment_id version_ids ((id, version) ∷ t) =
    if any (λ v. v == id) version_ids
    then insert_chosen
        (id, version, of_assignment assignment_id (find version.submission_id db.submissions))
        (choose db assignment_id version_ids t)
    else choose db assignment_id version_ids t

-- A version with its submission, ready to be published.
abbrev pub Ready : Type 0
Ready = ℕ × DocumentVersion × Submission

abbrev cons_ready :
    ℕ → DocumentVersion → Option Submission → Option (List Ready) → Option (List Ready)
cons_ready id version (some s) (some rest) =
    if is_approved version.status then some ((id, version, s) ∷ rest) else none
cons_ready id version _ _ = none

-- `none` if some version is not approved, or not of the assignment
unfoldable pub all_ready : List Chosen → Option (List Ready)
all_ready [] = some []
all_ready ((id, version, submission) ∷ t) = cons_ready id version submission (all_ready t)

-- the loop, with the identifiers of the results
unfoldable pub publish_each : ℕ → ℕ → ℕ → String → List Ready → Tx (List ℕ)
publish_each now course_id user_id reason [] = pure []
publish_each now course_id user_id reason ((id, version, submission) ∷ t) = do
  (result_id, result) ← publish_locked now id version submission course_id user_id reason
  rest ← publish_each now course_id user_id reason t
  pure (result_id ∷ rest)

abbrev id_items : List ℕ → Items
id_items [] = Items.nil
id_items (id ∷ ids) = Items.cons (Json.num id) (id_items ids)

abbrev pub bulk_response : List ℕ → Fields
bulk_response ids = Fields.field "published_result_ids" (Json.arr (id_items ids)) Fields.end

-- what the command does when there is no replay
unfoldable pub bulk_publish_new : ℕ → ℕ → List ℕ → ℕ → User → String → Tx (List ℕ)
bulk_publish_new now assignment_id version_ids user_id user reason = do
  raise_if (is_blank reason) blank_reason
  assignment ←
      lookup (λ db. find assignment_id db.assignments) (Error.http 404 "Assignment not found")
  course ← lookup (λ db. find assignment.course_id db.courses) Error.no_result_found
  authorize_course user_id user course
  raise_if (is_archived course.status) (Error.http 409 "Archived courses are read-only")
  chosen ← gets λ db. choose db assignment_id version_ids db.documents
  raise_if (not (length chosen == length version_ids))
      (Error.http 409 "Bulk publish contains invalid version")
  ready ← or_raise (all_ready chosen) (Error.http 409 "All versions must be approved in assignment")
  publish_each now assignment.course_id user_id reason ready

abbrev invalid_response : Error
invalid_response = Error.http 500 "Persisted bulk publish response is invalid"

-- the identifiers of a stored response
unfoldable pub stored_ids : Items → Option (List ℕ)
stored_ids Items.nil = some []
stored_ids (Items.cons (Json.num id) rest) = elim (stored_ids rest) [
  | none ↦ none
  | some ids ↦ some (id ∷ ids)
]
stored_ids (Items.cons _ rest) = none

abbrev response_ids : Option Json → Option (List ℕ)
response_ids (some (Json.arr items)) = stored_ids items
response_ids _ = none

abbrev is_result : Db → ℕ → Bool
is_result db id = elim (find id db.published_results) [ none ↦ false | some r ↦ true ]

-- the results of a stored response, which must all be there
unfoldable pub replay_bulk : Fields → Tx (List ℕ)
replay_bulk response = do
  ids ← or_raise (response_ids (get "published_result_ids" response)) invalid_response
  present ← gets λ db. all (is_result db) ids
  raise_if (not present) invalid_response
  pure ids

abbrev version_items : List ℕ → Items
version_items [] = Items.nil
version_items (id ∷ ids) = Items.cons (Json.num id) (version_items ids)

abbrev pub bulk_command : Digest → ℕ → List ℕ → ℕ → String → String → Command
bulk_command digest assignment_id version_ids user_id key reason =
    command digest user_id "BULK_PUBLISH" key (
      Fields.field "assignment_id" (Json.num assignment_id) (
        Fields.field "version_ids" (Json.arr (version_items version_ids))
          (Fields.field "reason" (Json.str reason) Fields.end)))

abbrev run_bulk : Command → Tx (List ℕ) → Option Fields → Tx (List ℕ)
run_bulk c body (some response) = replay_bulk response
run_bulk c body none = do ids ← body; command_finish c (bulk_response ids); pure ids

-- The response is given by the identifiers of its results.
unfoldable pub bulk_publish_document_versions :
    Digest → ℕ → ℕ → List ℕ → ℕ → User → String → String → Tx (List ℕ)
bulk_publish_document_versions digest now assignment_id version_ids user_id user key reason = do
  replay ← command_start (bulk_command digest assignment_id version_ids user_id key reason)
  run_bulk (bulk_command digest assignment_id version_ids user_id key reason)
      (bulk_publish_new now assignment_id version_ids user_id user reason) replay
