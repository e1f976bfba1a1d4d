-- ===== src/Review/Access.antt =====
-- Who may review a submission: `_authorize_course`, `_submission_for_review` and
-- `_locked_document_context` of backend/app/services/review.py, and `check_course_ownership` of
-- backend/app/api/deps.py.
use doc_grading.Prelude.{
  ℕ, refl, Bool, true, false, not, ◌&&◌, Option, none, some, find, ◌==◌, if◌then◌else◌, Bool-cases,
  Option-cases, inl, inr, arith, ◌≡◌,
}
use doc_grading.Models.Enums.{CourseStatus, has_role, is_admin, is_teacher}
use doc_grading.Models.Rows.{User, Course, Submission, DocumentVersion}
use doc_grading.Models.Db.{Db}
use doc_grading.Models.Tx.{lookup, Tx, Error, pure, raise, raise_if, or_raise, ◌>>=◌, ◌>>◌}
use doc_grading.Models.Ensures.{Ensures}
use doc_grading.Models.Hoare.{Ensures-lookup, Ensures-guard}
use doc_grading.Models.Reads.{Ensures-then, Reads, Reads-bind, Reads-then, raise_if-Reads}

abbrev pub is_archived : CourseStatus → Bool
is_archived CourseStatus.archived = true
is_archived CourseStatus.active = false

unfoldable pub check_course_ownership : ℕ → User → Course → Tx (Unit {0})
check_course_ownership user_id user course =
    raise_if (not (has_role is_admin user.roles) && not (course.owner_teacher_id == user_id))
      (Error.http 404 "Course not found")

unfoldable pub authorize_course : ℕ → User → Course → Tx (Unit {0})
authorize_course user_id user course =
    if has_role is_admin user.roles
    then pure tt
    else if has_role is_teacher user.roles
    then check_course_ownership user_id user course
    else raise (Error.http 403 "Review access denied")

-- the join from a submission to its course
unfoldable pub course_of : Submission → Db → Option (ℕ × Course)
course_of submission db = elim (find submission.assignment_id db.assignments) [
  | none ↦ none
  | some a ↦ elim (find a.course_id db.courses) [
    | none ↦ none
    | some course ↦ some (a.course_id, course)
  ]
]

abbrev with_course : Db → Option Submission → Option (Submission × ℕ × Course)
with_course db none = none
with_course db (some submission) = elim (course_of submission db) [
  | none ↦ none
  | some (course_id, course) ↦ some (submission, course_id, course)
]

unfoldable pub submission_course : ℕ → Db → Option (Submission × ℕ × Course)
submission_course id db = with_course db (find id db.submissions)

unfoldable pub submission_for_review : ℕ → ℕ → User → Bool → Tx Submission
submission_for_review id user_id user writable = do
  (submission, course_id, course) ←
      lookup (λ db. submission_course id db) (Error.http 404 "Submission not found")
  authorize_course user_id user course
  raise_if (writable && is_archived course.status) (Error.http 409 "Archived courses are read-only")
  pure submission

unfoldable pub document_course :
    Db → Option DocumentVersion → Option (ℕ × Course × Submission × DocumentVersion)
document_course db none = none
document_course db (some version) = elim (submission_course version.submission_id db) [
  | none ↦ none
  | some (submission, course_id, course) ↦ some (course_id, course, submission, version)
]

-- The three selects follow the same joins, so they find their rows together.
unfoldable pub locked_document_context : ℕ → ℕ → User → Tx (ℕ × Submission × DocumentVersion)
locked_document_context version_id user_id user = do
  (course_id, course, submission, version) ←
      lookup (λ db. document_course db (find version_id db.documents))
        (Error.http 404 "Document version not found")
  authorize_course user_id user course
  raise_if (is_archived course.status) (Error.http 409 "Archived courses are read-only")
  pure (course_id, submission, version)

pub or_raise-Reads {ℓ} :
    {A : Type ℓ} (o : Option A) (e : Error) (db : Db) → Reads db (or_raise o e db)
unfolding or_raise
or_raise-Reads none e db = Reads.stopped e refl
or_raise-Reads (some a) e db = Reads.read a refl

pub lookup-Reads {ℓ} :
    {A : Type ℓ} (f : Db → Option A) (e : Error) (db : Db) → Reads db (lookup f e db)
unfolding lookup
lookup-Reads f e db = or_raise-Reads (f db) e db

pub pure-Reads {ℓ} : {A : Type ℓ} (a : A) (db : Db) → Reads db (pure a db)
unfolding pure
pure-Reads a db = Reads.read a refl

raise-Reads : (e : Error) (db : Db) → Reads {A = Unit {0}} db (raise e db)
unfolding raise
raise-Reads e db = Reads.stopped e refl

pub authorize_course-Reads :
    (user_id : ℕ) (user : User) (course : Course) (db : Db)
    → Reads db (authorize_course user_id user course db)
unfolding authorize_course check_course_ownership
authorize_course-Reads user_id user course db = elim (Bool-cases (has_role is_admin user.roles)) [
  | inl a ↦ rw a (pure-Reads tt db)
  | inr a ↦ rw a (elim (Bool-cases (has_role is_teacher user.roles)) [
    | inl t ↦ rw t (raise_if-Reads _ _ db)
    | inr t ↦ rw t (raise-Reads _ db)
  ])
]

pub submission_for_review-Reads :
    (id user_id : ℕ) (user : User) (writable : Bool) (db : Db)
    → Reads db (submission_for_review id user_id user writable db)
unfolding submission_for_review
submission_for_review-Reads id user_id user writable db =
    Reads-bind _ _ (lookup-Reads _ _ db) (λ row.
      Reads-then _ _ (authorize_course-Reads user_id user row.2 db)
        (Reads-then _ _ (raise_if-Reads _ _ db) (pure-Reads row.0 db)))

pub locked_document_context-Reads :
    (version_id user_id : ℕ) (user : User) (db : Db)
    → Reads db (locked_document_context version_id user_id user db)
unfolding locked_document_context
locked_document_context-Reads version_id user_id user db =
    Reads-bind _ _ (lookup-Reads _ _ db) (λ row.
      Reads-then _ _ (authorize_course-Reads user_id user row.1 db)
        (Reads-then _ _ (raise_if-Reads _ _ db) (pure-Reads _ db)))

document_course-find :
    (db : Db) (version_id : ℕ) (c : ℕ × Course × Submission × DocumentVersion)
    → document_course db (find version_id db.documents) ≡ some c
    → find version_id db.documents ≡ some c.3
unfolding document_course
document_course-find db version_id c e = elim (Option-cases (find version_id db.documents)) [
  | inl f ↦ ground arith
  | inr (version, f) ↦ elim (Option-cases (submission_course version.submission_id db)) [
    | inl g ↦ ground arith
    | inr (row, g) ↦ ground arith
  ]
]

-- The context of a document is the document as it is stored, and nothing is written.
pub locked_document_context-finds :
    (version_id user_id : ℕ) (user : User) (db : Db)
    → Ensures
        (λ c db'. (db' ≡ db) × (find version_id db.documents ≡ some c.2))
        (locked_document_context version_id user_id user db)
unfolding locked_document_context pure
locked_document_context-finds version_id user_id user db = Ensures-lookup Q _ _ _ db (λ row e.
    Ensures-then Q _ _ (authorize_course-Reads user_id user row.1 db)
      (Ensures-guard Q _ _ _ db (λ _. (refl, document_course-find db version_id row e))))
  where
    Q : ℕ × Submission × DocumentVersion → Db → Type 0
    Q c db' = (db' ≡ db) × (find version_id db.documents ≡ some c.2)
