-- ===== src/Rubrics/Requests.antt =====
-- What is asked of rubrics and their criteria, backend/app/services/rubric.py: a request names the
-- rubric, and the criterion of it, that the router loads (backend/app/api/routers/rubrics.py).
use doc_grading.Prelude.{
  ℕ, ◌≡◌, refl, Option, none, some, List, [], ◌∷◌, find, inl, inr, Bool-cases, ◌==◌, ==_iff,
  if◌then◌else◌,
}
use doc_grading.Models.Rows.{RubricVersion, CriterionVersion}
use doc_grading.Models.Db.{Db}
use doc_grading.Models.Tx.{Outcome, persisted, returned, raised, committed}
use doc_grading.Models.Ensures.{Ensures}
use doc_grading.Rubrics.Criteria.{
  NewRubric, NewCriterion, CriterionChange, create_rubric_version, add_criterion, update_criterion,
  delete_criterion,
}
use doc_grading.Rubrics.Edits.{RubricChange, update_rubric_version, delete_rubric_version}
use doc_grading.Rubrics.Rooted.{IsLedger}
use doc_grading.Rubrics.Life.{
  create_rubric_version-Kept, update_rubric_version-Kept, delete_rubric_version-Kept,
  add_criterion-Kept, update_criterion-Kept, delete_criterion-Kept,
}

-- what is asked of a criterion
pub data CriterionRequest : Type 0 where
  change : CriterionChange → CriterionRequest
  drop : CriterionRequest

-- what is asked of a rubric
pub data RubricRequest : Type 0 where
  edit : RubricChange → RubricRequest
  delete : RubricRequest
  add : NewCriterion → RubricRequest
  about_criterion : ℕ → CriterionRequest → RubricRequest

pub data Request : Type 0 where
  create : ℕ → ℕ → NewRubric → Request
  about_rubric : ℕ → ℕ → RubricRequest → Request

serve_criterion : ℕ → ℕ → RubricVersion → ℕ → CriterionRequest → Option CriterionVersion → Db → Db
serve_criterion actor id rv k q none db = db
serve_criterion actor id rv k (change c) (some cv) db =
    if cv.rubric_version_id == id then persisted db (update_criterion actor id rv k cv c db) else db
serve_criterion actor id rv k drop (some cv) db =
    if cv.rubric_version_id == id then persisted db (delete_criterion actor id rv k cv db) else db

serve_rubric : ℕ → ℕ → RubricRequest → Option RubricVersion → Db → Db
serve_rubric actor id q none db = db
serve_rubric actor id (edit c) (some rv) db = persisted db (update_rubric_version actor id rv c db)
serve_rubric actor id delete (some rv) db = persisted db (delete_rubric_version actor id rv db)
serve_rubric actor id (add c) (some rv) db = persisted db (add_criterion actor id rv c db)
serve_rubric actor id (about_criterion k q) (some rv) db =
    serve_criterion actor id rv k q (find k db.criteria) db

pub serve : Request → Db → Db
serve (create owner creator r) db = persisted db (create_rubric_version owner creator r db)
serve (about_rubric actor id q) db = serve_rubric actor id q (find id db.rubrics) db

pub serve_all : List Request → Db → Db
serve_all [] db = db
serve_all (q ∷ qs) db = serve_all qs (serve q db)

persisted-IsLedger :
    {A : Type 0} (o : Outcome A) (db : Db)
    → IsLedger db
    → Ensures (λ _ d. IsLedger d) o
    → IsLedger (persisted db o)
persisted-IsLedger (returned a d) db l k = k
persisted-IsLedger (raised e) db l k = l
persisted-IsLedger (committed e d) db l k = absurd k

serve_criterion-IsLedger :
    (actor id : ℕ) (rv : RubricVersion) (k : ℕ) (q : CriterionRequest) (o : Option CriterionVersion)
    (db : Db)
    → IsLedger db
    → find id db.rubrics ≡ some rv
    → find k db.criteria ≡ o
    → IsLedger (serve_criterion actor id rv k q o db)
unfolding serve_criterion
serve_criterion-IsLedger actor id rv k q none db l f g = l
serve_criterion-IsLedger actor id rv k (change c) (some cv) db l f g =
    elim (Bool-cases (cv.rubric_version_id == id)) [
      | inl h ↦ rw h (
          persisted-IsLedger (update_criterion actor id rv k cv c db) db l (
            update_criterion-Kept db l actor id rv f k cv g ((==_iff cv.rubric_version_id id).0 h)
              c))
      | inr h ↦ rw h l
    ]
serve_criterion-IsLedger actor id rv k drop (some cv) db l f g =
    elim (Bool-cases (cv.rubric_version_id == id)) [
      | inl h ↦ rw h (
          persisted-IsLedger (delete_criterion actor id rv k cv db) db l (
            delete_criterion-Kept db l actor id rv f k cv g ((==_iff cv.rubric_version_id id).0 h)))
      | inr h ↦ rw h l
    ]

serve_rubric-IsLedger :
    (actor id : ℕ) (q : RubricRequest) (o : Option RubricVersion) (db : Db)
    → IsLedger db
    → find id db.rubrics ≡ o
    → IsLedger (serve_rubric actor id q o db)
unfolding serve_rubric
serve_rubric-IsLedger actor id q none db l f = l
serve_rubric-IsLedger actor id (edit c) (some rv) db l f =
    persisted-IsLedger (update_rubric_version actor id rv c db) db l
      (update_rubric_version-Kept db l actor id rv f c)
serve_rubric-IsLedger actor id delete (some rv) db l f =
    persisted-IsLedger (delete_rubric_version actor id rv db) db l
      (delete_rubric_version-Kept db l actor id rv f)
serve_rubric-IsLedger actor id (add c) (some rv) db l f =
    persisted-IsLedger (add_criterion actor id rv c db) db l
      (add_criterion-Kept db l actor id rv f c)
serve_rubric-IsLedger actor id (about_criterion k q) (some rv) db l f =
    serve_criterion-IsLedger actor id rv k q (find k db.criteria) db l f refl

serve-IsLedger : (q : Request) (db : Db) → IsLedger db → IsLedger (serve q db)
unfolding serve
serve-IsLedger (create owner creator r) db l =
    persisted-IsLedger (create_rubric_version owner creator r db) db l
      (create_rubric_version-Kept db l owner creator r)
serve-IsLedger (about_rubric actor id q) db l =
    serve_rubric-IsLedger actor id q (find id db.rubrics) db l refl

-- If every rubric's total is the sum of the weights of its enabled criteria, and identifiers are in
-- order, then so it is after any sequence of creations, edits and deletions of rubrics and of
-- additions, changes and deletions of their criteria, refused ones included.
pub serve_all-IsLedger : (qs : List Request) (db : Db) → IsLedger db → IsLedger (serve_all qs db)
unfolding serve_all
serve_all-IsLedger [] db l = l
serve_all-IsLedger (q ∷ qs) db l = serve_all-IsLedger qs (serve q db) (serve-IsLedger q db l)
