-- ===== src/Tests/RubricRuns.antt =====
-- A rubric and its criteria.
use doc_grading.Prelude.{
  refl, false, none, some, List, [], ◌∷◌, arith, find, Bool-cases, inl, inr, ◌==◌,
}
use doc_grading.Models.Enums.{DocumentStatus}
use doc_grading.Models.Db.{Db}
use doc_grading.Rubrics.Criteria.{NewCriterion, CriterionChange}
use doc_grading.Rubrics.Weights.{IsTotal, enabled_weight}
use doc_grading.Rubrics.Rooted.{IsLedger, IsRooted}
use doc_grading.Rubrics.Requests.{
  CriterionRequest, RubricRequest, Request, serve_all, serve_all-IsLedger,
}
use doc_grading.Tests.Data.{school, document}

abbrev course : Db
course = school (document DocumentStatus.queued)

-- the one rubric carries the weight of its one criterion
totals : IsTotal course.rubrics course.criteria
unfolding find enabled_weight
totals id rv e = ground arith

abbrev another : NewCriterion
another = record {
  code = "S";
  title = "Style";
  description = "";
  weight = 500;
  position = 2;
  evaluation_method = "AI";
  scope = none;
  is_enabled = false;
  levels = none;
}

abbrev halved : CriterionChange
halved = record {
  title = none;
  description = none;
  weight = some 5000;
  position = none;
  is_enabled = some false;
  evaluation_method = none;
  scope = none;
  levels = none;
}

course-IsRooted : IsRooted course
unfolding find
course-IsRooted = record {
  unique = (refl, tt);
  keys = λ k c e. elim (Bool-cases (k == 10)) [ inl h ↦ ground arith | inr h ↦ ground arith ];
  known = λ k rv e. elim (Bool-cases (k == 4)) [ inl h ↦ ground arith | inr h ↦ ground arith ];
}

abbrev term : List Request
term =
    Request.about_rubric 1 4 (RubricRequest.add another)
    ∷ Request.about_rubric 1 4 (RubricRequest.about_criterion 10 (CriterionRequest.change halved))
    ∷ Request.about_rubric 1 4 (RubricRequest.about_criterion 10 CriterionRequest.drop)
    ∷ Request.about_rubric 1 4 RubricRequest.delete
    ∷ []

serve_all-IsLedger_example : IsLedger (serve_all term course)
serve_all-IsLedger_example =
    serve_all-IsLedger term course (record { ids = course-IsRooted; totals = totals })
