-- ===== src/Review/Decisions.antt =====
-- The decisions on findings that `save_review_draft` of backend/app/services/review.py compares, and the
-- findings they are on.
use doc_grading.Prelude.{
  ℕ, String, Bool, true, false, not, ◌&&◌, ◌||◌, Option, none, some, List, [], ◌∷◌, ◌++◌, find, any,
  all, ◌==◌, str_eq, eq_opt, is_some, Table, if◌then◌else◌,
}
use doc_grading.Models.Enums.{ReviewDecisionType, accept, edit, reject}
use doc_grading.Models.Json.{Json, Items, Fields, get, str_or_null, num_or_null}
use doc_grading.Models.Rows.{Finding, AnalysisJob, ReviewDraft, ReviewDecision}
use doc_grading.Models.Db.{Db}
use doc_grading.Review.Snapshot.{effective_score, decision_value}

-- a decision of the request
pub record DecisionRequest : Type 0 where
  pub finding_id : ℕ
  pub decision : ReviewDecisionType
  pub edited_description : Option String
  pub final_score : Option ℕ
  pub edited_semantic_verdict : Option String
  pub reason : Option String

pub record DraftRequest : Type 0 where
  pub document_version_id : ℕ
  pub revision : ℕ
  pub comment : String
  pub decisions : List DecisionRequest

abbrev same_decision : ReviewDecisionType → ReviewDecisionType → Bool
same_decision accept accept = true
same_decision edit edit = true
same_decision reject reject = true
same_decision _ _ = false

abbrev same_text : Option String → Option String → Bool
same_text none none = true
same_text (some a) (some b) = str_eq a b
same_text _ _ = false

-- the row that the request asks for
abbrev pub decision_row : ℕ → DecisionRequest → ReviewDecision
decision_row draft_id r = record {
  review_draft_id = draft_id;
  finding_id = r.finding_id;
  decision = r.decision;
  edited_description = r.edited_description;
  final_score = r.final_score;
  edited_semantic_verdict = r.edited_semantic_verdict;
  reason = r.reason;
}

abbrev same_item : ReviewDecision → ReviewDecision → Bool
same_item a b =
    a.finding_id == b.finding_id
    && same_decision a.decision b.decision
    && same_text a.edited_description b.edited_description
    && eq_opt a.final_score b.final_score
    && same_text a.edited_semantic_verdict b.edited_semantic_verdict
    && same_text a.reason b.reason

abbrev contains : List ReviewDecision → ReviewDecision → Bool
contains ds d = any (same_item d) ds

-- `draft.decisions`
unfoldable pub stored_decisions : ℕ → Table ReviewDecision → List ReviewDecision
stored_decisions draft_id [] = []
stored_decisions draft_id ((_, d) ∷ t) =
    if d.review_draft_id == draft_id
    then d ∷ stored_decisions draft_id t
    else stored_decisions draft_id t

abbrev pub requested : ℕ → List DecisionRequest → List ReviewDecision
requested draft_id [] = []
requested draft_id (r ∷ rs) = decision_row draft_id r ∷ requested draft_id rs

-- `_same_payload`: the same comment and the same set of decisions
unfoldable pub same_payload :
    ReviewDraft → List ReviewDecision → String → List ReviewDecision → Bool
same_payload draft existing comment incoming =
    str_eq draft.comment comment
    && all (contains existing) incoming
    && all (contains incoming) existing

-- `old_decisions.get(id)` and `new_decisions.get(id)`
unfoldable pub decision_for : ℕ → List ReviewDecision → Option ReviewDecision
decision_for id [] = none
decision_for id (d ∷ ds) = if d.finding_id == id then some d else decision_for id ds

abbrev pub finding_ids : List ReviewDecision → List ℕ
finding_ids [] = []
finding_ids (d ∷ ds) = d.finding_id ∷ finding_ids ds

-- `old_decisions.keys() | new_decisions.keys()`: every finding once
abbrev pub distinct : List ℕ → List ℕ
distinct [] = []
distinct (id ∷ ids) = if any (λ i. i == id) ids then distinct ids else id ∷ distinct ids

abbrev pub either_ids : List ReviewDecision → List ReviewDecision → List ℕ
either_ids old new = distinct (finding_ids old ++ finding_ids new)

-- `_is_semantic_finding`
abbrev is_link : ℕ → Option Json → Bool
is_link id (some (Json.num n)) = n == id
is_link id _ = false

abbrev links_to : ℕ → Json → Bool
links_to id (Json.obj link) = is_link id (get "finding_id" link)
links_to id _ = false

unfoldable pub any_item : (Json → Bool) → Items → Bool
any_item p Items.nil = false
any_item p (Items.cons item rest) = p item || any_item p rest

abbrev listed : (Json → Bool) → Option Json → Bool
listed p (some (Json.arr items)) = any_item p items
listed p _ = false

abbrev has_link : ℕ → Json → Bool
has_link id (Json.obj result) = listed (links_to id) (get "finding_links" result)
has_link id _ = false

abbrev semantic_results : ℕ → Option Json → Bool
semantic_results id (some (Json.obj semantic)) = listed (has_link id) (get "results" semantic)
semantic_results id _ = false

unfoldable pub is_semantic_finding : AnalysisJob → ℕ → Bool
is_semantic_finding job id = semantic_results id (get "semantic_citation" job.snapshot)

abbrev finding_with_job : Db → ℕ → Option Finding → Option (Finding × ℕ × AnalysisJob)
finding_with_job db document_id none = none
finding_with_job db document_id (some f) = elim (find f.analysis_job_id db.jobs) [
  | none ↦ none
  | some job ↦
      if job.document_version_id == document_id then some (f, f.analysis_job_id, job) else none
]

-- one of `_findings_for_draft`: the finding and its job, if they are of the latest document
unfoldable pub finding_for_draft : Db → ℕ → ℕ → Option (Finding × ℕ × AnalysisJob)
finding_for_draft db document_id id = finding_with_job db document_id (find id db.findings)

unfoldable pub are_findings : Db → ℕ → List ℕ → Bool
are_findings db document_id ids = all (λ id. is_some (finding_for_draft db document_id id)) ids

abbrev pub verdict_of : Option ReviewDecision → Option String
verdict_of none = none
verdict_of (some d) = d.edited_semantic_verdict

abbrev pub is_change : Finding → Option ReviewDecision → Option ReviewDecision → Bool
is_change finding before after =
    not (eq_opt (effective_score finding before) (effective_score finding after))
    || not (same_text (verdict_of before) (verdict_of after))

abbrev decision_text : Option ReviewDecision → String
decision_text none = "PROPOSED"
decision_text (some d) = decision_value d.decision

-- `_audit_snapshot`; a score is written as its hundredths
abbrev pub audit_snapshot : Option ReviewDecision → Option ℕ → ℕ → Fields
audit_snapshot decision score job_id = Fields.field "decision" (Json.str (decision_text decision)) (
    Fields.field "score" (num_or_null score) (
      Fields.field "semantic_verdict" (str_or_null (verdict_of decision))
        (Fields.field "analysis_job_id" (Json.num job_id) Fields.end)))
