-- ===== src/Review/Snapshot.antt =====
-- The snapshot of an approval, `_effective_score` and `_approval_snapshot` of
-- backend/app/services/review.py.
use doc_grading.Prelude.{
  ℕ, ◌+◌, String, Bool, true, false, not, ◌&&◌, ◌||◌, Option, none, some, List, [], ◌∷◌, find,
  find_by, any, all, ◌==◌, ltb, leb, Table, if◌then◌else◌, is_none,
}
use doc_grading.Models.Enums.{ReviewDecisionType, accept, edit, reject}
use doc_grading.Models.Json.{Json, Items, Fields, num_or_null, str_or_null}
use doc_grading.Models.Rows.{Finding, ReviewDecision, ReviewDraft, EvidenceAnchor, CriterionVersion}
use doc_grading.Models.Db.{Db}
use doc_grading.Models.Tx.{lookup, Tx, Error, pure, raise_if, or_raise, gets, ◌>>=◌, ◌>>◌}

abbrev pub is_reject : ReviewDecisionType → Bool
is_reject reject = true
is_reject _ = false

abbrev edited_score : Option ℕ → Option ℕ → Option ℕ
edited_score none proposed = proposed
edited_score (some final) proposed = some final

abbrev scored : ReviewDecisionType → Option ℕ → Option ℕ → Option ℕ
scored accept final proposed = proposed
scored reject final proposed = none
scored edit final proposed = edited_score final proposed

unfoldable pub effective_score : Finding → Option ReviewDecision → Option ℕ
effective_score finding none = finding.proposed_score
effective_score finding (some d) = scored d.decision d.final_score finding.proposed_score

-- a finding with its identifier and its criterion
abbrev pub Graded : Type 0
Graded = ℕ × Finding × CriterionVersion

-- `order_by(Finding.id)`
abbrev pub insert_by_id : Graded → List Graded → List Graded
insert_by_id g [] = g ∷ []
insert_by_id g (h ∷ t) = if leb g.0 h.0 then g ∷ h ∷ t else h ∷ insert_by_id g t

abbrev is_finding_of : Db → ℕ → Finding → Bool
is_finding_of db version_id finding = elim (find finding.analysis_job_id db.jobs) [
  | none ↦ false
  | some job ↦ job.document_version_id == version_id
]

abbrev cons_graded : ℕ → Finding → Bool → Option CriterionVersion → List Graded → List Graded
cons_graded id finding true (some criterion) rest = insert_by_id (id, finding, criterion) rest
cons_graded id finding _ _ rest = rest

unfoldable pub graded_findings : Db → ℕ → Table Finding → List Graded
graded_findings db version_id [] = []
graded_findings db version_id ((id, finding) ∷ t) =
    cons_graded id finding (is_finding_of db version_id finding)
      (find finding.criterion_version_id db.criteria) (graded_findings db version_id t)

-- the latest draft: `order_by(updated_at.desc(), id.desc()).limit(1)`
abbrev is_later : ℕ × ReviewDraft → ℕ × ReviewDraft → Bool
is_later (i, a) (j, b) = ltb b.updated_at a.updated_at || (a.updated_at == b.updated_at && ltb j i)

abbrev later_of : ℕ × ReviewDraft → Option (ℕ × ReviewDraft) → Option (ℕ × ReviewDraft)
later_of a none = some a
later_of a (some b) = if is_later b a then some b else some a

unfoldable pub latest_draft : ℕ → ℕ → Table ReviewDraft → Option (ℕ × ReviewDraft)
latest_draft submission_id version_id [] = none
latest_draft submission_id version_id ((id, d) ∷ t) =
    if d.submission_id == submission_id && d.document_version_id == version_id
    then later_of (id, d) (latest_draft submission_id version_id t)
    else latest_draft submission_id version_id t

-- `decisions.get(finding.id)`; a draft has one decision for a finding
unfoldable pub decision_of : Db → ℕ → ℕ → Option ReviewDecision
decision_of db draft_id finding_id =
    elim (find_by (λ d. d.review_draft_id == draft_id && d.finding_id == finding_id)
      db.review_decisions) [ none ↦ none | some (_, d) ↦ some d ]

-- a finding with its decision
abbrev pub Decided : Type 0
Decided = ℕ × Finding × CriterionVersion × ReviewDecision

abbrev cons_decided :
    ℕ
    → Finding
    → CriterionVersion
    → Option ReviewDecision
    → Option (List Decided)
    → Option (List Decided)
cons_decided id finding criterion (some d) (some rest) = some ((id, finding, criterion, d) ∷ rest)
cons_decided id finding criterion _ _ = none

-- `none` if a finding is missing among the decisions
unfoldable pub decide : (ℕ → Option ReviewDecision) → List Graded → Option (List Decided)
decide decision [] = some []
decide decision ((id, finding, criterion) ∷ t) =
    cons_decided id finding criterion (decision id) (decide decision t)

abbrev pub is_published_anchor : List Decided → EvidenceAnchor → Bool
is_published_anchor ds anchor =
    any (λ d. d.0 == anchor.finding_id && not (is_reject d.3.decision)) ds

-- What is asked for outside: the database's order on texts, and `_anchor_index`, the index of a
-- document IR's elements, or nothing where it lacks one that is asked for.
pub record AnchorIndex : Type 0 where
  pub text_le : String → String → Bool
  pub elements : ℕ → List EvidenceAnchor → Option (String → ℕ → Json)

-- `order_by(finding_id, page_number, element_id)`
abbrev is_anchor_before : (String → String → Bool) → EvidenceAnchor → EvidenceAnchor → Bool
is_anchor_before text_le a b =
    ltb a.finding_id b.finding_id
    || (a.finding_id == b.finding_id
        && (ltb a.page_number b.page_number
            || (a.page_number == b.page_number && text_le a.element_id b.element_id)))

abbrev insert_anchor :
    (String → String → Bool) → EvidenceAnchor → List EvidenceAnchor → List EvidenceAnchor
insert_anchor text_le a [] = a ∷ []
insert_anchor text_le a (b ∷ t) =
    if is_anchor_before text_le a b then a ∷ b ∷ t else b ∷ insert_anchor text_le a t

-- the anchors that fit, in the order of the select
abbrev pub select_anchors :
    (String → String → Bool) → (EvidenceAnchor → Bool) → Table EvidenceAnchor → List EvidenceAnchor
select_anchors text_le p [] = []
select_anchors text_le p ((_, a) ∷ t) =
    if p a then insert_anchor text_le a (select_anchors text_le p t) else select_anchors text_le p t

-- The document IR of the version, given its identifier; `box` is what `_anchor_index` has for an
-- element on a page.
abbrev evidence_item : (String → ℕ → Json) → EvidenceAnchor → Json
evidence_item box a = Json.obj (
    Fields.field "document_ir_id" (Json.num a.document_ir_id) (
      Fields.field "element_id" (Json.str a.element_id) (
        Fields.field "page_number" (Json.num a.page_number)
          (Fields.field "bbox" (box a.element_id a.page_number) Fields.end))))

abbrev evidence_items : (String → ℕ → Json) → ℕ → List EvidenceAnchor → Items
evidence_items box finding_id [] = Items.nil
evidence_items box finding_id (a ∷ as_) =
    if a.finding_id == finding_id
    then Items.cons (evidence_item box a) (evidence_items box finding_id as_)
    else evidence_items box finding_id as_

abbrev pub decision_value : ReviewDecisionType → String
decision_value accept = "ACCEPT"
decision_value edit = "EDIT"
decision_value reject = "REJECT"

abbrev described : ReviewDecisionType → Option String → String → String
described edit (some edited) description = edited
described _ _ description = description

-- `evidence_counts.get(finding.id, 0)`
abbrev evidence_count : Table EvidenceAnchor → ℕ → ℕ
evidence_count [] id = 0
evidence_count ((_, a) ∷ t) id =
    if a.finding_id == id then evidence_count t id + 1 else evidence_count t id

-- one entry of the snapshot, with the published anchors and the numbers of all anchors
abbrev pub finding_item : (String → ℕ → Json) → List EvidenceAnchor → (ℕ → ℕ) → Decided → Json
finding_item box published counts (id, finding, criterion, d) = Json.obj (
    Fields.field "criterion_version_id" (Json.num finding.criterion_version_id) (
      Fields.field "criterion_code" (Json.str criterion.code) (
        Fields.field "criterion_title" (Json.str criterion.title) (
          Fields.field "finding_id" (Json.num id) (
            Fields.field "score" (num_or_null (effective_score finding (some d))) (
              Fields.field "description"
                (Json.str (described d.decision d.edited_description finding.description))
                (Fields.field "suggestion" (str_or_null finding.suggestion) (
                  Fields.field "evidence" (Json.arr (evidence_items box id published)) (
                    Fields.field "semantic_verdict_override" (str_or_null d.edited_semantic_verdict)
                      (Fields.field "decision" (Json.str (decision_value d.decision))
                        (Fields.field "evidence_count" (Json.num (counts id)) Fields.end)))))))))))

-- the entries whose decision is, or is not, REJECT
unfoldable pub finding_items : Bool → (Decided → Json) → List Decided → Items
finding_items rejected item [] = Items.nil
finding_items true item (d ∷ ds) =
    if is_reject d.3.decision
    then Items.cons (item d) (finding_items true item ds)
    else finding_items true item ds
finding_items false item (d ∷ ds) =
    if is_reject d.3.decision
    then finding_items false item ds
    else Items.cons (item d) (finding_items false item ds)

abbrev is_missing_ir : List EvidenceAnchor → Option ℕ → Bool
is_missing_ir [] ir = false
is_missing_ir (a ∷ as_) ir = is_none ir

abbrev pub of_ir : Option ℕ → EvidenceAnchor → Bool
of_ir none a = false
of_ir (some id) a = a.document_ir_id == id

abbrev ir_of : ℕ → Db → Option ℕ
ir_of version_id db = elim (find_by (λ v. v == version_id) db.document_irs) [
  | none ↦ none
  | some (id, _) ↦ some id
]

abbrev pub evidence_error : Error
evidence_error = Error.http 500 "Persisted evidence anchor is invalid"

abbrev indexed : AnchorIndex → Option ℕ → List EvidenceAnchor → Option (String → ℕ → Json)
indexed index none anchors = some (λ _ _. Json.null)
indexed index (some id) anchors = index.elements id anchors

unfoldable pub approval_snapshot : AnchorIndex → ℕ → ℕ → Tx Json
approval_snapshot index version_id submission_id = do
  (draft_id, draft) ←
      lookup (λ db. latest_draft submission_id version_id db.review_drafts)
        (Error.http 422 "Current review draft is required before approval")
  decided ←
      lookup (λ db. decide (decision_of db draft_id) (graded_findings db version_id db.findings))
        (Error.http 422 "Every finding requires a review decision before approval")
  all_anchors ← gets λ db. db.evidence_anchors
  let published = select_anchors index.text_le (is_published_anchor decided) all_anchors
  ir ← gets (ir_of version_id)
  raise_if (is_missing_ir published ir) (Error.http 409 "Document IR is not available")
  raise_if (not (all (of_ir ir) published)) evidence_error
  box ← or_raise (indexed index ir published) evidence_error
  let item = finding_item box published (evidence_count all_anchors)
  pure (
      Json.obj (
        Fields.field "comment" (Json.str draft.comment) (
          Fields.field "findings" (Json.arr (finding_items false item decided)) (
            Fields.field "rejected_findings" (Json.arr (finding_items true item decided))
              Fields.end))))
