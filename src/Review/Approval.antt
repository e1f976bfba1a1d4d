-- ===== src/Review/Approval.antt =====
-- What an approval requires and leaves, backend/app/services/review.py.
use doc_grading.Prelude.{
  ℕ, ◌≡◌, refl, ap, subst, ◌∙◌, String, Bool, if◌then◌else◌, some-injective, none, true, false,
  Option, some, arith, find, find-put_self, List, [], ◌∷◌, All, is_some, Option-cases, inl, inr,
}
use doc_grading.Models.Enums.{
  DocumentStatus, awaiting_review, approved, ReviewDecisionType, accept, edit, reject,
}
use doc_grading.Models.Json.{Json, Items, Fields, get}
use doc_grading.Models.Rows.{
  User, DocumentVersion, ReviewDraft, ReviewDecision, Finding, CriterionVersion, EvidenceAnchor,
}
use doc_grading.Models.Db.{Db}
use doc_grading.Models.Tx.{tx, pure, ◌>>◌}
use doc_grading.Models.Ensures.{Ensures}
use doc_grading.Models.Hoare.{
  Ensures-guard, Ensures-or_raise, Ensures-gets, Ensures-lookup, Ensures-reads,
}
use doc_grading.Audit.{record_audit}
use doc_grading.Jobs.Defs.{put_document}
use doc_grading.Review.Access.{locked_document_context-finds}
use doc_grading.Review.Snapshot.{
  AnchorIndex, Graded, Decided, approval_snapshot, decide, decision_of, finding_items, finding_item,
  is_reject, graded_findings, latest_draft,
}
use doc_grading.Review.Publish.{approve_new, approved_row, is_awaiting_review}

-- the findings that the entries of a list are about
abbrev cons_id : Option Json → List ℕ → List ℕ
cons_id (some (Json.num id)) ids = id ∷ ids
cons_id _ ids = ids

abbrev pub listed_ids : Items → List ℕ
listed_ids Items.nil = []
listed_ids (Items.cons (Json.obj entry) rest) = cons_id (get "finding_id" entry) (listed_ids rest)
listed_ids (Items.cons _ rest) = listed_ids rest

-- the decisions that publish a finding, and those that do not
abbrev pub publishes : ReviewDecisionType → Bool
publishes accept = true
publishes edit = true
publishes reject = false

abbrev pub withholds : ReviewDecisionType → Bool
withholds accept = false
withholds edit = false
withholds reject = true

finding_item-lists :
    (box : String → ℕ → Json) (anchors : List EvidenceAnchor) (count : ℕ → ℕ) (d : Decided)
    (rest : Items)
    → listed_ids (Items.cons (finding_item box anchors count d) rest) ≡ d.0 ∷ listed_ids rest
unfolding get
finding_item-lists box anchors count d rest = refl

module _ (decision : ℕ → Option ReviewDecision) where
  abbrev pub IsDecided : Graded → Type 0
  IsDecided g = is_some (decision g.0) ≡ true

  decide-IsDecided :
      (gs : List Graded) (ds : List Decided) → decide decision gs ≡ some ds → All IsDecided gs
  unfolding decide
  decide-IsDecided [] ds e = tt
  decide-IsDecided ((id, finding, criterion) ∷ gs) ds e = elim (Option-cases (decision id)) [
    | inl h ↦ ground arith
    | inr (d, h) ↦ elim (Option-cases (decide decision gs)) [
      | inl k ↦ ground arith
      | inr (rest, k) ↦ (ground arith, decide-IsDecided gs rest k)
    ]
  ]

  -- the findings whose decision passes the test
  abbrev cons_if : (ReviewDecisionType → Bool) → ℕ → Option ReviewDecision → List ℕ → List ℕ
  cons_if p id none ids = ids
  cons_if p id (some d) ids = if p d.decision then id ∷ ids else ids

  abbrev pub decided_ids : (ReviewDecisionType → Bool) → List Graded → List ℕ
  decided_ids p [] = []
  decided_ids p (g ∷ gs) = cons_if p g.0 (decision g.0) (decided_ids p gs)

  module _ (item : Decided → Json)
      (lists : (d : Decided) (rest : Items)
        → listed_ids (Items.cons (item d) rest) ≡ d.0 ∷ listed_ids rest) where
    -- the two lists have the findings that are published, and those that are not
    abbrev IsSplit : List Graded → List Decided → Type 0
    IsSplit gs ds =
        (listed_ids (finding_items false item ds) ≡ decided_ids publishes gs)
        × (listed_ids (finding_items true item ds) ≡ decided_ids withholds gs)

    cons-IsSplit :
        (id : ℕ) (f : Finding) (c : CriterionVersion) (d : ReviewDecision) (gs : List Graded)
        (ds : List Decided)
        → decision id ≡ some d
        → (t : ReviewDecisionType) → d.decision ≡ t
        → IsSplit gs ds
        → IsSplit ((id, f, c) ∷ gs) ((id, f, c, d) ∷ ds)
    unfolding finding_items
    cons-IsSplit id f c d gs ds h accept e (p, q) =
        rw (h, ap is_reject e, ap publishes e)
          (lists (id, f, c, d) (finding_items false item ds) ∙ ap (λ r. id ∷ r) p, q)
    cons-IsSplit id f c d gs ds h edit e (p, q) =
        rw (h, ap is_reject e, ap publishes e)
          (lists (id, f, c, d) (finding_items false item ds) ∙ ap (λ r. id ∷ r) p, q)
    cons-IsSplit id f c d gs ds h reject e (p, q) =
        rw (h, ap is_reject e, ap publishes e)
          (p, lists (id, f, c, d) (finding_items true item ds) ∙ ap (λ r. id ∷ r) q)

    decide-IsSplit :
        (gs : List Graded) (ds : List Decided) → decide decision gs ≡ some ds → IsSplit gs ds
    unfolding decide finding_items
    decide-IsSplit [] ds e = subst (IsSplit []) (some-injective [] ds e) (refl, refl)
    decide-IsSplit ((id, f, c) ∷ gs) ds e = elim (Option-cases (decision id)) [
      | inl h ↦ ground arith
      | inr (d, h) ↦ elim (Option-cases (decide decision gs)) [
        | inl k ↦ ground arith
        | inr (rest, k) ↦
            let same : (id, f, c, d) ∷ rest ≡ ds = ground arith in
            subst (IsSplit ((id, f, c) ∷ gs)) same
              (cons-IsSplit id f c d gs rest h d.decision refl (decide-IsSplit gs rest k))
      ]
    ]

module _ (index : AnchorIndex) (version_id submission_id : ℕ) (db : Db) where
  -- A snapshot of the latest draft, in which every finding of the document has been decided; the
  -- accepted and the edited ones are its findings, and the others its rejected findings.
  pub record IsSnapshot (snapshot : Json) : Type 0 where
    pub draft_id : ℕ
    pub draft : ReviewDraft
    pub findings : Items
    pub rejected : Items
    pub latest : latest_draft submission_id version_id db.review_drafts ≡ some (draft_id, draft)
    pub decided :
        All (IsDecided (decision_of db draft_id)) (graded_findings db version_id db.findings)
    pub accepted :
        listed_ids findings
        ≡ decided_ids
            (decision_of db draft_id)
            publishes
            (graded_findings db version_id db.findings)
    pub refused :
        listed_ids rejected
        ≡ decided_ids
            (decision_of db draft_id)
            withholds
            (graded_findings db version_id db.findings)
    pub content :
        snapshot
        ≡ Json.obj (
            Fields.field "comment" (Json.str draft.comment) (
              Fields.field "findings"
                (Json.arr findings)
                (Fields.field "rejected_findings" (Json.arr rejected) Fields.end)))

  pub approval_snapshot-IsSnapshot :
      Ensures
        (λ s db'. (db' ≡ db) × IsSnapshot s)
        (approval_snapshot index version_id submission_id db)
  unfolding approval_snapshot pure
  approval_snapshot-IsSnapshot = Ensures-lookup Q _ _ _ db (λ draft e.
      Ensures-lookup Q _ _ _ db (λ ds f. Ensures-gets Q _ _ db (
        Ensures-gets Q _ _ db (
          Ensures-guard Q _ _ _ db (λ _. Ensures-guard Q _ _ _ db (λ _.
            Ensures-or_raise Q _ _ _ db (λ box _. (
              refl,
              record {
                draft_id = draft.0;
                draft = draft.1;
                findings = _;
                rejected = _;
                latest = e;
                decided =
                    decide-IsDecided (decision_of db draft.0)
                      (graded_findings db version_id db.findings) ds f;
                accepted =
                    (decide-IsSplit (decision_of db draft.0) _ (finding_item-lists box _ _)
                      (graded_findings db version_id db.findings) ds f).0;
                refused =
                    (decide-IsSplit (decision_of db draft.0) _ (finding_item-lists box _ _)
                      (graded_findings db version_id db.findings) ds f).1;
                content = refl;
              },
            ))))))))
    where
      Q : Json → Db → Type 0
      Q s db' = (db' ≡ db) × IsSnapshot s

module _ (now : ℕ) (index : AnchorIndex) (version_id user_id : ℕ) (user : User) (db : Db) where
  -- An approval: from AWAITING_REVIEW, with a snapshot in which all findings are decided.
  pub record IsApproval (db' : Db) : Type 0 where
    pub version : DocumentVersion
    pub snapshot : Json
    pub present : find version_id db.documents ≡ some version
    pub was_awaiting : version.status ≡ awaiting_review
    pub frozen : IsSnapshot index version_id version.submission_id db snapshot
    pub row : DocumentVersion
    pub stored : find version_id db'.documents ≡ some row
    pub is_approved : row.status ≡ approved
    pub approver : row.approved_by_user_id ≡ some user_id
    pub approval_time : row.approved_at ≡ some now
    pub with_snapshot : row.approved_snapshot ≡ some snapshot
    pub same_upload :
        (row.submission_id ≡ version.submission_id)
        × (row.version_number ≡ version.version_number)
        × (row.sha256 ≡ version.sha256)

  awaiting_lem : (s : DocumentStatus) → is_awaiting_review s ≡ true → s ≡ awaiting_review
  awaiting_lem s e = ground arith

  stored-IsApproval :
      (version : DocumentVersion) (snapshot : Json) (before after : Option Fields) (r : Fields)
      → find version_id db.documents ≡ some version
      → is_awaiting_review version.status ≡ true
      → IsSnapshot index version_id version.submission_id db snapshot
      → Ensures
          (λ _ db'. IsApproval db')
          ((put_document version_id (approved_row now user_id snapshot version)
              >> (record_audit user_id "DocumentVersion" version_id "APPROVE" before after
                    "Teacher approved review snapshot"
                  >> pure r))
            db)
  unfolding put_document record_audit tx
  stored-IsApproval version snapshot before after r p a s = record {
    version = version;
    snapshot = snapshot;
    present = p;
    was_awaiting = awaiting_lem version.status a;
    frozen = s;
    row = approved_row now user_id snapshot version;
    stored = find-put_self version_id _ db.documents;
    is_approved = refl;
    approver = refl;
    approval_time = refl;
    with_snapshot = refl;
    same_upload = (refl, refl, refl);
  }

  -- If an approval that is no replay returns, then the document awaited review, the latest draft
  -- decides its every finding, and the document is stored as approved, by this user and at this
  -- time, with a snapshot whose findings are exactly those that are accepted or edited, and whose
  -- rejected findings are exactly those that are rejected, both in the order of the findings.
  pub approve_new-IsApproval :
      Ensures (λ _ db'. IsApproval db') (approve_new now index version_id user_id user db)
  unfolding approve_new
  approve_new-IsApproval =
      Ensures-reads (λ c. find version_id db.documents ≡ some c.2) Q _ _ db
        (locked_document_context-finds version_id user_id user db)
        (λ c p. Ensures-guard Q _ _ _ db (λ a.
          Ensures-reads (IsSnapshot index version_id c.2.submission_id db) Q _ _ db
            (approval_snapshot-IsSnapshot index version_id c.2.submission_id db)
            (λ snapshot s. stored-IsApproval c.2 snapshot _ _ _ p (ground arith) s)))
    where
      Q : Fields → Db → Type 0
      Q _ db' = IsApproval db'
