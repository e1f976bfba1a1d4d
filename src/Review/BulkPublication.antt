-- ===== src/Review/BulkPublication.antt =====
-- A bulk publication is a sequence of publications of all the versions that were asked for.
use doc_grading.Prelude.{
  ℕ, ◌≡◌, ◌∙◌, refl, ap, subst, true, any, All, find, Table, HasRow, ◌==◌, leb, Bool-cases,
  some-injective, Option, String, none, some, List, [], ◌∷◌, arith, length, Option-cases, inl, inr,
  ==_iff,
}
use doc_grading.Models.Enums.{DocumentStatus}
use doc_grading.Review.Publish.{is_approved}
use doc_grading.Models.Rows.{User, DocumentVersion, Submission, PublishedResultVersion}
use doc_grading.Models.Db.{Db}
use doc_grading.Models.Tx.{pure}
use doc_grading.Models.Ensures.{Ensures, Ensures-mono}
use doc_grading.Models.Reads.{Ensures-then}
use doc_grading.Models.Hoare.{
  Ensures-guard, Ensures-lookup, Ensures-gets, Ensures-or_raise, Ensures-after,
}
use doc_grading.Review.Access.{authorize_course-Reads}
use doc_grading.Review.Publication.{IsPublication, publish_locked-IsPublication}
use doc_grading.Review.Bulk.{
  Chosen, Ready, choose, insert_chosen, of_assignment, all_ready, publish_each, bulk_publish_new,
}

module _ (now user_id : ℕ) where
  -- one publication after another, with the identifiers of their results
  pub data Publications : List Ready → List ℕ → Db → Db → Type 0 where
    finished : (db : Db) → Publications [] [] db db
    next :
        (id : ℕ) (version : DocumentVersion) (submission : Submission) (t : List Ready)
        (p : ℕ × PublishedResultVersion) (ids : List ℕ) (db db1 db' : Db)
        → IsPublication now id version user_id db p db1
        → Publications t ids db1 db'
        → Publications ((id, version, submission) ∷ t) (p.0 ∷ ids) db db'

  module _ (course_id : ℕ) (reason : String) where
    publish_each-Publications :
        (t : List Ready) (db : Db)
        → Ensures
            (λ ids db'. Publications t ids db db')
            (publish_each now course_id user_id reason t db)
    unfolding publish_each pure
    publish_each-Publications [] db = Publications.finished db
    publish_each-Publications ((id, version, submission) ∷ t) db =
        Ensures-after (IsPublication now id version user_id db) Q _ _ db
          (publish_locked-IsPublication now id version user_id db submission course_id reason)
          (λ p db1 i.
            Ensures-after (λ ids db'. Publications t ids db1 db') Q _ _ db1
              (publish_each-Publications t db1)
              (λ ids db' r. Publications.next id version submission t p ids db db1 db' i r))
      where
        Q : List ℕ → Db → Type 0
        Q ids db' = Publications ((id, version, submission) ∷ t) ids db db'

-- the versions that are ready are all that were chosen
all_ready-length :
    (cs : List Chosen) (rs : List Ready) → all_ready cs ≡ some rs → length rs ≡ length cs
unfolding all_ready
all_ready-length [] rs e = ground arith
all_ready-length ((id, version, none) ∷ t) rs e = ground arith
all_ready-length ((id, version, some s) ∷ t) rs e = elim (Option-cases (all_ready t)) [
  | inl f ↦ ground arith
  | inr (rest, f) ↦ ground (arith, all_ready-length t rest)
]

module _ (db : Db) (assignment_id : ℕ) (version_ids : List ℕ) where
  -- a stored version that was asked for, approved, with its submission to the assignment
  pub record IsReady (r : Ready) : Type 0 where
    pub asked_for : any (λ v. v == r.0) version_ids ≡ true
    pub stored : HasRow r.0 r.1 db.documents
    pub approval : r.1.status ≡ DocumentStatus.approved
    pub submission : find r.1.submission_id db.submissions ≡ some r.2
    pub of_assignment : r.2.assignment_id ≡ assignment_id

  -- what is known of a version that was chosen
  record IsChosen (c : Chosen) : Type 0 where
    asked_for : any (λ v. v == c.0) version_ids ≡ true
    stored : HasRow c.0 c.1 db.documents
    row :
        (s : Submission)
        → c.2 ≡ some s
        → (find c.1.submission_id db.submissions ≡ some s) × (s.assignment_id ≡ assignment_id)

  of_assignment_lem :
      (o : Option Submission) (s : Submission)
      → of_assignment assignment_id o ≡ some s
      → (o ≡ some s) × (s.assignment_id ≡ assignment_id)
  of_assignment_lem none s e = cc
  of_assignment_lem (some x) s e = elim (Bool-cases (x.assignment_id == assignment_id)) [
    | inl h ↦
        let q : x ≡ s = ground arith in
        (ap some q, subst (λ y. y.assignment_id ≡ assignment_id) q ((==_iff _ _).0 h))
    | inr h ↦ ground arith
  ]

  insert_chosen-All :
      (c : Chosen) (cs : List Chosen)
      → IsChosen c
      → All IsChosen cs
      → All IsChosen (insert_chosen c cs)
  insert_chosen-All c [] p q = (p, tt)
  insert_chosen-All c (d ∷ cs) p (q, r) = elim (Bool-cases (leb c.0 d.0)) [
    | inl h ↦ rw h (p, (q, r))
    | inr h ↦ rw h (q, insert_chosen-All c cs p r)
  ]

  choose-All :
      (t : Table DocumentVersion)
      → ((k : ℕ) (v : DocumentVersion) → HasRow k v t → HasRow k v db.documents)
      → All IsChosen (choose db assignment_id version_ids t)
  unfolding choose
  choose-All [] f = tt
  choose-All ((id, version) ∷ t) f =
      let rest = choose-All t (λ k v r. f k v (HasRow.there id version t r)) in
      elim (Bool-cases (any (λ v. v == id) version_ids)) [
        | inl h ↦ rw h (
            insert_chosen-All _ _
              (record {
                asked_for = h;
                stored = f id version (HasRow.here t);
                row = λ s e. of_assignment_lem (find version.submission_id db.submissions) s e;
              })
              rest)
        | inr h ↦ rw h rest
      ]

  approval_lem : (s : DocumentStatus) → is_approved s ≡ true → s ≡ DocumentStatus.approved
  approval_lem s e = ground arith

  all_ready-All :
      (cs : List Chosen) (rs : List Ready)
      → all_ready cs ≡ some rs
      → All IsChosen cs
      → All IsReady rs
  unfolding all_ready
  all_ready-All [] rs e q = subst (All IsReady) (some-injective [] rs e) tt
  all_ready-All ((id, version, none) ∷ t) rs e q = ground arith
  all_ready-All ((id, version, some s) ∷ t) rs e (c, q) = elim (Option-cases (all_ready t)) [
    | inl f ↦ ground arith
    | inr (rest, f) ↦ elim (Bool-cases (is_approved version.status)) [
      | inl h ↦
          let same : (id, version, s) ∷ rest ≡ rs = ground arith in
          subst (All IsReady) same (
            record {
              asked_for = c.asked_for;
              stored = c.stored;
              approval = approval_lem version.status h;
              submission = (c.row s refl).0;
              of_assignment = (c.row s refl).1;
            },
            all_ready-All t rest f q,
          )
      | inr h ↦ ground arith
    ]
  ]

module _ (now assignment_id : ℕ) (version_ids : List ℕ) (user_id : ℕ) (user : User)
    (reason : String) (db : Db) where
  -- All the versions that were asked for have been published.
  pub record IsBulk (ids : List ℕ) (db' : Db) : Type 0 where
    pub ready : List Ready
    pub of_assignment : All (IsReady db assignment_id version_ids) ready
    pub complete : length ready ≡ length version_ids
    pub published : Publications now user_id ready ids db db'

  -- If a bulk publication that is no replay returns, then it has published, one after another, as
  -- many versions as were asked for; each of them was stored and asked for, had the status APPROVED,
  -- and is of a stored submission to the assignment.
  pub bulk_publish_new-IsBulk :
      Ensures IsBulk (bulk_publish_new now assignment_id version_ids user_id user reason db)
  unfolding bulk_publish_new
  bulk_publish_new-IsBulk = Ensures-guard IsBulk _ _ _ db (λ _.
      Ensures-lookup IsBulk _ _ _ db (λ assignment _. Ensures-lookup IsBulk _ _ _ db (λ course _.
        Ensures-then IsBulk _ _ (authorize_course-Reads user_id user course db) (
          Ensures-guard IsBulk _ _ _ db (λ _. Ensures-gets IsBulk _ _ db (
            Ensures-guard IsBulk _ _ _ db (λ count. Ensures-or_raise IsBulk _ _ _ db (λ ready e.
              Ensures-mono _ IsBulk _
                (λ ids db' p. record {
                  ready = ready;
                  of_assignment =
                      all_ready-All db assignment_id version_ids _ ready e
                        (choose-All db assignment_id version_ids db.documents (λ k v r. r));
                  complete =
                      all_ready-length _ ready e
                      ∙ (==_iff (length (choose db assignment_id version_ids db.documents))
                            (length version_ids)).0
                          (ground arith);
                  published = p;
                })
                (publish_each-Publications now user_id assignment.course_id reason ready db)))))))))
