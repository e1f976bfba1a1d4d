-- ===== src/Review/Publication.antt =====
-- What an approval and a publication leave in the database.
use doc_grading.Prelude.{
  ℕ, ◌+◌, ◌≤◌, ◌<◌, ◌≡◌, refl, String, true, Option, some, arith, find, put, find_by, Option-cases,
  inl, inr, Table, [], ◌∷◌, find-put_self, ap, find-put_ne, ◌∙◌, ◌≢◌,
}
use doc_grading.Models.Enums.{published, result_published}
use doc_grading.Models.Json.{Json, Fields}
use doc_grading.Models.Rows.{DocumentVersion, PublishedResultVersion, Submission}
use doc_grading.Models.Db.{Db}
use doc_grading.Models.Tx.{returned, tx, pure, ◌>>◌}
use doc_grading.Models.Ensures.{Ensures}
use doc_grading.Models.Reads.{Ensures-seq}
use doc_grading.Models.Hoare.{Ensures-guard, Ensures-or_raise, Ensures-gets, Ensures-uuid}
use doc_grading.Audit.{record_audit}
use doc_grading.Notifications.{
  add_student_course_notification, is_active_student_of, reference_payload,
}
use doc_grading.Notifications.Delivery.{student_notification_lem}
use doc_grading.Jobs.Defs.{put_document}
use doc_grading.Review.Publish.{publish_locked, latest_number, approval_of, is_approved, add_result}

abbrev pub result_payload : ℕ → ℕ → Fields
result_payload id submission_id =
    Fields.field "published_result_version_id" (Json.num id)
      (Fields.field "submission_id" (Json.num submission_id) Fields.end)

pub result_payload-fits :
    (id submission_id : ℕ) (db : Db)
    → reference_payload result_published (result_payload id submission_id) db
      ≡ returned (result_payload id submission_id) db
unfolding reference_payload tx
result_payload-fits id submission_id db = refl

-- every number in use is at most the latest
pub latest_number-bounds :
    (version_id k : ℕ) (r : PublishedResultVersion) (t : Table PublishedResultVersion)
    → find k t ≡ some r
    → r.document_version_id ≡ version_id
    → r.version_number ≤ latest_number version_id t
unfolding find latest_number
latest_number-bounds version_id k r [] f e = cc
latest_number-bounds version_id k r ((i, w) ∷ t) f e =
    ground (arith, latest_number-bounds version_id k r t)

module _ (student_id course_id id submission_id : ℕ) (db : Db) where
  -- a notice of a result changes neither the results nor the documents
  notice-lem :
      Ensures
        (λ _ db'. (db'.published_results ≡ db.published_results) × (db'.documents ≡ db.documents))
        (add_student_course_notification student_id course_id result_published
          (result_payload id submission_id)
          db)
  notice-lem =
      elim (Option-cases (find_by (is_active_student_of course_id student_id) db.memberships)) [
        | inl e ↦ ground (
          arith,
          student_notification_lem student_id result_published (result_payload id submission_id) db
              (result_payload-fits id submission_id) course_id,
        )
        | inr (m, e) ↦ ground (
          arith,
          student_notification_lem student_id result_published (result_payload id submission_id) db
              (result_payload-fits id submission_id) course_id,
        )
      ]

module _ (now version_id : ℕ) (version : DocumentVersion) (user_id : ℕ) (db : Db) where
  -- A published result: the next version of the document's result, with the approved snapshot.
  pub record IsPublication (p : ℕ × PublishedResultVersion) (db' : Db) : Type 0 where
    pub was_approved : is_approved version.status ≡ true
    pub stored : find p.0 db'.published_results ≡ some p.1
    pub snapshot :
        approval_of version ≡ some (p.1.snapshot, p.1.approved_at, p.1.approved_by_user_id)
    pub of_document : p.1.document_version_id ≡ version_id
    pub by_user : p.1.published_by_user_id ≡ user_id
    pub newest :
        (k : ℕ) (other : PublishedResultVersion)
        → find k db.published_results ≡ some other
        → other.document_version_id ≡ version_id
        → other.version_number < p.1.version_number
    pub others_stay : (k : ℕ) → k ≢ p.0 → find k db'.published_results ≡ find k db.published_results
    pub other_documents : (k : ℕ) → k ≢ version_id → find k db'.documents ≡ find k db.documents
    pub shown : find version_id db'.documents ≡ some (record version { status = published })

  after_notice :
      (id : ℕ) (r : PublishedResultVersion) (before after : Option Fields) (reason : String)
      (db2 : Db)
      → is_approved version.status ≡ true
      → approval_of version ≡ some (r.snapshot, r.approved_at, r.approved_by_user_id)
      → r.document_version_id ≡ version_id
      → r.published_by_user_id ≡ user_id
      → r.version_number ≡ latest_number version_id db.published_results + 1
      → db2.published_results ≡ put id r db.published_results
      → db2.documents ≡ db.documents
      → Ensures IsPublication (
          (put_document version_id (record version { status = published })
              >> (record_audit user_id "DocumentVersion" version_id "PUBLISH" before after reason
                  >> pure (id, r)))
            db2)
  unfolding put_document record_audit tx
  after_notice id r before after reason db2 a s d u n e o = record {
    was_approved = a;
    stored = rw e (find-put_self id r db.published_results);
    snapshot = s;
    of_document = d;
    by_user = u;
    newest = λ k other f g.
        omega (arith, n, latest_number-bounds version_id k other db.published_results f g);
    others_stay = λ k h. rw e (find-put_ne id k r db.published_results h);
    other_documents = λ k h. rw o (find-put_ne version_id k _ db.documents h);
    shown = find-put_self version_id _ db2.documents;
  }

  added :
      (id : ℕ) (r : PublishedResultVersion) (db1 : Db)
      → db1.published_results ≡ db.published_results
      → db1.documents ≡ db.documents
      → Ensures
          (λ _ db2.
            (db2.published_results ≡ put id r db.published_results)
            × (db2.documents ≡ db.documents))
          (add_result id r db1)
  unfolding add_result tx
  added id r db1 h o = (ap (put id r) h, o)

  after_add :
      (submission : Submission) (course_id id : ℕ) (r : PublishedResultVersion)
      (before after : Option Fields) (reason : String) (db1 : Db)
      → is_approved version.status ≡ true
      → approval_of version ≡ some (r.snapshot, r.approved_at, r.approved_by_user_id)
      → r.document_version_id ≡ version_id
      → r.published_by_user_id ≡ user_id
      → r.version_number ≡ latest_number version_id db.published_results + 1
      → db1.published_results ≡ db.published_results
      → db1.documents ≡ db.documents
      → Ensures IsPublication (
          (add_result id r
              >> (add_student_course_notification submission.student_id course_id result_published
                    (result_payload id version.submission_id)
                  >> (put_document version_id (record version { status = published })
                      >> (record_audit user_id "DocumentVersion" version_id "PUBLISH" before after
                            reason
                          >> pure (id, r)))))
            db1)
  after_add submission course_id id r before after reason db1 a s d u n e o =
      Ensures-seq
        (λ _ db2.
          (db2.published_results ≡ put id r db.published_results) × (db2.documents ≡ db.documents))
        IsPublication _ _ db1 (added id r db1 e o)
        (λ _ db2 q.
          Ensures-seq
            (λ _ db3.
              (db3.published_results ≡ db2.published_results) × (db3.documents ≡ db2.documents))
            IsPublication _ _ db2
            (notice-lem submission.student_id course_id id version.submission_id db2)
            (λ _ db3 w.
              after_notice id r before after reason db3 a s d u n (w.0 ∙ q.0) (w.1 ∙ q.1)))

  -- If `_publish_locked` returns, then the document was approved, with a complete approval, and is
  -- published then; the result is stored, it has the approved snapshot under a number above all
  -- others of the document, and no other result and no other document changes.
  pub publish_locked-IsPublication :
      (submission : Submission) (course_id : ℕ) (reason : String)
      → Ensures IsPublication
          (publish_locked now version_id version submission course_id user_id reason db)
  unfolding publish_locked
  publish_locked-IsPublication submission course_id reason =
      Ensures-guard IsPublication _ _ _ db (λ h.
        Ensures-or_raise IsPublication (approval_of version) _ _ db (λ approval e.
          Ensures-gets IsPublication _ _ db (
            Ensures-uuid IsPublication _ db (
              after_add submission course_id db.next_uuid _ _ _ reason _ (ground arith) e refl refl
                refl refl refl))))
