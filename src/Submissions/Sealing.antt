-- ===== src/Submissions/Sealing.antt =====
-- The ends of completing an upload: a sealed object and its job, or a storage failure.
use doc_grading.Prelude.{
  ℕ, ◌+◌, ◌≤◌, ◌≡◌, refl, sym, ap, subst, ◌∙◌, String, Bool, true, false, ◌||◌, Option, none, some,
  find, find_by, find-put_self, HasUniqueKeys, arith, inl, inr, Bool-cases, ==_iff,
}
use doc_grading.Models.Json.{Json}
use doc_grading.Models.Rows.{User, Assignment, DocumentVersion, AnalysisJob}
use doc_grading.Models.Db.{Db}
use doc_grading.Models.Tx.{tx, Error, pure, modify, ◌>>=◌, ◌>>◌}
use doc_grading.Models.Hoare.{Ensures-lookup}
use doc_grading.Jobs.Outbox.{enqueue_analysis_job_dispatch}
use doc_grading.Models.Ensures.{Ensures, Ensures-mono}
use doc_grading.Models.Ends.{
  Ends, Ends-guard, Ends-lookup, Ends-gets, Ends-uuid, Ends-reads, Ends-mono, Ensures-Ends,
}
use doc_grading.Models.Reads.{Ensures-seq}
use doc_grading.Jobs.Defs.{create_or_get_job, enqueue_if, is_queued, is_job_of, put_document}
use doc_grading.Submissions.{UploadSettings, Texts, is_closed_at, is_uploading}
use doc_grading.Submissions.Initiate.{is_pdf, of_document}
use doc_grading.Submissions.Complete.{
  complete_upload, complete_new, completed_already, seal_and_queue, upload_context, with_submission,
  is_completed, is_retryable, storage_failed, sealed_version, sealed_key, Storage, StorageAnswer,
  ObjectHead,
}
use doc_grading.Submissions.Completion.{
  create_or_get_job-HasJob, HasJob, failed_context, upload_context-loads,
}
use doc_grading.Submissions.Outage.{IsOutage, moved-IsOutage, head_of-Ends, sealed_of-Ends, Sealed}

module _ (now : ℕ) (settings : UploadSettings) (texts : Texts) (storage : Storage)
    (route : Option Json) (id : ℕ) (v : DocumentVersion) (a : Assignment) where
  -- The document is queued with a sealed copy of the object that the client has declared, and has
  -- a job under the assignment's rubric.
  pub record IsSealed (job_id : ℕ) (db' : Db) : Type 0 where
    pub head : ObjectHead
    pub sealed : ObjectHead
    pub key : String
    pub uploaded : storage.head v.storage_key ≡ StorageAnswer.object head
    pub copied : storage.seal_upload v.storage_key key head.etag ≡ StorageAnswer.object sealed
    pub as_declared : sealed.content_length ≡ v.size_bytes
    pub is_a_pdf : is_pdf texts sealed.content_type ≡ true
    pub within : v.size_bytes ≤ settings.pdf_max_size_bytes
    pub document : find id db'.documents ≡ some (sealed_version key sealed v)
    pub job : AnalysisJob
    pub stored : find job_id db'.jobs ≡ some job
    pub of_rubric : is_job_of id a.rubric_version_id job ≡ true

  abbrev Q : ℕ → Db → Type 0
  Q job_id db' = IsSealed job_id db'

  put_sealed :
      (w : DocumentVersion) (db : Db)
      → Ensures
          (λ _ db'. (find id db'.documents ≡ some w) × (db'.jobs ≡ db.jobs))
          (put_document id w db)
  unfolding put_document tx
  put_sealed w db = (find-put_self id w db.documents, refl)

  queue_sealed-Q :
      (key : String) (head sealed : ObjectHead) (db : Db)
      → HasUniqueKeys db.jobs
      → storage.head v.storage_key ≡ StorageAnswer.object head
      → head.content_length ≡ v.size_bytes
      → head.content_length ≤ settings.pdf_max_size_bytes
      → storage.seal_upload v.storage_key key head.etag ≡ StorageAnswer.object sealed
      → is_pdf texts sealed.content_type ≡ true
      → sealed.content_length ≡ head.content_length
      → Ensures Q (
          (put_document id (sealed_version key sealed v)
              >> create_or_get_job now id a.rubric_version_id route)
            db)
  queue_sealed-Q key head sealed db unique up declared within copied pdf same =
      Ensures-seq
        (λ _ db'.
          (find id db'.documents ≡ some (sealed_version key sealed v)) × (db'.jobs ≡ db.jobs))
        Q _ _ db (put_sealed (sealed_version key sealed v) db)
        (λ _ db2 p.
          let u = subst HasUniqueKeys (sym p.1) unique in
          Ensures-mono _ Q _
            (λ job_id db3 (j : HasJob now id a.rubric_version_id route db2 u job_id db3). record {
              head = head;
              sealed = sealed;
              key = key;
              uploaded = up;
              copied = copied;
              as_declared = same ∙ declared;
              is_a_pdf = pdf;
              within = omega (arith, declared, within);
              document = ap (find id) j.0 ∙ p.0;
              job = j.1.0;
              stored = j.1.1;
              of_rubric = j.1.2;
            })
            (create_or_get_job-HasJob now id a.rubric_version_id route db2 u))

  seal_and_queue-Ends :
      (db : Db)
      → HasUniqueKeys db.jobs
      → (head : ObjectHead) → storage.head v.storage_key ≡ StorageAnswer.object head
      → head.content_length ≡ v.size_bytes
      → head.content_length ≤ settings.pdf_max_size_bytes
      → Ends Q (IsOutage id v db) (seal_and_queue now texts storage route id v a head db)
  unfolding seal_and_queue
  seal_and_queue-Ends db unique head up declared within =
      let db1 : Db = record db { next_uuid = db.next_uuid + 1 } in
      let key : String = sealed_key texts id db.next_uuid in
      Ends-uuid Q _ _ db (
        Ends-mono Q Q (IsOutage id v db1) (IsOutage id v db) _ (λ _ _ q. q)
          (λ e d o. moved-IsOutage db e d o)
          (Ends-reads Q _ (Sealed texts head (storage.seal_upload v.storage_key key head.etag)) _ _
            db1
            (sealed_of-Ends texts id v head (storage.seal_upload v.storage_key key head.etag) db1)
            (λ sealed s.
              Ensures-Ends Q _ _
                (queue_sealed-Q key head sealed db1 unique up declared within s.0 s.1 s.2))))

  complete_new-Ends :
      (db : Db)
      → HasUniqueKeys db.jobs
      → (retryable : Bool)
      → Ends
          (λ job_id db'. (is_closed_at now a ≡ false) × IsSealed job_id db')
          (IsOutage id v db)
          (complete_new now settings texts storage route id v a retryable db)
  unfolding complete_new
  complete_new-Ends db unique retryable = Ends-guard _ _ _ _ _ db (λ cl.
      Ends-guard _ _ _ _ _ db (λ _.
        Ends-reads _ _ _ _ _ db (head_of-Ends id v (storage.head v.storage_key) db) (λ head up.
          Ends-guard _ _ _ _ _ db (λ _. Ends-guard _ _ _ _ _ db (λ within.
            Ends-guard _ _ _ _ _ db (λ size.
              Ends-mono Q (λ job_id db'. (is_closed_at now a ≡ false) × IsSealed job_id db') _
                (IsOutage id v db) _ (λ _ _ q. (cl, q)) (λ _ _ o. o)
                (seal_and_queue-Ends db unique head up
                  ((==_iff head.content_length v.size_bytes).0 (ground arith)) (ground arith))))))))

module _ (now : ℕ) (settings : UploadSettings) (texts : Texts) (storage : Storage)
    (route : Option Json) (id user_id : ℕ) (user : User) (db : Db) where
  -- The upload had been completed and has a job, or it is completed now.
  pub data Completed (job_id : ℕ) (db' : Db) : Type 0 where
    already :
        (v : DocumentVersion) (a : Assignment) (job : AnalysisJob)
        → upload_context id user_id db ≡ some (v, a)
        → is_completed v.status ≡ true
        → find_by (of_document id) db.jobs ≡ some (job_id, job)
        → db'.documents ≡ db.documents
        → db'.jobs ≡ db.jobs
        → Completed job_id db'
    sealed :
        (v : DocumentVersion) (a : Assignment)
        → upload_context id user_id db ≡ some (v, a)
        → (is_uploading v.status || is_retryable id v db) ≡ true
        → is_closed_at now a ≡ false
        → IsSealed now settings texts storage route id v a job_id db'
        → Completed job_id db'

  -- The storage has failed; the document says so and can be completed again, if it has no job.
  pub record Failed (e : Error) (db' : Db) : Type 0 where
    pub version : DocumentVersion
    pub assignment : Assignment
    pub before : upload_context id user_id db ≡ some (version, assignment)
    pub after : upload_context id user_id db' ≡ some (storage_failed version, assignment)
    pub outage : IsOutage id version db e db'
    pub retryable :
        find_by (of_document id) db.jobs ≡ none
        → is_retryable id (storage_failed version) db' ≡ true

  failed_lem :
      (v : DocumentVersion) (a : Assignment)
      → upload_context id user_id db ≡ some (v, a)
      → (e : Error) (db' : Db) → IsOutage id v db e db'
      → Failed e db'
  unfolding upload_context
  failed_lem v a c e db' o = record {
    version = v;
    assignment = a;
    before = c;
    after =
        let f = upload_context-loads user_id db (find id db.documents) v a c in
        ap (with_submission user_id db') (
          ap (λ d. find id d.documents) o.written
          ∙ find-put_self id (storage_failed v) db.documents)
        ∙ failed_context user_id db db' v a (sym (ap (with_submission user_id db) f) ∙ c)
            (ap (λ d. d.submissions) o.written) (ap (λ d. d.assignments) o.written)
            (ap (λ d. d.memberships) o.written);
    outage = o;
    retryable = λ none_yet. rw (o.written, none_yet) refl;
  }

  already-Completed :
      (v : DocumentVersion) (a : Assignment)
      → upload_context id user_id db ≡ some (v, a)
      → is_completed v.status ≡ true
      → Ensures Completed (completed_already now id db)
  unfolding completed_already enqueue_if enqueue_analysis_job_dispatch ◌>>=◌ ◌>>◌ pure modify
  already-Completed v a c d = Ensures-lookup Completed _ _ _ db (λ row f.
      elim (Bool-cases (is_queued row.1.status)) [
        | inl h ↦ rw h (Completed.already v a row.1 c d f refl refl)
        | inr h ↦ rw h (Completed.already v a row.1 c d f refl refl)
      ])

  pub complete_upload-Ends :
      HasUniqueKeys db.jobs
      → Ends Completed Failed (complete_upload now settings texts storage route id user_id user db)
  unfolding complete_upload
  complete_upload-Ends unique = Ends-guard _ _ _ _ _ db (λ _.
      Ends-lookup Completed Failed _ _ _ db (λ row c.
        Ends-gets Completed Failed _ _ db (elim (Bool-cases (is_completed row.0.status)) [
          | inl h ↦ rw h (Ensures-Ends Completed Failed _ (already-Completed row.0 row.1 c h))
          | inr h ↦ rw h (
              Ends-guard Completed Failed _ _ _ db (λ g.
                Ends-mono _ Completed _ Failed _
                  (λ job_id db' q. Completed.sealed row.0 row.1 c (ground arith) q.0 q.1)
                  (λ e db' o. failed_lem row.0 row.1 c e db' o)
                  (complete_new-Ends now settings texts storage route id row.0 row.1 db unique
                    (is_retryable id row.0 db))))
        ])))
