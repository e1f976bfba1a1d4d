-- ===== src/Submissions/Recovery.antt =====
-- Once the storage works again, an upload that it has failed can be completed.
use doc_grading.Prelude.{
  ℕ, ◌≤◌, ◌<◌, ◌≡◌, refl, subst, String, Bool, true, false, not, ◌&&◌, ◌||◌, Option, none, some,
  find_by, HasUniqueKeys, arith, inl, inr, Bool-cases, ltb, ◌==◌, ==_iff,
}
use doc_grading.Models.Json.{Json}
use doc_grading.Models.Rows.{User, Assignment, DocumentVersion, AnalysisJob}
use doc_grading.Models.Db.{Db}
use doc_grading.Models.Tx.{tx, Error, Outcome, returned, committed, pure, lookup, or_raise, gets}
use doc_grading.Models.Ends.{Ends}
use doc_grading.Models.Returns.{
  Returns, Returns-raise_if, Returns-modify, Returns-new_uuid, Returns-bind, Returns-then,
  Returns-known, Returns-past,
}
use doc_grading.Audit.{record_system_audit}
use doc_grading.Jobs.Outbox.{enqueue_analysis_job_dispatch}
use doc_grading.Jobs.Defs.{
  create_or_get_job, get_or_create, enqueue_if, is_queued, is_job_of, put_job, put_document,
}
use doc_grading.Submissions.{UploadSettings, Texts, may_upload, is_closed_at, is_uploading}
use doc_grading.Submissions.Initiate.{is_pdf, of_document}
use doc_grading.Submissions.Complete.{
  complete_upload, complete_new, seal_and_queue, head_of, sealed_of, upload_context, is_completed,
  is_retryable, has_expired, storage_failed, Storage, StorageAnswer, ObjectHead,
}
use doc_grading.Submissions.Sealing.{Completed, Failed, complete_upload-Ends}

Returns-create_or_get_job :
    (now d r : ℕ) (route : Option Json) (db : Db) → Returns (create_or_get_job now d r route) db
unfolding create_or_get_job get_or_create enqueue_if enqueue_analysis_job_dispatch put_job
    record_system_audit tx
Returns-create_or_get_job now d r route db = ends (find_by (is_job_of d r) db.jobs)
  where
    ends : (o : Option (ℕ × AnalysisJob)) → Returns (get_or_create now d r route o) db
    ends (some (id, job)) = elim (Bool-cases (is_queued job.status)) [
      | inl h ↦ rw h (id, _, refl)
      | inr h ↦ rw h (id, _, refl)
    ]
    ends none = (db.next_uuid, _, refl)

-- The storage has the object and seals it, as the client has declared it.
pub record Serves (texts : Texts) (settings : UploadSettings) (v : DocumentVersion)
    (storage : Storage) : Type 0 where
  pub uploaded : ObjectHead
  pub sealed : ObjectHead
  pub has : storage.head v.storage_key ≡ StorageAnswer.object uploaded
  pub seals :
      (key : String)
      → storage.seal_upload v.storage_key key uploaded.etag ≡ StorageAnswer.object sealed
  pub pdf : is_pdf texts uploaded.content_type ≡ true
  pub sealed_pdf : is_pdf texts sealed.content_type ≡ true
  pub size : uploaded.content_length ≡ v.size_bytes
  pub sealed_size : sealed.content_length ≡ uploaded.content_length
  pub not_empty : 0 < v.size_bytes
  pub within : v.size_bytes ≤ settings.pdf_max_size_bytes

Returns-put_document : (id : ℕ) (v : DocumentVersion) (db : Db) → Returns (put_document id v) db
unfolding put_document
Returns-put_document id v db = Returns-modify db _

Returns-sealed_of :
    (texts : Texts) (id : ℕ) (v : DocumentVersion) (head sealed : ObjectHead)
    (answer : StorageAnswer) (db : Db)
    → answer ≡ StorageAnswer.object sealed
    → is_pdf texts sealed.content_type ≡ true
    → sealed.content_length ≡ head.content_length
    → Returns (sealed_of texts id v head answer) db
unfolding sealed_of pure
Returns-sealed_of texts id v head sealed answer db e p q =
    let h : (is_pdf texts sealed.content_type && sealed.content_length == head.content_length)
        ≡ true =
      ground (arith, (==_iff sealed.content_length head.content_length).1 q) in
    rw (e, h) (sealed, db, refl)

Returns-head_of :
    (id : ℕ) (v : DocumentVersion) (head : ObjectHead) (answer : StorageAnswer) (db : Db)
    → answer ≡ StorageAnswer.object head
    → head_of id v answer db ≡ returned head db
unfolding head_of pure
Returns-head_of id v head answer db e = rw e refl

module _ (now : ℕ) (settings : UploadSettings) (texts : Texts) (storage : Storage)
    (route : Option Json) (id user_id : ℕ) (user : User) where
  Returns-seal_and_queue :
      (v : DocumentVersion) (a : Assignment) (db : Db) (s : Serves texts settings v storage)
      → Returns (seal_and_queue now texts storage route id v a s.uploaded) db
  unfolding seal_and_queue
  Returns-seal_and_queue v a db s = Returns-bind db _ _ (Returns-new_uuid db) (λ key_id db1 _.
      Returns-bind db1 _ _
        (Returns-sealed_of texts id v s.uploaded s.sealed _ db1 (s.seals _) s.sealed_pdf
          s.sealed_size)
        (λ sealed db2 _.
          Returns-then db2 _ _ (Returns-put_document id _ db2)
            (λ db3. Returns-create_or_get_job now id a.rubric_version_id route db3)))

  Returns-complete_new :
      (v : DocumentVersion) (a : Assignment) (retryable : Bool) (db : Db)
      → Serves texts settings v storage
      → is_closed_at now a ≡ false
      → has_expired now retryable v ≡ false
      → Returns (complete_new now settings texts storage route id v a retryable) db
  unfolding complete_new
  Returns-complete_new v a retryable db s cl ex =
      Returns-then db _ _ (Returns-raise_if db _ _ cl) (λ db1.
        Returns-then db1 _ _ (Returns-raise_if db1 _ _ ex) (λ db2.
          Returns-known db2 _ _ s.uploaded db2 (Returns-head_of id v s.uploaded _ db2 s.has) (
            Returns-then db2 _ _ (Returns-raise_if db2 _ _ (ground (arith, s.pdf))) (λ db3.
              Returns-then db3 _ _ (Returns-raise_if db3 _ _ (sized s)) (λ db4.
                Returns-then db4 _ _ (Returns-raise_if db4 _ _ (declared s))
                  (λ db5. Returns-seal_and_queue v a db5 s))))))
    where
      sized :
          (s : Serves texts settings v storage)
          → (s.uploaded.content_length == 0
              || ltb settings.pdf_max_size_bytes s.uploaded.content_length)
            ≡ false
      sized s = ground (arith, s.size, s.not_empty, s.within)

      declared :
          (s : Serves texts settings v storage)
          → not (s.uploaded.content_length == v.size_bytes) ≡ false
      declared s = ground (arith, (==_iff s.uploaded.content_length v.size_bytes).1 s.size)

  -- If the user is only a student with a document that is uploading in time, or that the storage
  -- has failed before there was a job, in an assignment that is open and not due, and the storage
  -- has the declared object and seals it, then completing the upload returns.
  pub complete_upload-Returns :
      (v : DocumentVersion) (a : Assignment) (db : Db)
      → may_upload user ≡ true
      → upload_context id user_id db ≡ some (v, a)
      → is_completed v.status ≡ false
      → (is_uploading v.status || is_retryable id v db) ≡ true
      → has_expired now (is_retryable id v db) v ≡ false
      → is_closed_at now a ≡ false
      → Serves texts settings v storage
      → Returns (complete_upload now settings texts storage route id user_id user) db
  unfolding complete_upload lookup or_raise gets
  complete_upload-Returns v a db m c nc ok ex cl s = Returns-past db _ _ _ (ground arith) (
      Returns-known db _ _ (v, a) db (rw c refl)
        (Returns-known db _ _ (is_retryable id v db) db refl (
          rw nc (
            Returns-past db _ _ _ (ground arith)
              (Returns-complete_new v a (is_retryable id v db) db s cl ex)))))

-- the failure changes nothing of what the storage is asked for
still-Serves :
    {texts : Texts} {settings : UploadSettings} {v : DocumentVersion} {storage : Storage}
    → Serves texts settings v storage
    → Serves texts settings (storage_failed v) storage
still-Serves s = record {
  uploaded = s.uploaded;
  sealed = s.sealed;
  has = s.has;
  seals = s.seals;
  pdf = s.pdf;
  sealed_pdf = s.sealed_pdf;
  size = s.size;
  sealed_size = s.sealed_size;
  not_empty = s.not_empty;
  within = s.within;
}

committed-Ends {ℓ} :
    {A : Type ℓ} (Q : A → Db → Type 0) (E : Error → Db → Type 0) (o : Outcome A) (e : Error)
    (db : Db)
    → o ≡ committed e db
    → Ends Q E o
    → E e db
committed-Ends Q E o e db h = subst (Ends Q E) h

-- If completing an upload has committed before it raised, the document had no job, and later the
-- assignment is open and not due and the storage has the declared object and seals it, then
-- completing the upload once more returns.
pub outage-Returns :
    (now later : ℕ) (settings : UploadSettings) (texts : Texts) (storage working : Storage)
    (route : Option Json) (id user_id : ℕ) (user : User) (db db' : Db) (e : Error)
    → HasUniqueKeys db.jobs
    → find_by (of_document id) db.jobs ≡ none
    → may_upload user ≡ true
    → complete_upload now settings texts storage route id user_id user db ≡ committed e db'
    → ((v : DocumentVersion) (a : Assignment)
        → upload_context id user_id db ≡ some (v, a)
        → (is_closed_at later a ≡ false) × Serves texts settings v working)
    → Returns (complete_upload later settings texts working route id user_id user) db'
outage-Returns now later settings texts storage working route id user_id user db db' e unique no_job
      m c works =
    let f : Failed now settings texts storage route id user_id user db e db' =
      committed-Ends (Completed now settings texts storage route id user_id user db)
        (Failed now settings texts storage route id user_id user db) _ e db' c
        (complete_upload-Ends now settings texts storage route id user_id user db unique) in
    let (open_, serves) = works f.version f.assignment f.before in
    complete_upload-Returns later settings texts working route id user_id user
      (storage_failed f.version) f.assignment db' m f.after refl
      (ground (arith, f.retryable no_job)) (ground (arith, f.retryable no_job)) open_
      (still-Serves serves)
