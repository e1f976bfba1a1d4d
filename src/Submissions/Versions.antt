-- ===== src/Submissions/Versions.antt =====
-- What starting an upload leaves: one of the submission's versions again, or the next one.
use doc_grading.Prelude.{
  ℕ, ◌+◌, ◌<◌, ◌≡◌, refl, sym, ap, ◌∙◌, String, true, Option, none, some, find, find_by, put, arith,
  inl, inr, ◌⊎◌, Bool-cases, subst, Table, HasUniqueKeys, find-find_by, str_opt_eq,
}
use doc_grading.Models.Enums.{DocumentStatus}
use doc_grading.Models.Rows.{Assignment, DocumentVersion, AnalysisJob}
use doc_grading.Models.Db.{Db}
use doc_grading.Models.Tx.{tx, pure, modify, new_uuid, ◌>>=◌, ◌>>◌}
use doc_grading.Models.Ensures.{Ensures, Ensures-mono}
use doc_grading.Models.Hoare.{Ensures-guard, Ensures-gets}
use doc_grading.Jobs.Defs.{put_document, seconds}
use doc_grading.Review.Publish.{Digest, latest_document_id}
use doc_grading.Submissions.{UploadSettings, Texts, is_uploading, count_versions}
use doc_grading.Submissions.Initiate.{
  UploadFile, UploadResponse, upload_version, or_look_further, or_create, create_version, again,
  reused_response, new_version, renewed_upload, with_job, of_document, version_of, is_under_key,
  has_digest, fingerprint_of,
}
use doc_grading.Submissions.Numbers.{IsNumbered, put_new-IsNumbered, put-IsNumbered}

with_job-version :
    (id : ℕ) (v : DocumentVersion) (job : Option (ℕ × AnalysisJob))
    → version_of (with_job id v job) ≡ id
with_job-version id v none = refl
with_job-version id v (some (job_id, job)) = refl

-- the answer is about this version, which stays or has more time
again_lem :
    (now : ℕ) (settings : UploadSettings) (id : ℕ) (v : DocumentVersion) (db : Db)
    → Ensures
        (λ r db'.
          (version_of r ≡ id)
          × ((db'.documents ≡ db.documents)
              ⊎ (db'.documents ≡ put id (renewed_upload now settings v) db.documents)))
        (again now settings id v db)
unfolding again reused_response put_document tx
again_lem now settings id v db = elim (Bool-cases (is_uploading v.status)) [
  | inl h ↦ rw h (refl, inr refl)
  | inr h ↦ rw h (with_job-version id v (find_by (of_document id) db.jobs), inl refl)
]

module _ (now : ℕ) (settings : UploadSettings) (texts : Texts) (digest : Digest) (user_id : ℕ)
    (key : String) (file : UploadFile) (sha256 : String) where
  -- a version that waits for its file, under the next number of its submission
  pub record IsNew (submission_id count : ℕ) (v : DocumentVersion) : Type 0 where
    pub of_submission : v.submission_id ≡ submission_id
    pub numbered : v.version_number ≡ count + 1
    pub waits : v.status ≡ DocumentStatus.uploading
    pub under_key : v.idempotency_key ≡ some key
    pub payload : v.idempotency_fingerprint ≡ some (fingerprint_of digest file sha256)
    pub declared : (v.sha256 ≡ sha256) × (v.size_bytes ≡ file.size_bytes)
    pub expires : v.upload_expires_at ≡ some (now + seconds settings.storage_presign_expiry_seconds)

  -- The version is one of the submission under the same key and payload, or with the same digest,
  -- or a new one within the limit.
  pub data Uploaded (submission_id limit : ℕ) (t t' : Table DocumentVersion) (id : ℕ) : Type 0 where
    resumed :
        (v : DocumentVersion)
        → find id t ≡ some v
        → ((is_under_key submission_id key v ≡ true)
            × (str_opt_eq v.idempotency_fingerprint (some (fingerprint_of digest file sha256))
                ≡ true))
          ⊎ (has_digest submission_id sha256 v ≡ true)
        → (t' ≡ t) ⊎ (t' ≡ put id (renewed_upload now settings v) t)
        → Uploaded submission_id limit t t' id
    created :
        (v : DocumentVersion)
        → find id t ≡ none
        → count_versions submission_id t < limit
        → IsNew submission_id (count_versions submission_id t) v
        → t' ≡ put id v t
        → Uploaded submission_id limit t t' id

  module _ (limit submission_id : ℕ) (db : Db) (unique : HasUniqueKeys db.documents)
      (fresh : find db.next_uuid db.documents ≡ none) where
    abbrev Q : UploadResponse → Db → Type 0
    Q r db' = Uploaded submission_id limit db.documents db'.documents (version_of r)

    resumed-Uploaded :
        (id : ℕ) (v : DocumentVersion)
        → find id db.documents ≡ some v
        → ((is_under_key submission_id key v ≡ true)
            × (str_opt_eq v.idempotency_fingerprint (some (fingerprint_of digest file sha256))
                ≡ true))
          ⊎ (has_digest submission_id sha256 v ≡ true)
        → Ensures Q (again now settings id v db)
    resumed-Uploaded id v f same =
        Ensures-mono _ Q _
          (λ r db' w.
            subst (Uploaded submission_id limit db.documents db'.documents) (sym w.0)
              (Uploaded.resumed v f same w.1))
          (again_lem now settings id v db)

    create_version-Uploaded :
        Ensures Q
          (create_version now settings texts digest user_id key file sha256 limit submission_id db)
    unfolding create_version put_document modify pure ◌>>◌ ◌>>=◌ new_uuid
    create_version-Uploaded = Ensures-gets Q _ _ db (
        Ensures-guard Q _ _ _ db (λ h.
          let l : count_versions submission_id db.documents < limit = ground arith in
          Ensures-gets Q _ _ db (
            Uploaded.created
              (new_version now settings texts digest user_id key file sha256 submission_id
                (count_versions submission_id db.documents) (latest_document_id submission_id db)
                (db.next_uuid + 1))
              fresh l
              (record {
                of_submission = refl;
                numbered = refl;
                waits = refl;
                under_key = refl;
                payload = refl;
                declared = (refl, refl);
                expires = refl;
              })
              refl)))

    or_create-Uploaded :
        (o : Option (ℕ × DocumentVersion))
        → find_by (has_digest submission_id sha256) db.documents ≡ o
        → Ensures Q
            (or_create now settings texts digest user_id key file sha256 limit submission_id o db)
    unfolding or_create
    or_create-Uploaded (some (id, v)) e =
        let (f, p) = find-find_by (has_digest submission_id sha256) db.documents unique e in
        resumed-Uploaded id v f (inr p)
    or_create-Uploaded none e = create_version-Uploaded

    or_look_further-Uploaded :
        (o : Option (ℕ × DocumentVersion))
        → find_by (is_under_key submission_id key) db.documents ≡ o
        → Ensures Q (
            or_look_further now settings texts digest user_id key file sha256 limit submission_id o
              db)
    unfolding or_look_further
    or_look_further-Uploaded (some (id, v)) e =
        let (f, p) = find-find_by (is_under_key submission_id key) db.documents unique e in
        Ensures-guard Q _ _ _ db (λ h. resumed-Uploaded id v f (inl (p, ground arith)))
    or_look_further-Uploaded none e =
        Ensures-gets Q _ _ db
          (or_create-Uploaded (find_by (has_digest submission_id sha256) db.documents) refl)

  pub upload_version-Uploaded :
      (a : Assignment) (submission_id : ℕ) (db : Db)
      → HasUniqueKeys db.documents
      → find db.next_uuid db.documents ≡ none
      → Ensures
          (λ r db'.
            Uploaded submission_id a.max_submissions db.documents db'.documents (version_of r))
          (upload_version now settings texts digest user_id key file sha256 a submission_id db)
  unfolding upload_version
  upload_version-Uploaded a submission_id db unique fresh = Ensures-gets _ _ _ db (
      or_look_further-Uploaded a.max_submissions submission_id db unique fresh
        (find_by (is_under_key submission_id key) db.documents) refl)

  pub Uploaded-IsNumbered :
      (submission_id limit : ℕ) (t t' : Table DocumentVersion) (id : ℕ)
      → Uploaded submission_id limit t t' id
      → IsNumbered t
      → IsNumbered t'
  Uploaded-IsNumbered submission_id limit t t' id (resumed v f same (inl e)) n = rw e n
  Uploaded-IsNumbered submission_id limit t t' id (resumed v f same (inr e)) n =
      rw e (put-IsNumbered id (renewed_upload now settings v) t n v f refl refl)
  Uploaded-IsNumbered submission_id limit t t' id (created v f l w e) n = rw e (
      put_new-IsNumbered id v t n f
        (w.numbered ∙ ap (λ s. count_versions s t + 1) (sym w.of_submission)))
