-- ===== src/Tests/UploadRuns.antt =====
-- Uploads of a student.
use doc_grading.Prelude.{
  ◌∙◌, ap, ℕ, ◌≡◌, refl, false, Option, none, some, [], ◌∷◌, arith, find, ◌≤◌, find_by, strip,
  Bool-cases, inl, inr, ◌==◌, ==_iff, sym, subst, put,
}
use doc_grading.Models.Enums.{UserRole, AssignmentStatus, DocumentStatus}
use doc_grading.Models.Rows.{User, Assignment, DocumentVersion}
use doc_grading.Models.Db.{Db}
use doc_grading.Models.Tx.{tx, persisted, Error}
use doc_grading.Models.Ensures.{Ensures}
use doc_grading.Models.Ends.{Ends}
use doc_grading.Models.Returns.{Returns}
use doc_grading.Jobs.Defs.{put_document}
use doc_grading.Submissions.{UploadSettings, Texts, count_versions, is_closed_at}
use doc_grading.Submissions.Initiate.{UploadFile, initiate_upload, version_of}
use doc_grading.Submissions.Numbers.{IsNumbered}
use doc_grading.Submissions.Uploads.{
  IsUpload, HasFreshIds, initiate_upload-IsUpload, initiate_upload-IsNumbered,
}
use doc_grading.Submissions.Complete.{
  complete_upload, upload_context, complete_new, head_of, fail_storage, ObjectHead, Storage,
  StorageAnswer,
}
use doc_grading.Submissions.Recovery.{Serves, outage-Returns}
use doc_grading.Tests.Data.{school, document, teacher, assignment}

abbrev student : User
student = record teacher { roles = UserRole.student ∷ [] }

abbrev open_assignment : Assignment
open_assignment = record assignment { status = AssignmentStatus.open_ }

abbrev at_work : Db
at_work = record (school (document DocumentStatus.uploading)) {
  assignments = (5, open_assignment) ∷ [];
}

abbrev settings : UploadSettings
settings = record { pdf_max_size_bytes = 5000; storage_presign_expiry_seconds = 60 }

abbrev texts : Texts
texts = record { lower = λ s. s; uuid_text = λ n. "id" }

abbrev file : UploadFile
file = record {
  filename = "essay.pdf";
  content_type = "application/pdf";
  size_bytes = 1000;
  sha256 = "0123456789abcdef0123456789abcdef0123456789abcdef0123456789abcdef";
}

at_work-HasFreshIds : HasFreshIds at_work
unfolding find
at_work-HasFreshIds k h = ground arith

only_row : (j : ℕ) (d e : DocumentVersion) → find j ((8, d) ∷ []) ≡ some e → (j ≡ 8) × (d ≡ e)
unfolding find
only_row j d e f = elim (Bool-cases (j == 8)) [
  | inl h ↦ ((==_iff j 8).0 h, cc)
  | inr h ↦ ground arith
]

at_work-IsNumbered : IsNumbered at_work.documents
unfolding count_versions
at_work-IsNumbered = record {
  bounded = λ j d f.
      subst (λ x. x.version_number ≤ count_versions x.submission_id at_work.documents)
        (only_row j _ d f).1 (omega arith);
  distinct = λ j k d e f g s n. omega (arith, (only_row j _ d f).0, (only_row k _ e g).0);
}

initiate_upload-IsUpload_example :
    Ensures
      (λ r db'.
        IsUpload 10 settings texts (λ f. "d") 5 2 student "key" file at_work (version_of r) db')
      (initiate_upload 10 settings texts (λ f. "d") 5 2 student "key" file at_work)
unfolding find
initiate_upload-IsUpload_example =
    initiate_upload-IsUpload 10 settings texts (λ f. "d") 5 2 student "key" file at_work (refl, tt)
      at_work-HasFreshIds

initiate_upload-IsNumbered_example :
    Ensures
      (λ r db'. IsNumbered db'.documents)
      (initiate_upload 10 settings texts (λ f. "d") 5 2 student "key" file at_work)
unfolding find
initiate_upload-IsNumbered_example =
    initiate_upload-IsNumbered 10 settings texts (λ f. "d") 5 2 student "key" file at_work
      (refl, tt) at_work-HasFreshIds at_work-IsNumbered

abbrev head : ObjectHead
head = record { content_type = "application/pdf"; content_length = 1000; etag = "e" }

abbrev working : Storage
working = record {
  head = λ key. StorageAnswer.object head;
  seal_upload = λ key sealed etag. StorageAnswer.object head;
}

abbrev broken : Storage
broken = record {
  head = λ key. StorageAnswer.unavailable;
  seal_upload = λ key sealed etag. StorageAnswer.unavailable;
}

serves : (v : DocumentVersion) → v.size_bytes ≡ 1000 → Serves texts settings v working
unfolding strip
serves v e = record {
  uploaded = head;
  sealed = head;
  has = refl;
  seals = λ key. refl;
  pdf = refl;
  sealed_pdf = refl;
  size = sym e;
  sealed_size = refl;
  not_empty = omega arith;
  within = omega arith;
}

served :
    (v w : DocumentVersion) (a b : Assignment)
    → ◌≡◌ {A = Option (DocumentVersion × Assignment)} (some (v, a)) (some (w, b))
    → v.size_bytes ≡ 1000
    → is_closed_at 20 a ≡ false
    → (is_closed_at 20 b ≡ false) × Serves texts settings w working
served v w a b e size open_ =
    let p : v ≡ w = cc in
    let q : a ≡ b = cc in
    (ap (λ x. is_closed_at 20 x) (sym q) ∙ open_, serves w (ap (λ x. x.size_bytes) (sym p) ∙ size))

abbrev after_outage : Db
after_outage = persisted at_work (complete_upload 10 settings texts broken none 8 2 student at_work)

outage-Returns_example :
    Returns (complete_upload 20 settings texts working none 8 2 student) after_outage
unfolding find find_by upload_context complete_upload complete_new head_of fail_storage put
    put_document tx
outage-Returns_example =
    outage-Returns 10 20 settings texts broken working none 8 2 student at_work after_outage
      (Error.http 503 "Object storage is temporarily unavailable") tt refl refl refl
      (λ v a c. served _ v _ a c refl refl)
