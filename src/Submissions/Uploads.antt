-- ===== src/Submissions/Uploads.antt =====
-- What starting an upload leaves, `initiate_upload` of backend/app/services/submission.py.
use doc_grading.Prelude.{
  ℕ, ◌≤◌, ◌≡◌, refl, sym, ap, ◌∙◌, String, true, false, Option, none, some, find, find_by, arith,
  HasRow, put-HasRow, find_by-HasRow, ==_iff, inl, inr, Bool-cases, subst, HasUniqueKeys, is_none,
}
use doc_grading.Models.Rows.{User, Assignment, Submission, DocumentVersion}
use doc_grading.Models.Db.{Db}
use doc_grading.Models.Tx.{tx, modify, new_uuid}
use doc_grading.Models.Frames.{Frames, IsOrder, frame_rules}
use doc_grading.Jobs.Defs.{put_document}
use doc_grading.Models.Ensures.{Ensures, Ensures-mono, Ensures-both}
use doc_grading.Models.Hoare.{Ensures-guard, Ensures-lookup, Ensures-after}
use doc_grading.Notifications.{is_active_student_of}
use doc_grading.Review.Publish.{Digest}
use doc_grading.Submissions.{
  UploadSettings, Texts, may_upload, is_uploading, is_closed_at, for_student,
}
use doc_grading.Submissions.Initiate.{
  UploadFile, UploadResponse, initiate_upload, own_submission, or_new_submission, is_of_student,
  version_of, is_digest, again, reused_response, or_create, create_version, or_look_further,
  upload_version,
}
use doc_grading.Submissions.Numbers.{IsNumbered}
use doc_grading.Submissions.Versions.{Uploaded, upload_version-Uploaded, Uploaded-IsNumbered}

-- no row has an identifier that has not been given out
abbrev pub HasFreshIds : Db → Type 0
HasFreshIds db = (k : ℕ) → db.next_uuid ≤ k → find k db.documents ≡ none

-- the submission of the student to the assignment is stored under the identifier
pub record IsOwn (assignment_id student_id id : ℕ) (db : Db) : Type 0 where
  pub row : Submission
  pub stored : HasRow id row db.submissions
  pub of_assignment : row.assignment_id ≡ assignment_id
  pub by_student : row.student_id ≡ student_id

-- what the look for the student's submission leaves
abbrev IsFound : ℕ → ℕ → Db → ℕ → Db → Type 0
IsFound assignment_id student_id db id db' =
    ((db'.documents ≡ db.documents) × (db.next_uuid ≤ db'.next_uuid))
    × IsOwn assignment_id student_id id db'

own_submission-keeps :
    (assignment_id student_id : ℕ) (db : Db)
    → Ensures (IsFound assignment_id student_id db) (own_submission assignment_id student_id db)
unfolding own_submission tx
own_submission-keeps assignment_id student_id db =
    made (find_by (is_of_student assignment_id student_id) db.submissions) refl
  where
    made :
        (o : Option (ℕ × Submission))
        → find_by (is_of_student assignment_id student_id) db.submissions ≡ o
        → Ensures
            (IsFound assignment_id student_id db)
            (or_new_submission assignment_id student_id o db)
    made (some (id, s)) e =
        let (r, p) =
          find_by-HasRow (is_of_student assignment_id student_id) db.submissions id s e in
        (
          (refl, omega arith),
          record {
            row = s;
            stored = r;
            of_assignment = (==_iff s.assignment_id assignment_id).0 (ground arith);
            by_student = (==_iff s.student_id student_id).0 (ground arith);
          },
        )
    made none e = (
      (refl, omega arith),
      record {
        row = _;
        stored = put-HasRow db.next_uuid _ db.submissions;
        of_assignment = refl;
        by_student = refl;
      },
    )

-- what follows leaves the submissions alone
abbrev SameSubmissions : Db → Db → Type 0
SameSubmissions db db' = db'.submissions ≡ db.submissions

SameSubmissions-IsOrder : IsOrder SameSubmissions
SameSubmissions-IsOrder = record { refl_at = λ db. refl; trans_at = λ a b c p q. q ∙ p }

put_document-Same : (id : ℕ) (v : DocumentVersion) → Frames SameSubmissions (put_document id v)
unfolding put_document modify
put_document-Same id v = record { at = λ db. refl }

new_uuid-Same : Frames SameSubmissions new_uuid
unfolding new_uuid
new_uuid-Same = record { at = λ db. refl }

again-Same :
    (now : ℕ) (settings : UploadSettings) (id : ℕ) (v : DocumentVersion)
    → Frames SameSubmissions (again now settings id v)
unfolding again reused_response
again-Same now settings id v = elim (Bool-cases (is_uploading v.status)) [
  | inl h ↦ rw h (search (SameSubmissions-IsOrder, frame_rules, put_document-Same))
  | inr h ↦ rw h (search (SameSubmissions-IsOrder, frame_rules))
]

module _ (now : ℕ) (settings : UploadSettings) (texts : Texts) (digest : Digest) (user_id : ℕ)
    (key : String) (file : UploadFile) (sha256 : String) where
  or_create-Same :
      (limit submission_id : ℕ) (o : Option (ℕ × DocumentVersion))
      → Frames SameSubmissions
          (or_create now settings texts digest user_id key file sha256 limit submission_id o)
  unfolding or_create create_version
  or_create-Same limit submission_id (some (id, v)) = again-Same now settings id v
  or_create-Same limit submission_id none =
      search (SameSubmissions-IsOrder, frame_rules, put_document-Same, new_uuid-Same) depth 10

  or_look_further-Same :
      (limit submission_id : ℕ) (o : Option (ℕ × DocumentVersion))
      → Frames SameSubmissions
          (or_look_further now settings texts digest user_id key file sha256 limit submission_id o)
  unfolding or_look_further
  or_look_further-Same limit submission_id (some (id, v)) =
      search (SameSubmissions-IsOrder, frame_rules, again-Same)
  or_look_further-Same limit submission_id none =
      search (SameSubmissions-IsOrder, frame_rules, or_create-Same)

  upload_version-Same :
      (a : Assignment) (submission_id : ℕ)
      → Frames SameSubmissions
          (upload_version now settings texts digest user_id key file sha256 a submission_id)
  unfolding upload_version
  upload_version-Same a submission_id =
      search (SameSubmissions-IsOrder, frame_rules, or_look_further-Same)

for_student-loads :
    (user_id : ℕ) (db : Db) (o : Option Assignment) (a : Assignment)
    → for_student user_id db o ≡ some a
    → (o ≡ some a)
      × (is_none (find_by (is_active_student_of a.course_id user_id) db.memberships) ≡ false)
for_student-loads user_id db none a e = cc
for_student-loads user_id db (some b) a e =
    elim (Bool-cases
      (is_none (find_by (is_active_student_of b.course_id user_id) db.memberships))) [
        | inl h ↦ ground arith
        | inr h ↦ ground arith
      ]

module _ (now : ℕ) (settings : UploadSettings) (texts : Texts) (digest : Digest)
    (assignment_id user_id : ℕ) (user : User) (key : String) (file : UploadFile) (db : Db) where
  -- An active student has started an upload to an open assignment.
  pub record IsUpload (version_id : ℕ) (db' : Db) : Type 0 where
    pub assignment : Assignment
    pub submission_id : ℕ
    pub own : IsOwn assignment_id user_id submission_id db'
    pub student : may_upload user ≡ true
    pub loaded : find assignment_id db.assignments ≡ some assignment
    pub member :
        is_none (find_by (is_active_student_of assignment.course_id user_id) db.memberships) ≡ false
    pub digest_given : is_digest (texts.lower file.sha256) ≡ true
    pub small : file.size_bytes ≤ settings.pdf_max_size_bytes
    pub accepting : is_closed_at now assignment ≡ false
    pub version :
        Uploaded now settings texts digest user_id key file
          (texts.lower file.sha256)
          submission_id
          assignment.max_submissions
          db.documents
          db'.documents
          version_id

  concluded :
      (a : Assignment) (s version_id : ℕ) (db' : Db)
      → may_upload user ≡ true
      → for_student user_id db (find assignment_id db.assignments) ≡ some a
      → is_digest (texts.lower file.sha256) ≡ true
      → file.size_bytes ≤ settings.pdf_max_size_bytes
      → is_closed_at now a ≡ false
      → IsOwn assignment_id user_id s db'
      → Uploaded now settings texts digest user_id key file
          (texts.lower file.sha256)
          s
          a.max_submissions
          db.documents
          db'.documents
          version_id
      → IsUpload version_id db'
  concluded a s version_id db' st l dg sz cl own u = record {
    assignment = a;
    submission_id = s;
    own = own;
    student = st;
    loaded = (for_student-loads user_id db (find assignment_id db.assignments) a l).0;
    member = (for_student-loads user_id db (find assignment_id db.assignments) a l).1;
    digest_given = dg;
    small = sz;
    accepting = cl;
    version = u;
  }

  -- If starting an upload returns, then the user is only a student, an active one of the course; the
  -- assignment is open and not due; the file is within the limit of size and has a digest; and the
  -- answer is about a version of the student's own submission to the assignment, under the same key
  -- and payload or with the same digest, or about a new version while the number of versions was below the assignment's limit.
  pub initiate_upload-IsUpload :
      HasUniqueKeys db.documents
      → HasFreshIds db
      → Ensures
          (λ r db'. IsUpload (version_of r) db')
          (initiate_upload now settings texts digest assignment_id user_id user key file db)
  unfolding initiate_upload
  initiate_upload-IsUpload unique fresh = Ensures-guard Q _ _ _ db (λ st.
      Ensures-lookup Q _ _ _ db (λ a l. Ensures-guard Q _ _ _ db (λ dg.
        Ensures-guard Q _ _ _ db (λ _. Ensures-guard Q _ _ _ db (λ sz.
          Ensures-guard Q _ _ _ db (λ cl.
            Ensures-after (IsFound assignment_id user_id db) Q _ _ db
              (own_submission-keeps assignment_id user_id db)
              (λ s db1 k.
                Ensures-mono _ Q _
                  (λ r db2 u.
                    concluded a s (version_of r) db2 (ground arith) l (ground arith) (ground arith)
                      cl (kept s db1 db2 k.1 u.1)
                      (subst
                        (λ t.
                          Uploaded now settings texts digest user_id key file
                            (texts.lower file.sha256) s a.max_submissions t db2.documents
                            (version_of r))
                        k.0.0 u.0))
                  (Ensures-both _ (λ _ db2. SameSubmissions db1 db2) _
                    (upload_version-Uploaded now settings texts digest user_id key file
                      (texts.lower file.sha256) a s db1 (subst HasUniqueKeys (sym k.0.0) unique)
                      (ap (λ t. find db1.next_uuid t) k.0.0 ∙ fresh db1.next_uuid k.0.1))
                    ((upload_version-Same now settings texts digest user_id key file
                        (texts.lower file.sha256) a s).at
                      db1)))))))))
    where
      kept :
          (s : ℕ) (db1 db2 : Db)
          → IsOwn assignment_id user_id s db1
          → SameSubmissions db1 db2
          → IsOwn assignment_id user_id s db2
      kept s db1 db2 o e = record {
        row = o.row;
        stored = subst (HasRow s o.row) (sym e) o.stored;
        of_assignment = o.of_assignment;
        by_student = o.by_student;
      }

      Q : UploadResponse → Db → Type 0
      Q r db' = IsUpload (version_of r) db'

  -- If the versions of each submission are numbered without repetition up to their count, then so
  -- they are when starting an upload has returned.
  pub initiate_upload-IsNumbered :
      HasUniqueKeys db.documents
      → HasFreshIds db
      → IsNumbered db.documents
      → Ensures
          (λ _ db'. IsNumbered db'.documents)
          (initiate_upload now settings texts digest assignment_id user_id user key file db)
  initiate_upload-IsNumbered unique fresh n =
      Ensures-mono _ _ _
        (λ r db' (u : IsUpload (version_of r) db').
          Uploaded-IsNumbered now settings texts digest user_id key file (texts.lower file.sha256)
            u.submission_id u.assignment.max_submissions db.documents db'.documents (version_of r)
            u.version n)
        (initiate_upload-IsUpload unique fresh)
