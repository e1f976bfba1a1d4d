-- ===== src/Submissions/Completion.antt =====
-- What completing an upload leaves: a sealed object and a job for it, or a failure that may be
-- tried again.
use doc_grading.Prelude.{
  ℕ, ◌≡◌, refl, ap, ◌∙◌, true, Option, none, some, find, find_by, find-put_self, find-find_by,
  HasUniqueKeys, arith, inl, inr, Bool-cases, Option-cases, ==_self,
}
use doc_grading.Models.Json.{Json}
use doc_grading.Models.Rows.{Assignment, DocumentVersion, AnalysisJob, Submission}
use doc_grading.Models.Db.{Db}
use doc_grading.Models.Tx.{tx}
use doc_grading.Models.Ensures.{Ensures}
use doc_grading.Audit.{record_system_audit}
use doc_grading.Jobs.Outbox.{enqueue_analysis_job_dispatch}
use doc_grading.Jobs.Defs.{
  create_or_get_job, get_or_create, enqueue_if, is_queued, is_job_of, put_job, new_job,
}
use doc_grading.Submissions.{for_student}
use doc_grading.Submissions.Complete.{with_submission, of_own_submission, storage_failed}

-- a job of the document under the rubric is stored, and the documents stay
module _ (now d r : ℕ) (route : Option Json) (db : Db) (unique : HasUniqueKeys db.jobs) where
  abbrev pub HasJob : ℕ → Db → Type 0
  HasJob job_id db' =
      (db'.documents ≡ db.documents)
      × ((job : AnalysisJob) × (find job_id db'.jobs ≡ some job) × (is_job_of d r job ≡ true))

  get_or_create-HasJob :
      (o : Option (ℕ × AnalysisJob))
      → find_by (is_job_of d r) db.jobs ≡ o
      → Ensures HasJob (get_or_create now d r route o db)
  unfolding get_or_create enqueue_if enqueue_analysis_job_dispatch put_job record_system_audit tx
  get_or_create-HasJob (some (job_id, job)) e =
      let (f, p) = find-find_by (is_job_of d r) db.jobs unique e in
      elim (Bool-cases (is_queued job.status)) [
        | inl h ↦ rw h (refl, (job, f, p))
        | inr h ↦ rw h (refl, (job, f, p))
      ]
  get_or_create-HasJob none e = (
    refl,
    (
      new_job now d r route,
      find-put_self db.next_uuid (new_job now d r route) db.jobs,
      ground (arith, ==_self d, ==_self r),
    ),
  )

  pub create_or_get_job-HasJob : Ensures HasJob (create_or_get_job now d r route db)
  unfolding create_or_get_job
  create_or_get_job-HasJob = get_or_create-HasJob (find_by (is_job_of d r) db.jobs) refl

same_student :
    (user_id : ℕ) (db db' : Db) (o : Option Assignment)
    → db'.memberships ≡ db.memberships
    → for_student user_id db' o ≡ for_student user_id db o
same_student user_id db db' none e = refl
same_student user_id db db' (some a) e = rw e refl

-- the join depends on the document only through its row
pub failed_context :
    (user_id : ℕ) (db db' : Db) (v : DocumentVersion) (a : Assignment)
    → with_submission user_id db (some v) ≡ some (v, a)
    → db'.submissions ≡ db.submissions
    → db'.assignments ≡ db.assignments
    → db'.memberships ≡ db.memberships
    → with_submission user_id db' (some (storage_failed v)) ≡ some (storage_failed v, a)
failed_context user_id db db' v a h s m n =
    ap (of_own_submission user_id db' (storage_failed v)) (ap (find v.submission_id) s)
    ∙ from (find v.submission_id db.submissions) h
  where
    from :
        (o : Option Submission)
        → of_own_submission user_id db v o ≡ some (v, a)
        → of_own_submission user_id db' (storage_failed v) o ≡ some (storage_failed v, a)
    from none e = cc
    from (some s') e =
        let same =
          same_student user_id db db' (find s'.assignment_id db'.assignments) n
          ∙ ap (λ t. for_student user_id db (find s'.assignment_id t)) m in
        elim (Option-cases (for_student user_id db (find s'.assignment_id db.assignments))) [
          | inl f ↦ ground (arith, same)
          | inr (b, f) ↦ ground (arith, same)
        ]

pub upload_context-loads :
    (user_id : ℕ) (db : Db) (o : Option DocumentVersion) (v : DocumentVersion) (a : Assignment)
    → with_submission user_id db o ≡ some (v, a)
    → o ≡ some v
upload_context-loads user_id db none v a h = cc
upload_context-loads user_id db (some w) v a h = from (find w.submission_id db.submissions) h
  where
    from :
        (o : Option Submission) → of_own_submission user_id db w o ≡ some (v, a) → some w ≡ some v
    from none e = cc
    from (some s) e =
        elim (Option-cases (for_student user_id db (find s.assignment_id db.assignments))) [
          | inl f ↦ ground arith
          | inr (b, f) ↦ ground arith
        ]
