-- ===== src/Jobs/Progress.antt =====
-- What succeeds: a claim of a queued job, and the completion of a job that is held.
use doc_grading.Prelude.{
  ℕ, ◌+◌, ◌≡◌, refl, subst, sym, Table, Bool, true, false, Option, none, some, arith, find,
  find-put_self, put,
}
use doc_grading.Models.Enums.{queued, done}
use doc_grading.Models.Rows.{AnalysisJob, DocumentVersion}
use doc_grading.Models.Db.{Db}
use doc_grading.Models.Tx.{Outcome, returned, tx, Tx, pure, ◌>>◌}
use doc_grading.Models.Ensures.{Ensures}
use doc_grading.Audit.{record_system_audit}
use doc_grading.Jobs.Defs.{put_job, put_document}
use doc_grading.Jobs.Claim.{
  claim_job_by_id, claimed, mark_running, start_document, handle_locked_job,
}
use doc_grading.Jobs.Finish.{await_review, finish, finished, is_held, mark_done}
use doc_grading.Jobs.Refines.{Moves-mark_running}

abbrev Returns {ℓ} : {A : Type ℓ} → A → Tx A → Db → Type ℓ
Returns a m db = (db' : Db) × (m db ≡ returned a db')

start_document-Returns :
    (id : ℕ) (doc : Option DocumentVersion) (db : Db) → Returns tt (start_document id doc) db
unfolding start_document put_document record_system_audit tx
start_document-Returns id none db = (_, refl)
start_document-Returns id (some doc) db = (_, refl)

mark_running-Returns :
    (now id : ℕ) (job : AnalysisJob) (db : Db) → Returns tt (mark_running now id job) db
unfolding mark_running put_job record_system_audit tx
mark_running-Returns now id job db = start_document-Returns _ _ _

-- a claim of a queued job that is not locked
claim-Returns :
    (now lease id : ℕ) (locked : ℕ → Bool) (job : AnalysisJob) (db : Db)
    → find id db.jobs ≡ some job
    → job.status ≡ queued
    → locked id ≡ false
    → (db' : Db) × (claim_job_by_id now lease locked id db ≡ returned (some id) db')
      × (find id db'.jobs ≡ some (claimed now job))
unfolding claim_job_by_id handle_locked_job tx
claim-Returns now lease id locked job db f s l =
    let (db', e) = mark_running-Returns now id job db in
    (
      db',
      ground (arith, f, s, l, e),
      rw
          (subst (Ensures (λ _ db''. db''.jobs ≡ put id (claimed now job) db.jobs)) e
            ((Moves-mark_running now id job).at db refl))
          (find-put_self id (claimed now job) db.jobs),
    )

await_review-Returns :
    (id : ℕ) (doc : Option DocumentVersion) (db : Db)
    → (db' : Db) × (await_review id doc db ≡ returned tt db') × (db'.jobs ≡ db.jobs)
unfolding await_review put_document record_system_audit tx
await_review-Returns id none db = (_, refl, refl)
await_review-Returns id (some doc) db = (_, refl, refl)

then_true :
    (o : Outcome (Unit {0})) (db : Db) (t : Table AnalysisJob)
    → (db' : Db) × (o ≡ returned tt db') × (db'.jobs ≡ t)
    → (db' : Db) × (((λ _. o) >> pure true) db ≡ returned true db') × (db'.jobs ≡ t)
unfolding tx
then_true o db t (db', e, j) =
    (db', subst (λ o'. ((λ _. o') >> pure true) db ≡ returned true db') (sym e) refl, j)

finish-Returns :
    (now id attempt : ℕ) (job : AnalysisJob) (db : Db)
    → is_held attempt job ≡ true
    → (db' : Db) × (finish now id attempt (some job) db ≡ returned true db')
      × (db'.jobs ≡ put id (finished now job) db.jobs)
unfolding put_job record_system_audit tx
finish-Returns now id attempt job db h =
    rw h (then_true _ db _ (await_review-Returns job.document_version_id _ _))

-- A worker that holds a job completes it: the completion returns true, and the row is done then.
pub mark_done-progress :
    (now id attempt : ℕ) (job : AnalysisJob) (db : Db)
    → find id db.jobs ≡ some job
    → is_held attempt job ≡ true
    → (db' : Db) × (mark_done now id attempt db ≡ returned true db')
      × (find id db'.jobs ≡ some (finished now job))
unfolding mark_done
mark_done-progress now id attempt job db f h =
    let (db', e, j) = finish-Returns now id attempt job db h in
    (db', rw f e, rw j (find-put_self id (finished now job) db.jobs))

-- the row of a job that has been done under the attempt
pub record IsDone (id attempt now : ℕ) (db : Db) : Type 0 where
  pub row : AnalysisJob
  pub stored : find id db.jobs ≡ some row
  pub is_done : row.status ≡ done
  pub at_time : row.finished_at ≡ some now
  pub under : row.attempt_count ≡ attempt

-- A claim by identifier of a queued job that no one has locked returns this job, and the completion
-- that its worker sends under the next attempt number returns true: the job is done then, at the
-- time of the completion and under that attempt.
pub claim-progress :
    (now later lease id : ℕ) (locked : ℕ → Bool) (job : AnalysisJob) (db : Db)
    → find id db.jobs ≡ some job
    → job.status ≡ queued
    → locked id ≡ false
    → (db' : Db) × (claim_job_by_id now lease locked id db ≡ returned (some id) db')
      × (db'' : Db) × (mark_done later id (job.attempt_count + 1) db' ≡ returned true db'')
      × IsDone id (job.attempt_count + 1) later db''
claim-progress now later lease id locked job db f s l =
    let (db', e, g) = claim-Returns now lease id locked job db f s l in
    let (db'', d, h) =
      mark_done-progress later id (job.attempt_count + 1) (claimed now job) db' g (ground arith) in
    (db', e, db'', d, record { row = _; stored = h; is_done = refl; at_time = refl; under = refl })
