-- ===== src/Jobs/Trace.antt =====
-- Any interleaving of the workers' and the users' transactions on jobs.
use doc_grading.Prelude.{
  ℕ, ◌≡◌, refl, String, Bool, Option, none, some, List, [], ◌∷◌, find, inl, inr, Bool-cases, not,
  ◌&&◌, HasUniqueKeys, Table, put,
}
use doc_grading.Models.Json.{Json}
use doc_grading.Models.Enums.{queued}
use doc_grading.Models.Rows.{AnalysisJob, User}
use doc_grading.Models.Db.{Db}
use doc_grading.Models.Tx.{Outcome, persisted, returned, raised, committed, pure}
use doc_grading.Models.Ensures.{Ensures, Ensures-mono}
use doc_grading.Jobs.Defs.{create_or_get_job}
use doc_grading.Jobs.Machine.{Step}
use doc_grading.Jobs.Claim.{claim_job_by_id, claim_next_job, claim_found, is_claimable}
use doc_grading.Jobs.Claims.{Claims, handle_locked_job-IsClaim}
use doc_grading.Jobs.Selection.{claim_next_job-earliest}
use doc_grading.Jobs.Finish.{update_heartbeat, mark_done, mark_error}
use doc_grading.Jobs.Retry.{retry_job}
use doc_grading.Jobs.Changes.{Changes, Changes-IsValid, Claims-Changes, IsValid}
use doc_grading.Jobs.Writes.{
  update_heartbeat-Changed, mark_done-Changed, mark_error-Changed, retry_job-Changed,
  create_or_get_job-Changed,
}

-- One transaction; `locked` are the rows that other transactions hold.
pub data Request : Type 0 where
  create : ℕ → ℕ → Option Json → Request
  claim_next : (ℕ → Bool) → Request
  claim_by_id : (ℕ → Bool) → ℕ → Request
  heartbeat : ℕ → ℕ → Request
  done : ℕ → ℕ → Request
  error : ℕ → String → String → ℕ → Request
  retry : ℕ → AnalysisJob → ℕ → User → Request

-- the database after the transaction, at the time `now` and under the lease of the settings
pub serve : ℕ → ℕ → Request → Db → Db
serve lease now (create d r route) db = persisted db (create_or_get_job now d r route db)
serve lease now (claim_next locked) db = persisted db (claim_next_job now lease locked db)
serve lease now (claim_by_id locked id) db = persisted db (claim_job_by_id now lease locked id db)
serve lease now (heartbeat id attempt) db = persisted db (update_heartbeat now id attempt db)
serve lease now (done id attempt) db = persisted db (mark_done now id attempt db)
serve lease now (error id code detail attempt) db =
    persisted db (mark_error now id code detail attempt db)
serve lease now (retry id job user_id user) db = persisted db (retry_job now id job user_id user db)

pub serve_all : ℕ → List (ℕ × Request) → Db → Db
serve_all lease [] db = db
serve_all lease ((now, r) ∷ rs) db = serve_all lease rs (serve lease now r db)

module _ (lease now : ℕ) (db : Db) where
  persisted-Changes :
      {A : Type 0} (o : Outcome A)
      → Ensures (λ _ db'. Changes now lease db.next_uuid db.jobs db'.jobs) o
      → Changes now lease db.next_uuid db.jobs (persisted db o).jobs
  persisted-Changes (returned a db') c = c
  persisted-Changes (raised e) c = Changes.same refl
  persisted-Changes (committed e db') c = absurd c

  by_claim :
      (id : ℕ) (job : AnalysisJob) (o : Outcome (Option ℕ))
      → find id db.jobs ≡ some job
      → Ensures (λ r db'. Claims now lease id job db.jobs r db'.jobs) o
      → Changes now lease db.next_uuid db.jobs (persisted db o).jobs
  by_claim id job o f c = persisted-Changes o (
      Ensures-mono _ _ o
        (λ r db' k. Claims-Changes now lease db.next_uuid id job db.jobs r db'.jobs f k) c)

  claim_found-Changes :
      (locked : ℕ → Bool) (id : ℕ) (row : Option AnalysisJob)
      → find id db.jobs ≡ row
      → Changes now lease db.next_uuid db.jobs
          (persisted db (claim_found now lease locked id row db)).jobs
  unfolding pure
  claim_found-Changes locked id none f = Changes.same refl
  claim_found-Changes locked id (some job) f =
      elim (Bool-cases (not (locked id) && is_claimable now lease job)) [
        | inl h ↦ rw h (by_claim id job _ f (handle_locked_job-IsClaim now lease id job db))
        | inr h ↦ rw h (Changes.same refl)
      ]

  -- every transaction is a change of the table of jobs
  served-Changes :
      (r : Request)
      → HasUniqueKeys db.jobs
      → Changes now lease db.next_uuid db.jobs (serve lease now r db).jobs
  unfolding serve claim_job_by_id
  served-Changes (create d r route) u =
      persisted-Changes _ (create_or_get_job-Changed now lease db d r route)
  served-Changes (claim_next locked) u = elim (claim_next_job-earliest now lease locked db u) [
    | inl (h, e) ↦ rw e (Changes.same refl)
    | inr (id, job, first, c) ↦ by_claim id job _ first.present c
  ]
  served-Changes (claim_by_id locked id) u = claim_found-Changes locked id (find id db.jobs) refl
  served-Changes (heartbeat id attempt) u =
      persisted-Changes _ (update_heartbeat-Changed now lease db id attempt)
  served-Changes (done id attempt) u =
      persisted-Changes _ (mark_done-Changed now lease db id attempt)
  served-Changes (error id code detail attempt) u =
      persisted-Changes _ (mark_error-Changed now lease db id attempt code detail)
  served-Changes (retry id job user_id user) u =
      persisted-Changes _ (retry_job-Changed now lease db id job user_id user)

  -- A new row under a new identifier, a step of the machine on one row, or nothing.
  pub data Transition (t t' : Table AnalysisJob) : Type 0 where
    same : t' ≡ t → Transition t t'
    moved :
        (id : ℕ) (job job' : AnalysisJob)
        → find id t ≡ some job
        → Step now lease job job'
        → t' ≡ put id job' t
        → Transition t t'
    created :
        (id : ℕ) (job : AnalysisJob)
        → find id t ≡ none
        → job.status ≡ queued
        → job.attempt_count ≡ 0
        → t' ≡ put id job t
        → Transition t t'

-- After any transactions, in any order and at any times, from a table with a primary key whose rows
-- are within their attempts: the same holds, so no job is ever run more often than its
-- `max_attempts`, and every job that is queued has an attempt left.
pub serve_all-IsValid :
    (lease : ℕ) (rs : List (ℕ × Request)) (db : Db)
    → IsValid db.jobs
    → IsValid (serve_all lease rs db).jobs
unfolding serve_all
serve_all-IsValid lease [] db v = v
serve_all-IsValid lease ((now, r) ∷ rs) db v = serve_all-IsValid lease rs (serve lease now r db) (
    Changes-IsValid now lease db.next_uuid db.jobs (serve lease now r db).jobs
      (served-Changes lease now db r v.unique) v)
