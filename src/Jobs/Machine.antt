-- ===== src/Jobs/Machine.antt =====
-- The life of one job as a step relation on its row, and what holds of every row that it reaches.
use doc_grading.Prelude.{ℕ, ◌≤◌, ◌<◌, ◌≡◌, true, String, Option, some, arith}
use doc_grading.Models.Json.{Json}
use doc_grading.Models.Enums.{queued, running, error}
use doc_grading.Models.Rows.{AnalysisJob}
use doc_grading.Jobs.Defs.{is_stale, new_job}
use doc_grading.Jobs.Claim.{claimed, exhausted, requeued}
use doc_grading.Jobs.Finish.{finished, failed}
use doc_grading.Jobs.Retry.{retried}

module _ (now lease : ℕ) where
  -- One write of a job's row, with its guard.
  pub data Step (job : AnalysisJob) (job' : AnalysisJob) : Type 0 where
    claim : job.status ≡ queued → job' ≡ claimed now job → Step job job'
    take_over :
        job.status ≡ running
        → is_stale now lease job ≡ true
        → job.attempt_count < job.max_attempts
        → job' ≡ claimed now (requeued now job)
        → Step job job'
    give_up :
        job.status ≡ running
        → is_stale now lease job ≡ true
        → job.max_attempts ≤ job.attempt_count
        → job' ≡ exhausted now job
        → Step job job'
    beat : job.status ≡ running → job' ≡ record job { heartbeat_at = some now } → Step job job'
    finish : job.status ≡ running → job' ≡ finished now job → Step job job'
    fail :
        (code detail : String)
        → job.status ≡ running
        → job' ≡ failed now code detail job
        → Step job job'
    retry :
        job.status ≡ error
        → job.attempt_count < job.max_attempts
        → job' ≡ retried now job
        → Step job job'

-- A queued job has an attempt left, and no job has had more attempts than it may.
pub record IsBounded (job : AnalysisJob) : Type 0 where
  pub within : job.attempt_count ≤ job.max_attempts
  pub has_room : job.status ≡ queued → job.attempt_count < job.max_attempts
  pub started : job.status ≡ running → 0 < job.attempt_count

pub new_job-IsBounded :
    (now document_version_id rubric_version_id : ℕ) (route : Option Json)
    → IsBounded (new_job now document_version_id rubric_version_id route)
new_job-IsBounded now d r route = ground arith

pub Step-IsBounded :
    (now lease : ℕ) {job job' : AnalysisJob}
    → Step now lease job job'
    → IsBounded job
    → IsBounded job'
Step-IsBounded now lease (claim s e) h = ground arith
Step-IsBounded now lease (take_over s t a e) h = ground arith
Step-IsBounded now lease (give_up s t a e) h = ground arith
Step-IsBounded now lease (beat s e) h = ground arith
Step-IsBounded now lease (finish s e) h = ground arith
Step-IsBounded now lease (fail c d s e) h = ground arith
Step-IsBounded now lease (retry s a e) h = ground arith
