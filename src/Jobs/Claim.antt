-- ===== src/Jobs/Claim.antt =====
-- Leases, backend/app/services/analysis_job.py: a worker claims a queued job, or one whose worker
-- has been silent for longer than the lease. One reading of the clock, `now`, stands for all the
-- readings of an operation; the cutoff `now - lease` is tested with the lease on the other side.
use doc_grading.Prelude.{
  ℕ, ◌+◌, ◌-◌, ◌/◌, max, Bool, not, ◌&&◌, ◌||◌, Option, none, some, find, [], ◌∷◌, ◌==◌, ltb, Table,
  if◌then◌else◌,
}
use doc_grading.Models.Enums.{AnalysisJobStatus, queued, running, done, error, job_status_value}
use doc_grading.Models.Enums.{processing, processing_failed, document_status_value}
use doc_grading.Models.Json.{Json, Fields}
use doc_grading.Models.Rows.{AnalysisJob, DocumentVersion}
use doc_grading.Models.Db.{Db}
use doc_grading.Models.Tx.{Tx, Error, pure, gets, or_raise, ◌>>=◌, ◌>>◌}
use doc_grading.Audit.{record_system_audit}
use doc_grading.Jobs.Report.{processing_failure_report}
use doc_grading.Jobs.Defs.{
  seconds, is_queued, is_running, last_touch, is_stale, put_job, put_document, status_field,
  notify_error,
}

-- the document's part of `_mark_running`
unfoldable pub start_document : ℕ → Option DocumentVersion → Tx (Unit {0})
start_document id none = pure tt
start_document id (some doc) = do
  put_document id (record doc { status = processing; failure_code = none; failure_detail = none })
  record_system_audit "DocumentVersion" id "PROCESSING"
      (some (status_field (document_status_value doc.status))) (some (status_field "PROCESSING"))
      "Document processing started"

-- the row that `_mark_running` leaves
abbrev pub claimed : ℕ → AnalysisJob → AnalysisJob
claimed now job = record job {
  status = running;
  attempt_count = job.attempt_count + 1;
  started_at = some now;
  heartbeat_at = some now;
  finished_at = none;
}

unfoldable pub mark_running : ℕ → ℕ → AnalysisJob → Tx (Unit {0})
mark_running now id job = do
  put_job id (claimed now job)
  record_system_audit "AnalysisJob" id "RUNNING" (some (status_field (job_status_value job.status)))
      (some (
        Fields.field "status" (Json.str "RUNNING")
          (Fields.field "attempt_count" (Json.num (job.attempt_count + 1)) Fields.end)))
      "Analysis job claimed"
  doc ← gets λ db. find job.document_version_id db.documents
  start_document job.document_version_id doc

-- the row of a job whose attempts are used up
abbrev pub exhausted : ℕ → AnalysisJob → AnalysisJob
exhausted now job = record job {
  status = error;
  error_code = some "LEASE_EXPIRED";
  error_detail = some "Job lease expired and retry limit reached";
  finished_at = some now;
}

unfoldable pub fail_document : ℕ → Option DocumentVersion → Tx (Unit {0})
fail_document id none = pure tt
fail_document id (some doc) = do
  report ←
      or_raise (processing_failure_report "LEASE_EXPIRED" "lease_expired" doc.validation_report)
        Error.type_error
  put_document id (record doc {
    status = processing_failed;
    failure_code = some "LEASE_EXPIRED";
    failure_detail = some "Job lease expired and retry limit reached";
    validation_report = report;
  })
  record_system_audit "DocumentVersion" id "PROCESSING_FAILED"
      (some (status_field (document_status_value doc.status)))
      (some (
        Fields.field "status" (Json.str "PROCESSING_FAILED")
          (Fields.field "failure_code" (Json.str "LEASE_EXPIRED") Fields.end)))
      "Analysis job lease expired and attempts exhausted"

-- the last part of `_handle_locked_job`
unfoldable pub exhaust : ℕ → ℕ → AnalysisJob → Tx (Unit {0})
exhaust now id job = do
  put_job id (exhausted now job)
  record_system_audit "AnalysisJob" id "ERROR" (some (status_field (job_status_value job.status)))
      (some (
        Fields.field "status" (Json.str "ERROR")
          (Fields.field "error_code" (Json.str "LEASE_EXPIRED") Fields.end)))
      "Analysis job lease expired and attempts exhausted"
  doc ← gets λ db. find job.document_version_id db.documents
  fail_document job.document_version_id doc
  notify_error id job.document_version_id

-- the row of a job whose lease has expired and that may be tried again
abbrev pub requeued : ℕ → AnalysisJob → AnalysisJob
requeued now job = record job { status = queued; queued_at = now }

unfoldable pub requeue : ℕ → ℕ → AnalysisJob → Tx (Unit {0})
requeue now id job = do
  put_job id (requeued now job)
  record_system_audit "AnalysisJob" id "QUEUED" (some (status_field (job_status_value job.status)))
      (some (status_field "QUEUED")) "Analysis job lease expired, requeued"
  mark_running now id (requeued now job)

abbrev pub recover : ℕ → ℕ → AnalysisJob → Tx (Option ℕ)
recover now id job =
    if ltb job.attempt_count job.max_attempts
    then (do requeue now id job; pure (some id))
    else (do exhaust now id job; pure none)

abbrev pub handle : AnalysisJobStatus → ℕ → ℕ → ℕ → AnalysisJob → Tx (Option ℕ)
handle queued now lease id job = do mark_running now id job; pure (some id)
handle running now lease id job = if is_stale now lease job then recover now id job else pure none
handle done now lease id job = pure none
handle error now lease id job = pure none

-- `_handle_locked_job`, which returns the job that was claimed, if one was
unfoldable pub handle_locked_job : ℕ → ℕ → ℕ → AnalysisJob → Tx (Option ℕ)
handle_locked_job now lease id job = handle job.status now lease id job

-- the condition of both claims
abbrev pub is_claimable : ℕ → ℕ → AnalysisJob → Bool
is_claimable now lease job =
    is_queued job.status || (is_running job.status && is_stale now lease job)

-- `order by queued_at, id`
abbrev pub is_before : ℕ × AnalysisJob → ℕ × AnalysisJob → Bool
is_before (i, a) (j, b) = ltb a.queued_at b.queued_at || (a.queued_at == b.queued_at && ltb i j)

abbrev pub first_of_two : ℕ × AnalysisJob → Option (ℕ × AnalysisJob) → Option (ℕ × AnalysisJob)
first_of_two a none = some a
first_of_two a (some b) = if is_before b a then some b else some a

-- `limit(1)` of the ordered select; `skip_locked` leaves out the rows that others have locked
unfoldable pub select_next : (ℕ → AnalysisJob → Bool) → Table AnalysisJob → Option (ℕ × AnalysisJob)
select_next p [] = none
select_next p ((id, job) ∷ t) =
    if p id job then first_of_two (id, job) (select_next p t) else select_next p t

abbrev pub handle_selected : ℕ → ℕ → Option (ℕ × AnalysisJob) → Tx (Option ℕ)
handle_selected now lease none = pure none
handle_selected now lease (some (id, job)) = handle_locked_job now lease id job

-- `locked` says which rows other transactions hold.
unfoldable pub claim_next_job : ℕ → ℕ → (ℕ → Bool) → Tx (Option ℕ)
claim_next_job now lease locked db =
    handle_selected now lease
      (select_next (λ id job. not (locked id) && is_claimable now lease job) db.jobs) db

abbrev pub claim_found : ℕ → ℕ → (ℕ → Bool) → ℕ → Option AnalysisJob → Tx (Option ℕ)
claim_found now lease locked id none = pure none
claim_found now lease locked id (some job) =
    if not (locked id) && is_claimable now lease job
    then handle_locked_job now lease id job
    else pure none

unfoldable pub claim_job_by_id : ℕ → ℕ → (ℕ → Bool) → ℕ → Tx (Option ℕ)
claim_job_by_id now lease locked id db = claim_found now lease locked id (find id db.jobs) db

abbrev retry_delay : ℕ → ℕ → Option AnalysisJob → Option ℕ
retry_delay now lease none = none
retry_delay now lease (some job) =
    if is_running job.status
    then some (max 1 ((last_touch job + seconds lease - now) / 1000000 + 1))
    else none

-- `int` cuts a fraction off, and a lease that has expired gives at most 1 there, as does 0 here.
unfoldable pub active_lease_retry_delay : ℕ → ℕ → ℕ → Db → Option ℕ
active_lease_retry_delay now lease id db = retry_delay now lease (find id db.jobs)
