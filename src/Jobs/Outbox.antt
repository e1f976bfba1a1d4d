-- ===== src/Jobs/Outbox.antt =====
-- The outbox of backend/app/services/analysis_dispatch.py: at most one pending dispatch for a job.
use doc_grading.Prelude.{ℕ, Option, none, some, put, find}
use doc_grading.Models.Rows.{AnalysisJobDispatch}
use doc_grading.Models.Tx.{Tx, modify}

-- a row of the insert: `next_attempt_at` has the server default `now()`
abbrev new_dispatch : ℕ → Option ℕ → AnalysisJobDispatch
new_dispatch now none = record { attempt_count = 0; next_attempt_at = now; created_at = now }
new_dispatch now (some at) = record { attempt_count = 0; next_attempt_at = at; created_at = now }

-- `on conflict do nothing`, or `do update set next_attempt_at`
abbrev on_conflict : Option ℕ → AnalysisJobDispatch → AnalysisJobDispatch
on_conflict none row = row
on_conflict (some at) row = record row { next_attempt_at = at }

abbrev upserted : ℕ → Option ℕ → Option AnalysisJobDispatch → AnalysisJobDispatch
upserted now next_attempt_at none = new_dispatch now next_attempt_at
upserted now next_attempt_at (some row) = on_conflict next_attempt_at row

unfoldable pub enqueue_analysis_job_dispatch : ℕ → ℕ → Option ℕ → Tx (Unit {0})
enqueue_analysis_job_dispatch now job_id next_attempt_at = modify λ db. record db {
  dispatches = put job_id (upserted now next_attempt_at (find job_id db.dispatches)) db.dispatches;
}
