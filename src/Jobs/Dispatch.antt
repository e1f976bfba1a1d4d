-- ===== src/Jobs/Dispatch.antt =====
-- `dispatch_due_analysis_jobs` of backend/app/services/analysis_dispatch.py: one batch of the outbox
-- is handed to the broker. Rows that are due at the same time and were created at the same time stand
-- in the order of the table, where the code orders them by their random identifiers.
use doc_grading.Prelude.{
  ℕ, ◌+◌, ◌^◌, min, max, Bool, true, not, ◌&&◌, ◌||◌, Option, none, some, List, [], ◌∷◌, Table, put,
  remove, take, leb, ltb, ◌==◌, if◌then◌else◌,
}
use doc_grading.Models.Rows.{AnalysisJobDispatch}
use doc_grading.Jobs.Defs.{seconds}

abbrev pub batch_size : ℕ
batch_size = 10

-- `2 ** min(attempt_count, 6)` seconds, and at most sixty
abbrev pub backoff : ℕ → ℕ
backoff attempts = min (2 ^ min attempts 6) 60

abbrev pub postponed : ℕ → AnalysisJobDispatch → AnalysisJobDispatch
postponed now d = record d {
  attempt_count = d.attempt_count + 1;
  next_attempt_at = now + seconds (backoff (d.attempt_count + 1));
}

abbrev comes_before : AnalysisJobDispatch → AnalysisJobDispatch → Bool
comes_before a b =
    ltb a.next_attempt_at b.next_attempt_at
    || (a.next_attempt_at == b.next_attempt_at && leb a.created_at b.created_at)

abbrev insert_due :
    ℕ × AnalysisJobDispatch → List (ℕ × AnalysisJobDispatch) → List (ℕ × AnalysisJobDispatch)
insert_due d [] = d ∷ []
insert_due d (e ∷ t) = if comes_before d.1 e.1 then d ∷ e ∷ t else e ∷ insert_due d t

abbrev is_wanted : Option ℕ → ℕ → Bool
is_wanted none id = true
is_wanted (some wanted) id = wanted == id

-- the rows that are due, that no one else has locked, and that are wanted, in their order
unfoldable pub due :
    ℕ → (ℕ → Bool) → Option ℕ → Table AnalysisJobDispatch → List (ℕ × AnalysisJobDispatch)
due now locked wanted [] = []
due now locked wanted ((id, d) ∷ t) =
    if leb d.next_attempt_at now && not (locked id) && is_wanted wanted id
    then insert_due (id, d) (due now locked wanted t)
    else due now locked wanted t

-- One row: gone when the broker has accepted the job, and postponed when it has not.
unfoldable pub publish_one :
    ℕ → (ℕ → Bool) → ℕ × AnalysisJobDispatch → Table AnalysisJobDispatch → Table AnalysisJobDispatch
publish_one now accepts (id, d) t = if accepts id then remove id t else put id (postponed now d) t

unfoldable pub publish_batch :
    ℕ
    → (ℕ → Bool)
    → List (ℕ × AnalysisJobDispatch)
    → Table AnalysisJobDispatch
    → ℕ × Table AnalysisJobDispatch
publish_batch now accepts [] t = (0, t)
publish_batch now accepts ((id, d) ∷ ds) t =
    let (sent, t') = publish_batch now accepts ds (publish_one now accepts (id, d) t) in
    ((if accepts id then sent + 1 else sent), t')

-- `accepts` is the broker: whether the publication of a job raises no exception. The result is the
-- number of jobs sent, with the outbox.
unfoldable pub dispatch_due_analysis_jobs :
    ℕ
    → (ℕ → Bool)
    → (ℕ → Bool)
    → Option ℕ
    → ℕ
    → Table AnalysisJobDispatch
    → ℕ × Table AnalysisJobDispatch
dispatch_due_analysis_jobs now locked accepts job_id limit t =
    publish_batch now accepts (take (min (max 1 limit) batch_size) (due now locked job_id t)) t
