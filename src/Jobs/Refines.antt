-- ===== src/Jobs/Refines.antt =====
-- Each operation on jobs is a step of the machine on one row, or leaves the table alone.
use doc_grading.Prelude.{
  ℕ, Option, none, some, arith, inl, inr, Option-cases, Table, put, put-put, subst,
}
use doc_grading.Models.Rows.{AnalysisJob, DocumentVersion}
use doc_grading.Jobs.Defs.{document_context, notify_error}
use doc_grading.Jobs.Claim.{
  claimed, exhausted, mark_running, exhaust, start_document, fail_document, requeue, requeued,
}
use doc_grading.Jobs.Notify.{notify_error_lem}
use doc_grading.Jobs.Moves.{Moves, Moves-put_job, Moves-then, keeps_rules}

module _ {t : Table AnalysisJob} where
  pub Moves-notify_error :
      (id document_version_id : ℕ) → Moves t t (notify_error id document_version_id)
  Moves-notify_error id d = record {
    at = λ db h. elim (Option-cases (document_context d db)) [
      | inl e ↦ ground (arith, notify_error_lem id d db)
      | inr (c, e) ↦ ground (arith, notify_error_lem id d db)
    ];
  }

  Moves-fail_document : (id : ℕ) (doc : Option DocumentVersion) → Moves t t (fail_document id doc)
  unfolding fail_document
  Moves-fail_document id none = search keeps_rules
  Moves-fail_document id (some doc) = search keeps_rules

  Moves-start_document : (id : ℕ) (doc : Option DocumentVersion) → Moves t t (start_document id doc)
  unfolding start_document
  Moves-start_document id none = search keeps_rules
  Moves-start_document id (some doc) = search keeps_rules

module _ {t : Table AnalysisJob} where
  pub Moves-exhaust :
      (now id : ℕ) (job : AnalysisJob) → Moves t (put id (exhausted now job) t) (exhaust now id job)
  unfolding exhaust
  Moves-exhaust now id job =
      Moves-then _ _ (Moves-put_job id (exhausted now job))
        (search (keeps_rules, Moves-fail_document, Moves-notify_error))

  pub Moves-mark_running :
      (now id : ℕ) (job : AnalysisJob)
      → Moves t (put id (claimed now job) t) (mark_running now id job)
  unfolding mark_running
  Moves-mark_running now id job =
      Moves-then _ _ (Moves-put_job id (claimed now job))
        (search (keeps_rules, Moves-start_document))

module _ {t : Table AnalysisJob} where
  pub Moves-requeue :
      (now id : ℕ) (job : AnalysisJob)
      → Moves t (put id (claimed now (requeued now job)) t) (requeue now id job)
  unfolding requeue
  Moves-requeue now id job =
      subst (λ t'. Moves t t' (requeue now id job)) (put-put id (requeued now job) _ t)
        (Moves-then _ _ (Moves-put_job id (requeued now job))
          (Moves-then _ _ (search keeps_rules) (Moves-mark_running now id (requeued now job))))
