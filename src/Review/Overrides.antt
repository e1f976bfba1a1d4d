-- ===== src/Review/Overrides.antt =====
-- A saved draft changes no score and no verdict without a reason, which the audit trail keeps.
use doc_grading.Prelude.{
  ℕ, ◌≡◌, refl, String, Bool, true, false, Option, none, some, List, [], ◌∷◌, Option-cases, inl,
  inr,
}
use doc_grading.Models.Rows.{Finding, AnalysisJob, ReviewDecision, AuditEvent}
use doc_grading.Models.Db.{Db}
use doc_grading.Models.Tx.{tx, pure}
use doc_grading.Models.Ensures.{Ensures, Ensures-mono}
use doc_grading.Models.Reads.{Ensures-seq}
use doc_grading.Models.Hoare.{Ensures-guard, Ensures-lookup, Ensures-gets}
use doc_grading.Audit.{record_audit, add_event}
use doc_grading.Review.Decisions.{is_change, decision_for, finding_for_draft, either_ids}
use doc_grading.Review.Drafts.{check_all, check_findings, check_finding, audit_if}

-- the audit trail's event of an override
pub record IsOverride (user_id id : ℕ) (reason : String) (e : AuditEvent) : Type 0 where
  pub of_finding : e.resource_id ≡ id
  pub action_is : e.action ≡ "FINDING_OVERRIDE"
  pub by_reviewer : e.actor_user_id ≡ some user_id
  pub with_reason : e.reason ≡ reason

module _ (user_id document_id : ℕ) (old new : List ReviewDecision) where
  -- What the check of one finding of the latest document finds and writes: its score and verdict
  -- stay, or the new decision gives a reason, and the audit trail gets it.
  pub data Checked (id : ℕ) (db db' : Db) : Type 0 where
    stays :
        (finding : Finding) (job_id : ℕ) (job : AnalysisJob)
        → finding_for_draft db document_id id ≡ some (finding, job_id, job)
        → is_change finding (decision_for id old) (decision_for id new) ≡ false
        → db' ≡ db
        → Checked id db db'
    overrides :
        (finding : Finding) (job_id : ℕ) (job : AnalysisJob) (d : ReviewDecision) (reason : String)
        (e : AuditEvent)
        → finding_for_draft db document_id id ≡ some (finding, job_id, job)
        → is_change finding (decision_for id old) (decision_for id new) ≡ true
        → decision_for id new ≡ some d
        → d.reason ≡ some reason
        → IsOverride user_id id reason e
        → db' ≡ add_event e db
        → Checked id db db'

  -- one finding after another
  pub data CheckedAll : List ℕ → Db → Db → Type 0 where
    finished : (db : Db) → CheckedAll [] db db
    next :
        (id : ℕ) (ids : List ℕ) (db db1 db' : Db)
        → Checked id db db1
        → CheckedAll ids db1 db'
        → CheckedAll (id ∷ ids) db db'

  audit_if-Checked :
      (id : ℕ) (finding : Finding) (job_id : ℕ) (job : AnalysisJob) (db : Db) (b : Bool)
      → is_change finding (decision_for id old) (decision_for id new) ≡ b
      → finding_for_draft db document_id id ≡ some (finding, job_id, job)
      → (after : Option ReviewDecision) → decision_for id new ≡ after
      → Ensures
          (λ _ db'. Checked id db db')
          (audit_if b user_id id finding job_id (decision_for id old) after db)
  unfolding record_audit tx
  audit_if-Checked id finding job_id job db false c f after e =
      Checked.stays finding job_id job f c refl
  audit_if-Checked id finding job_id job db true c f none e = tt
  audit_if-Checked id finding job_id job db true c f (some d) e = elim (Option-cases d.reason) [
    | inl h ↦ rw h tt
    | inr (reason, h) ↦ rw h (
        Checked.overrides finding job_id job d reason _ f c e h
          (record { of_finding = refl; action_is = refl; by_reviewer = refl; with_reason = refl })
          refl)
  ]

  check_finding-Checked :
      (id : ℕ) (db : Db)
      → Ensures (λ _ db'. Checked id db db') (check_finding user_id document_id old new id db)
  unfolding check_finding
  check_finding-Checked id db =
      Ensures-lookup (λ _ db'. Checked id db db') _ _ _ db
        (λ row e.
          Ensures-guard (λ _ db'. Checked id db db') _ _ _ db
            (λ _. audit_if-Checked id row.0 row.1 row.2 db _ refl e (decision_for id new) refl))

  check_findings-Checked :
      (ids : List ℕ) (db : Db)
      → Ensures (λ _ db'. CheckedAll ids db db') (check_findings user_id document_id old new ids db)
  unfolding check_findings pure
  check_findings-Checked [] db = CheckedAll.finished db
  check_findings-Checked (id ∷ ids) db =
      Ensures-seq (λ _ db1. Checked id db db1) (λ _ db'. CheckedAll (id ∷ ids) db db') _ _ db
        (check_finding-Checked id db)
        (λ _ db1 c.
          Ensures-mono (λ _ db'. CheckedAll ids db1 db') (λ _ db'. CheckedAll (id ∷ ids) db db') _
            (λ _ db' r. CheckedAll.next id ids db db1 db' c r) (check_findings-Checked ids db1))

  pub check_all-Checked :
      (db : Db)
      → Ensures
          (λ _ db'. CheckedAll (either_ids old new) db db')
          (check_all user_id document_id old new db)
  unfolding check_all
  check_all-Checked db =
      Ensures-gets Q _ _ db
        (Ensures-guard Q _ _ _ db (λ _. check_findings-Checked (either_ids old new) db))
    where
      Q : Unit {0} → Db → Type 0
      Q _ db' = CheckedAll (either_ids old new) db db'
