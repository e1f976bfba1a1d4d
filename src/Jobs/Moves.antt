-- ===== src/Jobs/Moves.antt =====
-- How a handler changes the table of jobs, with one rule for each way to build a handler.
use doc_grading.Prelude.{
  ℕ, ◌≡◌, refl, String, Bool, true, false, Option, none, some, Table, put, arith,
}
use doc_grading.Models.Json.{Fields}
use doc_grading.Models.Rows.{AnalysisJob, DocumentVersion}
use doc_grading.Models.Db.{Db}
use doc_grading.Models.Tx.{
  Outcome, returned, raised, committed, Tx, Error, tx, pure, gets, or_raise, raise_if, ◌>>=◌, ◌>>◌,
}
use doc_grading.Models.Ensures.{Ensures}
use doc_grading.Audit.{record_system_audit, record_audit}
use doc_grading.Jobs.Defs.{put_job, put_document}
use doc_grading.Jobs.Outbox.{enqueue_analysis_job_dispatch}

-- `m` turns the table `t` into `t'` if it returns, and does not commit by itself.
pub record Moves {ℓ} {A : Type ℓ} (t t' : Table AnalysisJob) (m : Tx A) : Type ℓ where
  pub at : (db : Db) → db.jobs ≡ t → Ensures (λ _ db'. db'.jobs ≡ t') (m db)

module _ {ℓ} {A : Type ℓ} {t : Table AnalysisJob} where
  pub Moves-pure : (a : A) → Moves t t (pure a)
  unfolding pure
  Moves-pure a = record { at = λ db h. h }

  pub Moves-gets : (f : Db → A) → Moves t t (gets f)
  unfolding gets
  Moves-gets f = record { at = λ db h. h }

  pub Moves-or_raise : (o : Option A) (e : Error) → Moves t t (or_raise o e)
  unfolding or_raise
  Moves-or_raise none e = record { at = λ db h. tt }
  Moves-or_raise (some a) e = record { at = λ db h. h }

module _ {t : Table AnalysisJob} where
  pub Moves-raise_if : (b : Bool) (e : Error) → Moves t t (raise_if b e)
  unfolding raise_if
  Moves-raise_if true e = record { at = λ db h. tt }
  Moves-raise_if false e = record { at = λ db h. h }

  pub Moves-put_job : (id : ℕ) (job : AnalysisJob) → Moves t (put id job t) (put_job id job)
  unfolding put_job tx
  Moves-put_job id job = record { at = λ db h. ground arith }

  pub Moves-put_document : (id : ℕ) (doc : DocumentVersion) → Moves t t (put_document id doc)
  unfolding put_document tx
  Moves-put_document id doc = record { at = λ db h. h }

  pub Moves-record_system_audit :
      (type : String) (id : ℕ) (action : String) (before after : Option Fields) (reason : String)
      → Moves t t (record_system_audit type id action before after reason)
  unfolding record_system_audit tx
  Moves-record_system_audit type id action before after reason = record { at = λ db h. h }

  pub Moves-record_audit :
      (actor : ℕ) (type : String) (id : ℕ) (action : String) (before after : Option Fields)
      (reason : String)
      → Moves t t (record_audit actor type id action before after reason)
  unfolding record_audit tx
  Moves-record_audit actor type id action before after reason = record { at = λ db h. h }

  pub Moves-enqueue :
      (now id : ℕ) (at : Option ℕ) → Moves t t (enqueue_analysis_job_dispatch now id at)
  unfolding enqueue_analysis_job_dispatch tx
  Moves-enqueue now id at = record { at = λ db h. h }

module _ {ℓ κ} {A : Type ℓ} {B : Type κ} {t t' t'' : Table AnalysisJob} where
  pub Moves-bind :
      (m : Tx A) (f : A → Tx B)
      → Moves t t' m
      → ((a : A) → Moves t' t'' (f a))
      → Moves t t'' (m >>= f)
  unfolding ◌>>=◌
  Moves-bind m f km kf = record { at = λ db h. after db (m db) (km.at db h) }
    where
      after :
          (db : Db) (o : Outcome A)
          → Ensures (λ _ db'. db'.jobs ≡ t') o
          → Ensures (λ _ db'. db'.jobs ≡ t'') (((λ _. o) >>= f) db)
      after db (returned a db') q = (kf a).at db' q
      after db (raised e) q = tt
      after db (committed e db') q = absurd q

  pub Moves-then : (m : Tx A) (k : Tx B) → Moves t t' m → Moves t' t'' k → Moves t t'' (m >> k)
  unfolding ◌>>◌
  Moves-then m k km kk = Moves-bind m (λ _. k) km (λ _. kk)

module _ {ℓ κ} {A : Type ℓ} {B : Type κ} {t : Table AnalysisJob} where
  pub Keeps-bind :
      (m : Tx A) (f : A → Tx B) → Moves t t m → ((a : A) → Moves t t (f a)) → Moves t t (m >>= f)
  Keeps-bind m f km kf = Moves-bind m f km kf

  pub Keeps-then : (m : Tx A) (k : Tx B) → Moves t t m → Moves t t k → Moves t t (m >> k)
  Keeps-then m k km kk = Moves-then m k km kk

module _ {ℓ} {A : Type ℓ} {B : Type 0} {t : Table AnalysisJob} where
  -- A block that ends by returning a value.
  pub Moves-returning :
      {t' : Table AnalysisJob} (m : Tx A) (b : B) (db : Db)
      → Moves t t' m
      → db.jobs ≡ t
      → Ensures (λ r db'. (r ≡ b) × (db'.jobs ≡ t')) ((m >> pure b) db)
  unfolding ◌>>◌ pure
  Moves-returning {t' = t'} m b db km h = after (m db) (km.at db h)
    where
      after :
          (o : Outcome A)
          → Ensures (λ _ db'. db'.jobs ≡ t') o
          → Ensures (λ r db'. (r ≡ b) × (db'.jobs ≡ t')) (((λ _. o) >> pure b) db)
      after (returned a db') q = (refl, q)
      after (raised e) q = tt
      after (committed e db') q = absurd q

-- The rules for what leaves the table alone.
pub ruleset keeps_rules = (
  Moves-pure, Moves-gets, Moves-or_raise, Moves-raise_if, Moves-put_document,
  Moves-record_system_audit, Moves-record_audit, Moves-enqueue, Keeps-bind, Keeps-then,
)
