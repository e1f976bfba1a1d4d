-- ===== src/Models/Reads.antt =====
-- Handlers that only read: a lookup with its checks.
use doc_grading.Prelude.{◌≡◌, refl, sym, subst, Bool, true, false}
use doc_grading.Models.Db.{Db}
use doc_grading.Models.Tx.{Outcome, Tx, Error, returned, raised, committed, raise_if, ◌>>=◌, ◌>>◌}
use doc_grading.Models.Ensures.{Ensures}

-- The outcome leaves `db` as it is.
pub data Reads {ℓ} {A : Type ℓ} (db : Db) (o : Outcome A) : Type ℓ where
  read : (a : A) → o ≡ returned a db → Reads db o
  stopped : (e : Error) → o ≡ raised e → Reads db o

module _ {ℓ κ} {A : Type ℓ} {B : Type κ} {db : Db} where
  pub Reads-bind :
      (m : Tx A) (f : A → Tx B)
      → Reads db (m db)
      → ((a : A) → Reads db (f a db))
      → Reads db ((m >>= f) db)
  unfolding ◌>>=◌
  Reads-bind m f (Reads.read a e) k = subst (λ o. Reads db (((λ _. o) >>= f) db)) (sym e) (k a)
  Reads-bind m f (Reads.stopped x e) k =
      subst (λ o. Reads db (((λ _. o) >>= f) db)) (sym e) (Reads.stopped x refl)

  pub Reads-then :
      (m : Tx A) (k : Tx B) → Reads db (m db) → Reads db (k db) → Reads db ((m >> k) db)
  unfolding ◌>>◌
  Reads-then m k r s = Reads-bind m (λ _. k) r (λ _. s)

  -- What follows a lookup is all that changes the database.
  pub Ensures-bind :
      (Q : B → Db → Type 0) (m : Tx A) (f : A → Tx B)
      → Reads db (m db)
      → ((a : A) → m db ≡ returned a db → Ensures Q (f a db))
      → Ensures Q ((m >>= f) db)
  unfolding ◌>>=◌
  Ensures-bind Q m f (Reads.read a e) k =
      subst (λ o. Ensures Q (((λ _. o) >>= f) db)) (sym e) (k a e)
  Ensures-bind Q m f (Reads.stopped x e) k = subst (λ o. Ensures Q (((λ _. o) >>= f) db)) (sym e) tt

  pub Ensures-then :
      (Q : B → Db → Type 0) (m : Tx A) (k : Tx B)
      → Reads db (m db)
      → Ensures Q (k db)
      → Ensures Q ((m >> k) db)
  unfolding ◌>>◌
  Ensures-then Q m k r q = Ensures-bind Q m (λ _. k) r (λ _ _. q)

pub raise_if-Reads : (b : Bool) (e : Error) (db : Db) → Reads db (raise_if b e db)
unfolding raise_if
raise_if-Reads true e db = Reads.stopped e refl
raise_if-Reads false e db = Reads.read tt refl

module _ {ℓ κ} {A : Type ℓ} {B : Type κ} (P : A → Db → Type 0) (Q : B → Db → Type 0) where
  -- A handler, and then another that starts from what the first has left.
  pub Ensures-seq :
      (m : Tx A) (k : Tx B) (db : Db)
      → Ensures P (m db)
      → ((a : A) (db' : Db) → P a db' → Ensures Q (k db'))
      → Ensures Q ((m >> k) db)
  unfolding ◌>>◌ ◌>>=◌
  Ensures-seq m k db h f = after (m db) h
    where
      after : (o : Outcome A) → Ensures P o → Ensures Q (((λ _. o) >>= λ _. k) db)
      after (returned a db') p = f a db' p
      after (raised e) p = tt
      after (committed e db') p = absurd p
