-- ===== src/Models/Hoare.antt =====
-- Postconditions of a handler, one step at a time.
use doc_grading.Prelude.{◌≡◌, refl, sym, subst, Bool, true, false, ℕ, ◌+◌, Option, none, some}
use doc_grading.Models.Db.{Db}
use doc_grading.Models.Tx.{
  Outcome, returned, raised, committed, Tx, Error, raise_if, or_raise, lookup, gets, new_uuid,
  modify, ◌>>=◌, ◌>>◌,
}
use doc_grading.Models.Ensures.{Ensures}

module _ {ℓ} {B : Type ℓ} (Q : B → Db → Type 0) where
  -- past a guard, its test is false
  pub Ensures-guard :
      (b : Bool) (e : Error) (k : Tx B) (db : Db)
      → (b ≡ false → Ensures Q (k db))
      → Ensures Q ((raise_if b e >> k) db)
  unfolding raise_if ◌>>◌ ◌>>=◌
  Ensures-guard true e k db f = tt
  Ensures-guard false e k db f = f refl

  pub Ensures-modify :
      (g : Db → Db) (k : Tx B) (db : Db) → Ensures Q (k (g db)) → Ensures Q ((modify g >> k) db)
  unfolding modify ◌>>◌ ◌>>=◌
  Ensures-modify g k db q = q

  pub Ensures-uuid :
      (k : ℕ → Tx B) (db : Db)
      → Ensures Q (k db.next_uuid (record db { next_uuid = db.next_uuid + 1 }))
      → Ensures Q ((new_uuid >>= k) db)
  unfolding new_uuid ◌>>=◌
  Ensures-uuid k db q = q

module _ {ℓ κ} {A : Type ℓ} {B : Type κ} (Q : B → Db → Type 0) where
  pub Ensures-or_raise :
      (o : Option A) (e : Error) (k : A → Tx B) (db : Db)
      → ((a : A) → o ≡ some a → Ensures Q (k a db))
      → Ensures Q ((or_raise o e >>= k) db)
  unfolding or_raise ◌>>=◌
  Ensures-or_raise none e k db f = tt
  Ensures-or_raise (some a) e k db f = f a refl

  pub Ensures-lookup :
      (g : Db → Option A) (e : Error) (k : A → Tx B) (db : Db)
      → ((a : A) → g db ≡ some a → Ensures Q (k a db))
      → Ensures Q ((lookup g e >>= k) db)
  unfolding lookup ◌>>=◌
  Ensures-lookup g e k db f = Ensures-or_raise (g db) e k db f

  pub Ensures-gets :
      (g : Db → A) (k : A → Tx B) (db : Db)
      → Ensures Q (k (g db) db)
      → Ensures Q ((gets g >>= k) db)
  unfolding gets ◌>>=◌
  Ensures-gets g k db q = q

module _ {ℓ κ} {A : Type ℓ} {B : Type κ} (P : A → Db → Type 0) (Q : B → Db → Type 0) where
  -- A handler, and then another that starts from what the first has left.
  pub Ensures-after :
      (m : Tx A) (k : A → Tx B) (db : Db)
      → Ensures P (m db)
      → ((a : A) (db' : Db) → P a db' → Ensures Q (k a db'))
      → Ensures Q ((m >>= k) db)
  unfolding ◌>>=◌
  Ensures-after m k db h f = after (m db) h
    where
      after : (o : Outcome A) → Ensures P o → Ensures Q (((λ _. o) >>= k) db)
      after (returned a db') p = f a db' p
      after (raised e) p = tt
      after (committed e db') p = absurd p

module _ {ℓ κ} {A : Type ℓ} {B : Type κ} (P : A → Type 0) (Q : B → Db → Type 0) where
  -- A handler that leaves the database as it was, and then another.
  pub Ensures-reads :
      (m : Tx A) (k : A → Tx B) (db : Db)
      → Ensures (λ a db'. (db' ≡ db) × P a) (m db)
      → ((a : A) → P a → Ensures Q (k a db))
      → Ensures Q ((m >>= k) db)
  Ensures-reads m k db h f =
      Ensures-after (λ a db'. (db' ≡ db) × P a) Q m k db h
        (λ a db' q. subst (λ d. Ensures Q (k a d)) (sym q.0) (f a q.1))

module _ {ℓ} {B : Type ℓ} (P : Type 0) (Q : B → Db → Type 0) where
  pub Ensures-check :
      (m : Tx (Unit {0})) (k : Tx B) (db : Db)
      → Ensures (λ _ db'. (db' ≡ db) × P) (m db)
      → (P → Ensures Q (k db))
      → Ensures Q ((m >> k) db)
  unfolding ◌>>◌
  Ensures-check m k db h f = Ensures-reads (λ _. P) Q m (λ _. k) db h (λ _ p. f p)
