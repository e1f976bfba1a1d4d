-- ===== src/Models/Ends.antt =====
-- Postconditions of handlers that may commit by themselves before they raise.
use doc_grading.Prelude.{◌≡◌, refl, sym, subst, Bool, true, false, ℕ, ◌+◌, Option, none, some}
use doc_grading.Models.Db.{Db}
use doc_grading.Models.Tx.{
  modify, Outcome, returned, raised, committed, Tx, Error, raise_if, or_raise, lookup, gets,
  new_uuid, ◌>>=◌, ◌>>◌,
}
use doc_grading.Models.Ensures.{Ensures}

-- `Q` of what is returned, and `E` of what is committed before an error.
abbrev pub Ends {ℓ} : {A : Type ℓ} → (A → Db → Type 0) → (Error → Db → Type 0) → Outcome A → Type 0
Ends Q E (returned a db) = Q a db
Ends Q E (raised e) = Unit
Ends Q E (committed e db) = E e db

-- weaker postconditions
pub Ends-mono {ℓ} :
    {A : Type ℓ} (Q R : A → Db → Type 0) (E F : Error → Db → Type 0) (o : Outcome A)
    → ((a : A) (db : Db) → Q a db → R a db)
    → ((e : Error) (db : Db) → E e db → F e db)
    → Ends Q E o
    → Ends R F o
Ends-mono Q R E F (returned a db) f g q = f a db q
Ends-mono Q R E F (raised e) f g q = tt
Ends-mono Q R E F (committed e db) f g q = g e db q

module _ {ℓ} {B : Type ℓ} (Q : B → Db → Type 0) (E : Error → Db → Type 0) where
  pub Ends-guard :
      (b : Bool) (e : Error) (k : Tx B) (db : Db)
      → (b ≡ false → Ends Q E (k db))
      → Ends Q E ((raise_if b e >> k) db)
  unfolding raise_if ◌>>◌ ◌>>=◌
  Ends-guard true e k db f = tt
  Ends-guard false e k db f = f refl

  pub Ends-uuid :
      (k : ℕ → Tx B) (db : Db)
      → Ends Q E (k db.next_uuid (record db { next_uuid = db.next_uuid + 1 }))
      → Ends Q E ((new_uuid >>= k) db)
  unfolding new_uuid ◌>>=◌
  Ends-uuid k db q = q

  pub Ends-modify :
      (g : Db → Db) (k : Tx B) (db : Db) → Ends Q E (k (g db)) → Ends Q E ((modify g >> k) db)
  unfolding modify ◌>>◌ ◌>>=◌
  Ends-modify g k db q = q

  -- a handler that commits nothing by itself
  pub Ensures-Ends : (o : Outcome B) → Ensures Q o → Ends Q E o
  Ensures-Ends (returned a db) q = q
  Ensures-Ends (raised e) q = tt
  Ensures-Ends (committed e db) q = absurd q

module _ {ℓ κ} {A : Type ℓ} {B : Type κ} (Q : B → Db → Type 0) (E : Error → Db → Type 0) where
  pub Ends-lookup :
      (g : Db → Option A) (e : Error) (k : A → Tx B) (db : Db)
      → ((a : A) → g db ≡ some a → Ends Q E (k a db))
      → Ends Q E ((lookup g e >>= k) db)
  unfolding lookup or_raise ◌>>=◌
  Ends-lookup g e k db f = found (g db) refl
    where
      found : (o : Option A) → g db ≡ o → Ends Q E ((or_raise o e >>= k) db)
      found none h = tt
      found (some a) h = f a h

  pub Ends-gets :
      (g : Db → A) (k : A → Tx B) (db : Db) → Ends Q E (k (g db) db) → Ends Q E ((gets g >>= k) db)
  unfolding gets ◌>>=◌
  Ends-gets g k db q = q

  -- A handler, and then another that starts from what the first has left.
  pub Ends-after :
      (P : A → Db → Type 0) (m : Tx A) (k : A → Tx B) (db : Db)
      → Ends P E (m db)
      → ((a : A) (db' : Db) → P a db' → Ends Q E (k a db'))
      → Ends Q E ((m >>= k) db)
  unfolding ◌>>=◌
  Ends-after P m k db h f = after (m db) h
    where
      after : (o : Outcome A) → Ends P E o → Ends Q E (((λ _. o) >>= k) db)
      after (returned a db') p = f a db' p
      after (raised e) p = tt
      after (committed e db') p = p

  -- A handler that leaves the database as it was, and then another.
  pub Ends-reads :
      (P : A → Type 0) (m : Tx A) (k : A → Tx B) (db : Db)
      → Ends (λ a db'. (db' ≡ db) × P a) E (m db)
      → ((a : A) → P a → Ends Q E (k a db))
      → Ends Q E ((m >>= k) db)
  Ends-reads P m k db h f =
      Ends-after (λ a db'. (db' ≡ db) × P a) m k db h
        (λ a db' q. subst (λ d. Ends Q E (k a d)) (sym q.0) (f a q.1))

  pub Ends-seq :
      (P : A → Db → Type 0) (m : Tx A) (k : Tx B) (db : Db)
      → Ends P E (m db)
      → ((a : A) (db' : Db) → P a db' → Ends Q E (k db'))
      → Ends Q E ((m >> k) db)
  unfolding ◌>>◌
  Ends-seq P m k db h f = Ends-after P m (λ _. k) db h f
