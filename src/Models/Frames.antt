-- ===== src/Models/Frames.antt =====
-- What a handler leaves as it was, as a relation between the database before and after it.
use doc_grading.Prelude.{Bool, true, false, Option, none, some}
use doc_grading.Models.Db.{Db}
use doc_grading.Models.Tx.{
  Outcome, returned, raised, committed, Tx, Error, pure, raise, gets, or_raise, lookup, raise_if,
  ◌>>=◌, ◌>>◌,
}
use doc_grading.Models.Ensures.{Ensures}

-- an order that a frame is stated in
pub record IsOrder (R : Db → Db → Type 0) : Type 0 where
  pub refl_at : (db : Db) → R db db
  pub trans_at : (a b c : Db) → R a b → R b c → R a c

-- The handler commits nothing by itself, and relates what it finds to what it leaves.
pub record Frames {ℓ} {A : Type ℓ} (R : Db → Db → Type 0) (m : Tx A) : Type ℓ where
  pub at : (db : Db) → Ensures (λ _ db'. R db db') (m db)

module _ {ℓ} {A : Type ℓ} {R : Db → Db → Type 0} (o : IsOrder R) where
  pub Frames-pure : (a : A) → Frames R (pure a)
  unfolding pure
  Frames-pure a = record { at = λ db. o.refl_at db }

  pub Frames-raise : (e : Error) → Frames {A = A} R (raise e)
  unfolding raise
  Frames-raise e = record { at = λ db. tt }

  pub Frames-gets : (f : Db → A) → Frames R (gets f)
  unfolding gets
  Frames-gets f = record { at = λ db. o.refl_at db }

  pub Frames-or_raise : (a : Option A) (e : Error) → Frames R (or_raise a e)
  unfolding or_raise
  Frames-or_raise none e = record { at = λ db. tt }
  Frames-or_raise (some a) e = record { at = λ db. o.refl_at db }

  -- a lookup that raises when it finds nothing
  pub Frames-lookup : (f : Db → Option A) (e : Error) → Frames R (lookup f e)
  unfolding lookup or_raise
  Frames-lookup f e = record { at = λ db. (Frames-or_raise (f db) e).at db }

module _ {R : Db → Db → Type 0} (o : IsOrder R) where
  pub Frames-raise_if : (b : Bool) (e : Error) → Frames R (raise_if b e)
  unfolding raise_if
  Frames-raise_if true e = record { at = λ db. tt }
  Frames-raise_if false e = record { at = λ db. o.refl_at db }

module _ {ℓ κ} {A : Type ℓ} {B : Type κ} {R : Db → Db → Type 0} (o : IsOrder R) where
  pub Frames-bind :
      (m : Tx A) (f : A → Tx B) → Frames R m → ((a : A) → Frames R (f a)) → Frames R (m >>= f)
  unfolding ◌>>=◌
  Frames-bind m f km kf = record { at = λ db. after db (m db) (km.at db) }
    where
      chain :
          (db db' : Db) (o' : Outcome B)
          → R db db'
          → Ensures (λ _ db''. R db' db'') o'
          → Ensures (λ _ db''. R db db'') o'
      chain db db' (returned b db'') r q = o.trans_at db db' db'' r q
      chain db db' (raised e) r q = tt
      chain db db' (committed e db'') r q = q

      after :
          (db : Db) (o' : Outcome A)
          → Ensures (λ _ db'. R db db') o'
          → Ensures (λ _ db'. R db db') (((λ _. o') >>= f) db)
      after db (returned a db') q = chain db db' (f a db') q ((kf a).at db')
      after db (raised e) q = tt
      after db (committed e db') q = absurd q

  pub Frames-then : (m : Tx A) (k : Tx B) → Frames R m → Frames R k → Frames R (m >> k)
  unfolding ◌>>◌
  Frames-then m k km kk = Frames-bind m (λ _. k) km (λ _. kk)

pub ruleset frame_rules = (
  Frames-pure, Frames-raise, Frames-gets, Frames-or_raise, Frames-lookup, Frames-raise_if,
  Frames-bind, Frames-then,
)
