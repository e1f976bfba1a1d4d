-- ===== src/Models/Returns.antt =====
-- Handlers that are sure to return.
use doc_grading.Prelude.{◌≡◌, refl, sym, subst, Bool, false, Option, some}
use doc_grading.Models.Db.{Db}
use doc_grading.Models.Tx.{
  Tx, Error, returned, pure, raise_if, or_raise, gets, modify, new_uuid, ◌>>=◌, ◌>>◌,
}

abbrev pub Returns {ℓ} : {A : Type ℓ} → Tx A → Db → Type ℓ
Returns {A = A} m db = (a : A) × (db' : Db) × (m db ≡ returned a db')

module _ {ℓ} {A : Type ℓ} (db : Db) where
  pub Returns-pure : (a : A) → Returns (pure a) db
  unfolding pure
  Returns-pure a = (a, db, refl)

  pub Returns-gets : (f : Db → A) → Returns (gets f) db
  unfolding gets
  Returns-gets f = (f db, db, refl)

  pub Returns-or_raise : (o : Option A) (e : Error) (a : A) → o ≡ some a → Returns (or_raise o e) db
  unfolding or_raise
  Returns-or_raise o e a h = rw h (a, db, refl)

module _ (db : Db) where
  pub Returns-raise_if : (b : Bool) (e : Error) → b ≡ false → Returns (raise_if b e) db
  unfolding raise_if
  Returns-raise_if b e h = rw h (tt, db, refl)

  pub Returns-modify : (f : Db → Db) → Returns (modify f) db
  unfolding modify
  Returns-modify f = (tt, f db, refl)

  pub Returns-new_uuid : Returns new_uuid db
  unfolding new_uuid
  Returns-new_uuid = (db.next_uuid, _, refl)

module _ {ℓ κ} {A : Type ℓ} {B : Type κ} (db : Db) where
  pub Returns-bind :
      (m : Tx A) (f : A → Tx B)
      → Returns m db
      → ((a : A) (db' : Db) → m db ≡ returned a db' → Returns (f a) db')
      → Returns (m >>= f) db
  unfolding ◌>>=◌
  Returns-bind m f (a, db', e) k =
      subst (λ o. (b : B) × (db'' : Db) × (((λ _. o) >>= f) db ≡ returned b db'')) (sym e)
        (k a db' e)

  pub Returns-then :
      (m : Tx A) (k : Tx B) → Returns m db → ((db' : Db) → Returns k db') → Returns (m >> k) db
  unfolding ◌>>◌
  Returns-then m k r s = Returns-bind m (λ _. k) r (λ _ db' _. s db')

  -- where it is known what the first part returns
  pub Returns-known :
      (m : Tx A) (f : A → Tx B) (a : A) (db' : Db)
      → m db ≡ returned a db'
      → Returns (f a) db'
      → Returns (m >>= f) db
  unfolding ◌>>=◌
  Returns-known m f a db' e r =
      subst (λ o. (b : B) × (db'' : Db) × (((λ _. o) >>= f) db ≡ returned b db'')) (sym e) r

module _ {ℓ} {B : Type ℓ} (db : Db) where
  -- past a guard whose test is false
  pub Returns-past :
      (b : Bool) (e : Error) (k : Tx B) → b ≡ false → Returns k db → Returns (raise_if b e >> k) db
  unfolding raise_if ◌>>◌ ◌>>=◌
  Returns-past b e k h r = rw h r
