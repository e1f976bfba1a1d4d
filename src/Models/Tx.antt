-- ===== src/Models/Tx.antt =====
-- A handler in its transaction. The routers commit after a handler returns, and close the session
-- after an exception (backend/app/db/session.py), so a handler that raises leaves the database as
-- it was, unless it has committed by itself.
use doc_grading.Prelude.{ℕ, ◌+◌, Bool, true, false, Option, none, some, String}
use doc_grading.Models.Db.{Db}

pub data Error : Type 0 where
  http : ℕ → String → Error
  -- with a code beside the message
  coded : ℕ → String → String → Error
  -- with the header `Retry-After`
  retry_later : ℕ → String → String → ℕ → Error
  -- the call does not return
  diverged : Error
  type_error value_error attribute_error no_result_found sqlalchemy_error : Error

pub data Outcome {ℓ} (A : Type ℓ) : Type ℓ where
  returned : A → Db → Outcome A
  raised : Error → Outcome A
  committed : Error → Db → Outcome A

abbrev pub Tx {ℓ} : Type ℓ → Type ℓ
Tx A = Db → Outcome A

module _ {ℓ} {A : Type ℓ} where
  unfoldable pub pure : A → Tx A
  pure a db = returned a db

  unfoldable pub raise : Error → Tx A
  raise e db = raised e

  -- `await db.commit()` and `raise`
  unfoldable pub commit_and_raise : Error → Tx A
  commit_and_raise e db = committed e db

  unfoldable pub gets : (Db → A) → Tx A
  gets f db = returned (f db) db

  unfoldable pub or_raise : Option A → Error → Tx A
  or_raise none e db = raised e
  or_raise (some a) e db = returned a db

  -- a select for one row, and what is raised when there is none
  unfoldable pub lookup : (Db → Option A) → Error → Tx A
  unfolding or_raise
  lookup f e db = or_raise (f db) e db

infixl 5 ◌>>=◌ ◌>>◌
unfoldable pub ◌>>=◌ {ℓ κ} : {A : Type ℓ} {B : Type κ} → Tx A → (A → Tx B) → Tx B
◌>>=◌ m f db = elim (m db) [
  | returned a db' ↦ f a db'
  | raised e ↦ raised e
  | committed e db' ↦ committed e db'
]

unfoldable pub ◌>>◌ {ℓ κ} : {A : Type ℓ} {B : Type κ} → Tx A → Tx B → Tx B
unfolding ◌>>=◌
m >> k = m >>= λ _. k

unfoldable pub modify : (Db → Db) → Tx (Unit {0})
modify f db = returned tt (f db)

-- `if test: raise e`
unfoldable pub raise_if : Bool → Error → Tx (Unit {0})
raise_if true e db = raised e
raise_if false e db = returned tt db

unfoldable pub new_uuid : Tx ℕ
new_uuid db = returned db.next_uuid (record db { next_uuid = db.next_uuid + 1 })

-- An `unfolding` line with this name opens every operation above.
unfoldable pub tx : Unit {0}
unfolding pure raise commit_and_raise gets or_raise lookup ◌>>=◌ ◌>>◌ modify raise_if new_uuid
tx = tt

-- What the database holds once the request has ended.
abbrev pub persisted {ℓ} : {A : Type ℓ} → Db → Outcome A → Db
persisted db (returned _ db') = db'
persisted db (raised _) = db
persisted db (committed _ db') = db'

-- The result of a handler that returned.
abbrev pub result {ℓ} : {A : Type ℓ} → Outcome A → Option A
result (returned a _) = some a
result _ = none
