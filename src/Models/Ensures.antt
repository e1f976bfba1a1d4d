-- ===== src/Models/Ensures.antt =====
-- Postconditions of handlers that never commit by themselves.
use doc_grading.Models.Db.{Db}
use doc_grading.Models.Tx.{Outcome, returned, raised, committed}

-- If the handler returns, then `Q` holds of its result and the database.
abbrev pub Ensures {ℓ} : {A : Type ℓ} → (A → Db → Type 0) → Outcome A → Type 0
Ensures Q (returned a db) = Q a db
Ensures Q (raised e) = Unit
Ensures Q (committed e db) = ⊥

-- A weaker postcondition.
pub Ensures-mono {ℓ} :
    {A : Type ℓ} (Q R : A → Db → Type 0) (o : Outcome A)
    → ((a : A) (db : Db) → Q a db → R a db)
    → Ensures Q o
    → Ensures R o
Ensures-mono Q R (returned a db) f q = f a db q
Ensures-mono Q R (raised e) f q = tt
Ensures-mono Q R (committed e db) f q = q

-- two facts about one outcome
pub Ensures-both {ℓ} :
    {A : Type ℓ} (P Q : A → Db → Type 0) (o : Outcome A)
    → Ensures P o
    → Ensures Q o
    → Ensures (λ a db. P a db × Q a db) o
Ensures-both P Q (returned a db) p q = (p, q)
Ensures-both P Q (raised e) p q = tt
Ensures-both P Q (committed e db) p q = absurd p
