-- ===== src/Prelude/Tables.antt =====
-- A database table: rows under their primary keys, in the order of insertion.
use Prim.Native.Nat.{ℕ}
use mathlib.Core.Path.{◌≡◌, refl, sym, ap, ◌∙◌, subst}
use mathlib.Core.Bool.{Bool, true, false}
use mathlib.Core.Logic.{◌≢◌, ◌⊎◌, inl, inr}
use mathlib.Core.Option.{Option, none, some}
use mathlib.Core.List.{List, [], ◌∷◌}
use native.Mathlib.Omega.{arith}
use doc_grading.Prelude.Tests.{◌==◌, if◌then◌else◌, ==_self, ==_iff, Bool-cases}

abbrev pub Table {ℓ} : Type ℓ → Type ℓ
Table V = List (ℕ × V)

abbrev pub is_none {ℓ} : {A : Type ℓ} → Option A → Bool
is_none none = true
is_none (some _) = false

module _ {ℓ} {V : Type ℓ} where
  -- `db.get(Model, k)`, or a select on the primary key
  unfoldable pub find : ℕ → Table V → Option V
  find k [] = none
  find k ((j, v) ∷ t) = if k == j then some v else find k t

  -- flush of a new or changed row
  unfoldable pub put : ℕ → V → Table V → Table V
  put k v [] = (k, v) ∷ []
  put k v ((j, w) ∷ t) = if k == j then (k, v) ∷ t else (j, w) ∷ put k v t

  -- `db.delete(row)`
  unfoldable pub remove : ℕ → Table V → Table V
  remove k [] = []
  remove k ((j, w) ∷ t) = if k == j then remove k t else (j, w) ∷ remove k t

  -- a select on other columns that has at most one row: the first that fits
  unfoldable pub find_by : (V → Bool) → Table V → Option (ℕ × V)
  find_by p [] = none
  find_by p ((j, w) ∷ t) = if p w then some (j, w) else find_by p t

  pub find-put :
      (k j : ℕ) (v : V) (t : Table V) → find j (put k v t) ≡ (if j == k then some v else find j t)
  unfolding find put
  find-put k j v [] = refl
  find-put k j v ((i, w) ∷ t) = ground (arith, find-put k j v t)

  pub find-put_self : (k : ℕ) (v : V) (t : Table V) → find k (put k v t) ≡ some v
  find-put_self k v t = rw (find-put k k v t, ==_self k)

  pub find-put_ne : (k j : ℕ) (v : V) (t : Table V) → j ≢ k → find j (put k v t) ≡ find j t
  find-put_ne k j v t h = rw (find-put k j v t) (ground arith)

  pub some-injective : (v w : V) → some v ≡ some w → v ≡ w
  some-injective v w e = cc

  -- a row that is found after a write is the row that was written, or was there before
  pub find-put_cases :
      (k j : ℕ) (v w : V) (t : Table V)
      → find j (put k v t) ≡ some w
      → ((j ≡ k) × (w ≡ v)) ⊎ ((j ≢ k) × (find j t ≡ some w))
  find-put_cases k j v w t e = elim (Bool-cases (j == k)) [
    | inl h ↦
        let q : j ≡ k = (==_iff j k).0 h in
        inl (q, some-injective w v (sym e ∙ ap (λ i. find i (put k v t)) q ∙ find-put_self k v t))
    | inr h ↦
        let n : j ≢ k = λ q. ground (arith, (==_iff j k).1 q) in
        inr (n, sym (find-put_ne k j v t n) ∙ e)
  ]

  pub find-remove :
      (k j : ℕ) (t : Table V) → find j (remove k t) ≡ (if j == k then none else find j t)
  unfolding find remove
  find-remove k j [] = ground arith
  find-remove k j ((i, w) ∷ t) = ground (arith, find-remove k j t)

  pub put-put : (k : ℕ) (v w : V) (t : Table V) → put k w (put k v t) ≡ put k w t
  unfolding put
  put-put k v w [] = ground arith
  put-put k v w ((i, u) ∷ t) = ground (arith, put-put k v w t)

  -- A primary key: no two rows have the same.
  abbrev pub HasUniqueKeys : Table V → Type 0
  HasUniqueKeys [] = Unit
  HasUniqueKeys ((j, w) ∷ t) = (is_none (find j t) ≡ true) × HasUniqueKeys t

  pub put-HasUniqueKeys :
      (k : ℕ) (v : V) (t : Table V) → HasUniqueKeys t → HasUniqueKeys (put k v t)
  unfolding find put
  put-HasUniqueKeys k v [] h = (refl, tt)
  put-HasUniqueKeys k v ((i, w) ∷ t) h =
      ground (arith, put-HasUniqueKeys k v t h.1, find-put k i v t)

  pub remove-HasUniqueKeys : (k : ℕ) (t : Table V) → HasUniqueKeys t → HasUniqueKeys (remove k t)
  unfolding find remove
  remove-HasUniqueKeys k [] h = tt
  remove-HasUniqueKeys k ((i, w) ∷ t) h =
      ground (arith, remove-HasUniqueKeys k t h.1, find-remove k i t)

  pub find_head : (i : ℕ) (x : V) (t : Table V) → find i ((i, x) ∷ t) ≡ some x
  unfolding find
  find_head i x t = ground (arith, ==_self i)

  -- under unique keys, a row of the rest is found in the table
  pub find_tail :
      (i j : ℕ) (x y : V) (t : Table V)
      → is_none (find i t) ≡ true
      → find j t ≡ some y
      → find j ((i, x) ∷ t) ≡ some y
  unfolding find
  find_tail i j x y t u f = elim (Bool-cases (j == i)) [
    | inl h ↦ absurd (ground (arith, ap (λ k. find k t) ((==_iff j i).0 h)))
    | inr h ↦ ground arith
  ]

  -- The row that a select finds is the row under its key, and it fits.
  pub find-find_by :
      (p : V → Bool) (t : Table V) {k : ℕ} {v : V}
      → HasUniqueKeys t
      → find_by p t ≡ some (k, v)
      → (find k t ≡ some v) × (p v ≡ true)
  unfolding find find_by
  find-find_by p [] h e = cc
  find-find_by p ((i, w) ∷ t) {k} {v} h e =
      ground (arith, find-find_by p t {k = k} {v = v} h.1, ==_iff k i)

  -- no row fits what a select has not found
  pub find_by-none :
      (p : V → Bool) (t : Table V) (j : ℕ) (w : V)
      → find_by p t ≡ none
      → find j t ≡ some w
      → p w ≡ false
  unfolding find find_by
  find_by-none p [] j w e f = cc
  find_by-none p ((i, x) ∷ t) j w e f = elim (Bool-cases (p x)) [
    | inl h ↦ ground arith
    | inr h ↦ elim (Bool-cases (j == i)) [
      | inl k ↦
          let q : some x ≡ some w = ground arith in
          subst (λ y. p y ≡ false) (some-injective x w q) h
      | inr k ↦ find_by-none p t j w (ground arith) (ground arith)
    ]
  ]

  pub find_by-put_new :
      (p : V → Bool) (k : ℕ) (v : V) (t : Table V)
      → find k t ≡ none
      → find_by p t ≡ none
      → p v ≡ true
      → find_by p (put k v t) ≡ some (k, v)
  unfolding find put find_by
  find_by-put_new p k v [] f e h = ground arith
  find_by-put_new p k v ((i, w) ∷ t) f e h = ground (arith, find_by-put_new p k v t)

  -- a row whose key no other row has
  pub remove_absent : (k : ℕ) (t : Table V) → find k t ≡ none → remove k t ≡ t
  unfolding find remove
  remove_absent k [] e = refl
  remove_absent k ((j, w) ∷ t) e = ground (arith, remove_absent k t)

  -- A row that is stored again, and still fits, is found again.
  pub find_by-put :
      (p : V → Bool) (k : ℕ) (v w : V) (t : Table V)
      → HasUniqueKeys t
      → find_by p t ≡ some (k, v)
      → p w ≡ true
      → find_by p (put k w t) ≡ some (k, w)
  unfolding find put find_by
  find_by-put p k v w [] u e h = cc
  find_by-put p k v w ((i, x) ∷ t) u e h =
      ground (arith, find_by-put p k v w t u.1, find-find_by p t {k = k} {v = v} u.1, ==_iff k i)

-- the row `v` stands in the table under the key `k`
pub data HasRow {ℓ} {V : Type ℓ} (k : ℕ) (v : V) : Table V → Type ℓ where
  here : (t : Table V) → HasRow k v ((k, v) ∷ t)
  there : (j : ℕ) (w : V) (t : Table V) → HasRow k v t → HasRow k v ((j, w) ∷ t)

module _ {ℓ} {V : Type ℓ} where
  pub put-HasRow : (k : ℕ) (v : V) (t : Table V) → HasRow k v (put k v t)
  unfolding put
  put-HasRow k v [] = HasRow.here []
  put-HasRow k v ((j, w) ∷ t) = elim (Bool-cases (k == j)) [
    | inl h ↦ rw h (HasRow.here t)
    | inr h ↦ rw h (HasRow.there j w _ (put-HasRow k v t))
  ]

  pub find_by-HasRow :
      (p : V → Bool) (t : Table V) (k : ℕ) (v : V)
      → find_by p t ≡ some (k, v)
      → HasRow k v t × (p v ≡ true)
  unfolding find_by
  find_by-HasRow p [] k v e = cc
  find_by-HasRow p ((j, w) ∷ t) k v e = elim (Bool-cases (p w)) [
    | inl h ↦
        let same : j ≡ k = ground arith in
        let row : w ≡ v = ground arith in
        (
          subst (λ i. HasRow i v ((j, w) ∷ t)) same
              (subst (λ x. HasRow j x ((j, w) ∷ t)) row (HasRow.here t)),
          subst (λ x. p x ≡ true) row h,
        )
    | inr h ↦ let (r, q) = find_by-HasRow p t k v (ground arith) in (HasRow.there j w t r, q)
  ]
