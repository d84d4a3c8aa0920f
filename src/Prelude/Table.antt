-- ===== src/Prelude/Table.antt =====
-- A database table: its rows under their primary keys, in insertion order. `get` reads a row by
-- its key, `put` writes it. A statement `updateMany({ where: { id, ...test }, data })` reads the
-- row of the key, tests it and writes it back: its count is 1 or 0.
pub mod Distinct
pub mod Find
use Prim.Native.Nat.{ℕ}
use mathlib.Core.Path.{◌≡◌, refl}
use mathlib.Core.Logic.{◌≢◌, ◌⊎◌, inl, inr}
use mathlib.Core.Bool.{Bool, true}
use mathlib.Core.List.{List, [], ◌∷◌}
use mathlib.Core.Option.{Option, none, some}
use native.Mathlib.Omega.{arith}
use next_stock_oficial.Prelude.Lists.{find}
use next_stock_oficial.Prelude.Tests.{◌==◌, Bool-cases, if◌then◌else◌}

abbrev pub Table {ℓ} : Type ℓ → Type ℓ
Table A = List (ℕ × A)

module _ {ℓ} {A : Type ℓ} where
  unfoldable pub get : ℕ → Table A → Option A
  get k [] = none
  get k ((j, a) ∷ t) = if j == k then some a else get k t

  unfoldable pub put : ℕ → A → Table A → Table A
  put k a [] = (k, a) ∷ []
  put k a ((j, b) ∷ t) = if j == k then (k, a) ∷ t else (j, b) ∷ put k a t

  -- the row that a statement with this key and this further test finds
  abbrev pub matching : (A → Bool) → Option A → Option A
  matching test none = none
  matching test (some a) = if test a then some a else none

  pub matching-cases :
      (test : A → Bool) (row : Option A)
      → (matching test row ≡ none)
        ⊎ ((a : A) × (row ≡ some a) × (test a ≡ true) × (matching test row ≡ some a))
  matching-cases test none = inl refl
  matching-cases test (some a) = elim (Bool-cases (test a)) [
    | inl meets ↦ inr (a, refl, meets, ground (arith, meets))
    | inr fails ↦ inl (ground (arith, fails))
  ]

  pub get-put :
      (k j : ℕ) (a : A) (t : Table A) → get j (put k a t) ≡ (if k == j then some a else get j t)
  unfolding get put
  get-put k j a [] = ground arith
  get-put k j a ((i, b) ∷ t) = ground (arith, get-put k j a t)

  pub get-put_self : (k : ℕ) (a : A) (t : Table A) → get k (put k a t) ≡ some a
  get-put_self k a t = ground (arith, get-put k k a t)

  pub get-put_ne : (k j : ℕ) (a : A) (t : Table A) → k ≢ j → get j (put k a t) ≡ get j t
  get-put_ne k j a t h = ground (arith, get-put k j a t)

  pub put-put : (k : ℕ) (a b : A) (t : Table A) → put k b (put k a t) ≡ put k b t
  unfolding put
  put-put k a b [] = ground arith
  put-put k a b ((i, c) ∷ t) = ground (arith, put-put k a b t)

  -- a statement that changes every row by its key
  unfoldable pub map_rows : (ℕ → A → A) → Table A → Table A
  map_rows f [] = []
  map_rows f ((k, a) ∷ t) = (k, f k a) ∷ map_rows f t

  pub get-map_rows-none :
      (f : ℕ → A → A) (k : ℕ) (t : Table A) → get k t ≡ none → get k (map_rows f t) ≡ none
  unfolding get map_rows
  get-map_rows-none f k [] h = h
  get-map_rows-none f k ((j, b) ∷ t) h = ground (arith, h, get-map_rows-none f k t)

  pub get-map_rows-some :
      (f : ℕ → A → A) (k : ℕ) (a : A) (t : Table A)
      → get k t ≡ some a
      → get k (map_rows f t) ≡ some (f k a)
  unfolding get map_rows
  get-map_rows-some f k a [] h = cc
  get-map_rows-some f k a ((j, b) ∷ t) h = ground (arith, h, get-map_rows-some f k a t)

  -- a new row that passes a test which no other passes is the one that is found
  pub find-put :
      (p : ℕ × A → Bool) (id : ℕ) (a : A) (t : Table A)
      → find p t ≡ none
      → get id t ≡ none
      → p (id, a) ≡ true
      → find p (put id a t) ≡ some (id, a)
  unfolding get put
  find-put p id a [] h k m = ground (arith, m)
  find-put p id a ((j, b) ∷ t) h k m = elim (Bool-cases (p (j, b))) [
    | inl found ↦ absurd (ground (arith, found, h))
    | inr other ↦ ground (arith, other, h, k, find-put p id a t)
  ]
