-- ===== src/Prelude/Sort.antt =====
-- ORDER BY and LIMIT: a stable sort by a test of two rows, and the first rows of a list.
use Prim.Native.Nat.{ℕ, zero, suc, ◌+◌, ◌≤◌}
use mathlib.Core.Path.{◌≡◌, refl, ap}
use mathlib.Core.Logic.{inl, inr}
use mathlib.Core.Bool.{Bool, true, ◌||◌}
use mathlib.Core.List.{List, [], ◌∷◌}
use native.Mathlib.Omega.{arith}
use next_stock_oficial.Prelude.Tests.{if◌then◌else◌, Bool-cases}
use next_stock_oficial.Prelude.Lists.{length, any, select}

module _ {ℓ} {A : Type ℓ} where
  unfoldable pub insert_by : (A → A → Bool) → A → List A → List A
  insert_by before a [] = a ∷ []
  insert_by before a (b ∷ rows) =
      let rest = insert_by before a rows in if before a b then a ∷ b ∷ rows else b ∷ rest

  unfoldable pub sort_by : (A → A → Bool) → List A → List A
  unfolding insert_by
  sort_by before [] = []
  sort_by before (a ∷ rows) = insert_by before a (sort_by before rows)

  abbrev pub first_rows : ℕ → List A → List A
  first_rows zero rows = []
  first_rows (suc n) [] = []
  first_rows (suc n) (a ∷ rows) = a ∷ first_rows n rows

  any-insert_by :
      (p : A → Bool) (before : A → A → Bool) (a : A) (rows : List A)
      → any p (insert_by before a rows) ≡ p a || any p rows
  unfolding insert_by
  any-insert_by p before a [] = refl
  any-insert_by p before a (b ∷ rows) = elim (Bool-cases (before a b)) [
    | inl first ↦ ground (arith, first)
    | inr later ↦ ground (arith, later, any-insert_by p before a rows)
  ]

  -- a sort keeps the entries
  pub any-sort_by :
      (p : A → Bool) (before : A → A → Bool) (rows : List A)
      → any p (sort_by before rows) ≡ any p rows
  unfolding sort_by
  any-sort_by p before [] = refl
  any-sort_by p before (a ∷ rows) =
      ground (arith, any-insert_by p before a (sort_by before rows), any-sort_by p before rows)

  length-insert_by :
      (before : A → A → Bool) (a : A) (rows : List A)
      → length (insert_by before a rows) ≡ length rows + 1
  unfolding insert_by
  length-insert_by before a [] = omega arith
  length-insert_by before a (b ∷ rows) = elim (Bool-cases (before a b)) [
    | inl first ↦ ground (arith, first)
    | inr later ↦ ground (arith, later, length-insert_by before a rows)
  ]

  pub length-sort_by :
      (before : A → A → Bool) (rows : List A) → length (sort_by before rows) ≡ length rows
  unfolding sort_by
  length-sort_by before [] = refl
  length-sort_by before (a ∷ rows) =
      omega (arith, length-insert_by before a (sort_by before rows), length-sort_by before rows)

  pub length-select : (q : A → Bool) (rows : List A) → length (select q rows) ≤ length rows
  length-select q [] = omega arith
  length-select q (a ∷ rows) = ground (arith, length-select q rows)

  pub first_rows_all : (n : ℕ) (rows : List A) → length rows ≤ n → first_rows n rows ≡ rows
  first_rows_all zero [] h = refl
  first_rows_all (suc n) [] h = refl
  first_rows_all (suc n) (a ∷ rows) h = ap (λ r. a ∷ r) (first_rows_all n rows (omega (arith, h)))
  first_rows_all zero (a ∷ rows) h = absurd (omega (arith, h))

  pub any-first_rows :
      (p : A → Bool) (n : ℕ) (rows : List A) → any p (first_rows n rows) ≡ true → any p rows ≡ true
  any-first_rows p zero rows h = cc
  any-first_rows p (suc n) [] h = h
  any-first_rows p (suc n) (a ∷ rows) h = ground (arith, h, any-first_rows p n rows)
