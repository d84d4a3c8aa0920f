-- ===== src/Prelude/Table/Find.antt =====
-- The rows that a test finds in a table, and what writing one row does to them.
use next_stock_oficial.Prelude.Tests.{◌==◌, ==→≡, Bool-cases, if◌then◌else◌}
use next_stock_oficial.Prelude.Lists.{find}
use next_stock_oficial.Prelude.Table.{Table, get, put}
use next_stock_oficial.Prelude.Table.Distinct.{distinct}
use Prim.Native.Nat.{ℕ}
use mathlib.Core.Path.{◌≡◌, ap, subst}
use mathlib.Core.Logic.{inl, inr}
use mathlib.Core.Bool.{Bool, true, false}
use mathlib.Core.List.{[], ◌∷◌}
use mathlib.Core.Option.{Option, none, some}
use native.Mathlib.Omega.{arith}

module _ {A : Type 0} where
  -- where the keys are distinct, a row that is found is the row of its key
  pub get-find :
      (p : ℕ × A → Bool) (t : Table A) {e : ℕ × A}
      → distinct t ≡ true
      → find p t ≡ some e
      → get e.0 t ≡ some e.1
  unfolding get
  get-find p [] d h = ground (arith, h)
  get-find p ((j, b) ∷ t) {e} d h = elim (Bool-cases (p (j, b))) [
    | inl here ↦ ground (arith, here, h)
    | inr later ↦
        let row = get-find p t {e = e} (ground (arith, d)) (ground (arith, later, h)) in
        elim (Bool-cases (j == e.0)) [
          | inr other ↦ ground (arith, later, other, row)
          | inl same ↦
              let free : get j t ≡ none = ground (arith, d) in
              absurd (ground (arith, free, row, ap (λ k. get k t) (==→≡ j e.0 same)))
        ]
  ]

  -- a row that is found stays so when it is rewritten
  pub find-put_found :
      (p : ℕ × A → Bool) (k : ℕ) (a b : A) (t : Table A)
      → find p t ≡ some (k, a)
      → get k t ≡ some a
      → p (k, b) ≡ true
      → find p (put k b t) ≡ some (k, b)
  unfolding get put
  find-put_found p k a b [] h g m = ground (arith, h)
  find-put_found p k a b ((j, c) ∷ t) h g m = elim (Bool-cases (j == k)) [
    | inl here ↦ ground (arith, here, m)
    | inr other ↦ elim (Bool-cases (p (j, c))) [
      | inl wrong ↦ absurd (ground (arith, wrong, other, h))
      | inr fails ↦ ground (arith, other, fails, h, g, find-put_found p k a b t)
    ]
  ]

  -- a row that a test does not see, before and after it is written
  abbrev pub unseen : (ℕ × A → Bool) → ℕ → Option A → Bool
  unseen q k none = true
  unseen q k (some a) = if q (k, a) then false else true

  pub find-put-unseen :
      (q : ℕ × A → Bool) (k : ℕ) (b : A) (t : Table A)
      → unseen q k (get k t) ≡ true
      → q (k, b) ≡ false
      → find q (put k b t) ≡ find q t
  unfolding get put
  find-put-unseen q k b [] g n = ground (arith, n)
  find-put-unseen q k b ((j, c) ∷ t) g n = elim (Bool-cases (j == k)) [
    | inl here ↦ ground (arith, here, g, n)
    | inr other ↦ ground (arith, other, g, n, find-put-unseen q k b t)
  ]

  pub find-meets : (p : ℕ × A → Bool) (t : Table A) {e : ℕ × A} → find p t ≡ some e → p e ≡ true
  find-meets p [] h = ground (arith, h)
  find-meets p ((j, b) ∷ t) {e} h = elim (Bool-cases (p (j, b))) [
    | inl here ↦
        let is : ◌≡◌ {A = Option (ℕ × A)} (some (j, b)) (some e) = ground (arith, here, h) in
        subst (λ o. elim o [ none ↦ false | some x ↦ p x ] ≡ true) is here
    | inr later ↦ find-meets p t (ground (arith, later, h))
  ]
