-- ===== src/Prelude/Table/Distinct.antt =====
-- Tables whose keys are distinct, as a primary key makes them.
use next_stock_oficial.Prelude.Tests.{◌==◌, is_none}
use next_stock_oficial.Prelude.Lists.{any, select}
use next_stock_oficial.Prelude.Table.{Table, get, put, map_rows, get-put, get-map_rows-none}
use Prim.Native.Nat.{ℕ}
use mathlib.Core.Path.{◌≡◌}
use mathlib.Core.Bool.{Bool, true, false, ◌&&◌}
use mathlib.Core.List.{[], ◌∷◌}
use mathlib.Core.Option.{Option, none, some}
use native.Mathlib.Omega.{arith}

module _ {ℓ} {A : Type ℓ} where
  abbrev pub distinct : Table A → Bool
  distinct [] = true
  distinct ((k, a) ∷ t) = let rest = distinct t in is_none (get k t) && rest

  abbrev pub is_among : Table A → ℕ → Bool
  is_among rows id = any (λ e. e.0 == id) rows

  -- a test on the row of a key
  abbrev pub holds_at : (ℕ × A → Bool) → ℕ → Option A → Bool
  holds_at q id none = false
  holds_at q id (some a) = q (id, a)

  pub distinct-put : (k : ℕ) (a : A) (t : Table A) → distinct t ≡ true → distinct (put k a t) ≡ true
  unfolding get put
  distinct-put k a [] h = ground arith
  distinct-put k a ((j, b) ∷ t) h = ground (arith, h, distinct-put k a t, get-put k j a t)

  pub distinct-map_rows :
      (f : ℕ → A → A) (t : Table A) → distinct t ≡ true → distinct (map_rows f t) ≡ true
  unfolding map_rows
  distinct-map_rows f [] h = h
  distinct-map_rows f ((j, b) ∷ t) h =
      ground (arith, h, distinct-map_rows f t, get-map_rows-none f j t)

  pub is_among-select :
      (q : ℕ × A → Bool) (id : ℕ) (t : Table A)
      → distinct t ≡ true
      → is_among (select q t) id ≡ holds_at q id (get id t)
  unfolding get
  is_among-select q id [] h = ground arith
  is_among-select q id ((j, b) ∷ t) h = ground (arith, h, is_among-select q id t)
