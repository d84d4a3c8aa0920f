-- ===== src/Orders/Stock/Diff.antt =====
-- `buildStockDiff`: the deltas of an edit add up to the units that the old items hold, less
-- those that the new items hold.
use next_stock_oficial.Prelude.{
  ℕ, ◌≡◌, refl, Bool, true, false, not, none, List, [], ◌∷◌, ◌++◌, map, any, select, ◌==◌, ◌||◌,
  if◌then◌else◌, arith, inl, inr, Bool-cases,
}
use next_stock_oficial.Prelude.Int.{ℤ, pos, sub_ℕ, eq_ℤ, ◌+ℤ◌, +ℤ_zero, zero_+ℤ}
use next_stock_oficial.Prelude.Table.{Table, get}
use next_stock_oficial.Store.{OrderItem}
use next_stock_oficial.Orders.Items.{
  StockDelta, group_items, unique, keys, delta_of, build_stock_diff,
}
use next_stock_oficial.Orders.Items.Quantities.{units, quantity_at, quantity_at-group_items}
use next_stock_oficial.Orders.Stock.Net.{part, net}

abbrev member : ℕ → List ℕ → Bool
member p ks = any (λ k. k == p) ks

part_nonzero : (p : ℕ) (d : StockDelta) (t : ℤ) → eq_ℤ d.delta (pos 0) ≡ true → part p d +ℤ t ≡ t
unfolding ◌+ℤ◌
part_nonzero p d t h = ground arith

net-select :
    (p : ℕ) (ds : List StockDelta) → net p (select (λ d. not (eq_ℤ d.delta (pos 0))) ds) ≡ net p ds
net-select p [] = refl
net-select p (d ∷ ds) = elim (Bool-cases (eq_ℤ d.delta (pos 0))) [
  | inl z ↦ ground (arith, net-select p ds, part_nonzero p d (net p ds))
  | inr nz ↦ ground (arith, net-select p ds)
]

module _ (current next : Table ℕ) (p : ℕ) where
  abbrev diff : ℤ
  diff = sub_ℕ (quantity_at p current) (quantity_at p next)

  net-unique :
      (seen ks : List ℕ)
      → net p (map (delta_of current next) (unique seen ks))
        ≡ (if member p seen then pos 0 else if member p ks then diff else pos 0)
  net-unique seen [] = ground arith
  net-unique seen (k ∷ ks) = ground (
    arith,
    net-unique seen ks,
    net-unique (k ∷ seen) ks,
    +ℤ_zero diff,
    zero_+ℤ (net p (map (delta_of current next) (unique (k ∷ seen) ks))),
  )

get-member : (p : ℕ) (m : Table ℕ) → member p (keys m) ≡ false → get p m ≡ none
unfolding get
get-member p [] h = refl
get-member p (e ∷ m) h = ground (arith, get-member p m)

member-append : (p : ℕ) (ks js : List ℕ) → member p (ks ++ js) ≡ (member p ks || member p js)
member-append p [] js = refl
member-append p (k ∷ ks) js = ground (arith, member-append p ks js)

pub net-build_stock_diff :
    (p : ℕ) (old new : List OrderItem)
    → net p (build_stock_diff old new) ≡ sub_ℕ (units p old) (units p new)
unfolding build_stock_diff
net-build_stock_diff p old new =
    let current = group_items old [] in
    let next = group_items new [] in
    ground (
      arith,
      net-select p (map (delta_of current next) (unique [] (keys current ++ keys next))),
      net-unique current next p [] (keys current ++ keys next),
      member-append p (keys current) (keys next),
      get-member p current,
      get-member p next,
      quantity_at-group_items p old [],
      quantity_at-group_items p new [],
    )
