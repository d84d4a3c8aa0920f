-- ===== src/Orders/Units.antt =====
-- Where the units of a product are: on the shelf, or in orders that have not given them back.
use next_stock_oficial.Prelude.{
  ℕ, ◌∙◌, sym, ◌+◌, ◌≡◌, none, some, [], ◌∷◌, sum_by, is_none, if◌then◌else◌, arith,
}
use next_stock_oficial.Prelude.Int.{ℤ, pos, ◌+ℤ◌, +ℤ_zero}
use next_stock_oficial.Prelude.Table.{Table, get, put}
use next_stock_oficial.Store.{Db, Order, Product}
use next_stock_oficial.Orders.Items.Quantities.{units}
use next_stock_oficial.Orders.Stock.Net.{stock}

-- the units of product `p` that an order holds
abbrev pub held : ℕ → Order → ℕ
held p o = if is_none o.stock_restored_at then units p o.items else 0

-- the units of product `p` that all orders hold
abbrev pub reserved : ℕ → Table Order → ℕ
reserved p = sum_by (λ e. held p e.1)

-- all units of product `p`, on the shelf and in orders
abbrev pub total : ℕ → Db → ℤ
total p db = stock p db.products +ℤ pos (reserved p db.orders)

pub reserved-put :
    (p k : ℕ) (old new : Order) (orders : Table Order)
    → get k orders ≡ some old
    → reserved p (put k new orders) + held p old ≡ reserved p orders + held p new
unfolding get put
reserved-put p k old new [] h = cc
reserved-put p k old new (e ∷ orders) h = ground (arith, reserved-put p k old new orders)

pub reserved-put_new :
    (p k : ℕ) (new : Order) (orders : Table Order)
    → get k orders ≡ none
    → reserved p (put k new orders) ≡ reserved p orders + held p new
unfolding get put
reserved-put_new p k new [] h = omega arith
reserved-put_new p k new (e ∷ orders) h = ground (arith, reserved-put_new p k new orders)

rebalance :
    (s s' : ℤ) (r r' h h' : ℕ)
    → r + h' ≡ r' + h
    → s +ℤ pos h ≡ s' +ℤ pos h'
    → s +ℤ pos r ≡ s' +ℤ pos r'
unfolding ◌+ℤ◌
rebalance s s' r r' h h' e f = ground arith

-- Rewriting one row moves units between that order and the shelf.
pub total-put :
    (p k : ℕ) (old new : Order) (products : Table Product) (db : Db)
    → get k db.orders ≡ some old
    → stock p products +ℤ pos (held p new) ≡ stock p db.products +ℤ pos (held p old)
    → stock p products +ℤ pos (reserved p (put k new db.orders)) ≡ total p db
total-put p k old new products db h e =
    rebalance (stock p products) (stock p db.products) (reserved p (put k new db.orders))
      (reserved p db.orders) (held p new) (held p old) (reserved-put p k old new db.orders h) e

-- A new row takes its units from the shelf.
pub total-put_new :
    (p k : ℕ) (new : Order) (products : Table Product) (db : Db)
    → get k db.orders ≡ none
    → stock p products +ℤ pos (held p new) ≡ stock p db.products
    → stock p products +ℤ pos (reserved p (put k new db.orders)) ≡ total p db
total-put_new p k new products db h e =
    rebalance (stock p products) (stock p db.products) (reserved p (put k new db.orders))
      (reserved p db.orders) (held p new) 0 (omega (arith, reserved-put_new p k new db.orders h))
      (e ∙ sym (+ℤ_zero (stock p db.products)))
