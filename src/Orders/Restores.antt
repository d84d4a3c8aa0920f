-- ===== src/Orders/Restores.antt =====
-- What a cancellation promises, and what it does where the order has changed since it was read.
use next_stock_oficial.Prelude.{
  ℕ, ◌+◌, ◌≡◌, refl, ◌∙◌, sym, ap, subst, true, false, Option, none, some, map, inl, inr, arith,
  is_none,
}
use next_stock_oficial.Prelude.Int.{ℤ, pos, ◌+ℤ◌, +ℤ_zero}
use next_stock_oficial.Prelude.Result.{ok, >>=-eq-ok, ok-injective}
use next_stock_oficial.Prelude.Table.{get, put, get-put_self}
use next_stock_oficial.Prelude.Text.{Text}
use next_stock_oficial.Store.{Context, Db, Order, order_in_scope}
use next_stock_oficial.Orders.Status.{canceled}
use next_stock_oficial.Orders.Items.Quantities.{units}
use next_stock_oficial.Orders.Stock.{apply_stock_delta}
use next_stock_oficial.Orders.Stock.Net.{stock, stock-apply_stock_delta}
use next_stock_oficial.Orders.Create.{find_scoped_order, clean}
use next_stock_oficial.Orders.Units.{held, reserved, total, reserved-put}
use next_stock_oficial.Orders.Lifecycle.{
  given_back, is_restored, cancel_claimed, cancel_after_read, cancel,
}
use next_stock_oficial.Orders.Change.Moved.{find_scoped_order_ok}
use next_stock_oficial.Orders.Change.Canceled.{cancel_after_read_ok}
use next_stock_oficial.Orders.Change.Products.{net-given_back}

-- the row that a claimed cancellation writes
abbrev canceled_row : Context → ℕ → Option Text → Order → Order
canceled_row ctx now reason o = record o {
  status = canceled;
  canceled_at = some now;
  cancellation_reason = clean reason;
  stock_restored_at = some now;
  updated_by_id = ctx.actor_id;
  version = o.version + 1;
}

-- The parts of a claimed cancellation.
cancel_claimed_ok :
    (ctx : Context) (now id : ℕ) (reason : Option Text) (existing o : Order) (db : Db) {db' : Db}
    → cancel_claimed ctx now id reason existing o db ≡ ok db'
    → (db'.orders ≡ put id (canceled_row ctx now reason o) db.orders)
      × (apply_stock_delta ctx (map given_back existing.items) db.products ≡ ok db'.products)
unfolding cancel_claimed
cancel_claimed_ok ctx now id reason existing o db h =
    let (products, h1, h2) =
      >>=-eq-ok (apply_stock_delta ctx (map given_back existing.items) db.products) _ h in
    (ground (arith, h2), ground (arith, h1, h2))

shift :
    (s s' : ℤ) (r r' a b : ℕ)
    → s' ≡ s +ℤ pos a
    → r' + b ≡ r
    → s' +ℤ pos r' +ℤ pos b ≡ s +ℤ pos r +ℤ pos a
unfolding ◌+ℤ◌
shift s s' r r' a b e f = ground arith

cancel_claimed_total :
    (ctx : Context) (now id p : ℕ) (reason : Option Text) (existing o : Order) (db : Db) {db' : Db}
    → get id db.orders ≡ some o
    → o.stock_restored_at ≡ none
    → cancel_claimed ctx now id reason existing o db ≡ ok db'
    → total p db' +ℤ pos (units p o.items) ≡ total p db +ℤ pos (units p existing.items)
cancel_claimed_total ctx now id p reason existing o db {db'} row fresh h =
    let (orders, stocks) = cancel_claimed_ok ctx now id reason existing o db h in
    let moved = reserved-put p id o (canceled_row ctx now reason o) db.orders row in
    shift (stock p db.products) (stock p db'.products) (reserved p db.orders)
      (reserved p db'.orders) (units p existing.items) (units p o.items)
      (stock-apply_stock_delta ctx (map given_back existing.items) p db.products stocks
        ∙ ap (λ n. stock p db.products +ℤ n) (net-given_back p existing.items))
      (ground (arith, moved, orders, fresh))

-- A cancellation that has read `existing`, and that goes through although the row `o` stands by
-- then in its place, neither of the two restored, returns the units of `existing` where the order
-- gives up those of `o`: the units of a product on the shelf and in orders, with those of `o`
-- added, become what they were with those of `existing` added.
pub cancel_after_read_total :
    (ctx : Context) (now id p : ℕ) (reason : Option Text) (existing o : Order) (db : Db) {db' : Db}
    → is_restored existing ≡ false
    → get id db.orders ≡ some o
    → o.stock_restored_at ≡ none
    → cancel_after_read ctx now id reason existing db ≡ ok db'
    → total p db' +ℤ pos (units p o.items) ≡ total p db +ℤ pos (units p existing.items)
cancel_after_read_total ctx now id p reason existing o db {db'} live row fresh h =
    elim (cancel_after_read_ok ctx now id reason existing db h) [
      | inl (same, restored) ↦ absurd (elim restored [
        | inl r ↦ cc (r, live)
        | inr (c, found, r) ↦
            let (row', scope) = find_scoped_order_ok ctx id db found in
            let is : o ≡ c = cc (row, row') in ground (arith, r, fresh, is)
      ])
      | inr (o', row', can, claimed) ↦
          let is : o' ≡ o = cc (row, row') in
          cancel_claimed_total ctx now id p reason existing o db row fresh
            (subst (λ x. cancel_claimed ctx now id reason existing x db ≡ ok db') is claimed)
    ]

-- The row of an order after a cancellation that goes through.
cancel_row :
    (ctx : Context) (now id : ℕ) (reason : Option Text) (db : Db) {db' : Db}
    → cancel ctx now id reason db ≡ ok db'
    → (o : Order) × (get id db'.orders ≡ some o)
      × (order_in_scope ctx o ≡ true)
      × (is_restored o ≡ true)
unfolding cancel
cancel_row ctx now id reason db h =
    let (existing, h1, h2) = >>=-eq-ok (find_scoped_order ctx id db) _ h in
    let (row, scope) = find_scoped_order_ok ctx id db h1 in
    elim (cancel_after_read_ok ctx now id reason existing db h2) [
      | inl (same, restored) ↦ (
        existing,
        ap (λ d. get id d.orders) same ∙ row,
        scope,
        elim restored [
          | inl r ↦ r
          | inr (c, found, r) ↦ subst (λ x. is_restored x ≡ true) (ok-injective (sym found ∙ h1)) r
        ],
      )
      | inr (o, row', can, claimed) ↦
          let (orders, _) = cancel_claimed_ok ctx now id reason existing o db claimed in
          (
            canceled_row ctx now reason o,
            ap (get id) orders ∙ get-put_self id (canceled_row ctx now reason o) db.orders,
            ground (arith, can),
            refl,
          )
    ]

-- A second cancellation of an order, by a request of the same branch, goes through and changes
-- nothing: the stock is given back once.
pub cancel_twice :
    (ctx : Context) (now now' id : ℕ) (reason reason' : Option Text) (db db' : Db)
    → cancel ctx now id reason db ≡ ok db'
    → cancel ctx now' id reason' db' ≡ ok db'
unfolding cancel cancel_after_read find_scoped_order
cancel_twice ctx now now' id reason reason' db db' h =
    let (o, row, scope, restored) = cancel_row ctx now id reason db h in
    ground (arith, row, scope, restored)

nothing_held : (p : ℕ) (o : Order) → is_restored o ≡ true → 0 ≡ held p o
nothing_held p o h = ground arith

all_held : (p : ℕ) (o : Order) → is_none o.stock_restored_at ≡ true → units p o.items ≡ held p o
all_held p o h = ground arith

-- A cancellation that goes through leaves the order canceled, with its stock
-- given back: the stock of each product grows by exactly the units that the order held.
pub cancel_gives_back :
    (ctx : Context) (now id : ℕ) (reason : Option Text) (db : Db) {db' : Db}
    → cancel ctx now id reason db ≡ ok db'
    → (o : Order) × (o' : Order) × (get id db.orders ≡ some o)
      × (get id db'.orders ≡ some o')
      × (is_restored o' ≡ true)
      × ((p : ℕ) → stock p db'.products ≡ stock p db.products +ℤ pos (held p o))
unfolding cancel
cancel_gives_back ctx now id reason db h =
    let (o', row', _, restored') = cancel_row ctx now id reason db h in
    let (existing, h1, h2) = >>=-eq-ok (find_scoped_order ctx id db) _ h in
    let (row, scope) = find_scoped_order_ok ctx id db h1 in
    (
      existing,
      o',
      row,
      row',
      restored',
      λ p. elim (cancel_after_read_ok ctx now id reason existing db h2) [
        | inl (same, restored) ↦
            let done : is_restored existing ≡ true = elim restored [
              | inl r ↦ r
              | inr (c, found, r) ↦
                  subst (λ x. is_restored x ≡ true) (ok-injective (sym found ∙ h1)) r
            ] in
            ap (λ d. stock p d.products) same
            ∙ sym (+ℤ_zero (stock p db.products))
            ∙ ap (λ n. stock p db.products +ℤ pos n) (nothing_held p existing done)
        | inr (o, found, can, claimed) ↦
            let is : o ≡ existing = cc (found, row) in
            let (_, stocks) = cancel_claimed_ok ctx now id reason existing o db claimed in
            stock-apply_stock_delta ctx (map given_back existing.items) p db.products stocks
            ∙ ap (λ n. stock p db.products +ℤ n) (net-given_back p existing.items)
            ∙ ap (λ n. stock p db.products +ℤ pos n)
                (subst (λ x. units p x.items ≡ held p x) is (all_held p o (ground (arith, can))))
      ],
    )
