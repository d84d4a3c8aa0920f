-- ===== src/Orders/Takes.antt =====
-- What a creation promises: it takes from the shelf exactly what was asked for, and no more than
-- was there.
use next_stock_oficial.Prelude.{ℕ, ◌≡◌, refl, ◌∙◌, sym, ap, true, some, map, arith}
use next_stock_oficial.Prelude.Int.{ℤ, pos, ◌+ℤ◌, ◌≤ℤ◌}
use next_stock_oficial.Prelude.Result.{ok}
use next_stock_oficial.Prelude.Table.{get, get-put_self}
use next_stock_oficial.Prelude.Text.{Text}
use next_stock_oficial.Store.{Context, Db, Order}
use next_stock_oficial.Orders.Status.{pending}
use next_stock_oficial.Orders.Items.{normalize_items}
use next_stock_oficial.Orders.Items.Quantities.{
  units, requested, requested-normalize_items, units-load_priced_items,
}
use next_stock_oficial.Orders.Stock.Net.{stock, net, stock-apply_stock_delta}
use next_stock_oficial.Orders.Stock.Safety.{IsStocked, apply_stock_delta-IsStocked}
use next_stock_oficial.Orders.Create.{CreateOrder, create, new_order, taken}
use next_stock_oficial.Orders.Change.{IsPriced}
use next_stock_oficial.Orders.Change.Created.{create_ok, new_order-IsPriced}
use next_stock_oficial.Orders.Change.Products.{net-taken}

-- moving `n` units out of a stock
move_out : (s s' d : ℤ) (n : ℕ) → s' ≡ s +ℤ d → d +ℤ pos n ≡ pos 0 → s' +ℤ pos n ≡ s
unfolding ◌+ℤ◌
move_out s s' d n e f = ground arith

fits : (s s' : ℤ) (n : ℕ) → s' +ℤ pos n ≡ s → pos 0 ≤ℤ s' → pos n ≤ℤ s
unfolding ◌+ℤ◌
fits s s' n e h = ground arith

-- the new order, as the client sees it
pub record IsNewOrder (dto : CreateOrder) (o : Order) : Type 0 where
  pub status : o.status ≡ pending
  pub priced : IsPriced o
  pub complete : (p : ℕ) → units p o.items ≡ requested p dto.items

module _ (to_lower : Text → Text) where
  -- A creation that goes through from a stock with no negative quantity writes a pending order
  -- whose money adds up and whose items hold, of each product, as many units as were asked for.
  -- The stock of each product falls by exactly those units, had at least so many, and is still
  -- not negative.
  pub create_takes :
      (ctx : Context) (id : ℕ) (dto : CreateOrder) (db : Db) {db' : Db}
      → IsStocked db.products
      → create to_lower ctx id dto db ≡ ok db'
      → ((o : Order) × (get id db'.orders ≡ some o) × IsNewOrder dto o)
        × ((p : ℕ)
            → (stock p db'.products +ℤ pos (requested p dto.items) ≡ stock p db.products)
              × (pos (requested p dto.items) ≤ℤ stock p db.products)
              × (pos 0 ≤ℤ stock p db'.products))
  create_takes ctx id dto db {db'} s h =
      let (items, priced, fresh, stocks, orders) = create_ok to_lower ctx id dto db h in
      let asked = λ (p : ℕ).
        units-load_priced_items p ctx db.products true (normalize_items dto.items) priced
        ∙ requested-normalize_items p dto.items in
      let stocked = apply_stock_delta-IsStocked ctx (map taken items) db.products s stocks in
      let falls = λ (p : ℕ).
        ap (λ n. stock p db'.products +ℤ pos n) (sym (asked p))
        ∙ move_out (stock p db.products) (stock p db'.products) (net p (map taken items))
            (units p items) (stock-apply_stock_delta ctx (map taken items) p db.products stocks)
            (net-taken p items) in
      (
        (
          new_order to_lower ctx dto items,
          ap (get id) orders ∙ get-put_self id (new_order to_lower ctx dto items) db.orders,
          record {
            status = refl;
            priced = new_order-IsPriced to_lower ctx dto items;
            complete = asked;
          },
        ),
        λ p. (
          falls p,
          fits (stock p db.products) (stock p db'.products) (requested p dto.items) (falls p)
              (stocked.at p),
          stocked.at p,
        ),
      )
