-- ===== src/Orders/Payments.antt =====
-- What the payment of an order promises: one sale, of the order's items and money.
use next_stock_oficial.Prelude.{
  ℕ, ◌+◌, ◌≡◌, refl, ◌∙◌, sym, ap, true, ◌&&◌, ◌||◌, Option, none, some, find, any, arith, inl, inr,
  Option-cases, Bool-cases, map, is_some, eq_option, or_default, ◌==◌,
}
use next_stock_oficial.Prelude.Result.{ok}
use next_stock_oficial.Prelude.Table.{get, put, matching-cases, find-put}
use next_stock_oficial.Store.{Context, Db, Order, Sale, OrderPaymentMethod, order_in_scope}
use next_stock_oficial.Sales.FromOrder.{
  FromOrderRequest, SaleReply, find_sale, of_order, insert_sale, sale_of, sale_item, same_key,
  claim_payment, payment_raced, pay_order, pay_order_tx, create_from_order,
}
use next_stock_oficial.Sales.Payment.{validate_payment, is_cash}
use next_stock_oficial.Orders.Change.Sold.{Sells, sell_order_ok}
use next_stock_oficial.Orders.Change.Paid.{claim_payment_ok, create_from_order_ok, settled}

validate_payment_ok :
    (method : OrderPaymentMethod) (paid total : ℕ) {change : ℕ}
    → validate_payment method paid total ≡ ok change
    → (paid ≡ total + change) × (is_cash method || change == 0 ≡ true)
unfolding validate_payment
validate_payment_ok method paid total h = (ground (arith, h), ground (arith, h))

-- the sale that an insert leaves to be found
find_sale-insert_sale :
    (ctx : Context) (sale_id id : ℕ) (s : Sale) (db : Db) {db' : Db}
    → find_sale ctx id db ≡ none
    → of_order ctx id (sale_id, s) ≡ true
    → insert_sale sale_id s db ≡ ok db'
    → find_sale ctx id db' ≡ some (sale_id, s)
unfolding find_sale insert_sale
find_sale-insert_sale ctx sale_id id s db {db'} fresh own h =
    let clash =
      is_some (get sale_id db.sales)
      || is_some s.order_id && any (λ e. eq_option e.1.order_id s.order_id) db.sales
      || is_some s.idempotency_key && any (same_key s) db.sales in
    elim (Bool-cases clash) [
      | inl taken ↦ absurd (ground (arith, taken, h))
      | inr free ↦
          let is : record db { sales = put sale_id s db.sales } ≡ db' = ground (arith, free, h) in
          ap (λ d. find (of_order ctx id) d.sales) (sym is)
          ∙ find-put (of_order ctx id) sale_id s db.sales fresh (ground (arith, free)) own
    ]

-- The transaction of a payment, where no sale of the order was there before.
pay_order_tx_ok :
    (ctx : Context) (sale_id id : ℕ) (dto : FromOrderRequest) (db : Db) {r : ℕ × Db}
    → find_sale ctx id db ≡ none
    → pay_order_tx ctx sale_id id dto db ≡ ok r
    → (o : Order) × (claimed : Db) × (get id db.orders ≡ some o)
      × (claimed ≡ record db { orders = put id (settled ctx o o) db.orders })
      × (r.0 ≡ sale_id)
      × Sells ctx sale_id id dto o claimed r.1
unfolding pay_order_tx pay_order payment_raced find_sale
pay_order_tx_ok ctx sale_id id dto db {r} fresh h =
    elim (matching-cases (order_in_scope ctx) (get id db.orders)) [
      | inl missing ↦ absurd (ground (arith, missing, h))
      | inr (o, row, scope, matched) ↦ elim (Option-cases (claim_payment ctx id o db)) [
        | inl lost ↦ absurd (ground (arith, matched, lost, fresh, h))
        | inr (claimed, won) ↦
            let (o', row', can, e) = claim_payment_ok ctx id o db won in
            let same : o' ≡ o = cc (row, row') in
            let sold = rw (won, pay_order) at (rw (matched, pay_order_tx) at h) in
            elim (sell_order_ok ctx sale_id id dto o claimed sold) [
              | inl (s, found, _) ↦ absurd (cc (found, ap (λ d. find_sale ctx id d) e, fresh))
              | inr (new, sells) ↦ (
                o,
                claimed,
                row,
                e ∙ ap (λ x. record db { orders = put id (settled ctx o x) db.orders }) same,
                new,
                sells,
              )
            ]
      ]
    ]

own_sale :
    (ctx : Context) (id : ℕ) (o : Order) (method : OrderPaymentMethod) (machine : Option ℕ)
    (amount change sale_id : ℕ)
    → of_order ctx id (sale_id, sale_of ctx id o method machine amount change) ≡ true
own_sale ctx id o method machine amount change sale_id = ground arith

-- the sale of an order, with its money
pub record IsSaleOf (o : Order) (s : Sale) : Type 0 where
  pub items : s.items ≡ map sale_item o.items
  pub total : s.total_cents ≡ o.total_cents
  pub discount : s.discount_cents ≡ o.discount_cents
  pub paid : s.paid_cents ≡ s.total_cents + s.change_cents
  pub exact : is_cash s.payment_method || s.change_cents == 0 ≡ true

pub create_from_order_sells :
    (ctx : Context) (sale_id id : ℕ) (dto : FromOrderRequest) (db : Db) {r : SaleReply × Db}
    → find_sale ctx id db ≡ none
    → create_from_order ctx sale_id id dto db ≡ ok r
    → (o : Order) × (s : Sale) × (get id db.orders ≡ some o)
      × (r.0.sale_id ≡ sale_id)
      × (find_sale ctx id r.1 ≡ some (sale_id, s))
      × IsSaleOf o s
create_from_order_sells ctx sale_id id dto db {r} fresh h =
    elim (create_from_order_ok ctx sale_id id dto db h) [
      | inl (_, s, found, _) ↦ absurd (cc (found, fresh))
      | inr (_, paid_now) ↦
          let (o, claimed, row, e, new, sells) =
            pay_order_tx_ok ctx sale_id id dto db fresh paid_now in
          let method = or_default dto.payment_method o.payment_method in
          let amount = or_default dto.amount_cents o.total_cents in
          let s = sale_of ctx id o method sells.machine amount sells.change in
          let (covers, exact) = validate_payment_ok method amount o.total_cents sells.payable in
          (
            o,
            s,
            row,
            new,
            find_sale-insert_sale ctx sale_id id s claimed sells.none_before
                (own_sale ctx id o method sells.machine amount sells.change sale_id) sells.inserted,
            record { items = refl; total = refl; discount = refl; paid = covers; exact = exact },
          )
    ]

-- A second payment of an order, of any kind, finds the sale of the first and changes nothing.
pub create_from_order_twice :
    (ctx : Context) (sale_id sale_id' id : ℕ) (dto dto' : FromOrderRequest) (db : Db)
    {r : SaleReply × Db}
    → create_from_order ctx sale_id id dto db ≡ ok r
    → create_from_order ctx sale_id' id dto' r.1
      ≡ ok (record { idempotent = true; sale_id = r.0.sale_id }, r.1)
unfolding create_from_order
create_from_order_twice ctx sale_id sale_id' id dto dto' db {r} h =
    elim (create_from_order_ok ctx sale_id id dto db h) [
      | inl (same, s, found, is) ↦ ground (arith, ap (λ d. find_sale ctx id d) same ∙ found, is)
      | inr (fresh, _) ↦
          let (o, s, row, new, found, _) = create_from_order_sells ctx sale_id id dto db fresh h in
          ground (arith, found, new)
    ]
