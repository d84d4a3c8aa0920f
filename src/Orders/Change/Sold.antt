-- ===== src/Orders/Change/Sold.antt =====
-- The sale that a payment writes, once the order is claimed.
use next_stock_oficial.Prelude.{
  ℕ, ◌≡◌, sym, ap, subst, Option, none, some, arith, inl, inr, Option-cases, ◌⊎◌, or_default,
}
use next_stock_oficial.Prelude.Result.{ok, >>=-eq-ok, ok-injective}
use next_stock_oficial.Store.{Context, Db, Order, Sale}
use next_stock_oficial.Sales.FromOrder.{
  FromOrderRequest, find_sale, insert_sale, sell_order, sale_of,
}
use next_stock_oficial.Sales.Payment.{load_payment_machine, validate_payment}

insert_sale_keeps :
    (id : ℕ) (sale : Sale) (db : Db) {db' : Db}
    → insert_sale id sale db ≡ ok db'
    → (db'.orders ≡ db.orders) × (db'.products ≡ db.products)
unfolding insert_sale
insert_sale_keeps id sale db h = ground arith

-- The sale that is made of a claimed order, where there is none yet.
pub record Sells (ctx : Context) (sale_id id : ℕ) (dto : FromOrderRequest) (order : Order)
    (db db' : Db) : Type 0 where
  pub machine : Option ℕ
  pub change : ℕ
  pub none_before : find_sale ctx id db ≡ none
  pub payable :
      validate_payment
        (or_default dto.payment_method order.payment_method)
        (or_default dto.amount_cents order.total_cents)
        order.total_cents
      ≡ ok change
  pub inserted :
      insert_sale sale_id
        (sale_of ctx id order
          (or_default dto.payment_method order.payment_method)
          machine
          (or_default dto.amount_cents order.total_cents)
          change)
        db
      ≡ ok db'

pub sell_order_ok :
    (ctx : Context) (sale_id id : ℕ) (dto : FromOrderRequest) (order : Order) (db : Db) {r : ℕ × Db}
    → sell_order ctx sale_id id dto order db ≡ ok r
    → ((e : ℕ × Sale) × (find_sale ctx id db ≡ some e) × (r ≡ (e.0, db)))
      ⊎ ((r.0 ≡ sale_id) × Sells ctx sale_id id dto order db r.1)
unfolding sell_order
sell_order_ok ctx sale_id id dto order db {r} h = elim (Option-cases (find_sale ctx id db)) [
  | inr (e, found) ↦ inl (e, found, sym (ok-injective (rw (found, sell_order) at h)))
  | inl fresh ↦
      let method = or_default dto.payment_method order.payment_method in
      let amount = or_default dto.amount_cents order.total_cents in
      let (machine, h1, h2) =
        >>=-eq-ok (load_payment_machine ctx db.machines method dto.payment_machine_id) _
          (rw (fresh, sell_order) at h) in
      let (change, h3, h4) = >>=-eq-ok (validate_payment method amount order.total_cents) _ h2 in
      let made = sale_of ctx id order method machine amount change in
      let (db', h5, h6) = >>=-eq-ok (insert_sale sale_id made db) _ h4 in
      let e = ok-injective h6 in
      inr (
        ap (λ x. x.0) (sym e),
        record {
          machine = machine;
          change = change;
          none_before = fresh;
          payable = h3;
          inserted = subst (λ d. insert_sale sale_id made db ≡ ok d) (ap (λ x. x.1) e) h5;
        },
      )
]

-- After the claim only the sales change.
pub sell_order_keeps :
    (ctx : Context) (sale_id id : ℕ) (dto : FromOrderRequest) (order : Order) (db : Db) {r : ℕ × Db}
    → sell_order ctx sale_id id dto order db ≡ ok r
    → (r.1.orders ≡ db.orders) × (r.1.products ≡ db.products)
sell_order_keeps ctx sale_id id dto order db h =
    elim (sell_order_ok ctx sale_id id dto order db h) [
      | inl (e, found, same) ↦ (ap (λ x. x.1.orders) same, ap (λ x. x.1.products) same)
      | inr (_, sold) ↦
          insert_sale_keeps sale_id
            (sale_of ctx id order (or_default dto.payment_method order.payment_method) sold.machine
              (or_default dto.amount_cents order.total_cents) sold.change)
            db sold.inserted
    ]
