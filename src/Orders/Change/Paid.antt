-- ===== src/Orders/Change/Paid.antt =====
-- Paying an order claims its status and writes a sale; the stock stays.
use next_stock_oficial.Prelude.{
  ℕ, ◌+◌, ◌≡◌, refl, ◌∙◌, ap, subst, Bool, true, ◌&&◌, none, some, arith, inl, inr, Option-cases,
  ◌⊎◌, is_none,
}
use next_stock_oficial.Prelude.Result.{ok, >>=-eq-ok, ok-injective, Result-cases}
use next_stock_oficial.Prelude.Table.{get, put, matching}
use next_stock_oficial.Store.{Context, Db, Order, Sale, order_in_scope}
use next_stock_oficial.Orders.Status.{includes, sources_for, can_transition}
use next_stock_oficial.Orders.Create.{find_scoped_order}
use next_stock_oficial.Orders.Lifecycle.{pay}
use next_stock_oficial.Orders.Change.{Change, unchanged, Evolves, is_consistent}
use next_stock_oficial.Orders.Change.Moved.{in_place, matching-some}
use next_stock_oficial.Sales.FromOrder.{
  FromOrderRequest, SaleReply, find_sale, payment_target, payment_sources, claim_payment,
  payment_raced, pay_order, pay_order_tx, recover_sale, create_from_order,
}
use next_stock_oficial.Orders.Change.Sold.{sell_order_keeps}

payment_transition :
    (read row : Order)
    → includes (payment_sources read.status) row.status ≡ true
    → can_transition row.status (payment_target read.status) ≡ true
unfolding can_transition sources_for
payment_transition read row h = ground arith

payment_consistent :
    (read row : Order)
    → includes (payment_sources read.status) row.status ≡ true
    → is_consistent row ≡ true
    → is_none row.stock_restored_at ≡ true
unfolding sources_for
payment_consistent read row h c = ground arith

abbrev pub payable : Context → Order → Order → Bool
payable ctx read o = order_in_scope ctx o && includes (payment_sources read.status) o.status

-- the row that a payment writes
abbrev pub settled : Context → Order → Order → Order
settled ctx read o = record o {
  status = payment_target read.status;
  updated_by_id = some ctx.user_id;
  version = o.version + 1;
}

pub claim_payment_ok :
    (ctx : Context) (id : ℕ) (read : Order) (db : Db) {db' : Db}
    → claim_payment ctx id read db ≡ some db'
    → (o : Order) × (get id db.orders ≡ some o)
      × (payable ctx read o ≡ true)
      × (db' ≡ record db { orders = put id (settled ctx read o) db.orders })
unfolding claim_payment
claim_payment_ok ctx id read db h =
    elim (Option-cases (matching (payable ctx read) (get id db.orders))) [
      | inl lost ↦ absurd (ground (arith, lost, h))
      | inr (o, found) ↦
          let (row, can) = matching-some (payable ctx read) (get id db.orders) found in
          (o, row, can, ground (arith, found, h))
    ]

settled-Evolves :
    (ctx : Context) (read o : Order) → payable ctx read o ≡ true → Evolves o (settled ctx read o)
settled-Evolves ctx read o can = record {
  moved = payment_transition read o (ground arith);
  consistent = λ c. rw (payment_consistent read o (ground arith) c);
  version_le = omega arith;
  tenant = refl;
  branch = refl;
  priced = λ p. record { subtotal = p.subtotal; discount = p.discount; total = p.total };
}

payment_raced_keeps :
    (ctx : Context) (id : ℕ) (db : Db) {r : ℕ × Db} → payment_raced ctx id db ≡ ok r → r.1 ≡ db
unfolding payment_raced
payment_raced_keeps ctx id db h = ground arith

pub pay_order-Change :
    (ctx : Context) (sale_id id : ℕ) (dto : FromOrderRequest) (read : Order) (db : Db) {r : ℕ × Db}
    → pay_order ctx sale_id id dto read db ≡ ok r
    → Change ctx db r.1
unfolding pay_order
pay_order-Change ctx sale_id id dto read db {r} h =
    elim (Option-cases (claim_payment ctx id read db)) [
      | inl lost ↦
          let same = payment_raced_keeps ctx id db (rw (lost, pay_order) at h) in
          unchanged (ap (λ d. d.orders) same) (ap (λ d. d.products) same)
      | inr (claimed, won) ↦
          let (o, row, can, e) = claim_payment_ok ctx id read db won in
          let (orders, products) =
            sell_order_keeps ctx sale_id id dto read claimed (rw (won, pay_order) at h) in
          in_place ctx id o (settled ctx read o) db row (ground (arith, can))
            (settled-Evolves ctx read o can) (λ p. refl) (orders ∙ ap (λ d. d.orders) e)
            (products ∙ ap (λ d. d.products) e)
    ]

pay_order_tx-Change :
    (ctx : Context) (sale_id id : ℕ) (dto : FromOrderRequest) (db : Db) {r : ℕ × Db}
    → pay_order_tx ctx sale_id id dto db ≡ ok r
    → Change ctx db r.1
unfolding pay_order_tx
pay_order_tx-Change ctx sale_id id dto db h =
    elim (Option-cases (matching (order_in_scope ctx) (get id db.orders))) [
      | inl missing ↦ absurd (ground (arith, missing, h))
      | inr (read, found) ↦
          pay_order-Change ctx sale_id id dto read db (rw (found, pay_order_tx) at h)
    ]

-- A payment that returns has found a sale, or is that of its transaction.
pub create_from_order_ok :
    (ctx : Context) (sale_id id : ℕ) (dto : FromOrderRequest) (db : Db) {r : SaleReply × Db}
    → create_from_order ctx sale_id id dto db ≡ ok r
    → ((r.1 ≡ db) × (s : ℕ × Sale) × (find_sale ctx id db ≡ some s) × (r.0.sale_id ≡ s.0))
      ⊎ ((find_sale ctx id db ≡ none)
          × (pay_order_tx ctx sale_id id dto db ≡ ok (r.0.sale_id, r.1)))
unfolding create_from_order recover_sale
create_from_order_ok ctx sale_id id dto db {r} h = elim (Option-cases (find_sale ctx id db)) [
  | inr (s, found) ↦ inl (ground (arith, found, h), s, found, ground (arith, found, h))
  | inl fresh ↦ inr (fresh, ground (arith, fresh, h))
]

pub create_from_order-Change :
    (ctx : Context) (sale_id id : ℕ) (dto : FromOrderRequest) (db : Db) {r : SaleReply × Db}
    → create_from_order ctx sale_id id dto db ≡ ok r
    → Change ctx db r.1
create_from_order-Change ctx sale_id id dto db h =
    elim (create_from_order_ok ctx sale_id id dto db h) [
      | inl (same, _, _, _) ↦ unchanged (ap (λ d. d.orders) same) (ap (λ d. d.products) same)
      | inr (_, paid_now) ↦ pay_order_tx-Change ctx sale_id id dto db paid_now
    ]

-- the empty request of `updateStatus`
abbrev bare : FromOrderRequest
bare = record { payment_method = none; payment_machine_id = none; amount_cents = none }

pub pay-Change :
    (ctx : Context) (sale_id id : ℕ) (db : Db) {db' : Db}
    → pay ctx sale_id id db ≡ ok db'
    → Change ctx db db'
unfolding pay
pay-Change ctx sale_id id db {db'} h =
    elim (Result-cases (create_from_order ctx sale_id id bare db)) [
      | inr (e, failed) ↦ absurd (ground (arith, failed, h))
      | inl (r, sold) ↦
          let (o, h1, h2) = >>=-eq-ok (find_scoped_order ctx id r.1) _ (rw (sold, pay) at h) in
          subst (Change ctx db) (ok-injective h2)
            (create_from_order-Change ctx sale_id id bare db sold)
    ]
