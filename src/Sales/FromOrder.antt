-- ===== src/Sales/FromOrder.antt =====
-- `createFromOrder` of src/sales/sales.service.ts: paying an order makes one sale of it.
use next_stock_oficial.Prelude.{
  ℕ, ◌+◌, Bool, true, false, ◌&&◌, ◌||◌, Option, none, some, List, [], ◌∷◌, find, any, is_some,
  or_default, eq_option, map, ◌==◌, if◌then◌else◌,
}
use next_stock_oficial.Prelude.Result.{Result, ok, err, ◌>>=◌}
use next_stock_oficial.Prelude.Table.{get, put, matching}
use next_stock_oficial.Store.{
  Context, Db, Order, OrderItem, OrderPaymentMethod, Sale, SaleItem, SaleSource, SaleStatus,
  order_in_scope, sale_in_scope,
}
use next_stock_oficial.Orders.Status.{OrderStatus, status_eq, includes, sources_for}
use next_stock_oficial.Sales.Errors.{SaleError, order_not_found, status_changed, unique_violation}
use next_stock_oficial.Sales.Payment.{load_payment_machine, validate_payment}

-- CreateSaleFromOrderDto
pub record FromOrderRequest : Type 0 where
  pub payment_method : Option OrderPaymentMethod
  pub payment_machine_id : Option ℕ
  pub amount_cents : Option ℕ

-- the `sale` of the reply, by its id, and `idempotent`
pub record SaleReply : Type 0 where
  pub idempotent : Bool
  pub sale_id : ℕ

abbrev pub of_order : Context → ℕ → ℕ × Sale → Bool
of_order ctx order_id e = eq_option e.1.order_id (some order_id) && sale_in_scope ctx e.1

-- `sale.findFirst({ where: { orderId, tenantId, branchId, deletedAt: null } })`
unfoldable pub find_sale : Context → ℕ → Db → Option (ℕ × Sale)
find_sale ctx order_id db = find (of_order ctx order_id) db.sales

-- the same branch and key of a counter sale, where the new one has a key
abbrev pub same_key : Sale → ℕ × Sale → Bool
same_key sale e =
    e.1.tenant_id == sale.tenant_id
    && e.1.branch_id == sale.branch_id
    && eq_option e.1.idempotency_key sale.idempotency_key

-- `sale.create`, under the primary key and the unique indexes on the order's id and on the tenant,
-- the branch and the idempotency key; a null is in no conflict
unfoldable pub insert_sale : ℕ → Sale → Db → Result SaleError Db
insert_sale sale_id sale db =
    if is_some (get sale_id db.sales)
      || is_some sale.order_id && any (λ e. eq_option e.1.order_id sale.order_id) db.sales
      || is_some sale.idempotency_key && any (same_key sale) db.sales
    then err unique_violation
    else ok (record db { sales = put sale_id sale db.sales })

abbrev pub payment_target : OrderStatus → OrderStatus
payment_target s =
    if status_eq s OrderStatus.delivered then OrderStatus.delivered else OrderStatus.paid

abbrev pub payment_sources : OrderStatus → List OrderStatus
payment_sources s =
    if status_eq s OrderStatus.delivered
    then OrderStatus.delivered ∷ []
    else sources_for OrderStatus.paid

-- An item of an order has no decimal quantity: OrdersService writes none.
abbrev pub sale_item : OrderItem → SaleItem
sale_item item = record {
  product_id = some item.product_id;
  is_miscellaneous = false;
  product_name_snapshot = item.product_name_snapshot;
  sku_snapshot = item.sku_snapshot;
  barcode_snapshot = item.barcode_snapshot;
  quantity = item.quantity;
  quantity_decimal = none;
  unit_price_cents = item.unit_price_cents;
  total_price_cents = item.total_price_cents;
}

-- the sale that the claimed order becomes
abbrev pub sale_of : Context → ℕ → Order → OrderPaymentMethod → Option ℕ → ℕ → ℕ → Sale
sale_of ctx order_id order method machine amount_cents change_cents = record {
  tenant_id = ctx.tenant_id;
  branch_id = ctx.branch_id;
  order_id = some order_id;
  source = SaleSource.order;
  idempotency_key = none;
  seller_id = ctx.user_id;
  payment_method = method;
  payment_machine_id = machine;
  status = SaleStatus.paid;
  subtotal_cents = order.subtotal_cents;
  discount_type = none;
  discount_cents = order.discount_cents;
  total_cents = order.total_cents;
  paid_cents = amount_cents;
  change_cents = change_cents;
  canceled_at = none;
  canceled_by_id = none;
  cancellation_reason = none;
  deleted_at = none;
  items = map sale_item order.items;
}

-- The transaction after it has claimed the order.
unfoldable pub sell_order :
    Context → ℕ → ℕ → FromOrderRequest → Order → Db → Result SaleError (ℕ × Db)
unfolding load_payment_machine validate_payment insert_sale find_sale
sell_order ctx sale_id order_id dto order db = elim (find_sale ctx order_id db) [
  | some e ↦ ok (e.0, db)
  | none ↦ do
    let method = or_default dto.payment_method order.payment_method
    machine ← load_payment_machine ctx db.machines method dto.payment_machine_id
    let amount_cents = or_default dto.amount_cents order.total_cents
    change_cents ← validate_payment method amount_cents order.total_cents
    db' ←
        insert_sale sale_id (sale_of ctx order_id order method machine amount_cents change_cents) db
    ok (sale_id, db')
]

-- `order.updateMany`: the row that is claimed may have changed since `order` was read
unfoldable pub claim_payment : Context → ℕ → Order → Db → Option Db
claim_payment ctx order_id order db =
    elim (matching (λ o. order_in_scope ctx o && includes (payment_sources order.status) o.status)
      (get order_id db.orders)) [
        | none ↦ none
        | some o ↦ some (record db {
          orders =
              put order_id
                (record o {
                  status = payment_target order.status;
                  updated_by_id = some ctx.user_id;
                  version = o.version + 1;
                })
                db.orders;
        })
      ]

abbrev is_settled : Option Order → Bool
is_settled none = false
is_settled (some o) =
    status_eq o.status OrderStatus.paid || status_eq o.status OrderStatus.delivered

-- where the claim finds no row
unfoldable pub payment_raced : Context → ℕ → Db → Result SaleError (ℕ × Db)
unfolding find_sale
payment_raced ctx order_id db = elim (find_sale ctx order_id db) [
  | none ↦ err status_changed
  | some e ↦ if is_settled (get order_id db.orders) then ok (e.0, db) else err status_changed
]

-- The transaction from its claim on; `order` is what its first statement has read.
unfoldable pub pay_order :
    Context → ℕ → ℕ → FromOrderRequest → Order → Db → Result SaleError (ℕ × Db)
unfolding claim_payment sell_order payment_raced
pay_order ctx sale_id order_id dto order db = elim (claim_payment ctx order_id order db) [
  | none ↦ payment_raced ctx order_id db
  | some db' ↦ sell_order ctx sale_id order_id dto order db'
]

-- The whole transaction, with no other between its statements.
unfoldable pub pay_order_tx : Context → ℕ → ℕ → FromOrderRequest → Db → Result SaleError (ℕ × Db)
unfolding pay_order
pay_order_tx ctx sale_id order_id dto db =
    elim (matching (order_in_scope ctx) (get order_id db.orders)) [
      | none ↦ err order_not_found
      | some order ↦ pay_order ctx sale_id order_id dto order db
    ]

abbrev pub is_unique_violation : SaleError → Bool
is_unique_violation unique_violation = true
is_unique_violation _ = false

-- the `catch` of `createFromOrder`: after P2002 the winner's sale is returned
unfoldable pub recover_sale :
    Context → ℕ → Db → Result SaleError (ℕ × Db) → Result SaleError (SaleReply × Db)
unfolding find_sale
recover_sale ctx order_id db (ok (id, db')) = ok (record { idempotent = false; sale_id = id }, db')
recover_sale ctx order_id db (err e) =
    if is_unique_violation e
    then elim (find_sale ctx order_id db) [
      | none ↦ err e
      | some s ↦ ok (record { idempotent = true; sale_id = s.0 }, db)
    ]
    else err e

unfoldable pub create_from_order :
    Context → ℕ → ℕ → FromOrderRequest → Db → Result SaleError (SaleReply × Db)
unfolding pay_order_tx recover_sale find_sale
create_from_order ctx sale_id order_id dto db = elim (find_sale ctx order_id db) [
  | some s ↦ ok (record { idempotent = true; sale_id = s.0 }, db)
  | none ↦ recover_sale ctx order_id db (pay_order_tx ctx sale_id order_id dto db)
]
