-- ===== src/Orders/Create.antt =====
-- `create` and the scoped read of src/orders/orders.service.ts. `to_lower` is JavaScript's
-- `toLowerCase`.
use next_stock_oficial.Prelude.{
  ℕ, ◌-◌, min, max, true, Option, none, some, List, map, sum_by, or_default, is_some, if◌then◌else◌,
}
use next_stock_oficial.Prelude.Int.{sub_ℕ}
use next_stock_oficial.Prelude.Result.{Result, ok, err, ◌>>=◌, ◌>>◌, throw_if}
use next_stock_oficial.Prelude.Table.{get, put, matching}
use next_stock_oficial.Prelude.Text.{Text, trim, is_empty}
use next_stock_oficial.Store.{Context, Db, Order, OrderItem, OrderPaymentMethod, order_in_scope}
use next_stock_oficial.Orders.Status.{OrderStatus}
use next_stock_oficial.Orders.Errors.{OrderError, order_not_found, duplicate_id}
use next_stock_oficial.Orders.Items.{ItemRequest, StockDelta, normalize_items, load_priced_items}
use next_stock_oficial.Orders.Stock.{apply_stock_delta}

-- CreateOrderDto
pub record CreateOrder : Type 0 where
  pub customer_name : Text
  pub customer_document : Option Text
  pub customer_phone : Option Text
  pub customer_email : Option Text
  pub payment_method : Option OrderPaymentMethod
  pub discount_cents : Option ℕ
  pub notes : Option Text
  pub items : List ItemRequest

-- `clean`: the trimmed text, or null where nothing is left
unfoldable pub clean : Option Text → Option Text
unfolding trim
clean none = none
clean (some s) = let t = trim s in if is_empty t then none else some t

unfoldable pub find_scoped_order : Context → ℕ → Db → Result OrderError Order
find_scoped_order ctx id db = elim (matching (order_in_scope ctx) (get id db.orders)) [
  | none ↦ err order_not_found
  | some order ↦ ok order
]

-- the sum of the items' totals
abbrev pub subtotal_of : List OrderItem → ℕ
subtotal_of items = sum_by (λ i. i.total_price_cents) items

abbrev pub taken : OrderItem → StockDelta
taken i = record { product_id = i.product_id; delta = sub_ℕ 0 i.quantity }

module _ (to_lower : Text → Text) where
  abbrev pub clean_email : Option Text → Option Text
  clean_email email = elim (clean email) [ none ↦ none | some s ↦ some (to_lower s) ]

  abbrev pub new_order : Context → CreateOrder → List OrderItem → Order
  new_order ctx dto priced =
      let subtotal_cents = subtotal_of priced in
      let discount_cents = min (or_default dto.discount_cents 0) subtotal_cents in
      record {
        version = 1;
        tenant_id = ctx.tenant_id;
        branch_id = ctx.branch_id;
        customer_name = trim dto.customer_name;
        customer_document = clean dto.customer_document;
        customer_phone = clean dto.customer_phone;
        customer_email = clean_email dto.customer_email;
        payment_method = or_default dto.payment_method OrderPaymentMethod.other;
        status = OrderStatus.pending;
        subtotal_cents = subtotal_cents;
        discount_cents = discount_cents;
        total_cents = max (subtotal_cents - discount_cents) 0;
        notes = clean dto.notes;
        delivered_at = none;
        canceled_at = none;
        cancellation_reason = none;
        created_by_id = ctx.actor_id;
        updated_by_id = ctx.actor_id;
        deleted_at = none;
        stock_restored_at = none;
        items = priced;
      }

  -- `new_id` is the key that the database gives to the row; it is a primary key.
  unfoldable pub create : Context → ℕ → CreateOrder → Db → Result OrderError Db
  create ctx new_id dto db = do
    priced ← load_priced_items ctx db.products true (normalize_items dto.items)
    throw_if (is_some (get new_id db.orders)) duplicate_id
    products ← apply_stock_delta ctx (map taken priced) db.products
    ok (record db { orders = put new_id (new_order ctx dto priced) db.orders; products = products })
