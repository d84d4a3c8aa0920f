-- ===== src/Orders/Lifecycle.antt =====
-- `updateStatus`, `deliver`, `cancel` and `remove` of src/orders/orders.service.ts.
use next_stock_oficial.Prelude.{
  ℕ, ◌+◌, Bool, ◌&&◌, Option, none, some, map, is_none, is_some, if◌then◌else◌,
}
use next_stock_oficial.Prelude.Int.{pos}
use next_stock_oficial.Prelude.Result.{Result, ok, err, ◌>>=◌}
use next_stock_oficial.Prelude.Table.{get, put, matching}
use next_stock_oficial.Prelude.Text.{Text}
use next_stock_oficial.Store.{Context, Db, Order, OrderItem, AuditMetadata, order_in_scope}
use next_stock_oficial.Orders.Status.{
  OrderStatus, paid, canceled, delivered, status_eq, includes, sources_for,
}
use next_stock_oficial.Orders.Errors.{OrderError, status_changed, sale_linked, sale_failed}
use next_stock_oficial.Orders.Items.{StockDelta}
use next_stock_oficial.Orders.Stock.{apply_stock_delta}
use next_stock_oficial.Orders.Create.{clean, find_scoped_order}
use next_stock_oficial.Orders.Update.{log_event}
use next_stock_oficial.Sales.FromOrder.{find_sale, create_from_order}

-- The row that a claim for the status `next` finds.
abbrev pub claimable : Context → OrderStatus → Order → Bool
claimable ctx next o = order_in_scope ctx o && includes (sources_for next) o.status

-- The claim of a plain transition, and what its loser sees.
unfoldable pub move_status : Context → ℕ → OrderStatus → Db → Result OrderError Db
move_status ctx id next db = do
  current ← find_scoped_order ctx id db
  elim (matching (claimable ctx next) (get id db.orders)) [
    | none ↦ if status_eq current.status next then ok db else err status_changed
    | some o ↦ ok (record db {
      orders =
          put id (record o { status = next; updated_by_id = ctx.actor_id; version = o.version + 1 })
            db.orders;
    })
  ]

unfoldable pub deliver : Context → ℕ → ℕ → Db → Result OrderError Db
deliver ctx now id db = do
  current ← find_scoped_order ctx id db
  elim (matching (claimable ctx delivered) (get id db.orders)) [
    | none ↦ if status_eq current.status delivered then ok db else err status_changed
    | some o ↦ ok (
        log_event ctx id (AuditMetadata.order_delivered now) (record db {
          orders =
              put id
                (record o {
                  status = delivered;
                  delivered_at = some now;
                  updated_by_id = ctx.actor_id;
                  version = o.version + 1;
                })
                db.orders;
        }))
  ]

-- the items' quantities, to be added to the stock
abbrev pub given_back : OrderItem → StockDelta
given_back i = record { product_id = i.product_id; delta = pos i.quantity }

abbrev pub is_restored : Order → Bool
is_restored o = status_eq o.status canceled && is_some o.stock_restored_at

unfoldable pub cancel_claimed :
    Context → ℕ → ℕ → Option Text → Order → Order → Db → Result OrderError Db
cancel_claimed ctx now id reason existing o db = do
  products ← apply_stock_delta ctx (map given_back existing.items) db.products
  ok (
      log_event ctx id (AuditMetadata.order_admin_canceled now) (record db {
        products = products;
        orders =
            put id
              (record o {
                status = canceled;
                canceled_at = some now;
                cancellation_reason = clean reason;
                stock_restored_at = some now;
                updated_by_id = ctx.actor_id;
                version = o.version + 1;
              })
              db.orders;
      }))

-- The transaction after its first statement, which has read `existing`. Another transaction may
-- have committed in between.
unfoldable pub cancel_after_read : Context → ℕ → ℕ → Option Text → Order → Db → Result OrderError Db
unfolding cancel_claimed
cancel_after_read ctx now id reason existing db =
    if is_restored existing
    then ok db
    else if is_some (find_sale ctx id db)
    then err sale_linked
    else elim (matching (λ o. claimable ctx canceled o && is_none o.stock_restored_at)
        (get id db.orders)) [
          | some o ↦ cancel_claimed ctx now id reason existing o db
          | none ↦ do
            current ← find_scoped_order ctx id db
            if is_restored current then ok db else err status_changed
        ]

-- The whole transaction, with no other between its statements.
unfoldable pub cancel : Context → ℕ → ℕ → Option Text → Db → Result OrderError Db
unfolding cancel_after_read
cancel ctx now id reason db = do
  existing ← find_scoped_order ctx id db
  cancel_after_read ctx now id reason existing db

-- a soft delete: the row stays, and so does the stock that it holds
unfoldable pub remove : Context → ℕ → ℕ → Db → Result OrderError Db
remove ctx now id db = do
  order ← find_scoped_order ctx id db
  ok (record db {
    orders =
        put id (record order { deleted_at = some now; updated_by_id = ctx.actor_id }) db.orders;
  })

-- `createFromOrder(user, id, {})`, then the read of the order
unfoldable pub pay : Context → ℕ → ℕ → Db → Result OrderError Db
pay ctx sale_id id db =
    elim (create_from_order ctx sale_id id
      (record { payment_method = none; payment_machine_id = none; amount_cents = none }) db) [
        | err e ↦ err (sale_failed e)
        | ok r ↦ do order ← find_scoped_order ctx id r.1; ok r.1
      ]

-- `sale_id` is the key that a sale would get.
unfoldable pub update_status :
    Context → ℕ → ℕ → ℕ → OrderStatus → Option Text → Db → Result OrderError Db
unfolding move_status deliver cancel pay
update_status ctx now sale_id id canceled reason db = cancel ctx now id reason db
update_status ctx now sale_id id delivered reason db = deliver ctx now id db
update_status ctx now sale_id id paid reason db = pay ctx sale_id id db
update_status ctx now sale_id id next reason db = move_status ctx id next db
