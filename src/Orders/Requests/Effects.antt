-- ===== src/Orders/Requests/Effects.antt =====
-- Every request that succeeds is a `Change`.
use next_stock_oficial.Prelude.{ℕ, ◌≡◌, true, some, Option, inl, inr, arith, subst}
use next_stock_oficial.Prelude.Result.{ok, Result-cases, ok-injective}
use next_stock_oficial.Prelude.Table.{get}
use next_stock_oficial.Prelude.Text.{Text}
use next_stock_oficial.Store.{Context, Db, Order}
use next_stock_oficial.Orders.Status.{
  OrderStatus, pending, preparing, paid, delivered, canceled, refunded,
}
use next_stock_oficial.Orders.Lifecycle.{update_status}
use next_stock_oficial.Orders.Change.{Change, is_consistent}
use next_stock_oficial.Orders.Change.Created.{create-Change}
use next_stock_oficial.Orders.Change.Edited.{update-Change}
use next_stock_oficial.Orders.Change.Moved.{move_status-Change, deliver-Change, remove-Change}
use next_stock_oficial.Orders.Change.Canceled.{cancel-Change}
use next_stock_oficial.Orders.Change.Paid.{pay-Change, create_from_order-Change}
use next_stock_oficial.Orders.Requests.{
  Request, create_order, edit_order, set_status, deliver_order, cancel_order, remove_order,
  sell_order, run,
}
use next_stock_oficial.Sales.FromOrder.{create_from_order}

-- no order has given its stock back and is still open
pub record IsConsistent (db : Db) : Type 0 where
  pub at : (id : ℕ) (o : Order) → get id db.orders ≡ some o → is_consistent o ≡ true

update_status-Change :
    (ctx : Context) (now sale_id id : ℕ) (next : OrderStatus) (reason : Option Text) (db : Db)
    {db' : Db}
    → update_status ctx now sale_id id next reason db ≡ ok db'
    → Change ctx db db'
unfolding update_status
update_status-Change ctx now sale_id id pending reason db h = move_status-Change ctx id pending db h
update_status-Change ctx now sale_id id paid reason db h = pay-Change ctx sale_id id db h
update_status-Change ctx now sale_id id preparing reason db h =
    move_status-Change ctx id preparing db h
update_status-Change ctx now sale_id id delivered reason db h = deliver-Change ctx now id db h
update_status-Change ctx now sale_id id canceled reason db h = cancel-Change ctx now id reason db h
update_status-Change ctx now sale_id id refunded reason db h =
    move_status-Change ctx id refunded db h

module _ (to_lower : Text → Text) where
  pub run-Change :
      (ctx : Context) (r : Request) (db : Db) {db' : Db}
      → IsConsistent db
      → run to_lower ctx r db ≡ ok db'
      → Change ctx db db'
  unfolding run
  run-Change ctx (create_order id dto) db v h = create-Change to_lower ctx id dto db h
  run-Change ctx (edit_order id dto) db v h = update-Change to_lower ctx id dto db (v.at id) h
  run-Change ctx (set_status now sale_id id next reason) db v h =
      update_status-Change ctx now sale_id id next reason db h
  run-Change ctx (deliver_order now id) db v h = deliver-Change ctx now id db h
  run-Change ctx (cancel_order now id reason) db v h = cancel-Change ctx now id reason db h
  run-Change ctx (remove_order now id) db v h = remove-Change ctx now id db h
  run-Change ctx (sell_order sale_id id dto) db v h =
      elim (Result-cases (create_from_order ctx sale_id id dto db)) [
        | inr (e, failed) ↦ absurd (ground (arith, failed, h))
        | inl (s, sold) ↦
            subst (Change ctx db) (ok-injective (rw sold at h))
              (create_from_order-Change ctx sale_id id dto db sold)
      ]
