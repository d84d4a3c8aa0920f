-- ===== src/Orders/Requests.antt =====
-- The order service as a whole: the requests that change the database (src/orders/
-- orders.controller.ts, and the payment of an order in src/sales/sales.controller.ts), and their
-- execution one after the other. A request that throws rolls its transaction back.
pub mod Effects
pub mod Invariants
pub mod Versions
pub mod Isolation
use next_stock_oficial.Prelude.{ℕ, Option, List, [], ◌∷◌}
use next_stock_oficial.Prelude.Result.{Result, ok, err, ◌>>=◌}
use next_stock_oficial.Prelude.Text.{Text}
use next_stock_oficial.Store.{Context, Db}
use next_stock_oficial.Orders.Status.{OrderStatus}
use next_stock_oficial.Orders.Errors.{OrderError, sale_failed}
use next_stock_oficial.Orders.Create
use next_stock_oficial.Orders.Create.{CreateOrder}
use next_stock_oficial.Orders.Update
use next_stock_oficial.Orders.Update.{UpdateOrder}
use next_stock_oficial.Orders.Lifecycle
use next_stock_oficial.Sales.Errors.{SaleError}
use next_stock_oficial.Sales.FromOrder.{FromOrderRequest, SaleReply, create_from_order}

-- A request has the time `now` where its code reads it, and the keys that new rows get.
pub data Request : Type 0 where
  create_order : (new_id : ℕ) → CreateOrder → Request
  edit_order : (id : ℕ) → UpdateOrder → Request
  set_status : (now sale_id id : ℕ) → OrderStatus → Option Text → Request
  deliver_order : (now id : ℕ) → Request
  cancel_order : (now id : ℕ) → Option Text → Request
  remove_order : (now id : ℕ) → Request
  sell_order : (sale_id id : ℕ) → FromOrderRequest → Request

abbrev pub sale_result : Result SaleError (SaleReply × Db) → Result OrderError Db
sale_result (ok r) = ok r.1
sale_result (err e) = err (sale_failed e)

module _ (to_lower : Text → Text) where
  unfoldable pub run : Context → Request → Db → Result OrderError Db
  run ctx (create_order new_id dto) db = Create.create to_lower ctx new_id dto db
  run ctx (edit_order id dto) db = Update.update to_lower ctx id dto db
  run ctx (set_status now sale_id id next reason) db =
      Lifecycle.update_status ctx now sale_id id next reason db
  run ctx (deliver_order now id) db = Lifecycle.deliver ctx now id db
  run ctx (cancel_order now id reason) db = Lifecycle.cancel ctx now id reason db
  run ctx (remove_order now id) db = Lifecycle.remove ctx now id db
  run ctx (sell_order sale_id id dto) db = sale_result (create_from_order ctx sale_id id dto db)

  -- the state after a request, which stays where the request throws
  abbrev pub after : Db → Result OrderError Db → Db
  after db (ok db') = db'
  after db (err e) = db

  unfoldable pub serve : List (Context × Request) → Db → Db
  unfolding run
  serve [] db = db
  serve ((ctx, r) ∷ rs) db = serve rs (after db (run ctx r db))
