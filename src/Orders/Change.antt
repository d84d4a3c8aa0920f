-- ===== src/Orders/Change.antt =====
-- What one request may do to the database: the common contract of the operations of
-- src/orders/orders.service.ts and of the payment of an order.
pub mod Products
pub mod Edited
pub mod Sold
pub mod Paid
pub mod Moved
pub mod Canceled
pub mod Created
use next_stock_oficial.Prelude.{ℕ, ◌+◌, ◌≤◌, ◌≡◌, true, Bool, ◌||◌, none, some, is_none}
use next_stock_oficial.Prelude.Int.{pos, ◌+ℤ◌}
use next_stock_oficial.Prelude.Table.{Table, get, put}
use next_stock_oficial.Store.{Context, Db, Order, Product, in_scope, order_in_scope}
use next_stock_oficial.Orders.Status.{pending, canceled, status_eq, can_transition}
use next_stock_oficial.Orders.Create.{subtotal_of}
use next_stock_oficial.Orders.Stock.Net.{stock}
use next_stock_oficial.Orders.Stock.Safety.{IsStocked, IsForeign}
use next_stock_oficial.Orders.Units.{held}

-- The money of an order adds up.
pub record IsPriced (o : Order) : Type 0 where
  pub subtotal : o.subtotal_cents ≡ subtotal_of o.items
  pub discount : o.discount_cents ≤ o.subtotal_cents
  pub total : o.total_cents + o.discount_cents ≡ o.subtotal_cents

-- Only a canceled order has given its stock back.
abbrev pub is_consistent : Order → Bool
is_consistent o = is_none o.stock_restored_at || status_eq o.status canceled

-- How a row of the orders may change.
pub record Evolves (old new : Order) : Type 0 where
  pub moved : can_transition old.status new.status ≡ true
  pub version_le : old.version ≤ new.version
  pub tenant : new.tenant_id ≡ old.tenant_id
  pub branch : new.branch_id ≡ old.branch_id
  pub consistent : is_consistent old ≡ true → is_consistent new ≡ true
  pub priced : IsPriced old → IsPriced new

-- How the products may change while an order goes from holding `before` to holding `after`.
pub record Restocks (ctx : Context) (before after : ℕ → ℕ) (old new : Table Product) : Type 0 where
  pub balance : (p : ℕ) → stock p new +ℤ pos (after p) ≡ stock p old +ℤ pos (before p)
  pub stocked : IsStocked old → IsStocked new
  pub foreign : (p : ℕ) → IsForeign ctx (get p old) → get p new ≡ get p old

-- The effect of a request of `ctx`: none, a new order, or a change of one order in its scope.
pub data Change (ctx : Context) (db db' : Db) : Type 0 where
  unchanged : db'.orders ≡ db.orders → db'.products ≡ db.products → Change ctx db db'
  added :
      (id : ℕ) (new : Order)
      → get id db.orders ≡ none
      → db'.orders ≡ put id new db.orders
      → new.status ≡ pending
      → in_scope ctx new.tenant_id new.branch_id ≡ true
      → is_consistent new ≡ true
      → IsPriced new
      → Restocks ctx (λ p. 0) (λ p. held p new) db.products db'.products
      → Change ctx db db'
  edited :
      (id : ℕ) (old new : Order)
      → get id db.orders ≡ some old
      → order_in_scope ctx old ≡ true
      → db'.orders ≡ put id new db.orders
      → Evolves old new
      → Restocks ctx (λ p. held p old) (λ p. held p new) db.products db'.products
      → Change ctx db db'
