-- ===== src/Orders/Requests/Isolation.antt =====
-- What a request leaves alone, and how an order evolves under requests.
use next_stock_oficial.Prelude.{
  ℕ, ◌≤◌, ◌≡◌, refl, ◌∙◌, ap, subst, Bool, true, some, inl, inr, arith, ◌==◌, not, Bool-cases,
}
use next_stock_oficial.Prelude.Result.{ok}
use next_stock_oficial.Prelude.Table.{get, get-put}
use next_stock_oficial.Prelude.Text.{Text}
use next_stock_oficial.Store.{Context, Db, Order, in_scope}
use next_stock_oficial.Orders.Status.{can_transition}
use next_stock_oficial.Orders.Stock.Safety.{IsForeign}
use next_stock_oficial.Orders.Change.{Change, unchanged, added, edited}
use next_stock_oficial.Orders.Change.Moved.{can_transition_self}
use next_stock_oficial.Orders.Requests.{Request, run}
use next_stock_oficial.Orders.Requests.Effects.{IsConsistent, run-Change}

-- an order is not one of the branch
abbrev pub foreign_order : Context → Order → Bool
foreign_order ctx o = not (in_scope ctx o.tenant_id o.branch_id)

Change-foreign_order :
    (ctx : Context) (db db' : Db) (j : ℕ) (o : Order)
    → Change ctx db db'
    → get j db.orders ≡ some o
    → foreign_order ctx o ≡ true
    → get j db'.orders ≡ some o
Change-foreign_order ctx db db' j o (unchanged orders products) row f = ap (get j) orders ∙ row
Change-foreign_order ctx db db' j o (added id new fresh orders status scope c p r) row f =
    ground (arith, orders, row, fresh, get-put id j new db.orders)
Change-foreign_order ctx db db' j o (edited id old new found scope orders e r) row f =
    ground (arith, orders, row, found, scope, f, get-put id j new db.orders)

Change-foreign_product :
    {ctx : Context} {db db' : Db} (p : ℕ)
    → Change ctx db db'
    → IsForeign ctx (get p db.products)
    → get p db'.products ≡ get p db.products
Change-foreign_product p (unchanged orders products) f = ap (get p) products
Change-foreign_product p (added id new fresh orders status scope c priced r) f = r.foreign p f
Change-foreign_product p (edited id old new found scope orders e r) f = r.foreign p f

-- What an order keeps: its branch, and a status and a version that only go on.
pub record Follows (o o' : Order) : Type 0 where
  pub moved : can_transition o.status o'.status ≡ true
  pub version_le : o.version ≤ o'.version
  pub tenant : o'.tenant_id ≡ o.tenant_id
  pub branch : o'.branch_id ≡ o.branch_id

Follows-refl : (o : Order) → Follows o o
Follows-refl o = record {
  moved = can_transition_self o.status;
  version_le = omega arith;
  tenant = refl;
  branch = refl;
}

Change-Follows :
    (ctx : Context) (db db' : Db) (j : ℕ) (o : Order)
    → Change ctx db db'
    → get j db.orders ≡ some o
    → (o' : Order) × (get j db'.orders ≡ some o') × Follows o o'
Change-Follows ctx db db' j o (unchanged orders products) row =
    (o, ap (get j) orders ∙ row, Follows-refl o)
Change-Follows ctx db db' j o (added id new fresh orders status scope c p r) row =
    (o, ground (arith, orders, row, fresh, get-put id j new db.orders), Follows-refl o)
Change-Follows ctx db db' j o (edited id old new found scope orders e r) row =
    elim (Bool-cases (id == j)) [
      | inr other ↦
          (o, ground (arith, orders, row, other, get-put id j new db.orders), Follows-refl o)
      | inl same ↦
          let is : old ≡ o = ground (arith, same, found, row) in
          (
            new,
            ground (arith, orders, same, get-put id j new db.orders),
            subst (λ x. Follows x new) is
                (record {
                  moved = e.moved;
                  version_le = e.version_le;
                  tenant = e.tenant;
                  branch = e.branch;
                }),
          )
    ]

module _ (to_lower : Text → Text) where
  -- A request that goes through leaves every order and every product of another branch as it is,
  -- where no order has given its stock back and is still open.
  pub run_isolated :
      (ctx : Context) (r : Request) (db : Db) {db' : Db} (j : ℕ) (o : Order) (p : ℕ)
      → IsConsistent db
      → run to_lower ctx r db ≡ ok db'
      → get j db.orders ≡ some o
      → foreign_order ctx o ≡ true
      → IsForeign ctx (get p db.products)
      → (get j db'.orders ≡ some o) × (get p db'.products ≡ get p db.products)
  run_isolated ctx r db {db'} j o p v h row f g =
      let c = run-Change to_lower ctx r db v h in
      (Change-foreign_order ctx db db' j o c row f, Change-foreign_product p c g)

  pub run-Follows :
      (ctx : Context) (r : Request) (db : Db) {db' : Db} (j : ℕ) (o : Order)
      → IsConsistent db
      → run to_lower ctx r db ≡ ok db'
      → get j db.orders ≡ some o
      → (o' : Order) × (get j db'.orders ≡ some o') × Follows o o'
  run-Follows ctx r db {db'} j o v h =
      Change-Follows ctx db db' j o (run-Change to_lower ctx r db v h)
