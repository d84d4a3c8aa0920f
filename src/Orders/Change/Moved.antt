-- ===== src/Orders/Change/Moved.antt =====
-- `updateStatus`, `deliver`, `cancel` and `remove` change one order.
use next_stock_oficial.Prelude.{
  ℕ, ◌+◌, ◌≡◌, refl, Bool, true, Option, none, some, is_none, arith, inl, inr, Option-cases,
}
use next_stock_oficial.Prelude.Result.{ok, >>=-eq-ok}
use next_stock_oficial.Prelude.Table.{get, put, matching}
use next_stock_oficial.Store.{Context, Db, Order, order_in_scope}
use next_stock_oficial.Orders.Status.{OrderStatus, delivered, sources_for, can_transition}
use next_stock_oficial.Orders.Status.Laws.{includes-sources_for}
use next_stock_oficial.Orders.Units.{held}
use next_stock_oficial.Orders.Create.{find_scoped_order}
use next_stock_oficial.Orders.Lifecycle.{claimable, move_status, deliver, remove}
use next_stock_oficial.Orders.Change.{Change, unchanged, edited, Evolves, is_consistent}
use next_stock_oficial.Orders.Change.Products.{Restocks-same}

pub find_scoped_order_ok :
    (ctx : Context) (id : ℕ) (db : Db) {o : Order}
    → find_scoped_order ctx id db ≡ ok o
    → (get id db.orders ≡ some o) × (order_in_scope ctx o ≡ true)
unfolding find_scoped_order
find_scoped_order_ok ctx id db h = ground arith

pub matching-some {ℓ} :
    {A : Type ℓ} (test : A → Bool) (o : Option A) {a : A}
    → matching test o ≡ some a
    → (o ≡ some a) × (test a ≡ true)
matching-some test none h = cc
matching-some test (some b) h = ground arith

pub can_transition_self : (s : OrderStatus) → can_transition s s ≡ true
unfolding can_transition
can_transition_self s = ground arith

-- a claim for `next` finds an order that may move there
pub claimable-can_transition :
    (ctx : Context) (next : OrderStatus) (o : Order)
    → claimable ctx next o ≡ true
    → (order_in_scope ctx o ≡ true) × (can_transition o.status next ≡ true)
unfolding can_transition
claimable-can_transition ctx next o h = ground (arith, includes-sources_for o.status next)

-- an order that may still move has not given its stock back
claimable-consistent :
    (ctx : Context) (next : OrderStatus) (o : Order)
    → claimable ctx next o ≡ true
    → is_consistent o ≡ true
    → is_none o.stock_restored_at ≡ true
unfolding sources_for
claimable-consistent ctx next o h c = ground arith

-- A change of one order that holds what it held, and no change of the products.
pub in_place :
    (ctx : Context) (id : ℕ) (old new : Order) (db : Db) {db' : Db}
    → get id db.orders ≡ some old
    → order_in_scope ctx old ≡ true
    → Evolves old new
    → ((p : ℕ) → held p new ≡ held p old)
    → db'.orders ≡ put id new db.orders
    → db'.products ≡ db.products
    → Change ctx db db'
in_place ctx id old new db row scope evolves holds orders products =
    edited id old new row scope orders evolves (Restocks-same ctx _ _ products holds)

pub claimed_Evolves :
    (ctx : Context) (next : OrderStatus) (o : Order)
    → claimable ctx next o ≡ true
    → (order_in_scope ctx o ≡ true)
      × Evolves o
          (record o { status = next; updated_by_id = ctx.actor_id; version = o.version + 1 })
claimed_Evolves ctx next o can =
    let (scope, moves) = claimable-can_transition ctx next o can in
    (
      scope,
      record {
        moved = moves;
        consistent = λ c. rw (claimable-consistent ctx next o can c);
        version_le = omega arith;
        tenant = refl;
        branch = refl;
        priced = λ p. record { subtotal = p.subtotal; discount = p.discount; total = p.total };
      },
    )

pub move_status-Change :
    (ctx : Context) (id : ℕ) (next : OrderStatus) (db : Db) {db' : Db}
    → move_status ctx id next db ≡ ok db'
    → Change ctx db db'
unfolding move_status
move_status-Change ctx id next db {db'} h =
    let (current, h1, h2) = >>=-eq-ok (find_scoped_order ctx id db) _ h in
    elim (Option-cases (matching (claimable ctx next) (get id db.orders))) [
      | inl raced ↦ unchanged (ground (arith, raced, h2)) (ground (arith, raced, h2))
      | inr (o, found) ↦
          let (row, can) = matching-some (claimable ctx next) (get id db.orders) found in
          let (scope, evolves) = claimed_Evolves ctx next o can in
          in_place ctx id o
            (record o { status = next; updated_by_id = ctx.actor_id; version = o.version + 1 }) db
            row scope evolves (λ p. refl) (ground (arith, found, h2)) (ground (arith, found, h2))
    ]

pub remove-Change :
    (ctx : Context) (now id : ℕ) (db : Db) {db' : Db}
    → remove ctx now id db ≡ ok db'
    → Change ctx db db'
unfolding remove
remove-Change ctx now id db h =
    let (o, h1, h2) = >>=-eq-ok (find_scoped_order ctx id db) _ h in
    let (row, scope) = find_scoped_order_ok ctx id db h1 in
    in_place ctx id o (record o { deleted_at = some now; updated_by_id = ctx.actor_id }) db row
      scope
      (record {
        moved = can_transition_self o.status;
        consistent = λ c. c;
        version_le = omega arith;
        tenant = refl;
        branch = refl;
        priced = λ p. record { subtotal = p.subtotal; discount = p.discount; total = p.total };
      })
      (λ p. refl) (ground (arith, h2)) (ground (arith, h2))

pub deliver-Change :
    (ctx : Context) (now id : ℕ) (db : Db) {db' : Db}
    → deliver ctx now id db ≡ ok db'
    → Change ctx db db'
unfolding deliver
deliver-Change ctx now id db h =
    let (current, h1, h2) = >>=-eq-ok (find_scoped_order ctx id db) _ h in
    elim (Option-cases (matching (claimable ctx delivered) (get id db.orders))) [
      | inl raced ↦ unchanged (ground (arith, raced, h2)) (ground (arith, raced, h2))
      | inr (o, found) ↦
          let (row, can) = matching-some (claimable ctx delivered) (get id db.orders) found in
          let (scope, moves) = claimable-can_transition ctx delivered o can in
          in_place ctx id o
            (record o {
              status = delivered;
              delivered_at = some now;
              updated_by_id = ctx.actor_id;
              version = o.version + 1;
            })
            db row scope
            (record {
              moved = moves;
              consistent = λ c. rw (claimable-consistent ctx delivered o can c);
              version_le = omega arith;
              tenant = refl;
              branch = refl;
              priced =
                  λ p. record { subtotal = p.subtotal; discount = p.discount; total = p.total };
            })
            (λ p. refl) (ground (arith, found, h2)) (ground (arith, found, h2))
    ]
