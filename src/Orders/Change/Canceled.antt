-- ===== src/Orders/Change/Canceled.antt =====
-- `cancel` gives the units of an order back to the shelf, at most once.
use next_stock_oficial.Prelude.{
  ℕ, ◌+◌, ◌≡◌, refl, ap, Bool, true, ◌&&◌, Option, none, some, map, is_some, is_none, if◌then◌else◌,
  arith, inl, inr, Bool-cases, Option-cases, ◌⊎◌, is_none-true, subst,
}
use next_stock_oficial.Prelude.Int.{+ℤ_zero}
use next_stock_oficial.Prelude.Result.{ok, err, ◌>>=◌, >>=-eq-ok}
use next_stock_oficial.Prelude.Table.{get, matching}
use next_stock_oficial.Prelude.Text.{Text}
use next_stock_oficial.Store.{Context, Db, Order}
use next_stock_oficial.Orders.Status.{canceled}
use next_stock_oficial.Orders.Stock.{apply_stock_delta}
use next_stock_oficial.Orders.Errors.{status_changed}
use next_stock_oficial.Orders.Create.{clean, find_scoped_order}
use next_stock_oficial.Orders.Lifecycle.{
  claimable, given_back, is_restored, cancel_claimed, cancel_after_read, cancel,
}
use next_stock_oficial.Orders.Change.{Change, unchanged, edited}
use next_stock_oficial.Orders.Change.Products.{Restocks-apply_stock_delta, net-given_back}
use next_stock_oficial.Orders.Change.Moved.{
  find_scoped_order_ok, matching-some, claimable-can_transition,
}
use next_stock_oficial.Sales.FromOrder.{find_sale}

-- A claimed cancellation gives back the units of the items that were read.
cancel_claimed-Change :
    (ctx : Context) (now id : ℕ) (reason : Option Text) (o : Order) (db : Db) {db' : Db}
    → get id db.orders ≡ some o
    → claimable ctx canceled o ≡ true
    → o.stock_restored_at ≡ none
    → cancel_claimed ctx now id reason o o db ≡ ok db'
    → Change ctx db db'
unfolding cancel_claimed
cancel_claimed-Change ctx now id reason o db row can fresh h =
    let (products, h1, h2) =
      >>=-eq-ok (apply_stock_delta ctx (map given_back o.items) db.products) _ h in
    let (scope, moves) = claimable-can_transition ctx canceled o can in
    let new = record o {
      status = canceled;
      canceled_at = some now;
      cancellation_reason = clean reason;
      stock_restored_at = some now;
      updated_by_id = ctx.actor_id;
      version = o.version + 1;
    } in
    edited id o new row scope (ground (arith, h2))
      (record {
        moved = moves;
        consistent = λ _. refl;
        version_le = omega arith;
        tenant = refl;
        branch = refl;
        priced = λ p. record { subtotal = p.subtotal; discount = p.discount; total = p.total };
      })
      (Restocks-apply_stock_delta ctx (map given_back o.items) _ _ db.products
        (λ p. rw (net-given_back, +ℤ_zero, fresh)) (ground (arith, h1, h2)))

-- the row that a cancellation may claim
abbrev pub cancelable : Context → Order → Bool
cancelable ctx o = claimable ctx canceled o && is_none o.stock_restored_at

cancelable_parts :
    (ctx : Context) (o : Order)
    → cancelable ctx o ≡ true
    → (claimable ctx canceled o ≡ true) × (o.stock_restored_at ≡ none)
cancelable_parts ctx o h = (ground arith, is_none-true o.stock_restored_at (ground arith))

-- where the claim finds no row
raced_ok :
    (ctx : Context) (id : ℕ) (db : Db) {db' : Db}
    → (do
      current ← find_scoped_order ctx id db
      if is_restored current then ok db else err status_changed)
      ≡ ok db'
    → (db' ≡ db) × ((c : Order) × (find_scoped_order ctx id db ≡ ok c) × (is_restored c ≡ true))
raced_ok ctx id db h =
    let (c, found, h2) = >>=-eq-ok (find_scoped_order ctx id db) _ h in
    (ground (arith, h2), (c, found, ground (arith, h2)))

-- A cancellation that returns has changed nothing, or has claimed the order.
pub cancel_after_read_ok :
    (ctx : Context) (now id : ℕ) (reason : Option Text) (existing : Order) (db : Db) {db' : Db}
    → cancel_after_read ctx now id reason existing db ≡ ok db'
    → ((db' ≡ db)
        × ((is_restored existing ≡ true)
            ⊎ ((c : Order) × (find_scoped_order ctx id db ≡ ok c) × (is_restored c ≡ true))))
      ⊎ ((o : Order) × (get id db.orders ≡ some o)
          × (cancelable ctx o ≡ true)
          × (cancel_claimed ctx now id reason existing o db ≡ ok db'))
unfolding cancel_after_read
cancel_after_read_ok ctx now id reason existing db h = elim (Bool-cases (is_restored existing)) [
  | inl restored ↦ inl (ground (arith, restored, h), inl restored)
  | inr live ↦ elim (Bool-cases (is_some (find_sale ctx id db))) [
    | inl sold ↦ absurd (ground (arith, live, sold, h))
    | inr unsold ↦ elim (Option-cases (matching (cancelable ctx) (get id db.orders))) [
      | inl raced ↦
          let again = raced_ok ctx id db (ground (arith, live, unsold, raced, h)) in
          inl (again.0, inr again.1)
      | inr (o, found) ↦
          let (row, can) = matching-some (cancelable ctx) (get id db.orders) found in
          inr (o, row, can, ground (arith, live, unsold, found, h))
    ]
  ]
]

pub cancel-Change :
    (ctx : Context) (now id : ℕ) (reason : Option Text) (db : Db) {db' : Db}
    → cancel ctx now id reason db ≡ ok db'
    → Change ctx db db'
unfolding cancel
cancel-Change ctx now id reason db {db'} h =
    let (existing, h1, h2) = >>=-eq-ok (find_scoped_order ctx id db) _ h in
    let (row, scope) = find_scoped_order_ok ctx id db h1 in
    elim (cancel_after_read_ok ctx now id reason existing db h2) [
      | inl (same, _) ↦ unchanged (ap (λ d. d.orders) same) (ap (λ d. d.products) same)
      | inr (o, row', can, claimed) ↦
          let (may, fresh) = cancelable_parts ctx o can in
          let e : existing ≡ o = cc (row, row') in
          cancel_claimed-Change ctx now id reason o db row' may fresh
            (subst (λ x. cancel_claimed ctx now id reason x o db ≡ ok db') e claimed)
    ]
