-- ===== src/Orders/Stock/Safety.antt =====
-- The guards of `applyStockDelta`: no product is oversold, and no other branch is touched.
use next_stock_oficial.Prelude.{
  ℕ, subst, ap, ◌∙◌, sym, ◌≡◌, true, false, Option, none, some, List, [], ◌∷◌, arith,
}
use next_stock_oficial.Prelude.Int.{ℤ, pos, ◌+ℤ◌, ◌≤ℤ◌}
use next_stock_oficial.Prelude.Result.{ok, >>=-eq-ok, ok-injective}
use next_stock_oficial.Prelude.Table.{Table, get, get-put}
use next_stock_oficial.Store.{Context, Product, in_scope}
use next_stock_oficial.Orders.Items.{StockDelta}
use next_stock_oficial.Orders.Stock.{
  can_take, sort_deltas, apply_delta, apply_deltas, apply_stock_delta,
}
use next_stock_oficial.Orders.Stock.Net.{stock, apply_delta_ok}

-- no product has a negative stock
pub record IsStocked (products : Table Product) : Type 0 where
  pub at : (p : ℕ) → pos 0 ≤ℤ stock p products

-- the test of the conditional update leaves room for the decrement
can_take_room :
    (ctx : Context) (delta : ℤ) (q : Product)
    → pos 0 ≤ℤ q.quantity
    → can_take ctx delta q ≡ true
    → pos 0 ≤ℤ q.quantity +ℤ delta
unfolding ◌+ℤ◌
can_take_room ctx delta q h can = ground arith

apply_delta-IsStocked :
    (ctx : Context) (d : StockDelta) (products : Table Product) {products' : Table Product}
    → IsStocked products
    → apply_delta ctx d products ≡ ok products'
    → IsStocked products'
apply_delta-IsStocked ctx d products s h =
    let (q, found, can, e) = apply_delta_ok ctx d products h in
    record {
      at = λ p. ground (
        arith,
        e,
        found,
        s.at p,
        s.at d.product_id,
        can_take_room ctx d.delta q,
        can,
        get-put d.product_id p (record q { quantity = q.quantity +ℤ d.delta }) products,
      );
    }

apply_deltas-IsStocked :
    (ctx : Context) (ds : List StockDelta) (products : Table Product) {products' : Table Product}
    → IsStocked products
    → apply_deltas ctx ds products ≡ ok products'
    → IsStocked products'
unfolding apply_deltas
apply_deltas-IsStocked ctx [] products s h = subst IsStocked (ok-injective h) s
apply_deltas-IsStocked ctx (d ∷ ds) products s h =
    let (between, h1, h2) = >>=-eq-ok (apply_delta ctx d products) _ h in
    apply_deltas-IsStocked ctx ds between (apply_delta-IsStocked ctx d products s h1) h2

-- A change of stock that goes through leaves no product with a negative stock.
pub apply_stock_delta-IsStocked :
    (ctx : Context) (ds : List StockDelta) (products : Table Product) {products' : Table Product}
    → IsStocked products
    → apply_stock_delta ctx ds products ≡ ok products'
    → IsStocked products'
unfolding apply_stock_delta
apply_stock_delta-IsStocked ctx ds products s h =
    apply_deltas-IsStocked ctx (sort_deltas ds) products s h

-- the row is not one of the branch
abbrev pub IsForeign : Context → Option Product → Type 0
IsForeign ctx none = Unit
IsForeign ctx (some q) = in_scope ctx q.tenant_id q.branch_id ≡ false

apply_delta_foreign :
    (ctx : Context) (d : StockDelta) (p : ℕ) (products : Table Product) {products' : Table Product}
    → IsForeign ctx (get p products)
    → apply_delta ctx d products ≡ ok products'
    → get p products' ≡ get p products
apply_delta_foreign ctx d p products f h =
    let (q, found, can, e) = apply_delta_ok ctx d products h in
    ground (
      arith,
      e,
      found,
      can,
      get-put d.product_id p (record q { quantity = q.quantity +ℤ d.delta }) products,
    )

apply_deltas_foreign :
    (ctx : Context) (ds : List StockDelta) (p : ℕ) (products : Table Product)
    {products' : Table Product}
    → IsForeign ctx (get p products)
    → apply_deltas ctx ds products ≡ ok products'
    → get p products' ≡ get p products
unfolding apply_deltas
apply_deltas_foreign ctx [] p products f h = ap (get p) (sym (ok-injective h))
apply_deltas_foreign ctx (d ∷ ds) p products f h =
    let (between, h1, h2) = >>=-eq-ok (apply_delta ctx d products) _ h in
    let same = apply_delta_foreign ctx d p products f h1 in
    apply_deltas_foreign ctx ds p between (subst (IsForeign ctx) (sym same) f) h2 ∙ same

-- A change of stock leaves the products of other tenants and branches as they are.
pub apply_stock_delta_foreign :
    (ctx : Context) (ds : List StockDelta) (p : ℕ) (products : Table Product)
    {products' : Table Product}
    → IsForeign ctx (get p products)
    → apply_stock_delta ctx ds products ≡ ok products'
    → get p products' ≡ get p products
unfolding apply_stock_delta
apply_stock_delta_foreign ctx ds p products f h =
    apply_deltas_foreign ctx (sort_deltas ds) p products f h
