-- ===== src/Orders/Stock.antt =====
-- `applyStockDelta` of src/orders/orders.service.ts: conditional updates of the product rows, in
-- the order of the products' ids.
pub mod Net
pub mod Diff
pub mod Safety
use next_stock_oficial.Prelude.{◌&&◌, Bool, true, none, some, List, [], ◌∷◌, leb, if◌then◌else◌}
use next_stock_oficial.Prelude.Int.{ℤ, pos, neg_part, ◌+ℤ◌, leb_ℤ, ltb_ℤ}
use next_stock_oficial.Prelude.Result.{Result, ok, err, ◌>>=◌}
use next_stock_oficial.Prelude.Table.{Table, get, put, matching}
use next_stock_oficial.Store.{Context, Product, in_scope}
use next_stock_oficial.Orders.Errors.{OrderError, stock_short}
use next_stock_oficial.Orders.Items.{StockDelta}

-- `sort((a, b) => a.productId.localeCompare(b.productId))`, which is stable
unfoldable pub insert_delta : StockDelta → List StockDelta → List StockDelta
insert_delta d [] = d ∷ []
insert_delta d (e ∷ es) =
    if leb d.product_id e.product_id then d ∷ e ∷ es else e ∷ insert_delta d es

unfoldable pub sort_deltas : List StockDelta → List StockDelta
unfolding insert_delta
sort_deltas [] = []
sort_deltas (d ∷ ds) = insert_delta d (sort_deltas ds)

-- `where: { id, tenantId, branchId, ...(delta < 0 ? { quantity: { gte: Math.abs(delta) } } : {}) }`
abbrev pub can_take : Context → ℤ → Product → Bool
can_take ctx delta p =
    in_scope ctx p.tenant_id p.branch_id
    && (if ltb_ℤ delta (pos 0) then leb_ℤ (pos (neg_part delta)) p.quantity else true)

unfoldable pub apply_delta :
    Context → StockDelta → Table Product → Result OrderError (Table Product)
apply_delta ctx d products = elim (matching (can_take ctx d.delta) (get d.product_id products)) [
  | none ↦ err stock_short
  | some p ↦ ok (put d.product_id (record p { quantity = p.quantity +ℤ d.delta }) products)
]

unfoldable pub apply_deltas :
    Context → List StockDelta → Table Product → Result OrderError (Table Product)
apply_deltas ctx [] products = ok products
apply_deltas ctx (d ∷ ds) products = do
  products' ← apply_delta ctx d products
  apply_deltas ctx ds products'

unfoldable pub apply_stock_delta :
    Context → List StockDelta → Table Product → Result OrderError (Table Product)
unfolding apply_deltas apply_delta sort_deltas
apply_stock_delta ctx deltas products = apply_deltas ctx (sort_deltas deltas) products
