-- ===== src/Orders/Items.antt =====
-- The item lists of src/orders/orders.service.ts: grouping by product, pricing, and the change of
-- stock that an edit makes.
pub mod Quantities
use next_stock_oficial.Prelude.{
  ℕ, ◌+◌, ◌*◌, Bool, not, ◌&&◌, none, some, List, [], ◌∷◌, ◌++◌, map, any, select, or_default, ◌==◌,
  if◌then◌else◌,
}
use next_stock_oficial.Prelude.Int.{ℤ, pos, sub_ℕ, ltb_ℤ, eq_ℤ}
use next_stock_oficial.Prelude.Result.{Result, ok, err, ◌>>=◌}
use next_stock_oficial.Prelude.Table.{Table, get, put, matching}
use next_stock_oficial.Store.{Context, Product, OrderItem, in_scope}
use next_stock_oficial.Orders.Errors.{OrderError, product_not_in_branch, product_short}

-- CreateOrderItemDto
pub record ItemRequest : Type 0 where
  pub product_id : ℕ
  pub quantity : ℕ

-- A `Map<string, number>`, in insertion order, to which quantities are added:
-- `map.set(key, (map.get(key) ?? 0) + quantity)`.
unfoldable pub add_quantity : ℕ → ℕ → Table ℕ → Table ℕ
add_quantity key quantity m = put key (or_default (get key m) 0 + quantity) m

unfoldable pub group_requests : List ItemRequest → Table ℕ → Table ℕ
unfolding add_quantity
group_requests [] m = m
group_requests (item ∷ items) m =
    group_requests items (add_quantity item.product_id item.quantity m)

abbrev request_of : ℕ × ℕ → ItemRequest
request_of e = record { product_id = e.0; quantity = e.1 }

unfoldable pub normalize_items : List ItemRequest → List ItemRequest
unfolding group_requests
normalize_items items = map request_of (group_requests items [])

abbrev priced_item : ItemRequest → Product → OrderItem
priced_item item product = record {
  product_id = item.product_id;
  product_name_snapshot = product.name;
  sku_snapshot = product.sku;
  barcode_snapshot = product.barcode;
  quantity = item.quantity;
  unit_price_cents = product.sale_price_cents;
  total_price_cents = product.sale_price_cents * item.quantity;
}

-- one round of the `items.map` in `loadPricedItems`
unfoldable pub price_item :
    Context → Table Product → Bool → ItemRequest → Result OrderError OrderItem
price_item ctx products validate_final_quantity item =
    elim (matching (λ p. in_scope ctx p.tenant_id p.branch_id) (get item.product_id products)) [
      | none ↦ err product_not_in_branch
      | some product ↦
          if validate_final_quantity && ltb_ℤ product.quantity (pos item.quantity)
          then err product_short
          else ok (priced_item item product)
    ]

unfoldable pub load_priced_items :
    Context → Table Product → Bool → List ItemRequest → Result OrderError (List OrderItem)
unfolding price_item
load_priced_items ctx products validate [] = ok []
load_priced_items ctx products validate (item ∷ items) = do
  priced ← price_item ctx products validate item
  rest ← load_priced_items ctx products validate items
  ok (priced ∷ rest)

-- a change of one product's stock
pub record StockDelta : Type 0 where
  pub product_id : ℕ
  pub delta : ℤ

unfoldable pub group_items : List OrderItem → Table ℕ → Table ℕ
unfolding add_quantity
group_items [] m = m
group_items (item ∷ items) m = group_items items (add_quantity item.product_id item.quantity m)

-- `new Set([...])`: each key where it stands first
abbrev pub unique : List ℕ → List ℕ → List ℕ
unique seen [] = []
unique seen (k ∷ ks) =
    let fresh = k ∷ unique (k ∷ seen) ks in
    let known = unique seen ks in if any (λ s. s == k) seen then known else fresh

abbrev pub keys : Table ℕ → List ℕ
keys m = map (λ e. e.0) m

abbrev pub delta_of : Table ℕ → Table ℕ → ℕ → StockDelta
delta_of current next k = record {
  product_id = k;
  delta = sub_ℕ (or_default (get k current) 0) (or_default (get k next) 0);
}

unfoldable pub build_stock_diff : List OrderItem → List OrderItem → List StockDelta
unfolding group_items
build_stock_diff current_items next_items =
    let current = group_items current_items [] in
    let next = group_items next_items [] in
    select (λ d. not (eq_ℤ d.delta (pos 0)))
      (map (delta_of current next) (unique [] (keys current ++ keys next)))
