-- ===== src/Orders/Items/Quantities.antt =====
-- How many units of a product a list holds, through the grouping and the pricing of items.
use next_stock_oficial.Prelude.{
  ℕ, ◌+◌, ◌≡◌, refl, Bool, List, [], ◌∷◌, map, sum_by, or_default, ◌==◌, if◌then◌else◌, arith,
}
use next_stock_oficial.Prelude.Result.{ok, >>=-eq-ok}
use next_stock_oficial.Prelude.Table.{Table, get, put, get-put}
use next_stock_oficial.Store.{Context, Product, OrderItem}
use next_stock_oficial.Orders.Items.{
  ItemRequest, group_requests, group_items, normalize_items, request_of, price_item,
  load_priced_items,
}

-- the units of product `p` in a list of items
abbrev pub units : ℕ → List OrderItem → ℕ
units p = sum_by (λ i. if i.product_id == p then i.quantity else 0)

abbrev pub requested : ℕ → List ItemRequest → ℕ
requested p = sum_by (λ i. if i.product_id == p then i.quantity else 0)

abbrev pub quantity_at : ℕ → Table ℕ → ℕ
quantity_at p m = or_default (get p m) 0

-- all entries of a key; for the tables built here it is the one that `get` finds
abbrev total_at : ℕ → Table ℕ → ℕ
total_at p = sum_by (λ e. if e.0 == p then e.1 else 0)

total_at-put :
    (k q p : ℕ) (m : Table ℕ)
    → total_at p (put k (quantity_at k m + q) m) ≡ total_at p m + (if k == p then q else 0)
unfolding get put
total_at-put k q p [] = ground arith
total_at-put k q p (e ∷ m) = ground (arith, total_at-put k q p m)

total_at-group_requests :
    (p : ℕ) (items : List ItemRequest) (m : Table ℕ)
    → total_at p (group_requests items m) ≡ total_at p m + requested p items
unfolding group_requests
total_at-group_requests p [] m = omega arith
total_at-group_requests p (i ∷ items) m = omega (
  arith,
  total_at-group_requests p items (put i.product_id (quantity_at i.product_id m + i.quantity) m),
  total_at-put i.product_id i.quantity p m,
)

requested-map : (p : ℕ) (m : Table ℕ) → requested p (map request_of m) ≡ total_at p m
requested-map p [] = refl
requested-map p (e ∷ m) = omega (arith, requested-map p m)

-- Grouping by product keeps how much of each product is asked for.
pub requested-normalize_items :
    (p : ℕ) (items : List ItemRequest) → requested p (normalize_items items) ≡ requested p items
unfolding normalize_items
requested-normalize_items p items =
    omega (arith, requested-map p (group_requests items []), total_at-group_requests p items [])

pub quantity_at-group_items :
    (p : ℕ) (items : List OrderItem) (m : Table ℕ)
    → quantity_at p (group_items items m) ≡ quantity_at p m + units p items
unfolding group_items
quantity_at-group_items p [] m = omega arith
quantity_at-group_items p (i ∷ items) m =
    let q = quantity_at i.product_id m + i.quantity in
    grind
      (arith, quantity_at-group_items p items (put i.product_id q m), get-put i.product_id p q m)

-- A priced item keeps the product and the quantity that were asked for.
price_item-keeps :
    (ctx : Context) (products : Table Product) (v : Bool) (r : ItemRequest) {i : OrderItem}
    → price_item ctx products v r ≡ ok i
    → (i.product_id ≡ r.product_id) × (i.quantity ≡ r.quantity)
unfolding price_item
price_item-keeps ctx products v r h = ground arith

pub units-load_priced_items :
    (p : ℕ) (ctx : Context) (products : Table Product) (v : Bool) (requests : List ItemRequest)
    {items : List OrderItem}
    → load_priced_items ctx products v requests ≡ ok items
    → units p items ≡ requested p requests
unfolding load_priced_items
units-load_priced_items p ctx products v [] h = ground arith
units-load_priced_items p ctx products v (r ∷ requests) h =
    let (i, hi, h1) = >>=-eq-ok (price_item ctx products v r) _ h in
    let (rest, hr, h2) = >>=-eq-ok (load_priced_items ctx products v requests) _ h1 in
    ground (
      arith,
      price_item-keeps ctx products v r hi,
      units-load_priced_items p ctx products v requests hr,
    )
