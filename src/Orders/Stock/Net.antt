-- ===== src/Orders/Stock/Net.antt =====
-- What a list of deltas does to the stock of each product.
use next_stock_oficial.Prelude.{
  ℕ, ◌≡◌, refl, true, Option, none, some, List, [], ◌∷◌, ◌==◌, leb, if◌then◌else◌, arith, inl, inr,
  Bool-cases, Option-cases, ap, ◌∙◌,
}
use next_stock_oficial.Prelude.Int.{ℤ, pos, ◌+ℤ◌, int_laws, +ℤ_zero, +ℤ_assoc}
use next_stock_oficial.Prelude.Result.{ok, >>=-eq-ok}
use next_stock_oficial.Prelude.Table.{Table, get, put, get-put}
use next_stock_oficial.Store.{Context, Product}
use next_stock_oficial.Orders.Items.{StockDelta}
use next_stock_oficial.Orders.Stock.{
  can_take, insert_delta, sort_deltas, apply_delta, apply_deltas, apply_stock_delta,
}

abbrev pub quantity_of : Option Product → ℤ
quantity_of none = pos 0
quantity_of (some p) = p.quantity

-- the stock of product `p`
abbrev pub stock : ℕ → Table Product → ℤ
stock p products = quantity_of (get p products)

abbrev pub part : ℕ → StockDelta → ℤ
part p d = if d.product_id == p then d.delta else pos 0

-- the sum of the deltas of product `p`
abbrev pub net : ℕ → List StockDelta → ℤ
net p [] = pos 0
net p (d ∷ ds) = part p d +ℤ net p ds

net-insert_delta :
    (p : ℕ) (d : StockDelta) (es : List StockDelta)
    → net p (insert_delta d es) ≡ part p d +ℤ net p es
unfolding insert_delta
net-insert_delta p d [] = refl
net-insert_delta p d (e ∷ es) = elim (Bool-cases (leb d.product_id e.product_id)) [
  | inl before ↦ rw before
  | inr after ↦ rw (after, net-insert_delta p d es) (omega int_laws)
]

pub net-sort_deltas : (p : ℕ) (ds : List StockDelta) → net p (sort_deltas ds) ≡ net p ds
unfolding sort_deltas
net-sort_deltas p [] = refl
net-sort_deltas p (d ∷ ds) =
    net-insert_delta p d (sort_deltas ds) ∙ ap (λ t. part p d +ℤ t) (net-sort_deltas p ds)

-- What a delta that goes through has found and written.
pub apply_delta_ok :
    (ctx : Context) (d : StockDelta) (products : Table Product) {products' : Table Product}
    → apply_delta ctx d products ≡ ok products'
    → (q : Product) × (get d.product_id products ≡ some q)
      × (can_take ctx d.delta q ≡ true)
      × (products' ≡ put d.product_id (record q { quantity = q.quantity +ℤ d.delta }) products)
unfolding apply_delta
apply_delta_ok ctx d products h = elim (Option-cases (get d.product_id products)) [
  | inl missing ↦ absurd (ground arith)
  | inr (q, found) ↦ (q, found, ground arith, ground arith)
]

pub stock-apply_delta :
    (ctx : Context) (d : StockDelta) (p : ℕ) (products : Table Product) {products' : Table Product}
    → apply_delta ctx d products ≡ ok products'
    → stock p products' ≡ stock p products +ℤ part p d
stock-apply_delta ctx d p products h =
    let (q, found, _, e) = apply_delta_ok ctx d products h in
    ground (
      arith,
      found,
      e,
      get-put d.product_id p (record q { quantity = q.quantity +ℤ d.delta }) products,
      +ℤ_zero (stock p products),
    )

pub stock-apply_deltas :
    (ctx : Context) (ds : List StockDelta) (p : ℕ) (products : Table Product)
    {products' : Table Product}
    → apply_deltas ctx ds products ≡ ok products'
    → stock p products' ≡ stock p products +ℤ net p ds
unfolding apply_deltas
stock-apply_deltas ctx [] p products h = ground (arith, +ℤ_zero (stock p products))
stock-apply_deltas ctx (d ∷ ds) p products h =
    let (between, h1, h2) = >>=-eq-ok (apply_delta ctx d products) _ h in
    stock-apply_deltas ctx ds p between h2
    ∙ ap (λ t. t +ℤ net p ds) (stock-apply_delta ctx d p products h1)
    ∙ +ℤ_assoc (stock p products) (part p d) (net p ds)

-- Where all updates go through, the stock of each product has moved by the sum of its deltas.
pub stock-apply_stock_delta :
    (ctx : Context) (ds : List StockDelta) (p : ℕ) (products : Table Product)
    {products' : Table Product}
    → apply_stock_delta ctx ds products ≡ ok products'
    → stock p products' ≡ stock p products +ℤ net p ds
unfolding apply_stock_delta
stock-apply_stock_delta ctx ds p products h =
    stock-apply_deltas ctx (sort_deltas ds) p products h
    ∙ ap (λ t. stock p products +ℤ t) (net-sort_deltas p ds)
