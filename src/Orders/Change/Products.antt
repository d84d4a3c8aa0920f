-- ===== src/Orders/Change/Products.antt =====
-- The products under a change of stock that goes through.
use next_stock_oficial.Prelude.{
  ℕ, ◌+◌, ◌≡◌, refl, ◌∙◌, ap, ap₂, sym, subst, Bool, true, false, ◌==◌, List, [], ◌∷◌, map, arith,
  if◌then◌else◌,
}
use next_stock_oficial.Prelude.Int.{
  ℤ, pos, sub_ℕ, ◌+ℤ◌, +ℤ_assoc, int_laws, pos_part, neg_part, sub_ℕ_parts,
}
use next_stock_oficial.Prelude.Result.{ok}
use next_stock_oficial.Prelude.Table.{Table, get}
use next_stock_oficial.Store.{Context, Product, OrderItem}
use next_stock_oficial.Orders.Create.{taken}
use next_stock_oficial.Orders.Lifecycle.{given_back}
use next_stock_oficial.Orders.Items.{StockDelta, build_stock_diff}
use next_stock_oficial.Orders.Items.Quantities.{units}
use next_stock_oficial.Orders.Stock.{apply_stock_delta}
use next_stock_oficial.Orders.Stock.Net.{stock, net, stock-apply_stock_delta}
use next_stock_oficial.Orders.Stock.Diff.{net-build_stock_diff}
use next_stock_oficial.Orders.Stock.Safety.{
  IsStocked, apply_stock_delta-IsStocked, apply_stock_delta_foreign,
}
use next_stock_oficial.Orders.Change.{Restocks}

-- nothing moves
pub Restocks-same :
    (ctx : Context) (before after : ℕ → ℕ) {products products' : Table Product}
    → products' ≡ products
    → ((p : ℕ) → after p ≡ before p)
    → Restocks ctx before after products products'
Restocks-same ctx before after e f = record {
  balance = λ p. ap₂ (λ t n. stock p t +ℤ pos n) e (f p);
  stocked = λ s. subst IsStocked (sym e) s;
  foreign = λ p h. ap (get p) e;
}

-- deltas whose sums are what the order gives up, less what it takes
pub Restocks-apply_stock_delta :
    (ctx : Context) (ds : List StockDelta) (before after : ℕ → ℕ) (products : Table Product)
    {products' : Table Product}
    → ((p : ℕ) → net p ds +ℤ pos (after p) ≡ pos (before p))
    → apply_stock_delta ctx ds products ≡ ok products'
    → Restocks ctx before after products products'
Restocks-apply_stock_delta ctx ds before after products e h = record {
  balance = λ p.
      ap (λ t. t +ℤ pos (after p)) (stock-apply_stock_delta ctx ds p products h)
      ∙ +ℤ_assoc (stock p products) (net p ds) (pos (after p))
      ∙ ap (λ t. stock p products +ℤ t) (e p);
  stocked = λ s. apply_stock_delta-IsStocked ctx ds products s h;
  foreign = λ p f. apply_stock_delta_foreign ctx ds p products f h;
}

take_one :
    (here : Bool) (q rest : ℕ) (n : ℤ)
    → n +ℤ pos rest ≡ pos 0
    → (if here then sub_ℕ 0 q else pos 0) +ℤ n +ℤ pos ((if here then q else 0) + rest) ≡ pos 0
take_one true q rest n h = omega (int_laws, sub_ℕ_parts 0 q, ap pos_part h, ap neg_part h)
take_one false q rest n h = omega (int_laws, ap pos_part h, ap neg_part h)

pub net-taken :
    (p : ℕ) (items : List OrderItem) → net p (map taken items) +ℤ pos (units p items) ≡ pos 0
net-taken p [] = omega int_laws
net-taken p (i ∷ items) =
    take_one (i.product_id == p) i.quantity (units p items) (net p (map taken items))
      (net-taken p items)

pub net-given_back :
    (p : ℕ) (items : List OrderItem) → net p (map given_back items) ≡ pos (units p items)
unfolding ◌+ℤ◌
net-given_back p [] = refl
net-given_back p (i ∷ items) = ground (arith, net-given_back p items)

pub net-diff :
    (p : ℕ) (old new : List OrderItem)
    → net p (build_stock_diff old new) +ℤ pos (units p new) ≡ pos (units p old)
unfolding ◌+ℤ◌
net-diff p old new = rw net-build_stock_diff (ground arith)
