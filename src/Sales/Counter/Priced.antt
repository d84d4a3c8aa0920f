-- ===== src/Sales/Counter/Priced.antt =====
-- The items of a counter sale are what was asked for, at the prices of the branch's products.
use next_stock_oficial.Prelude.{
  ℕ, zero, suc, ◌+◌, ◌-◌, ◌*◌, ◌/◌, ◌%◌, ◌^◌, ◌≤◌, ◌≡◌, refl, ◌∙◌, sym, ap, subst, Bool, true,
  false, not, ◌&&◌, some, List, [], ◌∷◌, All, ◌==◌, if◌then◌else◌, arith, inl, inr, Bool-cases,
  ==→≡,
}
use next_stock_oficial.Prelude.Result.{ok, err, >>=-eq-ok, ok-injective}
use next_stock_oficial.Prelude.Table.{Table, get, matching-cases}
use next_stock_oficial.Store.{Context, Product, in_scope}
use next_stock_oficial.Sales.Errors.{SaleError, quantity_not_whole, product_short}
use next_stock_oficial.Sales.Numbers.{Number, Doubles, normalize_quantity, is_integer, millionths}
use next_stock_oficial.Sales.Counter.{
  PricedItem, priced_item, is_short, price_product, price_item, load_priced_items,
}
use next_stock_oficial.Sales.Counter.Stock.{
  IsFlagged, units, units_in, millionths_of, flag_of, weighable,
}

normalize_quantity_ok :
    (v : Number) {w : Number} → normalize_quantity v ≡ ok w → (v ≡ w) × (v.decimals ≤ 6)
unfolding normalize_quantity
normalize_quantity_ok v h = (ground (arith, h), ground (arith, h))

-- two guards that a result has passed
passed :
    {A : Type 0} (a b : Bool) (e f : SaleError) (x : A) {y : A}
    → (if a then err e else if b then err f else ok x) ≡ ok y
    → (a ≡ false) × (b ≡ false) × (y ≡ x)
passed true b e f x h = cc
passed false true e f x h = cc
passed false false e f x h = (refl, refl, cc)

counted_of : (w i : Bool) → not w && not i ≡ false → w ≡ false → i ≡ true
counted_of w i h k = ground (arith, h, k)

-- What a priced item is of.
pub record IsPricedOf (doubles : Doubles) (ctx : Context) (products : Table Product)
    (e : ℕ × Number) (it : PricedItem) : Type 0 where
  pub product : Product
  pub row : get e.0 products ≡ some product
  pub scope : in_scope ctx product.tenant_id product.branch_id ≡ true
  pub is : it ≡ priced_item doubles e.0 e.1 product
  pub counted : product.is_weighable ≡ false → is_integer e.1 ≡ true
  pub precise : e.1.decimals ≤ 6
  pub enough : is_short product e.1 ≡ false

pub price_item_ok :
    (doubles : Doubles) (ctx : Context) (products : Table Product) (id : ℕ) (v : Number)
    {it : PricedItem}
    → price_item doubles ctx products id v ≡ ok it
    → IsPricedOf doubles ctx products (id, v) it
unfolding price_item price_product
price_item_ok doubles ctx products id v {it} h =
    elim (matching-cases (λ p. in_scope ctx p.tenant_id p.branch_id) (get id products)) [
      | inl missing ↦ absurd (ground (arith, missing, h))
      | inr (q, row, scope, matched) ↦
          let (w, normal, rest) =
            >>=-eq-ok (normalize_quantity v) _ (rw (matched, price_item) at h) in
          let (same, precise) = normalize_quantity_ok v normal in
          let (counted, enough, is) =
            passed (not q.is_weighable && not (is_integer w)) (is_short q w) quantity_not_whole
              product_short (priced_item doubles id w q) rest in
          record {
            product = q;
            row = row;
            scope = scope;
            is = is ∙ ap (λ x. priced_item doubles id x q) (sym same);
            counted = λ k. ap is_integer same ∙ counted_of q.is_weighable (is_integer w) counted k;
            precise = precise;
            enough = ap (is_short q) same ∙ enough;
          }
    ]

-- A whole number of units, in millionths: digits * 10 ^ (6 - d) where there are d decimals.
whole_millionths_at :
    (digits d : ℕ)
    → d ≤ 6
    → digits % 10 ^ d == 0 ≡ true
    → digits / 10 ^ d * 1000000 ≡ digits * 10 ^ (6 - d)
whole_millionths_at digits zero h k = omega arith
whole_millionths_at digits (suc zero) h k = ground (arith, k)
whole_millionths_at digits (suc (suc zero)) h k = ground (arith, k)
whole_millionths_at digits (suc (suc (suc zero))) h k = ground (arith, k)
whole_millionths_at digits (suc (suc (suc (suc zero)))) h k = ground (arith, k)
whole_millionths_at digits (suc (suc (suc (suc (suc zero))))) h k = ground (arith, k)
whole_millionths_at digits (suc (suc (suc (suc (suc (suc zero)))))) h k = ground (arith, k)
whole_millionths_at digits (suc (suc (suc (suc (suc (suc (suc d))))))) h k = absurd (omega arith)

-- of product `p`, the millionths that are asked for
abbrev pub asked : ℕ → Table Number → ℕ
asked p [] = 0
asked p ((id, v) ∷ rest) = (if id == p then millionths v else 0) + asked p rest

units_cons :
    (p : ℕ) (it : PricedItem) (others : List PricedItem) {items : List PricedItem} {n m : ℕ}
    → it ∷ others ≡ items
    → units_in p it * 1000000 ≡ n
    → units p others * 1000000 ≡ m
    → units p items * 1000000 ≡ n + m
units_cons p it others is h k = ground (arith, ap (units p) is, h, k)

module _ (doubles : Doubles) (ctx : Context) (products : Table Product) where
  priced_item-IsFlagged :
      (e : ℕ × Number) {it : PricedItem}
      → IsPricedOf doubles ctx products e it
      → IsFlagged products it
  priced_item-IsFlagged e of = rw (of.is, of.row) refl

  pub load_priced_items-IsFlagged :
      (requests : Table Number) {items : List PricedItem}
      → load_priced_items doubles ctx products requests ≡ ok items
      → All (IsFlagged products) items
  unfolding load_priced_items
  load_priced_items-IsFlagged [] {items} h = subst (All (IsFlagged products)) (ok-injective h) tt
  load_priced_items-IsFlagged ((id, v) ∷ rest) {items} h =
      let (it, h1, h2) = >>=-eq-ok (price_item doubles ctx products id v) _ h in
      let (others, h3, h4) = >>=-eq-ok (load_priced_items doubles ctx products rest) _ h2 in
      subst (All (IsFlagged products)) (ok-injective h4) (
        priced_item-IsFlagged (id, v) (price_item_ok doubles ctx products id v h1),
        load_priced_items-IsFlagged rest h3,
      )

  -- The items hold, of each product, the millionths that are asked for.
  pub millionths_of-load_priced_items :
      (p : ℕ) (requests : Table Number) {items : List PricedItem}
      → load_priced_items doubles ctx products requests ≡ ok items
      → millionths_of p items ≡ asked p requests
  unfolding load_priced_items
  millionths_of-load_priced_items p [] {items} h = ground (arith, h)
  millionths_of-load_priced_items p ((id, v) ∷ rest) {items} h =
      let (it, h1, h2) = >>=-eq-ok (price_item doubles ctx products id v) _ h in
      let (others, h3, h4) = >>=-eq-ok (load_priced_items doubles ctx products rest) _ h2 in
      let of = price_item_ok doubles ctx products id v h1 in
      ground (arith, h4, of.is, millionths_of-load_priced_items p rest h3)

  units-priced_item :
      (p : ℕ) (e : ℕ × Number) {it : PricedItem}
      → weighable p products ≡ false
      → IsPricedOf doubles ctx products e it
      → units_in p it * 1000000 ≡ (if e.0 == p then millionths e.1 else 0)
  units-priced_item p e {it} w of = elim (Bool-cases (e.0 == p)) [
    | inr apart ↦ ground (arith, of.is, apart)
    | inl same ↦
        let by_unit : of.product.is_weighable ≡ false =
          ap flag_of (sym of.row) ∙ ap (λ k. weighable k products) (==→≡ e.0 p same) ∙ w in
        let int = of.counted by_unit in
        ground (arith, of.is, same, int, whole_millionths_at e.1.digits e.1.decimals of.precise int)
  ]

  -- What is not sold by weight is sold in whole units.
  pub units-load_priced_items :
      (p : ℕ) (requests : Table Number) {items : List PricedItem}
      → weighable p products ≡ false
      → load_priced_items doubles ctx products requests ≡ ok items
      → units p items * 1000000 ≡ asked p requests
  unfolding load_priced_items
  units-load_priced_items p [] {items} w h = ground (arith, h)
  units-load_priced_items p ((id, v) ∷ rest) {items} w h =
      let (it, h1, h2) = >>=-eq-ok (price_item doubles ctx products id v) _ h in
      let (others, h3, h4) = >>=-eq-ok (load_priced_items doubles ctx products rest) _ h2 in
      let of = price_item_ok doubles ctx products id v h1 in
      units_cons p it others (ok-injective h4) (units-priced_item p (id, v) w of)
        (units-load_priced_items p rest w h3)
