-- ===== src/Sales/Counter/Enough.antt =====
-- A counter sale never sells more than is there.
use next_stock_oficial.Prelude.{
  ℕ, ◌≡◌, refl, ◌∙◌, sym, ap, Bool, true, false, ◌&&◌, Option, none, some, List, [], ◌∷◌, ◌==◌,
  if◌then◌else◌, arith, inl, inr, Bool-cases, Option-cases, ==→≡,
}
use next_stock_oficial.Prelude.Int.{ℤ, pos, ◌+ℤ◌, leb_ℤ}
use next_stock_oficial.Prelude.Result.{ok, >>=-eq-ok}
use next_stock_oficial.Prelude.Table.{Table, get, get-put}
use next_stock_oficial.Store.{Context, Product}
use next_stock_oficial.Sales.Counter.{
  PricedItem, micros, has_stock, decrement, sold_from, decrement_item, decrement_stock,
}
use next_stock_oficial.Sales.Counter.Stock.{decrement_item_ok, decrement_item_none}

abbrev pub has_none_missing : Option ℤ → Bool
has_none_missing none = true
has_none_missing (some d) = leb_ℤ (pos 0) d

-- neither of the two stocks of a product is negative
abbrev pub in_stock : Product → Bool
in_stock q = leb_ℤ (pos 0) q.quantity && has_none_missing q.quantity_decimal

decrement_fits : (s : ℤ) (n : ℕ) → leb_ℤ (pos n) s ≡ true → leb_ℤ (pos 0) (decrement s n) ≡ true
unfolding ◌+ℤ◌
decrement_fits s n h = ground arith

has_stock-sold :
    (ctx : Context) (it : PricedItem) (q : Product) (w : Bool)
    → it.is_weighable ≡ w
    → has_stock ctx it q ≡ true
    → in_stock q ≡ true
    → in_stock (sold_from w it.item.quantity (micros it) q) ≡ true
has_stock-sold ctx it q true is enough v = elim (Option-cases q.quantity_decimal) [
  | inl lacks ↦ absurd (ground (arith, is, lacks, enough))
  | inr (d, has) ↦ ground (arith, is, has, enough, v, decrement_fits d (micros it))
]
has_stock-sold ctx it q false is enough v =
    ground (arith, is, enough, v, decrement_fits q.quantity it.item.quantity)

in_stock-decrement_item :
    (ctx : Context) (it : PricedItem) (products : Table Product) (p : ℕ) {products' : Table Product}
    {q : Product}
    → decrement_item ctx it products ≡ ok products'
    → get p products ≡ some q
    → in_stock q ≡ true
    → (q' : Product) × (get p products' ≡ some q') × (in_stock q' ≡ true)
in_stock-decrement_item ctx it products p {products'} {q} done row v =
    elim (Option-cases it.item.product_id) [
      | inl lacks ↦ (q, ap (get p) (decrement_item_none ctx it products done lacks) ∙ row, v)
      | inr (id, is) ↦
          let (r, found, enough, wrote) = decrement_item_ok ctx it products done id is in
          let sold = sold_from it.is_weighable it.item.quantity (micros it) r in
          let after = ap (get p) wrote ∙ get-put id p sold products in
          elim (Bool-cases (id == p)) [
            | inl same ↦
                let is_it : q ≡ r = cc (row, ap (λ k. get k products) (==→≡ id p same), found) in
                (
                  sold,
                  after ∙ ap (λ b. if b then some sold else get p products) same,
                  has_stock-sold ctx it r it.is_weighable refl enough (ap in_stock (sym is_it) ∙ v),
                )
            | inr apart ↦
                (q, after ∙ ap (λ b. if b then some sold else get p products) apart ∙ row, v)
          ]
    ]

-- A product that is not short before the loop is not short after it.
pub in_stock-decrement_stock :
    (ctx : Context) (items : List PricedItem) (products : Table Product) (p : ℕ)
    {products' : Table Product} {q : Product}
    → decrement_stock ctx items products ≡ ok products'
    → get p products ≡ some q
    → in_stock q ≡ true
    → (q' : Product) × (get p products' ≡ some q') × (in_stock q' ≡ true)
unfolding decrement_stock
in_stock-decrement_stock ctx [] products p {products'} {q} done row v =
    (q, ground (arith, done, row), v)
in_stock-decrement_stock ctx (it ∷ items) products p done row v =
    let (between, h1, h2) = >>=-eq-ok (decrement_item ctx it products) _ done in
    let (q', row', v') = in_stock-decrement_item ctx it products p h1 row v in
    in_stock-decrement_stock ctx items between p h2 row' v'
