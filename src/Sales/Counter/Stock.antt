-- ===== src/Sales/Counter/Stock.antt =====
-- What a counter sale takes from the shelf.
use next_stock_oficial.Prelude.{
  ℕ, ◌+◌, ◌≡◌, refl, ◌∙◌, sym, ap, subst, Bool, true, false, Option, none, some, List, [], ◌∷◌, All,
  eq_option, ◌==◌, if◌then◌else◌, arith, inl, inr, Bool-cases, Option-cases, ==→≡,
}
use next_stock_oficial.Prelude.Int.{ℤ, ◌+ℤ◌}
use next_stock_oficial.Prelude.Result.{ok, >>=-eq-ok}
use next_stock_oficial.Prelude.Table.{Table, get, put, matching-cases, get-put}
use next_stock_oficial.Store.{Context, Product}
use next_stock_oficial.Sales.Counter.{
  PricedItem, micros, has_stock, decrement, sold_from, decrement_item, decrement_stock,
}

-- whether an item is of product `p`
abbrev pub is_of : ℕ → PricedItem → Bool
is_of p it = eq_option it.item.product_id (some p)

abbrev pub units_in : ℕ → PricedItem → ℕ
units_in p it = if is_of p it then it.item.quantity else 0

abbrev pub micros_in : ℕ → PricedItem → ℕ
micros_in p it = if is_of p it then micros it else 0

-- the units of product `p` that the items hold
abbrev pub units : ℕ → List PricedItem → ℕ
units p [] = 0
units p (it ∷ items) = units_in p it + units p items

-- the same in millionths
abbrev pub millionths_of : ℕ → List PricedItem → ℕ
millionths_of p [] = 0
millionths_of p (it ∷ items) = micros_in p it + millionths_of p items

abbrev pub flag_of : Option Product → Bool
flag_of none = false
flag_of (some q) = q.is_weighable

-- whether product `p` is sold by weight
abbrev pub weighable : ℕ → Table Product → Bool
weighable p products = flag_of (get p products)

abbrev IsFlaggedFor : Bool → Table Product → Option ℕ → Type 0
IsFlaggedFor flag products none = Unit
IsFlaggedFor flag products (some p) = weighable p products ≡ flag

-- an item that is counted the way its product is
abbrev pub IsFlagged : Table Product → PricedItem → Type 0
IsFlagged products it = IsFlaggedFor it.is_weighable products it.item.product_id

decrement_zero : (s : ℤ) → decrement s 0 ≡ s
unfolding ◌+ℤ◌
decrement_zero s = ground arith

decrement-decrement : (s : ℤ) (n m : ℕ) → decrement (decrement s n) m ≡ decrement s (n + m)
unfolding ◌+ℤ◌
decrement-decrement s n m = ground arith

sold_from_zero : (w : Bool) (q : Product) → sold_from w 0 0 q ≡ q
sold_from_zero true q = elim (Option-cases q.quantity_decimal) [
  | inl lacks ↦ ground (arith, lacks)
  | inr (d, has) ↦ ground (arith, has, decrement_zero d)
]
sold_from_zero false q = ground (arith, decrement_zero q.quantity)

sold_from-sold_from :
    (w : Bool) (n m n' m' : ℕ) (q : Product)
    → sold_from w n' m' (sold_from w n m q) ≡ sold_from w (n + n') (m + m') q
sold_from-sold_from true n m n' m' q = elim (Option-cases q.quantity_decimal) [
  | inl lacks ↦ ground (arith, lacks)
  | inr (d, has) ↦ ground (arith, has, decrement-decrement d m m')
]
sold_from-sold_from false n m n' m' q = ground (arith, decrement-decrement q.quantity n n')

keeps_flag : (w : Bool) (n m : ℕ) (q : Product) → (sold_from w n m q).is_weighable ≡ q.is_weighable
keeps_flag true n m q = refl
keeps_flag false n m q = refl

-- One round of the loop: the item's product has lost the item, and the others are as they were.
module _ (ctx : Context) (it : PricedItem) (products : Table Product) {products' : Table Product}
    (done : decrement_item ctx it products ≡ ok products') where
  pub decrement_item_ok :
      (id : ℕ)
      → it.item.product_id ≡ some id
      → (q : Product) × (get id products ≡ some q)
        × (has_stock ctx it q ≡ true)
        × (products' ≡ put id (sold_from it.is_weighable it.item.quantity (micros it) q) products)
  unfolding decrement_item
  decrement_item_ok id is = elim (matching-cases (has_stock ctx it) (get id products)) [
    | inl short ↦ absurd (ground (arith, is, short, done))
    | inr (q, row, enough, matched) ↦ (q, row, enough, ground (arith, is, matched, done))
  ]

  pub decrement_item_none : it.item.product_id ≡ none → products' ≡ products
  unfolding decrement_item
  decrement_item_none is = ground (arith, is, done)

  get-decrement_item :
      (p : ℕ) {q : Product}
      → IsFlagged products it
      → get p products ≡ some q
      → get p products' ≡ some (sold_from q.is_weighable (units_in p it) (micros_in p it) q)
  get-decrement_item p {q} flag row = elim (Option-cases it.item.product_id) [
    | inl lacks ↦
        ground (arith, lacks, decrement_item_none lacks, row, sold_from_zero q.is_weighable q)
    | inr (id, is) ↦
        let (r, found, _, wrote) = decrement_item_ok id is in
        let sold = sold_from it.is_weighable it.item.quantity (micros it) r in
        elim (Bool-cases (id == p)) [
          | inl same ↦
              let is_it : r ≡ q = cc (found, ap (λ k. get k products) (==→≡ id p same), row) in
              let by_weight : r.is_weighable ≡ it.is_weighable =
                ap flag_of (sym found) ∙ subst (IsFlaggedFor it.is_weighable products) is flag in
              let mine : is_of p it ≡ true = ap (λ o. eq_option o (some p)) is ∙ same in
              ap (get p) wrote
              ∙ get-put id p sold products
              ∙ ap (λ b. if b then some sold else get p products) same
              ∙ ap (λ w. some (sold_from w it.item.quantity (micros it) r)) (sym by_weight)
              ∙ ap
                  (λ b. some (
                    sold_from r.is_weighable (if b then it.item.quantity else 0)
                      (if b then micros it else 0) r))
                  (sym mine)
              ∙ ap (λ x. some (sold_from x.is_weighable (units_in p it) (micros_in p it) x)) is_it
          | inr apart ↦ ground (
            arith,
            wrote,
            is,
            apart,
            get-put id p sold products,
            row,
            sold_from_zero q.is_weighable q,
          )
        ]
  ]

  get-decrement_item-none : (p : ℕ) → get p products ≡ none → get p products' ≡ none
  get-decrement_item-none p row = elim (Option-cases it.item.product_id) [
    | inl lacks ↦ ground (arith, decrement_item_none lacks, row)
    | inr (id, is) ↦
        let (r, found, _, wrote) = decrement_item_ok id is in
        let sold = sold_from it.is_weighable it.item.quantity (micros it) r in
        ground (arith, wrote, get-put id p sold products, row, found, ==→≡ id p)
  ]

  weighable-decrement_item :
      (p : ℕ) → IsFlagged products it → weighable p products' ≡ weighable p products
  weighable-decrement_item p flag = elim (Option-cases (get p products)) [
    | inl lacks ↦ ap flag_of (get-decrement_item-none p lacks) ∙ ap flag_of (sym lacks)
    | inr (q, row) ↦
        ap flag_of (get-decrement_item p flag row)
        ∙ keeps_flag q.is_weighable (units_in p it) (micros_in p it) q
        ∙ ap flag_of (sym row)
  ]

flags_kept :
    (products products' : Table Product)
    → ((p : ℕ) → weighable p products' ≡ weighable p products)
    → (items : List PricedItem) → All (IsFlagged products) items
    → All (IsFlagged products') items
flags_kept products products' same [] flags = flags
flags_kept products products' same (it ∷ items) (flag, flags) =
    (kept it.is_weighable it.item.product_id flag, flags_kept products products' same items flags)
  where
    kept : (w : Bool) (id : Option ℕ) → IsFlaggedFor w products id → IsFlaggedFor w products' id
    kept w none h = h
    kept w (some p) h = same p ∙ h

-- Where the whole loop goes through, each product has lost exactly the items that are of it.
pub get-decrement_stock :
    (ctx : Context) (items : List PricedItem) (products : Table Product) (p : ℕ)
    {products' : Table Product} {q : Product}
    → All (IsFlagged products) items
    → decrement_stock ctx items products ≡ ok products'
    → get p products ≡ some q
    → get p products' ≡ some (sold_from q.is_weighable (units p items) (millionths_of p items) q)
unfolding decrement_stock
get-decrement_stock ctx [] products p {products'} {q} flags done row =
    ground (arith, done, row, sold_from_zero q.is_weighable q)
get-decrement_stock ctx (it ∷ items) products p {products'} {q} (flag, flags) done row =
    let (between, h1, h2) = >>=-eq-ok (decrement_item ctx it products) _ done in
    let q' = sold_from q.is_weighable (units_in p it) (micros_in p it) q in
    let w' = keeps_flag q.is_weighable (units_in p it) (micros_in p it) q in
    let kept = weighable-decrement_item ctx it products h1 in
    get-decrement_stock ctx items between p
      (flags_kept products between (λ k. kept k flag) items flags) h2
      (get-decrement_item ctx it products h1 p flag row)
    ∙ ap (λ w. some (sold_from w (units p items) (millionths_of p items) q')) w'
    ∙ ap some (
        sold_from-sold_from q.is_weighable (units_in p it) (micros_in p it) (units p items)
          (millionths_of p items) q)
