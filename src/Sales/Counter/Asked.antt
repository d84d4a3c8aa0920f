-- ===== src/Sales/Counter/Asked.antt =====
-- What the client of a counter sale asks for, by its own list, and what a sale of it leaves of a
-- product.
use next_stock_oficial.Prelude.{
  ℕ, ◌*◌, ◌≡◌, refl, ◌∙◌, sym, ap, Bool, true, false, Option, none, some, List, [], ◌∷◌, ◌==◌,
  if◌then◌else◌, arith, inl, inr, Bool-cases, ==→≡,
}
use next_stock_oficial.Prelude.Int.{ℤ, pos, ◌+ℤ◌}
use next_stock_oficial.Prelude.Table.{Table, get, get-put}
use next_stock_oficial.Prelude.Table.Distinct.{distinct, distinct-put}
use next_stock_oficial.Store.{Product}
use next_stock_oficial.Sales.Numbers.{Number, Doubles, millionths}
use next_stock_oficial.Sales.Counter.{
  SaleItemRequest, add_request, group_items, normalize_items, decrement, sold_from,
}
use next_stock_oficial.Sales.Counter.Priced.{asked}

-- the quantities of product `p` in a list of requests
abbrev pub quantities_of : ℕ → List SaleItemRequest → List Number
quantities_of p [] = []
quantities_of p (item ∷ items) =
    if item.product_id == p then item.quantity ∷ quantities_of p items else quantities_of p items

-- a quantity after the ones before it, if any
abbrev pub plus : Doubles → Option Number → Number → Number
plus doubles none w = w
plus doubles (some v) w = doubles.add v w

-- a sum of doubles from the left, none where there is nothing to add
abbrev pub sum_from : Doubles → Option Number → List Number → Option Number
sum_from doubles v [] = v
sum_from doubles v (w ∷ ws) = sum_from doubles (some (plus doubles v w)) ws

abbrev pub amount : Option Number → ℕ
amount none = 0
amount (some v) = millionths v

-- what the client asks for of product `p`, in millionths
abbrev pub total_of : Doubles → ℕ → List SaleItemRequest → ℕ
total_of doubles p items = amount (sum_from doubles none (quantities_of p items))

-- what is left of product `q` after `n` units or `m` millionths of it are sold
pub record IsTakenFrom (n m : ℕ) (q q' : Product) : Type 0 where
  pub by_unit :
      q.is_weighable ≡ false
      → (n * 1000000 ≡ m)
        × ((left : ℤ) × (left +ℤ pos n ≡ q.quantity) × (q' ≡ record q { quantity = left }))
  pub by_weight :
      {d : ℤ}
      → q.is_weighable ≡ true
      → q.quantity_decimal ≡ some d
      → (left : ℤ) × (left +ℤ pos m ≡ d) × (q' ≡ record q { quantity_decimal = some left })
  pub unweighed : q.is_weighable ≡ true → q.quantity_decimal ≡ none → q' ≡ q

decrement_back : (d : ℤ) (n : ℕ) → decrement d n +ℤ pos n ≡ d
unfolding ◌+ℤ◌
decrement_back d n = ground arith

pub sold_from-IsTakenFrom :
    (n m : ℕ) (q : Product)
    → (q.is_weighable ≡ false → n * 1000000 ≡ m)
    → IsTakenFrom n m q (sold_from q.is_weighable n m q)
sold_from-IsTakenFrom n m q whole = record {
  by_unit =
      λ u. (whole u, (decrement q.quantity n, decrement_back q.quantity n, ground (arith, u)));
  by_weight = λ {d} w has. (decrement d m, decrement_back d m, ground (arith, w, has));
  unweighed = λ w lacks. ground (arith, w, lacks);
}

added :
    (doubles : Doubles) (before : Option Number) (w : Number)
    → (elim before [ none ↦ w | some v ↦ doubles.add v w ]) ≡ plus doubles before w
added doubles none w = refl
added doubles (some v) w = refl

else_same :
    {A : Type 0} (b : Bool) (x y z : A) → b ≡ false → (if b then x else z) ≡ (if b then y else z)
else_same true x y z h = absurd (ground (arith, h))
else_same false x y z h = refl

get-add_request :
    (doubles : Doubles) (item : SaleItemRequest) (p : ℕ) (t : Table Number)
    → get p (add_request doubles item t)
      ≡ (if item.product_id == p then some (plus doubles (get p t) item.quantity) else get p t)
unfolding add_request
get-add_request doubles item p t =
    let id = item.product_id in
    let w = item.quantity in
    get-put id p (elim (get id t) [ none ↦ w | some v ↦ doubles.add v w ]) t
    ∙ ap (λ v. if id == p then some v else get p t) (added doubles (get id t) w)
    ∙ elim (Bool-cases (id == p)) [
      | inl same ↦
          ap (λ k. if id == p then some (plus doubles (get k t) w) else get p t) (==→≡ id p same)
      | inr apart ↦ else_same (id == p) _ _ (get p t) apart
    ]

get-group_items :
    (doubles : Doubles) (p : ℕ) (items : List SaleItemRequest) (t : Table Number)
    → get p (group_items doubles items t) ≡ sum_from doubles (get p t) (quantities_of p items)
unfolding group_items
get-group_items doubles p [] t = refl
get-group_items doubles p (item ∷ items) t =
    let added = get-add_request doubles item p t in
    get-group_items doubles p items (add_request doubles item t)
    ∙ ap (λ v. sum_from doubles v (quantities_of p items)) added
    ∙ elim (Bool-cases (item.product_id == p)) [
      | inl same ↦ ground (arith, same)
      | inr apart ↦ ground (arith, apart)
    ]

distinct-group_items :
    (doubles : Doubles) (items : List SaleItemRequest) (t : Table Number)
    → distinct t ≡ true
    → distinct (group_items doubles items t) ≡ true
unfolding group_items add_request
distinct-group_items doubles [] t h = h
distinct-group_items doubles (item ∷ items) t h =
    distinct-group_items doubles items (add_request doubles item t)
      (distinct-put item.product_id _ t h)

asked_missing : (p : ℕ) (t : Table Number) → get p t ≡ none → asked p t ≡ 0
unfolding get
asked_missing p [] h = refl
asked_missing p ((id, v) ∷ t) h = ground (arith, h, asked_missing p t)

asked-get : (p : ℕ) (t : Table Number) → distinct t ≡ true → asked p t ≡ amount (get p t)
unfolding get
asked-get p [] h = refl
asked-get p ((id, v) ∷ t) h = elim (Bool-cases (id == p)) [
  | inr apart ↦ ground (arith, apart, asked-get p t, h)
  | inl same ↦
      let gone : get p t ≡ none = ap (λ k. get k t) (sym (==→≡ id p same)) ∙ ground (arith, h) in
      ground (arith, same, asked_missing p t gone)
]

-- The grouped requests ask for what the client's list does.
pub asked-normalize_items :
    (doubles : Doubles) (p : ℕ) (items : List SaleItemRequest)
    → asked p (normalize_items doubles items) ≡ total_of doubles p items
unfolding normalize_items get
asked-normalize_items doubles p items =
    asked-get p (group_items doubles items []) (distinct-group_items doubles items [] refl)
    ∙ ap amount (get-group_items doubles p items [])
