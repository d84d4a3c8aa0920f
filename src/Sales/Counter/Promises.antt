-- ===== src/Sales/Counter/Promises.antt =====
-- What a counter sale promises: its money adds up, its stock comes off the shelf, and its key
-- makes one sale.
use next_stock_oficial.Prelude.{
  ℕ, ◌+◌, ◌-◌, ◌*◌, ◌≤◌, ◌≡◌, refl, ◌∙◌, sym, ap, true, false, ◌&&◌, ◌||◌, none, some, find, any,
  arith, inl, inr, Option-cases, Bool-cases, is_some, eq_option, ◌==◌,
}
use next_stock_oficial.Prelude.Result.{ok}
use next_stock_oficial.Prelude.Table.{get, put, find-put}
use next_stock_oficial.Store.{Context, Db, OrderPaymentMethod, Product, Sale}
use next_stock_oficial.Sales.Numbers.{Doubles}
use next_stock_oficial.Sales.Payment.{validate_payment, is_cash}
use next_stock_oficial.Sales.FromOrder.{SaleReply, insert_sale, same_key}
use next_stock_oficial.Sales.Counter.{CreateSale, normalize_items, sold_from}
use next_stock_oficial.Sales.Counter.Discount.{is_admin}
use next_stock_oficial.Sales.Counter.Limits.{IsRounded, calculate_discount-IsAllowed}
use next_stock_oficial.Sales.Counter.Stock.{units, get-decrement_stock, flag_of}
use next_stock_oficial.Sales.Counter.Enough.{in_stock, in_stock-decrement_stock}
use next_stock_oficial.Sales.Counter.Priced.{
  asked, load_priced_items-IsFlagged, millionths_of-load_priced_items, units-load_priced_items,
}
use next_stock_oficial.Sales.Counter.Asked.{
  IsTakenFrom, total_of, sold_from-IsTakenFrom, asked-normalize_items,
}
use next_stock_oficial.Sales.Counter.Create.{
  of_key, find_by_key, sale_items, subtotal_of, counter_sale, paid_of, is_empty, create_sale,
}
use next_stock_oficial.Sales.Counter.Sells.{Sells, create_sale_ok}

-- What an insert of a sale with a key leaves.
insert_sale_lem :
    (ctx : Context) (sale_id key : ℕ) (s : Sale) (db : Db) {db' : Db}
    → find_by_key ctx key db ≡ none
    → of_key ctx key (sale_id, s) ≡ true
    → insert_sale sale_id s db ≡ ok db'
    → (find_by_key ctx key db' ≡ some (sale_id, s)) × (db'.products ≡ db.products)
unfolding find_by_key insert_sale
insert_sale_lem ctx sale_id key s db {db'} fresh own h =
    let clash =
      is_some (get sale_id db.sales)
      || is_some s.order_id && any (λ e. eq_option e.1.order_id s.order_id) db.sales
      || is_some s.idempotency_key && any (same_key s) db.sales in
    elim (Bool-cases clash) [
      | inl taken ↦ absurd (ground (arith, taken, h))
      | inr free ↦
          let is : record db { sales = put sale_id s db.sales } ≡ db' = ground (arith, free, h) in
          (
            ap (λ d. find (of_key ctx key) d.sales) (sym is)
                ∙ find-put (of_key ctx key) sale_id s db.sales fresh (ground (arith, free)) own,
            ap (λ d. d.products) (sym is),
          )
    ]

paid_for :
    (method : OrderPaymentMethod) (paid total : ℕ) {change : ℕ}
    → validate_payment method paid total ≡ ok change
    → (paid ≡ total + change) × (is_cash method || change == 0 ≡ true)
unfolding validate_payment
paid_for method paid total h = (ground (arith, h), ground (arith, h))

-- the sale at the counter, with its money
pub record IsCounterSale (ctx : Context) (s : Sale) : Type 0 where
  pub priced : s.subtotal_cents ≡ subtotal_of s.items
  pub total : s.total_cents + s.discount_cents ≡ s.subtotal_cents
  pub tenth : is_admin ctx ≡ false → s.discount_cents * 10 ≤ s.subtotal_cents + 5
  pub paid : s.paid_cents ≡ s.total_cents + s.change_cents
  pub exact : is_cash s.payment_method || s.change_cents == 0 ≡ true

module _ (doubles : Doubles) (ctx : Context) (sale_id : ℕ) (dto : CreateSale) (db : Db)
    {r : SaleReply × Db} (fresh : find_by_key ctx dto.idempotency_key db ≡ none)
    (done : create_sale doubles ctx sale_id dto db ≡ ok r) where
  -- the sale that is made
  abbrev made_sale : Sells doubles ctx sale_id dto db r.1 → Sale
  made_sale sells =
      let items = sale_items dto sells.priced in
      counter_sale ctx dto items sells.machine sells.discount
        (paid_of dto (subtotal_of items - sells.discount.cents)) sells.change

  sale_found :
      (sells : Sells doubles ctx sale_id dto db r.1)
      → (find_by_key ctx dto.idempotency_key r.1 ≡ some (sale_id, made_sale sells))
        × (r.1.products ≡ sells.products)
  unfolding find_by_key
  sale_found sells =
      insert_sale_lem ctx sale_id dto.idempotency_key (made_sale sells)
        (record db { products = sells.products }) fresh (ground arith) sells.inserted

  -- A counter sale that goes through under a key that no sale of the branch has makes one, which
  -- its key finds from then on. Its items come to its subtotal, its total and its discount come to
  -- the subtotal too, what is paid covers the total up to the change, only cash has change, and
  -- the discount is at most a tenth of the subtotal, to the nearest cent, where no admin sells.
  -- The percentages are rounded as `IsRounded` says.
  pub create_sale_sells :
      IsRounded doubles
      → (s : Sale) × (r.0.sale_id ≡ sale_id)
        × (r.0.idempotent ≡ false)
        × (find_by_key ctx dto.idempotency_key r.1 ≡ some (sale_id, s))
        × IsCounterSale ctx s
  create_sale_sells rounded =
      let (reply, sells) = create_sale_ok doubles ctx sale_id dto db fresh done in
      let items = sale_items dto sells.priced in
      let total = subtotal_of items - sells.discount.cents in
      let allowed =
        calculate_discount-IsAllowed doubles rounded ctx (subtotal_of items) dto sells.discounted in
      let (covers, exact) = paid_for dto.payment_method (paid_of dto total) total sells.payable in
      (
        made_sale sells,
        ap (λ x. x.sale_id) reply,
        ap (λ x. x.idempotent) reply,
        (sale_found sells).0,
        record {
          priced = refl;
          total = omega (arith, allowed.covered);
          tenth = allowed.tenth;
          paid = covers;
          exact = exact;
        },
      )

  -- A counter sale that goes through under a new key takes from each product what the client's
  -- list asks for of it, its quantities added in order by the addition of doubles: from the stock
  -- in millionths where it is sold by weight, and in whole units where it is not, which come to
  -- the same amount. It changes nothing else of the product, and nothing at all of one that is
  -- sold by weight and has no such stock. A product whose stocks were not negative has none that
  -- is negative after it.
  pub create_sale_takes :
      (p : ℕ) {q : Product}
      → get p db.products ≡ some q
      → (n : ℕ) × ((q' : Product) × (get p r.1.products ≡ some q')
          × IsTakenFrom n (total_of doubles p dto.items) q q'
          × (in_stock q ≡ true → in_stock q' ≡ true))
  create_sale_takes p {q} row =
      let (_, sells) = create_sale_ok doubles ctx sale_id dto db fresh done in
      let requests = normalize_items doubles dto.items in
      let m = total_of doubles p dto.items in
      let n = units p sells.priced in
      let asks : asked p requests ≡ m = asked-normalize_items doubles p dto.items in
      let moved : get p r.1.products ≡ some (sold_from q.is_weighable n m q) =
        ap (get p) (sale_found sells).1
        ∙ get-decrement_stock ctx sells.priced db.products p
            (load_priced_items-IsFlagged doubles ctx db.products requests sells.loaded) sells.taken
            row
        ∙ ap (λ k. some (sold_from q.is_weighable n k q))
            (millionths_of-load_priced_items doubles ctx db.products p requests sells.loaded
              ∙ asks) in
      (
        n,
        (
          sold_from q.is_weighable n m q,
          moved,
          sold_from-IsTakenFrom n m q (λ by_unit.
              units-load_priced_items doubles ctx db.products p requests (ap flag_of row ∙ by_unit)
                sells.loaded
              ∙ asks),
          λ v.
              let (q', row', v') =
                in_stock-decrement_stock ctx sells.priced db.products p sells.taken row v in
              let is : q' ≡ sold_from q.is_weighable n m q =
                cc (row', ap (get p) (sale_found sells).1, moved) in
              ap in_stock (sym is) ∙ v',
        ),
      )

-- The second sale under a key, whatever it is of, as long as it is of something, finds the first,
-- answers with it and changes nothing: neither the stock nor the sales.
pub create_sale_twice :
    (doubles : Doubles) (ctx : Context) (sale_id sale_id' : ℕ) (dto dto' : CreateSale) (db : Db)
    {r : SaleReply × Db}
    → create_sale doubles ctx sale_id dto db ≡ ok r
    → dto'.idempotency_key ≡ dto.idempotency_key
    → is_empty dto'.items && is_empty dto'.miscellaneous_items ≡ false
    → create_sale doubles ctx sale_id' dto' r.1
      ≡ ok (record { idempotent = true; sale_id = r.0.sale_id }, r.1)
unfolding create_sale
create_sale_twice doubles ctx sale_id sale_id' dto dto' db {r} h key more =
    elim (Option-cases (find_by_key ctx dto.idempotency_key db)) [
      | inr (s, found) ↦
          let same : ((record { idempotent = true; sale_id = s.0 }, db) ≡ r) =
            ground (arith, h, found) in
          let again = ap (λ x. find_by_key ctx dto.idempotency_key x.1) (sym same) ∙ found in
          ground
            (arith, again, ap (λ x. x.0.sale_id) same, more, ap (λ k. find_by_key ctx k r.1) key)
      | inl fresh ↦
          let (reply, sells) = create_sale_ok doubles ctx sale_id dto db fresh h in
          let (found, _) = sale_found doubles ctx sale_id dto db fresh h sells in
          ground (
            arith,
            found,
            ap (λ x. x.sale_id) reply,
            key,
            more,
            ap (λ k. find_by_key ctx k r.1) key,
          )
    ]
