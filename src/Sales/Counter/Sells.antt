-- ===== src/Sales/Counter/Sells.antt =====
-- What a counter sale promises: its money adds up, its stock comes off the shelf, and its key
-- makes one sale.
use next_stock_oficial.Prelude.{
  ℕ, ◌-◌, ◌≡◌, ◌∙◌, sym, ap, subst, false, ◌&&◌, Option, none, List, arith, inl, inr, Bool-cases,
}
use next_stock_oficial.Prelude.Result.{ok, >>=-eq-ok, ok-injective, Result-cases}
use next_stock_oficial.Prelude.Table.{Table}
use next_stock_oficial.Store.{Context, Db, Product}
use next_stock_oficial.Sales.Numbers.{Doubles}
use next_stock_oficial.Sales.Payment.{load_payment_machine, validate_payment}
use next_stock_oficial.Sales.FromOrder.{SaleReply, insert_sale}
use next_stock_oficial.Sales.Counter.{
  CreateSale, PricedItem, normalize_items, load_priced_items, decrement_stock,
}
use next_stock_oficial.Sales.Counter.Discount.{Discount, calculate_discount}
use next_stock_oficial.Sales.Counter.Create.{
  find_by_key, sale_items, subtotal_of, counter_sale, paid_of, create_sale_tx, recover_by_key,
  is_empty, create_sale,
}

-- what a transaction that goes through has done
pub record Sells (doubles : Doubles) (ctx : Context) (sale_id : ℕ) (dto : CreateSale) (db : Db)
    (db' : Db) : Type 0 where
  pub priced : List PricedItem
  pub machine : Option ℕ
  pub discount : Discount
  pub change : ℕ
  pub products : Table Product
  pub loaded :
      load_priced_items doubles ctx db.products (normalize_items doubles dto.items) ≡ ok priced
  pub discounted :
      calculate_discount doubles ctx dto (subtotal_of (sale_items dto priced)) ≡ ok discount
  pub payable :
      let total = subtotal_of (sale_items dto priced) - discount.cents in
      validate_payment dto.payment_method (paid_of dto total) total ≡ ok change
  pub taken : decrement_stock ctx priced db.products ≡ ok products
  pub inserted :
      let total = subtotal_of (sale_items dto priced) - discount.cents in
      insert_sale sale_id
        (counter_sale ctx dto (sale_items dto priced) machine discount (paid_of dto total) change)
        (record db { products = products })
      ≡ ok db'

module _ (doubles : Doubles) (ctx : Context) (sale_id : ℕ) (dto : CreateSale) (db : Db) where
  create_sale_tx_ok :
      {r : ℕ × Db}
      → create_sale_tx doubles ctx sale_id dto db ≡ ok r
      → (r.0 ≡ sale_id) × Sells doubles ctx sale_id dto db r.1
  unfolding create_sale_tx
  create_sale_tx_ok {r} h =
      let (priced, h1, k1) =
        >>=-eq-ok (load_priced_items doubles ctx db.products (normalize_items doubles dto.items)) _
          h in
      let (machine, h2, k2) =
        >>=-eq-ok (load_payment_machine ctx db.machines dto.payment_method dto.payment_machine_id) _
          k1 in
      let subtotal = subtotal_of (sale_items dto priced) in
      let (discount, h3, k3) = >>=-eq-ok (calculate_discount doubles ctx dto subtotal) _ k2 in
      let total = subtotal - discount.cents in
      let (change, h4, k4) =
        >>=-eq-ok (validate_payment dto.payment_method (paid_of dto total) total) _ k3 in
      let (products, h5, k5) = >>=-eq-ok (decrement_stock ctx priced db.products) _ k4 in
      let (db', h6, k6) =
        >>=-eq-ok
          (insert_sale sale_id
            (counter_sale ctx dto (sale_items dto priced) machine discount (paid_of dto total)
              change)
            (record db { products = products }))
          _ k5 in
      let e = ok-injective k6 in
      (
        ap (λ x. x.0) (sym e),
        record {
          priced = priced;
          machine = machine;
          discount = discount;
          change = change;
          products = products;
          loaded = h1;
          discounted = h3;
          payable = h4;
          taken = h5;
          inserted = h6 ∙ ap (λ x. ok x.1) e;
        },
      )

  -- A creation that goes through has found the sale of its key, or has made it.
  pub create_sale_ok :
      {r : SaleReply × Db}
      → find_by_key ctx dto.idempotency_key db ≡ none
      → create_sale doubles ctx sale_id dto db ≡ ok r
      → (r.0 ≡ record { idempotent = false; sale_id = sale_id })
        × Sells doubles ctx sale_id dto db r.1
  unfolding create_sale recover_by_key
  create_sale_ok {r} fresh h =
      elim (Bool-cases (is_empty dto.items && is_empty dto.miscellaneous_items)) [
        | inl nothing ↦ absurd (ground (arith, nothing, h))
        | inr something ↦ elim (Result-cases (create_sale_tx doubles ctx sale_id dto db)) [
          | inr (e, failed) ↦ absurd (ground (arith, something, fresh, failed, h))
          | inl (s, made) ↦
              let (new, sells) = create_sale_tx_ok made in
              let is : ◌≡◌ {A = SaleReply × Db} (record { idempotent = false; sale_id = s.0 }, s.1)
                  r =
                ok-injective (sym (reached something s made) ∙ h) in
              (
                ap (λ x. x.0) (sym is) ∙ ap (λ k. record { idempotent = false; sale_id = k }) new,
                subst (λ x. Sells doubles ctx sale_id dto db x.1) is sells,
              )
        ]
      ]
    where
      reached :
          is_empty dto.items && is_empty dto.miscellaneous_items ≡ false
          → (s : ℕ × Db) → create_sale_tx doubles ctx sale_id dto db ≡ ok s
          → create_sale doubles ctx sale_id dto db
            ≡ ok (record { idempotent = false; sale_id = s.0 }, s.1)
      reached something s made = ground (arith, something, fresh, made)
