-- ===== src/Sales/Counter/Create.antt =====
-- `create` and `cancel` of src/sales/sales.service.ts.
use next_stock_oficial.Prelude.{
  ℕ, ◌-◌, Bool, true, false, ◌&&◌, Option, none, some, List, [], ◌∷◌, ◌++◌, map, find, or_default,
  eq_option, sum_by, if◌then◌else◌,
}
use next_stock_oficial.Prelude.Result.{Result, ok, err, ◌>>=◌}
use next_stock_oficial.Prelude.Table.{get, put, matching}
use next_stock_oficial.Prelude.Text.{Text}
use next_stock_oficial.Store.{Context, Db, Sale, SaleItem, SaleSource, SaleStatus, sale_in_scope}
use next_stock_oficial.Orders.Create.{clean}
use next_stock_oficial.Sales.Errors.{
  SaleError, no_items, sale_not_found, already_canceled, already_refunded,
}
use next_stock_oficial.Sales.Numbers.{Doubles}
use next_stock_oficial.Sales.Payment.{load_payment_machine, validate_payment}
use next_stock_oficial.Sales.FromOrder.{SaleReply, insert_sale, is_unique_violation}
use next_stock_oficial.Sales.Counter.{
  CreateSale, PricedItem, normalize_items, load_priced_items, miscellaneous_item, decrement_stock,
}
use next_stock_oficial.Sales.Counter.Discount.{Discount, calculate_discount}

abbrev pub of_key : Context → ℕ → ℕ × Sale → Bool
of_key ctx key e = eq_option e.1.idempotency_key (some key) && sale_in_scope ctx e.1

unfoldable pub find_by_key : Context → ℕ → Db → Option (ℕ × Sale)
find_by_key ctx key db = find (of_key ctx key) db.sales

abbrev pub sale_items : CreateSale → List PricedItem → List SaleItem
sale_items dto priced = map (λ p. p.item) priced ++ map miscellaneous_item dto.miscellaneous_items

abbrev pub subtotal_of : List SaleItem → ℕ
subtotal_of items = sum_by (λ i. i.total_price_cents) items

abbrev pub counter_sale : Context → CreateSale → List SaleItem → Option ℕ → Discount → ℕ → ℕ → Sale
counter_sale ctx dto items machine discount paid_cents change_cents = record {
  tenant_id = ctx.tenant_id;
  branch_id = ctx.branch_id;
  order_id = none;
  source = SaleSource.cash_register;
  idempotency_key = some dto.idempotency_key;
  seller_id = ctx.user_id;
  payment_method = dto.payment_method;
  payment_machine_id = machine;
  status = SaleStatus.paid;
  subtotal_cents = subtotal_of items;
  discount_type = discount.type;
  discount_cents = discount.cents;
  total_cents = subtotal_of items - discount.cents;
  paid_cents = paid_cents;
  change_cents = change_cents;
  canceled_at = none;
  canceled_by_id = none;
  cancellation_reason = none;
  deleted_at = none;
  items = items;
}

-- `dto.paidCents ?? dto.amountCents ?? totalCents`
abbrev pub paid_of : CreateSale → ℕ → ℕ
paid_of dto total = or_default dto.paid_cents (or_default dto.amount_cents total)

-- the transaction
unfoldable pub create_sale_tx : Doubles → Context → ℕ → CreateSale → Db → Result SaleError (ℕ × Db)
unfolding normalize_items load_priced_items load_payment_machine calculate_discount validate_payment
    decrement_stock insert_sale
create_sale_tx doubles ctx sale_id dto db = do
  priced ← load_priced_items doubles ctx db.products (normalize_items doubles dto.items)
  let items = sale_items dto priced
  machine ← load_payment_machine ctx db.machines dto.payment_method dto.payment_machine_id
  discount ← calculate_discount doubles ctx dto (subtotal_of items)
  let total = subtotal_of items - discount.cents
  let paid = paid_of dto total
  change ← validate_payment dto.payment_method paid total
  products ← decrement_stock ctx priced db.products
  db' ←
      insert_sale sale_id (counter_sale ctx dto items machine discount paid change)
        (record db { products = products })
  ok (sale_id, db')

-- the `catch` of `create`: after P2002 the winner's sale is returned
unfoldable pub recover_by_key :
    Context → ℕ → Db → Result SaleError (ℕ × Db) → Result SaleError (SaleReply × Db)
unfolding find_by_key
recover_by_key ctx key db (ok (id, db')) = ok (record { idempotent = false; sale_id = id }, db')
recover_by_key ctx key db (err e) =
    if is_unique_violation e
    then elim (find_by_key ctx key db) [
      | none ↦ err e
      | some s ↦ ok (record { idempotent = true; sale_id = s.0 }, db)
    ]
    else err e

abbrev pub is_empty {ℓ} : {A : Type ℓ} → List A → Bool
is_empty [] = true
is_empty (x ∷ xs) = false

unfoldable pub create_sale :
    Doubles → Context → ℕ → CreateSale → Db → Result SaleError (SaleReply × Db)
unfolding find_by_key create_sale_tx recover_by_key
create_sale doubles ctx sale_id dto db =
    if is_empty dto.items && is_empty dto.miscellaneous_items
    then err no_items
    else elim (find_by_key ctx dto.idempotency_key db) [
      | some s ↦ ok (record { idempotent = true; sale_id = s.0 }, db)
      | none ↦ recover_by_key ctx dto.idempotency_key db (create_sale_tx doubles ctx sale_id dto db)
    ]

-- what `cancel` makes of a sale; `clean` is written in both services with one body
abbrev pub canceled_sale : Context → ℕ → Option Text → Sale → Sale
unfolding clean
canceled_sale ctx now reason s = record s {
  status = SaleStatus.canceled;
  canceled_at = some now;
  canceled_by_id = some ctx.user_id;
  cancellation_reason = clean reason;
}

unfoldable pub cancel_sale : Context → ℕ → ℕ → Option Text → Db → Result SaleError Db
cancel_sale ctx now id reason db = elim (matching (sale_in_scope ctx) (get id db.sales)) [
  | none ↦ err sale_not_found
  | some s ↦ elim s.status [
    | SaleStatus.canceled ↦ err already_canceled
    | SaleStatus.refunded ↦ err already_refunded
    | _ ↦ ok (record db { sales = put id (canceled_sale ctx now reason s) db.sales })
  ]
]
