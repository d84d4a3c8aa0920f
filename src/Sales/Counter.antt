-- ===== src/Sales/Counter.antt =====
-- The counter sale of src/sales/sales.service.ts: its request, the prices of its items and the
-- stock that it takes.
pub mod Discount
pub mod Create
pub mod Stock
pub mod Enough
pub mod Priced
pub mod Asked
pub mod Limits
pub mod Sells
pub mod Promises
use next_stock_oficial.Prelude.{
  ℕ, ◌*◌, Bool, true, false, not, ◌&&◌, Option, none, some, List, [], ◌∷◌, or_default,
  if◌then◌else◌,
}
use next_stock_oficial.Prelude.Int.{ℤ, pos, ◌+ℤ◌, sub_ℕ, leb_ℤ, ltb_ℤ}
use next_stock_oficial.Prelude.Result.{Result, ok, err, ◌>>=◌}
use next_stock_oficial.Prelude.Table.{Table, get, put, matching}
use next_stock_oficial.Prelude.Text.{Text}
use next_stock_oficial.Store.{
  Context, OrderPaymentMethod, Product, SaleDiscountType, SaleItem, in_scope,
}
use next_stock_oficial.Sales.Errors.{
  SaleError, product_not_in_branch, quantity_not_whole, product_short, stock_short,
}
use next_stock_oficial.Sales.Numbers.{
  Number, Doubles, is_integer, whole, millionths, normalize_quantity,
}

-- CreateSaleItemDto
pub record SaleItemRequest : Type 0 where
  pub product_id : ℕ
  pub quantity : Number

-- CreateMiscellaneousSaleItemDto, with the name as `normalizeMiscellaneousItems` leaves it: white
-- space collapsed, and 'Produto diverso' where nothing is left
pub record MiscellaneousRequest : Type 0 where
  pub name : Text
  pub quantity : Option ℕ
  pub amount_cents : ℕ

-- CreateSaleDto
pub record CreateSale : Type 0 where
  pub idempotency_key : ℕ
  pub items : List SaleItemRequest
  pub miscellaneous_items : List MiscellaneousRequest
  pub payment_method : OrderPaymentMethod
  pub payment_machine_id : Option ℕ
  pub discount_cents : Option ℕ
  pub discount_type : Option SaleDiscountType
  pub discount_value : Option Number
  pub amount_cents : Option ℕ
  pub paid_cents : Option ℕ

-- one round of `normalizeItems`: `quantities.set(id, (quantities.get(id) ?? 0) + item.quantity)`
unfoldable pub add_request : Doubles → SaleItemRequest → Table Number → Table Number
add_request doubles item quantities =
    put item.product_id
      (elim (get item.product_id quantities) [
        | none ↦ item.quantity
        | some before ↦ doubles.add before item.quantity
      ])
      quantities

unfoldable pub group_items : Doubles → List SaleItemRequest → Table Number → Table Number
unfolding add_request
group_items doubles [] quantities = quantities
group_items doubles (item ∷ items) quantities =
    group_items doubles items (add_request doubles item quantities)

unfoldable pub normalize_items : Doubles → List SaleItemRequest → Table Number
unfolding group_items
normalize_items doubles items = group_items doubles items []

-- an item of the sale, with its `isWeighableSnapshot`
pub record PricedItem : Type 0 where
  pub item : SaleItem
  pub is_weighable : Bool

abbrev pub miscellaneous_item : MiscellaneousRequest → SaleItem
miscellaneous_item request = record {
  product_id = none;
  is_miscellaneous = true;
  product_name_snapshot = request.name;
  sku_snapshot = none;
  barcode_snapshot = none;
  quantity = or_default request.quantity 1;
  quantity_decimal = some (or_default request.quantity 1 * 1000000);
  unit_price_cents = 0;
  total_price_cents = request.amount_cents;
}

abbrev pub priced_item : Doubles → ℕ → Number → Product → PricedItem
priced_item doubles product_id quantity product = record {
  item = record {
    product_id = some product_id;
    is_miscellaneous = false;
    product_name_snapshot = product.name;
    sku_snapshot = product.sku;
    barcode_snapshot = product.barcode;
    quantity = if is_integer quantity then whole quantity else 1;
    quantity_decimal = some (millionths quantity);
    unit_price_cents = product.sale_price_cents;
    total_price_cents = doubles.price product.sale_price_cents quantity;
  };
  is_weighable = product.is_weighable;
}

-- `availableQuantity < requestedQuantity`
abbrev pub is_short : Product → Number → Bool
is_short product quantity =
    if product.is_weighable
    then ltb_ℤ (or_default product.quantity_decimal (pos 0)) (pos (millionths quantity))
    else ltb_ℤ product.quantity (pos (whole quantity))

-- the checks of one product in `loadPricedItems`, where it is of the branch
unfoldable pub price_product : Doubles → ℕ → Number → Product → Result SaleError PricedItem
unfolding normalize_quantity
price_product doubles product_id requested product = do
  quantity ← normalize_quantity requested
  if not product.is_weighable && not (is_integer quantity)
      then err quantity_not_whole
      else if is_short product quantity
      then err product_short
      else ok (priced_item doubles product_id quantity product)

unfoldable pub price_item :
    Doubles → Context → Table Product → ℕ → Number → Result SaleError PricedItem
unfolding price_product
price_item doubles ctx products product_id requested =
    elim (matching (λ p. in_scope ctx p.tenant_id p.branch_id) (get product_id products)) [
      | none ↦ err product_not_in_branch
      | some product ↦ price_product doubles product_id requested product
    ]

unfoldable pub load_priced_items :
    Doubles → Context → Table Product → Table Number → Result SaleError (List PricedItem)
unfolding price_item
load_priced_items doubles ctx products [] = ok []
load_priced_items doubles ctx products ((id, quantity) ∷ rest) = do
  priced ← price_item doubles ctx products id quantity
  others ← load_priced_items doubles ctx products rest
  ok (priced ∷ others)

-- what `decrementStock` is given of an item
abbrev pub micros : PricedItem → ℕ
micros p = or_default p.item.quantity_decimal p.item.quantity

-- `where: { id, tenantId, branchId, quantity[Decimal]: { gte } }`
abbrev pub has_stock : Context → PricedItem → Product → Bool
has_stock ctx priced p =
    in_scope ctx p.tenant_id p.branch_id
    && (if priced.is_weighable
        then elim p.quantity_decimal [
          | none ↦ false
          | some available ↦ leb_ℤ (pos (micros priced)) available
        ]
        else leb_ℤ (pos priced.item.quantity) p.quantity)

abbrev pub decrement : ℤ → ℕ → ℤ
decrement stock n = stock +ℤ sub_ℕ 0 n

-- a product with `n` units or `m` millionths of it sold
abbrev pub sold_from : Bool → ℕ → ℕ → Product → Product
sold_from is_weighable n m p =
    if is_weighable
    then record p {
      quantity_decimal = elim p.quantity_decimal [
        | none ↦ none
        | some available ↦ some (decrement available m)
      ];
    }
    else record p { quantity = decrement p.quantity n }

-- one round of the loop of `decrementStock`; an item without a product is not among its items
unfoldable pub decrement_item :
    Context → PricedItem → Table Product → Result SaleError (Table Product)
decrement_item ctx priced products = elim priced.item.product_id [
  | none ↦ ok products
  | some id ↦ elim (matching (has_stock ctx priced) (get id products)) [
    | none ↦ err stock_short
    | some p ↦
        ok (put id (sold_from priced.is_weighable priced.item.quantity (micros priced) p) products)
  ]
]

unfoldable pub decrement_stock :
    Context → List PricedItem → Table Product → Result SaleError (Table Product)
unfolding decrement_item
decrement_stock ctx [] products = ok products
decrement_stock ctx (priced ∷ rest) products = do
  products' ← decrement_item ctx priced products
  decrement_stock ctx rest products'
