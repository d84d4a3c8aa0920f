-- ===== src/Sales/Counter/Discount.antt =====
-- `calculateDiscount` of src/sales/sales.service.ts: who may give which discount.
use next_stock_oficial.Prelude.{
  ℕ, ◌/◌, Bool, true, false, not, ◌&&◌, ◌||◌, Option, none, some, or_default, is_some, ltb,
  if◌then◌else◌,
}
use next_stock_oficial.Prelude.Result.{Result, ok, err}
use next_stock_oficial.Store.{Context, Role, SaleDiscountType}
use next_stock_oficial.Sales.Errors.{
  SaleError, discount_both, discount_half, discount_over_limit, discount_over_subtotal,
  discount_not_integer,
}
use next_stock_oficial.Sales.Numbers.{Number, Doubles, above, is_integer, whole}
use next_stock_oficial.Sales.Counter.{CreateSale}

pub record Discount : Type 0 where
  pub type : Option SaleDiscountType
  pub cents : ℕ

-- `adminLimit`
abbrev pub is_admin : Context → Bool
is_admin ctx = (elim ctx.role [ Role.admin ↦ true | _ ↦ false ]) || ctx.is_dev_super_admin

abbrev pub max_percentage : Context → ℕ
max_percentage ctx = if is_admin ctx then 100 else 10

-- `Math.floor(subtotalCents * 0.1)` for those who are no admins
abbrev pub max_fixed_cents : Context → ℕ → ℕ
max_fixed_cents ctx subtotal = if is_admin ctx then subtotal else subtotal / 10

unfoldable pub percentage_discount : Doubles → Context → ℕ → Number → Result SaleError Discount
percentage_discount doubles ctx subtotal value =
    if above value (max_percentage ctx)
    then err discount_over_limit
    else ok
        (record { type = some SaleDiscountType.percentage; cents = doubles.percent subtotal value })

unfoldable pub fixed_discount : Context → ℕ → Number → Result SaleError Discount
fixed_discount ctx subtotal value =
    if not (is_integer value)
    then err discount_not_integer
    else if ltb subtotal (whole value)
    then err discount_over_subtotal
    else if ltb (max_fixed_cents ctx subtotal) (whole value)
    then err discount_over_limit
    else ok (record { type = some SaleDiscountType.fixed; cents = whole value })

unfoldable pub legacy_discount : Context → ℕ → ℕ → Result SaleError Discount
legacy_discount ctx subtotal cents =
    if ltb subtotal cents
    then err discount_over_subtotal
    else if ltb (max_fixed_cents ctx subtotal) cents
    then err discount_over_limit
    else ok
        (record { type = if ltb 0 cents then some SaleDiscountType.fixed else none; cents = cents })

-- the branches behind the two checks of what is given; a type has a value by then
unfoldable pub discount_of :
    Doubles
    → Context
    → ℕ
    → Option SaleDiscountType
    → Option Number
    → Option ℕ
    → Result SaleError Discount
unfolding percentage_discount fixed_discount legacy_discount
discount_of doubles ctx subtotal none value cents =
    legacy_discount ctx subtotal (or_default cents 0)
discount_of doubles ctx subtotal (some type) none cents = err discount_half
discount_of doubles ctx subtotal (some SaleDiscountType.percentage) (some value) cents =
    percentage_discount doubles ctx subtotal value
discount_of doubles ctx subtotal (some SaleDiscountType.fixed) (some value) cents =
    fixed_discount ctx subtotal value

unfoldable pub calculate_discount : Doubles → Context → CreateSale → ℕ → Result SaleError Discount
unfolding discount_of
calculate_discount doubles ctx dto subtotal =
    let typed = is_some dto.discount_type in
    let valued = is_some dto.discount_value in
    if (typed || valued) && is_some dto.discount_cents
    then err discount_both
    else if typed && not valued || not typed && valued
    then err discount_half
    else discount_of doubles ctx subtotal dto.discount_type dto.discount_value dto.discount_cents
