-- ===== src/Sales/Numbers.antt =====
-- The numbers of a request that may have decimals, and `normalizeQuantity` of
-- src/products/quantity.util.ts.
use next_stock_oficial.Prelude.{ℕ, ◌-◌, ◌*◌, ◌/◌, ◌%◌, ◌^◌, Bool, ltb, ◌==◌, if◌then◌else◌}
use next_stock_oficial.Prelude.Result.{Result, ok, err}
use next_stock_oficial.Sales.Errors.{
  SaleError, quantity_not_positive, quantity_too_large, quantity_too_precise,
}

-- A number by what `String(value)` prints, the shortest decimal that reads back as it: its digits,
-- and how many of them stand behind the point. The requests admit none that is negative, and none
-- that would be printed with an exponent.
pub record Number : Type 0 where
  pub digits : ℕ
  pub decimals : ℕ

-- What the code computes in doubles: `a + b`, `Math.round(cents * quantity)` and
-- `Math.round(cents * (value / 100))`.
pub record Doubles : Type 0 where
  pub add : Number → Number → Number
  pub price : ℕ → Number → ℕ
  pub percent : ℕ → Number → ℕ

-- `value > n`
abbrev pub above : Number → ℕ → Bool
above v n = ltb (n * 10 ^ v.decimals) v.digits

-- `Number.isInteger`
abbrev pub is_integer : Number → Bool
is_integer v = v.digits % 10 ^ v.decimals == 0

-- the value of an integer
abbrev pub whole : Number → ℕ
whole v = v.digits / 10 ^ v.decimals

-- the value in millionths, of a number with at most six decimals
abbrev pub millionths : Number → ℕ
millionths v = v.digits * 10 ^ (6 - v.decimals)

-- `quantity > MAX_DECIMAL_QUANTITY`, which is 9999999.999999
abbrev above_max : Number → Bool
above_max v = ltb (9999999999999 * 10 ^ v.decimals) (v.digits * 1000000)

unfoldable pub normalize_quantity : Number → Result SaleError Number
normalize_quantity v =
    if v.digits == 0
    then err quantity_not_positive
    else if above_max v
    then err quantity_too_large
    else if ltb 6 v.decimals
    then err quantity_too_precise
    else ok v
