-- ===== src/Tests/Counter.antt =====
-- The theorems on counter sales at the small shop, with a cheese that is sold by weight.
use native.Mathlib.Nat.{div-le_of_le-mul, mul-le-mul_left}
use next_stock_oficial.Prelude.{
  ℕ, ◌+◌, ◌-◌, ◌*◌, ◌/◌, ◌^◌, ◌≤◌, ◌≡◌, refl, max, true, false, none, some, [], ◌∷◌, arith, map,
}
use next_stock_oficial.Prelude.Int.{pos, ◌+ℤ◌}
use next_stock_oficial.Prelude.Result.{ok, err}
use next_stock_oficial.Prelude.Table.{get, put}
use next_stock_oficial.Prelude.Text.{trim}
use next_stock_oficial.Store.{Db, Product, Sale, SaleDiscountType, cash}
use next_stock_oficial.Sales.Errors.{product_short, discount_over_limit, already_canceled}
use next_stock_oficial.Sales.Numbers.{Number, Doubles, above}
use next_stock_oficial.Sales.FromOrder.{SaleReply}
use next_stock_oficial.Sales.Counter.{CreateSale}
use next_stock_oficial.Sales.Counter.Limits.{IsRounded}
use next_stock_oficial.Orders.Create.{clean}
use next_stock_oficial.Sales.Counter.Create.{create_sale, create_sale_tx, cancel_sale, find_by_key}
use next_stock_oficial.Sales.Counter.Asked.{IsTakenFrom, total_of}
use next_stock_oficial.Sales.Counter.Enough.{in_stock}
use next_stock_oficial.Sales.Counter.Promises.{
  IsCounterSale, create_sale_sells, create_sale_takes, create_sale_twice,
}
use next_stock_oficial.Tests.Shop.{soap, clerk, shop}

-- the operations of doubles without their errors
abbrev exact : Doubles
exact = record {
  add = λ a b.
      let d = max a.decimals b.decimals in
      record {
        digits = a.digits * 10 ^ (d - a.decimals) + b.digits * 10 ^ (d - b.decimals);
        decimals = d;
      };
  price = λ cents q. (cents * q.digits * 2 + 10 ^ q.decimals) / (2 * 10 ^ q.decimals);
  percent = λ cents v. (cents * v.digits + 50 * 10 ^ v.decimals) / 10 ^ v.decimals / 100;
}

regroup : (c m p : ℕ) → p * (c * m + 50) ≡ c * (m * p) + 50 * p
regroup c m p = grind arith

scaled_le : (c d m p : ℕ) → d ≤ m * p → c * d + 50 * p ≤ p * (c * m + 50)
scaled_le c d m p h = omega (arith, mul-le-mul_left c h, regroup c m p)

not_above : (v : Number) (m : ℕ) → above v m ≡ false → v.digits ≤ m * 10 ^ v.decimals
not_above v m h = ground (arith, h)

hundredth_le : (a b : ℕ) → a ≤ b → a / 100 ≤ b / 100
hundredth_le a b h = omega arith

exact-IsRounded : IsRounded exact
exact-IsRounded = record {
  percent_le = λ cents m v h.
      let p = 10 ^ v.decimals in
      hundredth_le ((cents * v.digits + 50 * p) / p) (cents * m + 50)
        (div-le_of_le-mul p (scaled_le cents v.digits m p (not_above v m h)));
}

abbrev cheese : Product
cheese = record soap {
  name = b'c' ∷ [];
  sale_price_cents = 4000;
  quantity = pos 0;
  quantity_decimal = some (pos 2500000);
  is_weighable = true;
}

abbrev deli : Db
deli = record shop { products = (9, cheese) ∷ shop.products }

abbrev number : ℕ → ℕ → Number
number digits decimals = record { digits = digits; decimals = decimals }

-- 0.5 and 0.25 of the cheese and two soaps, a tenth off, paid with 50.00 in cash
abbrev basket : CreateSale
basket = record {
  idempotency_key = 77;
  items =
      record { product_id = 9; quantity = number 5 1 }
      ∷ record { product_id = 7; quantity = number 2 0 }
      ∷ record { product_id = 9; quantity = number 25 2 }
      ∷ [];
  miscellaneous_items = [];
  payment_method = cash;
  payment_machine_id = none;
  discount_cents = none;
  discount_type = some SaleDiscountType.percentage;
  discount_value = some (number 10 0);
  amount_cents = none;
  paid_cents = some 5000;
}

abbrev basket_sale : Db
basket_sale = elim (create_sale exact clerk 40 basket deli) [ ok r ↦ r.1 | err e ↦ deli ]

abbrev receipt : SaleReply
receipt = record { idempotent = false; sale_id = 40 }

sold : create_sale exact clerk 40 basket deli ≡ ok (receipt, basket_sale)
unfolding create_sale create_sale_tx get put ◌+ℤ◌
sold = refl

unsold_key : find_by_key clerk 77 deli ≡ none
unfolding find_by_key
unsold_key = refl

create_sale_sells_example :
    (s : Sale) × (receipt.sale_id ≡ 40)
    × (receipt.idempotent ≡ false)
    × (find_by_key clerk 77 basket_sale ≡ some (40, s))
    × IsCounterSale clerk s
create_sale_sells_example =
    create_sale_sells exact clerk 40 basket deli unsold_key sold exact-IsRounded

create_sale_takes_example :
    (n : ℕ) × ((q' : Product) × (get 9 basket_sale.products ≡ some q')
      × IsTakenFrom n (total_of exact 9 basket.items) cheese q'
      × (in_stock cheese ≡ true → in_stock q' ≡ true))
unfolding get
create_sale_takes_example = create_sale_takes exact clerk 40 basket deli unsold_key sold 9 refl

-- three quarters of a kilogram
basket_cheese : total_of exact 9 basket.items ≡ 750000
basket_cheese = refl

create_sale_twice_example :
    create_sale exact clerk 41 basket basket_sale
    ≡ ok (record { idempotent = true; sale_id = 40 }, basket_sale)
create_sale_twice_example = create_sale_twice exact clerk 40 41 basket basket deli sold refl refl

-- three kilograms are not there
sold_short :
    create_sale exact clerk 40
      (record basket { items = record { product_id = 9; quantity = number 3 0 } ∷ [] })
      deli
    ≡ err product_short
unfolding create_sale create_sale_tx get put ◌+ℤ◌
sold_short = refl

-- a clerk gives no more than a tenth
over_limit :
    create_sale exact clerk 40 (record basket { discount_value = some (number 101 1) }) deli
    ≡ err discount_over_limit
unfolding create_sale create_sale_tx get put ◌+ℤ◌
over_limit = refl

abbrev basket_canceled : Db
basket_canceled = elim (cancel_sale clerk 99 40 (some (b' ' ∷ b'x' ∷ b' ' ∷ [])) basket_sale) [
  | ok db ↦ db
  | err e ↦ basket_sale
]

-- the reason is stored without the white space around it, and a blank one not at all
canceled_reason : map (λ e. e.1.cancellation_reason) basket_canceled.sales ≡ some (b'x' ∷ []) ∷ []
unfolding cancel_sale clean trim get put create_sale create_sale_tx ◌+ℤ◌
canceled_reason = refl

canceled_twice : cancel_sale clerk 99 40 none basket_canceled ≡ err already_canceled
unfolding cancel_sale clean trim get put create_sale create_sale_tx ◌+ℤ◌
canceled_twice = refl
