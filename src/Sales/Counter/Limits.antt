-- ===== src/Sales/Counter/Limits.antt =====
-- How large a discount may be.
use next_stock_oficial.Prelude.{
  ℕ, ◌+◌, ◌*◌, ◌/◌, ◌≤◌, ◌≡◌, false, not, ◌&&◌, ◌||◌, Option, none, some, or_default, is_some,
  arith, inl, inr, Bool-cases,
}
use next_stock_oficial.Prelude.Result.{ok}
use next_stock_oficial.Store.{Context, SaleDiscountType}
use next_stock_oficial.Sales.Numbers.{Number, Doubles, above}
use next_stock_oficial.Sales.Counter.{CreateSale}
use next_stock_oficial.Sales.Counter.Discount.{
  Discount, is_admin, max_percentage, percentage_discount, fixed_discount, legacy_discount,
  discount_of, calculate_discount,
}

-- `Math.round` and the product of doubles do not fall as the percentage grows: at most `m` percent
-- come to at most `m` percent, rounded.
pub record IsRounded (doubles : Doubles) : Type 0 where
  pub percent_le :
      (cents m : ℕ) (v : Number)
      → above v m ≡ false
      → doubles.percent cents v ≤ (cents * m + 50) / 100

-- at most everything, and at most a tenth, rounded, where an admin does not give it
pub record IsAllowed (ctx : Context) (subtotal : ℕ) (d : Discount) : Type 0 where
  pub covered : d.cents ≤ subtotal
  pub tenth : is_admin ctx ≡ false → d.cents * 10 ≤ subtotal + 5

module _ (doubles : Doubles) (rounded : IsRounded doubles) (ctx : Context) (subtotal : ℕ) where
  percentage_discount-IsAllowed :
      (v : Number) {d : Discount}
      → percentage_discount doubles ctx subtotal v ≡ ok d
      → IsAllowed ctx subtotal d
  unfolding percentage_discount
  percentage_discount-IsAllowed v h = elim (Bool-cases (above v (max_percentage ctx))) [
    | inl over ↦ absurd (ground (arith, over, h))
    | inr within ↦
        let le = rounded.percent_le subtotal (max_percentage ctx) v within in
        record {
          covered = ground (arith, within, h, le);
          tenth = λ clerk. ground (arith, within, h, le, clerk);
        }
  ]

  fixed_discount-IsAllowed :
      (v : Number) {d : Discount} → fixed_discount ctx subtotal v ≡ ok d → IsAllowed ctx subtotal d
  unfolding fixed_discount
  fixed_discount-IsAllowed v h = record {
    covered = ground (arith, h);
    tenth = λ clerk. ground (arith, h, clerk);
  }

  legacy_discount-IsAllowed :
      (cents : ℕ) {d : Discount}
      → legacy_discount ctx subtotal cents ≡ ok d
      → IsAllowed ctx subtotal d
  unfolding legacy_discount
  legacy_discount-IsAllowed cents h = record {
    covered = ground (arith, h);
    tenth = λ clerk. ground (arith, h, clerk);
  }

  discount_of-IsAllowed :
      (type : Option SaleDiscountType) (value : Option Number) (cents : Option ℕ) {d : Discount}
      → discount_of doubles ctx subtotal type value cents ≡ ok d
      → IsAllowed ctx subtotal d
  unfolding discount_of
  discount_of-IsAllowed none value cents h = legacy_discount-IsAllowed (or_default cents 0) h
  discount_of-IsAllowed (some type) none cents h = cc
  discount_of-IsAllowed (some SaleDiscountType.percentage) (some value) cents h =
      percentage_discount-IsAllowed value h
  discount_of-IsAllowed (some SaleDiscountType.fixed) (some value) cents h =
      fixed_discount-IsAllowed value h

  -- A discount that is given is at most the subtotal, and at most a tenth of it, to the nearest
  -- cent, where no admin gives it.
  pub calculate_discount-IsAllowed :
      (dto : CreateSale) {d : Discount}
      → calculate_discount doubles ctx dto subtotal ≡ ok d
      → IsAllowed ctx subtotal d
  unfolding calculate_discount
  calculate_discount-IsAllowed dto h =
      let typed = is_some dto.discount_type in
      let valued = is_some dto.discount_value in
      elim (Bool-cases ((typed || valued) && is_some dto.discount_cents)) [
        | inl both ↦ absurd (ground (arith, both, h))
        | inr one ↦ elim (Bool-cases (typed && not valued || not typed && valued)) [
          | inl half ↦ absurd (ground (arith, one, half, h))
          | inr whole_one ↦
              discount_of-IsAllowed dto.discount_type dto.discount_value dto.discount_cents
                (rw (one, whole_one, calculate_discount) at h)
        ]
      ]
