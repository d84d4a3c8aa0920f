-- ===== src/Products/ScaleBarcode/Check.antt =====
-- The check digit of a label finds every digit that is misread.
use mathlib.Core.List.{reverse, reverse_aux, reverse-append, reverse_aux-eq, append_assoc}
use next_stock_oficial.Prelude.{
  ℕ, ◌+◌, ◌-◌, ◌*◌, ◌%◌, ◌≡◌, ◌≢◌, ◌⊎◌, inl, inr, ◌∙◌, ap, sym, refl, all, true, false, [], ◌∷◌,
  ◌++◌, ◌==◌, arith, Bool-cases,
}
use next_stock_oficial.Prelude.Text.{Text}
use next_stock_oficial.Products.ScaleBarcode.{
  is_digit, next_factor, mod10_sum, ends_in_check_digit, has_valid_mod10,
}

regroup : (m x t : ℕ) → m + x + t ≡ m + (0 + x + t)
regroup m x t = omega arith

-- what has been summed before
mod10_sum_lem : (s : Text) (factor m : ℕ) → mod10_sum s factor m ≡ m + mod10_sum s factor 0
unfolding mod10_sum
mod10_sum_lem [] factor m = omega arith
mod10_sum_lem (c ∷ s) factor m =
    let x = (c - b'0') * factor in
    let later = mod10_sum s (next_factor factor) 0 in
    let lhs = mod10_sum_lem s (next_factor factor) (m + x) in
    let rhs = mod10_sum_lem s (next_factor factor) (0 + x) in
    lhs ∙ regroup m x later ∙ ap (λ t. m + t) (sym rhs)

next_factor_lem :
    (factor : ℕ) → (factor ≡ 1) ⊎ (factor ≡ 3) → (next_factor factor ≡ 1) ⊎ (next_factor factor ≡ 3)
next_factor_lem factor (inl one) = inr (ground (arith, one))
next_factor_lem factor (inr three) = inl (ground (arith, three))

digit_moves :
    (c d factor m t : ℕ)
    → (factor ≡ 1) ⊎ (factor ≡ 3)
    → is_digit c ≡ true
    → is_digit d ≡ true
    → (m + (c - b'0') * factor + t) % 10 ≡ (m + (d - b'0') * factor + t) % 10
    → c ≡ d
digit_moves c d factor m t (inl one) hc hd h = ground (arith, hc, hd, rw one at h)
digit_moves c d factor m t (inr three) hc hd h = ground (arith, hc, hd, rw three at h)

-- A misread digit in the body changes the sum by no multiple of ten.
mod10_sum-moves :
    (x y : Text) (c d factor m : ℕ)
    → (factor ≡ 1) ⊎ (factor ≡ 3)
    → is_digit c ≡ true
    → is_digit d ≡ true
    → mod10_sum (x ++ (c ∷ y)) factor m % 10 ≡ mod10_sum (x ++ (d ∷ y)) factor m % 10
    → c ≡ d
unfolding mod10_sum
mod10_sum-moves [] y c d factor m w hc hd h =
    let next = next_factor factor in
    digit_moves c d factor m (mod10_sum y next 0) w hc hd (
      ap (λ n. n % 10) (sym (mod10_sum_lem y next (m + (c - b'0') * factor)))
      ∙ h
      ∙ ap (λ n. n % 10) (mod10_sum_lem y next (m + (d - b'0') * factor)))
mod10_sum-moves (a ∷ x) y c d factor m w hc hd h =
    mod10_sum-moves x y c d (next_factor factor) (m + (a - b'0') * factor)
      (next_factor_lem factor w) hc hd h

expected_moves :
    (n m c : ℕ)
    → is_digit c ≡ true
    → (10 - n % 10) % 10 == c - b'0' ≡ true
    → (10 - m % 10) % 10 == c - b'0' ≡ true
    → n % 10 ≡ m % 10
expected_moves n m c hc h k = ground (arith, h, k)

last_moves :
    (n c d : ℕ)
    → is_digit c ≡ true
    → is_digit d ≡ true
    → (10 - n % 10) % 10 == c - b'0' ≡ true
    → (10 - n % 10) % 10 == d - b'0' ≡ true
    → c ≡ d
last_moves n c d hc hd h k = ground (arith, hc, hd, h, k)

-- the same from the end of the text, where the check digit stands first
ends-moves :
    (x y : Text) (c d : ℕ)
    → all is_digit x ≡ true
    → is_digit c ≡ true
    → is_digit d ≡ true
    → ends_in_check_digit (x ++ (c ∷ y)) ≡ true
    → ends_in_check_digit (x ++ (d ∷ y)) ≡ true
    → c ≡ d
ends-moves [] y c d _ hc hd h k = last_moves (mod10_sum y 3 0) c d hc hd h k
ends-moves (a ∷ x) y c d hx hc hd h k = mod10_sum-moves x y c d 3 0 (inr refl) hc hd (
    expected_moves (mod10_sum (x ++ (c ∷ y)) 3 0) (mod10_sum (x ++ (d ∷ y)) 3 0) a
      (ground (arith, hx)) h k)

reverse_middle : (x y : Text) (c : ℕ) → reverse (x ++ (c ∷ y)) ≡ reverse y ++ (c ∷ reverse x)
reverse_middle x y c =
    reverse-append x (c ∷ y)
    ∙ ap (λ t. t ++ reverse x) (reverse_aux-eq y (c ∷ []))
    ∙ append_assoc (reverse y) (c ∷ []) (reverse x)

all-reverse_aux :
    (s t : Text)
    → all is_digit s ≡ true
    → all is_digit t ≡ true
    → all is_digit (reverse_aux s t) ≡ true
all-reverse_aux [] t h k = k
all-reverse_aux (c ∷ s) t h k = all-reverse_aux s (c ∷ t) (ground (arith, h)) (ground (arith, h, k))

-- A text of digits that ends in the right check digit no longer does after any one of its digits
-- is replaced by another, wherever it stands.
pub has_valid_mod10-misread :
    (before after : Text) (c d : ℕ)
    → all is_digit after ≡ true
    → is_digit c ≡ true
    → is_digit d ≡ true
    → c ≢ d
    → has_valid_mod10 (before ++ (c ∷ after)) ≡ true
    → has_valid_mod10 (before ++ (d ∷ after)) ≡ false
unfolding has_valid_mod10
has_valid_mod10-misread before after c d digits hc hd apart valid =
    elim (Bool-cases (has_valid_mod10 (before ++ (d ∷ after)))) [
      | inr invalid ↦ invalid
      | inl also ↦ absurd (
          apart (
            ends-moves (reverse after) (reverse before) c d (all-reverse_aux after [] digits refl)
              hc hd (ap ends_in_check_digit (sym (reverse_middle before after c)) ∙ valid)
              (ap ends_in_check_digit (sym (reverse_middle before after d)) ∙ also)))
    ]
