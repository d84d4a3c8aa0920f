-- ===== src/Products/ScaleBarcode/RoundTrip.antt =====
-- A label of the default format, as a scale prints it, is read back.
use mathlib.Core.List.{reverse}
use next_stock_oficial.Prelude.{
  ℕ, ◌+◌, ◌-◌, ◌*◌, ◌/◌, ◌%◌, ◌<◌, ◌≡◌, refl, ◌∙◌, ap, Bool, true, false, ◌&&◌, none, [], ◌∷◌, ◌++◌,
  ◌==◌, if◌then◌else◌, arith,
}
use next_stock_oficial.Prelude.Text.{Text, is_space, trim, trim_start}
use next_stock_oficial.Products.ScaleBarcode.{
  label, default_format, is_digit, is_digits, has_valid_mod10, mod10_sum, number_from, parse_format,
  parse_scale_barcode, fits, resolve_scale_barcode_formats, label_of,
}

abbrev digit : ℕ → ℕ
digit n = b'0' + n % 10

-- six and five decimal digits of a number
abbrev pub code_digits : ℕ → Text
code_digits n =
    digit (n / 100000)
    ∷ digit (n / 10000)
    ∷ digit (n / 1000)
    ∷ digit (n / 100)
    ∷ digit (n / 10)
    ∷ digit n
    ∷ []

abbrev pub payload_digits : ℕ → Text
payload_digits n =
    digit (n / 10000) ∷ digit (n / 1000) ∷ digit (n / 100) ∷ digit (n / 10) ∷ digit n ∷ []

-- The check digit of an EAN-13 body as the standard has it: from the left, the digits count once
-- and three times in turn.
abbrev ean_sum : Text → ℕ
ean_sum [] = 0
ean_sum (c ∷ []) = c - b'0'
ean_sum (c ∷ d ∷ s) = (c - b'0') + 3 * (d - b'0') + ean_sum s

abbrev ean_check_digit : Text → ℕ
ean_check_digit body = digit (10 - ean_sum body % 10)

abbrev label_body : ℕ → ℕ → Text
label_body code grams = b'2' ∷ (code_digits code ++ payload_digits grams)

-- the label of `grams` of the product with this code
abbrev pub scale_label : ℕ → ℕ → Text
scale_label code grams = label_body code grams ++ (ean_check_digit (label_body code grams) ∷ [])

digit-not_space : (n : ℕ) → is_space (digit n) ≡ false
unfolding is_space
digit-not_space n = ground arith

digit-is_digit : (n : ℕ) → is_digit (digit n) ≡ true
digit-is_digit n = ground arith

both : {a b : Bool} → a ≡ true → b ≡ true → a && b ≡ true
both h k = ground (arith, h, k)

trim_label : (code grams : ℕ) → trim (scale_label code grams) ≡ scale_label code grams
unfolding trim trim_start is_space
trim_label code grams =
    let body = label_body code grams in
    let check = ean_check_digit body in
    ap (λ b. reverse (if b then trim_start (reverse body) else check ∷ reverse body))
      (digit-not_space (10 - ean_sum body % 10))

digits_label : (code grams : ℕ) → is_digits (scale_label code grams) ≡ true
digits_label code grams = both (digit-is_digit (code / 100000)) (
    both (digit-is_digit (code / 10000)) (
      both (digit-is_digit (code / 1000)) (
        both (digit-is_digit (code / 100)) (
          both (digit-is_digit (code / 10)) (
            both (digit-is_digit code) (
              both (digit-is_digit (grams / 10000)) (
                both (digit-is_digit (grams / 1000)) (
                  both (digit-is_digit (grams / 100)) (
                    both (digit-is_digit (grams / 10)) (
                      both (digit-is_digit grams) (
                        both (digit-is_digit (10 - ean_sum (label_body code grams) % 10))
                          refl)))))))))))

-- the sum from the right is the sum from the left
mod10_sum-twelve :
    (a b c d e f g h i j k l : ℕ)
    → mod10_sum (l ∷ k ∷ j ∷ i ∷ h ∷ g ∷ f ∷ e ∷ d ∷ c ∷ b ∷ a ∷ []) 3 0
      ≡ ean_sum (a ∷ b ∷ c ∷ d ∷ e ∷ f ∷ g ∷ h ∷ i ∷ j ∷ k ∷ l ∷ [])
unfolding mod10_sum
mod10_sum-twelve a b c d e f g h i j k l = omega arith

same_check : (s t : ℕ) → s ≡ t → (10 - s % 10) % 10 == digit (10 - t % 10) - b'0' ≡ true
same_check s t h = ground (arith, h)

check_label : (code grams : ℕ) → has_valid_mod10 (scale_label code grams) ≡ true
unfolding has_valid_mod10
check_label code grams = same_check _ (ean_sum (label_body code grams)) (
    mod10_sum-twelve b'2' (digit (code / 100000)) (digit (code / 10000)) (digit (code / 1000))
      (digit (code / 100)) (digit (code / 10)) (digit code) (digit (grams / 10000))
      (digit (grams / 1000)) (digit (grams / 100)) (digit (grams / 10)) (digit grams))

payload_label : (n : ℕ) → n < 100000 → number_from 0 (payload_digits n) ≡ n
payload_label n h = omega arith

-- where the default format fits
parse_default :
    (to_cents : ℕ → ℕ → ℕ) (text raw : Text)
    → trim text ≡ raw
    → fits raw default_format ≡ true
    → parse_scale_barcode to_cents text none ≡ parse_format to_cents default_format raw
unfolding parse_scale_barcode resolve_scale_barcode_formats
parse_default to_cents text raw same fit =
    ground (arith, ap (λ t. fits t default_format) same ∙ fit, same)

parse_format_default :
    (to_cents : ℕ → ℕ → ℕ) (code grams : ℕ)
    → 0 < number_from 0 (payload_digits grams)
    → parse_format to_cents default_format (scale_label code grams)
      ≡ label (label_of to_cents default_format (scale_label code grams))
unfolding parse_format
parse_format_default to_cents code grams positive =
    ground (arith, digits_label code grams, check_label code grams, positive)

-- A label of the default format is read back: from the six digits of a product's code and five
-- digits of grams, with the check digit that the EAN-13 standard prescribes, the parser gives the
-- code and the grams, where these are not zero.
pub parse_scale_barcode-scale_label :
    (to_cents : ℕ → ℕ → ℕ) (code grams : ℕ)
    → 0 < grams
    → grams < 100000
    → parse_scale_barcode to_cents (scale_label code grams) none
      ≡ label (record {
        format = default_format;
        raw = scale_label code grams;
        product_code = code_digits code;
        payload_raw = payload_digits grams;
        payload = grams;
        payload_cents = none;
      })
parse_scale_barcode-scale_label to_cents code grams positive few =
    let read = payload_label grams few in
    parse_default to_cents (scale_label code grams) (scale_label code grams) (trim_label code grams)
      refl
    ∙ parse_format_default to_cents code grams (omega (arith, read, positive))
    ∙ ap
        (λ n. label (record {
          format = default_format;
          raw = scale_label code grams;
          product_code = code_digits code;
          payload_raw = payload_digits grams;
          payload = n;
          payload_cents = none;
        }))
        read
