-- ===== src/Products/ScaleBarcode/Labels.antt =====
-- What a label that is read holds, and that a label of the default format is read back.
use native.Mathlib.Nat.{mul-le-mul_right, pow-suc}
use next_stock_oficial.Prelude.{
  ℕ, zero, suc, ◌+◌, ◌-◌, ◌*◌, ◌^◌, ◌≤◌, ◌<◌, ◌≡◌, ◌≢◌, refl, ap, sym, subst, ◌∙◌, find-Any, true,
  not, ◌&&◌, Option, [], ◌∷◌, find, all, length, ◌==◌, arith, inl, inr, Bool-cases, Option-cases,
}
use next_stock_oficial.Prelude.Text.{Text, slice_to, trim}
use next_stock_oficial.Products.ScaleBarcode.{
  ScaleBarcodeFormat, ScaleBarcodeConfig, ParsedScaleLabel, label, incomplete_positions, is_digit,
  is_digits, is_checked, has_valid_mod10, slice, slice_from, number_from, label_of, parse_format,
  fits, parse_scale_barcode, resolve_scale_barcode_formats,
}
use next_stock_oficial.Products.ScaleBarcode.Formats.{
  Admits, resolve_scale_barcode_formats-Admits, IsResolved,
  resolve_scale_barcode_formats-IsResolved, find-All,
}

length-slice_to : (n : ℕ) (s : Text) → n ≤ length s → length (slice_to n s) ≡ n
length-slice_to zero s h = refl
length-slice_to (suc n) [] h = absurd (omega arith)
length-slice_to (suc n) (c ∷ s) h = ap suc (length-slice_to n s (omega arith))

length-slice_from : (n : ℕ) (s : Text) → n ≤ length s → length (slice_from n s) + n ≡ length s
length-slice_from zero s h = omega arith
length-slice_from (suc n) [] h = absurd (omega arith)
length-slice_from (suc n) (c ∷ s) h = omega (arith, length-slice_from n s (omega arith))

length-slice : (s : Text) (start n : ℕ) → start + n ≤ length s → length (slice s start n) ≡ n
length-slice s start n h =
    length-slice_to n (slice_from start s) (omega (arith, length-slice_from start s (omega arith)))

all-slice_to : (n : ℕ) (s : Text) → all is_digit s ≡ true → all is_digit (slice_to n s) ≡ true
all-slice_to zero s h = refl
all-slice_to (suc n) [] h = refl
all-slice_to (suc n) (c ∷ s) h = ground (arith, h, all-slice_to n s)

all-slice_from : (n : ℕ) (s : Text) → all is_digit s ≡ true → all is_digit (slice_from n s) ≡ true
all-slice_from zero s h = h
all-slice_from (suc n) [] h = refl
all-slice_from (suc n) (c ∷ s) h = all-slice_from n s (ground (arith, h))

regroup : (n p : ℕ) → (n + 1) * (p * 10) ≡ (n + 1) * 10 * p
regroup n p = grind arith

digit_le : (n c : ℕ) → is_digit c ≡ true → n * 10 + (c - b'0') + 1 ≤ (n + 1) * 10
digit_le n c h = ground (arith, h)

-- a number has no more digits than its text
number_from-lt :
    (n : ℕ) (s : Text) → all is_digit s ≡ true → number_from n s < (n + 1) * 10 ^ length s
number_from-lt n [] h = omega arith
number_from-lt n (c ∷ s) h =
    let p = 10 ^ length s in
    let next = number_from-lt (n * 10 + (c - b'0')) s (ground (arith, h)) in
    let le = mul-le-mul_right p (digit_le n c (ground (arith, h))) in
    let scale : (n + 1) * 10 ^ suc (length s) ≡ (n + 1) * 10 * p =
      ap (λ t. (n + 1) * t) (pow-suc 10 (length s)) ∙ regroup n p in
    omega (arith, next, le, scale)

-- What a label that is read holds.
pub record IsLabel (raw : Text) (l : ParsedScaleLabel) : Type 0 where
  pub resolved : IsResolved l.format
  pub raw_text : l.raw ≡ raw
  pub fitting : fits raw l.format ≡ true
  pub digits : is_digits raw ≡ true
  pub valid : is_checked l.format.check_digit ≡ true → has_valid_mod10 raw ≡ true
  pub code : l.product_code ≡ slice raw l.format.product_start l.format.product_length
  pub code_length : length l.product_code ≡ l.format.product_length
  pub positive : 0 < l.payload
  pub bounded : l.payload < 10 ^ l.format.payload_length

module _ (to_cents : ℕ → ℕ → ℕ) where
  parts_complete :
      (f : ScaleBarcodeFormat) (raw : Text)
      → IsResolved f
      → fits raw f ≡ true
      → (length (label_of to_cents f raw).product_code ≡ f.product_length)
        × (length (label_of to_cents f raw).payload_raw ≡ f.payload_length)
  parts_complete f raw r fit =
      let long : length raw ≡ f.length = ground (arith, fit) in
      (
        length-slice raw f.product_start f.product_length (omega (arith, r.product_fits)),
        length-slice raw f.payload_start f.payload_length (omega (arith, r.payload_fits)),
      )

  payload_lt :
      (f : ScaleBarcodeFormat) (raw : Text)
      → is_digits raw ≡ true
      → length (label_of to_cents f raw).payload_raw ≡ f.payload_length
      → (label_of to_cents f raw).payload < 10 ^ f.payload_length
  payload_lt f raw digits long =
      let part = slice raw f.payload_start f.payload_length in
      let cut =
        all-slice_to f.payload_length (slice_from f.payload_start raw)
          (all-slice_from f.payload_start raw (ground (arith, digits))) in
      omega (arith, number_from-lt 0 part cut, ap (λ k. 10 ^ k) long)

  parse_format_ok :
      (f : ScaleBarcodeFormat) (raw : Text) {l : ParsedScaleLabel}
      → IsResolved f
      → fits raw f ≡ true
      → parse_format to_cents f raw ≡ label l
      → IsLabel raw l
  unfolding parse_format
  parse_format_ok f raw {l} r fit h =
      let m = label_of to_cents f raw in
      let (code, rest) = parts_complete f raw r fit in
      elim (Bool-cases (is_digits raw)) [
        | inr other ↦ absurd (ground (arith, other, h))
        | inl digits ↦ elim (Bool-cases (is_checked f.check_digit && not (has_valid_mod10 raw))) [
          | inl wrong ↦ absurd (ground (arith, digits, wrong, h))
          | inr right ↦ elim (Bool-cases (m.payload == 0)) [
            | inl zero_there ↦ absurd (ground (arith, digits, right, code, rest, zero_there, h))
            | inr positive ↦
                let is : m ≡ l = ground (arith, digits, right, code, rest, positive, h) in
                subst (IsLabel raw) is record {
                  resolved = r;
                  raw_text = refl;
                  fitting = fit;
                  digits = digits;
                  valid = λ k. ground (arith, right, k);
                  code = refl;
                  code_length = code;
                  positive = ground (arith, positive);
                  bounded = payload_lt f raw digits rest;
                }
          ]
        ]
      ]

  -- a label has the format that it is read by
  parse_format_uses :
      (f : ScaleBarcodeFormat) (raw : Text) {l : ParsedScaleLabel}
      → parse_format to_cents f raw ≡ label l
      → l.format ≡ f
  unfolding parse_format
  parse_format_uses f raw h = ground (arith, h)

  -- A label that is read has only digits and a right check digit where its format has one, its
  -- code is as long as the format says, and its payload is positive and has no more digits than
  -- the format says. The parts of the format lie before the last digit. The configuration is not
  -- switched off, and the format is the default or says what one that is configured says, wherever
  -- that says something.
  pub parse_scale_barcode-IsLabel :
      (text : Text) (config : Option ScaleBarcodeConfig) {l : ParsedScaleLabel}
      → parse_scale_barcode to_cents text config ≡ label l
      → IsLabel (trim text) l × Admits config l.format
  unfolding parse_scale_barcode
  parse_scale_barcode-IsLabel text config {l} h =
      let formats = resolve_scale_barcode_formats config in
      elim (Option-cases (find (fits (trim text)) formats)) [
        | inl missing ↦ absurd (ground (arith, missing, h))
        | inr (f, found) ↦
            let (r, fit) =
              find-All (fits (trim text)) formats (resolve_scale_barcode_formats-IsResolved config)
                found in
            let parsed = rw (found, parse_scale_barcode) at h in
            let holds = parse_format_ok f (trim text) r fit parsed in
            let is = parse_format_uses f (trim text) parsed in
            (
              holds,
              subst (Admits config) (sym is) (
                  resolve_scale_barcode_formats-Admits config
                    (find-Any (fits (trim text)) formats found)),
            )
      ]

  -- No text and no configuration lead to the error of incomplete positions.
  pub parse_scale_barcode_complete :
      (text : Text) (config : Option ScaleBarcodeConfig)
      → parse_scale_barcode to_cents text config ≢ incomplete_positions
  unfolding parse_scale_barcode parse_format
  parse_scale_barcode_complete text config h =
      let formats = resolve_scale_barcode_formats config in
      elim (Option-cases (find (fits (trim text)) formats)) [
        | inl missing ↦ ground (arith, missing, h)
        | inr (f, found) ↦
            let (r, fit) =
              find-All (fits (trim text)) formats (resolve_scale_barcode_formats-IsResolved config)
                found in
            let (code, rest) = parts_complete f (trim text) r fit in
            ground (arith, found, code, rest, h)
      ]
