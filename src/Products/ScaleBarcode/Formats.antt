-- ===== src/Products/ScaleBarcode/Formats.antt =====
-- Every format that is used has its positions inside the barcode, before the check digit.
use next_stock_oficial.Prelude.{
  ◌+◌, ◌≤◌, ◌<◌, ◌≡◌, ◌≢◌, ◌⊎◌, ℕ, refl, false, Any, sym, ap, subst, ◌∙◌, Bool, true, Option, none,
  some, List, [], ◌∷◌, map, select, find, All, or_default, arith, inl, inr, Bool-cases,
}
use next_stock_oficial.Prelude.Text.{Text, is_empty}
use next_stock_oficial.Products.ScaleBarcode.{
  PartialFormat, weight, value, mod10, unchecked, ScaleBarcodeFormat, ScaleBarcodeConfig,
  default_format, resolve_format, is_resolved_format, or_single, resolve_scale_barcode_formats,
}

-- a format whose two parts are not empty and stand before the last digit
pub record IsResolved (f : ScaleBarcodeFormat) : Type 0 where
  pub product_there : 0 < f.product_length
  pub payload_there : 0 < f.payload_length
  pub product_fits : f.product_start + f.product_length < f.length
  pub payload_fits : f.payload_start + f.payload_length < f.length
  pub few_decimals : f.decimals ≤ 6

is_resolved_format-IsResolved :
    (f : ScaleBarcodeFormat) → is_resolved_format f ≡ true → IsResolved f
unfolding is_resolved_format
is_resolved_format-IsResolved f h = ground (arith, h)

default_format-IsResolved : IsResolved default_format
default_format-IsResolved = omega arith

All-select : (fs : List ScaleBarcodeFormat) → All IsResolved (select is_resolved_format fs)
All-select [] = tt
All-select (f ∷ fs) = elim (Bool-cases (is_resolved_format f)) [
  | inl good ↦ rw good (is_resolved_format-IsResolved f good, All-select fs)
  | inr bad ↦ rw bad (All-select fs)
]

All-or_single :
    (fs : List ScaleBarcodeFormat)
    → All IsResolved fs
    → All IsResolved (or_single fs default_format)
All-or_single [] h = (default_format-IsResolved, tt)
All-or_single (f ∷ fs) h = h

pub resolve_scale_barcode_formats-IsResolved :
    (config : Option ScaleBarcodeConfig) → All IsResolved (resolve_scale_barcode_formats config)
unfolding resolve_scale_barcode_formats
resolve_scale_barcode_formats-IsResolved none = (default_format-IsResolved, tt)
resolve_scale_barcode_formats-IsResolved (some config) =
    elim (Bool-cases (or_default config.enabled true)) [
      | inl on ↦ rw on (All-or_single _ (All-select (map resolve_format config.formats)))
      | inr off ↦ rw off tt
    ]

-- what is found has the property of all, and passes the test
pub find-All :
    (p : ScaleBarcodeFormat → Bool) (fs : List ScaleBarcodeFormat) {f : ScaleBarcodeFormat}
    → All IsResolved fs
    → find p fs ≡ some f
    → IsResolved f × (p f ≡ true)
find-All p [] h found = cc
find-All p (g ∷ fs) {f} (hg, h) found = elim (Bool-cases (p g)) [
  | inl meets ↦
      let is : g ≡ f = ground (arith, meets, found) in
      (subst IsResolved is hg, ap p (sym is) ∙ meets)
  | inr misses ↦ find-All p fs h (ground (arith, misses, found))
]

-- a format that says what the configuration says, wherever that says something
pub record Follows (raw : PartialFormat) (f : ScaleBarcodeFormat) : Type 0 where
  pub prefix : (s : Text) → raw.prefix ≡ some s → is_empty s ≡ false → f.prefix ≡ s
  pub length : (n : ℕ) → raw.length ≡ some n → n ≢ 0 → f.length ≡ n
  pub product_start : (n : ℕ) → raw.product_start ≡ some n → f.product_start ≡ n
  pub product_length : (n : ℕ) → raw.product_length ≡ some n → f.product_length ≡ n
  pub payload_start : (n : ℕ) → raw.payload_start ≡ some n → f.payload_start ≡ n
  pub payload_length : (n : ℕ) → raw.payload_length ≡ some n → f.payload_length ≡ n
  pub decimals : (n : ℕ) → raw.decimals ≡ some n → f.decimals ≡ n
  pub by_value : raw.by_value ≡ true → f.payload_type ≡ value
  pub by_weight : raw.by_value ≡ false → f.payload_type ≡ weight
  pub unchecked_there : raw.no_check ≡ true → f.check_digit ≡ unchecked
  pub checked_there : raw.no_check ≡ false → f.check_digit ≡ mod10

-- The formats that a configuration admits: the default, and those that it lists. One that is
-- switched off admits none.
pub record Admits (config : Option ScaleBarcodeConfig) (f : ScaleBarcodeFormat) : Type 0 where
  pub switched_on : (c : ScaleBarcodeConfig) → config ≡ some c → c.enabled ≢ some false
  pub listed :
      (f ≡ default_format)
      ⊎ ((c : ScaleBarcodeConfig) × (config ≡ some c) × Any (λ raw. Follows raw f) c.formats)

resolve_format-Follows : (raw : PartialFormat) → Follows raw (resolve_format raw)
unfolding resolve_format
resolve_format-Follows raw = record {
  prefix = λ s h k. ground (arith, h, k);
  length = λ n h k. ground (arith, h, k);
  product_start = λ n h. ground (arith, h);
  product_length = λ n h. ground (arith, h);
  payload_start = λ n h. ground (arith, h);
  payload_length = λ n h. ground (arith, h);
  decimals = λ n h. ground (arith, h);
  by_value = λ h. ground (arith, h);
  by_weight = λ h. ground (arith, h);
  unchecked_there = λ h. ground (arith, h);
  checked_there = λ h. ground (arith, h);
}

Any-select_resolved :
    (raws : List PartialFormat) (f : ScaleBarcodeFormat)
    → Any (λ g. g ≡ f) (select is_resolved_format (map resolve_format raws))
    → Any (λ raw. Follows raw f) raws
Any-select_resolved [] f h = h
Any-select_resolved (raw ∷ raws) f h = elim (Bool-cases (is_resolved_format (resolve_format raw))) [
  | inr bad ↦ inr (Any-select_resolved raws f (rw bad at h))
  | inl good ↦ elim (rw good at h) [
    | inl is ↦ inl (subst (Follows raw) is (resolve_format-Follows raw))
    | inr later ↦ inr (Any-select_resolved raws f later)
  ]
]

Any-or_single :
    (fs : List ScaleBarcodeFormat) {f : ScaleBarcodeFormat}
    → Any (λ g. g ≡ f) (or_single fs default_format)
    → (f ≡ default_format) ⊎ Any (λ g. g ≡ f) fs
Any-or_single [] (inl is) = inl (sym is)
Any-or_single [] (inr none_left) = absurd none_left
Any-or_single (g ∷ fs) h = inr h

pub resolve_scale_barcode_formats-Admits :
    (config : Option ScaleBarcodeConfig) {f : ScaleBarcodeFormat}
    → Any (λ g. g ≡ f) (resolve_scale_barcode_formats config)
    → Admits config f
unfolding resolve_scale_barcode_formats
resolve_scale_barcode_formats-Admits none (inl is) = record {
  switched_on = λ c h. cc;
  listed = inl (sym is);
}
resolve_scale_barcode_formats-Admits none (inr none_left) = absurd none_left
resolve_scale_barcode_formats-Admits (some config) {f} h =
    elim (Bool-cases (or_default config.enabled true)) [
      | inr off ↦ absurd (rw off at h)
      | inl on ↦ record {
        switched_on = λ c is was. ground (arith, is, was, on);
        listed = elim (Any-or_single _ (rw on at h)) [
          | inl is ↦ inl is
          | inr one ↦ inr (config, refl, Any-select_resolved config.formats f one)
        ];
      }
    ]
