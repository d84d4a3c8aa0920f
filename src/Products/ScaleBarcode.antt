-- ===== src/Products/ScaleBarcode.antt =====
-- src/products/scale-barcode.util.ts: the labels that a scale prints, with the code of a product
-- and a weight or a price between the digits of a barcode.
pub mod Check
pub mod Formats
pub mod Labels
pub mod RoundTrip
use mathlib.Core.List.{reverse}
use next_stock_oficial.Prelude.{
  ℕ, zero, suc, ◌+◌, ◌-◌, ◌*◌, ◌%◌, Bool, true, false, not, ◌&&◌, ◌||◌, Option, none, some, List,
  [], ◌∷◌, map, select, find, all, length, or_default, ltb, leb, ◌==◌, if◌then◌else◌,
}
use next_stock_oficial.Prelude.Text.{Text, is_empty, slice_to, starts_with, trim}

pub data ScaleLabelPayloadType : Type 0 where
  weight value : ScaleLabelPayloadType

pub data CheckDigit : Type 0 where
  mod10 unchecked : CheckDigit

pub record ScaleBarcodeFormat : Type 0 where
  pub prefix : Text
  pub length : ℕ
  pub product_start : ℕ
  pub product_length : ℕ
  pub payload_start : ℕ
  pub payload_length : ℕ
  pub payload_type : ScaleLabelPayloadType
  pub decimals : ℕ
  pub check_digit : CheckDigit

-- A format as it is configured, `Partial<ScaleBarcodeFormat>`, with the numbers that are there
-- natural. A `checkDigit` that is not 'none' is as good as none at all.
pub record PartialFormat : Type 0 where
  pub prefix : Option Text
  pub length : Option ℕ
  pub product_start : Option ℕ
  pub product_length : Option ℕ
  pub payload_start : Option ℕ
  pub payload_length : Option ℕ
  pub by_value : Bool
  pub decimals : Option ℕ
  pub no_check : Bool

pub record ScaleBarcodeConfig : Type 0 where
  pub enabled : Option Bool
  pub formats : List PartialFormat

-- `payload` counts units of 10 ^ -decimals; `payload_cents` is there where it is a price.
pub record ParsedScaleLabel : Type 0 where
  pub format : ScaleBarcodeFormat
  pub raw : Text
  pub product_code : Text
  pub payload_raw : Text
  pub payload : ℕ
  pub payload_cents : Option ℕ

pub data ScaleLabelParseResult : Type 0 where
  not_label : ScaleLabelParseResult
  -- the four messages
  not_digits wrong_check_digit incomplete_positions zero_payload : ScaleLabelParseResult
  label : ParsedScaleLabel → ScaleLabelParseResult

abbrev pub default_format : ScaleBarcodeFormat
default_format = record {
  prefix = b'2' ∷ [];
  length = 13;
  product_start = 1;
  product_length = 6;
  payload_start = 7;
  payload_length = 5;
  payload_type = weight;
  decimals = 3;
  check_digit = mod10;
}

-- `/^\d+$/`
abbrev pub is_digit : ℕ → Bool
is_digit c = leb b'0' c && leb c b'9'

abbrev pub is_digits : Text → Bool
is_digits s = not (is_empty s) && all is_digit s

-- `s || d`, of a text and of a number
abbrev or_text : Option Text → Text → Text
or_text none d = d
or_text (some s) d = if is_empty s then d else s

abbrev or_number : Option ℕ → ℕ → ℕ
or_number none d = d
or_number (some n) d = if n == 0 then d else n

unfoldable pub resolve_format : PartialFormat → ScaleBarcodeFormat
resolve_format raw = record {
  prefix = or_text raw.prefix default_format.prefix;
  length = or_number raw.length default_format.length;
  product_start = or_default raw.product_start default_format.product_start;
  product_length = or_default raw.product_length default_format.product_length;
  payload_start = or_default raw.payload_start default_format.payload_start;
  payload_length = or_default raw.payload_length default_format.payload_length;
  payload_type = if raw.by_value then value else weight;
  decimals = or_default raw.decimals default_format.decimals;
  check_digit = if raw.no_check then unchecked else mod10;
}

unfoldable pub is_resolved_format : ScaleBarcodeFormat → Bool
is_resolved_format f =
    is_digits f.prefix
    && leb (length f.prefix) f.length
    && leb 2 f.length
    && ltb 0 f.product_length
    && ltb 0 f.payload_length
    && leb (f.product_start + f.product_length) (f.length - 1)
    && leb (f.payload_start + f.payload_length) (f.length - 1)
    && leb f.decimals 6

-- `xs.length ? xs : [d]`
abbrev pub or_single {ℓ} : {A : Type ℓ} → List A → A → List A
or_single [] d = d ∷ []
or_single (x ∷ xs) d = x ∷ xs

-- where no format is configured the default is resolved, which gives the default
unfoldable pub resolve_scale_barcode_formats : Option ScaleBarcodeConfig → List ScaleBarcodeFormat
unfolding resolve_format is_resolved_format
resolve_scale_barcode_formats none = default_format ∷ []
resolve_scale_barcode_formats (some config) =
    if or_default config.enabled true
    then or_single (select is_resolved_format (map resolve_format config.formats)) default_format
    else []

-- `weight = weight === 3 ? 1 : 3`
abbrev pub next_factor : ℕ → ℕ
next_factor factor = if factor == 3 then 1 else 3

-- the loop of `hasValidMod10`, over the body from its end
unfoldable pub mod10_sum : Text → ℕ → ℕ → ℕ
mod10_sum [] factor sum = sum
mod10_sum (c ∷ rest) factor sum = mod10_sum rest (next_factor factor) (sum + (c - b'0') * factor)

-- on the text from its end: its first digit is the one that is expected
abbrev pub ends_in_check_digit : Text → Bool
ends_in_check_digit [] = false
ends_in_check_digit (c ∷ body) = (10 - mod10_sum body 3 0 % 10) % 10 == c - b'0'

unfoldable pub has_valid_mod10 : Text → Bool
unfolding mod10_sum
has_valid_mod10 s = ends_in_check_digit (reverse s)

-- `s.slice(start, start + n)`
abbrev pub slice_from : ℕ → Text → Text
slice_from zero s = s
slice_from (suc n) [] = []
slice_from (suc n) (c ∷ s) = slice_from n s

abbrev pub slice : Text → ℕ → ℕ → Text
slice s start n = slice_to n (slice_from start s)

-- `Number(s)` of digits
abbrev pub number_from : ℕ → Text → ℕ
number_from n [] = n
number_from n (c ∷ s) = number_from (n * 10 + (c - b'0')) s

abbrev pub is_checked : CheckDigit → Bool
is_checked mod10 = true
is_checked unchecked = false

-- the test of `formats.find`
abbrev pub fits : Text → ScaleBarcodeFormat → Bool
fits raw format = starts_with format.prefix raw && length raw == format.length

-- `to_cents n d` is `Math.round(n / 10 ** d * 100)`, in doubles
module _ (to_cents : ℕ → ℕ → ℕ) where
  abbrev pub label_of : ScaleBarcodeFormat → Text → ParsedScaleLabel
  label_of format raw =
      let payload_raw = slice raw format.payload_start format.payload_length in
      let payload = number_from 0 payload_raw in
      record {
        format = format;
        raw = raw;
        product_code = slice raw format.product_start format.product_length;
        payload_raw = payload_raw;
        payload = payload;
        payload_cents = elim format.payload_type [
          | value ↦ some (to_cents payload format.decimals)
          | weight ↦ none
        ];
      }

  -- the part of `parseScaleBarcode` behind the choice of the format
  unfoldable pub parse_format : ScaleBarcodeFormat → Text → ScaleLabelParseResult
  unfolding has_valid_mod10
  parse_format format raw =
      let l = label_of format raw in
      if not (is_digits raw)
      then not_digits
      else if is_checked format.check_digit && not (has_valid_mod10 raw)
      then wrong_check_digit
      else if not (length l.product_code == format.product_length)
          || not (length l.payload_raw == format.payload_length)
      then incomplete_positions
      else if l.payload == 0
      then zero_payload
      else label l

  unfoldable pub parse_scale_barcode : Text → Option ScaleBarcodeConfig → ScaleLabelParseResult
  unfolding parse_format resolve_scale_barcode_formats
  parse_scale_barcode text config =
      let raw = trim text in
      elim (find (fits raw) (resolve_scale_barcode_formats config)) [
        | none ↦ not_label
        | some format ↦ parse_format format raw
      ]
