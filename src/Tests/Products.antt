-- ===== src/Tests/Products.antt =====
-- The theorems on scale labels at the label of the repository's own test.
use next_stock_oficial.Prelude.{ℕ, ◌≡◌, refl, false, none, [], ◌∷◌, ◌++◌, arith}
use next_stock_oficial.Prelude.Text.{Text, trim}
use next_stock_oficial.Products.ScaleBarcode.{
  ParsedScaleLabel, label, wrong_check_digit, default_format, has_valid_mod10, label_of,
  parse_scale_barcode,
}
use next_stock_oficial.Products.ScaleBarcode.Check.{has_valid_mod10-misread}
use next_stock_oficial.Products.ScaleBarcode.Formats.{Admits}
use next_stock_oficial.Products.ScaleBarcode.Labels.{IsLabel, parse_scale_barcode-IsLabel}
use next_stock_oficial.Products.ScaleBarcode.RoundTrip.{
  scale_label, code_digits, payload_digits, parse_scale_barcode-scale_label,
}

-- hundredths to cents
abbrev cents : ℕ → ℕ → ℕ
cents n d = n

-- 2001234500012
abbrev code_1234 : Text
code_1234 =
    b'2' ∷ b'0' ∷ b'0' ∷ b'1' ∷ b'2' ∷ b'3' ∷ b'4' ∷ b'5' ∷ b'0' ∷ b'0' ∷ b'0' ∷ b'1' ∷ b'2' ∷ []

abbrev label_1234 : ParsedScaleLabel
label_1234 = label_of cents default_format code_1234

read_1234 : parse_scale_barcode cents code_1234 none ≡ label label_1234
unfolding parse_scale_barcode trim
read_1234 = refl

grams_1234 : label_1234.payload ≡ 50001
grams_1234 = refl

printed_1234 : scale_label 1234 50001 ≡ code_1234
printed_1234 = refl

misread_1234 :
    parse_scale_barcode cents
      (b'2' ∷ b'0' ∷ b'0' ∷ b'1' ∷ b'2' ∷ b'3' ∷ b'4' ∷ b'5' ∷ b'0' ∷ b'0' ∷ b'0' ∷ b'1' ∷ b'3'
        ∷ [])
      none
    ≡ wrong_check_digit
unfolding parse_scale_barcode trim
misread_1234 = refl

parse_scale_barcode-IsLabel_example :
    IsLabel (trim code_1234) label_1234 × Admits none label_1234.format
parse_scale_barcode-IsLabel_example = parse_scale_barcode-IsLabel cents code_1234 none read_1234

has_valid_mod10-misread_example : has_valid_mod10 ((b'2' ∷ b'0' ∷ []) ++ (b'7' ∷ b'9' ∷ [])) ≡ false
unfolding has_valid_mod10
has_valid_mod10-misread_example =
    has_valid_mod10-misread (b'2' ∷ b'0' ∷ []) (b'9' ∷ []) b'5' b'7' refl refl refl (omega arith)
      refl

parse_scale_barcode-scale_label_example :
    parse_scale_barcode cents (scale_label 1234 50001) none
    ≡ label (record {
      format = default_format;
      raw = code_1234;
      product_code = code_digits 1234;
      payload_raw = payload_digits 50001;
      payload = 50001;
      payload_cents = none;
    })
parse_scale_barcode-scale_label_example =
    parse_scale_barcode-scale_label cents 1234 50001 (omega arith) (omega arith)
