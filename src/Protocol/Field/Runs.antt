-- ===== src/Protocol/Field/Runs.antt =====
-- The field codecs at numbers on both sides of the modulus.
use zwa_protocol.Prelude.{ℕ, ◌≡◌, ◌≤◌, ◌<◌, ◌^◌, ◌⊎◌, refl, List, [], ◌∷◌, arith, ◌↔◌}
use zwa_protocol.Protocol.Error.{
  ok, err, invalid_field_encoding, not_reduced, not_decimal, decimal_overflow,
}
use zwa_protocol.Protocol.Field.{FieldElement, from_u64, from_decimal_str, to_decimal_string}
use zwa_protocol.Protocol.Field.Canonical.{value, modulus, IsCanonical, from_u64-value}
use zwa_protocol.Protocol.Field.Decimal.{IsDecimal, decimal, from_decimal_str_cases}
use zwa_protocol.Protocol.Field.Unpadded.{IsUnpadded, to_decimal_string_iff}

abbrev seventy : FieldElement
seventy = from_u64 70

seventy-IsCanonical : IsCanonical seventy
seventy-IsCanonical = (from_u64-value 70 (omega arith)).0

-- "070"
abbrev seventy_text : List ℕ
seventy_text = 48 ∷ 55 ∷ 48 ∷ []

from_decimal_str_cases_example :
    ((¬ IsDecimal seventy_text)
      × (from_decimal_str seventy_text ≡ err (invalid_field_encoding not_decimal)))
    ⊎ ((e : FieldElement) × IsDecimal seventy_text
        × (from_decimal_str seventy_text ≡ ok e)
        × IsCanonical e
        × (value e ≡ decimal seventy_text))
    ⊎ (IsDecimal seventy_text
        × (modulus ≤ decimal seventy_text)
        × (decimal seventy_text < 2 ^ 256)
        × (from_decimal_str seventy_text ≡ err (invalid_field_encoding not_reduced)))
    ⊎ (IsDecimal seventy_text
        × (2 ^ 256 ≤ decimal seventy_text)
        × (from_decimal_str seventy_text ≡ err (invalid_field_encoding decimal_overflow)))
from_decimal_str_cases_example = from_decimal_str_cases seventy_text

to_decimal_string_iff_example :
    (to_decimal_string seventy ≡ seventy_text)
    ↔ (IsUnpadded seventy_text × (from_decimal_str seventy_text ≡ ok seventy))
to_decimal_string_iff_example = to_decimal_string_iff seventy seventy_text seventy-IsCanonical

-- "70": what is printed has no leading zero.
prints_seventy : to_decimal_string seventy ≡ 55 ∷ 48 ∷ []
unfolding to_decimal_string from_u64
prints_seventy = refl
