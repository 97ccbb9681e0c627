-- ===== src/Protocol/Values/Runs.antt =====
-- A trade commitment that is read from bytes and from text.
use zwa_protocol.Prelude.{ℕ, ◌≡◌, ◌↔◌, refl, List, [], ◌∷◌, ◌++◌, replicate, arith}
use zwa_protocol.Protocol.Error.{ok}
use zwa_protocol.Protocol.Field.Canonical.{value, IsCanonical}
use zwa_protocol.Protocol.Field.Decimal.{IsDecimal, decimal}
use zwa_protocol.Protocol.Values.{
  TradeCommitment, newtype_from_decimal_str, newtype_from_be_bytes, newtype_to_be_bytes,
}
use zwa_protocol.Protocol.Values.Wire.{newtype_constructors_iff}

abbrev seven_bytes : List ℕ
seven_bytes = replicate 31 0 ++ (7 ∷ [])

-- "07"
abbrev seven_text : List ℕ
seven_text = 48 ∷ 55 ∷ []

abbrev seven : TradeCommitment
seven = record { value = record { to_be_bytes = seven_bytes } }

newtype_constructors_iff_example :
    ((newtype_from_be_bytes seven_bytes ≡ ok seven)
      ↔ ((newtype_to_be_bytes seven ≡ seven_bytes) × IsCanonical seven.value))
    × ((newtype_from_decimal_str seven_text ≡ ok seven) ↔ (
        IsDecimal seven_text × IsCanonical seven.value × (value seven.value ≡ decimal seven_text)))
newtype_constructors_iff_example =
    newtype_constructors_iff seven_bytes seven_text seven (refl, omega arith)
