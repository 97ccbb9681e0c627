-- ===== src/Protocol/Bytes.antt =====
-- crates/protocol/src/bytes.rs: fixed-size byte values and their hexadecimal text. Texts are lists
-- of bytes; a value of a type wraps the array, whose length `from_slice` checks.
pub mod Hex
pub mod RoundTrip
use zwa_protocol.Prelude.{
  ℕ, ◌/◌, List, Option, none, some, nat_beq, length, take, drop, if◌then◌else◌,
}
use zwa_protocol.Protocol.Error.{Result, ok, err, invalid_asset_base, invalid_receiver}
use zwa_protocol.Protocol.Bytes.Hex.{decode_hex, encode_hex}

abbrev pub asset_base_len : ℕ
asset_base_len = 32

abbrev pub orchard_receiver_len : ℕ
orchard_receiver_len = 43

abbrev pub orchard_diversifier_len : ℕ
orchard_diversifier_len = 11

abbrev pub orchard_transmission_key_len : ℕ
orchard_transmission_key_len = 32

-- `AssetBaseBytes([u8; ASSET_BASE_LEN])`.
pub record AssetBaseBytes : Type 0 where
  pub as_bytes : List ℕ

-- `OrchardReceiverBytes([u8; ORCHARD_RECEIVER_LEN])`.
pub record OrchardReceiverBytes : Type 0 where
  pub as_bytes : List ℕ

-- `AssetBaseBytes::from_slice`, `from_hex` and `to_hex`.
unfoldable pub asset_from_slice : List ℕ → Result AssetBaseBytes
asset_from_slice bytes =
    if nat_beq (length bytes) asset_base_len
    then ok (record { as_bytes = bytes })
    else err (invalid_asset_base (length bytes))

asset_from_decoded : List ℕ → Option (List ℕ) → Result AssetBaseBytes
unfolding asset_from_slice
asset_from_decoded text none = err (invalid_asset_base (length text / 2))
asset_from_decoded text (some bytes) = asset_from_slice bytes

unfoldable pub asset_from_hex : List ℕ → Result AssetBaseBytes
unfolding asset_from_decoded
asset_from_hex text = asset_from_decoded text (decode_hex text)

unfoldable pub asset_to_hex : AssetBaseBytes → List ℕ
asset_to_hex self = encode_hex self.as_bytes

-- `OrchardReceiverBytes::from_slice`, `from_hex`, `to_hex` and the two parts.
unfoldable pub receiver_from_slice : List ℕ → Result OrchardReceiverBytes
receiver_from_slice bytes =
    if nat_beq (length bytes) orchard_receiver_len
    then ok (record { as_bytes = bytes })
    else err (invalid_receiver (length bytes))

receiver_from_decoded : List ℕ → Option (List ℕ) → Result OrchardReceiverBytes
unfolding receiver_from_slice
receiver_from_decoded text none = err (invalid_receiver (length text / 2))
receiver_from_decoded text (some bytes) = receiver_from_slice bytes

unfoldable pub receiver_from_hex : List ℕ → Result OrchardReceiverBytes
unfolding receiver_from_decoded
receiver_from_hex text = receiver_from_decoded text (decode_hex text)

unfoldable pub receiver_to_hex : OrchardReceiverBytes → List ℕ
receiver_to_hex self = encode_hex self.as_bytes

unfoldable pub diversifier : OrchardReceiverBytes → List ℕ
diversifier self = take orchard_diversifier_len self.as_bytes

unfoldable pub transmission_key : OrchardReceiverBytes → List ℕ
transmission_key self = drop orchard_diversifier_len self.as_bytes
