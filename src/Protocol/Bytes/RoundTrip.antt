-- ===== src/Protocol/Bytes/RoundTrip.antt =====
-- The texts that crates/protocol/src/bytes.rs accepts, and what it writes for them.
use zwa_protocol.Prelude.{
  ℕ, nat_beq, Bool-cases, some_of_is_some, ◌⊎◌, inl, inr, ◌/◌, ◌↔◌, some, none, Option, map, All,
  refl, true, ◌≡◌, List, ◌++◌, arith, length, length-take, length-drop, take-append-drop,
}
use zwa_protocol.Prelude.Words.{IsBytes}
use zwa_protocol.Protocol.Error.{ok, err, invalid_asset_base, invalid_receiver, is_ok, ok_of_is_ok}
use zwa_protocol.Protocol.Bytes
use zwa_protocol.Protocol.Bytes.{
  AssetBaseBytes, OrchardReceiverBytes, asset_from_slice, asset_from_hex, asset_to_hex,
  receiver_from_slice, receiver_from_hex, receiver_to_hex, diversifier, transmission_key,
}
use zwa_protocol.Protocol.Bytes.Hex.{
  decode_hex, lower, IsHexDigit, decode_hex-encode_hex, encode_hex-decode_hex, decode_hex_total,
}

-- A 32-byte asset base is read back from its hexadecimal text.
pub asset_from_hex-to_hex :
    (a : AssetBaseBytes) → IsBytes 32 a.as_bytes → asset_from_hex (asset_to_hex a) ≡ ok a
unfolding asset_from_hex asset_to_hex
asset_from_hex-to_hex a h = rw (decode_hex-encode_hex a.as_bytes h.1) (ground arith)

-- A 43-byte receiver is read back from its hexadecimal text.
pub receiver_from_hex-to_hex :
    (a : OrchardReceiverBytes)
    → IsBytes 43 a.as_bytes
    → receiver_from_hex (receiver_to_hex a) ≡ ok a
unfolding receiver_from_hex receiver_to_hex
receiver_from_hex-to_hex a h = rw (decode_hex-encode_hex a.as_bytes h.1) (ground arith)

asset_from_hex_total :
    (text : List ℕ) → length text ≡ 64 → All IsHexDigit text → is_ok (asset_from_hex text) ≡ true
unfolding asset_from_hex Bytes.asset_from_decoded
asset_from_hex_total text len digits_only =
    let (bytes, decoded) =
      some_of_is_some (decode_hex text) (decode_hex_total text (omega arith) digits_only) in
    let (written, twice, rest, again) = encode_hex-decode_hex text bytes decoded in
    let whole : length bytes ≡ 32 = omega arith in rw decoded (ground arith)

asset_decoded :
    (text : List ℕ) (o : Option (List ℕ)) (a : AssetBaseBytes)
    → Bytes.asset_from_decoded text o ≡ ok a
    → (o ≡ some a.as_bytes) × (length a.as_bytes ≡ 32)
unfolding Bytes.asset_from_decoded
asset_decoded text none a h = cc
asset_decoded text (some bytes) a h = ground arith

-- The bytes that the text spells.
pub asset_from_hex-decode_hex :
    (text : List ℕ) (a : AssetBaseBytes)
    → asset_from_hex text ≡ ok a
    → decode_hex text ≡ some a.as_bytes
unfolding asset_from_hex
asset_from_hex-decode_hex text a h = (asset_decoded text (decode_hex text) a h).0

-- An asset base that `from_hex` returns has 32 bytes, comes from 64 hexadecimal digits, and is
-- written as that text in lower case.
pub asset_to_hex-from_hex :
    (text : List ℕ) (a : AssetBaseBytes)
    → asset_from_hex text ≡ ok a
    → IsBytes 32 a.as_bytes
      × (length text ≡ 64)
      × All IsHexDigit text
      × (asset_to_hex a ≡ map lower text)
unfolding asset_from_hex asset_to_hex
asset_to_hex-from_hex text a h =
    let (decoded, len) = asset_decoded text (decode_hex text) a h in
    let (written, twice, bytes, digits_only) = encode_hex-decode_hex text a.as_bytes decoded in
    ((len, bytes), omega arith, digits_only, written)

asset_of_decoded :
    (text : List ℕ) (o : Option (List ℕ))
    → decode_hex text ≡ o
    → (is_ok (Bytes.asset_from_decoded text o) ≡ true)
      ⊎ (Bytes.asset_from_decoded text o ≡ err (invalid_asset_base (length text / 2)))
unfolding Bytes.asset_from_decoded
asset_of_decoded text none h = inr refl
asset_of_decoded text (some bytes) h =
    let (written, twice, rest, digits_only) = encode_hex-decode_hex text bytes h in
    let half : length bytes ≡ length text / 2 = omega arith in
    elim (Bool-cases (nat_beq (length bytes) 32)) [
      | inl same ↦ inl (ground arith)
      | inr other ↦ inr (ground arith)
    ]

-- Exactly the texts of 64 hexadecimal digits are asset bases; for any other text the error
-- tells half its length.
pub asset_from_hex_accepts :
    (text : List ℕ)
    → ((is_ok (asset_from_hex text) ≡ true) ↔ ((length text ≡ 64) × All IsHexDigit text))
      × ((is_ok (asset_from_hex text) ≡ true)
          ⊎ (asset_from_hex text ≡ err (invalid_asset_base (length text / 2))))
asset_from_hex_accepts text =
    ((accepted, total), unfold asset_from_hex in asset_of_decoded text (decode_hex text) refl)
  where
    accepted : is_ok (asset_from_hex text) ≡ true → (length text ≡ 64) × All IsHexDigit text
    accepted h =
        let (a, e) = ok_of_is_ok (asset_from_hex text) h in
        let (bytes, len, digits_only, written) = asset_to_hex-from_hex text a e in
        (len, digits_only)

    total : (length text ≡ 64) × All IsHexDigit text → is_ok (asset_from_hex text) ≡ true
    total (len, digits_only) = asset_from_hex_total text len digits_only

receiver_from_hex_total :
    (text : List ℕ) → length text ≡ 86 → All IsHexDigit text → is_ok (receiver_from_hex text) ≡ true
unfolding receiver_from_hex Bytes.receiver_from_decoded
receiver_from_hex_total text len digits_only =
    let (bytes, decoded) =
      some_of_is_some (decode_hex text) (decode_hex_total text (omega arith) digits_only) in
    let (written, twice, rest, again) = encode_hex-decode_hex text bytes decoded in
    let whole : length bytes ≡ 43 = omega arith in rw decoded (ground arith)

receiver_decoded :
    (text : List ℕ) (o : Option (List ℕ)) (a : OrchardReceiverBytes)
    → Bytes.receiver_from_decoded text o ≡ ok a
    → (o ≡ some a.as_bytes) × (length a.as_bytes ≡ 43)
unfolding Bytes.receiver_from_decoded
receiver_decoded text none a h = cc
receiver_decoded text (some bytes) a h = ground arith

-- The bytes that the text of a receiver spells.
pub receiver_from_hex-decode_hex :
    (text : List ℕ) (a : OrchardReceiverBytes)
    → receiver_from_hex text ≡ ok a
    → decode_hex text ≡ some a.as_bytes
unfolding receiver_from_hex
receiver_from_hex-decode_hex text a h = (receiver_decoded text (decode_hex text) a h).0

-- A receiver that `from_hex` returns has 43 bytes, comes from 86 hexadecimal digits, and is
-- written as that text in lower case.
pub receiver_to_hex-from_hex :
    (text : List ℕ) (a : OrchardReceiverBytes)
    → receiver_from_hex text ≡ ok a
    → IsBytes 43 a.as_bytes
      × (length text ≡ 86)
      × All IsHexDigit text
      × (receiver_to_hex a ≡ map lower text)
unfolding receiver_from_hex receiver_to_hex
receiver_to_hex-from_hex text a h =
    let (decoded, len) = receiver_decoded text (decode_hex text) a h in
    let (written, twice, bytes, digits_only) = encode_hex-decode_hex text a.as_bytes decoded in
    ((len, bytes), omega arith, digits_only, written)

receiver_of_decoded :
    (text : List ℕ) (o : Option (List ℕ))
    → decode_hex text ≡ o
    → (is_ok (Bytes.receiver_from_decoded text o) ≡ true)
      ⊎ (Bytes.receiver_from_decoded text o ≡ err (invalid_receiver (length text / 2)))
unfolding Bytes.receiver_from_decoded
receiver_of_decoded text none h = inr refl
receiver_of_decoded text (some bytes) h =
    let (written, twice, rest, digits_only) = encode_hex-decode_hex text bytes h in
    let half : length bytes ≡ length text / 2 = omega arith in
    elim (Bool-cases (nat_beq (length bytes) 43)) [
      | inl same ↦ inl (ground arith)
      | inr other ↦ inr (ground arith)
    ]

-- Exactly the texts of 86 hexadecimal digits are receivers; for any other text the error
-- tells half its length.
pub receiver_from_hex_accepts :
    (text : List ℕ)
    → ((is_ok (receiver_from_hex text) ≡ true) ↔ ((length text ≡ 86) × All IsHexDigit text))
      × ((is_ok (receiver_from_hex text) ≡ true)
          ⊎ (receiver_from_hex text ≡ err (invalid_receiver (length text / 2))))
receiver_from_hex_accepts text =
    ((accepted, total), unfold receiver_from_hex in receiver_of_decoded text (decode_hex text) refl)
  where
    accepted : is_ok (receiver_from_hex text) ≡ true → (length text ≡ 86) × All IsHexDigit text
    accepted h =
        let (a, e) = ok_of_is_ok (receiver_from_hex text) h in
        let (bytes, len, digits_only, written) = receiver_to_hex-from_hex text a e in
        (len, digits_only)

    total : (length text ≡ 86) × All IsHexDigit text → is_ok (receiver_from_hex text) ≡ true
    total (len, digits_only) = receiver_from_hex_total text len digits_only

-- The two parts of a 43-byte receiver have 11 and 32 bytes, and make up the receiver.
pub diversifier-append-transmission_key :
    (a : OrchardReceiverBytes)
    → IsBytes 43 a.as_bytes
    → (diversifier a ++ transmission_key a ≡ a.as_bytes)
      × (length (diversifier a) ≡ 11)
      × (length (transmission_key a) ≡ 32)
unfolding diversifier transmission_key
diversifier-append-transmission_key a h = (
  take-append-drop 11 a.as_bytes,
  omega (arith, length-take 11 a.as_bytes),
  omega (arith, length-drop 11 a.as_bytes),
)
