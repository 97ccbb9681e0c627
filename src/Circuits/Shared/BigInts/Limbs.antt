-- ===== src/Circuits/Shared/BigInts/Limbs.antt =====
-- The limbs of circuits/shared/trade-commitment-v1.js against those of
-- crates/commitments/src/asset_base.rs.
use Prim.Native.Nat.{bit_and}
use native.Mathlib.Nat.{pow-suc}
use mathlib.Core.List.{reverse-reverse}
use zwa_protocol.Prelude.{
  ℕ, ◌+◌, ◌*◌, ◌/◌, ◌%◌, ◌^◌, ◌≡◌, ◌≤◌, refl, sym, ap, ap₂, ◌∙◌, some, true, List, [], ◌∷◌, reverse,
  arith, length, take, drop, All, All-take, All-drop, length-take, length-drop, >>=_of,
}
use zwa_protocol.Prelude.Int.{pos}
use zwa_protocol.Prelude.Words
use zwa_protocol.Prelude.Words.{IsByte, IsBytes, IsU128, reverse-IsBytes, low_nibble}
use zwa_protocol.Protocol.Error.{ok}
use zwa_protocol.Protocol.Bytes.{
  AssetBaseBytes, OrchardReceiverBytes, asset_from_hex, receiver_from_hex,
}
use zwa_protocol.Protocol.Bytes.Hex.{
  nibble, digit, encode_hex, IsHexDigit, nibble-digit, nibble-IsHexDigit,
}
use zwa_protocol.Protocol.Bytes.RoundTrip.{
  asset_to_hex-from_hex, asset_from_hex-decode_hex, receiver_to_hex-from_hex,
  receiver_from_hex-decode_hex,
}
use zwa_protocol.Protocol.Field.Canonical.{from_be_bytes-cons}
use zwa_protocol.Commitments.AssetBase.{
  encode_asset_base, little_endian_u128, little_endian_u128-value, take_all,
}
use zwa_protocol.Commitments.Receiver.{encode_receiver}
use zwa_protocol.Commitments.Trade.Binding.{encode_asset_base-IsU128}
use zwa_protocol.Circuits.Shared.BigInts.{
  big_int_of_hex, little_endian_bytes_to_big_int, all_hex, is_hex_bytes, asset_id_to_limbs,
  checked_limbs, receiver_to_limbs,
}

weighed : (a b w x : ℕ) → (a * 256 + b) * w + x ≡ a * (w * 256) + (b * w + x)
weighed a b w x = grind arith

-- The digits of bytes are read as the big-endian number.
big_int_of_hex-encode_hex :
    (value : ℕ) (bs : List ℕ)
    → All IsByte bs
    → big_int_of_hex value (encode_hex bs) ≡ some (value * 256 ^ length bs + Words.from_be_bytes bs)
unfolding big_int_of_hex encode_hex Words.from_be_bytes Words.from_le_bytes
big_int_of_hex-encode_hex value [] h = ap some (omega arith)
big_int_of_hex-encode_hex value (b ∷ bs) h =
    let high : nibble (digit (b / 2 ^ 4)) ≡ some (b / 2 ^ 4) =
      nibble-digit (b / 2 ^ 4) (omega (arith, h.0)) in
    let low : nibble (digit (bit_and b 0x0f)) ≡ some (b % 16) =
      ap (λ k. nibble (digit k)) (low_nibble b h.0) ∙ nibble-digit (b % 16) (omega arith) in
    let joined : 16 * (16 * value + b / 2 ^ 4) + b % 16 ≡ value * 256 + b = omega arith in
    >>=_of _ high (
      >>=_of _ low (
        ap (λ k. big_int_of_hex k (encode_hex bs)) joined
        ∙ big_int_of_hex-encode_hex (value * 256 + b) bs h.1
        ∙ ap some (
            weighed value b (256 ^ length bs) (Words.from_be_bytes bs)
            ∙ ap₂ (λ u v. value * u + v) (sym (pow-suc 256 (length bs)))
                (sym (from_be_bytes-cons b bs)))))

little_endian_bytes_to_big_int-value :
    (bs : List ℕ)
    → All IsByte bs
    → little_endian_bytes_to_big_int bs ≡ some (Words.from_le_bytes bs)
unfolding little_endian_bytes_to_big_int Words.from_be_bytes
little_endian_bytes_to_big_int-value bs h =
    big_int_of_hex-encode_hex 0 (reverse bs) (reverse-IsBytes (length bs) bs (refl, h)).1
    ∙ ap some (omega arith)
    ∙ ap (λ k. some (Words.from_le_bytes k)) (reverse-reverse bs)

spelled_in_hex : (text : List ℕ) → All IsHexDigit text → all_hex text ≡ true
spelled_in_hex [] h = refl
spelled_in_hex (c ∷ cs) h = ground (arith, nibble-IsHexDigit c h.0, spelled_in_hex cs h.1)

within :
    (hi lo : ℕ)
    → IsU128 hi
    → IsU128 lo
    → checked_limbs hi lo ≡ some (record { hi = pos hi; lo = pos lo })
within hi lo h l = ground arith

-- A limb of at most 16 bytes.
limb :
    (bs : List ℕ)
    → All IsByte bs
    → length bs ≤ 16
    → little_endian_bytes_to_big_int bs ≡ some (little_endian_u128 bs)
limb bs h short =
    little_endian_bytes_to_big_int-value bs h ∙ ap some (sym (little_endian_u128-value bs short))

-- Every text that the crates read as an asset base has the limbs of that asset base.
pub asset_id_to_limbs-encode_asset_base :
    (text : List ℕ) (a : AssetBaseBytes)
    → asset_from_hex text ≡ ok a
    → asset_id_to_limbs text
      ≡ some (record { hi = pos (encode_asset_base a).hi; lo = pos (encode_asset_base a).lo })
unfolding asset_id_to_limbs encode_asset_base
asset_id_to_limbs-encode_asset_base text a h =
    let ((len, bytes), long, spelled, written) = asset_to_hex-from_hex text a h in
    let accepted : is_hex_bytes 32 text ≡ true =
      ground (arith, long, spelled_in_hex text spelled) in
    let low_bytes : length (take 16 a.as_bytes) ≤ 16 = omega (arith, length-take 16 a.as_bytes) in
    let high_bytes : length (drop 16 a.as_bytes) ≡ 16 = omega (arith, length-drop 16 a.as_bytes) in
    let low : little_endian_bytes_to_big_int (take 16 a.as_bytes) ≡ some (encode_asset_base a).lo =
      limb (take 16 a.as_bytes) (All-take IsByte 16 a.as_bytes bytes) low_bytes in
    let whole : take 16 (drop 16 a.as_bytes) ≡ drop 16 a.as_bytes =
      ap (λ k. take k (drop 16 a.as_bytes)) (sym high_bytes) ∙ take_all (drop 16 a.as_bytes) in
    let high : little_endian_bytes_to_big_int (take 16 (drop 16 a.as_bytes))
        ≡ some (encode_asset_base a).hi =
      ap little_endian_bytes_to_big_int whole
      ∙ limb (drop 16 a.as_bytes) (All-drop IsByte 16 a.as_bytes bytes) (omega arith) in
    let (high_fits, low_fits) = encode_asset_base-IsU128 a (len, bytes) in
    rw accepted (
      >>=_of _ (asset_from_hex-decode_hex text a h)
        (>>=_of _ low (>>=_of _ high (within _ _ high_fits low_fits))))

-- Every text that the crates read as a receiver has the limbs of that receiver.
pub receiver_to_limbs-encode_receiver :
    (text : List ℕ) (a : OrchardReceiverBytes)
    → receiver_from_hex text ≡ ok a
    → receiver_to_limbs text
      ≡ some (record {
        limb0 = pos (encode_receiver a).limb0;
        limb1 = pos (encode_receiver a).limb1;
        limb2 = pos (encode_receiver a).limb2;
      })
unfolding receiver_to_limbs encode_receiver
receiver_to_limbs-encode_receiver text a h =
    let ((len, bytes), long, spelled, written) = receiver_to_hex-from_hex text a h in
    let accepted : is_hex_bytes 43 text ≡ true =
      ground (arith, long, spelled_in_hex text spelled) in
    let second : List ℕ = drop 16 a.as_bytes in
    let third : List ℕ = drop 32 a.as_bytes in
    let eleven : length third ≡ 11 = omega (arith, length-drop 32 a.as_bytes) in
    let whole : take 11 third ≡ third = ap (λ k. take k third) (sym eleven) ∙ take_all third in
    rw accepted (
      >>=_of _ (receiver_from_hex-decode_hex text a h) (
        >>=_of _
          (limb (take 16 a.as_bytes) (All-take IsByte 16 a.as_bytes bytes)
            (omega (arith, length-take 16 a.as_bytes)))
          (>>=_of _
            (limb (take 16 second) (All-take IsByte 16 second (All-drop IsByte 16 a.as_bytes bytes))
              (omega (arith, length-take 16 second)))
            (>>=_of _
              (ap little_endian_bytes_to_big_int whole
                ∙ limb third (All-drop IsByte 32 a.as_bytes bytes) (omega arith))
              refl))))
