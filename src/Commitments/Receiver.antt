-- ===== src/Commitments/Receiver.antt =====
-- crates/commitments/src/receiver.rs: a raw Orchard receiver as limbs of 128, 128 and 88 bits.
use zwa_protocol.Prelude.{
  ℕ, ◌-◌, ◌*◌, ◌^◌, ◌≡◌, ◌≤◌, ◌<◌, refl, sym, ap, ap₂, ◌∙◌, List, ◌++◌, arith, take, drop,
  replicate, ltb, if◌then◌else◌, length-append, length-take, length-drop, All-append, All-take,
  All-drop, take-append-drop, drop-drop,
}
use zwa_protocol.Prelude.Words
use zwa_protocol.Prelude.Words.{IsByte, IsBytes, IsU128, to_le_bytes-IsBytes}
use zwa_protocol.Protocol.Error.{Result, ok, err, limb_out_of_range, receiver_limb2}
use zwa_protocol.Protocol.Bytes.{OrchardReceiverBytes}
use zwa_protocol.Commitments.AssetBase.{
  little_endian_u128, copy_from_slice, little_endian_u128-to_le_bytes,
  to_le_bytes-little_endian_u128, little_endian_u128-lt,
}

abbrev pub receiver_limb2_bits : ℕ
receiver_limb2_bits = 88

abbrev pub receiver_limb2_max : ℕ
receiver_limb2_max = 2 ^ receiver_limb2_bits - 1

abbrev wide_limb_bytes : ℕ
wide_limb_bytes = 16

abbrev narrow_limb_bytes : ℕ
narrow_limb_bytes = 43 - 2 * wide_limb_bytes

pub record ReceiverLimbs : Type 0 where
  pub limb0 : ℕ  -- u128
  pub limb1 : ℕ  -- u128
  pub limb2 : ℕ  -- u128

-- `ReceiverLimbs::new`.
unfoldable pub new : ℕ → ℕ → ℕ → Result ReceiverLimbs
new limb0 limb1 limb2 =
    if ltb receiver_limb2_max limb2
    then err (limb_out_of_range receiver_limb2 receiver_limb2_bits)
    else ok (record { limb0 = limb0; limb1 = limb1; limb2 = limb2 })

unfoldable pub encode_receiver : OrchardReceiverBytes → ReceiverLimbs
unfolding little_endian_u128
encode_receiver receiver = record {
  limb0 = little_endian_u128 (take wide_limb_bytes receiver.as_bytes);
  limb1 = little_endian_u128 (take wide_limb_bytes (drop wide_limb_bytes receiver.as_bytes));
  limb2 = little_endian_u128 (drop (2 * wide_limb_bytes) receiver.as_bytes);
}

unfoldable pub decode_receiver : ReceiverLimbs → OrchardReceiverBytes
unfolding copy_from_slice Words.to_le_bytes
decode_receiver limbs =
    let wide0 = copy_from_slice 0 (Words.to_le_bytes 16 limbs.limb0) (replicate 43 0) in
    let wide1 = copy_from_slice wide_limb_bytes (Words.to_le_bytes 16 limbs.limb1) wide0 in
    let narrow = Words.to_le_bytes 16 limbs.limb2 in
    record {
      as_bytes = copy_from_slice (2 * wide_limb_bytes) (take narrow_limb_bytes narrow) wide1;
    }

-- Decoding writes the bytes of the three limbs one after the other.
decode_receiver_lem :
    (a b c : ℕ)
    → (decode_receiver (record { limb0 = a; limb1 = b; limb2 = c })).as_bytes
      ≡ Words.to_le_bytes 16 a ++ (Words.to_le_bytes 16 b ++ Words.to_le_bytes 11 c)
unfolding decode_receiver Words.to_le_bytes copy_from_slice
decode_receiver_lem a b c = refl

-- The limbs of a receiver are in the ranges of the circuit, so that `new` takes them, and they
-- decode to the receiver.
pub decode_receiver-encode_receiver :
    (receiver : OrchardReceiverBytes)
    → IsBytes 43 receiver.as_bytes
    → let limbs = encode_receiver receiver in
      IsU128 limbs.limb0
      × IsU128 limbs.limb1
      × (limbs.limb2 ≤ receiver_limb2_max)
      × (new limbs.limb0 limbs.limb1 limbs.limb2 ≡ ok limbs)
      × (decode_receiver limbs ≡ receiver)
decode_receiver-encode_receiver receiver h =
    let b : List ℕ = receiver.as_bytes in
    let others : List ℕ = drop 16 b in
    let rest : IsBytes 27 others = (omega (arith, length-drop 16 b), All-drop IsByte 16 b h.1) in
    let h0 : IsBytes 16 (take 16 b) = (omega (arith, length-take 16 b), All-take IsByte 16 b h.1) in
    let h1 : IsBytes 16 (take 16 others) =
      (omega (arith, length-take 16 others, rest.0), All-take IsByte 16 others rest.1) in
    let h2 : IsBytes 11 (drop 32 b) = (omega (arith, length-drop 32 b), All-drop IsByte 32 b h.1) in
    let small : little_endian_u128 (drop 32 b) < 256 ^ 11 =
      little_endian_u128-lt 11 (drop 32 b) (omega arith) h2 in
    let same : (decode_receiver (encode_receiver receiver)).as_bytes ≡ b =
      unfold encode_receiver in
      decode_receiver_lem (little_endian_u128 (take 16 b)) (little_endian_u128 (take 16 others))
        (little_endian_u128 (drop 32 b))
      ∙ ap₂ (λ x y. x ++ y) (to_le_bytes-little_endian_u128 16 (take 16 b) (omega arith) h0)
          (ap₂ (λ x y. x ++ y) (to_le_bytes-little_endian_u128 16 (take 16 others) (omega arith) h1)
              (to_le_bytes-little_endian_u128 11 (drop 32 b) (omega arith) h2
                ∙ sym (drop-drop 16 16 b))
            ∙ take-append-drop 16 others)
      ∙ take-append-drop 16 b in
    (
      unfold encode_receiver in
          omega (arith, little_endian_u128-lt 16 (take 16 b) (omega arith) h0),
      unfold encode_receiver in
          omega (arith, little_endian_u128-lt 16 (take 16 others) (omega arith) h1),
      unfold encode_receiver in omega (arith, small),
      unfold encode_receiver new in ground (arith, small),
      λ i. record { as_bytes = same i },
    )

-- Limbs in range are the limbs of the 43 bytes that they decode to.
pub encode_receiver-decode_receiver :
    (limbs : ReceiverLimbs)
    → IsU128 limbs.limb0
    → IsU128 limbs.limb1
    → limbs.limb2 ≤ receiver_limb2_max
    → IsBytes 43 (decode_receiver limbs).as_bytes
      × (encode_receiver (decode_receiver limbs) ≡ limbs)
encode_receiver-decode_receiver limbs h0 h1 h2 =
    let bytes : List ℕ = (decode_receiver limbs).as_bytes in
    let a : List ℕ = Words.to_le_bytes 16 limbs.limb0 in
    let b : List ℕ = Words.to_le_bytes 16 limbs.limb1 in
    let c : List ℕ = Words.to_le_bytes 11 limbs.limb2 in
    let ha : IsBytes 16 a = to_le_bytes-IsBytes 16 limbs.limb0 in
    let hb : IsBytes 16 b = to_le_bytes-IsBytes 16 limbs.limb1 in
    let hc : IsBytes 11 c = to_le_bytes-IsBytes 11 limbs.limb2 in
    let whole : bytes ≡ a ++ (b ++ c) = decode_receiver_lem limbs.limb0 limbs.limb1 limbs.limb2 in
    let p0 : little_endian_u128 (take 16 bytes) ≡ limbs.limb0 =
      ap (λ t. little_endian_u128 (take 16 t)) whole
      ∙ unfold Words.to_le_bytes in
        little_endian_u128-to_le_bytes 16 limbs.limb0 (omega arith) (omega arith) in
    let p1 : little_endian_u128 (take 16 (drop 16 bytes)) ≡ limbs.limb1 =
      ap (λ t. little_endian_u128 (take 16 (drop 16 t))) whole
      ∙ unfold Words.to_le_bytes in
        little_endian_u128-to_le_bytes 16 limbs.limb1 (omega arith) (omega arith) in
    let p2 : little_endian_u128 (drop 32 bytes) ≡ limbs.limb2 =
      ap (λ t. little_endian_u128 (drop 32 t)) whole
      ∙ unfold Words.to_le_bytes in
        little_endian_u128-to_le_bytes 11 limbs.limb2 (omega arith) (omega arith) in
    (
      rw whole (
        omega (arith, length-append a (b ++ c), length-append b c, ha.0, hb.0, hc.0),
        All-append IsByte a (b ++ c) ha.1 (All-append IsByte b c hb.1 hc.1),
      ),
      unfold encode_receiver in λ i. record { limb0 = p0 i; limb1 = p1 i; limb2 = p2 i },
    )
