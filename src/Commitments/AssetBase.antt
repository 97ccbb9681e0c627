-- ===== src/Commitments/AssetBase.antt =====
-- crates/commitments/src/asset_base.rs: an asset base as two 128-bit limbs.
use zwa_protocol.Prelude.{
  ℕ, zero, suc, ◌+◌, ◌-◌, ◌^◌, ◌≡◌, ◌≤◌, ◌<◌, refl, ap, ap₂, ◌∙◌, List, [], ◌∷◌, ◌++◌, arith,
  length, take, drop, replicate, ltb, if◌then◌else◌, length-append, length-take, length-drop,
  All-append, All-take, All-drop, take-append-drop,
}
use zwa_protocol.Prelude.Words
use zwa_protocol.Prelude.Words.{
  IsByte, IsBytes, IsU128, from_le_bytes-append, from_le_bytes-to_le_bytes,
  to_le_bytes-from_le_bytes, to_le_bytes-IsBytes, from_le_bytes-lt,
}
use zwa_protocol.Protocol.Bytes.{AssetBaseBytes}

abbrev limb_bytes : ℕ
limb_bytes = 16

pub record AssetBaseLimbs : Type 0 where
  pub hi : ℕ  -- u128
  pub lo : ℕ  -- u128

-- The bytes are padded with zeros to 16.
unfoldable pub little_endian_u128 : List ℕ → ℕ
unfolding Words.from_le_bytes
little_endian_u128 bytes =
    let width = if ltb (length bytes) 16 then length bytes else 16 in
    Words.from_le_bytes (take width bytes ++ replicate (16 - width) 0)

-- `bytes[start..start + n].copy_from_slice(source)`, where `n` is the length of `source`.
unfoldable pub copy_from_slice : ℕ → List ℕ → List ℕ → List ℕ
copy_from_slice start source bytes =
    take start bytes ++ (source ++ drop (start + length source) bytes)

unfoldable pub encode_asset_base : AssetBaseBytes → AssetBaseLimbs
unfolding little_endian_u128
encode_asset_base asset = record {
  hi = little_endian_u128 (drop limb_bytes asset.as_bytes);
  lo = little_endian_u128 (take limb_bytes asset.as_bytes);
}

unfoldable pub decode_asset_base : AssetBaseLimbs → AssetBaseBytes
unfolding copy_from_slice Words.to_le_bytes
decode_asset_base limbs = record {
  as_bytes =
      copy_from_slice limb_bytes (Words.to_le_bytes 16 limbs.hi)
        (copy_from_slice 0 (Words.to_le_bytes 16 limbs.lo) (replicate 32 0));
}

zeros_le : (n : ℕ) → Words.from_le_bytes (replicate n 0) ≡ 0
unfolding Words.from_le_bytes
zeros_le zero = refl
zeros_le (suc n) = omega (arith, zeros_le n)

pub take_all : (xs : List ℕ) → take (length xs) xs ≡ xs
take_all [] = refl
take_all (x ∷ xs) = ap (λ t. x ∷ t) (take_all xs)

-- Up to 16 bytes are read as they are.
pub little_endian_u128-value :
    (bytes : List ℕ) → length bytes ≤ 16 → little_endian_u128 bytes ≡ Words.from_le_bytes bytes
unfolding little_endian_u128
little_endian_u128-value bytes h =
    let whole : (if ltb (length bytes) 16 then length bytes else 16) ≡ length bytes =
      ground arith in
    rw (whole, take_all bytes, from_le_bytes-append, zeros_le) (omega arith)

-- The limb of the bytes of a number is the number, and the bytes of a limb are the bytes.
pub little_endian_u128-to_le_bytes :
    (n v : ℕ) → n ≤ 16 → v < 256 ^ n → little_endian_u128 (Words.to_le_bytes n v) ≡ v
little_endian_u128-to_le_bytes n v h b =
    little_endian_u128-value (Words.to_le_bytes n v) (omega (arith, (to_le_bytes-IsBytes n v).0))
    ∙ from_le_bytes-to_le_bytes n v b

pub to_le_bytes-little_endian_u128 :
    (n : ℕ) (bytes : List ℕ)
    → n ≤ 16
    → IsBytes n bytes
    → Words.to_le_bytes n (little_endian_u128 bytes) ≡ bytes
to_le_bytes-little_endian_u128 n bytes h b =
    rw (little_endian_u128-value bytes (omega arith), ← b.0) (to_le_bytes-from_le_bytes bytes b.1)

pub little_endian_u128-lt :
    (n : ℕ) (bytes : List ℕ) → n ≤ 16 → IsBytes n bytes → little_endian_u128 bytes < 256 ^ n
little_endian_u128-lt n bytes h b =
    rw (little_endian_u128-value bytes (omega arith), ← b.0) (from_le_bytes-lt bytes b.1)

-- Decoding writes the low limb's bytes and then the high limb's.
decode_asset_base_lem :
    (hi lo : ℕ)
    → (decode_asset_base (record { hi = hi; lo = lo })).as_bytes
      ≡ Words.to_le_bytes 16 lo ++ Words.to_le_bytes 16 hi
unfolding decode_asset_base Words.to_le_bytes copy_from_slice
decode_asset_base_lem hi lo = refl

-- The two limbs of a 32-byte asset base decode to it.
pub decode_asset_base-encode_asset_base :
    (asset : AssetBaseBytes)
    → IsBytes 32 asset.as_bytes
    → decode_asset_base (encode_asset_base asset) ≡ asset
decode_asset_base-encode_asset_base asset h =
    let b : List ℕ = asset.as_bytes in
    let low : IsBytes 16 (take 16 b) =
      (omega (arith, length-take 16 b), All-take IsByte 16 b h.1) in
    let high : IsBytes 16 (drop 16 b) =
      (omega (arith, length-drop 16 b), All-drop IsByte 16 b h.1) in
    let same : (decode_asset_base (encode_asset_base asset)).as_bytes ≡ b =
      unfold encode_asset_base in
      decode_asset_base_lem (little_endian_u128 (drop 16 b)) (little_endian_u128 (take 16 b))
      ∙ ap₂ (λ x y. x ++ y) (to_le_bytes-little_endian_u128 16 (take 16 b) (omega arith) low)
          (to_le_bytes-little_endian_u128 16 (drop 16 b) (omega arith) high)
      ∙ take-append-drop 16 b in
    λ i. record { as_bytes = same i }

-- Any two 128-bit limbs are the limbs of the 32 bytes that they decode to.
pub encode_asset_base-decode_asset_base :
    (limbs : AssetBaseLimbs)
    → IsU128 limbs.hi
    → IsU128 limbs.lo
    → IsBytes 32 (decode_asset_base limbs).as_bytes
      × (encode_asset_base (decode_asset_base limbs) ≡ limbs)
encode_asset_base-decode_asset_base limbs hhi hlo =
    let whole : (decode_asset_base limbs).as_bytes
        ≡ Words.to_le_bytes 16 limbs.lo ++ Words.to_le_bytes 16 limbs.hi =
      decode_asset_base_lem limbs.hi limbs.lo in
    let low : take 16 (decode_asset_base limbs).as_bytes ≡ Words.to_le_bytes 16 limbs.lo =
      ap (λ t. take 16 t) whole ∙ unfold Words.to_le_bytes in refl in
    let high : drop 16 (decode_asset_base limbs).as_bytes ≡ Words.to_le_bytes 16 limbs.hi =
      ap (λ t. drop 16 t) whole ∙ unfold Words.to_le_bytes in refl in
    let hi : little_endian_u128 (drop 16 (decode_asset_base limbs).as_bytes) ≡ limbs.hi =
      ap little_endian_u128 high
      ∙ little_endian_u128-to_le_bytes 16 limbs.hi (omega arith) (omega arith) in
    let lo : little_endian_u128 (take 16 (decode_asset_base limbs).as_bytes) ≡ limbs.lo =
      ap little_endian_u128 low
      ∙ little_endian_u128-to_le_bytes 16 limbs.lo (omega arith) (omega arith) in
    let l : IsBytes 16 (Words.to_le_bytes 16 limbs.lo) = to_le_bytes-IsBytes 16 limbs.lo in
    let h : IsBytes 16 (Words.to_le_bytes 16 limbs.hi) = to_le_bytes-IsBytes 16 limbs.hi in
    (
      rw whole (
        omega
            (arith, length-append (Words.to_le_bytes 16 limbs.lo) (Words.to_le_bytes 16 limbs.hi)),
        All-append IsByte (Words.to_le_bytes 16 limbs.lo) _ l.1 h.1,
      ),
      unfold encode_asset_base in λ i. record { hi = hi i; lo = lo i },
    )
