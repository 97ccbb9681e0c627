-- ===== src/Commitments/Trade/Bytes/Chunks.antt =====
-- The chunks of `canonical_bytes_commitment` in crates/commitments/src/trade.rs, as the numbers that
-- are hashed, determine the bytes.
use zwa_protocol.Prelude.{
  ℕ, zero, suc, ◌-◌, ◌^◌, ◌≡◌, ◌≤◌, ◌<◌, refl, sym, ap₂, ◌∙◌, List, [], ◌∷◌, ◌++◌, arith, length,
  take, drop, length-drop, length-take, take-append-drop, All, All-take, All-drop, map, ltb,
  if◌then◌else◌, replicate, All-append, All-replicate, length-append, length-replicate, subst,
}
use zwa_protocol.Prelude.Words
use zwa_protocol.Prelude.Words.{IsByte, IsU128, from_le_bytes-injective, from_le_bytes-lt}
use zwa_protocol.Commitments.AssetBase.{little_endian_u128, little_endian_u128-value}
use zwa_protocol.Commitments.Trade

-- What the chunks are hashed as.
abbrev pub numbers : List (List ℕ) → List ℕ
numbers parts = map little_endian_u128 parts

pub length-chunks : (fuel : ℕ) (bytes : List ℕ) → length (Trade.chunks fuel bytes) ≤ fuel
unfolding Trade.chunks
length-chunks zero bytes = omega arith
length-chunks (suc fuel) [] = omega arith
length-chunks (suc fuel) (b ∷ bytes) = omega (arith, length-chunks fuel (drop 16 (b ∷ bytes)))

-- At most 16 bytes of one length are told apart by their number.
little_endian_u128-injective :
    (xs ys : List ℕ)
    → All IsByte xs
    → All IsByte ys
    → length xs ≤ 16
    → length xs ≡ length ys
    → little_endian_u128 xs ≡ little_endian_u128 ys
    → xs ≡ ys
little_endian_u128-injective xs ys hx hy short l e =
    from_le_bytes-injective xs ys hx hy l
      (sym (little_endian_u128-value xs short) ∙ e ∙ little_endian_u128-value ys (omega arith))

-- A chunk's number has 128 bits.
little_endian_u128-IsU128 : (bytes : List ℕ) → All IsByte bytes → IsU128 (little_endian_u128 bytes)
unfolding little_endian_u128
little_endian_u128-IsU128 bytes h =
    let width : ℕ = if ltb (length bytes) 16 then length bytes else 16 in
    let padded : List ℕ = take width bytes ++ replicate (16 - width) 0 in
    let fits : (width ≤ 16) × (width ≤ length bytes) = ground arith in
    let bound : Words.from_le_bytes padded < 256 ^ length padded = from_le_bytes-lt padded (
      All-append IsByte (take width bytes) _ (All-take IsByte width bytes h)
        (All-replicate IsByte (16 - width) 0 (omega arith))) in
    let size : length padded ≡ 16 = omega (
      arith,
      length-append (take width bytes) (replicate (16 - width) 0),
      length-take width bytes,
      length-replicate {A = ℕ} (16 - width) 0,
      fits,
    ) in
    subst (λ n. Words.from_le_bytes padded < 256 ^ n) size bound

pub chunks-IsU128 :
    (fuel : ℕ) (bytes : List ℕ)
    → All IsByte bytes
    → All (λ c. IsU128 (little_endian_u128 c)) (Trade.chunks fuel bytes)
unfolding Trade.chunks
chunks-IsU128 zero bytes h = tt
chunks-IsU128 (suc fuel) [] h = tt
chunks-IsU128 (suc fuel) (b ∷ bytes) h = (
  little_endian_u128-IsU128 _ (All-take IsByte 16 (b ∷ bytes) h),
  chunks-IsU128 fuel _ (All-drop IsByte 16 (b ∷ bytes) h),
)

pub chunks-injective :
    (n m : ℕ) (xs ys : List ℕ)
    → All IsByte xs
    → All IsByte ys
    → length xs ≤ n
    → length ys ≤ m
    → length xs ≡ length ys
    → numbers (Trade.chunks n xs) ≡ numbers (Trade.chunks m ys)
    → xs ≡ ys
unfolding Trade.chunks
chunks-injective n m [] [] hx hy hn hm l e = refl
chunks-injective n m [] (y ∷ ys) hx hy hn hm l e = absurd (omega arith)
chunks-injective n m (x ∷ xs) [] hx hy hn hm l e = absurd (omega arith)
chunks-injective zero m (x ∷ xs) (y ∷ ys) hx hy hn hm l e = absurd (omega arith)
chunks-injective (suc n) zero (x ∷ xs) (y ∷ ys) hx hy hn hm l e = absurd (omega arith)
chunks-injective (suc n) (suc m) (x ∷ xs) (y ∷ ys) hx hy hn hm l e =
    let first : little_endian_u128 (take 16 (x ∷ xs)) ≡ little_endian_u128 (take 16 (y ∷ ys)) =
      cc in
    let rest : numbers (Trade.chunks n (drop 16 (x ∷ xs)))
        ≡ numbers (Trade.chunks m (drop 16 (y ∷ ys))) =
      cc in
    let lx = length-drop 16 (x ∷ xs) in
    let ly = length-drop 16 (y ∷ ys) in
    let tx = length-take 16 (x ∷ xs) in
    let ty = length-take 16 (y ∷ ys) in
    let head : take 16 (x ∷ xs) ≡ take 16 (y ∷ ys) =
      little_endian_u128-injective _ _ (All-take IsByte 16 (x ∷ xs) hx)
        (All-take IsByte 16 (y ∷ ys) hy) (omega (arith, tx)) (omega (arith, tx, ty)) first in
    let tail : drop 16 (x ∷ xs) ≡ drop 16 (y ∷ ys) =
      chunks-injective n m (drop 16 (x ∷ xs)) (drop 16 (y ∷ ys)) (All-drop IsByte 16 (x ∷ xs) hx)
        (All-drop IsByte 16 (y ∷ ys) hy) (omega (arith, lx)) (omega (arith, ly))
        (omega (arith, lx, ly)) rest in
    sym (take-append-drop 16 (x ∷ xs))
    ∙ ap₂ (λ s t. s ++ t) head tail
    ∙ take-append-drop 16 (y ∷ ys)
