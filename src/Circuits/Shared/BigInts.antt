-- ===== src/Circuits/Shared/BigInts.antt =====
-- circuits/shared/trade-commitment-v1.js: the checks and the limbs. A BigInt is an integer, a string
-- the list of its bytes, and `none` an exception.
pub mod Limbs
use zwa_protocol.Prelude.{
  ℕ, ◌+◌, ◌-◌, ◌*◌, ◌^◌, Option, none, some, Bool, true, List, [], ◌∷◌, ◌&&◌, ◌||◌, ◌>>=◌, length,
  take, drop, reverse, ltb, leb, is_some, not, nat_beq, if◌then◌else◌,
}
use zwa_protocol.Prelude.Int.{ℤ, pos, negsuc}
use zwa_protocol.Protocol.Bytes.Hex.{nibble, decode_hex, encode_hex}

abbrev pub field_modulus : ℕ
field_modulus = 21888242871839275222246405745257275088548364400416034343698204186575808495617

abbrev pub max_u64 : ℕ
max_u64 = 2 ^ 64 - 1

abbrev pub max_u128 : ℕ
max_u128 = 2 ^ 128 - 1

unfoldable pub assert_u64 : ℤ → Option ℤ
assert_u64 (negsuc n) = none
assert_u64 (pos n) = if ltb max_u64 n then none else some (pos n)

unfoldable pub assert_field : ℤ → Option ℤ
assert_field (negsuc n) = none
assert_field (pos n) = if leb field_modulus n then none else some (pos n)

abbrev pub all_hex : List ℕ → Bool
all_hex [] = true
all_hex (c ∷ cs) = is_some (nibble c) && all_hex cs

-- The regular expression of `assertHexBytes`.
abbrev pub is_hex_bytes : ℕ → List ℕ → Bool
is_hex_bytes count hex = nat_beq (length hex) (count * 2) && all_hex hex

-- `BigInt` of "0x" and the digits.
unfoldable pub big_int_of_hex : ℕ → List ℕ → Option ℕ
big_int_of_hex value [] = some value
big_int_of_hex value (c ∷ cs) = nibble c >>= λ d. big_int_of_hex (16 * value + d) cs

-- No bytes are 0, as the empty text is here. `toString("hex")` writes lower case.
unfoldable pub little_endian_bytes_to_big_int : List ℕ → Option ℕ
unfolding big_int_of_hex encode_hex
little_endian_bytes_to_big_int bytes = big_int_of_hex 0 (encode_hex (reverse bytes))

-- `{ hi, lo }`.
pub record AssetLimbs : Type 0 where
  pub hi : ℤ
  pub lo : ℤ

abbrev pub checked_limbs : ℕ → ℕ → Option AssetLimbs
checked_limbs hi lo =
    if ltb max_u128 lo || ltb max_u128 hi then none else some (record { hi = pos hi; lo = pos lo })

-- `Buffer.from(hex, "hex")` reads what `decode_hex` reads.
unfoldable pub asset_id_to_limbs : List ℕ → Option AssetLimbs
unfolding little_endian_bytes_to_big_int decode_hex
asset_id_to_limbs hex = if not (is_hex_bytes 32 hex) then none else (do
  bytes ← decode_hex hex
  lo ← little_endian_bytes_to_big_int (take 16 bytes)
  hi ← little_endian_bytes_to_big_int (take 16 (drop 16 bytes))
  checked_limbs hi lo)

-- `{ limb0, limb1, limb2 }` of circuits/shared/eligibility-v1.js.
pub record LimbsOfReceiver : Type 0 where
  pub limb0 : ℤ
  pub limb1 : ℤ
  pub limb2 : ℤ

unfoldable pub receiver_to_limbs : List ℕ → Option LimbsOfReceiver
unfolding little_endian_bytes_to_big_int decode_hex
receiver_to_limbs hex = if not (is_hex_bytes 43 hex) then none else (do
  bytes ← decode_hex hex
  limb0 ← little_endian_bytes_to_big_int (take 16 bytes)
  limb1 ← little_endian_bytes_to_big_int (take 16 (drop 16 bytes))
  limb2 ← little_endian_bytes_to_big_int (take 11 (drop 32 bytes))
  some (record { limb0 = pos limb0; limb1 = pos limb1; limb2 = pos limb2 }))
