-- ===== src/Protocol/Field.antt =====
-- crates/protocol/src/field.rs: canonical BN254 scalars as 32 big-endian bytes, their decimal text,
-- and the 256-bit arithmetic on four 64-bit limbs between the two.
pub mod Canonical
pub mod Limbs
pub mod Decimal
pub mod Unpadded
mod Runs
use Prim.Native.Nat.{bit_or}
use zwa_protocol.Prelude.{
  ℕ, zero, suc, ◌+◌, ◌-◌, ◌*◌, ◌/◌, ◌%◌, ◌^◌, ◌≡◌, ◌↔◌, Bool, true, false, not, ◌&&◌, ◌||◌, Option,
  none, some, List, [], ◌∷◌, ◌++◌, Eq, ◌==◌, list_beq_iff, nat_eq, list_eq, arith, ltb, leb,
  nat_beq, if◌then◌else◌, length, take, drop, replicate, reverse,
}
use zwa_protocol.Prelude.Words
use zwa_protocol.Protocol.Error.{
  Result, ok, err, invalid_field_encoding, wrong_length, not_reduced, not_decimal, decimal_overflow,
}

abbrev pub field_bytes : ℕ
field_bytes = 32

-- `MODULUS_BE`.
abbrev pub modulus_be : List ℕ
modulus_be =
    0x30 ∷ 0x64 ∷ 0x4e ∷ 0x72 ∷ 0xe1 ∷ 0x31 ∷ 0xa0 ∷ 0x29 ∷ 0xb8 ∷ 0x50 ∷ 0x45 ∷ 0xb6 ∷ 0x81 ∷ 0x81
    ∷ 0x58 ∷ 0x5d ∷ 0x28 ∷ 0x33 ∷ 0xe8 ∷ 0x48 ∷ 0x79 ∷ 0xb9 ∷ 0x70 ∷ 0x91 ∷ 0x43 ∷ 0xe1 ∷ 0xf5
    ∷ 0x93 ∷ 0xf0 ∷ 0x00 ∷ 0x00 ∷ 0x01 ∷ []

-- `FieldElement([u8; FIELD_BYTES])`.
pub record FieldElement : Type 0 where
  pub to_be_bytes : List ℕ

-- The derived `PartialEq`.
unfoldable pub field_beq : FieldElement → FieldElement → Bool
field_beq a b = a.to_be_bytes == b.to_be_bytes

pub field_beq_iff : (a b : FieldElement) → (field_beq a b ≡ true) ↔ (a ≡ b)
unfolding field_beq
field_beq_iff a b = (
  λ h. ground (arith, list_beq_iff a.to_be_bytes b.to_be_bytes),
  λ h. ground (arith, list_beq_iff a.to_be_bytes b.to_be_bytes),
)

instance abbrev pub field_eq : Eq FieldElement
field_eq = record { beq = field_beq; beq_iff = field_beq_iff }

-- `FieldElement::ZERO`.
abbrev pub field_zero : FieldElement
field_zero = record { to_be_bytes = replicate 32 0 }

-- `<` on byte arrays is lexicographic.
unfoldable pub lex_lt : List ℕ → List ℕ → Bool
lex_lt [] [] = false
lex_lt [] (c ∷ cs) = true
lex_lt (b ∷ bs) [] = false
lex_lt (b ∷ bs) (c ∷ cs) = let rest = lex_lt bs cs in if nat_beq b c then rest else ltb b c

unfoldable pub from_be_bytes : List ℕ → Result FieldElement
unfolding lex_lt
from_be_bytes bytes =
    if not (lex_lt bytes modulus_be)
    then err (invalid_field_encoding not_reduced)
    else ok (record { to_be_bytes = bytes })

unfoldable pub from_be_slice : List ℕ → Result FieldElement
unfolding from_be_bytes
from_be_slice bytes =
    if nat_beq (length bytes) field_bytes
    then from_be_bytes bytes
    else err (invalid_field_encoding wrong_length)

-- The value's bytes are written over the end of a zeroed array.
unfoldable pub from_u64 : ℕ → FieldElement
unfolding Words.to_be_bytes
from_u64 value = record { to_be_bytes = replicate 24 0 ++ Words.to_be_bytes 8 value }

unfoldable pub from_u128 : ℕ → FieldElement
unfolding Words.to_be_bytes
from_u128 value = record { to_be_bytes = replicate 16 0 ++ Words.to_be_bytes 16 value }

-- `[u64; 4]`, least significant limb first.
abbrev pub zero_limbs : List ℕ
zero_limbs = 0 ∷ 0 ∷ 0 ∷ 0 ∷ []

-- The loop of `mul_add_small` in `u128` arithmetic: the new limbs, and the carry that is left.
unfoldable pub mul_add_loop : List ℕ → ℕ → ℕ → List ℕ × ℕ
mul_add_loop [] multiplier carry = ([], carry)
mul_add_loop (limb ∷ limbs) multiplier carry =
    let product = (limb * multiplier + carry) % 2 ^ 128 in
    let (rest, out) = mul_add_loop limbs multiplier (product / 2 ^ 64) in
    ((product % 2 ^ 64) ∷ rest, out)

unfoldable pub mul_add_small : List ℕ → ℕ → ℕ → Option (List ℕ)
unfolding mul_add_loop
mul_add_small limbs multiplier addend =
    let (limbs', carry) = mul_add_loop limbs multiplier addend in
    if nat_beq carry 0 then some limbs' else none

-- The loop of `div_rem_small`, which starts from the most significant limb.
unfoldable pub div_rem_small : List ℕ → ℕ → List ℕ × ℕ
div_rem_small [] divisor = ([], 0)
div_rem_small (limb ∷ limbs) divisor =
    let (rest, remainder) = div_rem_small limbs divisor in
    let current = bit_or (remainder * 2 ^ 64 % 2 ^ 128) limb in
    ((current / divisor % 2 ^ 64) ∷ rest, current % divisor % 2 ^ 64)

-- The eight bytes of limb `index`.
unfoldable pub limb_at : List ℕ → ℕ → ℕ
unfolding Words.from_be_bytes
limb_at bytes index = Words.from_be_bytes (take 8 (drop (field_bytes - 8 * (index + 1)) bytes))

unfoldable pub be_bytes_to_limbs : List ℕ → List ℕ
unfolding limb_at
be_bytes_to_limbs bytes = limb_at bytes 0 ∷ limb_at bytes 1 ∷ limb_at bytes 2 ∷ limb_at bytes 3 ∷ []

-- `bytes[start..start + 8].copy_from_slice(&limb.to_be_bytes())`.
unfoldable pub put_limb : ℕ → ℕ → List ℕ → List ℕ
unfolding Words.to_be_bytes
put_limb start limb bytes = take start bytes ++ (Words.to_be_bytes 8 limb ++ drop (start + 8) bytes)

unfoldable pub put_limbs : ℕ → List ℕ → List ℕ → List ℕ
unfolding put_limb
put_limbs index [] bytes = bytes
put_limbs index (limb ∷ limbs) bytes =
    put_limbs (index + 1) limbs (put_limb (field_bytes - 8 * (index + 1)) limb bytes)

unfoldable pub limbs_to_be_bytes : List ℕ → List ℕ
unfolding put_limbs
limbs_to_be_bytes limbs = put_limbs 0 limbs (replicate 32 0)

-- `is_ascii_digit`.
unfoldable pub is_ascii_digit : ℕ → Bool
is_ascii_digit b = leb b'0' b && leb b b'9'

unfoldable pub all_digits : List ℕ → Bool
unfolding is_ascii_digit
all_digits [] = true
all_digits (b ∷ text) = is_ascii_digit b && all_digits text

-- The loop of `from_decimal_str`; `none` is the overflow.
unfoldable pub decimal_loop : List ℕ → List ℕ → Option (List ℕ)
unfolding mul_add_small
decimal_loop limbs [] = some limbs
decimal_loop limbs (b ∷ text) = elim (mul_add_small limbs 10 (b - b'0')) [
  | none ↦ none
  | some limbs' ↦ decimal_loop limbs' text
]

from_limbs : Option (List ℕ) → Result FieldElement
unfolding from_be_bytes limbs_to_be_bytes
from_limbs none = err (invalid_field_encoding decimal_overflow)
from_limbs (some limbs) = from_be_bytes (limbs_to_be_bytes limbs)

is_empty : List ℕ → Bool
is_empty [] = true
is_empty (b ∷ text) = false

unfoldable pub from_decimal_str : List ℕ → Result FieldElement
unfolding all_digits decimal_loop from_limbs is_empty
from_decimal_str text =
    if is_empty text || not (all_digits text)
    then err (invalid_field_encoding not_decimal)
    else from_limbs (decimal_loop zero_limbs text)

-- `u8::try_from(remainder).unwrap_or(0)`.
abbrev to_u8 : ℕ → ℕ
to_u8 n = if ltb n 256 then n else 0

-- The `while` loop of `to_decimal_string`: the digits that it pushes, least significant first.
unfoldable pub digits_loop : ℕ → List ℕ → List ℕ
unfolding div_rem_small
digits_loop zero limbs = []
digits_loop (suc fuel) limbs =
    let (limbs', remainder) = div_rem_small limbs 10 in
    elim (limbs == zero_limbs) [
      | true ↦ []
      | false ↦ (b'0' + to_u8 remainder) ∷ digits_loop fuel limbs'
    ]

-- 256 bits have at most 78 decimal digits.
unfoldable pub to_decimal_string : FieldElement → List ℕ
unfolding be_bytes_to_limbs digits_loop
to_decimal_string self =
    let limbs = be_bytes_to_limbs self.to_be_bytes in
    if limbs == zero_limbs then b'0' ∷ [] else reverse (digits_loop 78 limbs)
