-- ===== src/Protocol/Bytes/Hex.antt =====
-- crates/protocol/src/bytes.rs: `decode_hex`, `nibble` and `encode_hex`. Texts are lists of bytes.
use Prim.Native.Nat.{bit_and, bit_or}
use zwa_protocol.Prelude.{
  ℕ, zero, suc, ◌+◌, ◌-◌, ◌*◌, ◌/◌, ◌%◌, ◌^◌, ◌≤◌, ◌<◌, ◌≡◌, ◌⊎◌, refl, Bool, true, ◌&&◌, Option,
  none, some, map, List, [], ◌∷◌, arith, leb, nat_beq, if◌then◌else◌, length, All, inl, inr,
  is_some, Bool-cases, subst, opt_beq, opt_beq_iff, nat_eq, opt_eq, nat_beq_iff, ◌>>=◌, >>=-eq-some,
}
use mathlib.Core.Option.{some-injective}
use zwa_protocol.Prelude.Words.{IsByte, all_below, all_below_sound, low_nibble, join_nibbles}

-- `match byte` over the three ranges of digits.
unfoldable pub nibble : ℕ → Option ℕ
nibble byte =
    if leb b'0' byte && leb byte b'9'
    then some (byte - b'0')
    else if leb b'a' byte && leb byte b'f'
    then some (byte - b'a' + 10)
    else if leb b'A' byte && leb byte b'F'
    then some (byte - b'A' + 10)
    else none

-- The loop over `bytes.chunks_exact(2)`, which passes over an odd byte at the end.
unfoldable pub decode_pairs : List ℕ → Option (List ℕ)
decode_pairs (a ∷ b ∷ rest) = do
  hi ← nibble a
  lo ← nibble b
  out ← decode_pairs rest
  some (bit_or (hi * 2 ^ 4 % 256) lo ∷ out)
decode_pairs _ = some []

unfoldable pub decode_hex : List ℕ → Option (List ℕ)
unfolding decode_pairs
decode_hex text = if nat_beq (length text % 2) 0 then decode_pairs text else none

-- `DIGITS`.
abbrev digits : List ℕ
digits =
    b'0' ∷ b'1' ∷ b'2' ∷ b'3' ∷ b'4' ∷ b'5' ∷ b'6' ∷ b'7' ∷ b'8' ∷ b'9' ∷ b'a' ∷ b'b' ∷ b'c' ∷ b'd'
    ∷ b'e' ∷ b'f' ∷ []

-- An index into the table; the source would panic beyond it, which no nibble reaches.
abbrev at_index : List ℕ → ℕ → ℕ
at_index [] i = 0
at_index (x ∷ xs) zero = x
at_index (x ∷ xs) (suc i) = at_index xs i

unfoldable pub digit : ℕ → ℕ
digit i = at_index digits i

-- The text is ASCII, so `String::from_utf8` keeps it.
unfoldable pub encode_hex : List ℕ → List ℕ
unfolding digit
encode_hex [] = []
encode_hex (byte ∷ bytes) = digit (byte / 2 ^ 4) ∷ digit (bit_and byte 0x0f) ∷ encode_hex bytes

-- The case that `encode_hex` writes.
abbrev pub lower : ℕ → ℕ
lower c = if leb b'A' c && leb c b'F' then c + 32 else c

-- A hexadecimal digit of either case.
abbrev pub IsHexDigit : ℕ → Type 0
IsHexDigit c = ((b'0' ≤ c) × (c ≤ b'9')) ⊎ ((b'a' ≤ c) × (c ≤ b'f')) ⊎ ((b'A' ≤ c) × (c ≤ b'F'))

pub nibble-digit : (i : ℕ) → i < 16 → nibble (digit i) ≡ some i
unfolding nibble digit all_below
nibble-digit i h =
    (opt_beq_iff (nibble (digit i)) (some i)).0
      (all_below_sound 16 (λ j. opt_beq (nibble (digit j)) (some j)) refl i h)

nibble-lt : (c v : ℕ) → nibble c ≡ some v → (v < 16) × (c < 103)
unfolding nibble
nibble-lt c v h = ground arith

pub nibble-IsHexDigit : (c : ℕ) → IsHexDigit c → is_some (nibble c) ≡ true
unfolding nibble
nibble-IsHexDigit c h = ground arith

IsHexDigit-nibble : (c v : ℕ) → nibble c ≡ some v → IsHexDigit c
unfolding nibble
IsHexDigit-nibble c v h = ground arith

abbrev writes_back : Option ℕ → ℕ → Bool
writes_back none c = true
writes_back (some v) c = nat_beq (digit v) (lower c)

digit-nibble : (c v : ℕ) → nibble c ≡ some v → digit v ≡ lower c
unfolding nibble digit all_below
digit-nibble c v h = (nat_beq_iff (digit v) (lower c)).0 (
    subst (λ o. writes_back o c ≡ true) h
      (all_below_sound 103 (λ j. writes_back (nibble j) j) refl c (nibble-lt c v h).1))

length-encode_hex : (bs : List ℕ) → length (encode_hex bs) ≡ 2 * length bs
unfolding encode_hex
length-encode_hex [] = refl
length-encode_hex (b ∷ bs) = omega (arith, length-encode_hex bs)

decode_pairs-encode_hex : (bs : List ℕ) → All IsByte bs → decode_pairs (encode_hex bs) ≡ some bs
unfolding decode_pairs encode_hex
decode_pairs-encode_hex [] h = refl
decode_pairs-encode_hex (b ∷ bs) (hb, hbs) =
    let high : b / 16 < 16 = omega arith in
    let low : b % 16 < 16 = omega arith in
    let joined : b / 16 * 16 + b % 16 ≡ b = omega arith in
    rw (nibble-digit (b / 16) high) (
      rw (low_nibble b hb, nibble-digit (b % 16) low, decode_pairs-encode_hex bs hbs)
        (rw (join_nibbles (b / 16) (b % 16) high low, joined) refl))

-- The text of any bytes is read back.
pub decode_hex-encode_hex : (bs : List ℕ) → All IsByte bs → decode_hex (encode_hex bs) ≡ some bs
unfolding decode_hex
decode_hex-encode_hex bs h =
    rw (decode_pairs-encode_hex bs h) (ground (arith, length-encode_hex bs))

-- The text is that of the bytes, up to case.
Spells : List ℕ → List ℕ → Type 0
Spells text bs =
    (encode_hex bs ≡ map lower text)
    × (length text ≡ 2 * length bs)
    × All IsByte bs
    × All IsHexDigit text

Spells-pair :
    (a b hi lo : ℕ) (rest out : List ℕ)
    → nibble a ≡ some hi
    → nibble b ≡ some lo
    → Spells rest out
    → Spells (a ∷ b ∷ rest) (bit_or (hi * 2 ^ 4 % 256) lo ∷ out)
unfolding Spells encode_hex
Spells-pair a b hi lo rest out ha hb (written, len, bytes, digits_only) =
    let bh : hi < 16 = (nibble-lt a hi ha).0 in
    let bl : lo < 16 = (nibble-lt b lo hb).0 in
    let high : (hi * 16 + lo) / 16 ≡ hi = omega arith in
    let low : (hi * 16 + lo) % 16 ≡ lo = omega arith in
    let fits : hi * 16 + lo < 256 = omega arith in
    rw (join_nibbles hi lo bh bl) (
      rw (low_nibble (hi * 16 + lo) fits)
          (rw (high, low, digit-nibble a hi ha, digit-nibble b lo hb, written) refl),
      omega arith,
      (fits, bytes),
      (IsHexDigit-nibble a hi ha, (IsHexDigit-nibble b lo hb, digits_only)),
    )

-- What a successful decoding says of its text: pairs of digits, each worth one byte.
decode_pairs-Spells :
    (text bs : List ℕ) → length text % 2 ≡ 0 → decode_pairs text ≡ some bs → Spells text bs
unfolding decode_pairs
decode_pairs-Spells [] bs e h =
    subst (Spells []) (some-injective [] bs h) (unfold Spells encode_hex in (refl, refl, tt, tt))
decode_pairs-Spells (a ∷ []) bs e h = absurd (omega arith)
decode_pairs-Spells (a ∷ b ∷ rest) bs e h =
    let (hi, ehi, h1) = >>=-eq-some (nibble a) _ h in
    let (lo, elo, h2) = >>=-eq-some (nibble b) _ h1 in
    let (out, eout, h3) = >>=-eq-some (decode_pairs rest) _ h2 in
    subst (Spells (a ∷ b ∷ rest)) (some-injective _ bs h3)
      (Spells-pair a b hi lo rest out ehi elo (decode_pairs-Spells rest out (omega arith) eout))

-- A text that decodes is an even number of hexadecimal digits, twice as many as the bytes, and is
-- what `encode_hex` writes for those bytes, up to the case of the letters.
pub encode_hex-decode_hex :
    (text bs : List ℕ)
    → decode_hex text ≡ some bs
    → (encode_hex bs ≡ map lower text)
      × (length text ≡ 2 * length bs)
      × All IsByte bs
      × All IsHexDigit text
unfolding decode_hex Spells
encode_hex-decode_hex text bs h = elim (Bool-cases (nat_beq (length text % 2) 0)) [
  | inl even ↦ decode_pairs-Spells text bs ((nat_beq_iff _ _).0 even) (rw even at h)
  | inr odd ↦ cc (rw odd at h)
]

decode_pairs_total : (text : List ℕ) → All IsHexDigit text → is_some (decode_pairs text) ≡ true
unfolding decode_pairs
decode_pairs_total [] h = refl
decode_pairs_total (a ∷ []) h = refl
decode_pairs_total (a ∷ b ∷ rest) (ha, (hb, hr)) =
    ground (arith, nibble-IsHexDigit a ha, nibble-IsHexDigit b hb, decode_pairs_total rest hr)

-- An even number of hexadecimal digits decodes.
pub decode_hex_total :
    (text : List ℕ) → length text % 2 ≡ 0 → All IsHexDigit text → is_some (decode_hex text) ≡ true
unfolding decode_hex
decode_hex_total text e h = ground (arith, decode_pairs_total text h)
