-- ===== src/Protocol/Field/Canonical.antt =====
-- The canonical encoding of crates/protocol/src/field.rs: 32 bytes below the BN254 modulus.
use zwa_protocol.Prelude.{
  ℕ, suc, ◌+◌, ◌*◌, ◌^◌, ◌≡◌, ◌≤◌, ◌<◌, ◌⊎◌, refl, sym, Bool, reverse, true, false, List, [], ◌∷◌,
  ◌++◌, arith, inl, inr, ap, ◌∙◌, ltb, nat_beq, if◌then◌else◌, length, All, Bool-cases, replicate,
  length-append, length-replicate, All-append, All-replicate, zero, subst, nat_beq_iff, ◌≢◌,
}
use zwa_protocol.Prelude.Words
use zwa_protocol.Prelude.Words.{
  IsByte, IsBytes, IsU64, IsU128, from_be_bytes-append, from_le_bytes-lt, from_be_bytes-to_be_bytes,
  to_be_bytes-IsBytes, reverse-IsBytes, from_be_bytes-injective,
}
use zwa_protocol.Protocol.Error.{ok, err, invalid_field_encoding, not_reduced, wrong_length}
use zwa_protocol.Protocol.Field.{
  FieldElement, modulus_be, lex_lt, from_be_bytes, from_be_slice, from_u64, from_u128,
}

-- The number that an element stands for.
abbrev pub value : FieldElement → ℕ
value e = Words.from_be_bytes e.to_be_bytes

abbrev pub modulus : ℕ
modulus = 21888242871839275222246405745257275088548364400416034343698204186575808495617

pub record IsCanonical (e : FieldElement) : Type 0 where
  pub fixed : IsBytes 32 e.to_be_bytes
  pub reduced : value e < modulus

modulus_be-value : Words.from_be_bytes modulus_be ≡ modulus
unfolding Words.from_be_bytes
modulus_be-value = refl

modulus_be-IsBytes : IsBytes 32 modulus_be
modulus_be-IsBytes = (refl, omega arith)

from_be_bytes-one : (b : ℕ) → Words.from_be_bytes (b ∷ []) ≡ b
unfolding Words.from_be_bytes
from_be_bytes-one b = omega arith

-- A number's first byte weighs most.
pub from_be_bytes-cons :
    (b : ℕ) (bs : List ℕ)
    → Words.from_be_bytes (b ∷ bs) ≡ b * 256 ^ length bs + Words.from_be_bytes bs
from_be_bytes-cons b bs = rw (from_be_bytes-append (b ∷ []) bs, from_be_bytes-one) refl

pub from_be_bytes-lt : (n : ℕ) (bs : List ℕ) → IsBytes n bs → Words.from_be_bytes bs < 256 ^ n
unfolding Words.from_be_bytes
from_be_bytes-lt n bs h =
    let r : IsBytes n (reverse bs) = reverse-IsBytes n bs h in
    rw r.0 at (from_le_bytes-lt (reverse bs) r.1)

weighs_most : (b c w : ℕ) → b < c → b * w + w ≤ c * w
weighs_most b c w h = grind arith

-- The heads decide, and where they agree the tails do.
lex_lt_head :
    (w b c : ℕ) {vb vc x y : ℕ} (rest : Bool)
    → vb < w
    → vc < w
    → x ≡ b * w + vb
    → y ≡ c * w + vc
    → ((rest ≡ true) × (vb < vc)) ⊎ ((rest ≡ false) × (vc ≤ vb))
    → (((if nat_beq b c then rest else ltb b c) ≡ true) × (x < y))
      ⊎ (((if nat_beq b c then rest else ltb b c) ≡ false) × (y ≤ x))
lex_lt_head w b c rest hb hc ex ey h = ground (arith, weighs_most b c w, weighs_most c b w)

-- Lexicographic order on bytes is the order of the numbers.
lex_lt-value :
    (n : ℕ) (bs cs : List ℕ)
    → IsBytes n bs
    → IsBytes n cs
    → ((lex_lt bs cs ≡ true) × (Words.from_be_bytes bs < Words.from_be_bytes cs))
      ⊎ ((lex_lt bs cs ≡ false) × (Words.from_be_bytes cs ≤ Words.from_be_bytes bs))
unfolding lex_lt
lex_lt-value n [] [] hb hc = inr (refl, omega arith)
lex_lt-value n [] (c ∷ cs) hb hc = absurd (omega arith)
lex_lt-value n (b ∷ bs) [] hb hc = absurd (omega arith)
lex_lt-value n (b ∷ bs) (c ∷ cs) hb hc =
    let m : ℕ = length bs in
    let same_length : length cs ≡ m = omega arith in
    let vb : Words.from_be_bytes bs < 256 ^ m = from_be_bytes-lt m bs (refl, hb.1.1) in
    let vc : Words.from_be_bytes cs < 256 ^ m = from_be_bytes-lt m cs (same_length, hc.1.1) in
    let cb : Words.from_be_bytes (b ∷ bs) ≡ b * 256 ^ m + Words.from_be_bytes bs =
      from_be_bytes-cons b bs in
    let cv : Words.from_be_bytes (c ∷ cs) ≡ c * 256 ^ m + Words.from_be_bytes cs =
      from_be_bytes-cons c cs ∙ ap (λ t. c * 256 ^ t + Words.from_be_bytes cs) same_length in
    lex_lt_head (256 ^ m) b c (lex_lt bs cs) vb vc cb cv
      (lex_lt-value m bs cs (refl, hb.1.1) (same_length, hc.1.1))

-- 32 bytes are an element exactly if their number is below the modulus, and the element keeps the
-- bytes; any others are rejected as not reduced.
pub from_be_bytes-reduced :
    (bytes : List ℕ)
    → IsBytes 32 bytes
    → ((Words.from_be_bytes bytes < modulus)
        × (from_be_bytes bytes ≡ ok (record { to_be_bytes = bytes })))
      ⊎ ((modulus ≤ Words.from_be_bytes bytes)
          × (from_be_bytes bytes ≡ err (invalid_field_encoding not_reduced)))
unfolding from_be_bytes
from_be_bytes-reduced bytes h = decide (
    subst
      (λ m.
        ((lex_lt bytes modulus_be ≡ true) × (Words.from_be_bytes bytes < m))
        ⊎ ((lex_lt bytes modulus_be ≡ false) × (m ≤ Words.from_be_bytes bytes)))
      modulus_be-value (lex_lt-value 32 bytes modulus_be h modulus_be-IsBytes))
  where
    decide :
        ((lex_lt bytes modulus_be ≡ true) × (Words.from_be_bytes bytes < modulus))
          ⊎ ((lex_lt bytes modulus_be ≡ false) × (modulus ≤ Words.from_be_bytes bytes))
        → ((Words.from_be_bytes bytes < modulus)
            × (from_be_bytes bytes ≡ ok (record { to_be_bytes = bytes })))
          ⊎ ((modulus ≤ Words.from_be_bytes bytes)
              × (from_be_bytes bytes ≡ err (invalid_field_encoding not_reduced)))
    decide (inl (below, lt)) = inl (lt, rw below refl)
    decide (inr (above, le)) = inr (le, rw above refl)

-- `from_be_slice` takes exactly the slices of 32 bytes whose number is below the modulus, keeps the
-- bytes, and otherwise says whether the length or the number is wrong.
pub from_be_slice_cases :
    (bytes : List ℕ)
    → All IsByte bytes
    → ((length bytes ≢ 32) × (from_be_slice bytes ≡ err (invalid_field_encoding wrong_length)))
      ⊎ ((length bytes ≡ 32)
          × (Words.from_be_bytes bytes < modulus)
          × (from_be_slice bytes ≡ ok (record { to_be_bytes = bytes })))
      ⊎ ((length bytes ≡ 32)
          × (modulus ≤ Words.from_be_bytes bytes)
          × (from_be_slice bytes ≡ err (invalid_field_encoding not_reduced)))
unfolding from_be_slice
from_be_slice_cases bytes h = elim (Bool-cases (nat_beq (length bytes) 32)) [
  | inl same ↦
      let len : length bytes ≡ 32 = (nat_beq_iff (length bytes) 32).0 same in
      elim (from_be_bytes-reduced bytes (len, h)) [
        | inl (below, e) ↦ inr (inl (len, below, rw same e))
        | inr (above, e) ↦ inr (inr (len, above, rw same e))
      ]
  | inr other ↦ inl (ground arith, rw other refl)
]

zeros-value : (n : ℕ) → Words.from_be_bytes (replicate n 0) ≡ 0
zeros-value zero = unfold Words.from_be_bytes in refl
zeros-value (suc n) = rw (from_be_bytes-cons 0 (replicate n 0), zeros-value n) (omega arith)

padded-value :
    (n k v : ℕ) → v < 256 ^ k → Words.from_be_bytes (replicate n 0 ++ Words.to_be_bytes k v) ≡ v
padded-value n k v h =
    rw (from_be_bytes-append, zeros-value n, from_be_bytes-to_be_bytes k v h) (omega arith)

padded-IsBytes : (n k m v : ℕ) → n + k ≡ m → IsBytes m (replicate n 0 ++ Words.to_be_bytes k v)
padded-IsBytes n k m v h =
    let w : IsBytes k (Words.to_be_bytes k v) = to_be_bytes-IsBytes k v in
    (
      omega (
        arith,
        length-append (replicate n 0) (Words.to_be_bytes k v),
        length-replicate {A = ℕ} n 0,
      ),
      All-append IsByte (replicate n 0) (Words.to_be_bytes k v)
          (All-replicate IsByte n 0 (omega arith)) w.1,
    )

-- `from_u64` of a 64-bit number is canonical and keeps the number.
pub from_u64-value : (v : ℕ) → IsU64 v → IsCanonical (from_u64 v) × (value (from_u64 v) ≡ v)
unfolding from_u64
from_u64-value v h =
    let same : Words.from_be_bytes (replicate 24 0 ++ Words.to_be_bytes 8 v) ≡ v =
      padded-value 24 8 v (omega arith) in
    (record { fixed = padded-IsBytes 24 8 32 v refl; reduced = omega (arith, same) }, same)

-- `from_u128` of a 128-bit number is canonical and keeps the number.
pub from_u128-value : (v : ℕ) → IsU128 v → IsCanonical (from_u128 v) × (value (from_u128 v) ≡ v)
unfolding from_u128
from_u128-value v h =
    let same : Words.from_be_bytes (replicate 16 0 ++ Words.to_be_bytes 16 v) ≡ v =
      padded-value 16 16 v (omega arith) in
    (record { fixed = padded-IsBytes 16 16 32 v refl; reduced = omega (arith, same) }, same)

-- Canonical elements of the same number are equal.
pub value-injective :
    (a b : FieldElement) → IsCanonical a → IsCanonical b → value a ≡ value b → a ≡ b
value-injective a b ha hb h =
    let same : a.to_be_bytes ≡ b.to_be_bytes =
      from_be_bytes-injective 32 a.to_be_bytes b.to_be_bytes ha.fixed hb.fixed h in
    λ i. record { to_be_bytes = same i }

-- So the element tells the number.
pub from_u64-injective : (a b : ℕ) → IsU64 a → IsU64 b → from_u64 a ≡ from_u64 b → a ≡ b
from_u64-injective a b ha hb e = sym (from_u64-value a ha).1 ∙ ap value e ∙ (from_u64-value b hb).1

pub from_u128-injective : (a b : ℕ) → IsU128 a → IsU128 b → from_u128 a ≡ from_u128 b → a ≡ b
from_u128-injective a b ha hb e =
    sym (from_u128-value a ha).1 ∙ ap value e ∙ (from_u128-value b hb).1
