-- ===== src/Protocol/Field/Limbs.antt =====
-- The 256-bit arithmetic of crates/protocol/src/field.rs on limbs of 64 bits, as arithmetic on the
-- numbers that the limbs stand for.
use Prim.Native.Nat.{bit_or}
use zwa_protocol.Prelude.{
  ℕ, suc, ◌+◌, ◌*◌, ◌/◌, ◌%◌, ◌^◌, ◌≡◌, ◌≤◌, ◌<◌, ◌⊎◌, refl, sym, ap, ◌∙◌, none, some, List, [],
  ◌∷◌, ◌++◌, arith, inl, inr, nat_beq, length, take, drop, All, length-append, All-append,
  Bool-cases, length-take, length-drop, All-take, All-drop, take-append-drop, drop-drop, subst,
  nat_beq_iff,
}
use native.Mathlib.Nat.{pow-suc}
use zwa_protocol.Prelude.Words
use zwa_protocol.Prelude.Words.{
  IsByte, IsBytes, IsU64, shl_or, from_be_bytes-append, from_be_bytes-to_be_bytes,
  to_be_bytes-IsBytes,
}
use zwa_protocol.Protocol.Field
use zwa_protocol.Protocol.Field.{
  mul_add_loop, mul_add_small, div_rem_small, limb_at, be_bytes_to_limbs, put_limb,
  limbs_to_be_bytes,
}
use zwa_protocol.Protocol.Field.Canonical.{from_be_bytes-lt}

abbrev pub limbs_value : List ℕ → ℕ
limbs_value [] = 0
limbs_value (l ∷ ls) = l + 2 ^ 64 * limbs_value ls

-- A value of `[u64; n]`.
abbrev pub IsLimbs : ℕ → List ℕ → Type 0
IsLimbs n ls = (length ls ≡ n) × All IsU64 ls

limbs_value-lt : (ls : List ℕ) → All IsU64 ls → limbs_value ls < (2 ^ 64) ^ length ls
limbs_value-lt [] h = omega arith
limbs_value-lt (l ∷ ls) h = omega (arith, limbs_value-lt ls h.1, pow-suc (2 ^ 64) (length ls))

-- Multiplying by ten and adding a digit carries at most a digit from limb to limb.
mul_add_loop-value :
    (ls : List ℕ) (carry : ℕ)
    → All IsU64 ls
    → carry < 10
    → IsLimbs (length ls) (mul_add_loop ls 10 carry).0
      × ((mul_add_loop ls 10 carry).1 < 10)
      × (limbs_value (mul_add_loop ls 10 carry).0
            + (2 ^ 64) ^ length ls * (mul_add_loop ls 10 carry).1
          ≡ limbs_value ls * 10 + carry)
unfolding mul_add_loop
mul_add_loop-value [] carry h c = ((refl, tt), c, omega arith)
mul_add_loop-value (l ∷ ls) carry (hl, hls) c =
    let product : ℕ = (l * 10 + carry) % 2 ^ 128 in
    let whole : product ≡ l * 10 + carry = omega arith in
    let (limbs, small, rest) = mul_add_loop-value ls (product / 2 ^ 64) hls (omega arith) in
    (
      (ap suc limbs.0, (omega arith, limbs.1)),
      small,
      omega (
        arith,
        rest,
        ap (λ (t : ℕ). t * (mul_add_loop ls 10 (product / 2 ^ 64)).1)
            (pow-suc (2 ^ 64) (length ls)),
      ),
    )

-- `mul_add_small` by ten: exact where the result fits in the limbs, and `None` where it does not.
pub mul_add_small-value :
    (ls : List ℕ) (digit : ℕ)
    → IsLimbs 4 ls
    → digit < 10
    → ((ls' : List ℕ) × (mul_add_small ls 10 digit ≡ some ls')
        × IsLimbs 4 ls'
        × (limbs_value ls' ≡ limbs_value ls * 10 + digit))
      ⊎ ((mul_add_small ls 10 digit ≡ none) × (2 ^ 256 ≤ limbs_value ls * 10 + digit))
unfolding mul_add_small
mul_add_small-value ls digit h d =
    let (limbs, small, exact) = mul_add_loop-value ls digit h.1 d in
    let bound : limbs_value (mul_add_loop ls 10 digit).0 < (2 ^ 64) ^ length ls =
      subst (λ n. limbs_value (mul_add_loop ls 10 digit).0 < (2 ^ 64) ^ n) limbs.0
        (limbs_value-lt (mul_add_loop ls 10 digit).0 limbs.1) in
    let four : (2 ^ 64) ^ length ls ≡ 2 ^ 256 = ap (λ n. (2 ^ 64) ^ n) h.0 in
    let total : limbs_value (mul_add_loop ls 10 digit).0 + 2 ^ 256 * (mul_add_loop ls 10 digit).1
        ≡ limbs_value ls * 10 + digit =
      subst
        (λ w.
          limbs_value (mul_add_loop ls 10 digit).0 + w * (mul_add_loop ls 10 digit).1
          ≡ limbs_value ls * 10 + digit)
        four exact in
    elim (Bool-cases (nat_beq (mul_add_loop ls 10 digit).1 0)) [
      | inl fits ↦
          let none_left : (mul_add_loop ls 10 digit).1 ≡ 0 = (nat_beq_iff _ _).0 fits in
          inl (
            (mul_add_loop ls 10 digit).0,
            rw fits refl,
            (limbs.0 ∙ h.0, limbs.1),
            omega (arith, total),
          )
      | inr over ↦
          let some_left : 1 ≤ (mul_add_loop ls 10 digit).1 = ground arith in
          inr (rw over refl, omega (arith, total))
    ]

-- Dividing by ten leaves at most a digit from limb to limb.
pub div_rem_small-value :
    (ls : List ℕ)
    → All IsU64 ls
    → IsLimbs (length ls) (div_rem_small ls 10).0
      × ((div_rem_small ls 10).1 < 10)
      × (limbs_value ls ≡ limbs_value (div_rem_small ls 10).0 * 10 + (div_rem_small ls 10).1)
unfolding div_rem_small
div_rem_small-value [] h = ((refl, tt), omega arith, omega arith)
div_rem_small-value (l ∷ ls) (hl, hls) =
    let (limbs, small, rest) = div_rem_small-value ls hls in
    let r : ℕ = (div_rem_small ls 10).1 in
    let current : bit_or (r * 2 ^ 64 % 2 ^ 128) l ≡ r * 2 ^ 64 + l =
      let kept : r * 2 ^ 64 % 2 ^ 128 ≡ r * 2 ^ 64 = omega (arith, small) in
      ap (λ t. bit_or t l) kept ∙ shl_or 64 r l hl in
    rw current ((ap suc limbs.0, (omega arith, limbs.1)), omega arith, omega (arith, rest))

put_limbs_lem :
    (a b c d : ℕ)
    → limbs_to_be_bytes (a ∷ b ∷ c ∷ d ∷ [])
      ≡ Words.to_be_bytes 8 d
        ++ (Words.to_be_bytes 8 c ++ (Words.to_be_bytes 8 b ++ Words.to_be_bytes 8 a))
unfolding limbs_to_be_bytes Field.put_limbs put_limb Words.to_be_bytes Words.to_le_bytes
put_limbs_lem a b c d = refl

-- A limb written before other bytes.
limb_then :
    (x : ℕ) (n : ℕ) (ys : List ℕ)
    → IsU64 x
    → IsBytes n ys
    → IsBytes (8 + n) (Words.to_be_bytes 8 x ++ ys)
      × (Words.from_be_bytes (Words.to_be_bytes 8 x ++ ys) ≡ x * 256 ^ n + Words.from_be_bytes ys)
limb_then x n ys hx hy =
    let w : IsBytes 8 (Words.to_be_bytes 8 x) = to_be_bytes-IsBytes 8 x in
    (
      (
        omega (arith, length-append (Words.to_be_bytes 8 x) ys),
        All-append IsByte (Words.to_be_bytes 8 x) ys w.1 hy.1,
      ),
      from_be_bytes-append (Words.to_be_bytes 8 x) ys
          ∙ rw (hy.0, from_be_bytes-to_be_bytes 8 x (omega arith)) refl,
    )

-- Writing four limbs gives 32 bytes of the same number.
pub limbs_to_be_bytes-value :
    (ls : List ℕ)
    → IsLimbs 4 ls
    → IsBytes 32 (limbs_to_be_bytes ls)
      × (Words.from_be_bytes (limbs_to_be_bytes ls) ≡ limbs_value ls)
limbs_to_be_bytes-value [] (n, h) = absurd (omega arith)
limbs_to_be_bytes-value (a ∷ []) (n, h) = absurd (omega arith)
limbs_to_be_bytes-value (a ∷ b ∷ []) (n, h) = absurd (omega arith)
limbs_to_be_bytes-value (a ∷ b ∷ c ∷ []) (n, h) = absurd (omega arith)
limbs_to_be_bytes-value (a ∷ b ∷ c ∷ d ∷ []) (n, (ha, (hb, (hc, (hd, h))))) =
    let one : IsBytes 8 (Words.to_be_bytes 8 a)
        × (Words.from_be_bytes (Words.to_be_bytes 8 a) ≡ a) =
      (to_be_bytes-IsBytes 8 a, from_be_bytes-to_be_bytes 8 a (omega arith)) in
    let two = limb_then b 8 (Words.to_be_bytes 8 a) hb one.0 in
    let three = limb_then c 16 _ hc two.0 in
    let four = limb_then d 24 _ hd three.0 in
    rw (put_limbs_lem a b c d) (four.0, omega (arith, four.1, three.1, two.1, one.1))
limbs_to_be_bytes-value (a ∷ b ∷ c ∷ d ∷ e ∷ ls) (n, h) = absurd (omega arith)

-- The first eight bytes and the others.
limb_first :
    (n : ℕ) (bytes : List ℕ)
    → IsBytes (8 + n) bytes
    → IsU64 (Words.from_be_bytes (take 8 bytes))
      × IsBytes n (drop 8 bytes)
      × (Words.from_be_bytes bytes
          ≡ Words.from_be_bytes (take 8 bytes) * 256 ^ n + Words.from_be_bytes (drop 8 bytes))
limb_first n bytes h =
    let eight : IsBytes 8 (take 8 bytes) =
      (omega (arith, length-take 8 bytes), All-take IsByte 8 bytes h.1) in
    let others : length (drop 8 bytes) ≡ n = omega (arith, length-drop 8 bytes) in
    (
      omega (arith, from_be_bytes-lt 8 (take 8 bytes) eight),
      (others, All-drop IsByte 8 bytes h.1),
      ap Words.from_be_bytes (sym (take-append-drop 8 bytes))
          ∙ from_be_bytes-append (take 8 bytes) (drop 8 bytes)
          ∙ rw others refl,
    )

-- Reading 32 bytes as four limbs keeps the number.
pub be_bytes_to_limbs-value :
    (bytes : List ℕ)
    → IsBytes 32 bytes
    → IsLimbs 4 (be_bytes_to_limbs bytes)
      × (limbs_value (be_bytes_to_limbs bytes) ≡ Words.from_be_bytes bytes)
unfolding be_bytes_to_limbs limb_at
be_bytes_to_limbs-value bytes h =
    let d = limb_first 24 bytes h in
    let c = limb_first 16 (drop 8 bytes) d.1 in
    let b = limb_first 8 (drop 8 (drop 8 bytes)) c.1 in
    let a = limb_first 0 (drop 8 (drop 8 (drop 8 bytes))) b.1 in
    let at16 : drop 8 (drop 8 bytes) ≡ drop 16 bytes = drop-drop 8 8 bytes in
    let at24 : drop 8 (drop 8 (drop 8 bytes)) ≡ drop 24 bytes =
      ap (λ t. drop 8 t) at16 ∙ drop-drop 8 16 bytes in
    let l0 : IsU64 (Words.from_be_bytes (take 8 (drop 24 bytes))) =
      subst (λ t. IsU64 (Words.from_be_bytes (take 8 t))) at24 a.0 in
    let l1 : IsU64 (Words.from_be_bytes (take 8 (drop 16 bytes))) =
      subst (λ t. IsU64 (Words.from_be_bytes (take 8 t))) at16 b.0 in
    let v0 : Words.from_be_bytes (take 8 (drop 24 bytes))
        ≡ Words.from_be_bytes (take 8 (drop 8 (drop 8 (drop 8 bytes)))) =
      ap (λ t. Words.from_be_bytes (take 8 t)) (sym at24) in
    let v1 : Words.from_be_bytes (take 8 (drop 16 bytes))
        ≡ Words.from_be_bytes (take 8 (drop 8 (drop 8 bytes))) =
      ap (λ t. Words.from_be_bytes (take 8 t)) (sym at16) in
    let none_left : Words.from_be_bytes (drop 8 (drop 8 (drop 8 (drop 8 bytes)))) < 1 =
      from_be_bytes-lt 0 _ a.1 in
    ((refl, (l0, (l1, (c.0, (d.0, tt))))), omega (arith, a.2, b.2, c.2, d.2, v0, v1, none_left))
