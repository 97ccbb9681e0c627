-- ===== src/Protocol/Field/Decimal.antt =====
-- The decimal text of crates/protocol/src/field.rs, as arithmetic on the number that the text
-- denotes.
use zwa_protocol.Prelude.{
  ℕ, zero, suc, ◌+◌, ◌-◌, ◌*◌, ◌^◌, ◌≡◌, ◌≢◌, ◌≤◌, ◌<◌, ◌⊎◌, refl, sym, ap, ◌∙◌, true, false,
  Option, none, some, List, [], ◌∷◌, ◌++◌, arith, inl, inr, length, reverse, All, All-append,
  Bool-cases, ◌==◌, list_eq, nat_eq, list_beq_iff,
}
use mathlib.Core.List.{reverse-cons}
use native.Mathlib.Nat.{pow-suc}
use zwa_protocol.Prelude.Words
use zwa_protocol.Prelude.Words.{IsBytes}
use zwa_protocol.Protocol.Error.{
  ok, err, invalid_field_encoding, not_reduced, not_decimal, decimal_overflow,
}
use zwa_protocol.Protocol.Field
use zwa_protocol.Protocol.Field.{
  FieldElement, mul_add_small, div_rem_small, be_bytes_to_limbs, limbs_to_be_bytes, zero_limbs,
  is_ascii_digit, all_digits, decimal_loop, from_decimal_str, digits_loop, to_decimal_string,
}
use zwa_protocol.Protocol.Field.Canonical.{
  value, modulus, IsCanonical, from_be_bytes-reduced, from_be_bytes-lt, value-injective,
}
use zwa_protocol.Protocol.Field.Limbs.{
  limbs_value, IsLimbs, mul_add_small-value, div_rem_small-value, limbs_to_be_bytes-value,
  be_bytes_to_limbs-value,
}

-- An ASCII digit.
abbrev pub IsDigit : ℕ → Type 0
IsDigit b = (48 ≤ b) × (b < 58)

-- The number that digits denote after `acc`.
abbrev pub decimal_after : ℕ → List ℕ → ℕ
decimal_after acc [] = acc
decimal_after acc (b ∷ text) = decimal_after (acc * 10 + (b - 48)) text

abbrev pub decimal : List ℕ → ℕ
decimal text = decimal_after 0 text

abbrev pub IsDecimal : List ℕ → Type 0
IsDecimal text = (text ≢ []) × All IsDigit text

pub decimal_after-append :
    (acc : ℕ) (xs ys : List ℕ)
    → decimal_after acc (xs ++ ys) ≡ decimal_after (decimal_after acc xs) ys
decimal_after-append acc [] ys = refl
decimal_after-append acc (x ∷ xs) ys = decimal_after-append (acc * 10 + (x - 48)) xs ys

pub decimal_after-le : (acc : ℕ) (text : List ℕ) → acc ≤ decimal_after acc text
decimal_after-le acc [] = omega arith
decimal_after-le acc (b ∷ text) = omega (arith, decimal_after-le (acc * 10 + (b - 48)) text)

all_digits_cases :
    (text : List ℕ)
    → ((all_digits text ≡ true) × All IsDigit text)
      ⊎ ((all_digits text ≡ false) × ¬ All IsDigit text)
unfolding all_digits is_ascii_digit
all_digits_cases [] = inl (refl, tt)
all_digits_cases (b ∷ text) = ground (arith, all_digits_cases text)

decimal_loop_step :
    (limbs : List ℕ) (b : ℕ) (text : List ℕ) (o : Option (List ℕ))
    → mul_add_small limbs 10 (b - 48) ≡ o
    → decimal_loop limbs (b ∷ text)
      ≡ elim o [ none ↦ none | some limbs' ↦ decimal_loop limbs' text ]
unfolding decimal_loop
decimal_loop_step limbs b text o e =
    ap (λ t. elim t [ none ↦ none | some limbs' ↦ decimal_loop limbs' text ]) e

-- The loop of `from_decimal_str` computes the number, and overflows exactly from 2 ^ 256.
decimal_loop-value :
    (limbs text : List ℕ)
    → IsLimbs 4 limbs
    → All IsDigit text
    → ((ls : List ℕ) × (decimal_loop limbs text ≡ some ls)
        × IsLimbs 4 ls
        × (limbs_value ls ≡ decimal_after (limbs_value limbs) text))
      ⊎ ((decimal_loop limbs text ≡ none) × (2 ^ 256 ≤ decimal_after (limbs_value limbs) text))
unfolding decimal_loop
decimal_loop-value limbs [] h d = inl (limbs, refl, h, refl)
decimal_loop-value limbs (b ∷ text) h d =
    elim (mul_add_small-value limbs (b - 48) h (omega (arith, d.0))) [
      | inl (ls, e, hl, v) ↦
          rw (decimal_loop_step limbs b text (some ls) e, sym v) (decimal_loop-value ls text hl d.1)
      | inr (e, v) ↦ inr (
        decimal_loop_step limbs b text none e,
        omega (arith, v, decimal_after-le (limbs_value limbs * 10 + (b - 48)) text),
      )
    ]

limbs_zero : (ls : List ℕ) → IsLimbs 4 ls → limbs_value ls ≡ 0 → ls ≡ zero_limbs
limbs_zero [] (n, h) e = absurd (omega arith)
limbs_zero (a ∷ []) (n, h) e = absurd (omega arith)
limbs_zero (a ∷ b ∷ []) (n, h) e = absurd (omega arith)
limbs_zero (a ∷ b ∷ c ∷ []) (n, h) e = absurd (omega arith)
limbs_zero (a ∷ b ∷ c ∷ d ∷ []) (n, h) e =
    let a0 : a ≡ 0 = omega arith in
    let b0 : b ≡ 0 = omega arith in
    let c0 : c ≡ 0 = omega arith in let d0 : d ≡ 0 = omega arith in rw (a0, b0, c0, d0) refl
limbs_zero (a ∷ b ∷ c ∷ d ∷ e ∷ ls) (n, h) z = absurd (omega arith)

pub not_zero : (ls : List ℕ) → IsLimbs 4 ls → (ls == zero_limbs) ≡ false → limbs_value ls ≢ 0
not_zero ls h more e =
    let zeros : (ls == zero_limbs) ≡ true = (list_beq_iff ls zero_limbs).1 (limbs_zero ls h e) in
    ground arith

pub digits_loop_stop :
    (fuel : ℕ) (limbs : List ℕ) → (limbs == zero_limbs) ≡ true → digits_loop (suc fuel) limbs ≡ []
unfolding digits_loop
digits_loop_stop fuel limbs e = rw (digits_loop, e) refl

pub digits_loop_step :
    (fuel : ℕ) (limbs : List ℕ)
    → (limbs == zero_limbs) ≡ false
    → (div_rem_small limbs 10).1 < 10
    → digits_loop (suc fuel) limbs
      ≡ (48 + (div_rem_small limbs 10).1) ∷ digits_loop fuel (div_rem_small limbs 10).0
unfolding digits_loop
digits_loop_step fuel limbs e r = rw (digits_loop, e) (ground arith)

-- With one step for each digit, the pushed digits denote the number of the limbs.
pub digits_loop-value :
    (fuel : ℕ) (limbs : List ℕ)
    → IsLimbs 4 limbs
    → limbs_value limbs < 10 ^ fuel
    → All IsDigit (reverse (digits_loop fuel limbs))
      × (decimal (reverse (digits_loop fuel limbs)) ≡ limbs_value limbs)
unfolding digits_loop
digits_loop-value zero limbs h b = (tt, omega arith)
digits_loop-value (suc fuel) limbs h b = elim (Bool-cases (limbs == zero_limbs)) [
  | inl stop ↦
      let none_left : limbs_value limbs ≡ 0 =
        ap limbs_value ((list_beq_iff limbs zero_limbs).0 stop) in
      rw (digits_loop_stop fuel limbs stop) (tt, sym none_left)
  | inr more ↦
      let (limbs', digit, same) = div_rem_small-value limbs h.1 in
      let (digits, rest) =
        digits_loop-value fuel (div_rem_small limbs 10).0 (limbs'.0 ∙ h.0, limbs'.1)
          (omega (arith, same, pow-suc 10 fuel)) in
      rw (digits_loop_step fuel limbs more digit, reverse-cons)
        (
          All-append IsDigit (reverse (digits_loop fuel (div_rem_small limbs 10).0)) _ digits
              ((omega arith, omega (arith, digit)), tt),
          decimal_after-append 0 (reverse (digits_loop fuel (div_rem_small limbs 10).0)) _
              ∙ omega (arith, rest, same),
        )
]

pub cons≢nil : {b : ℕ} {text : List ℕ} → (b ∷ text) ≢ []
cons≢nil e = absurd (omega (arith, ap length e))

zero_limbs-IsU64 : All Words.IsU64 zero_limbs
zero_limbs-IsU64 = (omega arith, (omega arith, (omega arith, (omega arith, tt))))

-- The number of a nonempty text of digits: `from_decimal_str` gives the element of that number if
-- it is below the modulus, and otherwise says whether it still fits in 256 bits. Any other text is
-- not decimal.
pub from_decimal_str_cases :
    (text : List ℕ)
    → ((¬ IsDecimal text) × (from_decimal_str text ≡ err (invalid_field_encoding not_decimal)))
      ⊎ ((e : FieldElement) × IsDecimal text
          × (from_decimal_str text ≡ ok e)
          × IsCanonical e
          × (value e ≡ decimal text))
      ⊎ (IsDecimal text
          × (modulus ≤ decimal text)
          × (decimal text < 2 ^ 256)
          × (from_decimal_str text ≡ err (invalid_field_encoding not_reduced)))
      ⊎ (IsDecimal text
          × (2 ^ 256 ≤ decimal text)
          × (from_decimal_str text ≡ err (invalid_field_encoding decimal_overflow)))
unfolding from_decimal_str Field.from_limbs Field.is_empty
from_decimal_str_cases [] = inl (λ h. h.0 refl, refl)
from_decimal_str_cases (b ∷ text) = elim (all_digits_cases (b ∷ text)) [
  | inr (bad, h) ↦ inl (λ d. h d.1, rw bad refl)
  | inl (good, h) ↦
      let d : IsDecimal (b ∷ text) = ((λ e. cons≢nil e), h) in
      elim (decimal_loop-value zero_limbs (b ∷ text) (refl, zero_limbs-IsU64) h) [
        | inr (e, over) ↦ inr (inr (inr (d, over, rw (good, e) refl)))
        | inl (ls, e, hl, v) ↦
            let (fixed, same) = limbs_to_be_bytes-value ls hl in
            elim (from_be_bytes-reduced (limbs_to_be_bytes ls) fixed) [
              | inl (below, r) ↦ inr (
                  inl (
                    record { to_be_bytes = limbs_to_be_bytes ls },
                    d,
                    rw (good, e) r,
                    record { fixed = fixed; reduced = below },
                    same ∙ v,
                  ))
              | inr (above, r) ↦ inr (
                  inr (
                    inl (
                      d,
                      omega (arith, above, same, v),
                      omega (arith, from_be_bytes-lt 32 (limbs_to_be_bytes ls) fixed, same, v),
                      rw (good, e) r,
                    )))
            ]
      ]
]

-- `to_decimal_string` prints digits, at least one, that denote the element's number.
pub to_decimal_string-decimal :
    (self : FieldElement)
    → IsCanonical self
    → IsDecimal (to_decimal_string self) × (decimal (to_decimal_string self) ≡ value self)
unfolding to_decimal_string
to_decimal_string-decimal self h =
    let (limbs, same) = be_bytes_to_limbs-value self.to_be_bytes h.fixed in
    elim (Bool-cases (be_bytes_to_limbs self.to_be_bytes == zero_limbs)) [
      | inl zeros ↦
          let none_left : limbs_value (be_bytes_to_limbs self.to_be_bytes) ≡ 0 =
            ap limbs_value
              ((list_beq_iff (be_bytes_to_limbs self.to_be_bytes) zero_limbs).0 zeros) in
          rw zeros ((cons≢nil, ((omega arith, omega arith), tt)), omega (arith, same, none_left))
      | inr more ↦
          let (digits, rest) =
            digits_loop-value 78 (be_bytes_to_limbs self.to_be_bytes) limbs
              (omega (arith, same, h.reduced)) in
          let nonempty : reverse (digits_loop 78 (be_bytes_to_limbs self.to_be_bytes)) ≢ [] = λ e.
            not_zero (be_bytes_to_limbs self.to_be_bytes) limbs more (sym rest ∙ ap decimal e) in
          rw more ((nonempty, digits), rest ∙ same)
    ]

-- Parsing the printed text of a canonical element gives the element back.
pub from_decimal_str-to_decimal_string :
    (self : FieldElement) → IsCanonical self → from_decimal_str (to_decimal_string self) ≡ ok self
from_decimal_str-to_decimal_string self h =
    let (d, same) = to_decimal_string-decimal self h in
    elim (from_decimal_str_cases (to_decimal_string self)) [
      | inl (bad, e) ↦ absurd (bad d)
      | inr (inl (x, d', e, hx, v)) ↦ e ∙ ap ok (value-injective x self hx h (v ∙ same))
      | inr (inr (inl (d', above, below, e))) ↦ absurd (omega (arith, above, same, h.reduced))
      | inr (inr (inr (d', over, e))) ↦ absurd (omega (arith, over, same, h.reduced))
    ]
