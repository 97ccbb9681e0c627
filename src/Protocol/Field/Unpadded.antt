-- ===== src/Protocol/Field/Unpadded.antt =====
-- The decimal text that crates/protocol/src/field.rs prints is the one unpadded text of its number.
use zwa_protocol.Prelude.{
  ℕ, zero, suc, ◌+◌, ◌-◌, ◌*◌, ◌^◌, ◌≡◌, ◌≢◌, ◌≤◌, ◌<◌, ◌⊎◌, ◌↔◌, refl, sym, ap, ◌∙◌, List, [], ◌∷◌,
  ◌++◌, arith, inl, inr, reverse, All, All-append, Bool-cases, ◌==◌, list_eq, nat_eq, subst, ap₂,
}
use mathlib.Core.List.{reverse-cons, reverse-reverse}
use native.Mathlib.Nat.{pow-suc}
use zwa_protocol.Protocol.Error.{ok}
use zwa_protocol.Protocol.Field.{
  FieldElement, div_rem_small, be_bytes_to_limbs, zero_limbs, from_decimal_str, digits_loop,
  to_decimal_string,
}
use zwa_protocol.Protocol.Field.Canonical.{value, IsCanonical}
use zwa_protocol.Protocol.Field.Limbs.{
  limbs_value, IsLimbs, div_rem_small-value, be_bytes_to_limbs-value,
}
use zwa_protocol.Protocol.Field.Decimal.{
  IsDigit, decimal, IsDecimal, decimal_after-append, decimal_after-le, not_zero, digits_loop_stop,
  digits_loop_step, digits_loop-value, from_decimal_str_cases, to_decimal_string-decimal,
  from_decimal_str-to_decimal_string,
}

-- The first byte is a digit other than 0.
abbrev Leads : List ℕ → Type 0
Leads [] = ⊥
Leads (b ∷ text) = 49 ≤ b

-- No digit 0 stands in front of another digit.
abbrev pub IsUnpadded : List ℕ → Type 0
IsUnpadded text = Leads text ⊎ (text ≡ b'0' ∷ [])

-- The last byte is a digit other than 0, where there is one.
abbrev pub Ends : ℕ → List ℕ → Type 0
Ends d [] = 49 ≤ d
Ends d (e ∷ ds) = Ends e ds

abbrev pub Trimmed : List ℕ → Type 0
Trimmed [] = Unit
Trimmed (d ∷ ds) = Ends d ds

-- The number of digits of which the first is the lowest.
abbrev pub low_first : List ℕ → ℕ
low_first [] = 0
low_first (d ∷ ds) = (d - 48) + 10 * low_first ds

pub decimal-reverse : (ds : List ℕ) → decimal (reverse ds) ≡ low_first ds
decimal-reverse [] = refl
decimal-reverse (d ∷ ds) =
    rw (reverse-cons, decimal_after-append 0 (reverse ds) (d ∷ []))
      (omega (arith, decimal-reverse ds))

Leads-append : (xs ys : List ℕ) → Leads xs → Leads (xs ++ ys)
Leads-append [] ys h = absurd h
Leads-append (x ∷ xs) ys h = h

Leads-reverse : (d : ℕ) (ds : List ℕ) → Ends d ds → Leads (reverse (d ∷ ds))
Leads-reverse d [] h = h
Leads-reverse d (e ∷ ds) h =
    rw (reverse-cons d (e ∷ ds)) (Leads-append (reverse (e ∷ ds)) (d ∷ []) (Leads-reverse e ds h))

Ends-append : (d : ℕ) (ds : List ℕ) (b : ℕ) → 49 ≤ b → Ends d (ds ++ (b ∷ []))
Ends-append d [] b h = h
Ends-append d (e ∷ ds) b h = Ends-append e ds b h

Trimmed-append : (ds : List ℕ) (b : ℕ) → 49 ≤ b → Trimmed (ds ++ (b ∷ []))
Trimmed-append [] b h = h
Trimmed-append (d ∷ ds) b h = Ends-append d ds b h

Trimmed-reverse : (text : List ℕ) → Leads text → Trimmed (reverse text)
Trimmed-reverse [] h = absurd h
Trimmed-reverse (b ∷ text) h = rw (reverse-cons) (Trimmed-append (reverse text) b h)

pub All-reverse : (text : List ℕ) → All IsDigit text → All IsDigit (reverse text)
All-reverse [] h = tt
All-reverse (b ∷ text) h =
    rw (reverse-cons) (All-append IsDigit (reverse text) _ (All-reverse text h.1) (h.0, tt))

low_first_positive : (d : ℕ) (ds : List ℕ) → Ends d ds → 1 ≤ low_first (d ∷ ds)
low_first_positive d [] h = omega arith
low_first_positive d (e ∷ ds) h = omega (arith, low_first_positive e ds h)

Ends-Trimmed : (d : ℕ) (ds : List ℕ) → Ends d ds → Trimmed ds
Ends-Trimmed d [] h = tt
Ends-Trimmed d (e ∷ ds) h = h

-- A number has one trimmed list of digits.
low_first-injective :
    (xs ys : List ℕ)
    → All IsDigit xs
    → All IsDigit ys
    → Trimmed xs
    → Trimmed ys
    → low_first xs ≡ low_first ys
    → xs ≡ ys
low_first-injective [] [] hx hy tx ty e = refl
low_first-injective [] (y ∷ ys) hx hy tx ty e = absurd (omega (arith, low_first_positive y ys ty))
low_first-injective (x ∷ xs) [] hx hy tx ty e = absurd (omega (arith, low_first_positive x xs tx))
low_first-injective (x ∷ xs) (y ∷ ys) hx hy tx ty e =
    let first : x ≡ y = omega (arith, hx.0, hy.0) in
    let rest : xs ≡ ys =
      low_first-injective xs ys hx.1 hy.1 (Ends-Trimmed x xs tx) (Ends-Trimmed y ys ty)
        (omega (arith, hx.0, hy.0)) in
    ap₂ (λ d ds. d ∷ ds) first rest

Leads-positive : (text : List ℕ) → Leads text → 1 ≤ decimal text
Leads-positive [] h = absurd h
Leads-positive (b ∷ text) h = omega (arith, decimal_after-le (0 * 10 + (b - 48)) text)

decimal-low_first : (text : List ℕ) → decimal text ≡ low_first (reverse text)
decimal-low_first text = ap decimal (sym (reverse-reverse text)) ∙ decimal-reverse (reverse text)

-- A number has one unpadded text.
pub decimal-injective :
    (xs ys : List ℕ)
    → IsDecimal xs
    → IsDecimal ys
    → IsUnpadded xs
    → IsUnpadded ys
    → decimal xs ≡ decimal ys
    → xs ≡ ys
decimal-injective xs ys hx hy (inl ux) (inl uy) e =
    sym (reverse-reverse xs) ∙ ap reverse same ∙ reverse-reverse ys
  where
    same : reverse xs ≡ reverse ys
    same =
        low_first-injective (reverse xs) (reverse ys) (All-reverse xs hx.1) (All-reverse ys hy.1)
          (Trimmed-reverse xs ux) (Trimmed-reverse ys uy)
          (sym (decimal-low_first xs) ∙ e ∙ decimal-low_first ys)
decimal-injective xs ys hx hy (inl ux) (inr uy) e =
    absurd (omega (arith, Leads-positive xs ux, ap decimal uy))
decimal-injective xs ys hx hy (inr ux) (inl uy) e =
    absurd (omega (arith, Leads-positive ys uy, ap decimal ux))
decimal-injective xs ys hx hy (inr ux) (inr uy) e = ux ∙ sym uy

-- A last digit of a number other than 0 is not 0, or others follow it.
pub Ends-cons : (d : ℕ) (ds : List ℕ) → Trimmed ds → 1 ≤ low_first (d ∷ ds) → Ends d ds
Ends-cons d [] h positive = omega arith
Ends-cons d (e ∷ ds) h positive = h

digits_loop-Trimmed :
    (fuel : ℕ) (limbs : List ℕ)
    → IsLimbs 4 limbs
    → limbs_value limbs < 10 ^ fuel
    → Trimmed (digits_loop fuel limbs)
unfolding digits_loop
digits_loop-Trimmed zero limbs h b = tt
digits_loop-Trimmed (suc fuel) limbs h b = elim (Bool-cases (limbs == zero_limbs)) [
  | inl stop ↦ rw (digits_loop_stop fuel limbs stop) tt
  | inr more ↦
      let (limbs', digit, same) = div_rem_small-value limbs h.1 in
      let left : limbs_value (div_rem_small limbs 10).0 < 10 ^ fuel =
        omega (arith, same, pow-suc 10 fuel) in
      let fixed : IsLimbs 4 (div_rem_small limbs 10).0 = (limbs'.0 ∙ h.0, limbs'.1) in
      let rest = digits_loop fuel (div_rem_small limbs 10).0 in
      let (digits, number) = digits_loop-value fuel (div_rem_small limbs 10).0 fixed left in
      rw (digits_loop_step fuel limbs more digit) (
        Ends-cons (48 + (div_rem_small limbs 10).1) rest
          (digits_loop-Trimmed fuel (div_rem_small limbs 10).0 fixed left)
          (omega (arith, same, number, decimal-reverse rest, not_zero limbs h more)))
]

pub Trimmed-Leads : (ds : List ℕ) → Trimmed ds → reverse ds ≢ [] → Leads (reverse ds)
Trimmed-Leads [] h nonempty = absurd (nonempty refl)
Trimmed-Leads (d ∷ ds) h nonempty = Leads-reverse d ds h

pub to_decimal_string-IsUnpadded :
    (self : FieldElement) → IsCanonical self → IsUnpadded (to_decimal_string self)
unfolding to_decimal_string
to_decimal_string-IsUnpadded self h =
    let (limbs, same) = be_bytes_to_limbs-value self.to_be_bytes h.fixed in
    elim (Bool-cases (be_bytes_to_limbs self.to_be_bytes == zero_limbs)) [
      | inl zeros ↦ rw zeros (inr refl)
      | inr more ↦
          let fits : limbs_value (be_bytes_to_limbs self.to_be_bytes) < 10 ^ 78 =
            omega (arith, same, h.reduced) in
          let (digits, number) =
            digits_loop-value 78 (be_bytes_to_limbs self.to_be_bytes) limbs fits in
          let loop = digits_loop 78 (be_bytes_to_limbs self.to_be_bytes) in
          let nonempty : reverse loop ≢ [] = λ e.
            not_zero (be_bytes_to_limbs self.to_be_bytes) limbs more (sym number ∙ ap decimal e) in
          rw more (
            inl (
              Trimmed-Leads loop
                (digits_loop-Trimmed 78 (be_bytes_to_limbs self.to_be_bytes) limbs fits) nonempty))
    ]

parsed_value :
    (text : List ℕ) (self : FieldElement)
    → from_decimal_str text ≡ ok self
    → IsDecimal text × (decimal text ≡ value self)
parsed_value text self e = elim (from_decimal_str_cases text) [
  | inl (bad, r) ↦ absurd (cc)
  | inr (inl (x, d, r, hx, v)) ↦ let same : x ≡ self = cc in (d, sym v ∙ ap value same)
  | inr (inr (inl (d, above, below, r))) ↦ absurd (cc)
  | inr (inr (inr (d, over, r))) ↦ absurd (cc)
]

-- The printed text of a canonical element is the one unpadded text that is parsed as the element.
pub to_decimal_string_iff :
    (self : FieldElement) (text : List ℕ)
    → IsCanonical self
    → (to_decimal_string self ≡ text) ↔ (IsUnpadded text × (from_decimal_str text ≡ ok self))
to_decimal_string_iff self text h = (
  λ e. (
    subst IsUnpadded e (to_decimal_string-IsUnpadded self h),
    ap from_decimal_str (sym e) ∙ from_decimal_str-to_decimal_string self h,
  ),
  λ u.
      let (printed, number) = to_decimal_string-decimal self h in
      let (digits, same) = parsed_value text self u.1 in
      decimal-injective (to_decimal_string self) text printed digits
        (to_decimal_string-IsUnpadded self h) u.0 (number ∙ sym same),
)
