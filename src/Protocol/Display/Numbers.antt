-- ===== src/Protocol/Display/Numbers.antt =====
-- The decimal text of an unsigned integer (`Display`), as numbers.rs and error.rs print it.
use zwa_protocol.Prelude.{
  ℕ, zero, suc, ◌+◌, ◌/◌, ◌%◌, ◌≡◌, ◌≢◌, ◌≤◌, refl, sym, ap, ◌∙◌, [], ◌∷◌, arith, inl, inr, reverse,
  All, Bool-cases, ◌==◌, nat_eq, nat_beq_iff, true, false, length,
}
use zwa_protocol.Protocol.Field.{FieldElement, to_decimal_string}
use zwa_protocol.Protocol.Field.Canonical.{value, IsCanonical}
use zwa_protocol.Protocol.Field.Decimal.{IsDigit, decimal, IsDecimal, to_decimal_string-decimal}
use zwa_protocol.Protocol.Field.Unpadded.{
  IsUnpadded, Trimmed, low_first, decimal-reverse, All-reverse, decimal-injective, Ends-cons,
  Trimmed-Leads, to_decimal_string-IsUnpadded,
}
use zwa_protocol.Protocol.Display.{low_digits, number_text}

low_digits_stop : (fuel n : ℕ) → (n == 0) ≡ true → low_digits (suc fuel) n ≡ []
unfolding low_digits
low_digits_stop fuel n e =
    ap (λ t. elim t [ true ↦ [] | false ↦ (48 + n % 10) ∷ low_digits fuel (n / 10) ]) e

low_digits_step :
    (fuel n : ℕ)
    → (n == 0) ≡ false
    → low_digits (suc fuel) n ≡ (48 + n % 10) ∷ low_digits fuel (n / 10)
unfolding low_digits
low_digits_step fuel n e =
    ap (λ t. elim t [ true ↦ [] | false ↦ (48 + n % 10) ∷ low_digits fuel (n / 10) ]) e

low_digits_lem :
    (fuel n : ℕ)
    → n ≤ fuel
    → All IsDigit (low_digits fuel n)
      × Trimmed (low_digits fuel n)
      × (low_first (low_digits fuel n) ≡ n)
unfolding low_digits
low_digits_lem zero n h = (tt, tt, omega arith)
low_digits_lem (suc fuel) n h = elim (Bool-cases (n == 0)) [
  | inl zeros ↦ rw (low_digits_stop fuel n zeros) (tt, tt, sym ((nat_beq_iff n 0).0 zeros))
  | inr more ↦
      let positive : 1 ≤ n = ground arith in
      let (digits, trimmed, same) = low_digits_lem fuel (n / 10) (omega arith) in
      rw (low_digits_step fuel n more) (
        ((omega arith, omega arith), digits),
        Ends-cons (48 + n % 10) (low_digits fuel (n / 10)) trimmed (omega arith),
        omega arith,
      )
]

-- The text of a number is its decimal digits, with no 0 in front.
pub number_text-decimal :
    (n : ℕ) → IsDecimal (number_text n) × IsUnpadded (number_text n) × (decimal (number_text n) ≡ n)
unfolding number_text
number_text-decimal n = elim (Bool-cases (n == 0)) [
  | inl zeros ↦
      let none_left : n ≡ 0 = (nat_beq_iff n 0).0 zeros in
      rw zeros (
        ((λ e. absurd (omega (arith, ap length e))), ((omega arith, omega arith), tt)),
        inr refl,
        sym none_left,
      )
  | inr more ↦
      let (digits, trimmed, same) = low_digits_lem n n (omega arith) in
      let number : decimal (reverse (low_digits n n)) ≡ n =
        decimal-reverse (low_digits n n) ∙ same in
      let nonempty : reverse (low_digits n n) ≢ [] =
        λ e. let zeros : n ≡ 0 = sym number ∙ ap decimal e in ground arith in
      rw more (
        (nonempty, All-reverse (low_digits n n) digits),
        inl (Trimmed-Leads (low_digits n n) trimmed nonempty),
        number,
      )
]

pub number_text-injective : (n m : ℕ) → number_text n ≡ number_text m → n ≡ m
number_text-injective n m e =
    sym (number_text-decimal n).2 ∙ ap decimal e ∙ (number_text-decimal m).2

-- A canonical element is printed as its number is.
pub to_decimal_string-number_text :
    (self : FieldElement) → IsCanonical self → to_decimal_string self ≡ number_text (value self)
to_decimal_string-number_text self h =
    let (printed, same) = to_decimal_string-decimal self h in
    let (digits, unpadded, number) = number_text-decimal (value self) in
    decimal-injective (to_decimal_string self) (number_text (value self)) printed digits
      (to_decimal_string-IsUnpadded self h) unpadded (same ∙ sym number)
