-- ===== src/Prelude/Words/Parity.antt =====
-- `i ^ 1` changes the last binary digit, and `n & (n - 1)` clears the last that is set.
use Prim.Native.Nat.{
  ℕ, zero, suc, ◌+◌, ◌-◌, ◌*◌, ◌/◌, ◌%◌, ◌^◌, ◌≤◌, ◌<◌, min, bit_and, bit_xor, differ, digits,
  bit_and-bitwise, bit_xor-bitwise,
}
use mathlib.Core.Path.{◌≡◌, refl, ap, ◌∙◌}
use native.Mathlib.Omega.{arith}
use native.Mathlib.Nat.{pow-suc}

digit-zero : (d : ℕ) → differ d 0 ≡ d
digit-zero zero = refl
digit-zero (suc d) = refl

xor-zero : (n a : ℕ) → a ≤ n → digits (λ b. b) differ n a 0 ≡ a
xor-zero zero zero h = refl
xor-zero zero (suc a) h = absurd (omega arith)
xor-zero (suc n) zero h = refl
xor-zero (suc n) (suc a) h =
    omega (arith, xor-zero n (suc a / 2) (omega arith), digit-zero (suc a % 2))

digit-one : (d : ℕ) → d < 2 → differ d 1 ≡ 1 - d
digit-one zero h = refl
digit-one (suc zero) h = refl
digit-one (suc (suc d)) h = absurd (omega arith)

pub xor-one : (i : ℕ) → bit_xor i 1 ≡ i / 2 * 2 + (1 - i % 2)
xor-one zero = refl
xor-one (suc a) = omega (
  arith,
  bit_xor-bitwise (suc a) 1,
  xor-zero a (suc a / 2) (omega arith),
  digit-one (suc a % 2) (omega arith),
)

pub xor-one_step : (i : ℕ) → bit_xor (suc (suc i)) 1 ≡ suc (suc (bit_xor i 1))
xor-one_step i = omega (arith, xor-one i, xor-one (suc (suc i)))

abbrev and_digits : ℕ → ℕ → ℕ → ℕ
and_digits n a b = digits (λ c. 0) min n a b

and-no_digits : (n b : ℕ) → and_digits n 0 b ≡ 0
and-no_digits zero b = refl
and-no_digits (suc n) b = refl

and_power : (n k a : ℕ) → a ≡ 2 ^ k → a ≤ n → and_digits n a (a - 1) ≡ 0
and_power zero k a e h = refl
and_power (suc n) k zero e h = refl
and_power (suc n) zero (suc c) e h =
    let one : c ≡ 0 = omega arith in
    let none_left : suc c / 2 ≡ 0 = omega arith in
    let left : and_digits n (suc c / 2) ((suc c - 1) / 2) ≡ 0 =
      ap (λ t. and_digits n t ((suc c - 1) / 2)) none_left ∙ and-no_digits n ((suc c - 1) / 2) in
    omega (arith, left, one)
and_power (suc n) (suc k) (suc c) e h =
    let half : suc c / 2 ≡ 2 ^ k = omega (arith, pow-suc 2 k) in
    let low : (suc c - 1) / 2 ≡ suc c / 2 - 1 = omega (arith, pow-suc 2 k) in
    let even : suc c % 2 ≡ 0 = omega (arith, pow-suc 2 k) in
    let left : and_digits n (suc c / 2) ((suc c - 1) / 2) ≡ 0 =
      ap (and_digits n (suc c / 2)) low ∙ and_power n k (suc c / 2) half (omega arith) in
    omega (arith, even, left)

pub and-power : (k : ℕ) → bit_and (2 ^ k) (2 ^ k - 1) ≡ 0
and-power k = bit_and-bitwise (2 ^ k) (2 ^ k - 1) ∙ and_power (2 ^ k) k (2 ^ k) refl (omega arith)
