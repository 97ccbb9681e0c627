-- ===== src/Prelude/Words/Bits.antt =====
-- Bit operations on one byte as arithmetic, each by a table of at most 256 values.
use Prim.Native.Nat.{ℕ, zero, suc, ◌+◌, ◌*◌, ◌/◌, ◌%◌, ◌<◌, bit_and, bit_or}
use mathlib.Core.Path.{◌≡◌, refl}
use mathlib.Core.Bool.{Bool, true, ◌&&◌}
use native.Mathlib.Omega.{arith}
use zwa_protocol.Prelude.Tests.{nat_beq, nat_beq_iff}

-- Over a small range, every value is checked by evaluation.
unfoldable pub all_below : ℕ → (ℕ → Bool) → Bool
all_below zero p = true
all_below (suc n) p = p n && all_below n p

pub all_below_sound : (n : ℕ) (p : ℕ → Bool) → all_below n p ≡ true → (i : ℕ) → i < n → p i ≡ true
unfolding all_below
all_below_sound zero p e i h = absurd (omega arith)
all_below_sound (suc n) p e i h = ground (arith, all_below_sound n p (ground arith) i)

-- Two functions agree where the table says so.
agree_below :
    (f g : ℕ → ℕ) (n : ℕ)
    → all_below n (λ i. nat_beq (f i) (g i)) ≡ true
    → (i : ℕ) → i < n
    → f i ≡ g i
agree_below f g n e i h = (nat_beq_iff (f i) (g i)).0 (all_below_sound n _ e i h)

pub low_nibble : (b : ℕ) → b < 256 → bit_and b 0x0f ≡ b % 16
unfolding all_below
low_nibble = agree_below _ _ 256 refl

join_table : (b : ℕ) → b < 256 → bit_or (b / 16 * 16 % 256) (b % 16) ≡ b
unfolding all_below
join_table = agree_below _ _ 256 refl

pub join_nibbles : (h l : ℕ) → h < 16 → l < 16 → bit_or (h * 16 % 256) l ≡ h * 16 + l
join_nibbles h l p q =
    let b : ℕ = h * 16 + l in
    let hb : b / 16 ≡ h = omega arith in
    let lb : b % 16 ≡ l = omega arith in rw (hb, lb) at (join_table b (omega arith))
