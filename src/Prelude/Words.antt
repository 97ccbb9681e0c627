-- ===== src/Prelude/Words.antt =====
-- Bytes and fixed-width unsigned integers (`u8`, `u64`, `u128`), with the standard library's
-- `to_le_bytes`, `from_le_bytes`, `to_be_bytes` and `from_be_bytes`.
mod Bits
mod Disjoint
pub mod Parity
unfoldable pub use Bits.{all_below}
pub use Bits.*
pub use Disjoint.{shl_or}
use Prim.Native.Nat.{ℕ, zero, suc, ◌+◌, ◌*◌, ◌/◌, ◌%◌, ◌^◌, ◌≤◌, ◌<◌}
use mathlib.Core.Path.{◌≡◌, refl, sym, ap, ap₂, ◌∙◌}
use mathlib.Core.List.{List, [], ◌∷◌, ◌++◌, reverse, reverse-reverse, reverse-append, reverse-cons}
use native.Mathlib.Omega.{arith}
use native.Mathlib.Nat.{pow-suc}
use zwa_protocol.Prelude.Lists.{length, All, All-append, length-append}

abbrev pub IsByte : ℕ → Type 0
IsByte b = b < 256

abbrev pub IsU64 : ℕ → Type 0
IsU64 n = n < 2 ^ 64

abbrev pub IsU128 : ℕ → Type 0
IsU128 n = n < 2 ^ 128

-- A value of `[u8; n]`.
abbrev pub IsBytes : ℕ → List ℕ → Type 0
IsBytes n bs = (length bs ≡ n) × All IsByte bs

-- The little-endian bytes of a number of `n` bytes; higher bits are dropped.
unfoldable pub to_le_bytes : ℕ → ℕ → List ℕ
to_le_bytes zero v = []
to_le_bytes (suc n) v = (v % 256) ∷ to_le_bytes n (v / 256)

unfoldable pub from_le_bytes : List ℕ → ℕ
from_le_bytes [] = 0
from_le_bytes (b ∷ bs) = b + 256 * from_le_bytes bs

unfoldable pub to_be_bytes : ℕ → ℕ → List ℕ
unfolding to_le_bytes
to_be_bytes n v = reverse (to_le_bytes n v)

unfoldable pub from_be_bytes : List ℕ → ℕ
unfolding from_le_bytes
from_be_bytes bs = from_le_bytes (reverse bs)

pub to_le_bytes-IsBytes : (n v : ℕ) → IsBytes n (to_le_bytes n v)
unfolding to_le_bytes
to_le_bytes-IsBytes zero v = (refl, tt)
to_le_bytes-IsBytes (suc n) v =
    let rest : IsBytes n (to_le_bytes n (v / 256)) = to_le_bytes-IsBytes n (v / 256) in
    (ap suc rest.0, (omega arith, rest.1))

pub from_le_bytes-to_le_bytes : (n v : ℕ) → v < 256 ^ n → from_le_bytes (to_le_bytes n v) ≡ v
unfolding to_le_bytes from_le_bytes
from_le_bytes-to_le_bytes zero v h = omega arith
from_le_bytes-to_le_bytes (suc n) v h =
    omega (arith, from_le_bytes-to_le_bytes n (v / 256) (omega (arith, pow-suc 256 n)))

pub to_le_bytes-from_le_bytes :
    (bs : List ℕ) → All IsByte bs → to_le_bytes (length bs) (from_le_bytes bs) ≡ bs
unfolding to_le_bytes from_le_bytes
to_le_bytes-from_le_bytes [] h = refl
to_le_bytes-from_le_bytes (b ∷ bs) h =
    let n : ℕ = from_le_bytes bs in
    let low : (b + 256 * n) % 256 ≡ b = omega (arith, h.0) in
    let high : (b + 256 * n) / 256 ≡ n = omega (arith, h.0) in
    rw (low, high, to_le_bytes-from_le_bytes bs h.1)

pub from_le_bytes-lt : (bs : List ℕ) → All IsByte bs → from_le_bytes bs < 256 ^ length bs
unfolding from_le_bytes
from_le_bytes-lt [] h = omega arith
from_le_bytes-lt (b ∷ bs) h = omega (arith, from_le_bytes-lt bs h.1, pow-suc 256 (length bs))

-- Two byte lists of one length that denote the same number are equal.
pub from_le_bytes-injective :
    (bs cs : List ℕ)
    → All IsByte bs
    → All IsByte cs
    → length bs ≡ length cs
    → from_le_bytes bs ≡ from_le_bytes cs
    → bs ≡ cs
from_le_bytes-injective bs cs hb hc l e =
    sym (to_le_bytes-from_le_bytes bs hb) ∙ ap₂ to_le_bytes l e ∙ to_le_bytes-from_le_bytes cs hc

pub from_le_bytes-append :
    (bs cs : List ℕ)
    → from_le_bytes (bs ++ cs) ≡ from_le_bytes bs + 256 ^ length bs * from_le_bytes cs
unfolding from_le_bytes
from_le_bytes-append [] cs = omega arith
from_le_bytes-append (b ∷ bs) cs = omega (
  arith,
  from_le_bytes-append bs cs,
  ap (λ (t : ℕ). t * from_le_bytes cs) (pow-suc 256 (length bs)),
)

pub length-reverse : (bs : List ℕ) → length (reverse bs) ≡ length bs
length-reverse [] = refl
length-reverse (b ∷ bs) =
    rw (reverse-cons) (omega (arith, length-append (reverse bs) (b ∷ []), length-reverse bs))

All-reverse : (bs : List ℕ) → All IsByte bs → All IsByte (reverse bs)
All-reverse [] h = h
All-reverse (b ∷ bs) h =
    rw reverse-cons (All-append IsByte (reverse bs) (b ∷ []) (All-reverse bs h.1) (h.0, tt))

pub reverse-IsBytes : (n : ℕ) (bs : List ℕ) → IsBytes n bs → IsBytes n (reverse bs)
reverse-IsBytes n bs h = (length-reverse bs ∙ h.0, All-reverse bs h.1)

pub to_be_bytes-IsBytes : (n v : ℕ) → IsBytes n (to_be_bytes n v)
unfolding to_be_bytes
to_be_bytes-IsBytes n v = reverse-IsBytes n (to_le_bytes n v) (to_le_bytes-IsBytes n v)

pub from_be_bytes-to_be_bytes : (n v : ℕ) → v < 256 ^ n → from_be_bytes (to_be_bytes n v) ≡ v
unfolding to_be_bytes from_be_bytes
from_be_bytes-to_be_bytes n v h =
    ap from_le_bytes (reverse-reverse (to_le_bytes n v)) ∙ from_le_bytes-to_le_bytes n v h

pub from_be_bytes-injective :
    (n : ℕ) (bs cs : List ℕ)
    → IsBytes n bs
    → IsBytes n cs
    → from_be_bytes bs ≡ from_be_bytes cs
    → bs ≡ cs
unfolding from_be_bytes
from_be_bytes-injective n bs cs hb hc e =
    let rb : IsBytes n (reverse bs) = reverse-IsBytes n bs hb in
    let rc : IsBytes n (reverse cs) = reverse-IsBytes n cs hc in
    sym (reverse-reverse bs)
    ∙ ap reverse (from_le_bytes-injective _ _ rb.1 rc.1 (rb.0 ∙ sym rc.0) e)
    ∙ reverse-reverse cs

pub from_be_bytes-append :
    (bs cs : List ℕ)
    → from_be_bytes (bs ++ cs) ≡ from_be_bytes bs * 256 ^ length cs + from_be_bytes cs
unfolding from_be_bytes
from_be_bytes-append bs cs = rw (reverse-append, from_le_bytes-append, length-reverse) (omega arith)
