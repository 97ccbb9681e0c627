-- ===== src/Commitments/Poseidon.antt =====
-- crates/commitments/src/poseidon.rs: Poseidon over canonical field elements. The hasher is the
-- crate light-poseidon, a parameter.
use zwa_protocol.Prelude.{
  ℕ, ◌≡◌, ◌≤◌, ◌<◌, ◌≢◌, ◌⊎◌, inl, inr, refl, sym, ap, ◌∙◌, Option, none, some, List, arith, length,
  true, false, Bool-cases, ◌==◌, list_eq, list_beq_iff, nat_eq, ◌>>=◌, subst,
}
use mathlib.Core.Option.{some-injective}
use zwa_protocol.Prelude.Words
use zwa_protocol.Prelude.Words.{IsBytes}
use zwa_protocol.Protocol.Error.{Result, ok, err, unsupported_poseidon_arity}
use zwa_protocol.Protocol.Field.{FieldElement, field_eq, from_be_slice}
use zwa_protocol.Protocol.Field.Canonical.{modulus, IsCanonical, from_be_slice_cases}

-- `Poseidon::<Fr>::new_circom(inputs.len())` and `hash` on the scalars of `inputs`: the big-endian
-- bytes of the digest, or `none` where either of them fails.
pub record LightPoseidon : Type 0 where
  pub digest : List FieldElement → Option (List ℕ)

-- What the crates document: one to twelve inputs are hashed, to a scalar below the modulus, and
-- other arities fail.
pub record IsCircom (p : LightPoseidon) : Type 0 where
  pub supported :
      (inputs : List FieldElement)
      → 1 ≤ length inputs
      → length inputs ≤ 12
      → (bytes : List ℕ) × (p.digest inputs ≡ some bytes)
        × IsBytes 32 bytes
        × (Words.from_be_bytes bytes < modulus)
  pub unsupported :
      (inputs : List FieldElement)
      → (length inputs ≡ 0) ⊎ (12 < length inputs)
      → p.digest inputs ≡ none

-- `expect`; `none` is the panic.
abbrev pub expect : {A : Type 0} → Result A → Option A
expect (ok a) = some a
expect (err e) = none

abbrev or_unsupported : ℕ → Option (List ℕ) → Option (Result FieldElement)
or_unsupported arity none = some (err (unsupported_poseidon_arity arity))
or_unsupported arity (some bytes) = expect (from_be_slice bytes) >>= λ e. some (ok e)

module _ (p : LightPoseidon) where
  unfoldable pub poseidon : List FieldElement → Option (Result FieldElement)
  unfolding from_be_slice
  poseidon inputs = or_unsupported (length inputs) (p.digest inputs)

  unfoldable pub hash : List FieldElement → Option FieldElement
  unfolding poseidon
  hash inputs = poseidon inputs >>= expect

  -- Two different inputs with the same hash.
  abbrev pub Collides : List FieldElement → List FieldElement → Type 0
  Collides xs ys = (xs ≢ ys) × (hash xs ≡ hash ys)

arity_cases : (n : ℕ) → ((1 ≤ n) × (n ≤ 12)) ⊎ ((n ≡ 0) ⊎ (12 < n))
arity_cases n = ground arith

from_be_slice_below :
    (bytes : List ℕ)
    → IsBytes 32 bytes
    → Words.from_be_bytes bytes < modulus
    → from_be_slice bytes ≡ ok (record { to_be_bytes = bytes })
from_be_slice_below bytes fixed below = elim (from_be_slice_cases bytes fixed.1) [
  | inl (short, e) ↦ absurd (short fixed.0)
  | inr (inl (l, b, e)) ↦ e
  | inr (inr (l, above, e)) ↦ absurd (omega arith)
]

-- For a hasher as `IsCircom` says: `poseidon` never panics. One to twelve inputs have a canonical
-- hash, and any other number of inputs is rejected with that number.
poseidon_cases :
    (p : LightPoseidon)
    → IsCircom p
    → (inputs : List FieldElement)
    → ((1 ≤ length inputs)
        × (length inputs ≤ 12)
        × ((e : FieldElement) × (poseidon p inputs ≡ some (ok e))
            × IsCanonical e
            × (p.digest inputs ≡ some e.to_be_bytes)))
      ⊎ (((length inputs ≡ 0) ⊎ (12 < length inputs))
          × (poseidon p inputs ≡ some (err (unsupported_poseidon_arity (length inputs)))))
unfolding poseidon
poseidon_cases p c inputs = elim (arity_cases (length inputs)) [
  | inr outside ↦ inr (outside, ap (or_unsupported (length inputs)) (c.unsupported inputs outside))
  | inl (low, high) ↦
      let (bytes, same, fixed, below) = c.supported inputs low high in
      let read : from_be_slice bytes ≡ ok (record { to_be_bytes = bytes }) =
        from_be_slice_below bytes fixed below in
      inl (
        low,
        high,
        (
          record { to_be_bytes = bytes },
          ap (or_unsupported (length inputs)) same ∙ ap (λ r. expect r >>= λ e. some (ok e)) read,
          record { fixed = fixed; reduced = below },
          same,
        ),
      )
]

-- The arities that the crate hashes never panic.
pub hash_total :
    (p : LightPoseidon)
    → IsCircom p
    → (inputs : List FieldElement) → 1 ≤ length inputs
    → length inputs ≤ 12
    → (e : FieldElement) × (hash p inputs ≡ some e) × IsCanonical e
unfolding hash
hash_total p c inputs low high = elim (poseidon_cases p c inputs) [
  | inl (l, h, (e, same, canonical, d)) ↦ (e, rw same refl, canonical)
  | inr (inl none_in, e) ↦ absurd (omega arith)
  | inr (inr too_many, e) ↦ absurd (omega arith)
]

-- A hash is the digest of the hasher.
pub hash-digest :
    (p : LightPoseidon)
    → IsCircom p
    → (inputs : List FieldElement) (e : FieldElement) → hash p inputs ≡ some e
    → p.digest inputs ≡ some e.to_be_bytes
unfolding hash
hash-digest p c inputs e h = elim (poseidon_cases p c inputs) [
  | inl (l, u, (e', same, canonical, d)) ↦
      let here : e' ≡ e = some-injective _ _ (sym (rw same refl) ∙ h) in
      d ∙ ap (λ k. some k.to_be_bytes) here
  | inr (outside, refused) ↦
      let nothing : ◌≡◌ {A = Option FieldElement} none (some e) = sym (rw refused refl) ∙ h in cc
]

pub hash-IsCanonical :
    (p : LightPoseidon)
    → IsCircom p
    → (inputs : List FieldElement) (e : FieldElement) → 1 ≤ length inputs
    → length inputs ≤ 12
    → hash p inputs ≡ some e
    → IsCanonical e
hash-IsCanonical p c inputs e low high h =
    let (e', same, canonical) = hash_total p c inputs low high in
    subst IsCanonical (some-injective _ _ (sym same ∙ h)) canonical

different : (xs ys : List FieldElement) → (xs == ys) ≡ false → xs ≢ ys
different xs ys other e = let same : (xs == ys) ≡ true = (list_beq_iff xs ys).1 e in ground arith

-- Inputs with one hash are equal, or a collision.
pub same_or_Collides :
    (p : LightPoseidon) {e : FieldElement} (xs ys : List FieldElement)
    → hash p xs ≡ some e
    → hash p ys ≡ some e
    → (xs ≡ ys) ⊎ Collides p xs ys
same_or_Collides p xs ys hx hy = elim (Bool-cases (xs == ys)) [
  | inl same ↦ inl ((list_beq_iff xs ys).0 same)
  | inr other ↦ inr (different xs ys other, hx ∙ sym hy)
]
