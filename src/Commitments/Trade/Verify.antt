-- ===== src/Commitments/Trade/Verify.antt =====
-- Checking a trade commitment, and the commitment to canonical bytes
-- (crates/commitments/src/trade.rs).
use zwa_protocol.Prelude.{
  ℕ, zero, suc, ◌+◌, ◌%◌, ◌^◌, ◌≡◌, ◌≢◌, ◌≤◌, ◌⊎◌, inl, inr, refl, ap, ◌∙◌, some, List, [], ◌∷◌,
  ◌++◌, arith, true, false, Bool-cases, ◌==◌, length, take, drop, length-drop, length-take,
  take-append-drop, All,
}
use zwa_protocol.Protocol.Error.{ok, err, commitment_mismatch}
use zwa_protocol.Protocol.Field.{FieldElement, from_u64, from_u128, to_decimal_string}
use zwa_protocol.Protocol.Field.Canonical.{IsCanonical}
use zwa_protocol.Protocol.Values.{TradeCommitment, newtype_eq, newtype_beq_iff}
use zwa_protocol.Protocol.Intent.{TradeIntent}
use zwa_protocol.Commitments.AssetBase.{little_endian_u128}
use zwa_protocol.Commitments.Domain.{Domain, as_field}
use zwa_protocol.Commitments.Poseidon.{LightPoseidon, IsCircom, hash_total}
use zwa_protocol.Commitments.Trade
use zwa_protocol.Commitments.Trade.Stages.{trade_commitment_parts-Stages}

different : (a b : TradeCommitment) → (a == b) ≡ false → a ≢ b
different a b other e = let same : (a == b) ≡ true = (newtype_beq_iff a b).1 e in ground arith

-- For a hasher as `IsCircom` says: `verify_trade_commitment` never panics. It accepts exactly the
-- commitment that the staging of the intent gives, and rejects any other with both in decimal.
pub verify_trade_commitment_cases :
    (p : LightPoseidon)
    → IsCircom p
    → (intent : TradeIntent) (expected : TradeCommitment)
    → (actual : TradeCommitment) × (Trade.trade_commitment_v1 p intent ≡ some actual)
      × (((actual ≡ expected) × (Trade.verify_trade_commitment p intent expected ≡ some (ok tt)))
          ⊎ ((actual ≢ expected)
              × (Trade.verify_trade_commitment p intent expected
                  ≡ some (
                      err (
                        commitment_mismatch
                          (to_decimal_string expected.value)
                          (to_decimal_string actual.value))))))
unfolding Trade.verify_trade_commitment Trade.trade_commitment_v1
verify_trade_commitment_cases p c intent expected =
    let (parts, same, stages) = trade_commitment_parts-Stages p c intent in
    let actual : TradeCommitment = parts.trade_commitment in
    (
      actual,
      rw same refl,
      elim (Bool-cases (actual == expected)) [
        | inl equal ↦ inl ((newtype_beq_iff actual expected).0 equal, rw (same, equal) refl)
        | inr other ↦ inr (different actual expected other, rw (same, other) refl)
      ],
    )

absorb_total :
    (p : LightPoseidon)
    → IsCircom p
    → (state : FieldElement) (index : ℕ) (parts : List (List ℕ)) → IsCanonical state
    → (e : FieldElement) × (Trade.absorb p state index parts ≡ some e) × IsCanonical e
unfolding Trade.absorb
absorb_total p c state index [] h = (state, refl, h)
absorb_total p c state index (chunk ∷ rest) h =
    let (next, same, canonical) =
      hash_total p c (state ∷ from_u128 (little_endian_u128 chunk) ∷ from_u64 (index % 2 ^ 64) ∷ [])
        (omega arith) (omega arith) in
    let (e, same', canonical') = absorb_total p c next (index + 1) rest canonical in
    (e, rw same same', canonical')

abbrev pub concat : List (List ℕ) → List ℕ
concat [] = []
concat (xs ∷ xss) = xs ++ concat xss

-- Chunks are not empty and at most 16 bytes long.
abbrev pub IsChunk : List ℕ → Type 0
IsChunk xs = (1 ≤ length xs) × (length xs ≤ 16)

-- One step for each byte is enough: then the chunks make up the bytes.
pub chunks-concat :
    (fuel : ℕ) (bytes : List ℕ)
    → length bytes ≤ fuel
    → (concat (Trade.chunks fuel bytes) ≡ bytes) × All IsChunk (Trade.chunks fuel bytes)
unfolding Trade.chunks
chunks-concat zero [] h = (refl, tt)
chunks-concat zero (b ∷ bytes) h = absurd (omega arith)
chunks-concat (suc fuel) [] h = (refl, tt)
chunks-concat (suc fuel) (b ∷ bytes) h =
    let (whole, parts) =
      chunks-concat fuel (drop 16 (b ∷ bytes)) (omega (arith, length-drop 16 (b ∷ bytes))) in
    (
      ap (λ t. take 16 (b ∷ bytes) ++ t) whole ∙ take-append-drop 16 (b ∷ bytes),
      (
        (omega (arith, length-take 16 (b ∷ bytes)), omega (arith, length-take 16 (b ∷ bytes))),
        parts,
      ),
    )

-- For a hasher as `IsCircom` says: the commitment to bytes of any length never panics, and is
-- canonical.
pub canonical_bytes_commitment_total :
    (p : LightPoseidon)
    → IsCircom p
    → (domain : Domain) (bytes : List ℕ)
    → (e : FieldElement) × (Trade.canonical_bytes_commitment p domain bytes ≡ some e)
      × IsCanonical e
unfolding Trade.canonical_bytes_commitment
canonical_bytes_commitment_total p c domain bytes =
    let parts : List (List ℕ) = Trade.chunks (length bytes) bytes in
    let (state, same, canonical) =
      hash_total p c
        (as_field domain ∷ from_u64 (length bytes % 2 ^ 64) ∷ from_u64 (length parts % 2 ^ 64) ∷ [])
        (omega arith) (omega arith) in
    let (e, same', canonical') = absorb_total p c state 0 parts canonical in
    (e, rw same same', canonical')
