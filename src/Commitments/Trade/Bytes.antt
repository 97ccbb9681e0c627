-- ===== src/Commitments/Trade/Bytes.antt =====
-- What `canonical_bytes_commitment` of crates/commitments/src/trade.rs binds: the domain and the
-- bytes, with their length.
mod Chunks
pub mod Chain
mod Ends
use zwa_protocol.Prelude.{
  ℕ, suc, ◌+◌, ◌%◌, ◌^◌, ◌≡◌, ◌≢◌, ◌≤◌, ◌<◌, ◌⊎◌, inl, inr, refl, sym, ap, ap₂, ◌∙◌, Option, none,
  some, List, [], ◌∷◌, arith, length, drop, take, All, subst,
}
use mathlib.Core.Option.{some-injective}
use mathlib.Core.List.{Memᴰ}
use mathlib.Core.List.Memᴰ
use zwa_protocol.Prelude.Words.{IsByte, IsBytes, IsU64, IsU128}
use zwa_protocol.Protocol.Field.{FieldElement, field_zero, from_u64, from_u128}
use zwa_protocol.Protocol.Field.Canonical.{from_u64-injective, from_u128-injective}
use zwa_protocol.Protocol.Bytes.{OrchardReceiverBytes}
use zwa_protocol.Protocol.Values.{RecipientCommitment}
use zwa_protocol.Commitments.AssetBase.{little_endian_u128}
use zwa_protocol.Commitments.Domain.{Domain, fee_recipient_v1, as_field}
use zwa_protocol.Commitments.Domain.Labels.{as_field-injective}
use zwa_protocol.Commitments.Poseidon.{
  LightPoseidon, IsCircom, hash, hash_total, Collides, same_or_Collides,
}
use zwa_protocol.Commitments.Trade
use zwa_protocol.Commitments.Trade.Bytes.Chunks.{
  numbers, length-chunks, chunks-IsU128, chunks-injective,
}
use zwa_protocol.Commitments.Trade.Bytes.Chain.{
  start, absorbing, CollidesAmong, output, absorbed, bytes_hashed, output_lem, absorb_step, ended,
  collides_later, absorbed_first,
}
use zwa_protocol.Commitments.Trade.Bytes.Ends.{from_start}
use zwa_protocol.Commitments.Trade.Verify.{canonical_bytes_commitment_total}

module _ (p : LightPoseidon) where
  -- A commitment that is returned is the end of a chain.
  started :
      IsCircom p
      → (d : Domain) (bytes : List ℕ) (h : FieldElement)
      → Trade.canonical_bytes_commitment p d bytes ≡ some h
      → (s : FieldElement) × (hash p (start d bytes) ≡ some s)
        × (Trade.absorb p s 0 (Trade.chunks (length bytes) bytes) ≡ some h)
  unfolding Trade.canonical_bytes_commitment
  started c d bytes h e =
      let (s, hs, _) = hash_total p c (start d bytes) (omega arith) (omega arith) in
      let same : Trade.canonical_bytes_commitment p d bytes
          ≡ Trade.absorb p s 0 (Trade.chunks (length bytes) bytes) =
        rw hs refl in
      (s, hs, sym same ∙ e)

start-injective :
    (d e : Domain) (xs ys : List ℕ)
    → length xs < 2 ^ 64
    → length ys < 2 ^ 64
    → start d xs ≡ start e ys
    → (d ≡ e) × (length xs ≡ length ys)
start-injective d e xs ys bx by same =
    let sizes : from_u64 (length xs % 2 ^ 64) ≡ from_u64 (length ys % 2 ^ 64) = cc in
    (
      as_field-injective d e (cc),
      omega (
        arith,
        from_u64-injective (length xs % 2 ^ 64) (length ys % 2 ^ 64) (omega arith) (omega arith)
            sizes,
      ),
    )

-- For a hasher as `IsCircom` says: two commitments to bytes that are equal are to the same bytes
-- in the same domain, or among the inputs of the one and of the other there are two different ones
-- with one hash. There is at least one byte and fewer than 2 ^ 64.
pub canonical_bytes_commitment-binds :
    (p : LightPoseidon)
    → IsCircom p
    → (d e : Domain) (xs ys : List ℕ) (h : FieldElement) → All IsByte xs
    → All IsByte ys
    → 1 ≤ length xs
    → length xs < 2 ^ 64
    → 1 ≤ length ys
    → length ys < 2 ^ 64
    → Trade.canonical_bytes_commitment p d xs ≡ some h
    → Trade.canonical_bytes_commitment p e ys ≡ some h
    → ((d ≡ e) × (xs ≡ ys)) ⊎ CollidesAmong p (bytes_hashed p d xs) (bytes_hashed p e ys)
unfolding Trade.chunks
canonical_bytes_commitment-binds p c d e [] ys h hx hy nx bx ny by ex ey = absurd (omega arith)
canonical_bytes_commitment-binds p c d e (x ∷ xs) [] h hx hy nx bx ny by ex ey =
    absurd (omega arith)
canonical_bytes_commitment-binds p c d e (x ∷ xs) (y ∷ ys) h hx hy nx bx ny by ex ey =
    let (s, hs, es) = started p c d (x ∷ xs) h ex in
    let (t, ht, et) = started p c e (y ∷ ys) h ey in
    elim (from_start p c (start d (x ∷ xs)) (start e (y ∷ ys)) s t (take 16 (x ∷ xs))
      (take 16 (y ∷ ys)) (Trade.chunks (length xs) (drop 16 (x ∷ xs)))
      (Trade.chunks (length ys) (drop 16 (y ∷ ys))) h
      (omega (arith, length-chunks (length xs) (drop 16 (x ∷ xs))))
      (omega (arith, length-chunks (length ys) (drop 16 (y ∷ ys))))
      (chunks-IsU128 (length (x ∷ xs)) (x ∷ xs) hx) (chunks-IsU128 (length (y ∷ ys)) (y ∷ ys) hy) hs
      ht es et) [
        | inl (first, same) ↦
            let (domain, sizes) = start-injective d e (x ∷ xs) (y ∷ ys) bx by first in
            inl (
              domain,
              chunks-injective (length (x ∷ xs)) (length (y ∷ ys)) (x ∷ xs) (y ∷ ys) hx hy
                  (omega arith) (omega arith) sizes same,
            )
        | inr k ↦ inr k
      ]

recipient_bytes :
    (p : LightPoseidon)
    → IsCircom p
    → (receiver : OrchardReceiverBytes) (h : RecipientCommitment)
    → Trade.matcher_fee_recipient_commitment p receiver ≡ some h
    → Trade.canonical_bytes_commitment p fee_recipient_v1 receiver.as_bytes ≡ some h.value
unfolding Trade.matcher_fee_recipient_commitment
recipient_bytes p c receiver h e =
    let (v, same, _) = canonical_bytes_commitment_total p c fee_recipient_v1 receiver.as_bytes in
    let returned : Trade.matcher_fee_recipient_commitment p receiver ≡ some (record { value = v }) =
      rw same refl in
    same ∙ ap (λ t. some t.value) (some-injective _ _ (sym returned ∙ e))

-- For a hasher as `IsCircom` says: two 43-byte receivers of a matcher fee with one recipient
-- commitment are the same, or among the inputs that are hashed for the one and for the other there
-- are two different ones with one hash.
pub matcher_fee_recipient_commitment-binds :
    (p : LightPoseidon)
    → IsCircom p
    → (a b : OrchardReceiverBytes) (h : RecipientCommitment) → IsBytes 43 a.as_bytes
    → IsBytes 43 b.as_bytes
    → Trade.matcher_fee_recipient_commitment p a ≡ some h
    → Trade.matcher_fee_recipient_commitment p b ≡ some h
    → (a ≡ b)
      ⊎ CollidesAmong p
          (bytes_hashed p fee_recipient_v1 a.as_bytes)
          (bytes_hashed p fee_recipient_v1 b.as_bytes)
matcher_fee_recipient_commitment-binds p c a b h ha hb ea eb =
    elim (canonical_bytes_commitment-binds p c fee_recipient_v1 fee_recipient_v1 a.as_bytes
      b.as_bytes h.value ha.1 hb.1 (omega (arith, ha.0)) (omega (arith, ha.0)) (omega (arith, hb.0))
      (omega (arith, hb.0)) (recipient_bytes p c a h ea) (recipient_bytes p c b h eb)) [
        | inl (_, same) ↦ inl (λ i. record { as_bytes = same i })
        | inr k ↦ inr k
      ]
