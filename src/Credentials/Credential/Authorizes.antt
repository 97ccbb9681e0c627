-- ===== src/Credentials/Credential/Authorizes.antt =====
-- `ActiveCredential::authorizes` of crates/credentials/src/credential.rs, which compares receiver
-- commitments.
use zwa_protocol.Prelude.{
  ◌≡◌, ◌≢◌, ◌⊎◌, inl, inr, refl, sym, ap, ◌∙◌, true, false, some, arith, Bool-cases, ◌==◌,
}
use mathlib.Core.Option.{some-injective}
use zwa_protocol.Prelude.Words.{IsBytes}
use zwa_protocol.Protocol.Bytes.{OrchardReceiverBytes}
use zwa_protocol.Protocol.Values.{ReceiverCommitment, newtype_eq, newtype_beq_iff}
use zwa_protocol.Commitments.Poseidon.{
  LightPoseidon, IsCircom, hash, hash_total, Collides, same_or_Collides,
}
use zwa_protocol.Commitments.Trade
use zwa_protocol.Commitments.Trade.Recipient.{receiver_inputs, encode_receiver-injective}
use zwa_protocol.Credentials.Credential
use zwa_protocol.Credentials.Credential.{ActiveCredential}

receiver_commitment_total :
    (p : LightPoseidon)
    → IsCircom p
    → (receiver : OrchardReceiverBytes)
    → (e : ReceiverCommitment) × (Trade.receiver_commitment p receiver ≡ some e)
      × (hash p (receiver_inputs receiver) ≡ some e.value)
unfolding Trade.receiver_commitment
receiver_commitment_total p circom receiver =
    let (e, he, _) = hash_total p circom (receiver_inputs receiver) (omega arith) (omega arith) in
    (record { value = e }, rw he refl, he)

-- For a hasher as `IsCircom` says: `authorizes` never panics. Where it says yes, the receiver is
-- the approved one, or the two have different limbs with the same hash; where it says no, the
-- receiver is another. The receivers have 43 bytes.
pub authorizes_cases :
    (p : LightPoseidon)
    → IsCircom p
    → (c : ActiveCredential) (receiver : OrchardReceiverBytes)
    → IsBytes 43 c.approved_receiver.as_bytes
    → IsBytes 43 receiver.as_bytes
    → ((Credential.authorizes p c receiver ≡ some true)
        × ((c.approved_receiver ≡ receiver)
            ⊎ Collides p (receiver_inputs c.approved_receiver) (receiver_inputs receiver)))
      ⊎ ((Credential.authorizes p c receiver ≡ some false) × (c.approved_receiver ≢ receiver))
unfolding Credential.authorizes Credential.approved_receiver_commitment
authorizes_cases p circom c receiver hc hr =
    let (x, cx, hx) = receiver_commitment_total p circom c.approved_receiver in
    let (y, cy, hy) = receiver_commitment_total p circom receiver in
    elim (Bool-cases (x == y)) [
      | inl equal ↦
          let same : x ≡ y = (newtype_beq_iff x y).0 equal in
          inl (
            rw (cx, cy, equal) refl,
            elim (same_or_Collides p _ _ hx (hy ∙ ap (λ t. some t.value) (sym same))) [
              | inl inputs ↦
                  inl (encode_receiver-injective c.approved_receiver receiver hc hr inputs)
              | inr k ↦ inr k
            ],
          )
      | inr other ↦ inr (
        rw (cx, cy, other) refl,
        λ e.
            let values : x.value ≡ y.value =
              some-injective _ _ (sym hx ∙ ap (λ t. hash p (receiver_inputs t)) e ∙ hy) in
            let same : (x == y) ≡ true =
              (newtype_beq_iff x y).1 (λ i. record { value = values i }) in
            ground arith,
      )
    ]
