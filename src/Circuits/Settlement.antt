-- ===== src/Circuits/Settlement.antt =====
-- The two proofs of a trade together: a witness of circuits/eligibility and one of circuits/provenance
-- for the same trade commitment.
mod Runs
use zwa_protocol.Prelude.{◌≡◌, ◌⊎◌, inl, inr, sym, ap, ◌∙◌, some, List, All, get_elem?}
use zwa_protocol.Prelude.Words.{IsBytes}
use zwa_protocol.Protocol.Field.{FieldElement}
use zwa_protocol.Protocol.Bytes.{OrchardReceiverBytes}
use zwa_protocol.Protocol.Values.{SubjectSecret, TradeCommitment}
use zwa_protocol.Protocol.Intent.{TradeIntent}
use zwa_protocol.Commitments.Poseidon.{LightPoseidon, IsCircom}
use zwa_protocol.Commitments.Trade
use zwa_protocol.Commitments.Trade.{RecipientBinding, TradeCommitmentParts}
use zwa_protocol.Commitments.Trade.Binding.{CollidesIn, hashed, IsIntent, trade_commitment-binds}
use zwa_protocol.Credentials.Credential.{ActiveCredential}
use zwa_protocol.Credentials.Credential.Binding.{IsCredential}
use zwa_protocol.Circuits.Templates.{Templates, IsLibrary}
use zwa_protocol.Circuits.Membership.{TreeOf}
use zwa_protocol.Circuits.Eligibility
use zwa_protocol.Circuits.Eligibility.{policy_depth, credential_depth}
use zwa_protocol.Circuits.Eligibility.Trees.{
  Allowed, IsAllowed, compute_policy_leaf, credential_leaf,
}
use zwa_protocol.Circuits.Eligibility.Issued.{Authorized, ProofCollides, Satisfies-Authorized}
use zwa_protocol.Circuits.Provenance
use zwa_protocol.Circuits.Provenance.{merkle_depth}
use zwa_protocol.Circuits.Provenance.Issuances.{IssuanceFields, IsIssuance, compute_issuance}
use zwa_protocol.Circuits.Provenance.Issued.{Provenant, IssuanceCollides, Satisfies-Provenant}

-- What the two proofs are to show together, of the one intent behind them.
pub record Settles (p : LightPoseidon) (t : Templates) (x : Provenance.PublicSignals)
    (w : Provenance.PrivateSignals) (credentials : List ActiveCredential) (policy : List Allowed)
    (secret : SubjectSecret) (receiver : OrchardReceiverBytes) (issuances : List IssuanceFields)
    (of_holder of_issuer : TradeIntent) (asset : FieldElement) : Type 0 where
  pub one_intent : of_holder ≡ of_issuer
  pub authorized : Authorized credentials policy secret receiver of_holder
  pub provenant : Provenant p t x w of_issuer asset issuances

-- For a hasher as `IsCircom` says and templates as `IsLibrary` says: let a witness satisfy the
-- eligibility circuit for the commitment of one intent, and a witness the provenance circuit for the
-- commitment of another, and let the two public commitments be the same. Then the two intents are
-- equal, a credential of the list behind the credential root authorizes the receiver for the trade,
-- with a class and a jurisdiction that the policy allows, and an issuance of the list behind the
-- issuance root is of the offered asset, under that policy, or there is a collision: between the
-- stagings of the two intents, or at a place that `ProofCollides` or `IssuanceCollides` names. The
-- intents, the credentials, the allowed pairs and the issuances are well-formed, and the receiver has
-- 43 bytes.
pub Satisfies-Settles :
    (p : LightPoseidon)
    → IsCircom p
    → (t : Templates) → IsLibrary p t
    → (xe : Eligibility.PublicSignals) (we : Eligibility.PrivateSignals) (he : Eligibility.Hashes)
    → Eligibility.Satisfies t xe we he
    → (xp : Provenance.PublicSignals) (wp : Provenance.PrivateSignals) (hp : Provenance.Hashes)
    → Provenance.Satisfies t xp wp hp
    → xe.trade_commitment ≡ xp.trade_commitment
    → (credentials : List ActiveCredential) → All IsCredential credentials
    → (issued : TreeOf p (credential_leaf p) credential_depth credentials xe.active_credential_root)
    → (issuances : List IssuanceFields) → All IsIssuance issuances
    → (tree : TreeOf p (compute_issuance p) merkle_depth issuances xp.authorized_issuance_root)
    → (a b : TradeIntent) → IsIntent a
    → IsIntent b
    → (pa pb : TradeCommitmentParts) → Trade.trade_commitment_parts p a ≡ some pa
    → Trade.trade_commitment_parts p b ≡ some pb
    → xe.trade_commitment ≡ pa.trade_commitment.value
    → xp.trade_commitment ≡ pb.trade_commitment.value
    → (secret : SubjectSecret) (receiver : OrchardReceiverBytes) (bound : RecipientBinding)
    → Trade.bind_recipient p secret receiver ≡ some bound
    → a.recipient_commitment ≡ bound.recipient_commitment
    → (policy : List Allowed) → All IsAllowed policy
    → (permitted : TreeOf p (compute_policy_leaf p) policy_depth policy a.policy_root.value)
    → IsBytes 43 receiver.as_bytes
    → Settles p t xp wp credentials policy secret receiver issuances a b
        pb.offered_asset_commitment.value
      ⊎ CollidesIn p (hashed a pa) (hashed b pb)
      ⊎ ProofCollides p we he credentials issued.levels policy permitted.levels secret receiver
          bound a pa
      ⊎ IssuanceCollides p t xp wp hp b pb issuances tree.levels
Satisfies-Settles p circom t library xe we he eligible xp wp hp provenance e credentials hc issued
      issuances hv tree a b ha hb pa pb ea eb ca cb secret receiver bound eq er policy ho permitted
      hr =
    let commitments : pa.trade_commitment.value ≡ pb.trade_commitment.value = sym ca ∙ e ∙ cb in
    elim (trade_commitment-binds p circom a b ha hb pa pb ea eb
      (λ i. record { value = commitments i })) [
        | inr collision ↦ inr (inl collision)
        | inl same ↦
            elim (Satisfies-Authorized p circom t library xe we he eligible credentials hc issued
              secret receiver bound eq a pa ea er ca policy ho permitted hr ha.expiry) [
                | inr collision ↦ inr (inr (inl collision))
                | inl authorized ↦
                    elim (Satisfies-Provenant p circom t library xp wp hp provenance b hb pb eb cb
                      issuances hv tree) [
                        | inr collision ↦ inr (inr (inr collision))
                        | inl provenant ↦ inl (record {
                          one_intent = same;
                          authorized = authorized;
                          provenant = provenant;
                        })
                      ]
              ]
      ]
