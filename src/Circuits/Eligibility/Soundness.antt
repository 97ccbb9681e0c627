-- ===== src/Circuits/Eligibility/Soundness.antt =====
-- What a witness of circuits/eligibility/rwa_investor_eligibility_v1.circom says of the credential of
-- crates/credentials/src/credential.rs and the intent of crates/commitments/src/trade.rs.
use zwa_protocol.Prelude.{◌≡◌, ◌⊎◌, inl, inr, sym, ap₂, ◌∙◌, true, some, List, [], ◌∷◌, subst}
use zwa_protocol.Prelude.Words.{IsBytes, IsU64}
use zwa_protocol.Protocol.Field.{FieldElement, from_u64}
use zwa_protocol.Protocol.Bytes.{OrchardReceiverBytes}
use zwa_protocol.Protocol.Values.{SubjectSecret}
use zwa_protocol.Protocol.Intent.{TradeIntent}
use zwa_protocol.Commitments.Poseidon.{LightPoseidon, IsCircom, hash}
use zwa_protocol.Commitments.Trade
use zwa_protocol.Commitments.Trade.{RecipientBinding, TradeCommitmentParts}
use zwa_protocol.Credentials.Values.{covers_trade_expiry}
use zwa_protocol.Credentials.Credential
use zwa_protocol.Credentials.Credential.{ActiveCredential, CredentialLeaf}
use zwa_protocol.Circuits.Templates.{Templates, IsLibrary}
use zwa_protocol.Circuits.Eligibility.{
  PublicSignals, PrivateSignals, Hashes, Satisfies, domain_eligibility_policy_v1, policy_depth,
}
use zwa_protocol.Circuits.Eligibility.Shown.{Satisfies-Shown}
use zwa_protocol.Circuits.Eligibility.Stages.{
  StagesCollide, TradeOf, HolderOf, unexpired_of, computed,
}

-- What the proof is to show of a credential and a trade.
pub record Eligible (p : LightPoseidon) (t : Templates) (c : ActiveCredential)
    (secret : SubjectSecret) (receiver : OrchardReceiverBytes) (intent : TradeIntent) : Type 0 where
  pub same_secret : c.subject_secret ≡ secret
  pub same_receiver : c.approved_receiver ≡ receiver
  pub unexpired : covers_trade_expiry c.credential_expiry intent.expiry.instant ≡ true
  pub policy_leaf : FieldElement
  pub siblings : List FieldElement
  pub path : List FieldElement
  pub described :
      hash p (
        domain_eligibility_policy_v1
        ∷ from_u64 c.investor_class.get
        ∷ from_u64 c.jurisdiction.get
        ∷ [])
      ≡ some policy_leaf
  pub allowed : t.MerkleProof policy_depth policy_leaf intent.policy_root.value siblings path

-- For a hasher as `IsCircom` says and templates as `IsLibrary` says: let a witness satisfy the
-- constraints of the circuit for the commitment of an intent, whose recipient commitment binds a
-- secret and a receiver, and let the leaf that the circuit computes be that of a credential. Then
-- the secret is that of the credential, the receiver is the one that it approves, the credential
-- covers the expiry of the intent, and its class and jurisdiction have a leaf under the policy root
-- of the intent, or at some stage the circuit and the crates hash two different inputs to the same
-- value. The receivers have 43 bytes and the expiries 64 bits.
pub Satisfies-Eligible :
    (p : LightPoseidon)
    → IsCircom p
    → (t : Templates) → IsLibrary p t
    → (x : PublicSignals) (w : PrivateSignals) (h : Hashes) → Satisfies t x w h
    → (c : ActiveCredential) (leaf : CredentialLeaf) → Credential.leaf p c ≡ some leaf
    → h.credential_leaf ≡ leaf.value
    → (secret : SubjectSecret) (receiver : OrchardReceiverBytes) (bound : RecipientBinding)
    → Trade.bind_recipient p secret receiver ≡ some bound
    → (intent : TradeIntent) (parts : TradeCommitmentParts)
    → Trade.trade_commitment_parts p intent ≡ some parts
    → intent.recipient_commitment ≡ bound.recipient_commitment
    → x.trade_commitment ≡ parts.trade_commitment.value
    → IsBytes 43 c.approved_receiver.as_bytes
    → IsBytes 43 receiver.as_bytes
    → IsU64 c.credential_expiry.get
    → IsU64 intent.expiry.get
    → Eligible p t c secret receiver intent
      ⊎ StagesCollide p w h c secret receiver bound intent parts
Satisfies-Eligible p circom t library x w h proof c leaf lc el secret receiver bound eb intent parts
      ei er ec hc hr bc bi =
    elim (Satisfies-Shown p circom t library x w h proof c leaf lc el secret receiver bound eb
      intent parts ei er ec hc hr) [
        | inr k ↦ inr k
        | inl (trade, holder) ↦ inl (eligible trade holder)
      ]
  where
    eligible :
        TradeOf p t library x w h proof intent
        → HolderOf p t library x w h proof c secret receiver
        → Eligible p t c secret receiver intent
    eligible trade holder = record {
      same_secret = holder.same_secret;
      same_receiver = holder.same_receiver;
      unexpired = unexpired_of p t library x w h proof c intent bc bi holder.expiry trade.expiry;
      policy_leaf = h.policy_leaf;
      siblings = w.policy_merkle_siblings;
      path = w.policy_merkle_path_indices;
      described =
          ap₂ (λ k j. hash p (domain_eligibility_policy_v1 ∷ k ∷ j ∷ []))
            (sym holder.class ∙ proof.same_class)
            (sym holder.jurisdiction ∙ proof.same_jurisdiction)
          ∙ computed p t library x w h proof proof.policy_leaf_hash;
      allowed =
          subst
            (λ k.
              t.MerkleProof policy_depth h.policy_leaf k w.policy_merkle_siblings
                w.policy_merkle_path_indices)
            trade.policy proof.policy_membership;
    }
