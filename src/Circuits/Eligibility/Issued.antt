-- ===== src/Circuits/Eligibility/Issued.antt =====
-- What a witness of circuits/eligibility/rwa_investor_eligibility_v1.circom shows, where the two roots
-- are those of trees of credentials and of a policy.
use zwa_protocol.Prelude.{
  ℕ, ◌≡◌, ◌⊎◌, inl, inr, sym, ap, ap₂, ◌∙◌, true, some, List, [], ◌∷◌, arith, subst, get_elem?, All,
  >>=-eq-some, All-get_elem?,
}
use mathlib.Core.Option.{some-injective}
use zwa_protocol.Prelude.Words.{IsBytes, IsU64}
use zwa_protocol.Protocol.Field.{FieldElement, from_u64}
use zwa_protocol.Protocol.Field.Canonical.{from_u64-injective}
use zwa_protocol.Protocol.Bytes.{OrchardReceiverBytes}
use zwa_protocol.Protocol.Values.{SubjectSecret}
use zwa_protocol.Protocol.Intent.{TradeIntent}
use zwa_protocol.Commitments.Poseidon.{LightPoseidon, IsCircom, hash, Collides, same_or_Collides}
use zwa_protocol.Commitments.Trade
use zwa_protocol.Commitments.Trade.{RecipientBinding, TradeCommitmentParts}
use zwa_protocol.Commitments.Trade.Binding.{three_of}
use zwa_protocol.Credentials.Values.{covers_trade_expiry}
use zwa_protocol.Credentials.Credential
use zwa_protocol.Credentials.Credential.{ActiveCredential, CredentialLeaf}
use zwa_protocol.Credentials.Credential.Binding.{IsCredential}
use zwa_protocol.Circuits.Templates.{Templates, IsLibrary}
use zwa_protocol.Circuits.Membership.{TreeOf, InTree, PathFails, in_tree}
use zwa_protocol.Circuits.Eligibility.{
  PublicSignals, PrivateSignals, Hashes, Satisfies, domain_eligibility_policy_v1, policy_depth,
  credential_depth,
}
use zwa_protocol.Circuits.Eligibility.Trees.{
  Allowed, IsAllowed, allowed_of, policy_inputs, compute_policy_leaf, credential_leaf,
}
use zwa_protocol.Circuits.Eligibility.Shown.{Satisfies-Shown}
use zwa_protocol.Circuits.Eligibility.Stages.{StagesCollide, unexpired_of, computed}

-- What the proof is to show of the lists behind the two roots.
pub record Authorized (credentials : List ActiveCredential) (policy : List Allowed)
    (secret : SubjectSecret) (receiver : OrchardReceiverBytes) (intent : TradeIntent) : Type 0 where
  pub index : ℕ
  pub credential : ActiveCredential
  pub issued : get_elem? credentials index ≡ some credential
  pub same_secret : credential.subject_secret ≡ secret
  pub same_receiver : credential.approved_receiver ≡ receiver
  pub unexpired : covers_trade_expiry credential.credential_expiry intent.expiry.instant ≡ true
  pub place_in_policy : ℕ
  pub allowed : get_elem? policy place_in_policy ≡ some (allowed_of credential)

-- Where Poseidon collides, if the proof shows something else.
pub data ProofCollides (p : LightPoseidon) (w : PrivateSignals) (h : Hashes)
    (credentials : List ActiveCredential) (credential_levels : List (List FieldElement))
    (policy : List Allowed) (policy_levels : List (List FieldElement)) (secret : SubjectSecret)
    (receiver : OrchardReceiverBytes) (bound : RecipientBinding) (intent : TradeIntent)
    (parts : TradeCommitmentParts) : Type 0 where
  in_credential_tree :
      PathFails p credential_levels h.credential_leaf w.credential_merkle_siblings
        w.credential_merkle_path_indices
      → ProofCollides p w h credentials credential_levels policy policy_levels secret receiver bound
          intent parts
  in_stages :
      (i : ℕ) (c : ActiveCredential)
      → get_elem? credentials i ≡ some c
      → StagesCollide p w h c secret receiver bound intent parts
      → ProofCollides p w h credentials credential_levels policy policy_levels secret receiver bound
          intent parts
  in_policy_tree :
      PathFails p policy_levels h.policy_leaf w.policy_merkle_siblings w.policy_merkle_path_indices
      → ProofCollides p w h credentials credential_levels policy policy_levels secret receiver bound
          intent parts
  in_policy_leaf :
      (i j : ℕ) (c : ActiveCredential) (a : Allowed)
      → get_elem? credentials i ≡ some c
      → get_elem? policy j ≡ some a
      → Collides p (policy_inputs (allowed_of c)) (policy_inputs a)
      → ProofCollides p w h credentials credential_levels policy policy_levels secret receiver bound
          intent parts

same_allowed :
    (a b : Allowed) → IsAllowed a → IsAllowed b → policy_inputs a ≡ policy_inputs b → a ≡ b
same_allowed a b ha hb e =
    let (class_scalar, jurisdiction_scalar) = three_of e in
    let class : a.investor_class.get ≡ b.investor_class.get =
      from_u64-injective _ _ (omega (arith, ha.investor_class)) (omega (arith, hb.investor_class))
        class_scalar in
    let jurisdiction : a.jurisdiction.get ≡ b.jurisdiction.get =
      from_u64-injective _ _ (omega (arith, ha.jurisdiction)) (omega (arith, hb.jurisdiction))
        jurisdiction_scalar in
    λ i. record {
      investor_class = record { get = class i };
      jurisdiction = record { get = jurisdiction i };
    }

module _ (p : LightPoseidon) (t : Templates) (library : IsLibrary p t) (x : PublicSignals)
    (w : PrivateSignals) (h : Hashes) (proof : Satisfies t x w h) where
  -- The leaf that the circuit looks up is that of the credential's class and jurisdiction.
  described :
      (c : ActiveCredential)
      → w.investor_class ≡ from_u64 c.investor_class.get
      → w.jurisdiction ≡ from_u64 c.jurisdiction.get
      → compute_policy_leaf p (allowed_of c) ≡ some h.policy_leaf
  described c class jurisdiction =
      ap₂ (λ k j. hash p (domain_eligibility_policy_v1 ∷ k ∷ j ∷ [])) (sym class ∙ proof.same_class)
        (sym jurisdiction ∙ proof.same_jurisdiction)
      ∙ computed p t library x w h proof proof.policy_leaf_hash

  -- The class and the jurisdiction of the credential are allowed, or there is a collision.
  allowed_in :
      (c : ActiveCredential) (policy : List Allowed) (root : FieldElement)
      (tree : TreeOf p (compute_policy_leaf p) policy_depth policy root)
      → IsAllowed (allowed_of c)
      → All IsAllowed policy
      → w.policy_root ≡ root
      → compute_policy_leaf p (allowed_of c) ≡ some h.policy_leaf
      → ((j : ℕ) × (get_elem? policy j ≡ some (allowed_of c)))
        ⊎ PathFails p tree.levels h.policy_leaf w.policy_merkle_siblings
            w.policy_merkle_path_indices
        ⊎ ((j : ℕ) × (a : Allowed) × (get_elem? policy j ≡ some a)
            × Collides p (policy_inputs (allowed_of c)) (policy_inputs a))
  allowed_in c policy root tree hc hp er e =
      elim (in_tree p t library (compute_policy_leaf p) policy_depth policy h.policy_leaf root
        w.policy_merkle_siblings w.policy_merkle_path_indices tree
        (subst
          (λ k.
            t.MerkleProof policy_depth h.policy_leaf k w.policy_merkle_siblings
              w.policy_merkle_path_indices)
          er proof.policy_membership)) [
            | inr fails ↦ inr (inl fails)
            | inl found ↦
                elim (same_or_Collides p (policy_inputs (allowed_of c)) (policy_inputs found.value)
                  e found.hashed) [
                    | inr collision ↦ inr (inr (found.index, found.value, found.found, collision))
                    | inl same ↦
                        let listed : IsAllowed found.value =
                          All-get_elem? IsAllowed policy found.index found.value hp found.found in
                        inl (
                          found.index,
                          found.found
                              ∙ ap some
                                  (sym (same_allowed (allowed_of c) found.value hc listed same)),
                        )
                  ]
          ]

-- For a hasher as `IsCircom` says and templates as `IsLibrary` says: let the public credential root be
-- that of the tree of some credentials, and the policy root of an intent that of the tree of some
-- allowed pairs, and let a witness satisfy the constraints of the circuit for the commitment of the
-- intent, whose recipient commitment binds a secret and a receiver. Then one of the credentials has
-- that secret, approves that receiver, covers the expiry of the intent, and has an allowed class and
-- jurisdiction, or two different inputs, at places that `ProofCollides` names, have the same hash.
-- The credentials and the pairs are well-formed, the receiver has 43 bytes and the expiry 64 bits.
pub Satisfies-Authorized :
    (p : LightPoseidon)
    → IsCircom p
    → (t : Templates) → IsLibrary p t
    → (x : PublicSignals) (w : PrivateSignals) (h : Hashes) → Satisfies t x w h
    → (credentials : List ActiveCredential) → All IsCredential credentials
    → (issued : TreeOf p (credential_leaf p) credential_depth credentials x.active_credential_root)
    → (secret : SubjectSecret) (receiver : OrchardReceiverBytes) (bound : RecipientBinding)
    → Trade.bind_recipient p secret receiver ≡ some bound
    → (intent : TradeIntent) (parts : TradeCommitmentParts)
    → Trade.trade_commitment_parts p intent ≡ some parts
    → intent.recipient_commitment ≡ bound.recipient_commitment
    → x.trade_commitment ≡ parts.trade_commitment.value
    → (policy : List Allowed) → All IsAllowed policy
    → (permitted : TreeOf p (compute_policy_leaf p) policy_depth policy intent.policy_root.value)
    → IsBytes 43 receiver.as_bytes
    → IsU64 intent.expiry.get
    → Authorized credentials policy secret receiver intent
      ⊎ ProofCollides p w h credentials issued.levels policy permitted.levels secret receiver bound
          intent parts
Satisfies-Authorized p circom t library x w h proof credentials hc issued secret receiver bound eb
      intent parts ei er ec policy hp permitted hr bi =
    elim (in_tree p t library (credential_leaf p) credential_depth credentials h.credential_leaf
      x.active_credential_root w.credential_merkle_siblings w.credential_merkle_path_indices issued
      proof.credential_membership) [
        | inr fails ↦ inr (in_credential_tree fails)
        | inl found ↦ holds found
      ]
  where
    holds :
        InTree (credential_leaf p) credentials h.credential_leaf
        → Authorized credentials policy secret receiver intent
          ⊎ ProofCollides p w h credentials issued.levels policy permitted.levels secret receiver
              bound intent parts
    holds found =
        let c : ActiveCredential = found.value in
        let wf : IsCredential c =
          All-get_elem? IsCredential credentials found.index c hc found.found in
        let (leaf, lc, el) = >>=-eq-some (Credential.leaf p c) _ found.hashed in
        elim (Satisfies-Shown p circom t library x w h proof c leaf lc (sym (some-injective _ _ el))
          secret receiver bound eb intent parts ei er ec wf.approved_receiver hr) [
            | inr collision ↦ inr (in_stages found.index c found.found collision)
            | inl (trade, holder) ↦
                elim (allowed_in p t library x w h proof c policy intent.policy_root.value permitted
                  (record { investor_class = wf.investor_class; jurisdiction = wf.jurisdiction }) hp
                  trade.policy
                  (described p t library x w h proof c holder.class holder.jurisdiction)) [
                    | inr (inl fails) ↦ inr (in_policy_tree fails)
                    | inr (inr (j, a, listed, collision)) ↦
                        inr (in_policy_leaf found.index j c a found.found listed collision)
                    | inl (j, listed) ↦ inl (record {
                      index = found.index;
                      credential = c;
                      issued = found.found;
                      same_secret = holder.same_secret;
                      same_receiver = holder.same_receiver;
                      unexpired =
                          unexpired_of p t library x w h proof c intent wf.credential_expiry bi
                            holder.expiry trade.expiry;
                      place_in_policy = j;
                      allowed = listed;
                    })
                  ]
          ]
