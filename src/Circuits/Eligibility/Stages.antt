-- ===== src/Circuits/Eligibility/Stages.antt =====
-- The hashes of circuits/eligibility/rwa_investor_eligibility_v1.circom, stage by stage, against those
-- of the crates.
use zwa_protocol.Prelude.{◌≡◌, ◌⊎◌, ◌≤◌, inl, sym, ap, ◌∙◌, true, some, List, [], ◌∷◌, arith}
use zwa_protocol.Prelude.Words.{IsBytes, IsU64}
use zwa_protocol.Protocol.Field.{FieldElement, from_u64}
use zwa_protocol.Protocol.Field.Canonical.{value, from_u64-value}
use zwa_protocol.Protocol.Bytes.{OrchardReceiverBytes}
use zwa_protocol.Protocol.Values.{SubjectSecret}
use zwa_protocol.Protocol.Intent.{TradeIntent}
use zwa_protocol.Commitments.Domain.{trade_v1, trade_b_v1, trade_meta_v1, as_field}
use zwa_protocol.Commitments.Poseidon.{LightPoseidon, hash, Collides}
use zwa_protocol.Commitments.Trade.{RecipientBinding, TradeCommitmentParts}
use zwa_protocol.Commitments.Trade.Stages.{Stages}
use zwa_protocol.Commitments.Trade.Binding.{CollidesIn, same_inputs, three_of, four_of}
use zwa_protocol.Commitments.Trade.Recipient.{
  subject_inputs, receiver_inputs, binding_inputs, Bound, encode_receiver-injective,
}
use zwa_protocol.Credentials.Values.{covers_trade_expiry}
use zwa_protocol.Credentials.Credential.{ActiveCredential}
use zwa_protocol.Credentials.Credential.Binding.{leaf_inputs, meta_inputs, HashesTo, six_of}
use zwa_protocol.Circuits.Templates.{Templates, IsLibrary}
use zwa_protocol.Circuits.Eligibility.{
  PublicSignals, PrivateSignals, Hashes, Satisfies, trade_hasher, trade_part_b_hasher,
  trade_meta_hasher, recipient_hasher, credential_leaf_hasher, credential_meta_hasher,
  subject_hasher, receiver_hasher,
}

-- The stages of the circuit that are compared with those of the crates.
abbrev pub circuit_stages : PrivateSignals → Hashes → List (List FieldElement)
circuit_stages w h =
    trade_hasher w h
    ∷ trade_part_b_hasher w h
    ∷ trade_meta_hasher w h
    ∷ recipient_hasher w h
    ∷ credential_leaf_hasher w h
    ∷ credential_meta_hasher w h
    ∷ subject_hasher w h
    ∷ subject_hasher w h
    ∷ receiver_hasher w h
    ∷ receiver_hasher w h
    ∷ []

abbrev pub trade_inputs : TradeCommitmentParts → List FieldElement
trade_inputs parts =
    as_field trade_v1
    ∷ parts.trade_part_a.value
    ∷ parts.trade_part_b.value
    ∷ parts.trade_meta.value
    ∷ []

abbrev pub part_b_inputs : TradeIntent → List FieldElement
part_b_inputs intent =
    as_field trade_b_v1
    ∷ from_u64 intent.requested_amount.get
    ∷ intent.recipient_commitment.value
    ∷ intent.policy_root.value
    ∷ []

abbrev pub trade_meta_inputs : TradeIntent → TradeCommitmentParts → List FieldElement
trade_meta_inputs intent parts =
    as_field trade_meta_v1
    ∷ parts.fee_commitment.value
    ∷ from_u64 intent.nonce.get
    ∷ from_u64 intent.expiry.get
    ∷ []

abbrev pub crate_stages :
    ActiveCredential
    → FieldElement
    → FieldElement
    → FieldElement
    → SubjectSecret
    → OrchardReceiverBytes
    → RecipientBinding
    → TradeIntent
    → TradeCommitmentParts
    → List (List FieldElement)
crate_stages c s m r secret receiver bound intent parts =
    trade_inputs parts
    ∷ part_b_inputs intent
    ∷ trade_meta_inputs intent parts
    ∷ binding_inputs bound
    ∷ leaf_inputs c s m r
    ∷ meta_inputs c
    ∷ subject_inputs c.subject_secret
    ∷ subject_inputs secret
    ∷ receiver_inputs c.approved_receiver
    ∷ receiver_inputs receiver
    ∷ []

-- At some stage, the circuit and the crates hash two different inputs to the same value.
pub record StagesCollide (p : LightPoseidon) (w : PrivateSignals) (h : Hashes)
    (c : ActiveCredential) (secret : SubjectSecret) (receiver : OrchardReceiverBytes)
    (bound : RecipientBinding) (intent : TradeIntent) (parts : TradeCommitmentParts) : Type 0 where
  pub s : FieldElement
  pub m : FieldElement
  pub r : FieldElement
  pub l : FieldElement
  pub credential : HashesTo p c s m r l
  pub collision :
      CollidesIn p (circuit_stages w h) (crate_stages c s m r secret receiver bound intent parts)

module _ (p : LightPoseidon) (t : Templates) (library : IsLibrary p t) (x : PublicSignals)
    (w : PrivateSignals) (h : Hashes) (proof : Satisfies t x w h) where
  pub computed :
      {inputs : List FieldElement} {out : FieldElement}
      → t.PoseidonHash inputs out
      → hash p inputs ≡ some out
  computed {inputs} {out} e = (library.hashed inputs out).0 e

  -- What the circuit shows of the trade.
  pub record TradeOf (intent : TradeIntent) : Type 0 where
    pub recipient : h.recipient ≡ intent.recipient_commitment.value
    pub policy : w.policy_root ≡ intent.policy_root.value
    pub expiry : w.expiry ≡ from_u64 intent.expiry.get

  pub trade_of :
      {C : Type 0} (intent : TradeIntent) (parts : TradeCommitmentParts)
      → Stages p intent parts
      → x.trade_commitment ≡ parts.trade_commitment.value
      → (Collides p (trade_hasher w h) (trade_inputs parts) → C)
      → (Collides p (trade_part_b_hasher w h) (part_b_inputs intent) → C)
      → (Collides p (trade_meta_hasher w h) (trade_meta_inputs intent parts) → C)
      → TradeOf intent ⊎ C
  trade_of intent parts st e k0 k1 k2 =
      same_inputs p _ _ (computed proof.trade_hash) st.commitment e k0 (λ in_trade.
        let (ea, eb, em) = four_of in_trade in
        same_inputs p _ _ (computed proof.trade_part_b_hash) st.part_b eb k1 (λ in_b.
          let (amount, er, ep) = four_of in_b in
          same_inputs p _ _ (computed proof.trade_meta_hash) st.meta em k2 (λ in_meta.
            let (fee, nonce, ex) = four_of in_meta in
            inl (record { recipient = er; policy = ep; expiry = ex }))))

  -- What the circuit shows of the credential.
  pub record HolderOf (c : ActiveCredential) (secret : SubjectSecret)
      (receiver : OrchardReceiverBytes) : Type 0 where
    pub same_secret : c.subject_secret ≡ secret
    pub same_receiver : c.approved_receiver ≡ receiver
    pub class : w.investor_class ≡ from_u64 c.investor_class.get
    pub jurisdiction : w.jurisdiction ≡ from_u64 c.jurisdiction.get
    pub expiry : w.credential_expiry ≡ from_u64 c.credential_expiry.get

  pub holder_of :
      {C : Type 0} (c : ActiveCredential) (secret : SubjectSecret) (receiver : OrchardReceiverBytes)
      (bound : RecipientBinding) (s m r l : FieldElement)
      → IsBytes 43 c.approved_receiver.as_bytes
      → IsBytes 43 receiver.as_bytes
      → HashesTo p c s m r l
      → Bound p secret receiver bound
      → h.credential_leaf ≡ l
      → h.recipient ≡ bound.recipient_commitment.value
      → (Collides p (recipient_hasher w h) (binding_inputs bound) → C)
      → (Collides p (credential_leaf_hasher w h) (leaf_inputs c s m r) → C)
      → (Collides p (credential_meta_hasher w h) (meta_inputs c) → C)
      → (Collides p (subject_hasher w h) (subject_inputs c.subject_secret) → C)
      → (Collides p (subject_hasher w h) (subject_inputs secret) → C)
      → (Collides p (receiver_hasher w h) (receiver_inputs c.approved_receiver) → C)
      → (Collides p (receiver_hasher w h) (receiver_inputs receiver) → C)
      → HolderOf c secret receiver ⊎ C
  holder_of c secret receiver bound s m r l hc hr a b el er k3 k4 k5 k6 k7 k8 k9 =
      same_inputs p _ _ (computed proof.recipient_hash) b.recipient er k3 (λ in_binding.
        let (bs, br) = three_of in_binding in
        same_inputs p _ _ (computed proof.credential_leaf_hash) a.leafed el k4 (λ in_leaf.
          let (authority, es, em, nonce, ec) = six_of in_leaf in
          same_inputs p _ _ (computed proof.credential_meta_hash) a.described em k5 (λ in_meta.
            let (class, jurisdiction, expiry) = four_of in_meta in
            same_inputs p _ _ (computed proof.subject_hash) a.subject es k6 (λ of_credential.
              same_inputs p _ _ (computed proof.subject_hash) b.subject bs k7 (λ of_trade.
                same_inputs p _ _ (computed proof.receiver_hash) a.received ec k8 (λ approved.
                  same_inputs p _ _ (computed proof.receiver_hash) b.received br k9 (λ settled.
                    let secrets : c.subject_secret.value ≡ secret.value = cc in
                    inl (record {
                      same_secret = λ i. record { value = secrets i };
                      same_receiver =
                          encode_receiver-injective c.approved_receiver receiver hc hr
                            (sym approved ∙ settled);
                      class = class;
                      jurisdiction = jurisdiction;
                      expiry = expiry;
                    }))))))))

  -- The comparison of the expiries.
  pub unexpired_of :
      (c : ActiveCredential) (intent : TradeIntent)
      → IsU64 c.credential_expiry.get
      → IsU64 intent.expiry.get
      → w.credential_expiry ≡ from_u64 c.credential_expiry.get
      → w.expiry ≡ from_u64 intent.expiry.get
      → covers_trade_expiry c.credential_expiry intent.expiry.instant ≡ true
  unfolding covers_trade_expiry
  unexpired_of c intent hc hi ec ei =
      let credential : value w.credential_expiry ≡ c.credential_expiry.get =
        ap value ec ∙ (from_u64-value c.credential_expiry.get hc).1 in
      let trade : value w.expiry ≡ intent.expiry.get =
        ap value ei ∙ (from_u64-value intent.expiry.get hi).1 in
      let covered : value w.expiry ≤ value w.credential_expiry =
        (library.compared w.credential_expiry w.expiry (omega (arith, credential))
            (omega (arith, trade))).0
          proof.valid_through_trade in
      ground (arith, covered, credential, trade)
