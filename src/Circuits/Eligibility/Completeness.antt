-- ===== src/Circuits/Eligibility/Completeness.antt =====
-- That the values of the Rust crates satisfy the constraints of
-- circuits/eligibility/rwa_investor_eligibility_v1.circom.
use zwa_protocol.Prelude.{
  ℕ, ◌≡◌, ◌≤◌, ◌<◌, ◌^◌, refl, sym, ap, ap₂, ◌∙◌, true, some, List, [], ◌∷◌, arith, subst,
}
use mathlib.Core.Option.{some-injective}
use zwa_protocol.Prelude.Words.{IsU64, IsU128}
use zwa_protocol.Protocol.Field.{FieldElement, from_u64, from_u128}
use zwa_protocol.Protocol.Field.Canonical.{from_u64-value, from_u128-value}
use zwa_protocol.Protocol.Intent.{TradeIntent}
use zwa_protocol.Commitments.Receiver.{decode_receiver-encode_receiver}
use zwa_protocol.Commitments.Domain.{recipient_binding_v1, as_field, tag}
use zwa_protocol.Commitments.Poseidon.{LightPoseidon, IsCircom, hash}
use zwa_protocol.Commitments.Trade
use zwa_protocol.Commitments.Trade.{RecipientBinding, TradeCommitmentParts}
use zwa_protocol.Commitments.Trade.Stages.{Stages}
use zwa_protocol.Commitments.Trade.Binding.{IsIntent, staged, encode_asset_base-IsU128}
use zwa_protocol.Commitments.Trade.Recipient.{Bound, bound_lem}
use zwa_protocol.Credentials.Values.{covers_trade_expiry}
use zwa_protocol.Credentials.Credential
use zwa_protocol.Credentials.Credential.{ActiveCredential, CredentialLeaf}
use zwa_protocol.Credentials.Credential.Binding.{IsCredential, HashesTo, leaf-HashesTo}
use zwa_protocol.Circuits.Templates.{Templates, IsLibrary}
use zwa_protocol.Circuits.Eligibility.{
  Hashes, Satisfies, domain_eligibility_policy_v1, policy_depth, credential_depth,
}
use zwa_protocol.Circuits.Eligibility.Signals.{MerklePaths, signals_of, hashes_of}

module _ (p : LightPoseidon) (t : Templates) (library : IsLibrary p t) where
  pub narrow : (n v : ℕ) → n ≤ 253 → IsU64 v → v < 2 ^ n → t.Num2Bits n (from_u64 v)
  narrow n v low h below =
      (library.bits n (from_u64 v) low).1
        (subst (λ k. k < 2 ^ n) (sym (from_u64-value v h).1) below)

  pub wide : (n v : ℕ) → n ≤ 253 → IsU128 v → v < 2 ^ n → t.Num2Bits n (from_u128 v)
  wide n v low h below =
      (library.bits n (from_u128 v) low).1
        (subst (λ k. k < 2 ^ n) (sym (from_u128-value v h).1) below)

  covered :
      (c : ActiveCredential) (intent : TradeIntent)
      → IsU64 c.credential_expiry.get
      → IsU64 intent.expiry.get
      → covers_trade_expiry c.credential_expiry intent.expiry.instant ≡ true
      → t.GreaterEqThan 64 (from_u64 c.credential_expiry.get) (from_u64 intent.expiry.get)
  unfolding covers_trade_expiry
  covered c intent hc hi e =
      let credential = (from_u64-value c.credential_expiry.get hc).1 in
      let trade = (from_u64-value intent.expiry.get hi).1 in
      let later : intent.expiry.get ≤ c.credential_expiry.get = ground arith in
      (library.compared (from_u64 c.credential_expiry.get) (from_u64 intent.expiry.get)
          (omega (arith, credential)) (omega (arith, trade))).1
        (omega (arith, credential, trade, later))

  computed :
      {inputs : List FieldElement} {out : FieldElement}
      → hash p inputs ≡ some out
      → t.PoseidonHash inputs out
  computed {inputs} {out} e = (library.hashed inputs out).1 e

  -- Every constraint, from the equations of the hashes.
  constraints :
      (c : ActiveCredential) (intent : TradeIntent) (paths : MerklePaths)
      (parts : TradeCommitmentParts) (s m r l root policy_leaf : FieldElement)
      → IsCredential c
      → IsIntent intent
      → HashesTo p c s m r l
      → Stages p intent parts
      → hash p (as_field recipient_binding_v1 ∷ s ∷ r ∷ []) ≡ some intent.recipient_commitment.value
      → covers_trade_expiry c.credential_expiry intent.expiry.instant ≡ true
      → t.MerkleProof credential_depth l root paths.credential_siblings paths.credential_path
      → hash p (
          domain_eligibility_policy_v1
          ∷ from_u64 c.investor_class.get
          ∷ from_u64 c.jurisdiction.get
          ∷ [])
        ≡ some policy_leaf
      → t.MerkleProof policy_depth policy_leaf intent.policy_root.value paths.policy_siblings
          paths.policy_path
      → Satisfies t
          (record {
            active_credential_root = root;
            trade_commitment = parts.trade_commitment.value;
          })
          (signals_of c intent paths)
          (hashes_of s m r l policy_leaf intent parts)
  unfolding as_field tag
  constraints c intent paths parts s m r l root policy_leaf hc hi a st e cover member described
        allowed =
      let offered = encode_asset_base-IsU128 intent.offered_asset hi.offered_asset in
      let requested = encode_asset_base-IsU128 intent.requested_asset hi.requested_asset in
      let (limb0, limb1, limb2, _, _) =
        decode_receiver-encode_receiver c.approved_receiver hc.approved_receiver in
      record {
        offered_asset_hi_range = wide 128 _ (omega arith) offered.0 offered.0;
        offered_asset_lo_range = wide 128 _ (omega arith) offered.1 offered.1;
        requested_asset_hi_range = wide 128 _ (omega arith) requested.0 requested.0;
        requested_asset_lo_range = wide 128 _ (omega arith) requested.1 requested.1;
        receiver_limb0_range = wide 128 _ (omega arith) limb0 limb0;
        receiver_limb1_range = wide 128 _ (omega arith) limb1 limb1;
        receiver_limb2_range =
            wide 88 _ (omega arith) (omega (arith, limb2)) (omega (arith, limb2));
        investor_class_range =
            narrow 8 _ (omega arith) (omega (arith, hc.investor_class)) hc.investor_class;
        allowed_investor_class_range =
            narrow 8 _ (omega arith) (omega (arith, hc.investor_class)) hc.investor_class;
        jurisdiction_range =
            narrow 16 _ (omega arith) (omega (arith, hc.jurisdiction)) hc.jurisdiction;
        allowed_jurisdiction_range =
            narrow 16 _ (omega arith) (omega (arith, hc.jurisdiction)) hc.jurisdiction;
        credential_expiry_range =
            narrow 64 _ (omega arith) hc.credential_expiry hc.credential_expiry;
        credential_nonce_range = narrow 64 _ (omega arith) hc.nonce hc.nonce;
        offered_amount_range = narrow 64 _ (omega arith) hi.offered_amount hi.offered_amount;
        requested_amount_range = narrow 64 _ (omega arith) hi.requested_amount hi.requested_amount;
        matcher_fee_amount_range = narrow 64 _ (omega arith) hi.fee_amount hi.fee_amount;
        nonce_range = narrow 64 _ (omega arith) hi.nonce hi.nonce;
        expiry_range = narrow 64 _ (omega arith) hi.expiry hi.expiry;
        same_class = refl;
        same_jurisdiction = refl;
        subject_hash = computed a.subject;
        receiver_hash = computed a.received;
        credential_meta_hash = computed a.described;
        credential_leaf_hash = computed a.leafed;
        credential_membership = member;
        recipient_hash = computed e;
        policy_leaf_hash = computed described;
        policy_membership = allowed;
        valid_through_trade = covered c intent hc.credential_expiry hi.expiry cover;
        offered_asset_hash = computed st.offered;
        requested_asset_hash = computed st.requested;
        fee_hash = computed st.fee;
        trade_part_a_hash = computed st.part_a;
        trade_part_b_hash = computed st.part_b;
        trade_meta_hash = computed st.meta;
        trade_hash = computed st.commitment;
      }

-- For a hasher as `IsCircom` says and templates as `IsLibrary` says: where an intent's recipient
-- commitment binds the secret of a credential and the receiver that it approves, the credential
-- covers the expiry of the intent, its leaf is under the credential root, and its class and
-- jurisdiction have a leaf under the policy root of the intent, the values of the two satisfy the
-- constraints of the circuit for the trade commitment of the intent, with that leaf. The credential
-- and the intent are well-formed.
pub signals_of-Satisfies :
    (p : LightPoseidon)
    → IsCircom p
    → (t : Templates) → IsLibrary p t
    → (c : ActiveCredential) (intent : TradeIntent) (paths : MerklePaths) → IsCredential c
    → IsIntent intent
    → (leaf : CredentialLeaf) → Credential.leaf p c ≡ some leaf
    → (bound : RecipientBinding)
    → Trade.bind_recipient p c.subject_secret c.approved_receiver ≡ some bound
    → intent.recipient_commitment ≡ bound.recipient_commitment
    → (parts : TradeCommitmentParts) → Trade.trade_commitment_parts p intent ≡ some parts
    → covers_trade_expiry c.credential_expiry intent.expiry.instant ≡ true
    → (root policy_leaf : FieldElement)
    → t.MerkleProof credential_depth leaf.value root paths.credential_siblings paths.credential_path
    → hash p (
        domain_eligibility_policy_v1
        ∷ from_u64 c.investor_class.get
        ∷ from_u64 c.jurisdiction.get
        ∷ [])
      ≡ some policy_leaf
    → t.MerkleProof policy_depth policy_leaf intent.policy_root.value paths.policy_siblings
        paths.policy_path
    → (h : Hashes) × (h.credential_leaf ≡ leaf.value)
      × Satisfies t
          (record {
            active_credential_root = root;
            trade_commitment = parts.trade_commitment.value;
          })
          (signals_of c intent paths)
          h
signals_of-Satisfies p circom t library c intent paths hc hi leaf lc bound eb er parts ei cover root
      policy_leaf member described allowed =
    let (s, m, r, leaf', l', stages) = leaf-HashesTo p circom c in
    let same : leaf' ≡ leaf = some-injective _ _ (sym l' ∙ lc) in
    let a : HashesTo p c s m r leaf.value = subst (λ k. HashesTo p c s m r k.value) same stages in
    let b : Bound p c.subject_secret c.approved_receiver bound =
      bound_lem p circom c.subject_secret c.approved_receiver bound eb in
    let st : Stages p intent parts = staged p circom intent parts ei in
    let subject : s ≡ bound.subject_commitment.value =
      some-injective _ _ (sym a.subject ∙ b.subject) in
    let receiver : r ≡ bound.receiver_commitment.value =
      some-injective _ _ (sym a.received ∙ b.received) in
    let recipient : hash p (as_field recipient_binding_v1 ∷ s ∷ r ∷ [])
        ≡ some intent.recipient_commitment.value =
      ap₂ (λ k j. hash p (as_field recipient_binding_v1 ∷ k ∷ j ∷ [])) subject receiver
      ∙ b.recipient
      ∙ ap (λ k. some k.value) (sym er) in
    (
      hashes_of s m r leaf.value policy_leaf intent parts,
      refl,
      constraints p t library c intent paths parts s m r leaf.value root policy_leaf hc hi a st
          recipient cover member described allowed,
    )
