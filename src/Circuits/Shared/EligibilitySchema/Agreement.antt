-- ===== src/Circuits/Shared/EligibilitySchema/Agreement.antt =====
-- That circuits/shared/eligibility-v1.js computes the recipient binding of
-- crates/commitments/src/trade.rs and the leaf of crates/credentials/src/credential.rs.
use zwa_protocol.Prelude.{
  ℕ, ◌≡◌, refl, sym, ap, ◌∙◌, Option, some, List, [], ◌∷◌, arith, >>=_of, >>=-eq-some,
}
use mathlib.Core.Option.{some-injective}
use zwa_protocol.Prelude.Int.{ℤ, pos}
use zwa_protocol.Prelude.Words.{IsU64}
use zwa_protocol.Protocol.Error.{ok}
use zwa_protocol.Protocol.Field.{FieldElement}
use zwa_protocol.Protocol.Field.Canonical.{IsCanonical}
use zwa_protocol.Protocol.Bytes.{OrchardReceiverBytes, receiver_from_hex}
use zwa_protocol.Protocol.Bytes.RoundTrip.{receiver_to_hex-from_hex}
use zwa_protocol.Protocol.Values.{SubjectSecret}
use zwa_protocol.Commitments.Domain.{as_field, tag}
use zwa_protocol.Commitments.Receiver.{encode_receiver, decode_receiver-encode_receiver}
use zwa_protocol.Commitments.Poseidon.{LightPoseidon, IsCircom, hash, hash-IsCanonical}
use zwa_protocol.Commitments.Trade
use zwa_protocol.Commitments.Trade.{RecipientBinding}
use zwa_protocol.Commitments.Trade.Recipient.{Bound, bound_lem, subject_inputs, receiver_inputs}
use zwa_protocol.Credentials.Credential
use zwa_protocol.Credentials.Credential.{ActiveCredential, CredentialLeaf, CredentialMeta}
use zwa_protocol.Credentials.Credential.Binding.{
  IsCredential, leaf-HashesTo, meta_inputs, leaf_inputs,
}
use zwa_protocol.Circuits.Shared.BigInts.Limbs.{receiver_to_limbs-encode_receiver}
use zwa_protocol.Circuits.Shared.TradeCommitment.Agreement.{
  big, IsCircomlib, stage, big_u64, big_u128, assert_u64_of, assert_field_of,
}
use zwa_protocol.Circuits.Shared.EligibilitySchema.{
  ComputedBinding, CredentialFields, ComputedCredential, compute_recipient_binding,
  compute_credential, issue_credential,
}

abbrev pub computed_binding : OrchardReceiverBytes → RecipientBinding → ComputedBinding
computed_binding receiver bound = record {
  subject_commitment = big bound.subject_commitment.value;
  receiver_commitment = big bound.receiver_commitment.value;
  recipient_commitment = big bound.recipient_commitment.value;
  receiver_limbs = record {
    limb0 = pos (encode_receiver receiver).limb0;
    limb1 = pos (encode_receiver receiver).limb1;
    limb2 = pos (encode_receiver receiver).limb2;
  };
}

-- The fields of a credential.
abbrev pub fields_of : ActiveCredential → CredentialFields
fields_of c = record {
  subject_secret = big c.subject_secret.value;
  credential_authority_commitment = big c.authority_commitment.value;
  investor_class = pos c.investor_class.get;
  jurisdiction = pos c.jurisdiction.get;
  credential_expiry = pos c.credential_expiry.get;
  credential_nonce = pos c.nonce.get;
}

abbrev pub computed_credential :
    RecipientBinding → CredentialMeta → CredentialLeaf → ComputedCredential
computed_credential bound described leaf = record {
  subject_commitment = big bound.subject_commitment.value;
  credential_meta = big described.value;
  credential_leaf = big leaf.value;
}

module _ (p : LightPoseidon) (circom : IsCircom p) (hasher : List ℤ → Option ℤ)
    (same : IsCircomlib p hasher) where
  subject_stage :
      (secret : SubjectSecret) (e : FieldElement)
      → hash p (subject_inputs secret) ≡ some e
      → hasher (pos 6004778564925477937 ∷ big secret.value ∷ []) ≡ some (big e)
  unfolding as_field tag
  subject_stage secret e h =
      stage p hasher same _ _ _ h
        (λ i. big_u64 6004778564925477937 (omega arith) i ∷ big secret.value ∷ [])

  compute_recipient_binding_of :
      (secret : SubjectSecret) (text : List ℕ) (receiver : OrchardReceiverBytes)
      (bound : RecipientBinding)
      → IsCanonical secret.value
      → receiver_from_hex text ≡ ok receiver
      → Trade.bind_recipient p secret receiver ≡ some bound
      → compute_recipient_binding hasher (big secret.value) text
        ≡ some (computed_binding receiver bound)
  unfolding compute_recipient_binding as_field tag
  compute_recipient_binding_of secret text receiver bound hs er eb =
      let b = bound_lem p circom secret receiver bound eb in
      let (bytes, long, spelled, written) = receiver_to_hex-from_hex text receiver er in
      let (limb0, limb1, limb2, _, _) = decode_receiver-encode_receiver receiver bytes in
      >>=_of _ (receiver_to_limbs-encode_receiver text receiver er) (
        >>=_of _ (assert_field_of secret.value hs) (
          >>=_of _ (subject_stage secret _ b.subject) (
            >>=_of _
              (stage p hasher same _ _ _ b.received (λ i.
                big_u64 5928218449365324337 (omega arith) i
                ∷ big_u128 (encode_receiver receiver).limb0 limb0 i
                ∷ big_u128 (encode_receiver receiver).limb1 limb1 i
                ∷ big_u128 (encode_receiver receiver).limb2 (omega (arith, limb2)) i
                ∷ []))
              (>>=_of _
                (stage p hasher same _ _ _ b.recipient (λ i.
                  big_u64 5927669780177634353 (omega arith) i
                  ∷ big bound.subject_commitment.value
                  ∷ big bound.receiver_commitment.value
                  ∷ []))
                refl))))

  meta_hash :
      (c : ActiveCredential) (described : CredentialMeta)
      → Credential.meta p c ≡ some described
      → hash p (meta_inputs c) ≡ some described.value
  unfolding Credential.meta Credential.hash4 hash
  meta_hash c described e =
      let (m, hm, made) = >>=-eq-some (hash p (meta_inputs c)) _ e in
      hm ∙ ap (λ k. some k.value) (some-injective _ _ made)

  -- The stages of the leaf, against a binding of the secret and the receiver of the credential.
  leaf_stage :
      (c : ActiveCredential) (bound : RecipientBinding) (described : CredentialMeta)
      (leaf : CredentialLeaf)
      → IsCredential c
      → Bound p c.subject_secret c.approved_receiver bound
      → hash p (meta_inputs c) ≡ some described.value
      → Credential.leaf p c ≡ some leaf
      → hasher (
          pos 18949280892933682
          ∷ big c.authority_commitment.value
          ∷ big bound.subject_commitment.value
          ∷ big described.value
          ∷ pos c.nonce.get
          ∷ big bound.receiver_commitment.value
          ∷ [])
        ≡ some (big leaf.value)
  unfolding as_field tag
  leaf_stage c bound described leaf hc b hm el =
      let (s, m, r, leaf', e, a) = leaf-HashesTo p circom c in
      let one : leaf' ≡ leaf = some-injective _ _ (sym e ∙ el) in
      let es : s ≡ bound.subject_commitment.value =
        some-injective _ _ (sym a.subject ∙ b.subject) in
      let em : m ≡ described.value = some-injective _ _ (sym a.described ∙ hm) in
      let er : r ≡ bound.receiver_commitment.value =
        some-injective _ _ (sym a.received ∙ b.received) in
      stage p hasher same (leaf_inputs c s m r) leaf.value _ (a.leafed ∙ ap (λ k. some k.value) one)
        (λ i.
          big_u64 18949280892933682 (omega arith) i
          ∷ big c.authority_commitment.value
          ∷ big (es i)
          ∷ big (em i)
          ∷ big_u64 c.nonce.get hc.nonce i
          ∷ big (er i)
          ∷ [])

  compute_credential_of :
      (c : ActiveCredential) (bound : RecipientBinding) (described : CredentialMeta)
      (leaf : CredentialLeaf)
      → IsCredential c
      → IsCanonical c.subject_secret.value
      → IsCanonical c.authority_commitment.value
      → Bound p c.subject_secret c.approved_receiver bound
      → hash p (meta_inputs c) ≡ some described.value
      → Credential.leaf p c ≡ some leaf
      → compute_credential hasher (fields_of c) (big bound.receiver_commitment.value)
        ≡ some (computed_credential bound described leaf)
  unfolding compute_credential as_field tag
  compute_credential_of c bound described leaf hc hs ha b hm el =
      let class : IsU64 c.investor_class.get = omega (arith, hc.investor_class) in
      let jurisdiction : IsU64 c.jurisdiction.get = omega (arith, hc.jurisdiction) in
      let approved : IsCanonical bound.receiver_commitment.value =
        hash-IsCanonical p circom (receiver_inputs c.approved_receiver) _ (omega arith)
          (omega arith) b.received in
      >>=_of _ (assert_field_of _ hs) (
        >>=_of _ (subject_stage c.subject_secret _ b.subject) (
          >>=_of _ (assert_u64_of _ class) (
            >>=_of _ (assert_u64_of _ jurisdiction) (
              >>=_of _ (assert_u64_of _ hc.credential_expiry) (
                >>=_of _
                  (stage p hasher same _ _ _ hm (λ i.
                    big_u64 4851015908287927361 (omega arith) i
                    ∷ big_u64 c.investor_class.get class i
                    ∷ big_u64 c.jurisdiction.get jurisdiction i
                    ∷ big_u64 c.credential_expiry.get hc.credential_expiry i
                    ∷ []))
                  (>>=_of _ (assert_field_of _ ha) (
                    >>=_of _ (assert_u64_of _ hc.nonce) (
                      >>=_of _ (assert_field_of _ approved)
                        (>>=_of _ (leaf_stage c bound described leaf hc b hm el) refl)))))))))

-- For a hasher as `IsCircom` says and one on BigInts that agrees with it: of a well-formed credential
-- with canonical secret and authority, and any text that the crates read as the receiver that it
-- approves, `issueCredential` computes the recipient binding, the description and the leaf that the
-- crates give, as BigInts, with the limbs of the receiver.
pub issue_credential-leaf :
    (p : LightPoseidon)
    → IsCircom p
    → (hasher : List ℤ → Option ℤ) → IsCircomlib p hasher
    → (c : ActiveCredential) → IsCredential c
    → IsCanonical c.subject_secret.value
    → IsCanonical c.authority_commitment.value
    → (bound : RecipientBinding)
    → Trade.bind_recipient p c.subject_secret c.approved_receiver ≡ some bound
    → (described : CredentialMeta) → Credential.meta p c ≡ some described
    → (leaf : CredentialLeaf) → Credential.leaf p c ≡ some leaf
    → (text : List ℕ) → receiver_from_hex text ≡ ok c.approved_receiver
    → issue_credential hasher (fields_of c) text
      ≡ some (computed_binding c.approved_receiver bound, computed_credential bound described leaf)
unfolding issue_credential
issue_credential-leaf p circom hasher same c hc hs ha bound eb described em leaf el text er =
    >>=_of _
      (compute_recipient_binding_of p circom hasher same c.subject_secret text c.approved_receiver
        bound hs er eb)
      (>>=_of _
        (compute_credential_of p circom hasher same c bound described leaf hc hs ha
          (bound_lem p circom c.subject_secret c.approved_receiver bound eb)
          (meta_hash p circom hasher same c described em) el)
        refl)
