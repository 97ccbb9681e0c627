-- ===== src/Commitments/Trade/Recipient.antt =====
-- What the recipient binding of crates/commitments/src/trade.rs binds: the subject secret and the
-- receiver.
use zwa_protocol.Prelude.{
  ◌≡◌, ◌≤◌, ◌⊎◌, inl, inr, refl, sym, ap, ◌∙◌, some, List, [], ◌∷◌, arith, length, subst,
}
use mathlib.Core.Option.{some-injective}
use zwa_protocol.Prelude.Words.{IsBytes}
use zwa_protocol.Protocol.Field.{FieldElement, from_u128}
use zwa_protocol.Protocol.Field.Canonical.{IsCanonical, from_u128-injective}
use zwa_protocol.Protocol.Bytes.{OrchardReceiverBytes}
use zwa_protocol.Protocol.Values.{SubjectSecret}
use zwa_protocol.Commitments.Receiver.{
  encode_receiver, decode_receiver, decode_receiver-encode_receiver,
}
use zwa_protocol.Commitments.Domain.{subject_v1, receiver_v1, recipient_binding_v1, as_field}
use zwa_protocol.Commitments.Poseidon.{LightPoseidon, IsCircom, hash, hash_total}
use zwa_protocol.Commitments.Trade
use zwa_protocol.Commitments.Trade.{RecipientBinding}
use zwa_protocol.Commitments.Trade.Binding.{CollidesIn, same_inputs, three_of, four_of}

abbrev pub subject_inputs : SubjectSecret → List FieldElement
subject_inputs secret = as_field subject_v1 ∷ secret.value ∷ []

abbrev pub receiver_inputs : OrchardReceiverBytes → List FieldElement
receiver_inputs receiver =
    as_field receiver_v1
    ∷ from_u128 (encode_receiver receiver).limb0
    ∷ from_u128 (encode_receiver receiver).limb1
    ∷ from_u128 (encode_receiver receiver).limb2
    ∷ []

abbrev pub binding_inputs : RecipientBinding → List FieldElement
binding_inputs bound =
    as_field recipient_binding_v1
    ∷ bound.subject_commitment.value
    ∷ bound.receiver_commitment.value
    ∷ []

-- The inputs that the binding of a recipient hashes.
abbrev pub hashed :
    SubjectSecret → OrchardReceiverBytes → RecipientBinding → List (List FieldElement)
hashed secret receiver bound =
    binding_inputs bound ∷ subject_inputs secret ∷ receiver_inputs receiver ∷ []

pub record Bound (p : LightPoseidon) (secret : SubjectSecret) (receiver : OrchardReceiverBytes)
    (bound : RecipientBinding) : Type 0 where
  pub subject : hash p (subject_inputs secret) ≡ some bound.subject_commitment.value
  pub received : hash p (receiver_inputs receiver) ≡ some bound.receiver_commitment.value
  pub recipient : hash p (binding_inputs bound) ≡ some bound.recipient_commitment.value

bind_recipient-Bound :
    (p : LightPoseidon)
    → IsCircom p
    → (secret : SubjectSecret) (receiver : OrchardReceiverBytes)
    → (bound : RecipientBinding) × (Trade.bind_recipient p secret receiver ≡ some bound)
      × Bound p secret receiver bound
unfolding Trade.bind_recipient Trade.subject_commitment Trade.receiver_commitment
    Trade.recipient_commitment
bind_recipient-Bound p c secret receiver =
    let total : (inputs : List FieldElement)
        → 1 ≤ length inputs
        → length inputs ≤ 12
        → (e : FieldElement) × (hash p inputs ≡ some e) × IsCanonical e =
      hash_total p c in
    let (s, hs, _) = total (subject_inputs secret) (omega arith) (omega arith) in
    let (r, hr, _) = total (receiver_inputs receiver) (omega arith) (omega arith) in
    let (t, ht, _) =
      total (as_field recipient_binding_v1 ∷ s ∷ r ∷ []) (omega arith) (omega arith) in
    (
      record {
        subject_commitment = record { value = s };
        receiver_commitment = record { value = r };
        recipient_commitment = record { value = t };
      },
      rw (hs, hr, ht) refl,
      record { subject = hs; received = hr; recipient = ht },
    )

pub bound_lem :
    (p : LightPoseidon)
    → IsCircom p
    → (secret : SubjectSecret) (receiver : OrchardReceiverBytes) (bound : RecipientBinding)
    → Trade.bind_recipient p secret receiver ≡ some bound
    → Bound p secret receiver bound
bound_lem p c secret receiver bound e =
    let (q, l, s) = bind_recipient-Bound p c secret receiver in
    subst (Bound p secret receiver) (some-injective _ _ (sym l ∙ e)) s

pub encode_receiver-injective :
    (a b : OrchardReceiverBytes)
    → IsBytes 43 a.as_bytes
    → IsBytes 43 b.as_bytes
    → receiver_inputs a ≡ receiver_inputs b
    → a ≡ b
encode_receiver-injective a b ha hb e =
    let (e0, e1, e2) = four_of e in
    let (a0, a1, a2, _, da) = decode_receiver-encode_receiver a ha in
    let (b0, b1, b2, _, db) = decode_receiver-encode_receiver b hb in
    let same0 : (encode_receiver a).limb0 ≡ (encode_receiver b).limb0 =
      from_u128-injective _ _ a0 b0 e0 in
    let same1 : (encode_receiver a).limb1 ≡ (encode_receiver b).limb1 =
      from_u128-injective _ _ a1 b1 e1 in
    let same2 : (encode_receiver a).limb2 ≡ (encode_receiver b).limb2 =
      from_u128-injective _ _ (omega (arith, a2)) (omega (arith, b2)) e2 in
    sym da
    ∙ (λ i. decode_receiver (record { limb0 = same0 i; limb1 = same1 i; limb2 = same2 i }))
    ∙ db

-- For a hasher as `IsCircom` says: two bindings of secrets and 43-byte receivers with one
-- recipient commitment have the same secret and the same receiver, or at some stage they hash two
-- different inputs to the same value.
pub bind_recipient-binds :
    (p : LightPoseidon)
    → IsCircom p
    → (secret secret' : SubjectSecret) (receiver receiver' : OrchardReceiverBytes)
    → IsBytes 43 receiver.as_bytes
    → IsBytes 43 receiver'.as_bytes
    → (a b : RecipientBinding) → Trade.bind_recipient p secret receiver ≡ some a
    → Trade.bind_recipient p secret' receiver' ≡ some b
    → a.recipient_commitment ≡ b.recipient_commitment
    → ((secret ≡ secret') × (receiver ≡ receiver'))
      ⊎ CollidesIn p (hashed secret receiver a) (hashed secret' receiver' b)
bind_recipient-binds p c secret secret' receiver receiver' hr hr' a b ea eb e =
    let x = bound_lem p c secret receiver a ea in
    let y = bound_lem p c secret' receiver' b eb in
    same_inputs p _ _ x.recipient y.recipient (ap (λ t. t.value) e) inl (λ parts.
      let (es, er) = three_of parts in
      same_inputs p _ _ x.subject y.subject es (λ c. inr (inl c))
        (λ in_subject.
          same_inputs p _ _ x.received y.received er (λ c. inr (inr (inl c)))
            (λ in_receiver.
              let same : secret.value ≡ secret'.value = cc in
              inl (
                (λ i. record { value = same i }),
                encode_receiver-injective receiver receiver' hr hr' in_receiver,
              ))))
