-- ===== src/Circuits/Eligibility/Shown.antt =====
-- What a witness of circuits/eligibility/rwa_investor_eligibility_v1.circom shows of its own signals,
-- where its leaf is that of a credential of crates/credentials/src/credential.rs.
use zwa_protocol.Prelude.{◌≡◌, ◌⊎◌, inl, inr, sym, ap, ◌∙◌, some, subst}
use mathlib.Core.Option.{some-injective}
use zwa_protocol.Prelude.Words.{IsBytes}
use zwa_protocol.Protocol.Field.{FieldElement}
use zwa_protocol.Protocol.Bytes.{OrchardReceiverBytes}
use zwa_protocol.Protocol.Values.{SubjectSecret}
use zwa_protocol.Protocol.Intent.{TradeIntent}
use zwa_protocol.Commitments.Poseidon.{LightPoseidon, IsCircom}
use zwa_protocol.Commitments.Trade
use zwa_protocol.Commitments.Trade.{RecipientBinding, TradeCommitmentParts}
use zwa_protocol.Commitments.Trade.Binding.{CollidesIn, staged}
use zwa_protocol.Commitments.Trade.Recipient.{Bound, bound_lem}
use zwa_protocol.Credentials.Credential
use zwa_protocol.Credentials.Credential.{ActiveCredential, CredentialLeaf}
use zwa_protocol.Credentials.Credential.Binding.{HashesTo, leaf-HashesTo}
use zwa_protocol.Circuits.Templates.{Templates, IsLibrary}
use zwa_protocol.Circuits.Eligibility.{PublicSignals, PrivateSignals, Hashes, Satisfies}
use zwa_protocol.Circuits.Eligibility.Stages.{
  circuit_stages, crate_stages, StagesCollide, TradeOf, HolderOf, trade_of, holder_of,
}

module _ (p : LightPoseidon) (circom : IsCircom p) (t : Templates) (library : IsLibrary p t)
    (x : PublicSignals) (w : PrivateSignals) (h : Hashes) (proof : Satisfies t x w h) where
  abbrev pub Shown : ActiveCredential → SubjectSecret → OrchardReceiverBytes → TradeIntent → Type 0
  Shown c secret receiver intent =
      TradeOf p t library x w h proof intent × HolderOf p t library x w h proof c secret receiver

  pub Satisfies-Shown :
      (c : ActiveCredential) (leaf : CredentialLeaf)
      → Credential.leaf p c ≡ some leaf
      → h.credential_leaf ≡ leaf.value
      → (secret : SubjectSecret) (receiver : OrchardReceiverBytes) (bound : RecipientBinding)
      → Trade.bind_recipient p secret receiver ≡ some bound
      → (intent : TradeIntent) (parts : TradeCommitmentParts)
      → Trade.trade_commitment_parts p intent ≡ some parts
      → intent.recipient_commitment ≡ bound.recipient_commitment
      → x.trade_commitment ≡ parts.trade_commitment.value
      → IsBytes 43 c.approved_receiver.as_bytes
      → IsBytes 43 receiver.as_bytes
      → Shown c secret receiver intent ⊎ StagesCollide p w h c secret receiver bound intent parts
  Satisfies-Shown c leaf lc el secret receiver bound eb intent parts ei er ec hc hr =
      let (s, m, r, leaf', l', stages) = leaf-HashesTo p circom c in
      let same : leaf' ≡ leaf = some-injective _ _ (sym l' ∙ lc) in
      let a : HashesTo p c s m r leaf.value = subst (λ k. HashesTo p c s m r k.value) same stages in
      let b : Bound p secret receiver bound = bound_lem p circom secret receiver bound eb in
      elim (trade_of p t library x w h proof {C = Collision s m r} intent parts
        (staged p circom intent parts ei) ec inl (λ k. inr (inl k)) (λ k. inr (inr (inl k)))) [
          | inr k ↦ inr (placed s m r a k)
          | inl trade ↦
              elim (holder_of p t library x w h proof {C = Collision s m r} c secret receiver bound
                s m r leaf.value hc hr a b el (trade.recipient ∙ ap (λ k. k.value) er)
                (λ k. inr (inr (inr (inl k)))) (λ k. inr (inr (inr (inr (inl k)))))
                (λ k. inr (inr (inr (inr (inr (inl k))))))
                (λ k. inr (inr (inr (inr (inr (inr (inl k)))))))
                (λ k. inr (inr (inr (inr (inr (inr (inr (inl k))))))))
                (λ k. inr (inr (inr (inr (inr (inr (inr (inr (inl k)))))))))
                (λ k. inr (inr (inr (inr (inr (inr (inr (inr (inr (inl k))))))))))) [
                  | inr k ↦ inr (placed s m r a k)
                  | inl holder ↦ inl (trade, holder)
                ]
        ]
    where
      Collision : FieldElement → FieldElement → FieldElement → Type 0
      Collision s m r =
          CollidesIn p (circuit_stages w h)
            (crate_stages c s m r secret receiver bound intent parts)

      placed :
          (s m r : FieldElement)
          → HashesTo p c s m r leaf.value
          → Collision s m r
          → StagesCollide p w h c secret receiver bound intent parts
      placed s m r a k = record {
        s = s;
        m = m;
        r = r;
        l = leaf.value;
        credential = a;
        collision = k;
      }
