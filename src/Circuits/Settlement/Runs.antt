-- ===== src/Circuits/Settlement/Runs.antt =====
-- The credentials of Authority and the issuances of Issuer, in one trade.
use zwa_protocol.Prelude.{◌⊎◌, refl, arith, All-replicate}
use zwa_protocol.Commitments.Counter.{counted, counter, counter-IsCircom}
use zwa_protocol.Commitments.Trade.Binding.{CollidesIn, hashed}
use zwa_protocol.Credentials.Credential.Binding.{IsCredential}
use zwa_protocol.Circuits.Counter.{
  templates, templates-IsLibrary, intent, intent-IsIntent, parts, parts_of,
}
use zwa_protocol.Circuits.Eligibility.Signals.{signals_of}
use zwa_protocol.Circuits.Eligibility.Trees.{IsAllowed, allowed_of}
use zwa_protocol.Circuits.Eligibility.Issued.{ProofCollides}
use zwa_protocol.Circuits.Eligibility.Holder.{credential, credential-IsCredential, bound, bound_of}
use zwa_protocol.Circuits.Eligibility.Authority
use zwa_protocol.Circuits.Eligibility.Authority.{credentials, policy, issued, permitted}
use zwa_protocol.Circuits.Provenance.Completeness.{issued_signals}
use zwa_protocol.Circuits.Provenance.Issuances.{IsIssuance}
use zwa_protocol.Circuits.Provenance.Prover.{with_proof}
use zwa_protocol.Circuits.Provenance.Issued.{IssuanceCollides}
use zwa_protocol.Circuits.Provenance.Issuer
use zwa_protocol.Circuits.Provenance.Issuer.{issuance, issuance-IsIssuance, issuances, tree}
use zwa_protocol.Circuits.Settlement.{Settles, Satisfies-Settles}

Satisfies-Settles_example :
    Settles counter templates Issuer.public_signals
      (issued_signals (with_proof issuance Issuer.proof.0 Issuer.proof.1) intent)
      credentials
      policy
      credential.subject_secret
      credential.approved_receiver
      issuances
      intent
      intent
      (counted 3)
    ⊎ CollidesIn counter (hashed intent parts) (hashed intent parts)
    ⊎ ProofCollides counter
        (signals_of credential intent Authority.proof.0)
        Authority.proof.2.0
        credentials
        issued.levels
        policy
        permitted.levels
        credential.subject_secret
        credential.approved_receiver
        bound
        intent
        parts
    ⊎ IssuanceCollides counter templates Issuer.public_signals
        (issued_signals (with_proof issuance Issuer.proof.0 Issuer.proof.1) intent)
        Issuer.proof.3.0
        intent
        parts
        issuances
        tree.levels
Satisfies-Settles_example =
    Satisfies-Settles counter counter-IsCircom templates templates-IsLibrary
      Authority.public_signals (signals_of credential intent Authority.proof.0) Authority.proof.2.0
      Authority.proof.2.1 Issuer.public_signals
      (issued_signals (with_proof issuance Issuer.proof.0 Issuer.proof.1) intent) Issuer.proof.3.0
      Issuer.proof.3.1 refl credentials
      (All-replicate IsCredential 8 credential credential-IsCredential) issued issuances
      (All-replicate IsIssuance 8 issuance issuance-IsIssuance) tree intent intent intent-IsIntent
      intent-IsIntent parts parts parts_of parts_of refl refl credential.subject_secret
      credential.approved_receiver bound bound_of refl policy
      (All-replicate IsAllowed 8 (allowed_of credential)
        (record { investor_class = omega arith; jurisdiction = omega arith }))
      permitted (refl, omega arith)
