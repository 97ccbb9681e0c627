-- ===== src/Circuits/Eligibility/Runs.antt =====
-- The theorems at the trees of Authority.
use zwa_protocol.Prelude.{◌⊎◌, refl, arith, All-replicate}
use zwa_protocol.Commitments.Counter.{counted, counter, counter-IsCircom}
use zwa_protocol.Credentials.Credential.Binding.{IsCredential}
use zwa_protocol.Circuits.Counter.{
  templates, templates-IsLibrary, intent, intent-IsIntent, parts, parts_of,
}
use zwa_protocol.Circuits.Eligibility.{Hashes, Satisfies}
use zwa_protocol.Circuits.Eligibility.Holder.{
  credential, credential-IsCredential, bound, bound_of, covers,
}
use zwa_protocol.Circuits.Eligibility.Signals.{MerklePaths, signals_of}
use zwa_protocol.Circuits.Eligibility.Trees.{IsAllowed, allowed_of}
use zwa_protocol.Circuits.Eligibility.Issued.{Authorized, ProofCollides, Satisfies-Authorized}
use zwa_protocol.Circuits.Eligibility.Prover.{ProvedAt, merkle_proof-Satisfies}
use zwa_protocol.Circuits.Eligibility.Authority.{
  credentials, policy, issued, permitted, public_signals, proof,
}

merkle_proof-Satisfies_example :
    (paths : MerklePaths) × ProvedAt issued.levels permitted.levels 3 5 paths
    × ((h : Hashes) × Satisfies templates public_signals (signals_of credential intent paths) h)
merkle_proof-Satisfies_example =
    merkle_proof-Satisfies counter counter-IsCircom templates templates-IsLibrary credentials
      (counted 2) issued 3 credential refl credential-IsCredential intent intent-IsIntent policy
      permitted 5 refl bound bound_of refl parts parts_of covers

Satisfies-Authorized_example :
    Authorized credentials policy credential.subject_secret credential.approved_receiver intent
    ⊎ ProofCollides counter
        (signals_of credential intent proof.0)
        proof.2.0
        credentials
        issued.levels
        policy
        permitted.levels
        credential.subject_secret
        credential.approved_receiver
        bound
        intent
        parts
Satisfies-Authorized_example =
    Satisfies-Authorized counter counter-IsCircom templates templates-IsLibrary public_signals
      (signals_of credential intent proof.0) proof.2.0 proof.2.1 credentials
      (All-replicate IsCredential 8 credential credential-IsCredential) issued
      credential.subject_secret credential.approved_receiver bound bound_of intent parts parts_of
      refl refl policy
      (All-replicate IsAllowed 8 (allowed_of credential)
        (record { investor_class = omega arith; jurisdiction = omega arith }))
      permitted (refl, omega arith) (omega arith)
