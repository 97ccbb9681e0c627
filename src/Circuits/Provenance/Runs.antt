-- ===== src/Circuits/Provenance/Runs.antt =====
-- The theorems at the tree of Issuer.
use zwa_protocol.Prelude.{◌≡◌, ◌⊎◌, refl, some, List, ℕ, All-replicate}
use zwa_protocol.Protocol.Field.{FieldElement}
use zwa_protocol.Commitments.Counter.{counted, counter, counter-IsCircom}
use zwa_protocol.Circuits.Shared.MerkleTree.{merkle_proof}
use zwa_protocol.Circuits.Counter.{
  templates, templates-IsLibrary, intent, intent-IsIntent, parts, parts_of,
}
use zwa_protocol.Circuits.Provenance.{Hashes, Satisfies}
use zwa_protocol.Circuits.Provenance.Completeness.{issued_signals}
use zwa_protocol.Circuits.Provenance.Issuances.{IsIssuance}
use zwa_protocol.Circuits.Provenance.Prover.{with_proof, merkle_proof-issued_signals}
use zwa_protocol.Circuits.Provenance.Issued.{Provenant, IssuanceCollides, Satisfies-Provenant}
use zwa_protocol.Circuits.Provenance.Issuer.{
  issuance, issuance-IsIssuance, issuances, tree, public_signals, proof,
}

merkle_proof-issued_signals_example :
    (siblings : List FieldElement) × (bits : List ℕ) × (merkle_proof tree.levels 6
      ≡ some (siblings, bits))
    × ((h : Hashes) × Satisfies templates public_signals
          (issued_signals (with_proof issuance siblings bits) intent)
          h)
merkle_proof-issued_signals_example =
    merkle_proof-issued_signals counter counter-IsCircom templates templates-IsLibrary issuances
      (counted 2) tree 6 issuance refl issuance-IsIssuance intent intent-IsIntent refl refl parts
      parts_of

Satisfies-Provenant_example :
    Provenant counter templates public_signals
      (issued_signals (with_proof issuance proof.0 proof.1) intent)
      intent
      (counted 3)
      issuances
    ⊎ IssuanceCollides counter templates public_signals
        (issued_signals (with_proof issuance proof.0 proof.1) intent)
        proof.3.0
        intent
        parts
        issuances
        tree.levels
Satisfies-Provenant_example =
    Satisfies-Provenant counter counter-IsCircom templates templates-IsLibrary public_signals
      (issued_signals (with_proof issuance proof.0 proof.1) intent) proof.3.0 proof.3.1 intent
      intent-IsIntent parts parts_of refl issuances
      (All-replicate IsIssuance 8 issuance issuance-IsIssuance) tree
