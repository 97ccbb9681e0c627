-- ===== src/Circuits/Shared/MerkleTree/Runs.antt =====
-- A tree of eight leaves, and the theorems at it.
use zwa_protocol.Prelude.{
  ℕ, suc, ◌+◌, ◌*◌, ◌^◌, none, ◌≡◌, ◌⊎◌, ◌↔◌, refl, some, List, [], ◌∷◌, Option, arith, length,
  get_elem?, All, replicate,
}
use zwa_protocol.Prelude.Words
use zwa_protocol.Protocol.Field
use zwa_protocol.Protocol.Field.{FieldElement}
use zwa_protocol.Commitments.Poseidon.{hash, poseidon}
use zwa_protocol.Commitments.Counter
use zwa_protocol.Commitments.Counter.{counted, counter}
use zwa_protocol.Circuits.Shared.MerklePath.{path_root, IsBit, place}
use zwa_protocol.Circuits.Shared.MerkleTree.{
  build_merkle_tree, levels_from, next_level, merkle_proof, merkle_root, proof_from,
}
use zwa_protocol.Circuits.Shared.MerkleTree.Levels.{merkle_proof-path_root}
use zwa_protocol.Circuits.Shared.MerkleTree.Binding.{PathCollides, merkle_root-binds}
use zwa_protocol.Circuits.Shared.MerkleTree.Total.{build_merkle_tree_iff}

-- Numbers in place of hashes.
abbrev joined : List ℕ → Option ℕ
joined (a ∷ b ∷ []) = some (10 * a + b)
joined _ = none

abbrev numbers : List ℕ
numbers = 1 ∷ 2 ∷ 3 ∷ 4 ∷ []

abbrev levels : List (List ℕ)
levels = numbers ∷ (12 ∷ 34 ∷ []) ∷ (154 ∷ []) ∷ []

levels_of : build_merkle_tree joined numbers ≡ some levels
unfolding build_merkle_tree levels_from next_level
levels_of = refl

-- The third leaf: its sibling is on the right, and that of its parent on the left.
third : merkle_proof levels 2 ≡ some (4 ∷ 12 ∷ [], 0 ∷ 1 ∷ [])
unfolding merkle_proof proof_from
third = refl

third_root : path_root joined 3 (4 ∷ 12 ∷ []) (0 ∷ 1 ∷ []) ≡ some 154
unfolding path_root
third_root = refl

merkle_proof-path_root_example :
    (siblings : List ℕ) × (bits : List ℕ) × (root : ℕ) × (merkle_proof levels 2
      ≡ some (siblings, bits))
    × (merkle_root levels ≡ some root)
    × (path_root joined 3 siblings bits ≡ some root)
    × (length levels ≡ suc (length siblings))
    × All IsBit bits
    × (place bits ≡ 2)
merkle_proof-path_root_example = merkle_proof-path_root joined numbers levels levels_of 2 3 refl

build_merkle_tree_iff_example :
    ((levels : List (List ℕ)) × (build_merkle_tree joined numbers ≡ some levels)
      × (length levels ≡ 3))
    ↔ (length numbers ≡ 2 ^ 2)
build_merkle_tree_iff_example = build_merkle_tree_iff joined (λ l r. (10 * l + r, refl)) numbers 2

abbrev scalars : List FieldElement
scalars = replicate 4 (counted 1)

abbrev scalar_levels : List (List FieldElement)
scalar_levels = scalars ∷ replicate 2 (counted 2) ∷ replicate 1 (counted 2) ∷ []

scalar_levels_of : build_merkle_tree (hash counter) scalars ≡ some scalar_levels
unfolding build_merkle_tree levels_from next_level hash poseidon Counter.count_inputs
    Words.to_be_bytes Field.from_be_slice
scalar_levels_of = refl

climbs :
    path_root (hash counter) (counted 1) (counted 1 ∷ counted 2 ∷ []) (1 ∷ 0 ∷ [])
    ≡ some (counted 2)
unfolding path_root hash poseidon Counter.count_inputs Words.to_be_bytes Field.from_be_slice
climbs = refl

merkle_root-binds_example :
    (get_elem? scalars 1 ≡ some (counted 1))
    ⊎ PathCollides counter scalar_levels (counted 1) (counted 1 ∷ counted 2 ∷ []) (1 ∷ 0 ∷ [])
merkle_root-binds_example =
    merkle_root-binds counter scalars scalar_levels scalar_levels_of (counted 1) (counted 2)
      (counted 1 ∷ counted 2 ∷ []) (1 ∷ 0 ∷ []) refl climbs refl (omega arith)
