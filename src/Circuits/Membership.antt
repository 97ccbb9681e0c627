-- ===== src/Circuits/Membership.antt =====
-- The membership that a circuit proves, where the root is that of a tree that
-- `buildMerkleTree` of circuits/shared/trade-commitment-v1.js makes.
use zwa_protocol.Prelude.{
  ℕ, suc, ◌≡◌, ◌⊎◌, inl, inr, sym, ap, ◌∙◌, Option, some, List, map, length, get_elem?, traverse,
  traverse-get_elem?, get_elem?-traverse, arith, refl,
}
use zwa_protocol.Protocol.Field.{FieldElement, from_u64}
use zwa_protocol.Commitments.Poseidon.{LightPoseidon, hash}
use zwa_protocol.Circuits.Templates.{Templates, IsLibrary}
use zwa_protocol.Circuits.Shared.MerklePath.{place}
use zwa_protocol.Circuits.Shared.MerkleTree.{build_merkle_tree, merkle_root, merkle_proof}
use zwa_protocol.Circuits.Shared.MerkleTree.Levels.{merkle_proof-path_root}
use mathlib.Core.Option.{some-injective}
use zwa_protocol.Circuits.Shared.MerkleTree.Binding.{PathCollides, merkle_root-binds}

-- A tree of the given depth over the leaves of some values, and its root.
pub record TreeOf (p : LightPoseidon) {A : Type 0} (leaf : A → Option FieldElement) (depth : ℕ)
    (values : List A) (root : FieldElement) : Type 0 where
  pub leaves : List FieldElement
  pub levels : List (List FieldElement)
  pub hashed : traverse leaf values ≡ some leaves
  pub built : build_merkle_tree (hash p) leaves ≡ some levels
  pub deep : length levels ≡ suc depth
  pub rooted : merkle_root levels ≡ some root

-- A value of the tree with the given leaf.
pub record InTree {A : Type 0} (leaf_of : A → Option FieldElement) (values : List A)
    (leaf : FieldElement) : Type 0 where
  pub index : ℕ
  pub value : A
  pub found : get_elem? values index ≡ some value
  pub hashed : leaf_of value ≡ some leaf

-- The collision of a path, whose indices are those of the circuit.
pub record PathFails (p : LightPoseidon) (levels : List (List FieldElement)) (leaf : FieldElement)
    (siblings path : List FieldElement) : Type 0 where
  pub bits : List ℕ
  pub spelled : path ≡ map from_u64 bits
  pub collision : PathCollides p levels leaf siblings bits

-- A value that a path of the circuit leads from stands in the tree, or the path collides.
module _ (p : LightPoseidon) (t : Templates) (library : IsLibrary p t) where
  pub in_tree :
      {A : Type 0} (leaf_of : A → Option FieldElement) (depth : ℕ) (values : List A)
      (leaf root : FieldElement) (siblings path : List FieldElement)
      (tree : TreeOf p leaf_of depth values root)
      → t.MerkleProof depth leaf root siblings path
      → InTree leaf_of values leaf ⊎ PathFails p tree.levels leaf siblings path
  in_tree leaf_of depth values leaf root siblings path tree m =
      let (bits, spelled, binary, deep, climbs) =
        (library.membership depth leaf root siblings path).0 m in
      elim (merkle_root-binds p tree.leaves tree.levels tree.built leaf root siblings bits
        tree.rooted climbs (tree.deep ∙ ap suc (sym deep)) binary) [
          | inr c ↦ inr (record { bits = bits; spelled = spelled; collision = c })
          | inl at ↦
              let (value, found, hashed) =
                traverse-get_elem? leaf_of values tree.leaves (place bits) leaf tree.hashed at in
              inl (record { index = place bits; value = value; found = found; hashed = hashed })
        ]

  -- What `merkleProof` finds for a value of the tree is accepted by the circuit.
  pub proved_in :
      {A : Type 0} (leaf_of : A → Option FieldElement) (depth : ℕ) (values : List A)
      (root : FieldElement) (tree : TreeOf p leaf_of depth values root) (i : ℕ) (v : A)
      (leaf : FieldElement)
      → get_elem? values i ≡ some v
      → leaf_of v ≡ some leaf
      → (siblings : List FieldElement) × (bits : List ℕ) × (merkle_proof tree.levels i
          ≡ some (siblings, bits))
        × t.MerkleProof depth leaf root siblings (map from_u64 bits)
  proved_in leaf_of depth values root tree i v leaf found hashed =
      let (leaf', at, hashed') =
        get_elem?-traverse leaf_of values tree.leaves i v tree.hashed found in
      let same : leaf' ≡ leaf = some-injective _ _ (sym hashed' ∙ hashed) in
      let (siblings, bits, root', proof, rooted, climbs, deep, binary, spelled) =
        merkle_proof-path_root (hash p) tree.leaves tree.levels tree.built i leaf
          (at ∙ ap some same) in
      let one_root : root' ≡ root = some-injective _ _ (sym rooted ∙ tree.rooted) in
      let depth_of : length siblings ≡ depth = omega (arith, deep, tree.deep) in
      (
        siblings,
        bits,
        proof,
        (library.membership depth leaf root siblings (map from_u64 bits)).1
            (bits, refl, binary, depth_of, climbs ∙ ap some one_root),
      )
