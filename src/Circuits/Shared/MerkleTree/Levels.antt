-- ===== src/Circuits/Shared/MerkleTree/Levels.antt =====
-- How the levels of a tree are made, and that the siblings that `merkleProof` of
-- circuits/shared/trade-commitment-v1.js collects lead from a leaf to the root.
use zwa_protocol.Prelude.{
  ℕ, zero, suc, ◌/◌, ◌%◌, ◌≡◌, ◌<◌, refl, sym, ap, ap₂, ◌∙◌, subst, Option, none, some, List, [],
  ◌∷◌, >>=-eq-some, >>=_of, arith, length, get_elem?, All, lt→ltb, false, Bool-cases, inl, inr,
}
use Prim.Native.Nat.{bit_xor}
use mathlib.Core.Option.{some-injective}
use zwa_protocol.Prelude.Words.Parity.{xor-one_step}
use zwa_protocol.Circuits.Shared.MerklePath.{ordered, path_root, IsBit, place}
use zwa_protocol.Circuits.Shared.MerkleTree.{
  next_level, levels_from, merkle_root, proof_from, merkle_proof, build_merkle_tree, is_refused,
}

lt-length : {A : Type 0} (xs : List A) (i : ℕ) (x : A) → get_elem? xs i ≡ some x → i < length xs
lt-length [] i x h = cc
lt-length (y ∷ ys) zero x h = omega arith
lt-length (y ∷ ys) (suc i) x h = omega (arith, lt-length ys i x h)

module _ {A : Type 0} (hash : List A → Option A) where
  -- A level with two nodes at its start, and the next one.
  pub record Joined (l r : A) (rest next : List A) : Type 0 where
    pub node : A
    pub nodes : List A
    pub hashed : hash (l ∷ r ∷ []) ≡ some node
    pub joined : next_level hash rest ≡ some nodes
    pub same : next ≡ node ∷ nodes

  pub joined_lem :
      (l r : A) (rest next : List A)
      → next_level hash (l ∷ r ∷ rest) ≡ some next
      → Joined l r rest next
  unfolding next_level
  joined_lem l r rest next e =
      let (x, hx, e1) = >>=-eq-some (hash (l ∷ r ∷ [])) _ e in
      let (xs, hxs, e2) = >>=-eq-some (next_level hash rest) _ e1 in
      record { node = x; nodes = xs; hashed = hx; joined = hxs; same = sym (some-injective _ _ e2) }

  -- The sibling of a node of a level, and their parent in the next.
  pub record Parent (level next : List A) (i : ℕ) (node : A) : Type 0 where
    pub sibling : A
    pub parent : A
    pub beside : get_elem? level (bit_xor i 1) ≡ some sibling
    pub above : get_elem? next (i / 2) ≡ some parent
    pub hashed : hash (ordered (i % 2) node sibling) ≡ some parent

  node_above :
      (level next : List A) (i : ℕ) (node : A)
      → next_level hash level ≡ some next
      → get_elem? level i ≡ some node
      → Parent level next i node
  unfolding next_level
  node_above [] next i node e h = cc
  node_above (x ∷ []) next i node e h = cc
  node_above (l ∷ r ∷ rest) next zero node e h =
      let j = joined_lem l r rest next e in
      record {
        sibling = r;
        parent = j.node;
        beside = refl;
        above = ap (λ n. get_elem? n 0) j.same;
        hashed = ap (λ n. hash (n ∷ r ∷ [])) (sym (some-injective _ _ h)) ∙ j.hashed;
      }
  node_above (l ∷ r ∷ rest) next (suc zero) node e h =
      let j = joined_lem l r rest next e in
      record {
        sibling = l;
        parent = j.node;
        beside = refl;
        above = ap (λ n. get_elem? n 0) j.same;
        hashed = ap (λ n. hash (l ∷ n ∷ [])) (sym (some-injective _ _ h)) ∙ j.hashed;
      }
  node_above (l ∷ r ∷ rest) next (suc (suc i)) node e h =
      let j = joined_lem l r rest next e in
      let up = node_above rest j.nodes i node j.joined h in
      let half : suc (suc i) / 2 ≡ suc (i / 2) = omega arith in
      let parity : suc (suc i) % 2 ≡ i % 2 = omega arith in
      record {
        sibling = up.sibling;
        parent = up.parent;
        beside = ap (get_elem? (l ∷ r ∷ rest)) (xor-one_step i) ∙ up.beside;
        above = ap₂ get_elem? j.same half ∙ up.above;
        hashed = ap (λ b. hash (ordered b node up.sibling)) parity ∙ up.hashed;
      }

  -- The first level is the one that they are made from.
  some_levels :
      (fuel : ℕ) (level : List A) (levels : List (List A))
      → levels_from hash fuel level ≡ some levels
      → (above : List (List A)) × (levels ≡ level ∷ above)
  unfolding levels_from
  some_levels zero level levels e = cc
  some_levels (suc fuel) [] levels e = ([], sym (some-injective _ _ e))
  some_levels (suc fuel) (x ∷ []) levels e = ([], sym (some-injective _ _ e))
  some_levels (suc fuel) (l ∷ r ∷ rest) levels e =
      let (next, hn, e1) = >>=-eq-some (next_level hash (l ∷ r ∷ rest)) _ e in
      let (above, ha, e2) = >>=-eq-some (levels_from hash fuel next) _ e1 in
      (above, sym (some-injective _ _ e2))

  -- The levels of at least two leaves.
  pub record Grown (fuel : ℕ) (level : List A) (levels : List (List A)) : Type 0 where
    pub next : List A
    pub above : List (List A)
    pub joined : next_level hash level ≡ some next
    pub grown : levels_from hash fuel next ≡ some (next ∷ above)
    pub same : levels ≡ level ∷ next ∷ above

  pub grown_lem :
      (fuel : ℕ) (l r : A) (rest : List A) (levels : List (List A))
      → levels_from hash (suc fuel) (l ∷ r ∷ rest) ≡ some levels
      → Grown fuel (l ∷ r ∷ rest) levels
  unfolding levels_from
  grown_lem fuel l r rest levels e =
      let (next, hn, e1) = >>=-eq-some (next_level hash (l ∷ r ∷ rest)) _ e in
      let (all, ha, e2) = >>=-eq-some (levels_from hash fuel next) _ e1 in
      let (above, split) = some_levels fuel next all ha in
      record {
        next = next;
        above = above;
        joined = hn;
        grown = ha ∙ ap some split;
        same = sym (some-injective _ _ e2) ∙ ap (λ k. (l ∷ r ∷ rest) ∷ k) split;
      }

  -- What the proof of a leaf is.
  pub record Proved (levels : List (List A)) (i : ℕ) (leaf : A) : Type 0 where
    pub siblings : List A
    pub bits : List ℕ
    pub root : A
    pub found : proof_from levels i ≡ some (siblings, bits)
    pub rooted : merkle_root levels ≡ some root
    pub climbs : path_root hash leaf siblings bits ≡ some root
    pub depth : length levels ≡ suc (length siblings)
    pub binary : All IsBit bits
    pub spelled : place bits ≡ i

  proved :
      (fuel : ℕ) (level : List A) (levels : List (List A)) (i : ℕ) (leaf : A)
      → levels_from hash fuel level ≡ some levels
      → get_elem? level i ≡ some leaf
      → Proved levels i leaf
  unfolding levels_from proof_from path_root
  proved zero level levels i leaf e h = cc
  proved (suc fuel) [] levels i leaf e h = cc
  proved (suc fuel) (x ∷ []) levels (suc i) leaf e h = cc
  proved (suc fuel) (x ∷ []) levels zero leaf e h =
      subst (λ k. Proved k 0 leaf) (some-injective _ _ e)
        (record {
          siblings = [];
          bits = [];
          root = leaf;
          found = refl;
          rooted = h;
          climbs = refl;
          depth = refl;
          binary = tt;
          spelled = refl;
        })
  proved (suc fuel) (l ∷ r ∷ rest) levels i leaf e h =
      let g = grown_lem fuel l r rest levels e in
      let up = node_above (l ∷ r ∷ rest) g.next i leaf g.joined h in
      let above = proved fuel g.next (g.next ∷ g.above) (i / 2) up.parent g.grown up.above in
      subst (λ k. Proved k i leaf) (sym g.same)
        (record {
          siblings = up.sibling ∷ above.siblings;
          bits = (i % 2) ∷ above.bits;
          root = above.root;
          found = >>=_of _ up.beside (>>=_of _ above.found refl);
          rooted = above.rooted;
          climbs = >>=_of _ up.hashed above.climbs;
          depth = ap suc above.depth;
          binary = (omega arith, above.binary);
          spelled = omega (arith, above.spelled);
        })

  -- A tree that is built has its leaves as the first level.
  pub built_lem :
      (leaves : List A) (levels : List (List A))
      → build_merkle_tree hash leaves ≡ some levels
      → (levels_from hash (length leaves) leaves ≡ some levels)
        × ((above : List (List A)) × (levels ≡ leaves ∷ above))
        × (is_refused (length leaves) ≡ false)
  unfolding build_merkle_tree
  built_lem leaves levels e = elim (Bool-cases (is_refused (length leaves))) [
    | inl refused ↦ absurd (none_some (sym (rw refused refl) ∙ e))
    | inr accepted ↦
        let built : levels_from hash (length leaves) leaves ≡ some levels =
          sym (rw accepted refl) ∙ e in
        (built, some_levels (length leaves) leaves levels built, accepted)
  ]
    where
      none_some : none ≡ some levels → ⊥
      none_some h = cc

-- The tree of some leaves: for a leaf at an index, `merkle_proof` finds as many siblings as the tree
-- has levels above the leaves, with binary path indices that spell the index, and hashing the leaf
-- with them gives the root.
pub merkle_proof-path_root :
    {A : Type 0} (hash : List A → Option A) (leaves : List A) (levels : List (List A))
    → build_merkle_tree hash leaves ≡ some levels
    → (i : ℕ) (leaf : A) → get_elem? leaves i ≡ some leaf
    → (siblings : List A) × (bits : List ℕ) × (root : A) × (merkle_proof levels i
        ≡ some (siblings, bits))
      × (merkle_root levels ≡ some root)
      × (path_root hash leaf siblings bits ≡ some root)
      × (length levels ≡ suc (length siblings))
      × All IsBit bits
      × (place bits ≡ i)
unfolding merkle_proof
merkle_proof-path_root hash leaves levels e i leaf h =
    let (built, (above, split), accepted) = built_lem hash leaves levels e in
    let of_leaf = proved hash (length leaves) leaves levels i leaf built h in
    let found : merkle_proof levels i ≡ proof_from levels i =
      ap (λ k. merkle_proof k i) split
      ∙ rw (lt→ltb i (length leaves) (lt-length leaves i leaf h))
          (ap (λ k. proof_from k i) (sym split)) in
    (
      of_leaf.siblings,
      of_leaf.bits,
      of_leaf.root,
      found ∙ of_leaf.found,
      of_leaf.rooted,
      of_leaf.climbs,
      of_leaf.depth,
      of_leaf.binary,
      of_leaf.spelled,
    )
