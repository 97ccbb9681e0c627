-- ===== src/Circuits/Shared/MerkleTree/Binding.antt =====
-- What the root of a tree of circuits/shared/trade-commitment-v1.js binds: whatever leads to it, by as
-- many hashes as the tree has levels, is a leaf of the tree, or exhibits a collision of Poseidon.
use zwa_protocol.Prelude.{
  ℕ, zero, suc, ◌+◌, ◌*◌, ◌≡◌, ◌⊎◌, inl, inr, refl, sym, ap, ◌∙◌, subst, Option, none, some, List,
  [], ◌∷◌, ◌++◌, >>=-eq-some, arith, length, get_elem?, All,
}
use mathlib.Core.Option.{some-injective}
use mathlib.Core.List.{Memᴰ}
use zwa_protocol.Protocol.Field.{FieldElement}
use zwa_protocol.Commitments.Poseidon.{LightPoseidon, hash, Collides, same_or_Collides}
use zwa_protocol.Circuits.Shared.MerklePath.{ordered, path_root, path_inputs, IsBit, place}
use zwa_protocol.Circuits.Shared.MerkleTree.{
  next_level, levels_from, merkle_root, build_merkle_tree,
}
use zwa_protocol.Circuits.Shared.MerkleTree.Levels.{joined_lem, grown_lem, built_lem}

module _ {A : Type 0} where
  -- What is hashed to make the next level.
  abbrev pub pairs : List A → List (List A)
  pairs [] = []
  pairs (l ∷ []) = []
  pairs (l ∷ r ∷ rest) = (l ∷ r ∷ []) ∷ pairs rest

  -- What is hashed to make the levels above the leaves.
  abbrev pub tree_inputs : List (List A) → List (List A)
  tree_inputs [] = []
  tree_inputs (level ∷ []) = []
  tree_inputs (level ∷ above ∷ rest) = pairs level ++ tree_inputs (above ∷ rest)

  on_left : (x : A) (xs ys : List A) → Memᴰ x xs → Memᴰ x (xs ++ ys)
  on_left x [] ys m = elim m [ ]
  on_left x (y ∷ xs) ys (Memᴰ.head e) = Memᴰ.head e
  on_left x (y ∷ xs) ys (Memᴰ.tail m) = Memᴰ.tail (on_left x xs ys m)

  on_right : (x : A) (xs ys : List A) → Memᴰ x ys → Memᴰ x (xs ++ ys)
  on_right x [] ys m = m
  on_right x (y ∷ xs) ys m = Memᴰ.tail (on_right x xs ys m)

  -- The children of a node, and their place in the level.
  record Children (hash : List A → Option A) (level : List A) (j : ℕ) (node : A) : Type 0 where
    l : A
    r : A
    left : get_elem? level (2 * j) ≡ some l
    right : get_elem? level (suc (2 * j)) ≡ some r
    hashed : hash (l ∷ r ∷ []) ≡ some node
    paired : Memᴰ (l ∷ r ∷ []) (pairs level)

  node_below :
      (hash : List A → Option A) (level next : List A) (j : ℕ) (node : A)
      → next_level hash level ≡ some next
      → get_elem? next j ≡ some node
      → Children hash level j node
  unfolding next_level
  node_below hash [] next j node e h =
      let none_left : get_elem? {A = A} [] j ≡ some node =
        ap (λ k. get_elem? k j) (some-injective _ _ e) ∙ h in
      cc
  node_below hash (x ∷ []) next j node e h = cc
  node_below hash (l ∷ r ∷ rest) next zero node e h =
      let k = joined_lem hash l r rest next e in
      let same : k.node ≡ node = some-injective _ _ (ap (λ n. get_elem? n 0) (sym k.same) ∙ h) in
      record {
        l = l;
        r = r;
        left = refl;
        right = refl;
        hashed = k.hashed ∙ ap some same;
        paired = Memᴰ.head refl;
      }
  node_below hash (l ∷ r ∷ rest) next (suc j) node e h =
      let k = joined_lem hash l r rest next e in
      let below =
        node_below hash rest k.nodes j node k.joined
          (ap (λ n. get_elem? n (suc j)) (sym k.same) ∙ h) in
      let twice : 2 * suc j ≡ suc (suc (2 * j)) = omega arith in
      record {
        l = below.l;
        r = below.r;
        left = ap (get_elem? (l ∷ r ∷ rest)) twice ∙ below.left;
        right = ap (λ n. get_elem? (l ∷ r ∷ rest) (suc n)) twice ∙ below.right;
        hashed = below.hashed;
        paired = Memᴰ.tail below.paired;
      }

-- Something hashed on a path and something hashed in a tree collide.
pub record PathCollides (p : LightPoseidon) (levels : List (List FieldElement))
    (leaf : FieldElement) (siblings : List FieldElement) (bits : List ℕ) : Type 0 where
  pub climbed : List FieldElement
  pub built : List FieldElement
  pub on_path : Memᴰ climbed (path_inputs (hash p) leaf siblings bits)
  pub in_tree : Memᴰ built (tree_inputs levels)
  pub collides : Collides p climbed built

placed_leaf :
    (level : List FieldElement) (b j : ℕ) (l r leaf s : FieldElement)
    → IsBit b
    → ordered b leaf s ≡ (l ∷ r ∷ [])
    → get_elem? level (2 * j) ≡ some l
    → get_elem? level (suc (2 * j)) ≡ some r
    → get_elem? level (b + 2 * j) ≡ some leaf
placed_leaf level zero j l r leaf s h e hl hr =
    let same : leaf ≡ l = cc in ap (get_elem? level) (omega arith) ∙ hl ∙ ap some (sym same)
placed_leaf level (suc zero) j l r leaf s h e hl hr =
    let same : leaf ≡ r = cc in ap (get_elem? level) (omega arith) ∙ hr ∙ ap some (sym same)
placed_leaf level (suc (suc b)) j l r leaf s h e hl hr = absurd (omega arith)

module _ (p : LightPoseidon) where
  -- A collision above the leaves of a tree.
  raised :
      (level next : List FieldElement) (above : List (List FieldElement))
      (leaf s node : FieldElement) (siblings : List FieldElement) (b : ℕ) (bits : List ℕ)
      → hash p (ordered b leaf s) ≡ some node
      → PathCollides p (next ∷ above) node siblings bits
      → PathCollides p (level ∷ next ∷ above) leaf (s ∷ siblings) (b ∷ bits)
  unfolding path_inputs
  raised level next above leaf s node siblings b bits h c = record {
    climbed = c.climbed;
    built = c.built;
    on_path = Memᴰ.tail (rw h c.on_path);
    in_tree = on_right c.built (pairs level) (tree_inputs (next ∷ above)) c.in_tree;
    collides = c.collides;
  }

  bound :
      (fuel : ℕ) (level : List FieldElement) (levels : List (List FieldElement))
      (leaf root : FieldElement) (siblings : List FieldElement) (bits : List ℕ)
      → levels_from (hash p) fuel level ≡ some levels
      → merkle_root levels ≡ some root
      → path_root (hash p) leaf siblings bits ≡ some root
      → length levels ≡ suc (length siblings)
      → All IsBit bits
      → (get_elem? level (place bits) ≡ some leaf) ⊎ PathCollides p levels leaf siblings bits
  unfolding levels_from path_root path_inputs
  bound zero level levels leaf root siblings bits e er ep el hb = cc
  bound (suc fuel) [] levels leaf root siblings bits e er ep el hb =
      let nothing : ◌≡◌ {A = Option FieldElement} none (some root) =
        ap merkle_root (some-injective _ _ e) ∙ er in
      cc
  bound (suc fuel) (x ∷ []) levels leaf root [] [] e er ep el hb =
      inl (ap merkle_root (some-injective _ _ e) ∙ er ∙ sym ep)
  bound (suc fuel) (x ∷ []) levels leaf root [] (b ∷ bits) e er ep el hb = cc
  bound (suc fuel) (x ∷ []) levels leaf root (s ∷ siblings) bits e er ep el hb =
      absurd (omega (arith, ap length (some-injective _ _ e)))
  bound (suc fuel) (l ∷ r ∷ rest) levels leaf root [] bits e er ep el hb =
      let g = grown_lem (hash p) fuel l r rest levels e in absurd (omega (arith, ap length g.same))
  bound (suc fuel) (l ∷ r ∷ rest) levels leaf root (s ∷ siblings) [] e er ep el hb = cc
  bound (suc fuel) (l ∷ r ∷ rest) levels leaf root (s ∷ siblings) (b ∷ bits) e er ep el hb =
      let g = grown_lem (hash p) fuel l r rest levels e in
      let (node, hn, climbs) = >>=-eq-some (hash p (ordered b leaf s)) _ ep in
      let below : (get_elem? g.next (place bits) ≡ some node)
          ⊎ PathCollides p (g.next ∷ g.above) node siblings bits =
        bound fuel g.next (g.next ∷ g.above) node root siblings bits g.grown
          (ap merkle_root (sym g.same) ∙ er) climbs (omega (arith, ap length g.same)) hb.1 in
      subst
        (λ k.
          (get_elem? (l ∷ r ∷ rest) (place (b ∷ bits)) ≡ some leaf)
          ⊎ PathCollides p k leaf (s ∷ siblings) (b ∷ bits))
        (sym g.same)
        (elim below [
          | inr c ↦ inr (raised (l ∷ r ∷ rest) g.next g.above leaf s node siblings b bits hn c)
          | inl at ↦
              let c = node_below (hash p) (l ∷ r ∷ rest) g.next (place bits) node g.joined at in
              elim (same_or_Collides p (ordered b leaf s) (c.l ∷ c.r ∷ []) hn c.hashed) [
                | inl same ↦ inl (
                    placed_leaf (l ∷ r ∷ rest) b (place bits) c.l c.r leaf s hb.0 same c.left
                      c.right)
                | inr collision ↦ inr (record {
                  climbed = ordered b leaf s;
                  built = c.l ∷ c.r ∷ [];
                  on_path = Memᴰ.head refl;
                  in_tree =
                      on_left (c.l ∷ c.r ∷ []) (pairs (l ∷ r ∷ rest))
                        (tree_inputs (g.next ∷ g.above)) c.paired;
                  collides = collision;
                })
              ]
        ])

-- Where a value leads to the root of a tree, by binary path indices and as many siblings as the tree
-- has levels above the leaves, it is the leaf at the index that the path indices spell, or a pair
-- hashed on the path and another one hashed in the tree have the same hash.
pub merkle_root-binds :
    (p : LightPoseidon) (leaves : List FieldElement) (levels : List (List FieldElement))
    → build_merkle_tree (hash p) leaves ≡ some levels
    → (leaf root : FieldElement) (siblings : List FieldElement) (bits : List ℕ)
    → merkle_root levels ≡ some root
    → path_root (hash p) leaf siblings bits ≡ some root
    → length levels ≡ suc (length siblings)
    → All IsBit bits
    → (get_elem? leaves (place bits) ≡ some leaf) ⊎ PathCollides p levels leaf siblings bits
merkle_root-binds p leaves levels e leaf root siblings bits er ep el hb =
    bound p (length leaves) leaves levels leaf root siblings bits
      (built_lem (hash p) leaves levels e).0 er ep el hb
