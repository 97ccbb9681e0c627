-- ===== src/Circuits/Shared/MerkleTree/Total.antt =====
-- Which numbers of leaves `buildMerkleTree` of circuits/shared/trade-commitment-v1.js takes, and how
-- many levels it makes of them.
use zwa_protocol.Prelude.{
  ℕ, zero, suc, ◌-◌, ◌*◌, ◌^◌, ◌≡◌, ◌≤◌, ◌<◌, ◌↔◌, refl, ap, ◌∙◌, Option, some, List, [], ◌∷◌,
  >>=_of, arith, length, false, nat_eq,
}
use Prim.Native.Nat.{bit_and}
use mathlib.Core.Option.{some-injective}
use native.Mathlib.Nat.{pow-suc}
use zwa_protocol.Prelude.Words.Parity.{and-power}
use zwa_protocol.Circuits.Shared.MerkleTree.{next_level, levels_from, build_merkle_tree, is_refused}
use zwa_protocol.Circuits.Shared.MerkleTree.Levels.{joined_lem, grown_lem, built_lem}

above_exponent : (d : ℕ) → d < 2 ^ d
above_exponent zero = omega arith
above_exponent (suc d) = omega (arith, above_exponent d, pow-suc 2 d)

accepts-power : (d n : ℕ) → n ≡ 2 ^ d → is_refused n ≡ false
accepts-power d n e =
    let cleared : bit_and n (n - 1) ≡ 0 = ap (λ k. bit_and k (k - 1)) e ∙ and-power d in
    let some_leaf : 0 < n = omega (arith, above_exponent d) in ground (arith, cleared)

module _ {A : Type 0} (hash : List A → Option A) where
  halved :
      (level next : List A) → next_level hash level ≡ some next → length level ≡ 2 * length next
  unfolding next_level
  halved [] next e = ap (λ k. 2 * length k) (some-injective _ _ e)
  halved (x ∷ []) next e = cc
  halved (l ∷ r ∷ rest) next e =
      let k = joined_lem hash l r rest next e in
      omega (arith, ap length k.same, halved rest k.nodes k.joined)

  power_of :
      (fuel : ℕ) (level : List A) (levels : List (List A)) (d : ℕ)
      → levels_from hash fuel level ≡ some levels
      → 1 ≤ length level
      → length levels ≡ suc d
      → length level ≡ 2 ^ d
  unfolding levels_from
  power_of zero level levels d e low h = cc
  power_of (suc fuel) [] levels d e low h = absurd (omega arith)
  power_of (suc fuel) (x ∷ []) levels zero e low h = refl
  power_of (suc fuel) (x ∷ []) levels (suc d) e low h =
      absurd (omega (arith, ap length (some-injective _ _ e)))
  power_of (suc fuel) (l ∷ r ∷ rest) levels zero e low h =
      let g = grown_lem hash fuel l r rest levels e in absurd (omega (arith, ap length g.same))
  power_of (suc fuel) (l ∷ r ∷ rest) levels (suc d) e low h =
      let g = grown_lem hash fuel l r rest levels e in
      let half : length (l ∷ r ∷ rest) ≡ 2 * length g.next =
        halved (l ∷ r ∷ rest) g.next g.joined in
      let power : length g.next ≡ 2 ^ d =
        power_of fuel g.next (g.next ∷ g.above) d g.grown (omega (arith, half))
          (omega (arith, ap length g.same)) in
      omega (arith, half, power, pow-suc 2 d)

  module _ (total : (l r : A) → (node : A) × (hash (l ∷ r ∷ []) ≡ some node)) where
    next_of :
        (n : ℕ) (level : List A)
        → length level ≡ 2 * n
        → (next : List A) × (next_level hash level ≡ some next) × (length next ≡ n)
    unfolding next_level
    next_of zero [] h = ([], refl, refl)
    next_of zero (x ∷ level) h = absurd (omega arith)
    next_of (suc n) [] h = absurd (omega arith)
    next_of (suc n) (x ∷ []) h = absurd (omega arith)
    next_of (suc n) (l ∷ r ∷ rest) h =
        let (node, hn) = total l r in
        let (next, he, count) = next_of n rest (omega arith) in
        (node ∷ next, >>=_of _ hn (>>=_of _ he refl), ap suc count)

    levels_of :
        (d fuel : ℕ) (level : List A)
        → d < fuel
        → length level ≡ 2 ^ d
        → (levels : List (List A)) × (levels_from hash fuel level ≡ some levels)
          × (length levels ≡ suc d)
    unfolding levels_from
    levels_of d zero level low h = absurd (omega arith)
    levels_of zero (suc fuel) [] low h = absurd (omega arith)
    levels_of zero (suc fuel) (x ∷ []) low h = ((x ∷ []) ∷ [], refl, refl)
    levels_of zero (suc fuel) (l ∷ r ∷ rest) low h = absurd (omega arith)
    levels_of (suc d) (suc fuel) [] low h = absurd (omega (arith, pow-suc 2 d, above_exponent d))
    levels_of (suc d) (suc fuel) (x ∷ []) low h =
        absurd (omega (arith, pow-suc 2 d, above_exponent d))
    levels_of (suc d) (suc fuel) (l ∷ r ∷ rest) low h =
        let (next, hn, count) = next_of (2 ^ d) (l ∷ r ∷ rest) (omega (arith, pow-suc 2 d)) in
        let (above, ha, levels) = levels_of d fuel next (omega arith) count in
        ((l ∷ r ∷ rest) ∷ above, >>=_of _ hn (>>=_of _ ha refl), ap suc levels)

-- Where `hash` never throws for two nodes: a tree of d + 1 levels is built of the leaves exactly if
-- there are 2 ^ d of them.
pub build_merkle_tree_iff :
    {A : Type 0} (hash : List A → Option A)
    → ((l r : A) → (node : A) × (hash (l ∷ r ∷ []) ≡ some node))
    → (leaves : List A) (d : ℕ)
    → ((levels : List (List A)) × (build_merkle_tree hash leaves ≡ some levels)
        × (length levels ≡ suc d))
      ↔ (length leaves ≡ 2 ^ d)
unfolding build_merkle_tree
build_merkle_tree_iff hash total leaves d = (
  λ (levels, e, count).
      let (built, shape, accepted) = built_lem hash leaves levels e in
      power_of hash (length leaves) leaves levels d built (nonempty (length leaves) accepted) count,
  λ power.
      let (levels, e, count) =
        levels_of hash total d (length leaves) leaves (omega (arith, above_exponent d)) power in
      (levels, rw (accepts-power d (length leaves) power) e, count),
)
  where
    nonempty : (n : ℕ) → is_refused n ≡ false → 1 ≤ n
    nonempty zero h = cc
    nonempty (suc n) h = omega arith
