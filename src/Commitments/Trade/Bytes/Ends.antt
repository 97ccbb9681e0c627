-- ===== src/Commitments/Trade/Bytes/Ends.antt =====
-- Chains of `canonical_bytes_commitment` in crates/commitments/src/trade.rs that reach one end.
use zwa_protocol.Prelude.{
  ℕ, ◌+◌, ◌^◌, ◌≡◌, ◌<◌, ◌⊎◌, inl, inr, refl, sym, ap, ap₂, ◌∙◌, some, List, [], ◌∷◌, arith, length,
  All, subst,
}
use mathlib.Core.Option.{some-injective}
use zwa_protocol.Prelude.Words.{IsU128}
use zwa_protocol.Protocol.Field.{FieldElement}
use zwa_protocol.Protocol.Field.Canonical.{from_u128-injective}
use zwa_protocol.Commitments.AssetBase.{little_endian_u128}
use zwa_protocol.Commitments.Poseidon.{LightPoseidon, IsCircom, hash, hash_total, same_or_Collides}
use zwa_protocol.Commitments.Trade
use zwa_protocol.Commitments.Trade.Bytes.Chunks.{numbers}
use zwa_protocol.Commitments.Trade.Bytes.Chain.{
  absorbing, CollidesAmong, output, absorbed, output_lem, absorb_step, ended, collides_later,
  absorbed_first,
}

module _ (p : LightPoseidon) where
  absorbing_injective :
      (s t : FieldElement) (index : ℕ) (x y : List ℕ)
      → IsU128 (little_endian_u128 x)
      → IsU128 (little_endian_u128 y)
      → absorbing s index x ≡ absorbing t index y
      → (s ≡ t) × (little_endian_u128 x ≡ little_endian_u128 y)
  absorbing_injective s t index x y hx hy e = (cc, from_u128-injective _ _ hx hy (cc))

  -- The step before: equal states come from equal steps, or two steps collide.
  link :
      (s t n m : FieldElement) (index : ℕ) (x y : List ℕ) (xs ys : List (List ℕ))
      → All (λ c. IsU128 (little_endian_u128 c)) (x ∷ xs)
      → All (λ c. IsU128 (little_endian_u128 c)) (y ∷ ys)
      → hash p (absorbing s index x) ≡ some n
      → hash p (absorbing t index y) ≡ some m
      → n ≡ m
      → numbers xs ≡ numbers ys
      → ((s ≡ t) × (numbers (x ∷ xs) ≡ numbers (y ∷ ys)))
        ⊎ CollidesAmong p
            (absorbed p (absorbing s index x) (index + 1) xs)
            (absorbed p (absorbing t index y) (index + 1) ys)
  link s t n m index x y xs ys hx hy hs ht e rest =
      elim (same_or_Collides p _ _ hs (ht ∙ ap some (sym e))) [
        | inl same ↦
            let (state, first) = absorbing_injective s t index x y hx.0 hy.0 same in
            inl (state, ap₂ (λ k ks. k ∷ ks) first rest)
        | inr k ↦ inr (record {
          xs = absorbing s index x;
          ys = absorbing t index y;
          first = absorbed_first p _ (index + 1) xs;
          second = absorbed_first p _ (index + 1) ys;
          collision = k;
        })
      ]

  -- Two chains that absorb at one index and reach one end come from one state and absorb the same
  -- numbers.
  chain :
      IsCircom p
      → (s t n m : FieldElement) (index : ℕ) (x y : List ℕ) (xs ys : List (List ℕ))
        (end : FieldElement)
      → index + 1 + length xs < 2 ^ 64
      → index + 1 + length ys < 2 ^ 64
      → All (λ c. IsU128 (little_endian_u128 c)) (x ∷ xs)
      → All (λ c. IsU128 (little_endian_u128 c)) (y ∷ ys)
      → hash p (absorbing s index x) ≡ some n
      → hash p (absorbing t index y) ≡ some m
      → Trade.absorb p n (index + 1) xs ≡ some end
      → Trade.absorb p m (index + 1) ys ≡ some end
      → ((s ≡ t) × (numbers (x ∷ xs) ≡ numbers (y ∷ ys)))
        ⊎ CollidesAmong p
            (absorbed p (absorbing s index x) (index + 1) xs)
            (absorbed p (absorbing t index y) (index + 1) ys)
  unfolding Trade.absorb
  chain c s t n m index x y [] [] end bx by hx hy hs ht es et =
      link s t n m index x y [] [] hx hy hs ht (some-injective _ _ (es ∙ sym et)) refl
  chain c s t n m index x y [] (y' ∷ ys) end bx by hx hy hs ht es et =
      let (zs, there, k) = ended p c s t m index x y y' ys end by (hs ∙ es) ht et in
      inr (record {
        xs = absorbing s index x;
        ys = zs;
        first = absorbed_first p _ (index + 1) [];
        second = there;
        collision = k;
      })
  chain c s t n m index x y (x' ∷ xs) [] end bx by hx hy hs ht es et =
      let (zs, there, k) = ended p c t s n index y x x' xs end bx (ht ∙ et) hs es in
      inr (record {
        xs = zs;
        ys = absorbing t index y;
        first = there;
        second = absorbed_first p _ (index + 1) [];
        collision = (λ e. k.0 (sym e), sym k.1);
      })
  chain c s t n m index x y (x' ∷ xs) (y' ∷ ys) end bx by hx hy hs ht es et =
      let (n', hn, _) = hash_total p c (absorbing n (index + 1) x') (omega arith) (omega arith) in
      let (m', hm, _) = hash_total p c (absorbing m (index + 1) y') (omega arith) (omega arith) in
      elim (chain c n m n' m' (index + 1) x' y' xs ys end (omega arith) (omega arith) hx.1 hy.1 hn
        hm (sym (absorb_step p n (index + 1) x' xs hn) ∙ es)
        (sym (absorb_step p m (index + 1) y' ys hm) ∙ et)) [
          | inl (state, rest) ↦ link s t n m index x y (x' ∷ xs) (y' ∷ ys) hx hy hs ht state rest
          | inr k ↦ inr (later k (sym (output_lem p _ hs)) (sym (output_lem p _ ht)))
        ]
    where
      later :
          CollidesAmong p
            (absorbed p (absorbing n (index + 1) x') (index + 1 + 1) xs)
            (absorbed p (absorbing m (index + 1) y') (index + 1 + 1) ys)
          → n ≡ output p (absorbing s index x)
          → m ≡ output p (absorbing t index y)
          → CollidesAmong p
              (absorbed p (absorbing s index x) (index + 1) (x' ∷ xs))
              (absorbed p (absorbing t index y) (index + 1) (y' ∷ ys))
      later k en em = collides_later p (
          subst
            (λ a. CollidesAmong p (absorbed p (absorbing a (index + 1) x') (index + 1 + 1) xs) (
              absorbed p (absorbing (output p (absorbing t index y)) (index + 1) y') (index + 1 + 1)
                ys))
            en
            (subst
              (λ a.
                CollidesAmong p (absorbed p (absorbing n (index + 1) x') (index + 1 + 1) xs)
                  (absorbed p (absorbing a (index + 1) y') (index + 1 + 1) ys))
              em k))

  -- The same of two chains from their first inputs on.
  pub from_start :
      IsCircom p
      → (u w : List FieldElement) (s t : FieldElement) (x y : List ℕ) (xs ys : List (List ℕ))
        (end : FieldElement)
      → 1 + length xs < 2 ^ 64
      → 1 + length ys < 2 ^ 64
      → All (λ c. IsU128 (little_endian_u128 c)) (x ∷ xs)
      → All (λ c. IsU128 (little_endian_u128 c)) (y ∷ ys)
      → hash p u ≡ some s
      → hash p w ≡ some t
      → Trade.absorb p s 0 (x ∷ xs) ≡ some end
      → Trade.absorb p t 0 (y ∷ ys) ≡ some end
      → ((u ≡ w) × (numbers (x ∷ xs) ≡ numbers (y ∷ ys)))
        ⊎ CollidesAmong p (absorbed p u 0 (x ∷ xs)) (absorbed p w 0 (y ∷ ys))
  from_start c u w s t x y xs ys end bx by hx hy hu hw es et =
      let (n, hn, _) = hash_total p c (absorbing s 0 x) (omega arith) (omega arith) in
      let (m, hm, _) = hash_total p c (absorbing t 0 y) (omega arith) (omega arith) in
      elim (chain c s t n m 0 x y xs ys end bx by hx hy hn hm (sym (absorb_step p s 0 x xs hn) ∙ es)
        (sym (absorb_step p t 0 y ys hm) ∙ et)) [
          | inl (state, same) ↦ elim (same_or_Collides p u w hu (hw ∙ ap some (sym state))) [
            | inl inputs ↦ inl (inputs, same)
            | inr k ↦ inr (record {
              xs = u;
              ys = w;
              first = absorbed_first p u 0 (x ∷ xs);
              second = absorbed_first p w 0 (y ∷ ys);
              collision = k;
            })
          ]
          | inr k ↦ inr (
              collides_later p (
                subst
                  (λ a.
                    CollidesAmong p (absorbed p (absorbing a 0 x) 1 xs)
                      (absorbed p (absorbing (output p w) 0 y) 1 ys))
                  (sym (output_lem p u hu))
                  (subst
                    (λ a.
                      CollidesAmong p (absorbed p (absorbing s 0 x) 1 xs)
                        (absorbed p (absorbing a 0 y) 1 ys))
                    (sym (output_lem p w hw)) k)))
        ]
