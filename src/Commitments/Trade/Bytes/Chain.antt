-- ===== src/Commitments/Trade/Bytes/Chain.antt =====
-- The chain of hashes of `canonical_bytes_commitment` in crates/commitments/src/trade.rs: its inputs
-- and its end.
use zwa_protocol.Prelude.{
  ℕ, ◌+◌, ◌%◌, ◌^◌, ◌≡◌, ◌≢◌, ◌≤◌, ◌<◌, refl, sym, ap, ◌∙◌, none, some, List, [], ◌∷◌, arith,
  length, subst,
}
use mathlib.Core.List.{Memᴰ}
use zwa_protocol.Protocol.Field.{FieldElement, field_zero, from_u64, from_u128}
use zwa_protocol.Protocol.Field.Canonical.{from_u64-injective}
use zwa_protocol.Commitments.AssetBase.{little_endian_u128}
use zwa_protocol.Commitments.Domain.{Domain, as_field}
use zwa_protocol.Commitments.Poseidon.{LightPoseidon, IsCircom, hash, hash_total, Collides}
use zwa_protocol.Commitments.Trade

-- What starts the chain, and what absorbs one chunk.
abbrev pub start : Domain → List ℕ → List FieldElement
start domain bytes =
    as_field domain
    ∷ from_u64 (length bytes % 2 ^ 64)
    ∷ from_u64 (length (Trade.chunks (length bytes) bytes) % 2 ^ 64)
    ∷ []

abbrev pub absorbing : FieldElement → ℕ → List ℕ → List FieldElement
absorbing state index chunk =
    state ∷ from_u128 (little_endian_u128 chunk) ∷ from_u64 (index % 2 ^ 64) ∷ []

-- An input of the first list collides with one of the second.
pub record CollidesAmong (p : LightPoseidon) (xss yss : List (List FieldElement)) : Type 0 where
  pub xs : List FieldElement
  pub ys : List FieldElement
  pub first : Memᴰ xs xss
  pub second : Memᴰ ys yss
  pub collision : Collides p xs ys

module _ (p : LightPoseidon) where
  -- The chain's next state.
  abbrev pub output : List FieldElement → FieldElement
  output inputs = elim (hash p inputs) [ none ↦ field_zero | some h ↦ h ]

  -- The inputs that a chain hashes from `inputs` on.
  abbrev pub absorbed : List FieldElement → ℕ → List (List ℕ) → List (List FieldElement)
  absorbed inputs index [] = inputs ∷ []
  absorbed inputs index (chunk ∷ rest) =
      inputs ∷ absorbed (absorbing (output inputs) index chunk) (index + 1) rest

  -- All that the commitment to bytes hashes.
  abbrev pub bytes_hashed : Domain → List ℕ → List (List FieldElement)
  bytes_hashed domain bytes = absorbed (start domain bytes) 0 (Trade.chunks (length bytes) bytes)

  pub output_lem :
      (inputs : List FieldElement) {s : FieldElement} → hash p inputs ≡ some s → output inputs ≡ s
  output_lem inputs e = ap (λ t. elim t [ none ↦ field_zero | some h ↦ h ]) e

  pub absorb_step :
      (state : FieldElement) (index : ℕ) (chunk : List ℕ) (rest : List (List ℕ))
      {next : FieldElement}
      → hash p (absorbing state index chunk) ≡ some next
      → Trade.absorb p state index (chunk ∷ rest) ≡ Trade.absorb p next (index + 1) rest
  unfolding Trade.absorb
  absorb_step state index chunk rest e = rw e refl

  -- What a chain hashes last.
  record Last (inputs : List FieldElement) (index : ℕ) (parts : List (List ℕ)) (end : FieldElement)
      : Type 0 where
    pub state : FieldElement
    pub number : FieldElement
    pub position : ℕ
    pub late : index ≤ position
    pub early : position < index + length parts
    pub reached :
        Memᴰ (state ∷ number ∷ from_u64 (position % 2 ^ 64) ∷ []) (absorbed inputs index parts)
    pub hashed : hash p (state ∷ number ∷ from_u64 (position % 2 ^ 64) ∷ []) ≡ some end

  last :
      IsCircom p
      → (inputs : List FieldElement) (s : FieldElement) (index : ℕ) (chunk : List ℕ)
        (rest : List (List ℕ)) (end : FieldElement)
      → hash p inputs ≡ some s
      → Trade.absorb p s index (chunk ∷ rest) ≡ some end
      → Last inputs index (chunk ∷ rest) end
  unfolding Trade.absorb
  last c inputs s index chunk [] end h e =
      let (n, hn, _) = hash_total p c (absorbing s index chunk) (omega arith) (omega arith) in
      let same : absorbing (output inputs) index chunk ≡ absorbing s index chunk =
        ap (λ t. absorbing t index chunk) (output_lem inputs h) in
      record {
        state = s;
        number = from_u128 (little_endian_u128 chunk);
        position = index;
        late = omega arith;
        early = omega arith;
        reached = Memᴰ.tail (Memᴰ.head (sym same));
        hashed = hn ∙ sym (absorb_step s index chunk [] hn) ∙ e;
      }
  last c inputs s index chunk (chunk' ∷ rest) end h e =
      let (n, hn, _) = hash_total p c (absorbing s index chunk) (omega arith) (omega arith) in
      let same : absorbing s index chunk ≡ absorbing (output inputs) index chunk =
        ap (λ t. absorbing t index chunk) (sym (output_lem inputs h)) in
      let l =
        last c (absorbing s index chunk) n (index + 1) chunk' rest end hn
          (sym (absorb_step s index chunk (chunk' ∷ rest) hn) ∙ e) in
      record {
        state = l.state;
        number = l.number;
        position = l.position;
        late = omega (arith, l.late);
        early = omega (arith, l.early);
        reached = Memᴰ.tail (
            subst
              (λ t.
                Memᴰ (l.state ∷ l.number ∷ from_u64 (l.position % 2 ^ 64) ∷ [])
                  (absorbed t (index + 1) (chunk' ∷ rest)))
              same l.reached);
        hashed = l.hashed;
      }

  -- A chain that has ended, and one that goes on to the same end.
  pub ended :
      IsCircom p
      → (before after t : FieldElement) (index : ℕ) (chunk chunk' next : List ℕ)
        (rest : List (List ℕ)) (end : FieldElement)
      → index + 1 + length (next ∷ rest) < 2 ^ 64
      → hash p (absorbing before index chunk) ≡ some end
      → hash p (absorbing after index chunk') ≡ some t
      → Trade.absorb p t (index + 1) (next ∷ rest) ≡ some end
      → (xs : List FieldElement) × Memᴰ xs
          (absorbed (absorbing after index chunk') (index + 1) (next ∷ rest))
        × Collides p (absorbing before index chunk) xs
  ended c before after t index chunk chunk' next rest end bound h h' e =
      let l = last c (absorbing after index chunk') t (index + 1) next rest end h' e in
      let apart : absorbing before index chunk
          ≢ (l.state ∷ l.number ∷ from_u64 (l.position % 2 ^ 64) ∷ []) =
        λ same.
          let place : from_u64 (index % 2 ^ 64) ≡ from_u64 (l.position % 2 ^ 64) = cc in
          let equal : index % 2 ^ 64 ≡ l.position % 2 ^ 64 =
            from_u64-injective _ _ (omega arith) (omega arith) place in
          absurd (omega (arith, l.late, l.early)) in
      (_, l.reached, (apart, h ∙ sym l.hashed))

  pub collides_later :
      {u w : List FieldElement} {xss yss : List (List FieldElement)}
      → CollidesAmong p xss yss
      → CollidesAmong p (u ∷ xss) (w ∷ yss)
  collides_later k = record {
    xs = k.xs;
    ys = k.ys;
    first = Memᴰ.tail k.first;
    second = Memᴰ.tail k.second;
    collision = k.collision;
  }

  pub absorbed_first :
      (inputs : List FieldElement) (index : ℕ) (parts : List (List ℕ))
      → Memᴰ inputs (absorbed inputs index parts)
  absorbed_first inputs index [] = Memᴰ.head refl
  absorbed_first inputs index (chunk ∷ rest) = Memᴰ.head refl
