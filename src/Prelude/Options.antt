-- ===== src/Prelude/Options.antt =====
-- Code that stops where a value is missing.
use mathlib.Core.Path.{◌≡◌, refl, sym, ap, ◌∙◌, subst}
use mathlib.Core.Option.{Option, none, some, some-injective}
use mathlib.Core.List.{List, [], ◌∷◌}
use Prim.Native.Nat.{ℕ, zero, suc}
use zwa_protocol.Prelude.Lists.{get_elem?, All}

infixl 5 ◌>>=◌
abbrev pub ◌>>=◌ : {A B : Type 0} → Option A → (A → Option B) → Option B
none >>= f = none
some a >>= f = f a

pub >>=-eq-some :
    {A B : Type 0} (o : Option A) (f : A → Option B) {b : B}
    → (o >>= f) ≡ some b
    → (a : A) × (o ≡ some a) × (f a ≡ some b)
>>=-eq-some none f h = cc
>>=-eq-some (some a) f h = (a, refl, h)

pub >>=_of :
    {A B : Type 0} {o : Option A} (f : A → Option B) {r : Option B} {a : A}
    → o ≡ some a
    → f a ≡ r
    → (o >>= f) ≡ r
>>=_of f h k = ap (λ x. x >>= f) h ∙ k

-- A step for each value of a list.
abbrev pub traverse : {A B : Type 0} → (A → Option B) → List A → Option (List B)
traverse f [] = some []
traverse f (x ∷ xs) = f x >>= λ y. traverse f xs >>= λ ys. some (y ∷ ys)

module _ {A B : Type 0} (f : A → Option B) where
  -- What stands at an index comes from the value there.
  pub traverse-get_elem? :
      (xs : List A) (ys : List B) (i : ℕ) (y : B)
      → traverse f xs ≡ some ys
      → get_elem? ys i ≡ some y
      → (x : A) × (get_elem? xs i ≡ some x) × (f x ≡ some y)
  traverse-get_elem? [] ys i y e h =
      let nothing : ◌≡◌ {A = Option B} none (some y) =
        ap (λ k. get_elem? k i) (some-injective _ _ e) ∙ h in
      cc
  traverse-get_elem? (x ∷ xs) ys zero y e h =
      let (z, hz, e1) = >>=-eq-some (f x) _ e in
      let (zs, hzs, e2) = >>=-eq-some (traverse f xs) _ e1 in
      (x, refl, hz ∙ ap (λ k. get_elem? k 0) (some-injective _ _ e2) ∙ h)
  traverse-get_elem? (x ∷ xs) ys (suc i) y e h =
      let (z, hz, e1) = >>=-eq-some (f x) _ e in
      let (zs, hzs, e2) = >>=-eq-some (traverse f xs) _ e1 in
      traverse-get_elem? xs zs i y hzs (ap (λ k. get_elem? k (suc i)) (some-injective _ _ e2) ∙ h)

  -- What a value of the list gives stands at its index.
  pub get_elem?-traverse :
      (xs : List A) (ys : List B) (i : ℕ) (x : A)
      → traverse f xs ≡ some ys
      → get_elem? xs i ≡ some x
      → (y : B) × (get_elem? ys i ≡ some y) × (f x ≡ some y)
  get_elem?-traverse [] ys i x e h = cc
  get_elem?-traverse (x' ∷ xs) ys zero x e h =
      let (z, hz, e1) = >>=-eq-some (f x') _ e in
      let (zs, hzs, e2) = >>=-eq-some (traverse f xs) _ e1 in
      (
        z,
        ap (λ k. get_elem? k 0) (sym (some-injective _ _ e2)),
        ap f (sym (some-injective _ _ h)) ∙ hz,
      )
  get_elem?-traverse (x' ∷ xs) ys (suc i) x e h =
      let (z, hz, e1) = >>=-eq-some (f x') _ e in
      let (zs, hzs, e2) = >>=-eq-some (traverse f xs) _ e1 in
      let (y, hy, k) = get_elem?-traverse xs zs i x hzs h in
      (y, ap (λ l. get_elem? l (suc i)) (sym (some-injective _ _ e2)) ∙ hy, k)

pub All-get_elem? :
    {A : Type 0} (P : A → Type 0) (xs : List A) (i : ℕ) (x : A)
    → All P xs
    → get_elem? xs i ≡ some x
    → P x
All-get_elem? P [] i x h e = cc
All-get_elem? P (y ∷ ys) zero x h e = subst P (some-injective _ _ e) h.0
All-get_elem? P (y ∷ ys) (suc i) x h e = All-get_elem? P ys i x h.1 e
