-- ===== src/Protocol/Values/Wire.antt =====
-- The encodings of the field-valued types of crates/protocol/src/values.rs.
use zwa_protocol.Prelude.{ℕ, ◌≡◌, ◌↔◌, sym, ap, ◌∙◌, List, arith, inl, inr, subst}
use zwa_protocol.Prelude.Words
use zwa_protocol.Prelude.Words.{IsBytes}
use zwa_protocol.Protocol.Error.{Result, ok, err, map_ok}
use zwa_protocol.Protocol.Field.{FieldElement, from_decimal_str, from_be_bytes}
use zwa_protocol.Protocol.Field.Canonical.{
  value, IsCanonical, value-injective, from_be_bytes-reduced,
}
use zwa_protocol.Protocol.Field.Decimal.{IsDecimal, decimal, from_decimal_str_cases}
use zwa_protocol.Protocol.Values.{
  FieldKind, FieldNewtype, newtype_from_decimal_str, newtype_from_be_bytes, newtype_to_be_bytes,
}

-- What wraps a result does not change it.
wrapped :
    {kind : FieldKind} (v : FieldNewtype kind) (r : Result FieldElement)
    → (◌≡◌ {A = Result (FieldNewtype kind)} (map_ok (λ e. record { value = e }) r) (ok v))
      ↔ (r ≡ ok v.value)
wrapped v (ok e) = (λ h. ground arith, λ h. ground arith)
wrapped v (err e) = (λ h. cc, λ h. cc)

from_be_bytes_iff :
    (bytes : List ℕ) (e : FieldElement)
    → IsBytes 32 bytes
    → (from_be_bytes bytes ≡ ok e) ↔ ((e.to_be_bytes ≡ bytes) × IsCanonical e)
from_be_bytes_iff bytes e h = elim (from_be_bytes-reduced bytes h) [
  | inl (below, r) ↦ (
    λ read.
        let same : record { to_be_bytes = bytes } ≡ e = cc in
        (
          ap (λ (t : FieldElement). t.to_be_bytes) (sym same),
          subst IsCanonical same (record { fixed = h; reduced = below }),
        ),
    λ c. r ∙ ap (λ t. ok (record { to_be_bytes = t })) (sym c.0),
  )
  | inr (above, r) ↦
      (λ read. cc, λ c. absurd (omega (arith, above, c.1.reduced, ap Words.from_be_bytes c.0)))
]

from_decimal_str_iff :
    (text : List ℕ) (e : FieldElement)
    → (from_decimal_str text ≡ ok e) ↔ (IsDecimal text × IsCanonical e × (value e ≡ decimal text))
from_decimal_str_iff text e = elim (from_decimal_str_cases text) [
  | inl (bad, r) ↦ (λ read. absurd (cc), λ c. absurd (bad c.0))
  | inr (inl (x, d, r, hx, same)) ↦ (
    λ read. let equal : x ≡ e = cc in (d, subst IsCanonical equal hx, ap value (sym equal) ∙ same),
    λ c. r ∙ ap ok (value-injective x e hx c.1 (same ∙ sym c.2)),
  )
  | inr (inr (inl (d, above, below, r))) ↦
      (λ read. absurd (cc), λ c. absurd (omega (arith, above, c.1.reduced, c.2)))
  | inr (inr (inr (d, over, r))) ↦
      (λ read. absurd (cc), λ c. absurd (omega (arith, over, c.1.reduced, c.2)))
]

-- 32 bytes are read as a value exactly if they are its encoding and the value is canonical, and a
-- text is read as a value exactly if it is a nonempty text of digits of the number of the value and
-- the value is canonical.
pub newtype_constructors_iff :
    {kind : FieldKind} (bytes text : List ℕ) (v : FieldNewtype kind)
    → IsBytes 32 bytes
    → ((newtype_from_be_bytes bytes ≡ ok v)
        ↔ ((newtype_to_be_bytes v ≡ bytes) × IsCanonical v.value))
      × ((newtype_from_decimal_str text ≡ ok v)
          ↔ (IsDecimal text × IsCanonical v.value × (value v.value ≡ decimal text)))
unfolding newtype_from_decimal_str newtype_from_be_bytes
newtype_constructors_iff bytes text v h =
    let bytes_wrapped = wrapped v (from_be_bytes bytes) in
    let text_wrapped = wrapped v (from_decimal_str text) in
    let read_bytes = from_be_bytes_iff bytes v.value h in
    let read_text = from_decimal_str_iff text v.value in
    (
      (λ e. read_bytes.0 (bytes_wrapped.0 e), λ c. bytes_wrapped.1 (read_bytes.1 c)),
      (λ e. read_text.0 (text_wrapped.0 e), λ c. text_wrapped.1 (read_text.1 c)),
    )
