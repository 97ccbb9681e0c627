-- ===== src/Protocol/Values.antt =====
-- crates/protocol/src/values.rs: the field-valued protocol types and the matcher fee.
pub mod Wire
mod Runs
use zwa_protocol.Prelude.{ℕ, List, ◌≡◌, ◌↔◌, Bool, true, Eq, ◌==◌, arith}
use zwa_protocol.Protocol.Error.{Result, map_ok}
use zwa_protocol.Protocol.Field.{
  FieldElement, field_beq_iff, field_eq, from_decimal_str, from_be_bytes, to_decimal_string,
}
use zwa_protocol.Protocol.Numbers.{ZatoshiAmount}

-- The types that `field_newtype!` makes, and `SubjectSecret`: one wrapper, kept apart by its kind.
pub data FieldKind : Type 0 where
  asset_commitment subject_secret subject_commitment receiver_commitment : FieldKind
  recipient_commitment fee_commitment trade_part_a trade_part_b trade_meta : FieldKind
  trade_commitment policy_root authorized_issuance_root active_credential_root : FieldKind

-- The types that implement `Display`: all but `SubjectSecret`, which is written out by hand so that
-- its value is not printed.
abbrev pub HasDisplay : FieldKind → Type 0
HasDisplay subject_secret = ⊥
HasDisplay _ = Unit {0}

pub record FieldNewtype (kind : FieldKind) : Type 0 where
  pub value : FieldElement

-- The derived `PartialEq`.
module _ {kind : FieldKind} where
  unfoldable pub newtype_beq : FieldNewtype kind → FieldNewtype kind → Bool
  newtype_beq a b = a.value == b.value

  pub newtype_beq_iff : (a b : FieldNewtype kind) → (newtype_beq a b ≡ true) ↔ (a ≡ b)
  unfolding newtype_beq
  newtype_beq_iff a b = (
    λ h. cc ((field_beq_iff a.value b.value).0 h),
    λ h. ground (arith, field_beq_iff a.value b.value),
  )

-- The constructors and the encoding that `field_newtype!` gives each of its types, and
-- `SubjectSecret` by hand.
module _ {kind : FieldKind} where
  unfoldable pub newtype_from_decimal_str : List ℕ → Result (FieldNewtype kind)
  unfolding from_decimal_str
  newtype_from_decimal_str text = map_ok (λ v. record { value = v }) (from_decimal_str text)

  unfoldable pub newtype_from_be_bytes : List ℕ → Result (FieldNewtype kind)
  unfolding from_be_bytes
  newtype_from_be_bytes bytes = map_ok (λ v. record { value = v }) (from_be_bytes bytes)

  abbrev pub newtype_to_be_bytes : FieldNewtype kind → List ℕ
  newtype_to_be_bytes self = self.value.to_be_bytes

  -- `Display`, for a type that implements it.
  unfoldable pub newtype_display : HasDisplay kind → FieldNewtype kind → List ℕ
  unfolding to_decimal_string
  newtype_display _ self = to_decimal_string self.value

instance abbrev pub newtype_eq : {kind : FieldKind} → Eq (FieldNewtype kind)
newtype_eq = record { beq = newtype_beq; beq_iff = newtype_beq_iff }

abbrev pub AssetCommitment : Type 0
AssetCommitment = FieldNewtype asset_commitment

abbrev pub SubjectSecret : Type 0
SubjectSecret = FieldNewtype subject_secret

abbrev pub SubjectCommitment : Type 0
SubjectCommitment = FieldNewtype subject_commitment

abbrev pub ReceiverCommitment : Type 0
ReceiverCommitment = FieldNewtype receiver_commitment

abbrev pub RecipientCommitment : Type 0
RecipientCommitment = FieldNewtype recipient_commitment

abbrev pub FeeCommitment : Type 0
FeeCommitment = FieldNewtype fee_commitment

abbrev pub TradePartA : Type 0
TradePartA = FieldNewtype trade_part_a

abbrev pub TradePartB : Type 0
TradePartB = FieldNewtype trade_part_b

abbrev pub TradeMeta : Type 0
TradeMeta = FieldNewtype trade_meta

abbrev pub TradeCommitment : Type 0
TradeCommitment = FieldNewtype trade_commitment

abbrev pub PolicyRoot : Type 0
PolicyRoot = FieldNewtype policy_root

abbrev pub AuthorizedIssuanceRoot : Type 0
AuthorizedIssuanceRoot = FieldNewtype authorized_issuance_root

abbrev pub ActiveCredentialRoot : Type 0
ActiveCredentialRoot = FieldNewtype active_credential_root

pub record MatcherFee : Type 0 where
  pub amount : ZatoshiAmount
  pub recipient_commitment : RecipientCommitment
