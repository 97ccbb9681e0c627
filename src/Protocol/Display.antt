-- ===== src/Protocol/Display.antt =====
-- The texts of `Display` in crates/protocol/src: error.rs, with the `#[error]` strings of
-- `ProtocolError`, lifecycle.rs and numbers.rs. A text is the list of its bytes.
pub mod Numbers
pub mod Words
mod Heads
mod Problems
pub mod Errors
mod Runs
use Prim.Native.Char.{code}
use Prim.Native.String.{String}
use zwa_protocol.Prelude.{
  ℕ, zero, suc, ◌+◌, ◌/◌, ◌%◌, List, [], ◌∷◌, ◌++◌, reverse, true, false, ◌==◌, nat_eq,
  if◌then◌else◌,
}
use zwa_protocol.Protocol.Lifecycle.{TradeLifecycleState, LifecycleEvent, FailureReason}
use zwa_protocol.Protocol.Numbers.{U64Kind, U64Newtype, TradeExpiry}
use zwa_protocol.Protocol.Error.{
  FieldEncodingProblem, LimbKind, CredentialCodeField, AmountField, TimestampProblem,
  RootEnvelopeProblem, ProofProblem, ProtocolError,
}

-- The bytes of an ASCII literal.
abbrev pub codes : String → List ℕ
codes String.[] = []
codes (String.◌∷◌ c s) = code c ∷ codes s

-- `Display` of an unsigned integer: its digits, one step for each.
unfoldable pub low_digits : ℕ → ℕ → List ℕ
low_digits zero n = []
low_digits (suc fuel) n = elim (n == 0) [
  | true ↦ []
  | false ↦ (48 + n % 10) ∷ low_digits fuel (n / 10)
]

unfoldable pub number_text : ℕ → List ℕ
unfolding low_digits
number_text n = if n == 0 then codes "0" else reverse (low_digits n n)

unfoldable pub u64_text : {kind : U64Kind} → U64Newtype kind → List ℕ
unfolding number_text
u64_text self = number_text self.get

unfoldable pub expiry_text : TradeExpiry → List ℕ
unfolding u64_text
expiry_text self = u64_text self.instant

abbrev pub state_text : TradeLifecycleState → List ℕ
state_text TradeLifecycleState.created = codes "CREATED"
state_text TradeLifecycleState.verified = codes "VERIFIED"
state_text TradeLifecycleState.settlement_constructed = codes "SETTLEMENT_CONSTRUCTED"
state_text TradeLifecycleState.submitted = codes "SUBMITTED"
state_text TradeLifecycleState.confirmed = codes "CONFIRMED"
state_text TradeLifecycleState.consumed = codes "CONSUMED"
state_text TradeLifecycleState.expired = codes "EXPIRED"
state_text TradeLifecycleState.failed = codes "FAILED"

abbrev pub event_text : LifecycleEvent → List ℕ
event_text LifecycleEvent.create = codes "CREATE"
event_text LifecycleEvent.verify = codes "VERIFY"
event_text LifecycleEvent.acquire_construction = codes "ACQUIRE_CONSTRUCTION"
event_text LifecycleEvent.submit = codes "SUBMIT"
event_text LifecycleEvent.confirm = codes "CONFIRM"
event_text LifecycleEvent.consume = codes "CONSUME"
event_text LifecycleEvent.fail = codes "FAIL"
event_text LifecycleEvent.expire = codes "EXPIRE"
event_text LifecycleEvent.retry = codes "RETRY"

abbrev pub failure_text : FailureReason → List ℕ
failure_text FailureReason.verification_rejected = codes "verification rejected"
failure_text FailureReason.construction_failed = codes "construction failed"
failure_text FailureReason.submission_failed = codes "submission failed"
failure_text FailureReason.confirmation_failed = codes "confirmation failed"

abbrev pub field_problem_text : FieldEncodingProblem → List ℕ
field_problem_text FieldEncodingProblem.wrong_length =
    codes "big-endian encoding must be exactly 32 bytes"
field_problem_text FieldEncodingProblem.not_reduced =
    codes "value is not reduced modulo the BN254 scalar field"
field_problem_text FieldEncodingProblem.not_decimal =
    codes "value is not a non-empty decimal string"
field_problem_text FieldEncodingProblem.decimal_overflow =
    codes "decimal value does not fit in 256 bits"

abbrev pub limb_text : LimbKind → List ℕ
limb_text LimbKind.asset_base_lo = codes "AssetBase lo"
limb_text LimbKind.asset_base_hi = codes "AssetBase hi"
limb_text LimbKind.receiver_limb0 = codes "receiver limb 0"
limb_text LimbKind.receiver_limb1 = codes "receiver limb 1"
limb_text LimbKind.receiver_limb2 = codes "receiver limb 2"

abbrev pub code_text : CredentialCodeField → List ℕ
code_text CredentialCodeField.investor_class = codes "investor class"
code_text CredentialCodeField.jurisdiction = codes "jurisdiction"

abbrev pub amount_text : AmountField → List ℕ
amount_text AmountField.offered_amount = codes "offered amount"
amount_text AmountField.requested_amount = codes "requested amount"
amount_text AmountField.matcher_fee = codes "matcher fee amount"

abbrev pub timestamp_text : TimestampProblem → List ℕ
timestamp_text TimestampProblem.window_inverted =
    codes "valid_from must be less than or equal to expires_at"
timestamp_text TimestampProblem.overflow = codes "Unix-second arithmetic overflowed"

unfoldable pub root_problem_text : RootEnvelopeProblem → List ℕ
unfolding number_text
root_problem_text RootEnvelopeProblem.missing_authority_identifier =
    codes "issuer or credential-authority identifier is required"
root_problem_text (RootEnvelopeProblem.identifier_too_long got max) =
    codes "authority identifier is "
    ++ (number_text got ++ (codes " bytes, max " ++ number_text max))
root_problem_text RootEnvelopeProblem.signature_missing =
    codes "signature material must be non-empty"
root_problem_text (RootEnvelopeProblem.signature_too_long got max) =
    codes "signature material is " ++ (number_text got ++ (codes " bytes, max " ++ number_text max))
root_problem_text (RootEnvelopeProblem.not_yet_valid valid_from now) =
    codes "envelope valid_from "
    ++ (number_text valid_from ++ (codes " is after verification time " ++ number_text now))
root_problem_text (RootEnvelopeProblem.expired expires_at now) =
    codes "envelope expired at "
    ++ (number_text expires_at ++ (codes " and cannot be used at " ++ number_text now))

unfoldable pub proof_problem_text : ProofProblem → List ℕ
unfolding number_text
proof_problem_text ProofProblem.empty = codes "proof bytes must be non-empty"
proof_problem_text (ProofProblem.too_large got max) =
    codes "proof is " ++ (number_text got ++ (codes " bytes, max " ++ number_text max))

unfoldable pub error_text : ProtocolError → List ℕ
unfolding number_text root_problem_text proof_problem_text
error_text (ProtocolError.invalid_asset_base got) =
    codes "AssetBase must be exactly 32 bytes, got " ++ number_text got
error_text (ProtocolError.invalid_receiver got) =
    codes "Orchard raw payment address must be exactly 43 bytes, got " ++ number_text got
error_text (ProtocolError.invalid_field_encoding reason) =
    codes "invalid canonical field encoding: " ++ field_problem_text reason
error_text (ProtocolError.limb_out_of_range limb bits) =
    limb_text limb
    ++ (codes " limb exceeds its " ++ (number_text bits ++ codes "-bit range constraint"))
error_text (ProtocolError.invalid_amount field) =
    amount_text field ++ codes " must be an unsigned 64-bit value"
error_text (ProtocolError.credential_code_out_of_range credential_code bits) =
    code_text credential_code
    ++ (codes " exceeds its " ++ (number_text bits ++ codes "-bit range constraint"))
error_text (ProtocolError.invalid_timestamp reason) =
    codes "invalid timestamp: " ++ timestamp_text reason
error_text (ProtocolError.expired_trade expiry now) =
    codes "trade expired at "
    ++ (number_text expiry ++ (codes " and cannot be used at " ++ number_text now))
error_text (ProtocolError.commitment_mismatch expected actual) =
    codes "commitment mismatch: expected " ++ (expected ++ (codes ", recomputed " ++ actual))
error_text (ProtocolError.unsupported_poseidon_arity arity) =
    codes "unsupported Poseidon arity " ++ number_text arity
error_text (ProtocolError.invalid_root_envelope reason) =
    codes "invalid root envelope: " ++ root_problem_text reason
error_text (ProtocolError.unsupported_version got) = codes "unsupported version " ++ number_text got
error_text (ProtocolError.invalid_proof reason) =
    codes "invalid proof encoding: " ++ proof_problem_text reason
error_text (ProtocolError.invalid_state_transition from attempted) =
    codes "illegal trade lifecycle transition from "
    ++ (state_text from ++ (codes " via " ++ event_text attempted))
error_text ProtocolError.already_consumed =
    codes "trade commitment is already consumed and cannot be used again"
error_text ProtocolError.unknown_trade =
    codes "no lifecycle record for the supplied trade commitment"
error_text ProtocolError.unreconciled_prior_submission =
    codes "retry requires acknowledging the prior settlement txid"
error_text (ProtocolError.retry_budget_exhausted attempts max) =
    codes "retry budget exhausted ("
    ++ (number_text attempts ++ (codes " of " ++ (number_text max ++ codes ")")))
