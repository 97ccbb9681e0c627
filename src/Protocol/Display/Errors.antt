-- ===== src/Protocol/Display/Errors.antt =====
-- The messages of crates/protocol/src/error.rs tell the errors apart, with all that they carry.
use zwa_protocol.Prelude.{
  ℕ, ◌≡◌, ◌≤◌, ◌↔◌, refl, sym, ap, ap₂, ◌∙◌, List, ◌∷◌, ◌++◌, arith, All, span-injective,
}
use zwa_protocol.Protocol.Error.{LimbKind, CredentialCodeField, AmountField, ProtocolError}
use zwa_protocol.Protocol.Field.Decimal.{IsDigit}
use zwa_protocol.Protocol.Display.{codes, number_text, state_text, error_text, limb_text, code_text}
use zwa_protocol.Protocol.Display.Numbers.{number_text-injective}
use zwa_protocol.Protocol.Display.Words.{
  state_text-injective, event_text-injective, field_problem_text-injective,
  timestamp_text-injective, state_text_letters,
}
use zwa_protocol.Protocol.Display.Problems.{
  after, below_digits, number_then, two_numbers, root_problem_text-injective,
  proof_problem_text-injective,
}
use zwa_protocol.Protocol.Display.Heads.{error_place-same, error_kind-same}

same_limb :
    (a b : LimbKind) (m n : ℕ)
    → error_text (ProtocolError.limb_out_of_range a m)
      ≡ error_text (ProtocolError.limb_out_of_range b n)
    → a ≡ b
same_limb LimbKind.asset_base_lo LimbKind.asset_base_lo m n e = refl
same_limb LimbKind.asset_base_hi LimbKind.asset_base_hi m n e = refl
same_limb LimbKind.receiver_limb0 LimbKind.receiver_limb0 m n e = refl
same_limb LimbKind.receiver_limb1 LimbKind.receiver_limb1 m n e = refl
same_limb LimbKind.receiver_limb2 LimbKind.receiver_limb2 m n e = refl
same_limb a b m n e =
    let places =
      error_place-same (ProtocolError.limb_out_of_range a m) (ProtocolError.limb_out_of_range b n)
        e in
    absurd (omega (arith, places))

same_code :
    (a b : CredentialCodeField) (m n : ℕ)
    → error_text (ProtocolError.credential_code_out_of_range a m)
      ≡ error_text (ProtocolError.credential_code_out_of_range b n)
    → a ≡ b
same_code CredentialCodeField.investor_class CredentialCodeField.investor_class m n e = refl
same_code CredentialCodeField.jurisdiction CredentialCodeField.jurisdiction m n e = refl
same_code a b m n e =
    let places =
      error_place-same (ProtocolError.credential_code_out_of_range a m)
        (ProtocolError.credential_code_out_of_range b n) e in
    absurd (omega (arith, places))

same_amount :
    (a b : AmountField)
    → error_text (ProtocolError.invalid_amount a) ≡ error_text (ProtocolError.invalid_amount b)
    → a ≡ b
same_amount AmountField.offered_amount AmountField.offered_amount e = refl
same_amount AmountField.requested_amount AmountField.requested_amount e = refl
same_amount AmountField.matcher_fee AmountField.matcher_fee e = refl
same_amount a b e =
    let places =
      error_place-same (ProtocolError.invalid_amount a) (ProtocolError.invalid_amount b) e in
    absurd (omega (arith, places))

-- A word, a literal, a number of bits and the rest.
same_bits :
    (word word' literal rest : List ℕ) (m n : ℕ)
    → word ≡ word'
    → word ++ (literal ++ (number_text m ++ (b'-' ∷ rest)))
      ≡ word' ++ (literal ++ (number_text n ++ (b'-' ∷ rest)))
    → m ≡ n
same_bits word word' literal rest m n same e =
    let moved = ap (λ t. t ++ (literal ++ (number_text m ++ (b'-' ∷ rest)))) (sym same) ∙ e in
    (number_then m n b'-' (below_digits b'-' (omega arith)) (after literal (after word' moved))).0

-- The two values of a commitment mismatch are decimal texts, as `verify_trade_commitment` gives them.
abbrev pub IsPrinted : ProtocolError → Type 0
IsPrinted (ProtocolError.commitment_mismatch expected actual) =
    All IsDigit expected × All IsDigit actual
IsPrinted _ = Unit

told_apart : (a b : ProtocolError) → IsPrinted a → IsPrinted b → error_text a ≡ error_text b → a ≡ b
unfolding error_text
told_apart (ProtocolError.invalid_asset_base g) (ProtocolError.invalid_asset_base h) pa pb e =
    ap ProtocolError.invalid_asset_base
      (number_text-injective g h (after (codes "AssetBase must be exactly 32 bytes, got ") e))
told_apart (ProtocolError.invalid_receiver g) (ProtocolError.invalid_receiver h) pa pb e =
    ap ProtocolError.invalid_receiver (
      number_text-injective g h
        (after (codes "Orchard raw payment address must be exactly 43 bytes, got ") e))
told_apart (ProtocolError.invalid_field_encoding r) (ProtocolError.invalid_field_encoding s) pa pb
      e =
    ap ProtocolError.invalid_field_encoding
      (field_problem_text-injective r s (after (codes "invalid canonical field encoding: ") e))
told_apart (ProtocolError.limb_out_of_range l m) (ProtocolError.limb_out_of_range k n) pa pb e =
    let same : l ≡ k = same_limb l k m n e in
    ap₂ ProtocolError.limb_out_of_range same (
      same_bits (limb_text l) (limb_text k) (codes " limb exceeds its ")
        (codes "bit range constraint") m n (ap limb_text same) e)
told_apart (ProtocolError.invalid_amount f) (ProtocolError.invalid_amount g) pa pb e =
    ap ProtocolError.invalid_amount (same_amount f g e)
told_apart (ProtocolError.credential_code_out_of_range l m)
      (ProtocolError.credential_code_out_of_range k n) pa pb e =
    let same : l ≡ k = same_code l k m n e in
    ap₂ ProtocolError.credential_code_out_of_range same (
      same_bits (code_text l) (code_text k) (codes " exceeds its ") (codes "bit range constraint") m
        n (ap code_text same) e)
told_apart (ProtocolError.invalid_timestamp r) (ProtocolError.invalid_timestamp s) pa pb e =
    ap ProtocolError.invalid_timestamp
      (timestamp_text-injective r s (after (codes "invalid timestamp: ") e))
told_apart (ProtocolError.expired_trade x n) (ProtocolError.expired_trade y m) pa pb e =
    let (expiry, now) =
      two_numbers (codes "trade expired at ") b' ' (codes "and cannot be used at ") x n y m
        (below_digits b' ' (omega arith)) e in
    ap₂ ProtocolError.expired_trade expiry now
told_apart (ProtocolError.commitment_mismatch x n) (ProtocolError.commitment_mismatch y m) pa pb e =
    let (expected, rest) =
      span-injective IsDigit x y pa.0 pb.0 (below_digits b',' (omega arith))
        (below_digits b',' (omega arith)) (after (codes "commitment mismatch: expected ") e) in
    ap₂ ProtocolError.commitment_mismatch expected (after (codes ", recomputed ") rest)
told_apart (ProtocolError.unsupported_poseidon_arity g) (ProtocolError.unsupported_poseidon_arity h)
      pa pb e =
    ap ProtocolError.unsupported_poseidon_arity
      (number_text-injective g h (after (codes "unsupported Poseidon arity ") e))
told_apart (ProtocolError.invalid_root_envelope r) (ProtocolError.invalid_root_envelope s) pa pb e =
    ap ProtocolError.invalid_root_envelope
      (root_problem_text-injective r s (after (codes "invalid root envelope: ") e))
told_apart (ProtocolError.unsupported_version g) (ProtocolError.unsupported_version h) pa pb e =
    ap ProtocolError.unsupported_version
      (number_text-injective g h (after (codes "unsupported version ") e))
told_apart (ProtocolError.invalid_proof r) (ProtocolError.invalid_proof s) pa pb e =
    ap ProtocolError.invalid_proof
      (proof_problem_text-injective r s (after (codes "invalid proof encoding: ") e))
told_apart (ProtocolError.invalid_state_transition f a) (ProtocolError.invalid_state_transition g b)
      pa pb e =
    let (states, rest) =
      span-injective (λ c. 65 ≤ c) (state_text f) (state_text g) {x = b' '} {y = b' '}
        (state_text_letters f) (state_text_letters g) (λ d. absurd (omega (arith, d)))
        (λ d. absurd (omega (arith, d)))
        (after (codes "illegal trade lifecycle transition from ") e) in
    ap₂ ProtocolError.invalid_state_transition (state_text-injective f g states)
      (event_text-injective a b (after (codes " via ") rest))
told_apart ProtocolError.already_consumed ProtocolError.already_consumed pa pb e = refl
told_apart ProtocolError.unknown_trade ProtocolError.unknown_trade pa pb e = refl
told_apart ProtocolError.unreconciled_prior_submission ProtocolError.unreconciled_prior_submission
      pa pb e =
    refl
told_apart (ProtocolError.retry_budget_exhausted x n) (ProtocolError.retry_budget_exhausted y m) pa
      pb e =
    let (attempts, rest) =
      number_then x y b' ' (below_digits b' ' (omega arith))
        (after (codes "retry budget exhausted (") e) in
    let (max, _) =
      number_then n m b')' (below_digits b')' (omega arith)) (after (codes " of ") rest) in
    ap₂ ProtocolError.retry_budget_exhausted attempts max
told_apart a b pa pb e = absurd (omega (arith, error_kind-same a b e))

-- Two errors have one message exactly if they are the same error with the same contents; the values
-- of a commitment mismatch are digits.
pub error_text_iff :
    (a b : ProtocolError) → IsPrinted a → IsPrinted b → (error_text a ≡ error_text b) ↔ (a ≡ b)
error_text_iff a b pa pb = (told_apart a b pa pb, λ e. ap error_text e)
