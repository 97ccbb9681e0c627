-- ===== src/Protocol/Display/Runs.antt =====
-- A few messages, and the theorems at them.
use zwa_protocol.Prelude.{◌≡◌, ◌↔◌, refl, arith}
use zwa_protocol.Protocol.Lifecycle.{LifecycleEvent, TradeLifecycleState}
use zwa_protocol.Protocol.Error.{RootEnvelopeProblem, ProtocolError}
use zwa_protocol.Protocol.Field.{to_decimal_string, from_u64}
use zwa_protocol.Protocol.Field.Canonical.{value, from_u64-value}
use zwa_protocol.Protocol.Display.{codes, low_digits, number_text, root_problem_text, error_text}
use zwa_protocol.Protocol.Display.Numbers.{to_decimal_string-number_text}
use zwa_protocol.Protocol.Display.Errors.{error_text_iff}

late_text :
    error_text (ProtocolError.expired_trade 2000000000 2000000001)
    ≡ codes "trade expired at 2000000000 and cannot be used at 2000000001"
unfolding error_text number_text low_digits
late_text = refl

budget_text :
    error_text (ProtocolError.retry_budget_exhausted 0 3) ≡ codes "retry budget exhausted (0 of 3)"
unfolding error_text number_text low_digits
budget_text = refl

early_text :
    error_text (ProtocolError.invalid_root_envelope (RootEnvelopeProblem.not_yet_valid 20 7))
    ≡ codes "invalid root envelope: envelope valid_from 20 is after verification time 7"
unfolding error_text root_problem_text number_text low_digits
early_text = refl

illegal_text :
    error_text
      (ProtocolError.invalid_state_transition TradeLifecycleState.verified LifecycleEvent.submit)
    ≡ codes "illegal trade lifecycle transition from VERIFIED via SUBMIT"
unfolding error_text
illegal_text = refl

error_text_iff_example :
    (error_text (ProtocolError.retry_budget_exhausted 1 13)
      ≡ error_text (ProtocolError.retry_budget_exhausted 11 3))
    ↔ (ProtocolError.retry_budget_exhausted 1 13 ≡ ProtocolError.retry_budget_exhausted 11 3)
error_text_iff_example =
    error_text_iff (ProtocolError.retry_budget_exhausted 1 13)
      (ProtocolError.retry_budget_exhausted 11 3) tt tt

to_decimal_string-number_text_example :
    to_decimal_string (from_u64 70) ≡ number_text (value (from_u64 70))
to_decimal_string-number_text_example =
    to_decimal_string-number_text (from_u64 70) (from_u64-value 70 (omega arith)).0
