-- ===== src/Protocol/Replay/Record.antt =====
-- crates/protocol/src/replay.rs: one lifecycle record, and the body of each method, which works
-- on the record behind `&mut TradeRecord`. A body that returns an error may have written first.
use zwa_protocol.Prelude.{
  ℕ, ◌+◌, ◌%◌, ◌^◌, Bool, true, false, Option, none, some, ltb, if◌then◌else◌, ◌==◌, opt_eq,
}
use zwa_protocol.Protocol.Error.{
  ProtocolError, Result, ok, err, expired_trade, already_consumed, invalid_state_transition,
  retry_budget_exhausted, unreconciled_prior_submission,
}
use zwa_protocol.Protocol.Lifecycle.{
  TradeLifecycleState, LifecycleEvent, FailureReason, SettlementTxId, created, verified,
  settlement_constructed, submitted, confirmed, consumed, expired, failed, is_consumed, txid_eq,
  state_eq,
}
use zwa_protocol.Protocol.Numbers.{UnixSeconds}
use zwa_protocol.Protocol.Values.{TradeCommitment}
use zwa_protocol.Protocol.Intent.{TradeIntent, is_expired_at}

pub record TradeRecord : Type 0 where
  pub commitment : TradeCommitment
  pub intent : TradeIntent
  pub state : TradeLifecycleState
  pub failure_reason : Option FailureReason
  pub prior_txid : Option SettlementTxId
  pub retry_count : ℕ  -- u32

-- Code that runs on a `&mut TradeRecord`.
abbrev pub RecordM : Type 0 → Type 0
RecordM A = TradeRecord → Result A × TradeRecord

abbrev continue : {A B : Type 0} → Result A × TradeRecord → (A → RecordM B) → Result B × TradeRecord
continue (ok a, r) f = f a r
continue (err e, r) f = (err e, r)

infixl 5 ◌>>=◌ ◌>>◌
abbrev ◌>>=◌ : {A B : Type 0} → RecordM A → (A → RecordM B) → RecordM B
◌>>=◌ m f r = continue (m r) f

abbrev ◌>>◌ : {B : Type 0} → RecordM (Unit {0}) → RecordM B → RecordM B
m >> k = m >>= λ _. k

abbrev read : RecordM TradeRecord
read r = (ok r, r)

-- `?` on a result that no write made.
abbrev lift : Result (Unit {0}) → RecordM (Unit {0})
lift result r = (result, r)

-- `if !holds { return Err(error); }`.
abbrev ensure : Bool → ProtocolError → RecordM (Unit {0})
ensure holds error r = if holds then (ok tt, r) else (err error, r)

-- The last writes of a body, and `Ok(*record)`.
abbrev finish_with : TradeRecord → RecordM TradeRecord
finish_with r' r = (ok r', r')

unfoldable pub deny_consumed : TradeLifecycleState → Result (Unit {0})
unfolding is_consumed
deny_consumed state = if is_consumed state then err already_consumed else ok tt

unfoldable pub reject : TradeLifecycleState → LifecycleEvent → ProtocolError
unfolding is_consumed
reject from attempted =
    if is_consumed from then already_consumed else invalid_state_transition from attempted

unfoldable pub expire_if_elapsed : UnixSeconds → RecordM (Unit {0})
unfolding is_expired_at
expire_if_elapsed now r =
    if is_expired_at r.intent now
    then (err (expired_trade r.intent.expiry.get now.get), record r { state = expired })
    else (ok tt, r)

-- The record that `create` inserts.
unfoldable pub new_record : TradeCommitment → TradeIntent → TradeRecord
new_record commitment intent = record {
  commitment = commitment;
  intent = intent;
  state = created;
  failure_reason = none;
  prior_txid = none;
  retry_count = 0;
}

unfoldable pub verify_record : UnixSeconds → RecordM TradeRecord
unfolding deny_consumed reject expire_if_elapsed
verify_record now = do
  r ← read
  lift (deny_consumed r.state)
  ensure (r.state == created) (reject r.state LifecycleEvent.verify)
  expire_if_elapsed now
  finish_with (record r { state = verified; failure_reason = none })

unfoldable pub acquire_record : UnixSeconds → RecordM TradeRecord
unfolding deny_consumed reject expire_if_elapsed
acquire_record now = do
  r ← read
  lift (deny_consumed r.state)
  ensure (r.state == verified) (reject r.state LifecycleEvent.acquire_construction)
  expire_if_elapsed now
  finish_with (record r { state = settlement_constructed })

unfoldable pub submit_record : SettlementTxId → UnixSeconds → RecordM TradeRecord
unfolding deny_consumed reject expire_if_elapsed
submit_record txid now = do
  r ← read
  lift (deny_consumed r.state)
  ensure (r.state == settlement_constructed) (reject r.state LifecycleEvent.submit)
  expire_if_elapsed now
  finish_with (record r { state = submitted; prior_txid = some txid })

unfoldable pub confirm_record : RecordM TradeRecord
unfolding deny_consumed reject
confirm_record = do
  r ← read
  lift (deny_consumed r.state)
  ensure (r.state == submitted) (reject r.state LifecycleEvent.confirm)
  finish_with (record r { state = confirmed })

unfoldable pub consume_record : RecordM TradeRecord
unfolding deny_consumed reject
consume_record = do
  r ← read
  lift (deny_consumed r.state)
  ensure (r.state == confirmed) (reject r.state LifecycleEvent.consume)
  finish_with (record r { state = consumed })

-- The states that `fail` and `expire` accept.
abbrev may_fail : TradeLifecycleState → Bool
may_fail created = true
may_fail verified = true
may_fail settlement_constructed = true
may_fail submitted = true
may_fail _ = false

abbrev may_expire : TradeLifecycleState → Bool
may_expire created = true
may_expire verified = true
may_expire settlement_constructed = true
may_expire failed = true
may_expire _ = false

unfoldable pub fail_record : FailureReason → RecordM TradeRecord
unfolding deny_consumed reject
fail_record reason = do
  r ← read
  let kept = if r.state == submitted then r.prior_txid else none
  lift (deny_consumed r.state)
  ensure (may_fail r.state) (reject r.state LifecycleEvent.fail)
  finish_with (record r { state = failed; failure_reason = some reason; prior_txid = kept })

unfoldable pub expire_record : UnixSeconds → RecordM TradeRecord
unfolding deny_consumed reject is_expired_at
expire_record now = do
  r ← read
  lift (deny_consumed r.state)
  ensure (may_expire r.state) (reject r.state LifecycleEvent.expire)
  ensure (is_expired_at r.intent now) (reject r.state LifecycleEvent.expire)
  finish_with (record r { state = expired })

-- `record.retry_count += 1` is `u32` arithmetic.
unfoldable pub retry_record : ℕ → Option SettlementTxId → UnixSeconds → RecordM TradeRecord
unfolding deny_consumed reject expire_if_elapsed
retry_record max_retries acknowledged_txid now = do
  r ← read
  lift (deny_consumed r.state)
  ensure (r.state == failed) (reject r.state LifecycleEvent.retry)
  expire_if_elapsed now
  ensure (ltb r.retry_count max_retries) (retry_budget_exhausted r.retry_count max_retries)
  ensure (r.prior_txid == acknowledged_txid) unreconciled_prior_submission
  finish_with (record r {
    state = created;
    failure_reason = none;
    prior_txid = none;
    retry_count = (r.retry_count + 1) % 2 ^ 32;
  })
