-- ===== src/Protocol/Replay/Diagram.antt =====
-- The frozen transition diagram of crates/protocol/src/replay.rs and docs/architecture.md, and the
-- calls that a record accepts, stated apart from the code.
use zwa_protocol.Prelude.{ℕ, ◌≡◌, ◌↔◌, ◌≤◌, ◌<◌, ◌⊎◌, true, arith, opt_eq, opt_beq_iff}
use zwa_protocol.Protocol.Error.{ok, is_ok, ok_of_is_ok}
use zwa_protocol.Protocol.Lifecycle.{
  TradeLifecycleState, LifecycleEvent, created, verified, settlement_constructed, submitted,
  confirmed, consumed, expired, failed, txid_eq,
}
use zwa_protocol.Protocol.Replay.{TradeRecord}
use zwa_protocol.Protocol.Replay
use zwa_protocol.Protocol.Replay.Calls.{
  Call, create, verify, acquire_construction, submit, confirm, consume, fail, expire,
  retry_after_failure, event,
}
use zwa_protocol.Protocol.Replay.Machine.{step_record}

-- The states from which an attempt may fail, and from which a trade may expire.
pub data MayFail : TradeLifecycleState → Type 0 where
  created_fails : MayFail created
  verified_fails : MayFail verified
  constructed_fails : MayFail settlement_constructed
  submitted_fails : MayFail submitted

pub data MayExpire : TradeLifecycleState → Type 0 where
  created_expires : MayExpire created
  verified_expires : MayExpire verified
  constructed_expires : MayExpire settlement_constructed
  failed_expires : MayExpire failed

-- The edges of the diagram, each with its event.
pub data Edge : TradeLifecycleState → LifecycleEvent → TradeLifecycleState → Type 0 where
  verify_edge : Edge created LifecycleEvent.verify verified
  acquire_edge : Edge verified LifecycleEvent.acquire_construction settlement_constructed
  submit_edge : Edge settlement_constructed LifecycleEvent.submit submitted
  confirm_edge : Edge submitted LifecycleEvent.confirm confirmed
  consume_edge : Edge confirmed LifecycleEvent.consume consumed
  fail_edge : {s : TradeLifecycleState} → MayFail s → Edge s LifecycleEvent.fail failed
  expire_edge : {s : TradeLifecycleState} → MayExpire s → Edge s LifecycleEvent.expire expired
  retry_edge : Edge failed LifecycleEvent.retry created

ruleset edges = (
  verify_edge, acquire_edge, submit_edge, confirm_edge, consume_edge, fail_edge, expire_edge,
  retry_edge, created_fails, verified_fails, constructed_fails, submitted_fails, created_expires,
  verified_expires, constructed_expires, failed_expires,
)

-- A call that succeeds moves its record along the edge of its event, and returns the record that
-- it leaves; the commitment and the intent stay.
pub step_record-Edge :
    (max : ℕ) (c : Call) (r : TradeRecord) {r' : TradeRecord}
    → (step_record max c r).0 ≡ ok r'
    → Edge r.state (event c) r'.state
      × ((step_record max c r).1 ≡ r')
      × (r'.commitment ≡ r.commitment)
      × (r'.intent ≡ r.intent)
unfolding step_record Replay.reject Replay.verify_record Replay.acquire_record Replay.submit_record
    Replay.confirm_record Replay.consume_record Replay.fail_record Replay.expire_record
    Replay.retry_record
step_record-Edge max (create k intent) r h = ground arith
step_record-Edge max _ r h = grind (arith, edges)

-- What a record must satisfy for a call to succeed at it.
abbrev pub Accepts : ℕ → Call → TradeRecord → Type 0
Accepts max (create k intent) r = ⊥
Accepts max (verify k now) r = (r.state ≡ created) × (now.get ≤ r.intent.expiry.get)
Accepts max (acquire_construction k now) r = (r.state ≡ verified) × (now.get ≤ r.intent.expiry.get)
Accepts max (submit k txid now) r =
    (r.state ≡ settlement_constructed) × (now.get ≤ r.intent.expiry.get)
Accepts max (confirm k) r = r.state ≡ submitted
Accepts max (consume k) r = r.state ≡ confirmed
Accepts max (fail k reason) r =
    (r.state ≡ created)
    ⊎ (r.state ≡ verified)
    ⊎ (r.state ≡ settlement_constructed)
    ⊎ (r.state ≡ submitted)
Accepts max (expire k now) r =
    ((r.state ≡ created)
      ⊎ (r.state ≡ verified)
      ⊎ (r.state ≡ settlement_constructed)
      ⊎ (r.state ≡ failed))
    × (r.intent.expiry.get < now.get)
Accepts max (retry_after_failure k txid now) r =
    (r.state ≡ failed)
    × (now.get ≤ r.intent.expiry.get)
    × (r.retry_count < max)
    × (r.prior_txid ≡ txid)

Accepts-step_record :
    (max : ℕ) (c : Call) (r : TradeRecord) {r' : TradeRecord}
    → (step_record max c r).0 ≡ ok r'
    → Accepts max c r
unfolding step_record Replay.reject Replay.verify_record Replay.acquire_record Replay.submit_record
    Replay.confirm_record Replay.consume_record Replay.fail_record Replay.expire_record
    Replay.retry_record
Accepts-step_record max (create k intent) r h = ground arith
Accepts-step_record max (retry_after_failure k txid now) r h =
    ground (arith, opt_beq_iff r.prior_txid txid)
Accepts-step_record max _ r h = ground arith

step_record-Accepts :
    (max : ℕ) (c : Call) (r : TradeRecord) → Accepts max c r → is_ok (step_record max c r).0 ≡ true
unfolding step_record Replay.reject Replay.verify_record Replay.acquire_record Replay.submit_record
    Replay.confirm_record Replay.consume_record Replay.fail_record Replay.expire_record
    Replay.retry_record
step_record-Accepts max (create k intent) r h = ground arith
step_record-Accepts max (retry_after_failure k txid now) r h =
    ground (arith, opt_beq_iff r.prior_txid txid)
step_record-Accepts max _ r h = ground arith

-- A call succeeds at a record exactly if the record accepts it: its state is a source of the call's
-- edge, the trade is unexpired where the call starts new work and expired where the call expires
-- it, and a retry has budget left and acknowledges the prior txid.
pub step_record-Accepts_iff :
    (max : ℕ) (c : Call) (r : TradeRecord)
    → ((r' : TradeRecord) × ((step_record max c r).0 ≡ ok r')) ↔ Accepts max c r
step_record-Accepts_iff max c r = (
  λ h. Accepts-step_record max c r h.1,
  λ h. ok_of_is_ok (step_record max c r).0 (step_record-Accepts max c r h),
)
