-- ===== src/Protocol/Replay/Calls.antt =====
-- The calls that clients make on a `ReplayStore` (crates/protocol/src/replay.rs), as data: a
-- sequence of calls is any interleaving of the clients of one store.
use zwa_protocol.Prelude.{Option, List, [], ◌∷◌}
use zwa_protocol.Protocol.Lifecycle.{FailureReason, SettlementTxId, LifecycleEvent}
use zwa_protocol.Protocol.Numbers.{UnixSeconds}
use zwa_protocol.Protocol.Values.{TradeCommitment}
use zwa_protocol.Protocol.Intent.{TradeIntent}
use zwa_protocol.Protocol.Replay
use zwa_protocol.Protocol.Replay.{ReplayStore, Outcome}

pub data Call : Type 0 where
  create : TradeCommitment → TradeIntent → Call
  verify : TradeCommitment → UnixSeconds → Call
  acquire_construction : TradeCommitment → UnixSeconds → Call
  submit : TradeCommitment → SettlementTxId → UnixSeconds → Call
  confirm : TradeCommitment → Call
  consume : TradeCommitment → Call
  fail : TradeCommitment → FailureReason → Call
  expire : TradeCommitment → UnixSeconds → Call
  retry_after_failure : TradeCommitment → Option SettlementTxId → UnixSeconds → Call

-- The commitment that a call names.
abbrev pub key : Call → TradeCommitment
key (create k _) = k
key (verify k _) = k
key (acquire_construction k _) = k
key (submit k _ _) = k
key (confirm k) = k
key (consume k) = k
key (fail k _) = k
key (expire k _) = k
key (retry_after_failure k _ _) = k

-- The event that a call attempts.
abbrev pub event : Call → LifecycleEvent
event (create _ _) = LifecycleEvent.create
event (verify _ _) = LifecycleEvent.verify
event (acquire_construction _ _) = LifecycleEvent.acquire_construction
event (submit _ _ _) = LifecycleEvent.submit
event (confirm _) = LifecycleEvent.confirm
event (consume _) = LifecycleEvent.consume
event (fail _ _) = LifecycleEvent.fail
event (expire _ _) = LifecycleEvent.expire
event (retry_after_failure _ _ _) = LifecycleEvent.retry

unfoldable pub exec : ReplayStore → Call → Outcome
exec s (create k intent) = Replay.create s k intent
exec s (verify k now) = Replay.verify s k now
exec s (acquire_construction k now) = Replay.acquire_construction s k now
exec s (submit k txid now) = Replay.submit s k txid now
exec s (confirm k) = Replay.confirm s k
exec s (consume k) = Replay.consume s k
exec s (fail k reason) = Replay.fail s k reason
exec s (expire k now) = Replay.expire s k now
exec s (retry_after_failure k txid now) = Replay.retry_after_failure s k txid now

unfoldable pub run : ReplayStore → List Call → ReplayStore
run s [] = s
run s (c ∷ cs) = run (exec s c).1 cs
