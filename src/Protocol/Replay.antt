-- ===== src/Protocol/Replay.antt =====
-- crates/protocol/src/replay.rs: the in-memory replay store. The proofs are in the modules below.
mod Record
pub mod Calls
pub mod Machine
pub mod Diagram
pub mod Expiry
pub mod Invariant
pub mod Terminal
pub mod Traces
pub mod History
pub mod Progress
pub mod Interleaving
pub mod Spec
pub mod Origin
mod Runs
pub use Record.{TradeRecord}
unfoldable pub use Record.{
  RecordM, deny_consumed, expire_if_elapsed, reject, new_record, verify_record, acquire_record,
  submit_record, confirm_record, consume_record, fail_record, expire_record, retry_record,
}
use zwa_protocol.Prelude.{ℕ, Option, none, some, map, []}
use zwa_protocol.Prelude.BTreeMap.{BTreeMap, get, insert}
use zwa_protocol.Protocol.Error.{Result, ok, err, unknown_trade}
use zwa_protocol.Protocol.Lifecycle.{
  TradeLifecycleState, LifecycleEvent, FailureReason, SettlementTxId,
}
use zwa_protocol.Protocol.Numbers.{UnixSeconds}
use zwa_protocol.Protocol.Values.{TradeCommitment, newtype_eq}
use zwa_protocol.Protocol.Intent.{TradeIntent}

abbrev pub default_max_retries : ℕ
default_max_retries = 3

pub record ReplayStore : Type 0 where
  pub records : BTreeMap TradeCommitment TradeRecord
  pub max_retries : ℕ

unfoldable pub with_max_retries : ℕ → ReplayStore
with_max_retries max_retries = record { records = []; max_retries = max_retries }

unfoldable pub new : ReplayStore
unfolding with_max_retries
new = with_max_retries default_max_retries

-- `ReplayStore::get`.
abbrev pub get_record : ReplayStore → TradeCommitment → Option TradeRecord
get_record self commitment = get self.records commitment

state_of : Option TradeRecord → Option TradeLifecycleState
state_of none = none
state_of (some r) = some r.state

unfoldable pub state : ReplayStore → TradeCommitment → Option TradeLifecycleState
unfolding state_of
state self commitment = state_of (get_record self commitment)

-- What a `&mut self` method returns: its result, and the store that it leaves.
abbrev pub Outcome : Type 0
Outcome = Result TradeRecord × ReplayStore

-- What is written through the reference that `record_mut` returns stays in the map.
abbrev write_back : ReplayStore → TradeCommitment → Result TradeRecord × TradeRecord → Outcome
write_back self commitment (result, r) =
    (result, record self { records = insert self.records commitment r })

abbrev on_found : ReplayStore → TradeCommitment → RecordM TradeRecord → Option TradeRecord → Outcome
on_found self commitment body none = (err unknown_trade, self)
on_found self commitment body (some r) = write_back self commitment (body r)

-- `let record = self.record_mut(commitment)?; body`.
unfoldable pub record_mut : ReplayStore → TradeCommitment → RecordM TradeRecord → Outcome
record_mut self commitment body = on_found self commitment body (get_record self commitment)

create_absent : ReplayStore → TradeCommitment → TradeIntent → Option TradeRecord → Outcome
create_absent self commitment intent (some existing) =
    (err (reject existing.state LifecycleEvent.create), self)
create_absent self commitment intent none =
    let r = new_record commitment intent in
    (ok r, record self { records = insert self.records commitment r })

unfoldable pub create : ReplayStore → TradeCommitment → TradeIntent → Outcome
unfolding create_absent
create self commitment intent = create_absent self commitment intent (get_record self commitment)

unfoldable pub verify : ReplayStore → TradeCommitment → UnixSeconds → Outcome
unfolding record_mut
verify self commitment now = record_mut self commitment (verify_record now)

unfoldable pub acquire_construction : ReplayStore → TradeCommitment → UnixSeconds → Outcome
unfolding record_mut
acquire_construction self commitment now = record_mut self commitment (acquire_record now)

unfoldable pub submit : ReplayStore → TradeCommitment → SettlementTxId → UnixSeconds → Outcome
unfolding record_mut
submit self commitment txid now = record_mut self commitment (submit_record txid now)

unfoldable pub confirm : ReplayStore → TradeCommitment → Outcome
unfolding record_mut
confirm self commitment = record_mut self commitment confirm_record

unfoldable pub consume : ReplayStore → TradeCommitment → Outcome
unfolding record_mut
consume self commitment = record_mut self commitment consume_record

unfoldable pub fail : ReplayStore → TradeCommitment → FailureReason → Outcome
unfolding record_mut
fail self commitment reason = record_mut self commitment (fail_record reason)

unfoldable pub expire : ReplayStore → TradeCommitment → UnixSeconds → Outcome
unfolding record_mut
expire self commitment now = record_mut self commitment (expire_record now)

unfoldable pub retry_after_failure :
    ReplayStore → TradeCommitment → Option SettlementTxId → UnixSeconds → Outcome
unfolding record_mut
retry_after_failure self commitment acknowledged_txid now =
    record_mut self commitment (retry_record self.max_retries acknowledged_txid now)
