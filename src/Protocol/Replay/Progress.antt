-- ===== src/Protocol/Replay/Progress.antt =====
-- A live trade can always be settled (crates/protocol/src/replay.rs).
use zwa_protocol.Prelude.{
  ℕ, ◌≡◌, ◌≢◌, ◌≤◌, ◌<◌, ◌+◌, ◌%◌, ◌^◌, ◌∙◌, refl, Option, none, some, List, [], ◌∷◌, arith,
  ==-refl, opt_eq, opt_beq_iff,
}
use zwa_protocol.Protocol.Lifecycle.{
  TradeLifecycleState, SettlementTxId, created, verified, settlement_constructed, submitted,
  confirmed, consumed, expired, failed, txid_eq,
}
use zwa_protocol.Protocol.Numbers.{UnixSeconds}
use zwa_protocol.Protocol.Values.{TradeCommitment, newtype_eq}
use zwa_protocol.Protocol.Replay.{TradeRecord, ReplayStore, get_record, state}
use zwa_protocol.Protocol.Replay
use zwa_protocol.Protocol.Replay.Calls.{
  Call, verify, acquire_construction, submit, confirm, consume, retry_after_failure, key, run,
}
use zwa_protocol.Protocol.Replay.Machine.{step_record, step, run_machine, run-run_machine}

-- The calls that are left to settle a trade in a state; `prior` is the txid to acknowledge.
unfoldable pub to_consumed :
    TradeCommitment
    → Option SettlementTxId
    → SettlementTxId
    → UnixSeconds
    → TradeLifecycleState
    → List Call
to_consumed k prior txid now created =
    verify k now ∷ acquire_construction k now ∷ submit k txid now ∷ confirm k ∷ consume k ∷ []
to_consumed k prior txid now verified =
    acquire_construction k now ∷ submit k txid now ∷ confirm k ∷ consume k ∷ []
to_consumed k prior txid now settlement_constructed = submit k txid now ∷ confirm k ∷ consume k ∷ []
to_consumed k prior txid now submitted = confirm k ∷ consume k ∷ []
to_consumed k prior txid now confirmed = consume k ∷ []
to_consumed k prior txid now failed =
    retry_after_failure k prior now
    ∷ verify k now
    ∷ acquire_construction k now
    ∷ submit k txid now
    ∷ confirm k
    ∷ consume k
    ∷ []
to_consumed k prior txid now _ = []

module _ (max : ℕ) (k : TradeCommitment) where
  abbrev Settles : List Call → TradeRecord → Type 0
  Settles cs r =
      (r' : TradeRecord) × (run_machine max k cs (some r) ≡ some r') × (r'.state ≡ consumed)

  -- One more call in front.
  advance :
      (c : Call) (cs : List Call) (r r' : TradeRecord)
      → key c ≡ k
      → (step_record max c r).1 ≡ r'
      → Settles cs r'
      → Settles (c ∷ cs) r
  unfolding run_machine step
  advance c cs r r' e moved (last, reached, done) = (last, rw (e, ==-refl k, moved) reached, done)

  settle_confirmed : (r : TradeRecord) → r.state ≡ confirmed → Settles (consume k ∷ []) r
  unfolding run_machine step step_record Replay.consume_record
  settle_confirmed r h =
      advance (consume k) [] r (record r { state = consumed }) refl (ground arith)
        (record r { state = consumed }, refl, refl)

  settle_submitted :
      (r : TradeRecord) → r.state ≡ submitted → Settles (confirm k ∷ consume k ∷ []) r
  unfolding step_record Replay.confirm_record
  settle_submitted r h =
      advance (confirm k) _ r (record r { state = confirmed }) refl (ground arith)
        (settle_confirmed (record r { state = confirmed }) refl)

  module _ (txid : SettlementTxId) (now : UnixSeconds) where
    settle_constructed :
        (r : TradeRecord)
        → r.state ≡ settlement_constructed
        → now.get ≤ r.intent.expiry.get
        → Settles (submit k txid now ∷ confirm k ∷ consume k ∷ []) r
    unfolding step_record Replay.submit_record
    settle_constructed r h t =
        let r' : TradeRecord = record r { state = submitted; prior_txid = some txid } in
        advance (submit k txid now) _ r r' refl (ground arith) (settle_submitted r' refl)

    settle_verified :
        (r : TradeRecord)
        → r.state ≡ verified
        → now.get ≤ r.intent.expiry.get
        → Settles (to_consumed k none txid now verified) r
    unfolding to_consumed step_record Replay.acquire_record
    settle_verified r h t =
        let r' : TradeRecord = record r { state = settlement_constructed } in
        advance (acquire_construction k now) _ r r' refl (ground arith)
          (settle_constructed r' refl t)

    settle_created :
        (r : TradeRecord)
        → r.state ≡ created
        → now.get ≤ r.intent.expiry.get
        → Settles (to_consumed k none txid now created) r
    unfolding to_consumed step_record Replay.verify_record
    settle_created r h t =
        let r' : TradeRecord = record r { state = verified; failure_reason = none } in
        advance (verify k now) _ r r' refl (ground arith) (settle_verified r' refl t)

    settle_failed :
        (r : TradeRecord)
        → r.state ≡ failed
        → now.get ≤ r.intent.expiry.get
        → r.retry_count < max
        → Settles (to_consumed k r.prior_txid txid now failed) r
    unfolding to_consumed step_record Replay.retry_record
    settle_failed r h t b =
        let r' : TradeRecord = record r {
          state = created;
          failure_reason = none;
          prior_txid = none;
          retry_count = (r.retry_count + 1) % 2 ^ 32;
        } in
        advance (retry_after_failure k r.prior_txid now) _ r r' refl
          (ground (arith, opt_beq_iff r.prior_txid r.prior_txid)) (settle_created r' refl t)

    settle :
        (state : TradeLifecycleState) (r : TradeRecord)
        → r.state ≡ state
        → state ≢ expired
        → now.get ≤ r.intent.expiry.get
        → (state ≡ failed → r.retry_count < max)
        → Settles (to_consumed k r.prior_txid txid now state) r
    unfolding to_consumed run_machine
    settle created r e x t b = settle_created r e t
    settle verified r e x t b = settle_verified r e t
    settle settlement_constructed r e x t b = settle_constructed r e t
    settle submitted r e x t b = settle_submitted r e
    settle confirmed r e x t b = settle_confirmed r e
    settle consumed r e x t b = (r, refl, e)
    settle expired r e x t b = absurd (x refl)
    settle failed r e x t b = settle_failed r e t (b refl)

-- While a trade is unexpired, the store has a way to settle it from every state but EXPIRED, with
-- one retry left where it has FAILED: those calls leave it CONSUMED.
pub run-to_consumed :
    (s : ReplayStore) (k : TradeCommitment) (txid : SettlementTxId) (now : UnixSeconds)
    (r : TradeRecord)
    → get_record s k ≡ some r
    → r.state ≢ expired
    → now.get ≤ r.intent.expiry.get
    → (r.state ≡ failed → r.retry_count < s.max_retries)
    → state (run s (to_consumed k r.prior_txid txid now r.state)) k ≡ some consumed
unfolding state
run-to_consumed s k txid now r h x t b =
    let (r', reached, done) = settle s.max_retries k txid now r.state r refl x t b in
    let cs : List Call = to_consumed k r.prior_txid txid now r.state in
    let found : get_record (run s cs) k ≡ some r' = run-run_machine s cs k ∙ rw h reached in
    rw (found, done) refl
