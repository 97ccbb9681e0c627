-- ===== src/Protocol/Replay/Traces.antt =====
-- How often a trade can be settled (crates/protocol/src/replay.rs), over any sequence of calls.
use zwa_protocol.Prelude.{
  ℕ, ◌≡◌, ◌≤◌, ◌<◌, ◌+◌, ◌-◌, ◌^◌, Bool, true, false, ◌&&◌, Option, none, some, List, [], ◌∷◌,
  arith, inl, inr, ◌==◌, Bool-cases, subst, sym, if◌then◌else◌,
}
use zwa_protocol.Protocol.Error.{is_ok}
use zwa_protocol.Protocol.Lifecycle.{
  TradeLifecycleState, created, verified, settlement_constructed, consumed, state_eq,
}
use zwa_protocol.Protocol.Values.{TradeCommitment, newtype_eq, newtype_beq_iff}
use zwa_protocol.Protocol.Replay.{TradeRecord, ReplayStore, get_record, with_max_retries}
use zwa_protocol.Protocol.Replay
use zwa_protocol.Protocol.Replay.Calls.{
  Call, create, acquire_construction, submit, consume, key, exec,
}
use zwa_protocol.Protocol.Replay.Machine.{step_record, step, exec-step, get_record-exec}

-- The three events that move a settlement on: locking it, submitting it, and consuming it.
pub data Stage : Type 0 where
  construction submission consumption : Stage

abbrev pub attempts : Stage → Call → Bool
attempts construction (acquire_construction _ _) = true
attempts submission (submit _ _ _) = true
attempts consumption (consume _) = true
attempts _ _ = false

abbrev counts : Bool → ℕ
counts true = 1
counts false = 0

-- How many calls of a run reach a stage of the trade `k`.
unfoldable pub successes : Stage → TradeCommitment → ReplayStore → List Call → ℕ
successes e k s [] = 0
successes e k s (c ∷ cs) =
    counts (attempts e c && (key c == k) && is_ok (exec s c).0) + successes e k (exec s c).1 cs

-- How many more times a record can reach a stage.
abbrev live : Stage → TradeLifecycleState → ℕ
live construction created = 1
live construction verified = 1
live submission created = 1
live submission verified = 1
live submission settlement_constructed = 1
live _ _ = 0

remaining : Stage → ℕ → Option TradeRecord → ℕ
remaining consumption max none = 1
remaining consumption max (some r) = if r.state == consumed then 0 else 1
remaining e max none = max + 1
remaining e max (some r) = live e r.state + (max - r.retry_count)

remaining-step_record :
    (e : Stage) (max : ℕ) (c : Call) (r : TradeRecord)
    → max < 2 ^ 32
    → counts (attempts e c && is_ok (step_record max c r).0)
        + remaining e max (some (step_record max c r).1)
      ≤ remaining e max (some r)
unfolding remaining step_record Replay.reject Replay.verify_record Replay.acquire_record
    Replay.submit_record Replay.confirm_record Replay.consume_record Replay.fail_record
    Replay.expire_record Replay.retry_record
remaining-step_record construction max (create _ _) r m = ground arith
remaining-step_record construction max _ r m = ground arith
remaining-step_record submission max (create _ _) r m = ground arith
remaining-step_record submission max _ r m = ground arith
remaining-step_record consumption max (create _ _) r m = ground arith
remaining-step_record consumption max _ r m = ground arith

remaining-step_absent :
    (e : Stage) (max : ℕ) (c : Call)
    → counts (attempts e c && is_ok (step max c none).0) + remaining e max (step max c none).1
      ≤ remaining e max none
unfolding step remaining Replay.new_record
remaining-step_absent construction max (create _ _) = ground arith
remaining-step_absent construction max _ = ground arith
remaining-step_absent submission max (create _ _) = ground arith
remaining-step_absent submission max _ = ground arith
remaining-step_absent consumption max (create _ _) = ground arith
remaining-step_absent consumption max _ = ground arith

remaining-step :
    (e : Stage) (max : ℕ) (c : Call) (o : Option TradeRecord)
    → max < 2 ^ 32
    → counts (attempts e c && is_ok (step max c o).0) + remaining e max (step max c o).1
      ≤ remaining e max o
remaining-step e max c none m = remaining-step_absent e max c
remaining-step e max c (some r) m = unfold step in remaining-step_record e max c r m

-- One call uses up at most what it counts for.
remaining-exec :
    (e : Stage) (k : TradeCommitment) (s : ReplayStore) (c : Call)
    → s.max_retries < 2 ^ 32
    → counts (attempts e c && (key c == k) && is_ok (exec s c).0)
        + remaining e s.max_retries (get_record (exec s c).1 k)
      ≤ remaining e s.max_retries (get_record s k)
remaining-exec e k s c m = elim (Bool-cases (key c == k)) [
  | inl same ↦
      let kk : key c ≡ k = (newtype_beq_iff (key c) k).0 same in
      rw (get_record-exec s c k, (exec-step s c).0, same, kk)
        (ground (arith, remaining-step e s.max_retries c (get_record s k) m))
  | inr other ↦ rw (get_record-exec s c k, other) (ground arith)
]

successes-le-remaining :
    (e : Stage) (k : TradeCommitment) (s : ReplayStore) (cs : List Call)
    → s.max_retries < 2 ^ 32
    → successes e k s cs ≤ remaining e s.max_retries (get_record s k)
unfolding successes
successes-le-remaining e k s [] m = omega arith
successes-le-remaining e k s (c ∷ cs) m =
    let kept : (exec s c).1.max_retries ≡ s.max_retries = (exec-step s c).2 in
    let rest : successes e k (exec s c).1 cs
        ≤ remaining e s.max_retries (get_record (exec s c).1 k) =
      subst (λ max. successes e k (exec s c).1 cs ≤ remaining e max (get_record (exec s c).1 k))
        kept (successes-le-remaining e k (exec s c).1 cs (subst (λ n. n < 2 ^ 32) (sym kept) m)) in
    omega (arith, rest, remaining-exec e k s c m)

-- In any run of a store made with a `u32` retry bound, a trade is locked for construction at most
-- `max + 1` times, submitted at most `max + 1` times, and consumed at most once.
pub settlements_bounded :
    (max : ℕ) (k : TradeCommitment) (cs : List Call)
    → max < 2 ^ 32
    → (successes construction k (with_max_retries max) cs ≤ max + 1)
      × (successes submission k (with_max_retries max) cs ≤ max + 1)
      × (successes consumption k (with_max_retries max) cs ≤ 1)
unfolding remaining
settlements_bounded max k cs m = (bound construction, bound submission, bound consumption)
  where
    bound : (e : Stage) → successes e k (with_max_retries max) cs ≤ remaining e max none
    bound e = unfold with_max_retries in successes-le-remaining e k (with_max_retries max) cs m
