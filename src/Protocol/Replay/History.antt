-- ===== src/Protocol/Replay/History.antt =====
-- What must have been called before a trade is in flight (crates/protocol/src/replay.rs).
use zwa_protocol.Prelude.{
  ℕ, ◌≡◌, ◌≤◌, ◌⊎◌, ◌∙◌, refl, Bool, true, false, Option, none, some, List, [], ◌∷◌, arith, inl,
  inr, ◌==◌, Bool-cases, sym, subst, ap,
}
use mathlib.Core.List.{Memᴰ}
use zwa_protocol.Protocol.Lifecycle.{
  TradeLifecycleState, SettlementTxId, submitted, confirmed, consumed,
}
use zwa_protocol.Protocol.Numbers.{UnixSeconds}
use zwa_protocol.Protocol.Values.{TradeCommitment, newtype_eq, newtype_beq_iff}
use zwa_protocol.Protocol.Replay.{TradeRecord, ReplayStore, get_record, with_max_retries}
use zwa_protocol.Protocol.Replay
use zwa_protocol.Protocol.Replay.Calls.{Call, create, submit, key, run}
use zwa_protocol.Protocol.Replay.Machine.{step_record, step, run_machine, run-run_machine}

-- A submission was made and has not failed.
abbrev pub is_in_flight : TradeLifecycleState → Bool
is_in_flight submitted = true
is_in_flight confirmed = true
is_in_flight consumed = true
is_in_flight _ = false

-- The calls hold the submission that the record's txid names, made by the trade's expiry.
abbrev pub SubmittedInTime : TradeCommitment → List Call → TradeRecord → Type 0
SubmittedInTime k cs r =
    (txid : SettlementTxId) × (now : UnixSeconds) × Memᴰ (submit k txid now) cs
    × (r.prior_txid ≡ some txid)
    × (now.get ≤ r.intent.expiry.get)

-- Where an in-flight record comes from: it was in flight before the call with the same txid and
-- intent, or the call is its submission.
abbrev Origin : Call → TradeRecord → TradeRecord → Type 0
Origin c r r' =
    ((is_in_flight r.state ≡ true) × (r.prior_txid ≡ r'.prior_txid) × (r.intent ≡ r'.intent))
    ⊎ ((txid : SettlementTxId) × (now : UnixSeconds) × (c ≡ submit (key c) txid now)
        × (r'.prior_txid ≡ some txid)
        × (now.get ≤ r'.intent.expiry.get))

origin :
    (max : ℕ) (c : Call) (r : TradeRecord)
    → is_in_flight (step_record max c r).1.state ≡ true
    → Origin c r (step_record max c r).1
unfolding step_record Replay.reject Replay.verify_record Replay.acquire_record Replay.submit_record
    Replay.confirm_record Replay.consume_record Replay.fail_record Replay.expire_record
    Replay.retry_record
origin max (create _ _) r h = inl (h, refl, refl)
origin max (submit k txid now) r h = elim (Bool-cases (is_in_flight r.state)) [
  | inl e ↦ inl (e, ground arith, ground arith)
  | inr e ↦ inr (txid, now, refl, ground arith, ground arith)
]
origin max _ r h = inl (ground arith, ground arith, ground arith)

-- The record that a sequence of calls started from is in flight with the same txid and intent.
abbrev Before : Option TradeRecord → TradeRecord → Type 0
Before none r' = ⊥
Before (some r) r' =
    (is_in_flight r.state ≡ true) × (r.prior_txid ≡ r'.prior_txid) × (r.intent ≡ r'.intent)

not-Before-absent : (max : ℕ) (c : Call) (r' : TradeRecord) → ¬ Before (step max c none).1 r'
unfolding step Replay.new_record
not-Before-absent max (create _ _) r' b = cc (b.0)
not-Before-absent max _ r' b = b

step_record-Before :
    (max : ℕ) (k : TradeCommitment) (c : Call) (cs : List Call) (r r' : TradeRecord)
    → key c ≡ k
    → Before (some (step_record max c r).1) r'
    → Before (some r) r' ⊎ SubmittedInTime k (c ∷ cs) r'
step_record-Before max k c cs r r' e (flying, same_txid, same_intent) =
    elim (origin max c r flying) [
      | inl (before, txid_eq, intent_eq) ↦
          inl (before, txid_eq ∙ same_txid, intent_eq ∙ same_intent)
      | inr (txid, now, is_submit, recorded, in_time) ↦ inr (
        txid,
        now,
        Memᴰ.head (sym (is_submit ∙ ap (λ j. submit j txid now) e)),
        sym same_txid ∙ recorded,
        subst (λ i. now.get ≤ i.expiry.get) same_intent in_time,
      )
    ]

step-Before :
    (max : ℕ) (k : TradeCommitment) (c : Call) (cs : List Call) (o : Option TradeRecord)
    (r' : TradeRecord)
    → key c ≡ k
    → Before (step max c o).1 r'
    → Before o r' ⊎ SubmittedInTime k (c ∷ cs) r'
unfolding step
step-Before max k c cs none r' e b = absurd (not-Before-absent max c r' b)
step-Before max k c cs (some r) r' e b = step_record-Before max k c cs r r' e b

later :
    {k : TradeCommitment} {c : Call} {cs : List Call} (r : TradeRecord)
    → SubmittedInTime k cs r
    → SubmittedInTime k (c ∷ cs) r
later r (txid, now, m, recorded, in_time) = (txid, now, Memᴰ.tail m, recorded, in_time)

run_machine-Before :
    (max : ℕ) (k : TradeCommitment) (cs : List Call) (o : Option TradeRecord) (r : TradeRecord)
    → run_machine max k cs o ≡ some r
    → is_in_flight r.state ≡ true
    → Before o r ⊎ SubmittedInTime k cs r
unfolding run_machine
run_machine-Before max k [] o r h f = inl (subst (λ p. Before p r) (sym h) (f, refl, refl))
run_machine-Before max k (c ∷ cs) o r h f = elim (Bool-cases (key c == k)) [
  | inl same ↦ elim (run_machine-Before max k cs (step max c o).1 r (rw same at h) f) [
    | inl before ↦ step-Before max k c cs o r ((newtype_beq_iff (key c) k).0 same) before
    | inr found ↦ inr (later r found)
  ]
  | inr other ↦ elim (run_machine-Before max k cs o r (rw other at h) f) [
    | inl before ↦ inl before
    | inr found ↦ inr (later r found)
  ]
]

-- In any run from an empty store, a trade that is SUBMITTED, CONFIRMED or CONSUMED was submitted by
-- one of the calls of the run, with the txid that its record shows and no later than its expiry.
pub run-SubmittedInTime :
    (max : ℕ) (cs : List Call) (k : TradeCommitment) (r : TradeRecord)
    → get_record (run (with_max_retries max) cs) k ≡ some r
    → is_in_flight r.state ≡ true
    → SubmittedInTime k cs r
unfolding with_max_retries
run-SubmittedInTime max cs k r h f =
    elim (run_machine-Before max k cs none r (sym (run-run_machine (with_max_retries max) cs k) ∙ h)
      f) [ inl never ↦ absurd never | inr found ↦ found ]
