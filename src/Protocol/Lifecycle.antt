-- ===== src/Protocol/Lifecycle.antt =====
-- crates/protocol/src/lifecycle.rs: the states and events of one trade.
use zwa_protocol.Prelude.{
  ℕ, ◌≡◌, Bool, true, false, List, Eq, ◌==◌, ◌↔◌, list_beq_iff, nat_eq, list_eq, arith,
}

pub data TradeLifecycleState : Type 0 where
  created verified settlement_constructed submitted confirmed consumed expired failed :
      TradeLifecycleState

pub data LifecycleEvent : Type 0 where
  create verify acquire_construction submit confirm consume fail expire retry : LifecycleEvent

pub data FailureReason : Type 0 where
  verification_rejected construction_failed submission_failed confirmation_failed : FailureReason

-- `SettlementTxId([u8; 32])`.
pub record SettlementTxId : Type 0 where
  pub as_bytes : List ℕ

unfoldable pub txid_beq : SettlementTxId → SettlementTxId → Bool
txid_beq a b = a.as_bytes == b.as_bytes

pub txid_beq_iff : (a b : SettlementTxId) → (txid_beq a b ≡ true) ↔ (a ≡ b)
unfolding txid_beq
txid_beq_iff a b = (
  λ h. ground (arith, list_beq_iff a.as_bytes b.as_bytes),
  λ h. ground (arith, list_beq_iff a.as_bytes b.as_bytes),
)

instance abbrev pub txid_eq : Eq SettlementTxId
txid_eq = record { beq = txid_beq; beq_iff = txid_beq_iff }

unfoldable pub is_consumed : TradeLifecycleState → Bool
is_consumed consumed = true
is_consumed _ = false

unfoldable pub is_expired : TradeLifecycleState → Bool
is_expired expired = true
is_expired _ = false

unfoldable pub is_settlement_active : TradeLifecycleState → Bool
is_settlement_active created = true
is_settlement_active verified = true
is_settlement_active settlement_constructed = true
is_settlement_active submitted = true
is_settlement_active confirmed = true
is_settlement_active _ = false

-- The derived `PartialEq`.
abbrev pub state_beq : TradeLifecycleState → TradeLifecycleState → Bool
state_beq created created = true
state_beq verified verified = true
state_beq settlement_constructed settlement_constructed = true
state_beq submitted submitted = true
state_beq confirmed confirmed = true
state_beq consumed consumed = true
state_beq expired expired = true
state_beq failed failed = true
state_beq _ _ = false

pub state_beq_iff : (a b : TradeLifecycleState) → (state_beq a b ≡ true) ↔ (a ≡ b)
state_beq_iff a b = (λ h. ground arith, λ h. ground arith)

instance abbrev pub state_eq : Eq TradeLifecycleState
state_eq = record { beq = state_beq; beq_iff = state_beq_iff }
