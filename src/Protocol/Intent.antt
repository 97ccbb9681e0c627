-- ===== src/Protocol/Intent.antt =====
-- crates/protocol/src/intent.rs: the canonical trade intent.
use zwa_protocol.Prelude.{Bool}
use zwa_protocol.Protocol.Error.{Result}
use zwa_protocol.Protocol.Bytes.{AssetBaseBytes}
use zwa_protocol.Protocol.Numbers
use zwa_protocol.Protocol.Numbers.{TradeAmount, TradeNonce, TradeExpiry, UnixSeconds}
use zwa_protocol.Protocol.Values.{RecipientCommitment, PolicyRoot, MatcherFee}

pub record TradeIntent : Type 0 where
  pub offered_asset : AssetBaseBytes
  pub offered_amount : TradeAmount
  pub requested_asset : AssetBaseBytes
  pub requested_amount : TradeAmount
  pub recipient_commitment : RecipientCommitment
  pub policy_root : PolicyRoot
  pub matcher_fee : MatcherFee
  pub nonce : TradeNonce
  pub expiry : TradeExpiry

unfoldable pub is_expired_at : TradeIntent → UnixSeconds → Bool
unfolding Numbers.is_expired_at
is_expired_at self now = Numbers.is_expired_at self.expiry now

unfoldable pub ensure_unexpired_at : TradeIntent → UnixSeconds → Result (Unit {0})
unfolding Numbers.ensure_unexpired_at
ensure_unexpired_at self now = Numbers.ensure_unexpired_at self.expiry now
