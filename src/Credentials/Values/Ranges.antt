-- ===== src/Credentials/Values/Ranges.antt =====
-- The codes and expiries of crates/credentials/src/values.rs against the ranges and the check of
-- the eligibility circuit.
use zwa_protocol.Prelude.{ℕ, ◌^◌, ◌≡◌, ◌≤◌, ◌<◌, ◌⊎◌, true, false, arith}
use zwa_protocol.Protocol.Error.{ok, err, CredentialCodeField, credential_code_out_of_range}
use zwa_protocol.Protocol.Numbers.{TradeExpiry, UnixSeconds, is_expired_at}
use zwa_protocol.Credentials.Values.{
  code_bits, code_from_u64, CredentialExpiry, covers_trade_expiry,
}

-- A class of 8 bits or a jurisdiction of 16 bits is kept, and any larger number is rejected with its
-- field and width.
code_from_u64_cases :
    (field : CredentialCodeField) (value : ℕ)
    → ((value < 2 ^ code_bits field) × (code_from_u64 field value ≡ ok (record { get = value })))
      ⊎ ((2 ^ code_bits field ≤ value)
          × (code_from_u64 field value
              ≡ err (credential_code_out_of_range field (code_bits field))))
unfolding code_from_u64
code_from_u64_cases CredentialCodeField.investor_class value = ground arith
code_from_u64_cases CredentialCodeField.jurisdiction value = ground arith

-- A credential that covers the expiry of a trade has not passed its own expiry at any time at which
-- the trade is unexpired; one that does not has passed it at the expiry of the trade, where the
-- trade is still unexpired.
covers_trade_expiry-is_expired_at :
    (credential : CredentialExpiry) (trade : TradeExpiry) (now : UnixSeconds)
    → ((covers_trade_expiry credential trade.instant ≡ true)
        × ((is_expired_at trade now ≡ true) ⊎ (now.get ≤ credential.get)))
      ⊎ ((covers_trade_expiry credential trade.instant ≡ false)
          × (is_expired_at trade trade.instant ≡ false)
          × (credential.get < trade.get))
unfolding covers_trade_expiry is_expired_at
covers_trade_expiry-is_expired_at credential trade now = ground arith
