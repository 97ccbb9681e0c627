-- ===== src/Protocol/Numbers.antt =====
-- crates/protocol/src/numbers.rs: the 64-bit quantities, and expiry.
pub mod Time
use zwa_protocol.Prelude.{ℕ, ◌+◌, ◌-◌, ◌^◌, Bool, Option, none, some, ltb, leb, if◌then◌else◌}
use zwa_protocol.Protocol.Error.{Result, ok, err, invalid_timestamp, overflow, expired_trade}

-- The types that `u64_newtype!` makes: one wrapper of a number, kept apart by its kind.
pub data U64Kind : Type 0 where
  trade_amount zatoshi_amount trade_nonce root_version unix_seconds : U64Kind

pub record U64Newtype (kind : U64Kind) : Type 0 where
  pub get : ℕ

abbrev pub TradeAmount : Type 0
TradeAmount = U64Newtype trade_amount

abbrev pub ZatoshiAmount : Type 0
ZatoshiAmount = U64Newtype zatoshi_amount

abbrev pub TradeNonce : Type 0
TradeNonce = U64Newtype trade_nonce

abbrev pub RootVersion : Type 0
RootVersion = U64Newtype root_version

abbrev pub UnixSeconds : Type 0
UnixSeconds = U64Newtype unix_seconds

-- `u64::MAX`.
abbrev pub u64_max : ℕ
u64_max = 2 ^ 64 - 1

abbrev pub min_version : RootVersion
min_version = record { get = 1 }

unfoldable pub is_valid : RootVersion → Bool
is_valid version = leb min_version.get version.get

-- `u64::checked_add` and `u64::checked_sub`.
unfoldable pub checked_add : ℕ → ℕ → Option ℕ
checked_add a b = if ltb u64_max (a + b) then none else some (a + b)

unfoldable pub checked_sub : ℕ → ℕ → Option ℕ
checked_sub a b = if ltb a b then none else some (a - b)

abbrev ok_or_overflow : Option ℕ → Result UnixSeconds
ok_or_overflow none = err (invalid_timestamp overflow)
ok_or_overflow (some n) = ok (record { get = n })

unfoldable pub checked_add_seconds : UnixSeconds → ℕ → Result UnixSeconds
unfolding checked_add
checked_add_seconds self seconds = ok_or_overflow (checked_add self.get seconds)

unfoldable pub seconds_until : UnixSeconds → UnixSeconds → Option ℕ
unfolding checked_sub
seconds_until self later = checked_sub later.get self.get

pub record TradeExpiry : Type 0 where
  pub instant : UnixSeconds
  pub open instant use *

unfoldable pub is_expired_at : TradeExpiry → UnixSeconds → Bool
is_expired_at self now = ltb self.instant.get now.get

unfoldable pub ensure_unexpired_at : TradeExpiry → UnixSeconds → Result (Unit {0})
unfolding is_expired_at
ensure_unexpired_at self now =
    if is_expired_at self now then err (expired_trade self.instant.get now.get) else ok tt
