-- ===== src/Protocol/Numbers/Time.antt =====
-- Checked time arithmetic (crates/protocol/src/numbers.rs).
use zwa_protocol.Prelude.{ℕ, ◌+◌, ◌^◌, ◌≡◌, ◌≤◌, ◌<◌, ◌⊎◌, some, arith, inl, inr, Bool-cases, ltb}
use zwa_protocol.Prelude.Words.{IsU64}
use zwa_protocol.Protocol.Error.{ok, err, invalid_timestamp, overflow, expired_trade}
use zwa_protocol.Protocol.Numbers
use zwa_protocol.Protocol.Numbers.{
  UnixSeconds, TradeExpiry, checked_add, checked_sub, checked_add_seconds, seconds_until,
  ensure_unexpired_at, is_expired_at,
}

-- Adding seconds to a time gives the time that is so many seconds later, as `seconds_until` reads
-- it, where that fits in 64 bits, and an overflow error where it does not. A trade that expires at
-- that time is unexpired then and before, and expired at every later time.
pub checked_add_seconds-seconds_until :
    (t now : UnixSeconds) (seconds : ℕ)
    → IsU64 t.get
    → ((later : UnixSeconds) × (checked_add_seconds t seconds ≡ ok later)
        × IsU64 later.get
        × (seconds_until t later ≡ some seconds)
        × (((now.get ≤ t.get + seconds)
              × (ensure_unexpired_at (record { instant = later }) now ≡ ok tt))
            ⊎ ((t.get + seconds < now.get)
                × (ensure_unexpired_at (record { instant = later }) now
                    ≡ err (expired_trade (t.get + seconds) now.get)))))
      ⊎ ((2 ^ 64 ≤ t.get + seconds)
          × (checked_add_seconds t seconds ≡ err (invalid_timestamp overflow)))
unfolding checked_add_seconds checked_add seconds_until checked_sub ensure_unexpired_at
    is_expired_at
checked_add_seconds-seconds_until t now seconds h =
    elim (Bool-cases (ltb Numbers.u64_max (t.get + seconds))) [
      | inl over ↦ inr (ground arith, ground arith)
      | inr fits ↦
          inl (
            record { get = t.get + seconds },
            ground arith,
            ground arith,
            ground arith,
            ground arith,
          )
    ]
