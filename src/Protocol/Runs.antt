-- ===== src/Protocol/Runs.antt =====
-- Times, envelopes and containers at concrete values.
use zwa_protocol.Prelude.{ℕ, ◌+◌, ◌^◌, ◌≡◌, ◌≤◌, ◌<◌, ◌⊎◌, ◌↔◌, some, arith, List, replicate}
use zwa_protocol.Prelude.Words.{IsU64}
use zwa_protocol.Protocol.Error.{
  Result, ok, err, ◌>>=◌, invalid_timestamp, overflow, expired_trade, invalid_root_envelope,
  invalid_proof, unsupported_version, window_inverted, not_yet_valid, missing_authority_identifier,
  identifier_too_long, signature_missing, signature_too_long, empty, too_large, RootEnvelopeProblem,
}
use zwa_protocol.Protocol.Numbers.{
  UnixSeconds, RootVersion, checked_add_seconds, seconds_until, ensure_unexpired_at,
}
use zwa_protocol.Protocol.Numbers.Time.{checked_add_seconds-seconds_until}
use zwa_protocol.Protocol.Envelope.{
  root_metadata_new, ensure_current_at, key_identifier_new, opaque_signature_new,
}
use zwa_protocol.Protocol.Envelope.Current.{ensure_current_at-root_metadata_new}
use zwa_protocol.Protocol.Proof.{opaque_proof_new}
use zwa_protocol.Protocol.Proof.Bounds.{Bounded, containers-Bounded}

abbrev at_time : ℕ → UnixSeconds
at_time n = record { get = n }

abbrev first_version : RootVersion
first_version = record { get = 1 }

checked_add_seconds-seconds_until_example :
    ((later : UnixSeconds) × (checked_add_seconds (at_time 1000) 60 ≡ ok later)
      × IsU64 later.get
      × (seconds_until (at_time 1000) later ≡ some 60)
      × (((1060 ≤ 1000 + 60)
            × (ensure_unexpired_at (record { instant = later }) (at_time 1060) ≡ ok tt))
          ⊎ ((1000 + 60 < 1060)
              × (ensure_unexpired_at (record { instant = later }) (at_time 1060)
                  ≡ err (expired_trade (1000 + 60) 1060)))))
    ⊎ ((2 ^ 64 ≤ 1000 + 60)
        × (checked_add_seconds (at_time 1000) 60 ≡ err (invalid_timestamp overflow)))
checked_add_seconds-seconds_until_example =
    checked_add_seconds-seconds_until (at_time 1000) (at_time 1060) 60 (omega arith)

abbrev sample_outcome : Result (Unit {0})
sample_outcome = root_metadata_new first_version (at_time 10) (at_time 20) >>= λ m.
    ensure_current_at m (at_time 21)

ensure_current_at-root_metadata_new_example :
    ((sample_outcome ≡ ok tt) ↔ ((1 ≤ 1) × (10 ≤ 21) × (21 ≤ 20)))
    × ((sample_outcome ≡ ok tt)
        ⊎ ((first_version.get ≡ 0) × (sample_outcome ≡ err (unsupported_version 0)))
        ⊎ ((1 ≤ 1) × (20 < 10) × (sample_outcome ≡ err (invalid_timestamp window_inverted)))
        ⊎ ((1 ≤ 1)
            × (10 ≤ 20)
            × (21 < 10)
            × (sample_outcome ≡ err (invalid_root_envelope (not_yet_valid 10 21))))
        ⊎ ((1 ≤ 1)
            × (10 ≤ 20)
            × (20 < 21)
            × (sample_outcome ≡ err (invalid_root_envelope (RootEnvelopeProblem.expired 20 21)))))
ensure_current_at-root_metadata_new_example =
    ensure_current_at-root_metadata_new first_version (at_time 10) (at_time 20) (at_time 21)

abbrev sample_bytes : List ℕ
sample_bytes = replicate 65 7

containers-Bounded_example :
    Bounded 64
      (invalid_root_envelope missing_authority_identifier)
      (λ got max. invalid_root_envelope (identifier_too_long got max))
      sample_bytes
      (key_identifier_new sample_bytes)
      (record { as_bytes = sample_bytes })
    × Bounded 1024
        (invalid_root_envelope signature_missing)
        (λ got max. invalid_root_envelope (signature_too_long got max))
        sample_bytes
        (opaque_signature_new sample_bytes)
        (record { as_bytes = sample_bytes })
    × Bounded 16384
        (invalid_proof empty)
        (λ got max. invalid_proof (too_large got max))
        sample_bytes
        (opaque_proof_new sample_bytes)
        (record { as_bytes = sample_bytes })
containers-Bounded_example = containers-Bounded sample_bytes
