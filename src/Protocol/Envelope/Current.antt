-- ===== src/Protocol/Envelope/Current.antt =====
-- Building root metadata and asking whether it is current (crates/protocol/src/envelope.rs).
use zwa_protocol.Prelude.{◌≡◌, ◌≤◌, ◌<◌, ◌↔◌, ◌⊎◌, arith}
use zwa_protocol.Protocol.Error.{
  ok, err, ◌>>=◌, invalid_root_envelope, invalid_timestamp, unsupported_version, window_inverted,
  not_yet_valid, RootEnvelopeProblem,
}
use zwa_protocol.Protocol.Numbers.{RootVersion, UnixSeconds, is_valid}
use zwa_protocol.Protocol.Envelope.{
  root_metadata_new, ensure_current_at, contains, validity_window_new,
}

-- Metadata is built and current exactly if its version is at least 1 and the time is in the window,
-- both ends included. Otherwise the first of these checks that fails names the error: the version,
-- the order of the window, its start, its end.
pub ensure_current_at-root_metadata_new :
    (version : RootVersion) (valid_from expires_at now : UnixSeconds)
    → let outcome =
        root_metadata_new version valid_from expires_at >>= λ m. ensure_current_at m now in
      ((outcome ≡ ok tt)
        ↔ ((1 ≤ version.get) × (valid_from.get ≤ now.get) × (now.get ≤ expires_at.get)))
      × ((outcome ≡ ok tt)
          ⊎ ((version.get ≡ 0) × (outcome ≡ err (unsupported_version 0)))
          ⊎ ((1 ≤ version.get)
              × (expires_at.get < valid_from.get)
              × (outcome ≡ err (invalid_timestamp window_inverted)))
          ⊎ ((1 ≤ version.get)
              × (valid_from.get ≤ expires_at.get)
              × (now.get < valid_from.get)
              × (outcome ≡ err (invalid_root_envelope (not_yet_valid valid_from.get now.get))))
          ⊎ ((1 ≤ version.get)
              × (valid_from.get ≤ expires_at.get)
              × (expires_at.get < now.get)
              × (outcome
                  ≡ err (
                      invalid_root_envelope (RootEnvelopeProblem.expired expires_at.get now.get)))))
unfolding root_metadata_new ensure_current_at contains validity_window_new is_valid
ensure_current_at-root_metadata_new version valid_from expires_at now =
    ((λ h. ground arith, λ h. ground arith), ground arith)
