-- ===== src/Commitments/Runs.antt =====
-- The commitments at the asset base of the tests of crates/commitments/src/asset_base.rs, and at a
-- hasher that only counts its inputs.
use zwa_protocol.Prelude.{ℕ, ◌≡◌, ◌≢◌, ◌≤◌, ◌<◌, ◌⊎◌, ◌^◌, refl, some, arith, replicate, List}
use zwa_protocol.Prelude.Words
use zwa_protocol.Prelude.Words.{IsBytes, IsU128, to_be_bytes-IsBytes, from_be_bytes-to_be_bytes}
use zwa_protocol.Protocol.Error.{ok, err, commitment_mismatch}
use zwa_protocol.Protocol.Field
use zwa_protocol.Protocol.Field.{FieldElement, field_zero, to_decimal_string}
use zwa_protocol.Protocol.Bytes.{AssetBaseBytes, OrchardReceiverBytes}
use zwa_protocol.Protocol.Values.{SubjectSecret, TradeCommitment}
use zwa_protocol.Protocol.Intent.{TradeIntent}
use zwa_protocol.Commitments.Receiver
use zwa_protocol.Commitments.Receiver.{
  ReceiverLimbs, encode_receiver, decode_receiver, decode_receiver-encode_receiver,
  encode_receiver-decode_receiver, receiver_limb2_max,
}
use zwa_protocol.Commitments.Domain.{fee_recipient_v1}
use zwa_protocol.Commitments.Poseidon.{poseidon, hash}
use zwa_protocol.Commitments.Counter
use zwa_protocol.Commitments.Counter.{counted, counter, counter-IsCircom}
use zwa_protocol.Commitments.Trade
use zwa_protocol.Commitments.Trade.{RecipientBinding, TradeCommitmentParts}
use zwa_protocol.Commitments.Trade.Binding.{IsIntent, CollidesIn, hashed, trade_commitment-binds}
use zwa_protocol.Commitments.Trade.Verify.{verify_trade_commitment_cases}
use zwa_protocol.Commitments.Trade.Bytes.{canonical_bytes_commitment-binds}
use zwa_protocol.Commitments.Trade.Bytes.Chain.{CollidesAmong, bytes_hashed}

abbrev asset : AssetBaseBytes
asset = record { as_bytes = replicate 32 0xa7 }

abbrev receiver : OrchardReceiverBytes
receiver = record { as_bytes = replicate 43 0x2b }

asset-IsBytes : IsBytes 32 asset.as_bytes
asset-IsBytes = (refl, omega arith)

receiver-IsBytes : IsBytes 43 receiver.as_bytes
receiver-IsBytes = (refl, omega arith)

decode_receiver-encode_receiver_example :
    IsU128 (encode_receiver receiver).limb0
    × IsU128 (encode_receiver receiver).limb1
    × ((encode_receiver receiver).limb2 ≤ receiver_limb2_max)
    × (Receiver.new
          (encode_receiver receiver).limb0
          (encode_receiver receiver).limb1
          (encode_receiver receiver).limb2
        ≡ ok (encode_receiver receiver))
    × (decode_receiver (encode_receiver receiver) ≡ receiver)
decode_receiver-encode_receiver_example = decode_receiver-encode_receiver receiver receiver-IsBytes

abbrev intent : ℕ → TradeIntent
intent amount = record {
  offered_asset = asset;
  offered_amount = record { get = amount };
  requested_asset = asset;
  requested_amount = record { get = 6 };
  recipient_commitment = record { value = counted 1 };
  policy_root = record { value = counted 2 };
  matcher_fee = record {
    amount = record { get = 5 };
    recipient_commitment = record { value = counted 3 };
  };
  nonce = record { get = 7001 };
  expiry = record { instant = record { get = 2000000000 } };
}

intent-IsIntent : (amount : ℕ) → amount < 2 ^ 64 → IsIntent (intent amount)
intent-IsIntent amount h = record {
  offered_asset = asset-IsBytes;
  requested_asset = asset-IsBytes;
  offered_amount = h;
  requested_amount = omega arith;
  fee_amount = omega arith;
  nonce = omega arith;
  expiry = omega arith;
}

abbrev parts : TradeCommitmentParts
parts = record {
  offered_asset_commitment = record { value = counted 3 };
  requested_asset_commitment = record { value = counted 3 };
  fee_commitment = record { value = counted 4 };
  trade_part_a = record { value = counted 4 };
  trade_part_b = record { value = counted 4 };
  trade_meta = record { value = counted 4 };
  trade_commitment = record { value = counted 4 };
}

parts_lem : (amount : ℕ) → Trade.trade_commitment_parts counter (intent amount) ≡ some parts
unfolding Trade.trade_commitment_parts Trade.asset_commitment Trade.fee_commitment hash poseidon
    Counter.count_inputs Words.to_be_bytes Field.from_be_slice
parts_lem amount = refl

trade_commitment-binds_example :
    (intent 10 ≡ intent 11)
    ⊎ CollidesIn counter (hashed (intent 10) parts) (hashed (intent 11) parts)
trade_commitment-binds_example =
    trade_commitment-binds counter counter-IsCircom (intent 10) (intent 11)
      (intent-IsIntent 10 (omega arith)) (intent-IsIntent 11 (omega arith)) parts parts
      (parts_lem 10) (parts_lem 11) refl

verify_trade_commitment_cases_example :
    (actual : TradeCommitment) × (Trade.trade_commitment_v1 counter (intent 10) ≡ some actual)
    × (((actual ≡ record { value = counted 9 })
          × (Trade.verify_trade_commitment counter (intent 10) (record { value = counted 9 })
              ≡ some (ok tt)))
        ⊎ ((actual ≢ record { value = counted 9 })
            × (Trade.verify_trade_commitment counter (intent 10) (record { value = counted 9 })
                ≡ some (
                    err (
                      commitment_mismatch
                        (to_decimal_string (counted 9))
                        (to_decimal_string actual.value))))))
verify_trade_commitment_cases_example =
    verify_trade_commitment_cases counter counter-IsCircom (intent 10)
      (record { value = counted 9 })

abbrev secret : ℕ → SubjectSecret
secret n = record { value = counted n }

abbrev bound : RecipientBinding
bound = record {
  subject_commitment = record { value = counted 2 };
  receiver_commitment = record { value = counted 4 };
  recipient_commitment = record { value = counted 3 };
}

bound_lem : (n : ℕ) → Trade.bind_recipient counter (secret n) receiver ≡ some bound
unfolding Trade.bind_recipient Trade.subject_commitment Trade.receiver_commitment
    Trade.recipient_commitment hash poseidon Counter.count_inputs Words.to_be_bytes
    Field.from_be_slice
bound_lem n = refl

Commits : (bytes : List ℕ) → Type 0
Commits bytes = Trade.canonical_bytes_commitment counter fee_recipient_v1 bytes ≡ some (counted 3)

seven_bytes : Commits (replicate 7 1)
unfolding Commits Trade.canonical_bytes_commitment Trade.absorb Trade.chunks hash poseidon
    Counter.count_inputs Words.to_be_bytes Field.from_be_slice
seven_bytes = refl

twenty_bytes : Commits (replicate 20 1)
unfolding Commits Trade.canonical_bytes_commitment Trade.absorb Trade.chunks hash poseidon
    Counter.count_inputs Words.to_be_bytes Field.from_be_slice
twenty_bytes = refl

canonical_bytes_commitment-binds_example :
    ((fee_recipient_v1 ≡ fee_recipient_v1) × ◌≡◌ {A = List ℕ} (replicate 7 1) (replicate 20 1))
    ⊎ CollidesAmong counter
        (bytes_hashed counter fee_recipient_v1 (replicate 7 1))
        (bytes_hashed counter fee_recipient_v1 (replicate 20 1))
unfolding Commits
canonical_bytes_commitment-binds_example =
    canonical_bytes_commitment-binds counter counter-IsCircom fee_recipient_v1 fee_recipient_v1
      (replicate 7 1) (replicate 20 1) (counted 3) (omega arith) (omega arith) (omega arith)
      (omega arith) (omega arith) (omega arith) seven_bytes twenty_bytes

abbrev other_receiver : OrchardReceiverBytes
other_receiver = record { as_bytes = replicate 43 0x2c }

fee_recipient :
    (n : ℕ)
    → Trade.matcher_fee_recipient_commitment counter (record { as_bytes = replicate 43 n })
      ≡ some (record { value = counted 3 })
unfolding Trade.matcher_fee_recipient_commitment Trade.canonical_bytes_commitment Trade.absorb
    Trade.chunks hash poseidon Counter.count_inputs Words.to_be_bytes Field.from_be_slice
fee_recipient n = refl
