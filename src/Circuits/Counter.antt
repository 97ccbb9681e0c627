-- ===== src/Circuits/Counter.antt =====
-- Templates that say what they document, at a hasher that only counts its inputs, and a trade.
use zwa_protocol.Prelude.{ℕ, ◌≡◌, ◌≤◌, ◌<◌, ◌^◌, refl, some, arith, replicate}
use zwa_protocol.Prelude.Words
use zwa_protocol.Protocol.Field
use zwa_protocol.Protocol.Field.{FieldElement, field_zero, field_eq, field_beq, from_u64}
use zwa_protocol.Protocol.Field.Canonical.{value}
use zwa_protocol.Protocol.Intent.{TradeIntent}
use zwa_protocol.Commitments.Poseidon.{hash, poseidon}
use zwa_protocol.Commitments.Counter
use zwa_protocol.Commitments.Counter.{counted, counter, counter-IsCircom}
use zwa_protocol.Commitments.Trade
use zwa_protocol.Commitments.Trade.{RecipientBinding, TradeCommitmentParts}
use zwa_protocol.Commitments.Trade.Binding.{IsIntent}
use zwa_protocol.Circuits.Templates.{Templates, IsLibrary, Membership}
use zwa_protocol.Circuits.Shared.MerklePath.{path_root}

abbrev pub templates : Templates
templates = record {
  Num2Bits = λ n x. value x < 2 ^ n;
  GreaterEqThan = λ n x y. value y ≤ value x;
  PoseidonHash = λ inputs out. hash counter inputs ≡ some out;
  MerkleProof = Membership counter;
}

pub templates-IsLibrary : IsLibrary counter templates
templates-IsLibrary = record {
  bits = λ n x low. (λ h. h, λ h. h);
  compared = λ x y hx hy. (λ h. h, λ h. h);
  hashed = λ inputs out. (λ h. h, λ h. h);
  membership = λ depth leaf root siblings path. (λ h. h, λ h. h);
}

abbrev pub intent : TradeIntent
intent = record {
  offered_asset = record { as_bytes = replicate 32 0x48 };
  offered_amount = record { get = 10 };
  requested_asset = record { as_bytes = replicate 32 0xa7 };
  requested_amount = record { get = 6 };
  recipient_commitment = record { value = counted 3 };
  policy_root = record { value = counted 2 };
  matcher_fee = record {
    amount = record { get = 5 };
    recipient_commitment = record { value = counted 3 };
  };
  nonce = record { get = 7001 };
  expiry = record { instant = record { get = 2000000000 } };
}

pub intent-IsIntent : IsIntent intent
intent-IsIntent = record {
  offered_asset = (refl, omega arith);
  requested_asset = (refl, omega arith);
  offered_amount = omega arith;
  requested_amount = omega arith;
  fee_amount = omega arith;
  nonce = omega arith;
  expiry = omega arith;
}

abbrev pub parts : TradeCommitmentParts
parts = record {
  offered_asset_commitment = record { value = counted 3 };
  requested_asset_commitment = record { value = counted 3 };
  fee_commitment = record { value = counted 4 };
  trade_part_a = record { value = counted 4 };
  trade_part_b = record { value = counted 4 };
  trade_meta = record { value = counted 4 };
  trade_commitment = record { value = counted 4 };
}

pub parts_of : Trade.trade_commitment_parts counter intent ≡ some parts
unfolding Trade.trade_commitment_parts Trade.asset_commitment Trade.fee_commitment hash poseidon
    Counter.count_inputs Words.to_be_bytes Field.from_be_slice
parts_of = refl

-- Any leaf of three levels, on the left at each.
pub member_of :
    (n : ℕ)
    → Membership counter 3 (counted n) (counted 2) (replicate 3 field_zero) (replicate 3 field_zero)
unfolding path_root hash poseidon Counter.count_inputs Words.to_be_bytes Field.from_be_slice
    from_u64
member_of n = (replicate 3 0, refl, omega arith, refl, refl)
