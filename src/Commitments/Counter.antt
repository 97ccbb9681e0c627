-- ===== src/Commitments/Counter.antt =====
-- A hasher whose digest is the number of its inputs.
use zwa_protocol.Prelude.{ℕ, Option, some, none, List, arith, length, leb, ◌&&◌, if◌then◌else◌}
use zwa_protocol.Prelude.Words
use zwa_protocol.Prelude.Words.{to_be_bytes-IsBytes, from_be_bytes-to_be_bytes}
use zwa_protocol.Protocol.Field.{FieldElement}
use zwa_protocol.Commitments.Poseidon.{LightPoseidon, IsCircom}

abbrev pub counted : ℕ → FieldElement
counted n = record { to_be_bytes = Words.to_be_bytes 32 n }

unfoldable pub count_inputs : List FieldElement → Option (List ℕ)
count_inputs inputs =
    if leb 1 (length inputs) && leb (length inputs) 12
    then some (Words.to_be_bytes 32 (length inputs))
    else none

abbrev pub counter : LightPoseidon
counter = record { digest = count_inputs }

pub counter-IsCircom : IsCircom counter
unfolding count_inputs
counter-IsCircom = record {
  supported = λ inputs low high. (
    Words.to_be_bytes 32 (length inputs),
    ground arith,
    to_be_bytes-IsBytes 32 (length inputs),
    omega (arith, from_be_bytes-to_be_bytes 32 (length inputs) (omega arith)),
  );
  unsupported = λ inputs outside. ground arith;
}
