-- ===== src/Commitments/Domain.antt =====
-- crates/commitments/src/domain.rs: the Poseidon domain separators.
use zwa_protocol.Prelude.{ℕ, List}
use zwa_protocol.Prelude.Words
use zwa_protocol.Protocol.Field.{FieldElement, from_u64}
pub mod Labels

-- `Domain` has no public constructor but these constants.
pub data Domain : Type 0 where
  asset_v1 fee_v1 trade_a_v1 trade_b_v1 trade_meta_v1 trade_v1 zec_asset_tag : Domain
  subject_v1 receiver_v1 recipient_binding_v1 fee_recipient_v1 recipient_v1 : Domain
  credential_meta_v1 credential_v2 : Domain

unfoldable pub tag : Domain → ℕ
tag asset_v1 = 18387490596738609
tag fee_v1 = 301809882673
tag trade_a_v1 = 23734351151715889
tag trade_b_v1 = 23734351168493105
tag trade_meta_v1 = 23734351353042481
tag trade_v1 = 6075990608753677873
tag zec_asset_tag = 5915971
tag subject_v1 = 6004778564925477937
tag receiver_v1 = 5928218449365324337
tag recipient_binding_v1 = 5927669780177634353
tag fee_recipient_v1 = 19793697433736753
tag recipient_v1 = 90449063990833
tag credential_meta_v1 = 4851015908287927361
tag credential_v2 = 18949280892933682

unfoldable pub as_field : Domain → FieldElement
unfolding tag from_u64
as_field self = from_u64 (tag self)
