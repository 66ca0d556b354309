-- ===== src/App/PeerData.antt =====
-- bryllite-core/peer_data.hpp: struct PeerData.
use Prim.Native.String.{String}
use bcp_concept_prototype.Prelude.{ℕ}
use bcp_concept_prototype.Prelude.Ints.{ℤ}

pub record PeerData : Type 0 where
  pub peer_id : ℤ
  pub host : String
  pub port : ℕ
