-- ===== src/Mono.antt =====
-- tests/dev/bcp_mono: an earlier form of the node servers, in which a node finds majorities in plain
-- lists of what it received. The child modules hold _vector, block_chain, node and node_manager.
pub mod Vector
pub mod Chain
pub mod Peer
use bcp_concept_prototype.Prelude.{ℕ, Bool, List}
use bcp_concept_prototype.Core.{Core}

-- What bcp_mono uses of the closed part of bryllite-core beside the members in Core.
pub record MonoCore ⦃c : Core⦄ : Type 1 where
  -- operator< of block_header, and operator== of block
  pub header_lt : c.Header → c.Header → Bool
  pub block_eq : c.Block → c.Block → Bool
  -- valid() of a block
  pub block_valid : c.Block → Bool
  -- merkle_root_hash(), and _header._hashMerkleRoot of a header
  pub merkle_root_hash : c.Block → ℕ
  pub header_merkle_root : c.Header → ℕ
  -- transaction( from, to, value ), signed
  pub reward_transaction : ℕ → ℕ → ℕ → c.Transaction
  -- empty() of an address
  pub address_empty : ℕ → Bool
