-- ===== src/Tests.antt =====
-- A small instance of the closed types, on which the theorems are tried: a header is the number
-- of its hash, a block lists its transactions, and every block and transaction is valid.
pub mod Consensus
pub mod Chains
pub mod Nodes
pub mod Peers
pub mod Streams
pub mod Messages
pub mod Wire
pub mod P2p
pub mod Apps
use bcp_concept_prototype.Prelude.{ℕ, Bool, true, Option, some, List, [], ◌∷◌, ◌==◌, ◌&&◌, ltb}
use bcp_concept_prototype.Core.{Core, Chain}
use bcp_concept_prototype.Mono.{MonoCore}
use bcp_concept_prototype.Ledger
use bcp_concept_prototype.Ledger.{
  BlockChain, block_exists, get_block, get_block_hash, append_block, height,
}

pub record Payment : Type 0 where
  pub sender : ℕ
  pub receiver : ℕ
  pub amount : ℕ
  pub is_reward : Bool

pub record PlainBlock : Type 0 where
  pub index : ℕ
  pub head : ℕ
  pub payments : List Payment

instance abbrev pub plain : Core
plain = record {
  Header = ℕ;
  Block = PlainBlock;
  Transaction = Payment;
  null_header = 0;
  header_hash = λ h. h;
  hash_string = λ h. h;
  header_eq = λ a b. a == b;
  null_block = record { index = 0; head = 0; payments = [] };
  new_block = λ i prev. record { index = i; head = prev; payments = [] };
  block_index = λ b. b.index;
  header = λ b. b.head;
  set_header = λ h b. record { index = b.index; head = h; payments = b.payments };
  transactions = λ b. b.payments;
  append_transaction =
      λ b tx. some (record { index = b.index; head = b.head; payments = tx ∷ b.payments });
  sign = λ b account. b;
  verify = λ b. true;
  coinbase_transaction =
      λ to reward. record { sender = to; receiver = to; amount = reward; is_reward = true };
  value = λ tx. tx.amount;
  from = λ tx. tx.sender;
  to = λ tx. tx.receiver;
  coinbase = λ tx. tx.is_reward;
  valid = λ tx. true;
  invalid_block_index = 0;
  max_block_size = 1048576;
  transfer = λ size b. b;
}

-- The chain of the repository as the chain of a node server.
instance abbrev pub plain_chain : Chain
plain_chain = record {
  Blocks = BlockChain;
  current_height = height;
  block_exists = block_exists;
  get_block_hash = get_block_hash;
  get_block = get_block;
  append_block = append_block;
}

-- The first account is nobody's.
instance abbrev pub plain_mono : MonoCore
plain_mono = record {
  header_lt = λ a b. ltb a b;
  block_eq = λ a b. a.index == b.index && a.head == b.head;
  block_valid = λ b. true;
  merkle_root_hash = λ b. b.head;
  header_merkle_root = λ h. h;
  reward_transaction =
      λ a b reward. record { sender = a; receiver = b; amount = reward; is_reward = true };
  address_empty = λ a. a == 0;
}

abbrev pub plain_block : ℕ → ℕ → List Payment → PlainBlock
plain_block i h txs = record { index = i; head = h; payments = txs }

abbrev pub payment : ℕ → ℕ → ℕ → Bool → Payment
payment a b v reward = record { sender = a; receiver = b; amount = v; is_reward = reward }
