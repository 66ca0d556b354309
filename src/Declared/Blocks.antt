-- ===== src/Declared/Blocks.antt =====
-- bryllite-core: the fields of the classes of accounts, transactions, blocks and the chain.
use Prim.Native.String.{String}
use bcp_concept_prototype.Prelude.{ℕ, Bool, List, if◌then◌else◌}
use bcp_concept_prototype.Prelude.Ints.{ℤ}

-- class CAddress: an array of max_length + 1 bytes
pub record Address : Type 0 where
  pub bytes : List ℕ

abbrev pub min_length : ℕ
min_length = 32

-- class CSecret
pub record Secret : Type 0 where
  pub key : ℕ
  pub signature : ℕ

-- class CPublicKey, a uint264 with its address, and class CKeyPair
pub record PublicKey : Type 0 where
  pub key : ℕ
  pub address : Address

pub record KeyPair : Type 0 where
  pub public_key : PublicKey
  pub private_key : ℕ

abbrev pub key_signature : String
key_signature = "Bryllite"

-- enum class CTransaction::Type, and CTransaction::HashType
pub data TransactionType : Type 0 where
  null_transaction normal_transaction coin_base contract : TransactionType

pub data TransactionHash : Type 0 where
  unsigned owner_signed witness_signed : TransactionHash

pub record Transaction : Type 0 where
  pub kind : TransactionType
  pub timestamp : ℤ
  pub value : ℕ
  pub fee : ℕ
  pub receiver : Address
  pub sender : Address
  pub owner_secret : Secret
  pub witness_secret : Secret

-- class CTransactions
pub record Transactions : Type 0 where
  pub tx_map : List (ℕ × Transaction)
  pub transactions : List Transaction

abbrev pub max_transaction_count : ℕ
max_transaction_count = 200

-- enum CBlockHeader::HashType, and class CBlockHeader
pub data HeaderHash : Type 0 where
  unsigned node_signed user_signed : HeaderHash

pub record BlockHeader : Type 0 where
  pub idx : ℤ
  pub version : ℕ
  pub timestamp : ℤ
  pub hash_prev_block : ℕ
  pub hash_merkle_root : ℕ
  pub transactions : ℕ
  pub node_secret : Secret
  pub user_secret : Secret

-- class CBlock
pub record Block : Type 0 where
  pub header : BlockHeader
  pub transactions : Transactions
  pub node_secrets : List Secret

-- class CBlockChain
pub record BlockChain : Type 0 where
  pub blocks : List (ℤ × Block)
  pub account_balances : List (String × ℕ)
  pub export_file_name : String
  pub stop : Bool
  pub last_block_index : ℤ
  pub data_dir : String

-- the constants of coin.hpp; _DEBUG is an argument
abbrev pub brc_decimals : ℕ
brc_decimals = 8

abbrev pub default_block_reward : ℕ
default_block_reward = 100

unfoldable pub halving_block : Bool → ℕ
halving_block debug = if debug then 1024 else 1051200
