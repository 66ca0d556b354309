-- ===== src/Core.antt =====
-- What tests/dev/node-server-mono uses of the closed part of bryllite-core: the types
-- `bryllite::block_header`, `bryllite::block` and `bryllite::transaction` with the members that the
-- server calls. None of their code is in the repository, so they are a parameter of the model.
-- A hash is the number that its bytes spell, the first byte the highest: the order of memcmp.
-- An address stands for its text in the order of std::string, a time and an amount for a number.
use bcp_concept_prototype.Prelude.{ℕ, Bool, Option, List}

pub record Core : Type 1 where
  pub Header : Type 0
  pub Block : Type 0
  pub Transaction : Type 0
  -- block_header()
  pub null_header : Header
  -- get_header_hash()
  pub header_hash : Header → ℕ
  -- get_hash_string(), compared as a text
  pub hash_string : Header → ℕ
  -- operator==
  pub header_eq : Header → Header → Bool
  -- block()
  pub null_block : Block
  -- block( block_index, prev_hash )
  pub new_block : ℕ → ℕ → Block
  pub block_index : Block → ℕ
  -- _header, and its assignment
  pub header : Block → Header
  pub set_header : Header → Block → Block
  pub transactions : Block → List Transaction
  -- append_transaction(): none where it returns false
  pub append_transaction : Block → Transaction → Option Block
  -- sign() with the key pair of the account
  pub sign : Block → ℕ → Block
  pub verify : Block → Bool
  -- transaction( to, value ), signed by the account
  pub coinbase_transaction : ℕ → ℕ → Transaction
  pub value : Transaction → ℕ
  pub from : Transaction → ℕ
  pub to : Transaction → ℕ
  pub coinbase : Transaction → Bool
  pub valid : Transaction → Bool
  pub invalid_block_index : ℕ
  pub max_block_size : ℕ
  -- what unserialize() reads back from a buffer of that size, which serialize() filled
  pub transfer : ℕ → Block → Block

-- class CBlockChain of bryllite-core, which a node server keeps; its code is closed too. The
-- repository's own block_chain of tests/dev/node-server-mono has this interface.
pub record Chain ⦃c : Core⦄ : Type 1 where
  pub Blocks : Type 0
  pub current_height : Blocks → ℕ
  pub block_exists : ℕ → Blocks → Bool
  pub get_block_hash : ℕ → Blocks → ℕ
  pub get_block : ℕ → Blocks → Option c.Block
  pub append_block : c.Block → Blocks → Blocks × Bool
