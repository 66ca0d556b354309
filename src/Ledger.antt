-- ===== src/Ledger.antt =====
-- tests/dev/node-server-mono/block_chain.hpp and block_chain.cpp: the chain of a node server and the
-- balances of its accounts. An amount is a uint64_t and wraps.
pub mod Append
pub mod Balance
use bcp_concept_prototype.Prelude.{
  ℕ, ◌+◌, ◌-◌, ◌%◌, ◌^◌, Bool, true, false, not, ◌&&◌, Option, none, some, List, [], ◌∷◌, ◌==◌,
  if◌then◌else◌, length,
}
use bcp_concept_prototype.Prelude.Map.{Map, lookup, put, contains}
use bcp_concept_prototype.Core.{Core}

abbrev pub u64_mod : ℕ
u64_mod = 2 ^ 64

-- a + b and a - b on uint64_t
unfoldable pub add64 : ℕ → ℕ → ℕ
add64 a b = (a + b) % u64_mod

unfoldable pub sub64 : ℕ → ℕ → ℕ
sub64 a b = (a + u64_mod - b) % u64_mod

-- m.count( k ) > 0 ? m[k] : d
unfoldable pub value_or {ℓ} : {A : Type ℓ} → Option A → A → A
value_or none d = d
value_or (some a) d = a

unfoldable pub balance_of : ℕ → Map ℕ → ℕ
unfolding value_or
balance_of account balances = value_or (lookup account balances) 0

-- The two statements of the loop of update_balance().
unfoldable pub debit : ℕ → ℕ → Map ℕ → Map ℕ
debit account amount balances = elim (lookup account balances) [
  | none ↦ put account 0 balances
  | some old ↦ put account (sub64 old amount) balances
]

unfoldable pub credit : ℕ → ℕ → Map ℕ → Map ℕ
credit account amount balances = elim (lookup account balances) [
  | none ↦ put account amount balances
  | some old ↦ put account (add64 old amount) balances
]

module _ ⦃c : Core⦄ where
  open c use {
    Block, Transaction, null_block, block_index, transactions, header, header_hash, value, from, to,
    coinbase, valid,
  }

  -- class block_chain
  pub record BlockChain : Type 0 where
    pub map_blocks : Map Block
    pub account_balances : Map ℕ

  unfoldable pub new : BlockChain
  new = record { map_blocks = []; account_balances = [] }

  unfoldable pub height : BlockChain → ℕ
  height s = length s.map_blocks

  -- The loop of verify_block(): the first transaction that fails ends it.
  unfoldable pub verify_transactions : List Transaction → Bool
  verify_transactions [] = true
  verify_transactions (tx ∷ txs) =
      if not (valid tx) then false else (if value tx == 0 then false else verify_transactions txs)

  unfoldable pub verify_block : Block → Bool
  verify_block b = verify_transactions (transactions b)

  unfoldable pub apply_transaction : Transaction → Map ℕ → Map ℕ
  apply_transaction tx balances =
      let amount = value tx in
      let debited : Map ℕ =
        if not (coinbase tx) then debit (from tx) amount balances else balances in
      credit (to tx) amount debited

  unfoldable pub update_balance : List Transaction → Map ℕ → Map ℕ
  update_balance [] balances = balances
  update_balance (tx ∷ txs) balances = update_balance txs (apply_transaction tx balances)

  unfoldable pub block_exists : ℕ → BlockChain → Bool
  block_exists index s = contains index s.map_blocks

  unfoldable pub append_block : Block → BlockChain → BlockChain × Bool
  append_block b s =
      if block_exists (block_index b) s
      then (s, false)
      else (if not (verify_block b) then (s, false) else (
        record {
          map_blocks = put (block_index b) b s.map_blocks;
          account_balances = update_balance (transactions b) s.account_balances;
        },
        true,
      ))

  -- get_block( block_index, b ): none where it returns false; the loop finds the entry of the key
  unfoldable pub get_block : ℕ → BlockChain → Option Block
  get_block index s = lookup index s.map_blocks

  -- get_block( block_index )
  unfoldable pub get_block_or_null : ℕ → BlockChain → Block
  unfolding value_or
  get_block_or_null index s = value_or (get_block index s) null_block

  -- uint256() is zero.
  unfoldable pub get_block_hash : ℕ → BlockChain → ℕ
  get_block_hash index s = elim (get_block index s) [ none ↦ 0 | some b ↦ header_hash (header b) ]
