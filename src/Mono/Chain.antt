-- ===== src/Mono/Chain.antt =====
-- tests/dev/bcp_mono/block_chain.cpp: the chain of a node and the balances of the accounts. An
-- amount is a uint64_t.
pub mod Balance
use bcp_concept_prototype.Prelude.{
  ℕ, Bool, true, false, not, ◌&&◌, Option, none, some, List, [], ◌∷◌, ◌==◌, ltb, leb, if◌then◌else◌,
  length,
}
use bcp_concept_prototype.Prelude.Map.{Map, lookup, put, contains}
use bcp_concept_prototype.Core.{Core}
use bcp_concept_prototype.Mono.{MonoCore}
use bcp_concept_prototype.Ledger.{add64, sub64, value_or}

module _ ⦃c : Core⦄ ⦃k : MonoCore⦄ where
  open c use {Block, Transaction, transactions, value, from, to}
  open k use {address_empty}

  -- class block_chain
  pub record BlockChain : Type 0 where
    pub blocks : Map Block
    pub balances : Map ℕ
    pub last_block_index : ℕ

  unfoldable pub new : BlockChain
  new = record { blocks = []; balances = []; last_block_index = 0 }

  unfoldable pub size : BlockChain → ℕ
  size s = length s.blocks

  unfoldable pub get_block : ℕ → BlockChain → Option Block
  get_block index s = lookup index s.blocks

  unfoldable pub balance_of : ℕ → BlockChain → ℕ
  unfolding value_or
  balance_of address s = value_or (lookup address s.balances) 0

  -- The sender pays, and none where it cannot.
  unfoldable pub pay : ℕ → ℕ → Map ℕ → Option (Map ℕ)
  pay address amount balances = elim (lookup address balances) [
    | none ↦ none
    | some old ↦ if leb amount old then some (put address (sub64 old amount) balances) else none
  ]

  unfoldable pub earn : ℕ → ℕ → Map ℕ → Map ℕ
  earn address amount balances =
      if address_empty address then balances else elim (lookup address balances) [
        | none ↦ put address amount balances
        | some old ↦ put address (add64 old amount) balances
      ]

  -- The loop body of build_balance_for(): `continue` leaves the balances.
  unfoldable pub apply_transaction : Transaction → Map ℕ → Map ℕ
  apply_transaction tx balances =
      let amount = value tx in
      if amount == 0
      then balances
      else (if not (address_empty (from tx)) && not (from tx == to tx)
          then elim (pay (from tx) amount balances) [
            | none ↦ balances
            | some paid ↦ earn (to tx) amount paid
          ]
          else earn (to tx) amount balances)

  unfoldable pub build_balance_for : List Transaction → Map ℕ → Map ℕ
  build_balance_for [] balances = balances
  build_balance_for (tx ∷ txs) balances = build_balance_for txs (apply_transaction tx balances)

  -- The loop of rebuild_balance(), over the blocks in the order of their indices.
  unfoldable pub rebuild_from : Map Block → Map ℕ → Map ℕ
  rebuild_from [] balances = balances
  rebuild_from ((index, b) ∷ blocks) balances =
      rebuild_from blocks (build_balance_for (transactions b) balances)

  unfoldable pub rebuild_balance : BlockChain → BlockChain
  rebuild_balance s = record s { balances = rebuild_from s.blocks s.balances }

  unfoldable pub append_block : ℕ → Block → Bool → BlockChain → BlockChain × Bool
  append_block index b build_balance s = if contains index s.blocks then (s, false) else (
    record {
      blocks = put index b s.blocks;
      balances =
          if build_balance then build_balance_for (transactions b) s.balances else s.balances;
      last_block_index = if ltb s.last_block_index index then index else s.last_block_index;
    },
    true,
  )
