-- ===== src/Ledger/Append.antt =====
-- append_block(), verify_block() and the lookups of tests/dev/node-server-mono/block_chain.cpp.
use mathlib.Core.Bool.{true≢false}
use bcp_concept_prototype.Prelude.{
  ℕ, ◌<◌, ◌≡◌, refl, sym, ap, ◌∙◌, true, false, none, some, List, [], ◌∷◌, arith, ◌==◌,
  if◌then◌else◌, ◌↔◌, ◌⊎◌, inl, inr, Bool-cases,
}
use bcp_concept_prototype.Prelude.Map.{lookup-put}
use bcp_concept_prototype.Core.{Core}
use bcp_concept_prototype.Ledger.{
  BlockChain, verify_transactions, verify_block, append_block, block_exists, get_block,
  update_balance,
}

module _ ⦃c : Core⦄ where
  open c use {Block, Transaction, block_index, transactions, header, header_hash, value, valid}

  -- Every transaction is valid and has an amount.
  abbrev pub AllValid : List Transaction → Type 0
  AllValid [] = Unit {0}
  AllValid (tx ∷ txs) = (valid tx ≡ true) × (0 < value tx) × AllValid txs

  verify_transactions_sound :
      (txs : List Transaction) → verify_transactions txs ≡ true → AllValid txs
  unfolding verify_transactions
  verify_transactions_sound [] e = tt
  verify_transactions_sound (tx ∷ txs) e = ground (arith, verify_transactions_sound txs)

  verify_transactions_complete :
      (txs : List Transaction) → AllValid txs → verify_transactions txs ≡ true
  unfolding verify_transactions
  verify_transactions_complete [] h = refl
  verify_transactions_complete (tx ∷ txs) h = ground (arith, verify_transactions_complete txs h.2)

  -- A block passes verification exactly if each of its transactions is valid and has an amount.
  pub verify_block_iff : (b : Block) → (verify_block b ≡ true) ↔ AllValid (transactions b)
  unfolding verify_block
  verify_block_iff b =
      (verify_transactions_sound (transactions b), verify_transactions_complete (transactions b))

  accepted :
      (b : Block) (s : BlockChain)
      → (append_block b s).1 ≡ true
      → (get_block (block_index b) s ≡ none) × (verify_block b ≡ true)
  unfolding append_block block_exists get_block
  accepted b s e = ground arith

  accept :
      (b : Block) (s : BlockChain)
      → get_block (block_index b) s ≡ none
      → verify_block b ≡ true
      → (append_block b s).1 ≡ true
  unfolding append_block block_exists get_block
  accept b s e v = ground arith

  -- append_block() succeeds exactly for a block with a new index whose transactions are all valid
  -- and have an amount.
  pub append_block_iff :
      (b : Block) (s : BlockChain)
      → ((append_block b s).1 ≡ true)
        ↔ ((get_block (block_index b) s ≡ none) × AllValid (transactions b))
  append_block_iff b s = (
    λ e. let (free, v) = accepted b s e in (free, (verify_block_iff b).0 v),
    λ h. accept b s h.0 ((verify_block_iff b).1 h.1),
  )

  get_block-put :
      (j : ℕ) (b : Block) (s : BlockChain)
      → (append_block b s).1 ≡ true
      → get_block j (append_block b s).0 ≡ (if block_index b == j then some b else get_block j s)
  unfolding get_block append_block block_exists
  get_block-put j b s e = ground (arith, lookup-put j (block_index b) b s.map_blocks)

  refuse :
      (b : Block) (s : BlockChain) → (append_block b s).1 ≡ false → append_block b s ≡ (s, false)
  unfolding append_block
  refuse b s e = ground arith

  paid :
      (b : Block) (s : BlockChain)
      → (append_block b s).1 ≡ true
      → (append_block b s).0.account_balances ≡ update_balance (transactions b) s.account_balances
  unfolding append_block
  paid b s e = ground arith

  -- Either append_block() returns false, and the chain with its balances is as it was, and there is a
  -- block of the index or not every transaction is valid with an amount; or it returns true, for a
  -- new index and transactions all valid with an amount, and the chain has the block under this
  -- index, every other block as before, and the balances changed by the transactions in order.
  pub append_block_cases :
      (b : Block) (s : BlockChain)
      → let (s', ok) = append_block b s in
        ((ok ≡ false)
          × (s' ≡ s)
          × ¬ ((get_block (block_index b) s ≡ none) × AllValid (transactions b)))
        ⊎ ((ok ≡ true)
            × (get_block (block_index b) s ≡ none)
            × AllValid (transactions b)
            × ((j : ℕ) → get_block j s' ≡ (if block_index b == j then some b else get_block j s))
            × (s'.account_balances ≡ update_balance (transactions b) s.account_balances))
  append_block_cases b s = elim (Bool-cases (append_block b s).1) [
    | inl e ↦
        let (free, valid) = (append_block_iff b s).0 e in
        inr (e, free, valid, λ j. get_block-put j b s e, paid b s e)
    | inr e ↦
        inl
          (e, ap (λ r. r.0) (refuse b s e), λ h. true≢false (sym ((append_block_iff b s).1 h) ∙ e))
  ]
