-- ===== src/Tests/Chains.antt =====
-- The theorems on block_chain.cpp at a few payments.
use bcp_concept_prototype.Prelude.{
  ℕ, ◌+◌, ◌-◌, ◌<◌, ◌≡◌, refl, true, false, none, some, List, [], ◌∷◌, arith, ◌↔◌, ◌==◌, ◌⊎◌,
  if◌then◌else◌,
}
use bcp_concept_prototype.Prelude.Map.{Map, lookup, put}
use bcp_concept_prototype.Prelude.Total.{total}
use bcp_concept_prototype.Ledger.{
  new, u64_mod, apply_transaction, update_balance, credit, append_block, get_block, balance_of,
  value_or,
}
use bcp_concept_prototype.Ledger.Balance.{
  minted, AllFunded, update_balance-total, apply_transaction-unknown_sender,
  apply_transaction-overdraft,
}
use bcp_concept_prototype.Ledger.Append.{AllValid, append_block_iff, append_block_cases}
use bcp_concept_prototype.Tests.{plain, Payment, plain_block, payment}

-- A reward of 100 for the account 1, which then pays 30 to the account 2.
abbrev payments : List Payment
payments = payment 1 1 100 true ∷ payment 1 2 30 false ∷ []

payments-AllFunded : AllFunded payments []
unfolding apply_transaction balance_of value_or credit lookup put
payments-AllFunded = (omega arith, λ e. cc, (omega arith, λ e. omega arith, tt))

payments_small : total [] + minted payments < u64_mod
unfolding total minted
payments_small = omega arith

update_balance-total_example : total (update_balance payments []) ≡ total [] + minted payments
update_balance-total_example = update_balance-total payments [] tt payments-AllFunded payments_small

-- Account 7 has nothing and pays 5 to account 8.
nothing_small : total [] + 5 < u64_mod
unfolding total
nothing_small = omega arith

apply_transaction-unknown_sender_example :
    total (apply_transaction (payment 7 8 5 false) []) ≡ total [] + 5
apply_transaction-unknown_sender_example =
    apply_transaction-unknown_sender (payment 7 8 5 false) [] tt refl (unfold lookup in refl)
      nothing_small

-- Account 7 has 3 and pays 5 to account 8.
abbrev low : Map ℕ
low = (7, 3) ∷ []

three : lookup 7 low ≡ some 3
unfolding lookup
three = refl

apply_transaction-overdraft_example :
    lookup 7 (apply_transaction (payment 7 8 5 false) low) ≡ some (3 + u64_mod - 5)
apply_transaction-overdraft_example =
    apply_transaction-overdraft (payment 7 8 5 false) low 3 refl three (omega arith) (omega arith)
      (λ e. omega arith)

append_block_iff_example :
    ((append_block (plain_block 1 7 payments) new).1 ≡ true)
    ↔ ((get_block 1 new ≡ none) × AllValid payments)
append_block_iff_example = append_block_iff (plain_block 1 7 payments) new

append_block_cases_example :
    let (s', ok) = append_block (plain_block 1 7 payments) new in
    ((ok ≡ false) × (s' ≡ new) × ¬ ((get_block 1 new ≡ none) × AllValid payments))
    ⊎ ((ok ≡ true)
        × (get_block 1 new ≡ none)
        × AllValid payments
        × ((j : ℕ)
            → get_block j s'
              ≡ (if 1 == j then some (plain_block 1 7 payments) else get_block j new))
        × (s'.account_balances ≡ update_balance payments new.account_balances))
append_block_cases_example = append_block_cases (plain_block 1 7 payments) new
