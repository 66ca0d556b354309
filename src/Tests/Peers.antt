-- ===== src/Tests/Peers.antt =====
-- The theorems on bcp_mono at three nodes.
use bcp_concept_prototype.Prelude.{
  ℕ, ◌+◌, ◌*◌, ◌/◌, ◌<◌, ◌≡◌, ◌≢◌, refl, true, false, some, List, [], ◌∷◌, arith, ◌⊎◌, ◌↔◌,
}
use bcp_concept_prototype.Prelude.Map.{Map}
use bcp_concept_prototype.Prelude.Total.{total}
use bcp_concept_prototype.Ledger.{u64_mod}
use bcp_concept_prototype.Mono.Vector.{count, get_value_if_count_exceeds}
use bcp_concept_prototype.Mono.Vector.Majority.{get_value_if_count_exceeds_iff}
use bcp_concept_prototype.Mono.Chain.{apply_transaction, build_balance_for, append_block}
use bcp_concept_prototype.Mono.Chain.Balance.{
  build_balance_for-total, apply_transaction_self, AllTransfers,
}
use bcp_concept_prototype.Mono.Peer.{Clock, Manager, round_time, commit}
use bcp_concept_prototype.Mono.Peer.States.{nat_eq}
use bcp_concept_prototype.Mono.Peer.Mains.{created, on_main, start}
use bcp_concept_prototype.Mono.Peer.Quiet.{Same}
use bcp_concept_prototype.Mono.Peer.Settled.{state_at, chain_at}
use bcp_concept_prototype.Mono.Peer.Moves.{Move}
use bcp_concept_prototype.Mono.Peer.Main.{on_main-Move}
use bcp_concept_prototype.Mono.Peer.Commits.{on_main_commit}
use bcp_concept_prototype.Mono.Peer.Ballots.{vote_times, votes_at, on_message-one_voter}
use bcp_concept_prototype.Tests.{plain, plain_mono, PlainBlock, plain_block, Payment, payment}

nat_eq_iff : (a b : ℕ) → (nat_eq a b ≡ true) ↔ (a ≡ b)
nat_eq_iff a b = ground arith

abbrev heights : List ℕ
heights = 4 ∷ 7 ∷ 4 ∷ []

get_value_if_count_exceeds_iff_example :
    (get_value_if_count_exceeds nat_eq 1 heights ≡ some 4) ↔ (1 < count nat_eq 4 heights)
get_value_if_count_exceeds_iff_example =
    get_value_if_count_exceeds_iff nat_eq nat_eq_iff 1 heights 4 (omega arith)

-- Account 1 has 9 and pays 5 to account 2, which then pays 8 that it does not have.
abbrev before : Map ℕ
before = (1, 9) ∷ []

abbrev transfers : List Payment
transfers = payment 1 2 5 false ∷ payment 2 1 8 false ∷ []

transfers_between : AllTransfers transfers
transfers_between = ((refl, refl, λ e. omega arith), ((refl, refl, λ e. omega arith), tt))

before_small : total before < u64_mod
unfolding total
before_small = omega arith

build_balance_for-total_example : total (build_balance_for transfers before) ≡ total before
build_balance_for-total_example =
    build_balance_for-total transfers before transfers_between tt before_small

before_room : total before + 6 < u64_mod
unfolding total
before_room = omega arith

apply_transaction_self_example :
    total (apply_transaction (payment 1 1 6 false) before) ≡ total before + 6
apply_transaction_self_example =
    apply_transaction_self (payment 1 1 6 false) before tt refl refl before_room

-- Three nodes, of which the first has started.
abbrev at : ℕ → Clock
at t = record { ntp = t; now = 1000 * t }

abbrev idle : Manager
idle = record { nodes = λ p. created (p + 1) false 0 0; peer_count = 3; stopped = false }

abbrev running : Manager
running = start 0 (at 1) idle

on_main-Move_example :
    Move (round_time (at 2)) (state_at 0 running) (state_at 0 (on_main 0 (at 2) running))
    × ((j : ℕ) → 0 ≢ j → Same (running.nodes j) ((on_main 0 (at 2) running).nodes j))
on_main-Move_example = on_main-Move 0 (at 2) running

-- Two copies of a block have come in.
abbrev committing : Manager
committing = record {
  nodes = λ p. record (created (p + 1) false 0 0) {
    node_state = commit;
    commits = plain_block 1 7 [] ∷ plain_block 1 7 [] ∷ [];
  };
  peer_count = 3;
  stopped = false;
}

on_main_commit_example :
    (chain_at 0 (on_main 0 (at 25) committing) ≡ chain_at 0 committing)
    ⊎ ((b : PlainBlock) × (state_at 0 committing ≡ commit)
        × (1 < round_time (at 25))
        × (3 / 2 < count plain_mono.block_eq b (committing.nodes 0).commits)
        × (chain_at 0 (on_main 0 (at 25) committing)
            ≡ (append_block b.index b true (chain_at 0 committing)).0))
on_main_commit_example = on_main_commit 0 (at 25) committing

idle_votes : votes_at 0 idle ≡ []
unfolding created
idle_votes = refl

on_message-one_voter_example :
    get_value_if_count_exceeds plain.header_eq (3 / 2) (votes_at 0 (vote_times 2 0 1 9 idle))
    ≡ some 9
on_message-one_voter_example = on_message-one_voter 0 1 9 idle refl idle_votes
