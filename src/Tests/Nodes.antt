-- ===== src/Tests/Nodes.antt =====
-- The theorems on node_server.cpp and node_manager.cpp at two nodes.
use bcp_concept_prototype.Prelude.{◌+◌, ◌≡◌, ◌≢◌, true, false, [], ◌∷◌, arith, ◌⊎◌}
use bcp_concept_prototype.Bcp.{
  BcpServer, BcpStep, null, waiting, proof_of_participation, vote, commit, set_step, timeline,
  timeout_proof_of_participation, timeout_propose, timeout_vote, start,
}
use bcp_concept_prototype.Bcp
use bcp_concept_prototype.Bcp.Commit.{add_verified_block}
use bcp_concept_prototype.Bcp.Votes.{vote_block_header_for}
use bcp_concept_prototype.Bcp.Process.Steps.{Move}
use bcp_concept_prototype.Ledger
use bcp_concept_prototype.Node.{NodeManager}
use bcp_concept_prototype.Node.Run.{run, run-AllSound}
use bcp_concept_prototype.Node.Server.{main, start_manager}
use bcp_concept_prototype.Node.Sound.{AllSound}
use bcp_concept_prototype.Node.Steps.{step_at, main-Move, main_round_ends}
use bcp_concept_prototype.Tests.{plain, plain_chain, plain_block}

-- Two nodes whose consensus servers are the same, with empty chains.
abbrev twins : BcpServer → NodeManager
twins s = record {
  node_servers = λ p. record { address = p; block_chain = Ledger.new; bcp_server = s };
  node_count = 2;
  stopped = false;
}

abbrev started : NodeManager
started = start_manager 2 (λ p. p) (λ p. true) Ledger.new

-- Both have voted for 7, sent its block and wait for the commit.
abbrev voted : BcpServer
voted = (vote_block_header_for 1 7 (vote_block_header_for 0 7 Bcp.new).0).0

abbrev committing : BcpServer
committing =
    set_step commit
      (add_verified_block 2 1 (plain_block 1 7 [])
        (add_verified_block 2 0 (plain_block 1 7 []) voted).0).0

run-AllSound_example : AllSound 2 (run ((λ p. 1) ∷ (λ p. 2) ∷ (λ p. 6 + p) ∷ []) started)
run-AllSound_example =
    run-AllSound 2 (λ p. p) (λ p. true) Ledger.new ((λ p. 1) ∷ (λ p. 2) ∷ (λ p. 6 + p) ∷ [])

main-Move_example : Move (timeline 6) (step_at 0 started) (step_at 0 (main 0 6 started))
main-Move_example = main-Move 0 6 started

started_runs : step_at 0 started ≢ null
unfolding start_manager start set_step
started_runs e = cc

main_round_ends_example :
    let s = step_at 0 (main 0 21 (main 0 16 (main 0 11 (main 0 6 started)))) in
    (s ≡ waiting) ⊎ (s ≡ proof_of_participation)
main_round_ends_example =
    main_round_ends 0 6 11 16 21 started started_runs (unfold timeline in omega arith)
      (unfold timeline in omega arith) (unfold timeline in omega arith)
      (unfold timeline in omega arith)
