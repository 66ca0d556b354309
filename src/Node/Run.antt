-- ===== src/Node/Run.antt =====
-- node_server::main() and node_manager::main() keep all consensus servers sound, in any order and at
-- any times.
use bcp_concept_prototype.Prelude.{
  ℕ, ◌<◌, refl, Bool, true, false, List, [], ◌∷◌, arith, ltb, if◌then◌else◌, Bool-cases,
  Option-cases, inl, inr,
}
use bcp_concept_prototype.Core.{Core, Chain}
use bcp_concept_prototype.Bcp.{
  BcpStep, null, waiting, proof_of_participation, propose, vote, commit,
  timeout_proof_of_participation, timeout_propose, timeout_vote, start, new,
}
use bcp_concept_prototype.Bcp.Rounds.{new_round_start_for}
use bcp_concept_prototype.Bcp.Votes.{get_elected_block_header}
use bcp_concept_prototype.Bcp.Commit.{find_commit_block}
use bcp_concept_prototype.Bcp.Process.{
  process_waiting, process_vote, process_commit, process_at, process, step_to,
}
use bcp_concept_prototype.Bcp.Sound.{IsSound, new-IsSound}
use bcp_concept_prototype.Bcp.Sound.Operations.{set_step-IsSound, set_time-IsSound}
use bcp_concept_prototype.Node.{NodeManager, all_peer_count, modify, set_bcp, for_peers}
use bcp_concept_prototype.Node.Kept.{
  for_peers_inv, on_bcp_new_round_ready-kept, on_bcp_new_round_start_for-kept,
  on_bcp_step_propose_start_for-kept, on_bcp_step_vote_start_for-kept,
  on_bcp_step_commit_start_for-kept, on_bcp_new_block_commit_for-kept, on_bcp_consensus_fail-kept,
}
use bcp_concept_prototype.Node.Server.{callbacks, main, start_manager, pass}
use bcp_concept_prototype.Node.Sound.{AllSound, modify-AllSound, AllSound-IsKept}

module _ ⦃c : Core⦄ ⦃ch : Chain⦄ where
  open c use {Header, Block, header, header_eq}

  module _ (n me : ℕ) (lt : me < n) where
    step_to-AllSound :
        (s : BcpStep) (m : NodeManager) → AllSound n m → AllSound n (step_to (callbacks me) s m)
    unfolding AllSound callbacks set_bcp
    step_to-AllSound s m h = modify-AllSound n me _ m h (λ v. set_step-IsSound n _ v s)

    process_waiting-AllSound :
        (tl ctx : ℕ) (m : NodeManager)
        → AllSound n m
        → AllSound n (process_waiting (callbacks me) tl ctx m)
    unfolding process_waiting callbacks
    process_waiting-AllSound tl ctx m h =
        elim (Bool-cases (ltb tl timeout_proof_of_participation)) [
          | inr late ↦ rw (late, process_waiting) h
          | inl early ↦ elim (Bool-cases (ltb (m.node_servers me).bcp_server.time_context ctx)) [
            | inl fresh ↦
                rw (early, fresh, process_waiting)
                  (on_bcp_new_round_ready-kept (AllSound-IsKept n) me lt _ timed)
            | inr old ↦
                elim (Option-cases
                  (new_round_start_for (all_peer_count m) (m.node_servers me).bcp_server)) [
                    | inl e ↦ rw (early, old, e, process_waiting) h
                    | inr (r, e) ↦
                        rw (early, old, e, process_waiting)
                          (step_to-AllSound proof_of_participation _
                            (on_bcp_new_round_start_for-kept (AllSound-IsKept n) me lt m h r))
                  ]
          ]
        ]
      where
        timed :
            AllSound n
              (modify me (set_bcp (record (m.node_servers me).bcp_server { time_context = ctx })) m)
        timed = unfold set_bcp in modify-AllSound n me _ m h (λ v. set_time-IsSound n _ v ctx)

    process_vote-AllSound :
        (tl : ℕ) (m : NodeManager) → AllSound n m → AllSound n (process_vote (callbacks me) tl m)
    unfolding process_vote callbacks
    process_vote-AllSound tl m h = elim (Bool-cases (ltb timeout_vote tl)) [
      | inl late ↦
          rw (late, process_vote)
            (step_to-AllSound waiting _ (on_bcp_consensus_fail-kept (AllSound-IsKept n) me lt m h))
      | inr early ↦
          elim (Option-cases
            (get_elected_block_header (all_peer_count m) (m.node_servers me).bcp_server).1) [
              | inl e ↦ rw (early, e, process_vote) asked
              | inr (w, e) ↦
                  rw (early, e, process_vote)
                    (step_to-AllSound commit _
                      (on_bcp_step_commit_start_for-kept (AllSound-IsKept n) me lt _ asked w _))
            ]
    ]
      where
        asked : AllSound n (
            modify me
              (set_bcp
                (get_elected_block_header (all_peer_count m) (m.node_servers me).bcp_server).0)
              m)
        asked = (AllSound-IsKept n).asked me m h

    process_commit-AllSound :
        (tl : ℕ) (m : NodeManager) → AllSound n m → AllSound n (process_commit (callbacks me) tl m)
    unfolding process_commit callbacks
    process_commit-AllSound tl m h = elim (Bool-cases (ltb tl timeout_proof_of_participation)) [
      | inl early ↦
          rw (early, process_commit)
            (step_to-AllSound waiting _ (on_bcp_consensus_fail-kept (AllSound-IsKept n) me lt m h))
      | inr late ↦
          elim (Option-cases
            (find_commit_block (all_peer_count m) (m.node_servers me).bcp_server)) [
              | inl e ↦ rw (late, e, process_commit) h
              | inr (b, e) ↦
                  rw (late, e, process_commit)
                    (step_to-AllSound waiting _
                      (on_bcp_new_block_commit_for-kept (AllSound-IsKept n) me lt m h b))
            ]
    ]

    process_at-AllSound :
        (s : BcpStep) (tl ctx : ℕ) (m : NodeManager)
        → AllSound n m
        → AllSound n (process_at (callbacks me) s tl ctx m)
    unfolding process_at callbacks
    process_at-AllSound null tl ctx m h = h
    process_at-AllSound waiting tl ctx m h = process_waiting-AllSound tl ctx m h
    process_at-AllSound proof_of_participation tl ctx m h =
        elim (Bool-cases (ltb timeout_proof_of_participation tl)) [
          | inl late ↦
              rw (late, process_at)
                (step_to-AllSound propose _
                  (on_bcp_step_propose_start_for-kept (AllSound-IsKept n) me lt m h))
          | inr early ↦ rw (early, process_at) h
        ]
    process_at-AllSound propose tl ctx m h = elim (Bool-cases (ltb timeout_propose tl)) [
      | inl late ↦
          rw (late, process_at)
            (step_to-AllSound vote _
              (on_bcp_step_vote_start_for-kept (AllSound-IsKept n) me lt m h))
      | inr early ↦ rw (early, process_at) h
    ]
    process_at-AllSound vote tl ctx m h = process_vote-AllSound tl m h
    process_at-AllSound commit tl ctx m h = process_commit-AllSound tl m h

    -- A call of main() by one of the `n` nodes, with all that it sends, keeps all nodes sound.
    pub main-AllSound :
        (timestamp : ℕ) (m : NodeManager) → AllSound n m → AllSound n (main me timestamp m)
    unfolding main process
    main-AllSound timestamp m h = process_at-AllSound _ _ _ m h

  start_manager-AllSound :
      (n : ℕ) (address_of : ℕ → ℕ) (synced : ℕ → Bool) (blocks : ch.Blocks)
      → AllSound n (start_manager n address_of synced blocks)
  unfolding AllSound start_manager
  start_manager-AllSound n address_of synced blocks = (refl, λ j. started (synced j))
    where
      started : (ok : Bool) → IsSound n (start ok new).0
      started true = unfold start in set_step-IsSound n _ (new-IsSound n) waiting
      started false = unfold start in new-IsSound n

  pass-AllSound :
      (n : ℕ) (clock : ℕ → ℕ) (m : NodeManager) → AllSound n m → AllSound n (pass clock m)
  unfolding pass all_peer_count
  pass-AllSound n clock m h = ends m.stopped
    where
      ends :
          (stopped : Bool)
          → AllSound n (if stopped then m else for_peers m.node_count 0 (λ p. main p (clock p)) m)
      ends true = h
      ends false =
          for_peers_inv (AllSound n) _ m.node_count 0 n m
            (λ p r lt hr. main-AllSound n p lt (clock p) r hr)
            (omega (arith, (AllSound-IsKept n).counted m h)) h

  -- The passes of node_manager::main(), with what the clock of each node shows in each pass.
  unfoldable pub run : List (ℕ → ℕ) → NodeManager → NodeManager
  run [] m = m
  run (clock ∷ clocks) m = run clocks (pass clock m)

  run_from-AllSound :
      (n : ℕ) (clocks : List (ℕ → ℕ)) (m : NodeManager) → AllSound n m → AllSound n (run clocks m)
  unfolding run
  run_from-AllSound n [] m h = h
  run_from-AllSound n (clock ∷ clocks) m h =
      run_from-AllSound n clocks (pass clock m) (pass-AllSound n clock m h)

  -- After start() with `n` nodes and any number of passes, at whatever times the clocks show, every
  -- consensus server is sound: each peer is counted once, the counts are those of the messages and
  -- votes, and every verified block has the elected header.
  pub run-AllSound :
      (n : ℕ) (address_of : ℕ → ℕ) (synced : ℕ → Bool) (blocks : ch.Blocks) (clocks : List (ℕ → ℕ))
      → AllSound n (run clocks (start_manager n address_of synced blocks))
  run-AllSound n address_of synced blocks clocks =
      run_from-AllSound n clocks _ (start_manager-AllSound n address_of synced blocks)
