-- ===== src/Bcp/Process.antt =====
-- bcp_server.cpp: process(), over the callback interface iface_bcp_server of bcp_server.hpp.
-- The callbacks act on a state `W` that holds the server, since they call back into it.
pub mod Steps
pub mod Timeouts
use bcp_concept_prototype.Prelude.{
  ℕ, ◌+◌, ◌≤◌, ◌<◌, ◌≡◌, refl, Bool, true, false, Option, none, some, arith, ltb, if◌then◌else◌,
  Bool-cases, inl, inr,
}
use bcp_concept_prototype.Core.{Core}
use bcp_concept_prototype.Bcp.{
  BcpServer, BcpStep, null, waiting, proof_of_participation, propose, vote, commit,
  timeout_proof_of_participation, timeout_propose, timeout_vote, timeline, time_context_at,
  set_step,
}
use bcp_concept_prototype.Bcp.Rounds.{new_round_start_for}
use bcp_concept_prototype.Bcp.Votes.{get_elected_block_header}
use bcp_concept_prototype.Bcp.Commit.{find_commit_block}

module _ ⦃c : Core⦄ where
  open c use {Header, Block, header, header_eq}

  -- class iface_bcp_server, with the access to the server itself
  pub record IfaceBcpServer (W : Type 0) : Type 0 where
    pub bcp : W → BcpServer
    pub set_bcp : BcpServer → W → W
    pub all_peer_count : W → ℕ
    pub on_bcp_new_round_ready : W → W
    pub on_bcp_new_round_start_for : ℕ → W → W
    pub on_bcp_step_propose_start_for : W → W
    pub on_bcp_step_vote_start_for : W → W
    pub on_bcp_step_commit_start_for : Header → Bool → W → W
    pub on_bcp_new_block_commit_for : Block → W → W
    pub on_bcp_consensus_fail : W → W

  module _ {W : Type 0} (i : IfaceBcpServer W) where
    open i use {
      bcp, set_bcp, all_peer_count, on_bcp_new_round_ready, on_bcp_new_round_start_for,
      on_bcp_step_propose_start_for, on_bcp_step_vote_start_for, on_bcp_step_commit_start_for,
      on_bcp_new_block_commit_for, on_bcp_consensus_fail,
    }

    -- current_step( step ), after the callback
    abbrev pub step_to : BcpStep → W → W
    step_to step w = set_bcp (set_step step (bcp w)) w

    -- The branch of each step, at the time line and the time context of the call.
    unfoldable pub process_waiting : ℕ → ℕ → W → W
    process_waiting time_line time_context w =
        if ltb time_line timeout_proof_of_participation
        then (if ltb (bcp w).time_context time_context
            then on_bcp_new_round_ready (set_bcp (record (bcp w) { time_context = time_context }) w)
            else elim (new_round_start_for (all_peer_count w) (bcp w)) [
              | none ↦ w
              | some round ↦ step_to proof_of_participation (on_bcp_new_round_start_for round w)
            ])
        else w

    unfoldable pub process_vote : ℕ → W → W
    process_vote time_line w =
        if ltb timeout_vote time_line
        then step_to waiting (on_bcp_consensus_fail w)
        else let (s, elected) = get_elected_block_header (all_peer_count w) (bcp w) in
          let w' : W = set_bcp s w in
          elim elected [
            | none ↦ w'
            | some h ↦
                step_to commit (
                  on_bcp_step_commit_start_for h (header_eq h (header (bcp w').candidate_block)) w')
          ]

    unfoldable pub process_commit : ℕ → W → W
    process_commit time_line w =
        if ltb time_line timeout_proof_of_participation
        then step_to waiting (on_bcp_consensus_fail w)
        else elim (find_commit_block (all_peer_count w) (bcp w)) [
          | none ↦ w
          | some b ↦ step_to waiting (on_bcp_new_block_commit_for b w)
        ]

    unfoldable pub process_at : BcpStep → ℕ → ℕ → W → W
    process_at null time_line time_context w = w
    process_at waiting time_line time_context w = process_waiting time_line time_context w
    process_at proof_of_participation time_line time_context w =
        if ltb timeout_proof_of_participation time_line
        then step_to propose (on_bcp_step_propose_start_for w)
        else w
    process_at propose time_line time_context w =
        if ltb timeout_propose time_line then step_to vote (on_bcp_step_vote_start_for w) else w
    process_at vote time_line time_context w = process_vote time_line w
    process_at commit time_line time_context w = process_commit time_line w

    -- process(), at a time stamp of the clock in seconds
    unfoldable pub process : ℕ → W → W
    process timestamp w =
        process_at (bcp w).current_step (timeline timestamp) (time_context_at timestamp) w
