-- ===== src/Bcp/Process/Steps.antt =====
-- The state machine of process() in bcp_server.cpp, over callbacks that leave the step and the time
-- context alone.
use bcp_concept_prototype.Prelude.{
  ℕ, ◌≤◌, ◌<◌, ◌≡◌, refl, sym, ap, ◌∙◌, Bool, arith, ltb, Bool-cases, Option-cases, inl, inr,
}
use mathlib.Core.Path.{subst}
use bcp_concept_prototype.Core.{Core}
use bcp_concept_prototype.Bcp.{
  BcpServer, BcpStep, null, waiting, proof_of_participation, propose, vote, commit,
  timeout_proof_of_participation, timeout_propose, timeout_vote, timeline, set_step,
}
use bcp_concept_prototype.Bcp.Rounds.{new_round_start_for}
use bcp_concept_prototype.Bcp.Votes.{get_elected_block_header}
use bcp_concept_prototype.Bcp.Commit.{find_commit_block}
use bcp_concept_prototype.Bcp.Process.{
  IfaceBcpServer, step_to, process_waiting, process_vote, process_commit, process_at, process,
}

-- A step of the protocol at a point of the block time.
pub data Move (time_line : ℕ) : BcpStep → BcpStep → Type 0 where
  stay : {s : BcpStep} → Move time_line s s
  round_started :
      time_line < timeout_proof_of_participation → Move time_line waiting proof_of_participation
  proposing :
      timeout_proof_of_participation < time_line → Move time_line proof_of_participation propose
  voting : timeout_propose < time_line → Move time_line propose vote
  elected : time_line ≤ timeout_vote → Move time_line vote commit
  vote_failed : timeout_vote < time_line → Move time_line vote waiting
  commit_failed : time_line < timeout_proof_of_participation → Move time_line commit waiting
  committed : timeout_proof_of_participation ≤ time_line → Move time_line commit waiting

module _ ⦃c : Core⦄ where
  open c use {Header, Block, header, header_eq}

  pub elected_keeps :
      (n : ℕ) (s : BcpServer)
      → ((get_elected_block_header n s).0.current_step ≡ s.current_step)
        × ((get_elected_block_header n s).0.time_context ≡ s.time_context)
  unfolding get_elected_block_header
  elected_keeps n s = ground arith

  module _ {W : Type 0} (i : IfaceBcpServer W) where
    open i use {
      bcp, set_bcp, all_peer_count, on_bcp_new_round_ready, on_bcp_new_round_start_for,
      on_bcp_step_propose_start_for, on_bcp_step_vote_start_for, on_bcp_step_commit_start_for,
      on_bcp_new_block_commit_for, on_bcp_consensus_fail,
    }

    abbrev pub step_of : W → BcpStep
    step_of w = (bcp w).current_step

    abbrev pub context_of : W → ℕ
    context_of w = (bcp w).time_context

    -- The callback leaves the step and the time context.
    abbrev pub Keeps : (W → W) → Type 0
    Keeps f = (w : W) → (step_of (f w) ≡ step_of w) × (context_of (f w) ≡ context_of w)

    pub record IsIface : Type 0 where
      pub bcp-set_bcp : (s : BcpServer) (w : W) → bcp (set_bcp s w) ≡ s
      pub ready_keeps : Keeps on_bcp_new_round_ready
      pub start_keeps : (round : ℕ) → Keeps (on_bcp_new_round_start_for round)
      pub propose_keeps : Keeps on_bcp_step_propose_start_for
      pub vote_keeps : Keeps on_bcp_step_vote_start_for
      pub commit_keeps : (h : Header) (mine : Bool) → Keeps (on_bcp_step_commit_start_for h mine)
      pub new_block_keeps : (b : Block) → Keeps (on_bcp_new_block_commit_for b)
      pub fail_keeps : Keeps on_bcp_consensus_fail

    module _ (laws : IsIface) where
      pub step_of-step_to : (s : BcpStep) (w : W) → step_of (step_to i s w) ≡ s
      step_of-step_to s w =
          ap (λ (b : BcpServer). b.current_step) (laws.bcp-set_bcp (set_step s (bcp w)) w)
          ∙ unfold set_step in refl

      -- Where the callback and the assignment of the step lead.
      arrives : {tl : ℕ} (s t : BcpStep) (w : W) → Move tl s t → Move tl s (step_of (step_to i t w))
      arrives {tl} s t w m = subst (Move tl s) (sym (step_of-step_to t w)) m

      remains : {tl : ℕ} (s : BcpStep) (w : W) → step_of w ≡ s → Move tl s (step_of w)
      remains {tl} s w e = subst (Move tl s) (sym e) stay

      process_waiting-Move :
          (tl ctx : ℕ) (w : W)
          → step_of w ≡ waiting
          → Move tl waiting (step_of (process_waiting i tl ctx w))
      unfolding process_waiting
      process_waiting-Move tl ctx w e = elim (Bool-cases (ltb tl timeout_proof_of_participation)) [
        | inr late ↦ rw (late, process_waiting) (remains waiting w e)
        | inl early ↦ elim (Bool-cases (ltb (bcp w).time_context ctx)) [
          | inl fresh ↦
              let s : BcpServer = record (bcp w) { time_context = ctx } in
              rw (early, fresh, process_waiting)
                (remains waiting _ (
                  (laws.ready_keeps (set_bcp s w)).0
                  ∙ ap (λ (b : BcpServer). b.current_step) (laws.bcp-set_bcp s w)
                  ∙ e))
          | inr old ↦ elim (Option-cases (new_round_start_for (all_peer_count w) (bcp w))) [
            | inl none' ↦ rw (early, old, none', process_waiting) (remains waiting w e)
            | inr (r, some') ↦
                rw (early, old, some', process_waiting)
                  (arrives waiting proof_of_participation _ (round_started (ground arith)))
          ]
        ]
      ]

      process_vote-Move :
          (tl : ℕ) (w : W) → step_of w ≡ vote → Move tl vote (step_of (process_vote i tl w))
      unfolding process_vote
      process_vote-Move tl w e = elim (Bool-cases (ltb timeout_vote tl)) [
        | inl late ↦ rw (late, process_vote) (arrives vote waiting _ (vote_failed (ground arith)))
        | inr early ↦ elim (Option-cases (get_elected_block_header (all_peer_count w) (bcp w)).1) [
          | inl none' ↦
              rw (early, none', process_vote)
                (remains vote _ (
                  ap (λ (b : BcpServer). b.current_step) (laws.bcp-set_bcp _ w)
                  ∙ (elected_keeps (all_peer_count w) (bcp w)).0
                  ∙ e))
          | inr (h, some') ↦
              rw (early, some', process_vote) (arrives vote commit _ (elected (ground arith)))
        ]
      ]

      process_commit-Move :
          (tl : ℕ) (w : W) → step_of w ≡ commit → Move tl commit (step_of (process_commit i tl w))
      unfolding process_commit
      process_commit-Move tl w e = elim (Bool-cases (ltb tl timeout_proof_of_participation)) [
        | inl early ↦
            rw (early, process_commit) (arrives commit waiting _ (commit_failed (ground arith)))
        | inr late ↦ elim (Option-cases (find_commit_block (all_peer_count w) (bcp w))) [
          | inl none' ↦ rw (late, none', process_commit) (remains commit w e)
          | inr (b, some') ↦
              rw (late, some', process_commit) (arrives commit waiting _ (committed (ground arith)))
        ]
      ]

      process_at-Move :
          (s : BcpStep) (tl ctx : ℕ) (w : W)
          → step_of w ≡ s
          → Move tl s (step_of (process_at i s tl ctx w))
      unfolding process_at
      process_at-Move null tl ctx w e = remains null w e
      process_at-Move waiting tl ctx w e = process_waiting-Move tl ctx w e
      process_at-Move proof_of_participation tl ctx w e =
          elim (Bool-cases (ltb timeout_proof_of_participation tl)) [
            | inl late ↦
                rw (late, process_at)
                  (arrives proof_of_participation propose _ (proposing (ground arith)))
            | inr early ↦ rw (early, process_at) (remains proof_of_participation w e)
          ]
      process_at-Move propose tl ctx w e = elim (Bool-cases (ltb timeout_propose tl)) [
        | inl late ↦ rw (late, process_at) (arrives propose vote _ (voting (ground arith)))
        | inr early ↦ rw (early, process_at) (remains propose w e)
      ]
      process_at-Move vote tl ctx w e = process_vote-Move tl w e
      process_at-Move commit tl ctx w e = process_commit-Move tl w e

      -- One call of process() at any time takes a move of the protocol, at the time line of the
      -- call: the steps come in their order, each within its part of the block time.
      pub process-Move :
          (timestamp : ℕ) (w : W)
          → Move (timeline timestamp) (step_of w) (step_of (process i timestamp w))
      unfolding process
      process-Move timestamp w = process_at-Move (step_of w) _ _ w refl
