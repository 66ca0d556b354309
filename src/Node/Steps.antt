-- ===== src/Node/Steps.antt =====
-- The node servers of node_server.cpp as users of bcp_server::process(): no message and no callback
-- touches the step or the time context of a consensus server, so that the laws of the callback
-- interface hold and each node moves as the protocol says.
use bcp_concept_prototype.Prelude.{
  ℕ, ◌<◌, ◌≡◌, ◌≢◌, refl, ◌∙◌, arith, ◌==◌, Bool-cases, ◌⊎◌, inl, inr,
}
use bcp_concept_prototype.Core.{Core, Chain}
use bcp_concept_prototype.Bcp.{
  BcpServer, BcpStep, null, waiting, proof_of_participation, timeout_proof_of_participation,
  timeout_propose, timeout_vote, timeline, clear_intermediate_data, set_candidate_block,
  set_my_vote,
}
use bcp_concept_prototype.Bcp.Rounds.{append_new_round_message_for}
use bcp_concept_prototype.Bcp.Select.{
  append_proposed_block_header_for, append_user_block_header_for,
}
use bcp_concept_prototype.Bcp.Votes.{vote_block_header_for, get_elected_block_header}
use bcp_concept_prototype.Bcp.Commit.{add_verified_block}
use bcp_concept_prototype.Bcp.Process.Steps.{Move, IsIface, elected_keeps, process-Move}
use bcp_concept_prototype.Bcp.Process.Timeouts.{round_ends}
use bcp_concept_prototype.Node.{
  NodeServer, NodeManager, Message, block_req, block_ack, new_round, propose, vote, commit,
  verify_block, all_peer_count, modify, set_bcp, set_chain, receive, hand_over,
}
use mathlib.Core.Path.{subst}
use bcp_concept_prototype.Node.Kept.{
  IsKept, on_bcp_new_round_ready-kept, on_bcp_new_round_start_for-kept,
  on_bcp_step_propose_start_for-kept, on_bcp_step_vote_start_for-kept,
  on_bcp_step_commit_start_for-kept, on_bcp_new_block_commit_for-kept, on_bcp_consensus_fail-kept,
}
use bcp_concept_prototype.Node.Server.{nominate, adopt, clear, callbacks, main}

module _ ⦃c : Core⦄ ⦃ch : Chain⦄ where
  open c use {Header, Block, header, header_eq}

  -- The step and the time context are those of before.
  abbrev pub Sync : NodeServer → NodeServer → Type 0
  Sync old node =
      (node.bcp_server.current_step ≡ old.bcp_server.current_step)
      × (node.bcp_server.time_context ≡ old.bcp_server.time_context)

  abbrev pub AllSync : NodeManager → NodeManager → Type 0
  AllSync old m = (j : ℕ) → Sync (old.node_servers j) (m.node_servers j)

  receive-Sync :
      (n sender : ℕ) (msg : Message) (node : NodeServer) → Sync node (receive n sender msg node)
  unfolding receive set_bcp set_chain append_new_round_message_for append_proposed_block_header_for
      vote_block_header_for add_verified_block get_elected_block_header
  receive-Sync n sender (block_req index) node = (refl, refl)
  receive-Sync n sender (block_ack b) node = (refl, refl)
  receive-Sync n sender (new_round index) node = ground arith
  receive-Sync n sender (propose h) node = ground arith
  receive-Sync n sender (vote h) node = ground arith
  receive-Sync n sender (commit b) node = ground arith
  receive-Sync n sender (verify_block b) node = (refl, refl)

  nominate-Sync : (b : Block) (node : NodeServer) → Sync node (nominate b node)
  unfolding nominate set_bcp set_candidate_block append_user_block_header_for
  nominate-Sync b node = ground arith

  adopt-Sync : (h : Header) (node : NodeServer) → Sync node (adopt h node)
  unfolding adopt set_bcp set_candidate_block
  adopt-Sync h node = (refl, refl)

  voted-Sync :
      (h : Header) (node : NodeServer) → Sync node (set_bcp (set_my_vote h node.bcp_server) node)
  unfolding set_bcp set_my_vote
  voted-Sync h node = (refl, refl)

  clear-Sync : (node : NodeServer) → Sync node (clear node)
  unfolding clear set_bcp clear_intermediate_data
  clear-Sync node = (refl, refl)

  committed-Sync :
      (b : Block) (node : NodeServer)
      → Sync node (clear (set_chain (ch.append_block b node.block_chain).0 node))
  unfolding clear set_bcp set_chain clear_intermediate_data
  committed-Sync b node = (refl, refl)

  modify-AllSync :
      (old m : NodeManager) (p : ℕ) (f : NodeServer → NodeServer)
      → Sync (m.node_servers p) (f (m.node_servers p))
      → AllSync old m
      → AllSync old (modify p f m)
  unfolding modify
  modify-AllSync old m p f keep all j = elim (Bool-cases (p == j)) [
    | inl this ↦
        let here : p ≡ j = ground arith in
        let kept = subst (λ q. Sync (m.node_servers q) (f (m.node_servers q))) here keep in
        rw (this, modify) (kept.0 ∙ (all j).0, kept.1 ∙ (all j).1)
    | inr other ↦ rw (other, modify) (all j)
  ]

  -- As many nodes, in step with those of before.
  IsInStep : NodeManager → NodeManager → Type 0
  IsInStep old m = (m.node_count ≡ old.node_count) × AllSync old m

  modify-IsInStep :
      (old m : NodeManager) (p : ℕ) (f : NodeServer → NodeServer)
      → Sync (m.node_servers p) (f (m.node_servers p))
      → IsInStep old m
      → IsInStep old (modify p f m)
  unfolding IsInStep modify
  modify-IsInStep old m p f k h = (h.0, modify-AllSync old m p f k h.1)

  IsInStep-IsKept : (old : NodeManager) → IsKept (IsInStep old) (λ _. Unit {0}) old.node_count
  unfolding IsInStep hand_over set_bcp
  IsInStep-IsKept old = record {
    peer = λ p lt. tt;
    counted = λ m h. h.0;
    handed = λ receiver sender msg m s h.
        modify-IsInStep old m receiver _ (receive-Sync (all_peer_count m) sender msg _) h;
    asked = λ me m h.
        modify-IsInStep old m me _ (elected_keeps (all_peer_count m) (m.node_servers me).bcp_server)
          h;
    nominated = λ me b m h.
        modify-IsInStep old m me _ (nominate-Sync (c.sign b (m.node_servers me).address) _) h;
    adopted = λ me w m h. modify-IsInStep old m me _ (adopt-Sync w (m.node_servers me)) h;
    voted = λ me w m h. modify-IsInStep old m me _ (voted-Sync w (m.node_servers me)) h;
    committed = λ me b m h. modify-IsInStep old m me _ (committed-Sync b (m.node_servers me)) h;
    cleared = λ me m h. modify-IsInStep old m me _ (clear-Sync (m.node_servers me)) h;
  }

  still : (m : NodeManager) → IsInStep m m
  unfolding IsInStep
  still m = (refl, λ j. (refl, refl))

  own :
      (old m : NodeManager) (me : ℕ)
      → IsInStep old m
      → Sync (old.node_servers me) (m.node_servers me)
  unfolding IsInStep
  own old m me h = h.1 me

  -- The callbacks of a node leave its step and its time context, as process() needs.
  pub callbacks-IsIface : (me : ℕ) → IsIface (callbacks me)
  unfolding callbacks
  callbacks-IsIface me = record {
    bcp-set_bcp = λ s m. set_self s m;
    ready_keeps =
        λ m. own m _ me (on_bcp_new_round_ready-kept (IsInStep-IsKept m) me tt m (still m));
    start_keeps = λ round m.
        own m _ me (on_bcp_new_round_start_for-kept (IsInStep-IsKept m) me tt m (still m) round);
    propose_keeps =
        λ m. own m _ me (on_bcp_step_propose_start_for-kept (IsInStep-IsKept m) me tt m (still m));
    vote_keeps =
        λ m. own m _ me (on_bcp_step_vote_start_for-kept (IsInStep-IsKept m) me tt m (still m));
    commit_keeps = λ h mine m.
        own m _ me (on_bcp_step_commit_start_for-kept (IsInStep-IsKept m) me tt m (still m) h mine);
    new_block_keeps = λ b m.
        own m _ me (on_bcp_new_block_commit_for-kept (IsInStep-IsKept m) me tt m (still m) b);
    fail_keeps = λ m. own m _ me (on_bcp_consensus_fail-kept (IsInStep-IsKept m) me tt m (still m));
  }
    where
      set_self :
          (s : BcpServer) (m : NodeManager)
          → ((modify me (set_bcp s) m).node_servers me).bcp_server ≡ s
      set_self s m = unfold modify set_bcp in ground arith

  -- The step of a node.
  abbrev pub step_at : ℕ → NodeManager → BcpStep
  step_at me m = (m.node_servers me).bcp_server.current_step

  -- One call of main() takes the node by one move of the protocol, at the time line of the call.
  pub main-Move :
      (me timestamp : ℕ) (m : NodeManager)
      → Move (timeline timestamp) (step_at me m) (step_at me (main me timestamp m))
  unfolding main callbacks
  main-Move me timestamp m = process-Move (callbacks me) (callbacks-IsIface me) timestamp m

  -- A node that runs, whose main() is called four times, after the timeouts of the proof of
  -- participation, of the proposal and of the vote in their block times, and then before the first
  -- of them, has ended its round: it waits or has begun a new one.
  pub main_round_ends :
      (me t₁ t₂ t₃ t₄ : ℕ) (m : NodeManager)
      → step_at me m ≢ null
      → timeout_proof_of_participation < timeline t₁
      → timeout_propose < timeline t₂
      → timeout_vote < timeline t₃
      → timeline t₄ < timeout_proof_of_participation
      → let s = step_at me (main me t₄ (main me t₃ (main me t₂ (main me t₁ m)))) in
        (s ≡ waiting) ⊎ (s ≡ proof_of_participation)
  unfolding main callbacks
  main_round_ends me t₁ t₂ t₃ t₄ m = round_ends (callbacks me) (callbacks-IsIface me) t₁ t₂ t₃ t₄ m
