-- ===== src/Node/Sound.antt =====
-- All node servers of node_manager.cpp are sound, and each change of one node keeps it so.
use mathlib.Core.Path.{subst}
use bcp_concept_prototype.Prelude.{ℕ, ◌<◌, ◌≡◌, arith, ◌==◌, Bool-cases, inl, inr}
use bcp_concept_prototype.Core.{Core, Chain}
use bcp_concept_prototype.Bcp.Sound.{IsSound}
use bcp_concept_prototype.Bcp.Sound.Operations.{
  set_candidate_block-IsSound, set_my_vote-IsSound, clear_intermediate_data-IsSound,
  append_new_round_message_for-IsSound, append_user_block_header_for-IsSound,
  append_proposed_block_header_for-IsSound, vote_block_header_for-IsSound,
  add_verified_block-IsSound, get_elected_block_header-state,
}
use bcp_concept_prototype.Node.{
  NodeServer, NodeManager, Message, all_peer_count, modify, set_bcp, set_chain, receive, hand_over,
}
use bcp_concept_prototype.Node.Kept.{IsKept}
use bcp_concept_prototype.Node.Server.{nominate, adopt, clear}

module _ ⦃c : Core⦄ ⦃ch : Chain⦄ where
  open c use {Header, Block, header, header_eq}

  -- Among `n` nodes, each has a sound consensus server.
  unfoldable pub AllSound : ℕ → NodeManager → Type 0
  AllSound n m = (m.node_count ≡ n) × ((j : ℕ) → IsSound n (m.node_servers j).bcp_server)

  receive-IsSound :
      (n sender : ℕ) (msg : Message) (node : NodeServer)
      → sender < n
      → IsSound n node.bcp_server
      → IsSound n (receive n sender msg node).bcp_server
  unfolding receive set_bcp set_chain
  receive-IsSound n sender (Message.block_req index) node lt v = v
  receive-IsSound n sender (Message.block_ack b) node lt v = v
  receive-IsSound n sender (Message.new_round index) node lt v =
      append_new_round_message_for-IsSound n _ v sender index lt
  receive-IsSound n sender (Message.propose h) node lt v =
      append_proposed_block_header_for-IsSound n _ v sender h
  receive-IsSound n sender (Message.vote h) node lt v =
      vote_block_header_for-IsSound n _ v sender h lt
  receive-IsSound n sender (Message.commit b) node lt v =
      add_verified_block-IsSound n _ v sender b lt
  receive-IsSound n sender (Message.verify_block b) node lt v = v

  -- A change of one node that keeps it sound.
  pub modify-AllSound :
      (n p : ℕ) (f : NodeServer → NodeServer) (m : NodeManager)
      → AllSound n m
      → (IsSound n (m.node_servers p).bcp_server → IsSound n (f (m.node_servers p)).bcp_server)
      → AllSound n (modify p f m)
  unfolding modify AllSound
  modify-AllSound n p f m (count, all) keep = (count, λ j. at j)
    where
      at : (j : ℕ) → IsSound n ((modify p f m).node_servers j).bcp_server
      at j = elim (Bool-cases (p == j)) [
        | inl this ↦
            let here : p ≡ j = ground arith in
            rw (this, modify)
              (subst (λ q. IsSound n (f (m.node_servers q)).bcp_server) here (keep (all p)))
        | inr other ↦ rw (other, modify) (all j)
      ]

  nominate-IsSound :
      (n : ℕ) (b : Block) (node : NodeServer)
      → IsSound n node.bcp_server
      → IsSound n (nominate b node).bcp_server
  unfolding nominate set_bcp
  nominate-IsSound n b node v =
      append_user_block_header_for-IsSound n _ (set_candidate_block-IsSound n _ v b) node.address
        (header b)

  pub AllSound-IsKept : (n : ℕ) → IsKept (AllSound n) (λ p. p < n) n
  unfolding AllSound hand_over set_bcp set_chain adopt clear all_peer_count
  AllSound-IsKept n = record {
    peer = λ p lt. lt;
    counted = λ m h. h.0;
    handed = λ receiver sender msg m lt h.
        modify-AllSound n receiver _ m h
          (λ v. rw h.0 (receive-IsSound n sender msg (m.node_servers receiver) lt v));
    asked = λ me m h.
        modify-AllSound n me _ m h
          (λ v. rw h.0 (rw (get_elected_block_header-state n (m.node_servers me).bcp_server v) v));
    nominated = λ me b m h. modify-AllSound n me _ m h (nominate-IsSound n _ _);
    adopted = λ me w m h. modify-AllSound n me _ m h (λ v. set_candidate_block-IsSound n _ v _);
    voted = λ me w m h. modify-AllSound n me _ m h (λ v. set_my_vote-IsSound n _ v w);
    committed = λ me b m h. modify-AllSound n me _ m h (λ v. clear_intermediate_data-IsSound n _ v);
    cleared = λ me m h. modify-AllSound n me _ m h (λ v. clear_intermediate_data-IsSound n _ v);
  }
