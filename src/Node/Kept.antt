-- ===== src/Node/Kept.antt =====
-- How a property of all nodes is carried through the handlers and callbacks of node_server.cpp: it
-- is enough that the changes of one node that they are made of keep it.
use bcp_concept_prototype.Prelude.{
  ℕ, zero, suc, ◌+◌, ◌≤◌, ◌<◌, ◌≡◌, Bool, true, false, arith, Bool-cases, Option-cases, inl, inr,
}
use bcp_concept_prototype.Core.{Core, Chain}
use bcp_concept_prototype.Bcp.{set_my_vote}
use bcp_concept_prototype.Bcp.Select.{select_user_block_header, select_proposed_block_header}
use bcp_concept_prototype.Bcp.Votes.{get_elected_block_header}
use bcp_concept_prototype.Node.{
  NodeManager, Message, block_req, block_ack, new_round, propose, vote, commit, verify_block,
  sent_ack, sent_commit, all_peer_count, modify, set_bcp, set_chain, hand_over, for_peers,
  on_block_req, on_verify_block, on_peer_message, sendall,
}
use bcp_concept_prototype.Node.Server.{
  create_block_for, nominate, adopt, clear, on_bcp_new_round_ready, on_bcp_new_round_start_for,
  on_bcp_step_propose_start_for, on_bcp_step_vote_start_for, on_bcp_step_commit_start_for,
  on_bcp_new_block_commit_for, on_bcp_consensus_fail,
}

module _ ⦃c : Core⦄ ⦃ch : Chain⦄ where
  open c use {Header, Block, header, header_eq}

  -- What every turn of the loop over the peers keeps, the loop keeps.
  pub for_peers_inv {ℓ} :
      (P : NodeManager → Type ℓ) (f : ℕ → NodeManager → NodeManager) (k p n : ℕ) (m : NodeManager)
      → ((q : ℕ) (r : NodeManager) → q < n → P r → P (f q r))
      → p + k ≤ n
      → P m
      → P (for_peers k p f m)
  unfolding for_peers
  for_peers_inv P f zero p n m keep room h = h
  for_peers_inv P f (suc k) p n m keep room h =
      for_peers_inv P f k (suc p) n (f p m) keep (omega arith) (keep p m (omega arith) h)

  -- `P` is kept by each change of one node, among `n` nodes and for the senders of `S`.
  pub record IsKept {ℓ} (P : NodeManager → Type ℓ) (S : ℕ → Type 0) (n : ℕ) : Type ℓ where
    pub peer : (p : ℕ) → p < n → S p
    pub counted : (m : NodeManager) → P m → m.node_count ≡ n
    pub handed :
        (receiver sender : ℕ) (msg : Message) (m : NodeManager)
        → S sender
        → P m
        → P (hand_over receiver sender msg m)
    pub asked :
        (me : ℕ) (m : NodeManager)
        → P m
        → P (
            modify me
              (set_bcp
                (get_elected_block_header (all_peer_count m) (m.node_servers me).bcp_server).0)
              m)
    pub nominated :
        (me : ℕ) (b : Block) (m : NodeManager)
        → P m
        → P (modify me (λ node. nominate (c.sign b node.address) node) m)
    pub adopted : (me : ℕ) (h : Header) (m : NodeManager) → P m → P (modify me (adopt h) m)
    pub voted :
        (me : ℕ) (h : Header) (m : NodeManager)
        → P m
        → P (modify me (λ node. set_bcp (set_my_vote h node.bcp_server) node) m)
    pub committed :
        (me : ℕ) (b : Block) (m : NodeManager)
        → P m
        → P (modify me (λ node. clear (set_chain (ch.append_block b node.block_chain).0 node)) m)
    pub cleared : (me : ℕ) (m : NodeManager) → P m → P (modify me clear m)

  module _ {ℓ} {P : NodeManager → Type ℓ} {S : ℕ → Type 0} {n : ℕ} (kept : IsKept P S n) where
    on_block_req-kept :
        (me sender index : ℕ) (m : NodeManager) → S me → P m → P (on_block_req me sender index m)
    unfolding on_block_req
    on_block_req-kept me sender index m lt h =
        elim (Option-cases (ch.get_block index (m.node_servers me).block_chain)) [
          | inl e ↦ rw (e, on_block_req) h
          | inr (b, e) ↦ rw (e, on_block_req) (kept.handed sender me (sent_ack b) m lt h)
        ]

    on_verify_block-kept :
        (me : ℕ) (b : Block) (m : NodeManager) → S me → P m → P (on_verify_block me b m)
    unfolding on_verify_block all_peer_count
    on_verify_block-kept me b m lt h =
        elim (Option-cases
          (get_elected_block_header m.node_count (m.node_servers me).bcp_server).1) [
            | inl e ↦ rw (e, on_verify_block) asked
            | inr (w, e) ↦ elim (Bool-cases (header_eq w (header b))) [
              | inr other ↦ rw (e, other, on_verify_block) asked
              | inl same ↦ elim (Bool-cases (c.verify b)) [
                | inr bad ↦ rw (e, same, bad, on_verify_block) asked
                | inl good ↦
                    rw (e, same, good, on_verify_block)
                      (for_peers_inv P _ m.node_count 0 n _
                        (λ p r _ hr. kept.handed p me (sent_commit b) r lt hr)
                        (omega (arith, kept.counted m h)) asked)
              ]
            ]
          ]
      where
        asked : P (
            modify me
              (set_bcp (get_elected_block_header m.node_count (m.node_servers me).bcp_server).0)
              m)
        asked = kept.asked me m h

    on_peer_message-kept :
        (me sender : ℕ) (msg : Message) (m : NodeManager)
        → S me
        → S sender
        → P m
        → P (on_peer_message me sender msg m)
    unfolding on_peer_message
    on_peer_message-kept me sender (block_req index) m lt ls h =
        on_block_req-kept me sender index m lt h
    on_peer_message-kept me sender (verify_block b) m lt ls h = on_verify_block-kept me b m lt h
    on_peer_message-kept me sender (block_ack b) m lt ls h =
        kept.handed me sender (block_ack b) m ls h
    on_peer_message-kept me sender (new_round r) m lt ls h =
        kept.handed me sender (new_round r) m ls h
    on_peer_message-kept me sender (propose w) m lt ls h = kept.handed me sender (propose w) m ls h
    on_peer_message-kept me sender (vote w) m lt ls h = kept.handed me sender (vote w) m ls h
    on_peer_message-kept me sender (commit b) m lt ls h = kept.handed me sender (commit b) m ls h

    pub sendall-kept :
        (sender : ℕ) (msg : Message) (m : NodeManager) → S sender → P m → P (sendall sender msg m)
    unfolding sendall all_peer_count
    sendall-kept sender msg m ls h =
        for_peers_inv P _ m.node_count 0 n m
          (λ p r lt hr. on_peer_message-kept p sender msg r (kept.peer p lt) ls hr)
          (omega (arith, kept.counted m h)) h

    module _ (me : ℕ) (lt : S me) (m : NodeManager) (h : P m) where
      pub on_bcp_new_round_ready-kept : P (on_bcp_new_round_ready me m)
      unfolding on_bcp_new_round_ready
      on_bcp_new_round_ready-kept = sendall-kept me _ m lt h

      pub on_bcp_new_round_start_for-kept : (round : ℕ) → P (on_bcp_new_round_start_for me round m)
      unfolding on_bcp_new_round_start_for
      on_bcp_new_round_start_for-kept round =
          elim (Option-cases (create_block_for round (m.node_servers me))) [
            | inl e ↦ rw (e, on_bcp_new_round_start_for) h
            | inr (b, e) ↦ rw (e, on_bcp_new_round_start_for) (kept.nominated me b m h)
          ]

      pub on_bcp_step_propose_start_for-kept : P (on_bcp_step_propose_start_for me m)
      unfolding on_bcp_step_propose_start_for
      on_bcp_step_propose_start_for-kept =
          elim (Option-cases (select_user_block_header (m.node_servers me).bcp_server)) [
            | inl e ↦ rw (e, on_bcp_step_propose_start_for) h
            | inr ((a, w), e) ↦
                rw (e, on_bcp_step_propose_start_for)
                  (sendall-kept me (propose w) _ lt (kept.adopted me w m h))
          ]

      pub on_bcp_step_vote_start_for-kept : P (on_bcp_step_vote_start_for me m)
      unfolding on_bcp_step_vote_start_for
      on_bcp_step_vote_start_for-kept =
          elim (Option-cases (select_proposed_block_header (m.node_servers me).bcp_server)) [
            | inl e ↦ rw (e, on_bcp_step_vote_start_for) h
            | inr (w, e) ↦
                rw (e, on_bcp_step_vote_start_for)
                  (sendall-kept me (vote w) _ lt (kept.voted me w m h))
          ]

      pub on_bcp_step_commit_start_for-kept :
          (w : Header) (mine : Bool) → P (on_bcp_step_commit_start_for me w mine m)
      unfolding on_bcp_step_commit_start_for
      on_bcp_step_commit_start_for-kept w true = sendall-kept me _ m lt h
      on_bcp_step_commit_start_for-kept w false = h

      pub on_bcp_new_block_commit_for-kept : (b : Block) → P (on_bcp_new_block_commit_for me b m)
      unfolding on_bcp_new_block_commit_for
      on_bcp_new_block_commit_for-kept b = kept.committed me b m h

      pub on_bcp_consensus_fail-kept : P (on_bcp_consensus_fail me m)
      unfolding on_bcp_consensus_fail
      on_bcp_consensus_fail-kept = kept.cleared me m h
