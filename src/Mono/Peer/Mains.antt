-- ===== src/Mono/Peer/Mains.antt =====
-- tests/dev/bcp_mono/node.cpp: what onMain() does in each state, the constructor and start(); and run()
-- of node_manager.cpp.
use bcp_concept_prototype.Prelude.{
  ℕ, ◌+◌, ◌/◌, Bool, true, none, some, [], ◌==◌, ltb, leb, if◌then◌else◌,
}
use bcp_concept_prototype.Core.{Core}
use bcp_concept_prototype.Mono.{MonoCore}
use bcp_concept_prototype.Mono.Vector.{get_value_if_count_exceeds}
use bcp_concept_prototype.Mono.Chain.{BlockChain, size, get_block, append_block}
use bcp_concept_prototype.Mono.Chain
use bcp_concept_prototype.Mono.Peer.{
  NodeState, null, sync, waiting, new_round, propose, vote, commit, bcp_timeout_pop,
  bcp_timeout_propose, bcp_timeout_vote, Clock, round_time, for_nodes, Node, Manager, update,
}
use bcp_concept_prototype.Mono.Peer.States.{
  nat_eq, on_state_sync_begin, set_state, request_block_sync, request_new_round,
}

module _ ⦃c : Core⦄ ⦃k : MonoCore⦄ where
  open c use {
    Header, Block, header, header_hash, header_eq, new_block, block_index, null_block, null_header,
    append_transaction, sign,
  }
  open k use {header_lt, block_eq, reward_transaction}

  -- It enters node_state_waiting first, and goes on with the rest of the callback.
  unfoldable pub on_state_sync_main : ℕ → Clock → Manager → Manager
  on_state_sync_main me clock m =
      let left = set_state me clock waiting m in
      if ltb ((left.nodes me).sync_time + 1000) clock.now
      then request_block_sync me (update me (on_state_sync_begin clock) left)
      else elim (get_value_if_count_exceeds nat_eq (left.peer_count / 2)
          (left.nodes me).sync_target_block_height) [
            | none ↦ left
            | some height ↦
                if leb height (size (left.nodes me).block_chain)
                then set_state me clock waiting left
                else left
          ]

  -- What a majority of new round messages makes of the own next index.
  unfoldable pub join_round : ℕ → Clock → ℕ → ℕ → Manager → Manager
  join_round me clock own index m =
      if own == index
      then set_state me clock new_round
          (update me (λ node. record node { new_block_index = index }) m)
      else (if ltb own index then set_state me clock sync m else m)

  unfoldable pub on_state_waiting_main : ℕ → Clock → Manager → Manager
  on_state_waiting_main me clock m =
      let own = size (m.nodes me).block_chain + 1 in
      let asked = request_new_round me clock own m in
      elim (get_value_if_count_exceeds nat_eq (asked.peer_count / 2)
        (asked.nodes me).received_new_round) [
          | none ↦ asked
          | some index ↦ join_round me clock own index asked
        ]

  unfoldable pub on_state_new_round_main : ℕ → Clock → Manager → Manager
  on_state_new_round_main me clock m =
      if ltb bcp_timeout_pop (round_time clock) then set_state me clock propose m else m

  unfoldable pub on_state_propose_main : ℕ → Clock → Manager → Manager
  on_state_propose_main me clock m =
      if ltb bcp_timeout_propose (round_time clock) then set_state me clock vote m else m

  unfoldable pub on_state_vote_main : ℕ → Clock → Manager → Manager
  on_state_vote_main me clock m =
      if ltb bcp_timeout_vote (round_time clock)
      then set_state me clock waiting m
      else elim (get_value_if_count_exceeds header_eq (m.peer_count / 2) (m.nodes me).vote_header) [
        | none ↦ m
        | some h ↦
            set_state me clock commit
              (update me (λ node. record node { commit_block_header = h }) m)
      ]

  unfoldable pub append : Block → Node → Node
  append b node = record node {
    block_chain = (append_block (block_index b) b true node.block_chain).0;
  }

  unfoldable pub on_state_commit_main : ℕ → Clock → Manager → Manager
  on_state_commit_main me clock m =
      if leb (round_time clock) 1
      then set_state me clock waiting m
      else elim (get_value_if_count_exceeds block_eq (m.peer_count / 2) (m.nodes me).commits) [
        | none ↦ m
        | some b ↦ set_state me clock waiting (update me (append b) m)
      ]

  unfoldable pub on_state_main : ℕ → Clock → NodeState → Manager → Manager
  on_state_main me clock null m = m
  on_state_main me clock sync m = on_state_sync_main me clock m
  on_state_main me clock waiting m = on_state_waiting_main me clock m
  on_state_main me clock new_round m = on_state_new_round_main me clock m
  on_state_main me clock propose m = on_state_propose_main me clock m
  on_state_main me clock vote m = on_state_vote_main me clock m
  on_state_main me clock commit m = on_state_commit_main me clock m

  unfoldable pub on_main : ℕ → Clock → Manager → Manager
  on_main me clock m = on_state_main me clock (m.nodes me).node_state m

  -- One pass of the loop of run(), at the clock readings of the nodes.
  unfoldable pub pass : (ℕ → Clock) → Manager → Manager
  pass clocks m = if m.stopped then m else for_nodes m.peer_count 0 (λ p. on_main p (clocks p)) m

  -- The constructor leaves the round time, its flag and the block index as they lie in memory.
  unfoldable pub created : ℕ → Bool → ℕ → ℕ → Node
  created address sent round index = record {
    address = address;
    block_chain = Chain.new;
    node_state = null;
    node_state_begin_time = 0;
    sync_time = 0;
    sync_target_block_height = [];
    received_new_round = [];
    new_round_message_sent = sent;
    current_round_time = round;
    new_block_index = index;
    new_block = null_block;
    user_block_header = [];
    propose_header = [];
    vote_header = [];
    commit_block_header = null_header;
    commit_block = null_block;
    commits = [];
  }

  -- start( idx ), of a node whose key pair is new
  unfoldable pub start : ℕ → Clock → Manager → Manager
  start me clock m = set_state me clock sync m
