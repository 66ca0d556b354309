-- ===== src/Mono/Peer/States.antt =====
-- tests/dev/bcp_mono/node.cpp: what a node does when a state begins, block creation, and the requests
-- that it sends.
use bcp_concept_prototype.Prelude.{
  ℕ, ◌-◌, Bool, true, false, not, ◌&&◌, Option, none, some, [], ◌==◌, ltb, if◌then◌else◌,
}
use bcp_concept_prototype.Core.{Core}
use bcp_concept_prototype.Mono.{MonoCore}
use bcp_concept_prototype.Mono.Vector.{add, low_value}
use bcp_concept_prototype.Mono.Chain.{size, get_block}
use bcp_concept_prototype.Mono.Peer.{
  NodeState, null, sync, waiting, new_round, propose, vote, commit, bcp_timeout_pop, Clock,
  round_of, round_time, Node, Manager, block_height_req, new_round_msg, propose_msg, vote_msg,
  commit_block_req, update, sendall,
}

-- == of two states, from their numbers
abbrev pub number_of : NodeState → ℕ
number_of null = 0
number_of sync = 1
number_of waiting = 2
number_of new_round = 3
number_of propose = 4
number_of vote = 5
number_of commit = 6

abbrev pub state_eq : NodeState → NodeState → Bool
state_eq s t = number_of s == number_of t

abbrev pub nat_eq : ℕ → ℕ → Bool
nat_eq a b = a == b

module _ ⦃c : Core⦄ ⦃k : MonoCore⦄ where
  open c use {
    Header, Block, header, header_hash, header_eq, new_block, block_index, null_block, null_header,
    append_transaction, sign,
  }
  open k use {header_lt, block_eq, reward_transaction}

  unfoldable pub get_block_hash : ℕ → Node → Option ℕ
  get_block_hash index node = elim (get_block index node.block_chain) [
    | none ↦ none
    | some b ↦ some (header_hash (header b))
  ]

  unfoldable pub block_after : ℕ → Node → ℕ → Option Block
  block_after index node prev =
      append_transaction (new_block index prev) (reward_transaction node.address node.address 100)

  -- The first block has no predecessor: its previous hash is uint256(), zero.
  unfoldable pub create_block_for : ℕ → Node → Option Block
  create_block_for index node =
      if ltb 1 index
      then elim (get_block_hash (index - 1) node) [
        | none ↦ none
        | some prev ↦ block_after index node prev
      ]
      else block_after index node 0

  unfoldable pub nominate : Block → Node → Node
  nominate b node =
      let signed = sign b node.address in
      record node {
        new_block = signed;
        user_block_header = add (header signed) node.user_block_header;
      }

  -- After a failure _node_manager.stop() only reads the flag, and the old block stays.
  unfoldable pub on_state_new_round_begin : Node → Node
  on_state_new_round_begin node = elim (create_block_for node.new_block_index node) [
    | none ↦ node
    | some b ↦ nominate b node
  ]

  unfoldable pub on_state_sync_begin : Clock → Node → Node
  on_state_sync_begin clock node = record node { sync_time = clock.now }

  unfoldable pub on_state_waiting_begin : Node → Node
  on_state_waiting_begin node = record node {
    received_new_round = [];
    user_block_header = [];
    propose_header = [];
    vote_header = [];
    commits = [];
  }

  unfoldable pub on_state_propose_begin : ℕ → Manager → Manager
  on_state_propose_begin me m = elim (low_value header_lt (m.nodes me).user_block_header) [
    | none ↦ m
    | some h ↦ sendall me (propose_msg h) m
  ]

  unfoldable pub on_state_vote_begin : ℕ → Manager → Manager
  on_state_vote_begin me m = elim (low_value header_lt (m.nodes me).propose_header) [
    | none ↦ m
    | some h ↦ sendall me (vote_msg h) m
  ]

  unfoldable pub on_state_commit_begin : ℕ → Manager → Manager
  on_state_commit_begin me m = sendall me (commit_block_req (m.nodes me).commit_block_header) m

  unfoldable pub on_state_begin : ℕ → Clock → NodeState → Manager → Manager
  on_state_begin me clock null m = m
  on_state_begin me clock sync m = update me (on_state_sync_begin clock) m
  on_state_begin me clock waiting m = update me on_state_waiting_begin m
  on_state_begin me clock new_round m = update me on_state_new_round_begin m
  on_state_begin me clock propose m = on_state_propose_begin me m
  on_state_begin me clock vote m = on_state_vote_begin me m
  on_state_begin me clock commit m = on_state_commit_begin me m

  -- The callbacks of a state's end are empty.
  unfoldable pub enter : Clock → NodeState → Node → Node
  enter clock s node = record node { node_state = s; node_state_begin_time = clock.now }

  unfoldable pub set_state : ℕ → Clock → NodeState → Manager → Manager
  set_state me clock s m =
      if state_eq (m.nodes me).node_state s
      then m
      else on_state_begin me clock s (update me (enter clock s) m)

  unfoldable pub request_block_sync : ℕ → Manager → Manager
  request_block_sync me m =
      let cleared = update me (λ node. record node { sync_target_block_height = [] }) m in
      sendall me (block_height_req (size (cleared.nodes me).block_chain)) cleared

  -- A new round starts over, and its message is sent once, early in the block time.
  unfoldable pub begin_round : Clock → Node → Node
  begin_round clock node =
      if ltb node.current_round_time (round_of clock)
      then record node { current_round_time = round_of clock; new_round_message_sent = false }
      else node

  unfoldable pub request_new_round : ℕ → Clock → ℕ → Manager → Manager
  request_new_round me clock index m =
      let begun = update me (begin_round clock) m in
      if not (begun.nodes me).new_round_message_sent && ltb (round_time clock) bcp_timeout_pop
      then sendall me (new_round_msg index)
          (update me (λ node. record node { new_round_message_sent = true }) begun)
      else begun
