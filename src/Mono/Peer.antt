-- ===== src/Mono/Peer.antt =====
-- tests/dev/bcp_mono: node.hpp, the message handlers of node.cpp and the sending of node_manager.cpp.
-- A message is handled by a call before sendto() or sendall() returns. Log output is left out.
pub mod States
pub mod Mains
pub mod Main
pub mod Quiet
pub mod Settled
pub mod Moves
pub mod Commits
pub mod Ballots
use bcp_concept_prototype.Prelude.{
  ℕ, zero, suc, ◌+◌, ◌*◌, ◌/◌, ◌%◌, Bool, true, false, ◌&&◌, List, [], ◌==◌, ltb, if◌then◌else◌,
}
use bcp_concept_prototype.Core.{Core}
use bcp_concept_prototype.Mono.{MonoCore}
use bcp_concept_prototype.Mono.Vector.{add}
use bcp_concept_prototype.Mono.Chain.{BlockChain, size}

-- enum node_state
pub data NodeState : Type 0 where
  null sync waiting new_round propose vote commit : NodeState

-- enum bcp_timeout, in seconds
abbrev pub bcp_timeout_pop : ℕ
bcp_timeout_pop = 5

abbrev pub bcp_timeout_propose : ℕ
bcp_timeout_propose = 10

abbrev pub bcp_timeout_vote : ℕ
bcp_timeout_vote = 20

abbrev pub bcp_timeout_commit : ℕ
bcp_timeout_commit = 30

abbrev pub bcp_block_time : ℕ
bcp_block_time = bcp_timeout_commit

-- What the clocks show during one call: the network time in seconds, the own one in milliseconds.
pub record Clock : Type 0 where
  pub ntp : ℕ
  pub now : ℕ

-- get_current_round_time()
unfoldable pub round_of : Clock → ℕ
round_of clock = clock.ntp / bcp_block_time

unfoldable pub round_time : Clock → ℕ
round_time clock = clock.ntp % bcp_block_time

-- The loop over all nodes, from the index `p` on.
unfoldable pub for_nodes {ℓ} : {W : Type ℓ} → ℕ → ℕ → (ℕ → W → W) → W → W
for_nodes zero p f w = w
for_nodes (suc n) p f w = for_nodes n (suc p) f (f p w)

module _ ⦃c : Core⦄ ⦃k : MonoCore⦄ where
  open c use {Header, Block, header, header_eq, transfer}
  open k use {block_valid, merkle_root_hash, header_merkle_root}

  -- class node; the key pair is known by its address, and the index is the place in the manager
  pub record Node : Type 0 where
    pub address : ℕ
    pub block_chain : BlockChain
    pub node_state : NodeState
    pub node_state_begin_time : ℕ
    pub sync_time : ℕ
    pub sync_target_block_height : List ℕ
    pub received_new_round : List ℕ
    pub new_round_message_sent : Bool
    pub current_round_time : ℕ
    pub new_block_index : ℕ
    pub new_block : Block
    pub user_block_header : List Header
    pub propose_header : List Header
    pub vote_header : List Header
    pub commit_block_header : Header
    pub commit_block : Block
    pub commits : List Block

  -- class node_manager
  pub record Manager : Type 0 where
    pub nodes : ℕ → Node
    pub peer_count : ℕ
    pub stopped : Bool

  -- The messages that onMessage() dispatches.
  pub data Message : Type 0 where
    block_height_req : ℕ → Message
    block_height_ack : ℕ → Message
    block_req : ℕ → Message
    block_ack : Block → Message
    new_round_msg : ℕ → Message
    propose_msg : Header → Message
    vote_msg : Header → Message
    commit_msg : Block → Message
    commit_block_req : Header → Message
    commit_block_ack : Block → Message

  -- The block that get() reads from the buffer of a message.
  abbrev pub carried : Block → Block
  carried b = transfer (16 * 1024) b

  unfoldable pub update : ℕ → (Node → Node) → Manager → Manager
  update id f m = record m { nodes = λ j. if id == j then f (m.nodes j) else m.nodes j }

  -- The handlers that send nothing.
  unfoldable pub receive : Message → Node → Node
  unfolding add
  receive (block_height_ack h) node = record node {
    sync_target_block_height = add h node.sync_target_block_height;
  }
  receive (new_round_msg i) node = record node {
    received_new_round = add i node.received_new_round;
  }
  receive (propose_msg h) node = record node { propose_header = add h node.propose_header }
  receive (vote_msg h) node = record node { vote_header = add h node.vote_header }
  receive (commit_msg b) node = record node { commits = add (carried b) node.commits }
  receive (block_height_req h) node = node
  receive (block_req i) node = node
  receive (block_ack b) node = node
  receive (commit_block_req h) node = node
  receive (commit_block_ack b) node = node

  unfoldable pub deliver : ℕ → Message → Manager → Manager
  deliver receiver msg m = update receiver (receive msg) m

  -- request_commit()
  unfoldable pub request_commit : Block → Manager → Manager
  request_commit b m = for_nodes m.peer_count 0 (λ p. deliver p (commit_msg b)) m

  unfoldable pub take_block : Block → Node → Node
  take_block b node = record node { commit_block = carried b }

  -- The block is valid, has the header that won the vote, and the Merkle root of that header.
  unfoldable pub is_elected_block : Node → Bool
  is_elected_block node =
      block_valid node.commit_block
      && header_eq (header node.commit_block) node.commit_block_header
      && (merkle_root_hash node.commit_block == header_merkle_root (header node.commit_block))

  unfoldable pub on_commit_block_ack : ℕ → Block → Manager → Manager
  on_commit_block_ack me b m =
      let taken = update me (take_block b) m in
      if is_elected_block (taken.nodes me)
      then request_commit (taken.nodes me).commit_block taken
      else taken

  unfoldable pub on_commit_block_req : ℕ → ℕ → Header → Manager → Manager
  on_commit_block_req me sender h m =
      if header_eq h (header (m.nodes me).new_block)
      then on_commit_block_ack sender (m.nodes me).new_block m
      else m

  unfoldable pub on_block_height_req : ℕ → ℕ → Manager → Manager
  on_block_height_req me sender m =
      deliver sender (block_height_ack (size (m.nodes me).block_chain)) m

  -- onMessage( sender, msg ) of the node `me`
  unfoldable pub on_message : ℕ → ℕ → Message → Manager → Manager
  on_message me sender (block_height_req h) m = on_block_height_req me sender m
  on_message me sender (commit_block_req h) m = on_commit_block_req me sender h m
  on_message me sender (commit_block_ack b) m = on_commit_block_ack me b m
  on_message me sender msg m = deliver me msg m

  unfoldable pub sendall : ℕ → Message → Manager → Manager
  sendall sender msg m = for_nodes m.peer_count 0 (λ p. on_message p sender msg) m
