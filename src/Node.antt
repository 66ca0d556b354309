-- ===== src/Node.antt =====
-- tests/dev/node-server-mono/node_server.cpp, node_message.inl and node_manager.cpp: the node
-- servers of one process, their messages and the callbacks of the consensus server.
-- A message is handled where it is sent, by a call: sendall() runs the handlers of all nodes in the
-- order of their ids before it returns. Log output is left out.
pub mod Server
pub mod Commit
pub mod Kept
pub mod Run
pub mod Sound
pub mod Steps
use bcp_concept_prototype.Prelude.{
  ℕ, zero, suc, ◌+◌, ◌-◌, ◌*◌, ◌%◌, ◌^◌, Bool, true, false, not, Option, none, some, ◌==◌,
  if◌then◌else◌,
}
use bcp_concept_prototype.Core.{Core, Chain}
use bcp_concept_prototype.Bcp.{BcpServer, clear_intermediate_data, set_candidate_block, set_my_vote}
use bcp_concept_prototype.Bcp.Rounds.{append_new_round_message_for}
use bcp_concept_prototype.Bcp.Select.{
  append_proposed_block_header_for, append_user_block_header_for,
}
use bcp_concept_prototype.Bcp.Votes.{vote_block_header_for, get_elected_block_header}
use bcp_concept_prototype.Bcp.Commit.{add_verified_block}

module _ ⦃c : Core⦄ ⦃ch : Chain⦄ where
  open c use {Header, Block, header, header_eq, transfer, max_block_size}
  open ch use {Blocks}

  -- class node_server; the account is known by its address, which signs for it
  pub record NodeServer : Type 0 where
    pub address : ℕ
    pub block_chain : Blocks
    pub bcp_server : BcpServer

  -- class node_manager, after start( node_count ): the peers are numbered from 0
  pub record NodeManager : Type 0 where
    pub node_servers : ℕ → NodeServer
    pub node_count : ℕ
    pub stopped : Bool

  -- The messages that onPeerMessage() dispatches.
  pub data Message : Type 0 where
    block_req : ℕ → Message
    block_ack : Block → Message
    new_round : ℕ → Message
    propose : Header → Message
    vote : Header → Message
    commit : Block → Message
    verify_block : Block → Message

  -- The block that get() reads from the buffer of each message that carries one.
  abbrev pub sent_ack : Block → Message
  sent_ack b = block_ack (transfer (16 * 1024) b)

  abbrev pub sent_commit : Block → Message
  sent_commit b = commit (transfer (32 * 1024 + 1) b)

  abbrev pub sent_verify : Block → Message
  sent_verify b = verify_block (transfer (max_block_size + 1) b)

  unfoldable pub all_peer_count : NodeManager → ℕ
  all_peer_count m = m.node_count

  -- get_node_server( id )->..., with the change of the node's state
  unfoldable pub modify : ℕ → (NodeServer → NodeServer) → NodeManager → NodeManager
  modify id f m = record m {
    node_servers = λ j. if id == j then f (m.node_servers j) else m.node_servers j;
  }

  unfoldable pub set_bcp : BcpServer → NodeServer → NodeServer
  set_bcp s node = record node { bcp_server = s }

  unfoldable pub set_chain : Blocks → NodeServer → NodeServer
  set_chain blocks node = record node { block_chain = blocks }

  -- The handlers that send nothing, at a receiver among `n` peers.
  unfoldable pub receive : ℕ → ℕ → Message → NodeServer → NodeServer
  receive n sender (block_req index) node = node
  receive n sender (block_ack b) node = set_chain (ch.append_block b node.block_chain).0 node
  receive n sender (new_round index) node =
      set_bcp (append_new_round_message_for sender index node.bcp_server).0 node
  receive n sender (propose h) node =
      set_bcp (append_proposed_block_header_for sender h node.bcp_server).0 node
  receive n sender (vote h) node = set_bcp (vote_block_header_for sender h node.bcp_server).0 node
  receive n sender (commit b) node = set_bcp (add_verified_block n sender b node.bcp_server).0 node
  receive n sender (verify_block b) node = node

  -- A message whose handler sends nothing, and such a message to all nodes in turn.
  unfoldable pub hand_over : ℕ → ℕ → Message → NodeManager → NodeManager
  hand_over receiver sender msg m = modify receiver (receive (all_peer_count m) sender msg) m

  -- for( auto& pair : _node_servers ), from the id `p` on
  unfoldable pub for_peers : ℕ → ℕ → (ℕ → NodeManager → NodeManager) → NodeManager → NodeManager
  for_peers zero p f m = m
  for_peers (suc k) p f m = for_peers k (suc p) f (f p m)

  unfoldable pub on_block_req : ℕ → ℕ → ℕ → NodeManager → NodeManager
  on_block_req me sender index m = elim (ch.get_block index (m.node_servers me).block_chain) [
    | none ↦ m
    | some b ↦ hand_over sender me (sent_ack b) m
  ]

  -- The elected block, if it verifies, is answered by a commit to all nodes.
  unfoldable pub on_verify_block : ℕ → Block → NodeManager → NodeManager
  on_verify_block me b m =
      let (s, elected) =
        get_elected_block_header (all_peer_count m) (m.node_servers me).bcp_server in
      let asked : NodeManager = modify me (set_bcp s) m in
      elim elected [
        | none ↦ asked
        | some h ↦
            if not (header_eq h (header b))
            then asked
            else (if not (c.verify b)
                then asked
                else for_peers (all_peer_count m) 0 (λ p. hand_over p me (sent_commit b)) asked)
      ]

  -- onPeerMessage( sender, msg ) of the node `me`
  unfoldable pub on_peer_message : ℕ → ℕ → Message → NodeManager → NodeManager
  on_peer_message me sender (block_req index) m = on_block_req me sender index m
  on_peer_message me sender (verify_block b) m = on_verify_block me b m
  on_peer_message me sender msg m = hand_over me sender msg m

  -- sendall( sender, msg ): to the sender itself too
  unfoldable pub sendall : ℕ → Message → NodeManager → NodeManager
  sendall sender msg m = for_peers (all_peer_count m) 0 (λ p. on_peer_message p sender msg) m
