-- ===== src/Message/NodeMessages.antt =====
-- bryllite-core/message.inl: the messages between nodes, each a record with its constructor and
-- accessors. The memory that a block is serialized into is an argument: it is not cleared.
use bcp_concept_prototype.Prelude.{ℕ, List}
use bcp_concept_prototype.Prelude.Ints.{ℤ}
use bcp_concept_prototype.Message.{MessageHeader}
use bcp_concept_prototype.Message.Classes.{
  node_message_peer_id, node_message_block_req, node_message_block_notify, node_message_new_round,
  node_message_propose, node_message_vote, node_message_commit, node_message_verify_block,
}
use bcp_concept_prototype.Message.Carried.{Carried, int_of_word}
use bcp_concept_prototype.Message.Common.{start}

module _ (c : Carried) where
  pub record NodeMessagePeerId : Type 0 where
    pub message : MessageHeader
    pub peer_data : c.PeerData
    pub secret : c.Secret
    pub block_height : ℤ

  unfoldable pub new_peer_id : c.PeerData → c.Secret → ℤ → NodeMessagePeerId
  new_peer_id peer_data secret block_height = record {
    message = start c node_message_peer_id;
    peer_data = peer_data;
    secret = secret;
    block_height = block_height;
  }

  unfoldable pub peer_secret : NodeMessagePeerId → c.Secret
  peer_secret m = m.secret

  pub record NodeMessageBlockReq : Type 0 where
    pub message : MessageHeader
    pub block_idx : ℤ

  -- The argument is a size_t.
  unfoldable pub new_block_req : ℕ → NodeMessageBlockReq
  unfolding int_of_word
  new_block_req block_idx = record {
    message = start c node_message_block_req;
    block_idx = int_of_word block_idx;
  }

  unfoldable pub req_idx : NodeMessageBlockReq → ℤ
  req_idx m = m.block_idx

  -- CBlock b; b.unserialize( buffer ); return b
  abbrev pub read_block : List ℕ → c.Block
  read_block buffer = (c.unserialize buffer c.null_block).0

  pub record NodeMessageBlockNotify : Type 0 where
    pub message : MessageHeader
    pub block_idx : ℤ
    pub block_data : List ℕ

  unfoldable pub new_block_notify : List ℕ → ℤ → c.Block → NodeMessageBlockNotify
  new_block_notify memory block_idx block = record {
    message = start c node_message_block_notify;
    block_idx = block_idx;
    block_data = (c.serialize block memory).0;
  }

  unfoldable pub notify_idx : NodeMessageBlockNotify → ℤ
  notify_idx m = m.block_idx

  unfoldable pub notify_block : NodeMessageBlockNotify → c.Block
  notify_block m = read_block m.block_data

  pub record NodeMessageNewRound : Type 0 where
    pub message : MessageHeader
    pub new_block_index : ℤ

  unfoldable pub new_new_round : ℤ → NodeMessageNewRound
  new_new_round index = record { message = start c node_message_new_round; new_block_index = index }

  pub record NodeMessagePropose : Type 0 where
    pub message : MessageHeader
    pub block_header : c.BlockHeader

  unfoldable pub new_propose : c.BlockHeader → NodeMessagePropose
  new_propose header = record { message = start c node_message_propose; block_header = header }

  pub record NodeMessageVote : Type 0 where
    pub message : MessageHeader
    pub block_header : c.BlockHeader

  unfoldable pub new_vote : c.BlockHeader → NodeMessageVote
  new_vote header = record { message = start c node_message_vote; block_header = header }

  pub record NodeMessageCommit : Type 0 where
    pub message : MessageHeader
    pub block : List ℕ
    pub secret : c.Secret

  unfoldable pub new_commit : List ℕ → c.Block → c.Secret → NodeMessageCommit
  new_commit memory block secret = record {
    message = start c node_message_commit;
    block = (c.serialize block memory).0;
    secret = secret;
  }

  unfoldable pub commit_block : NodeMessageCommit → c.Block
  commit_block m = read_block m.block

  unfoldable pub commit_secret : NodeMessageCommit → c.Secret
  commit_secret m = m.secret

  pub record NodeMessageVerifyBlock : Type 0 where
    pub message : MessageHeader
    pub block : List ℕ

  unfoldable pub new_verify_block : List ℕ → c.Block → NodeMessageVerifyBlock
  new_verify_block memory block = record {
    message = start c node_message_verify_block;
    block = (c.serialize block memory).0;
  }

  unfoldable pub verify_get : NodeMessageVerifyBlock → c.Block
  verify_get m = read_block m.block
