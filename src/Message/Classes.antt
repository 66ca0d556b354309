-- ===== src/Message/Classes.antt =====
-- bryllite-core/message.inl: the names of the message classes, and the sizes of their arrays,
-- which bryllite-core/address.hpp, transaction.hpp and block.hpp set.
use bcp_concept_prototype.Prelude.{ℕ, ◌*◌}

pub data MessageClass : Type 0 where
  message_ping message_pong node_message_time_req node_message_time_ack : MessageClass
  message_header_sign_req message_header_sign_ack : MessageClass
  message_balance_req message_balance_ack message_transactions_notify : MessageClass
  node_message_peer_id node_message_block_req node_message_block_notify : MessageClass
  node_message_new_round node_message_propose node_message_vote : MessageClass
  node_message_commit node_message_verify_block : MessageClass

-- CAddress::max_length
abbrev pub max_address_length : ℕ
max_address_length = 35

-- CTransactions::max_transactions_size
abbrev pub max_transactions_size : ℕ
max_transactions_size = 60 * 1024

-- CBlock::max_block_size
abbrev pub max_block_size : ℕ
max_block_size = 62 * 1024
