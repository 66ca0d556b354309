-- ===== src/Message/Ids.antt =====
-- bryllite-core/message.inl: the default ports, enum message_id, and the numbers of its members.
use bcp_concept_prototype.Prelude.{ℕ}

-- the default ports
pub data DefaultPort : Type 0 where
  node_default_port node_bridge_default_port bridge_game_default_port : DefaultPort
  game_default_port node_game_default_port : DefaultPort

unfoldable pub port_number : DefaultPort → ℕ
port_number node_default_port = 8300
port_number node_bridge_default_port = 8400
port_number bridge_game_default_port = 8500
port_number game_default_port = 8600
port_number node_game_default_port = 8700

-- enum message_id; the names differ, some numbers do not
pub data MessageId : Type 0 where
  message_start message_common_start : MessageId
  message_ping_id message_pong_id : MessageId
  message_header_sign_req_id message_header_sign_ack_id : MessageId
  message_balance_req_id message_balance_ack_id : MessageId
  message_transactions_notify_id : MessageId
  message_common_end : MessageId
  node_message_start node_message_system_start : MessageId
  node_message_peer_id_id node_message_time_req_id node_message_time_ack_id : MessageId
  node_message_system_end node_message_user_start : MessageId
  node_message_block_req_id node_message_block_notify_id node_message_new_round_id : MessageId
  node_message_propose_id node_message_vote_id node_message_commit_id : MessageId
  node_message_verify_block_id node_message_end : MessageId
  node_bridge_message_start node_bridge_message_end : MessageId
  bridge_game_message_start bridge_game_message_end : MessageId
  game_message_start game_message_end : MessageId
  node_client_message_start node_client_message_end : MessageId
  message_end : MessageId

-- A member without an initializer is one more than the member before it.
unfoldable pub number : MessageId → ℕ
number message_start = 100
number message_common_start = 100
number message_ping_id = 101
number message_pong_id = 102
number message_header_sign_req_id = 103
number message_header_sign_ack_id = 104
number message_balance_req_id = 105
number message_balance_ack_id = 106
number message_transactions_notify_id = 107
number message_common_end = 108
number node_message_start = 1000
number node_message_system_start = 1001
number node_message_peer_id_id = 1002
number node_message_time_req_id = 1003
number node_message_time_ack_id = 1004
number node_message_system_end = 1005
number node_message_user_start = 1100
number node_message_block_req_id = 1101
number node_message_block_notify_id = 1102
number node_message_new_round_id = 1103
number node_message_propose_id = 1104
number node_message_vote_id = 1105
number node_message_commit_id = 1106
number node_message_verify_block_id = 1107
number node_message_end = 1108
number node_bridge_message_start = 2000
number node_bridge_message_end = 2001
number bridge_game_message_start = 3000
number bridge_game_message_end = 3001
number game_message_start = 4000
number game_message_end = 4001
number node_client_message_start = 5000
number node_client_message_end = 5001
number message_end = 5002
