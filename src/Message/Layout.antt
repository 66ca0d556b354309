-- ===== src/Message/Layout.antt =====
-- bryllite-core/message.inl: the members of the message classes with their sizes, and
-- sizeof(*this) of the macro _ctor. A member starts at a multiple of its alignment, and the size
-- is a multiple of the largest one, as the platform's C++ ABI has it; the packed header takes 14
-- bytes. The sizes of the closed classes are a parameter.
use bcp_concept_prototype.Prelude.{ℕ, ◌+◌, ◌-◌, ◌%◌, List, [], ◌∷◌, ltb, if◌then◌else◌}
use bcp_concept_prototype.Message.{header_size, MessageHeader, message_header}
use bcp_concept_prototype.Message.Ids.{
  MessageId, message_ping_id, message_pong_id, message_header_sign_req_id,
  message_header_sign_ack_id, message_balance_req_id, message_balance_ack_id,
  message_transactions_notify_id, node_message_peer_id_id, node_message_time_req_id,
  node_message_time_ack_id, node_message_block_req_id, node_message_block_notify_id,
  node_message_new_round_id, node_message_propose_id, node_message_vote_id, node_message_commit_id,
  node_message_verify_block_id, number,
}
use bcp_concept_prototype.Message.Classes.{
  MessageClass, message_ping, message_pong, message_header_sign_req, message_header_sign_ack,
  message_balance_req, message_balance_ack, message_transactions_notify, node_message_peer_id,
  node_message_time_req, node_message_time_ack, node_message_block_req, node_message_block_notify,
  node_message_new_round, node_message_propose, node_message_vote, node_message_commit,
  node_message_verify_block, max_address_length, max_transactions_size, max_block_size,
}

-- The size of a type and its alignment.
pub record Member : Type 0 where
  pub size : ℕ
  pub align : ℕ

-- what the compiler makes of the closed classes CBlockHeader, CSecret and PeerData
pub record Sizes : Type 0 where
  pub block_header : Member
  pub secret : Member
  pub peer_data : Member

abbrev pub word : Member
word = record { size = 8; align = 8 }

abbrev pub int : Member
int = record { size = 4; align = 4 }

abbrev pub chars : ℕ → Member
chars n = record { size = n; align = 1 }

-- the next multiple of an alignment
unfoldable pub round_up : ℕ → ℕ → ℕ
round_up n align = n + (align - n % align) % align

unfoldable pub end_of : ℕ → List Member → ℕ
unfolding round_up
end_of at [] = at
end_of at (m ∷ ms) = end_of (round_up at m.align + m.size) ms

unfoldable pub largest_align : ℕ → List Member → ℕ
largest_align align [] = align
largest_align align (m ∷ ms) = largest_align (if ltb align m.align then m.align else align) ms

unfoldable pub sizeof : List Member → ℕ
unfolding end_of largest_align round_up
sizeof ms = round_up (end_of header_size ms) (largest_align 1 ms)

-- the members that a class adds to the header
unfoldable pub members : Sizes → MessageClass → List Member
members s message_ping = word ∷ []
members s message_pong = word ∷ []
members s node_message_time_req = word ∷ []
members s node_message_time_ack = word ∷ word ∷ []
members s message_header_sign_req = s.block_header ∷ s.secret ∷ s.secret ∷ []
members s message_header_sign_ack = s.block_header ∷ s.secret ∷ s.secret ∷ []
members s message_balance_req = chars (max_address_length + 1) ∷ []
members s message_balance_ack = chars (max_address_length + 1) ∷ word ∷ []
members s message_transactions_notify = word ∷ chars (max_transactions_size + 1) ∷ []
members s node_message_peer_id = s.peer_data ∷ s.secret ∷ int ∷ []
members s node_message_block_req = int ∷ []
members s node_message_block_notify = int ∷ chars (max_block_size + 1) ∷ []
members s node_message_new_round = int ∷ []
members s node_message_propose = s.block_header ∷ []
members s node_message_vote = s.block_header ∷ []
members s node_message_commit = chars (max_block_size + 1) ∷ s.secret ∷ []
members s node_message_verify_block = chars (max_block_size + 1) ∷ []

-- the identifier that _ctor makes of a class name
unfoldable pub class_id : MessageClass → MessageId
class_id message_ping = message_ping_id
class_id message_pong = message_pong_id
class_id node_message_time_req = node_message_time_req_id
class_id node_message_time_ack = node_message_time_ack_id
class_id message_header_sign_req = message_header_sign_req_id
class_id message_header_sign_ack = message_header_sign_ack_id
class_id message_balance_req = message_balance_req_id
class_id message_balance_ack = message_balance_ack_id
class_id message_transactions_notify = message_transactions_notify_id
class_id node_message_peer_id = node_message_peer_id_id
class_id node_message_block_req = node_message_block_req_id
class_id node_message_block_notify = node_message_block_notify_id
class_id node_message_new_round = node_message_new_round_id
class_id node_message_propose = node_message_propose_id
class_id node_message_vote = node_message_vote_id
class_id node_message_commit = node_message_commit_id
class_id node_message_verify_block = node_message_verify_block_id

-- _ctor( _msg )
unfoldable pub ctor : Sizes → MessageClass → MessageHeader
unfolding sizeof members class_id message_header number
ctor s k = message_header (number (class_id k)) (sizeof (members s k))
