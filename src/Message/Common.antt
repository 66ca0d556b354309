-- ===== src/Message/Common.antt =====
-- bryllite-core/message.inl: the messages that all programs share and those of the clocks, each a
-- record with its constructors and accessors. What the memory of a buffer held before is an
-- argument of the constructors that do not clear it.
use bcp_concept_prototype.Prelude.{ℕ, ◌+◌, Bool, List, Option, length, ltb}
use bcp_concept_prototype.Prelude.Ints.{ℤ}
use bcp_concept_prototype.Message.{MessageHeader, memset_zero, copy_string, c_string}
use bcp_concept_prototype.Message.Classes.{
  MessageClass, max_address_length, max_transactions_size, message_ping, message_pong,
  node_message_time_req, node_message_time_ack, message_header_sign_req, message_header_sign_ack,
  message_balance_req, message_balance_ack, message_transactions_notify,
}
use bcp_concept_prototype.Message.Layout.{ctor}
use bcp_concept_prototype.Message.Carried.{Carried}

module _ (c : Carried) where
  -- the header that the constructor of a class writes
  abbrev pub start : MessageClass → MessageHeader
  start k = ctor c.sizes k

  pub record MessagePing : Type 0 where
    pub message : MessageHeader
    pub id : ℕ

  unfoldable pub new_ping : ℕ → MessagePing
  new_ping id = record { message = start message_ping; id = id }

  pub record MessagePong : Type 0 where
    pub message : MessageHeader
    pub id : ℕ

  unfoldable pub new_pong : ℕ → MessagePong
  new_pong id = record { message = start message_pong; id = id }

  pub record NodeMessageTimeReq : Type 0 where
    pub message : MessageHeader
    pub local_time : ℤ

  unfoldable pub new_time_req : ℤ → NodeMessageTimeReq
  new_time_req local_time = record {
    message = start node_message_time_req;
    local_time = local_time;
  }

  pub record NodeMessageTimeAck : Type 0 where
    pub message : MessageHeader
    pub local_time : ℤ
    pub remote_time : ℤ

  unfoldable pub new_time_ack : ℤ → ℤ → NodeMessageTimeAck
  new_time_ack local_time remote_time = record {
    message = start node_message_time_ack;
    local_time = local_time;
    remote_time = remote_time;
  }

  pub record MessageHeaderSignReq : Type 0 where
    pub message : MessageHeader
    pub header : c.BlockHeader
    pub bridge_server_secret : c.Secret
    pub game_server_secret : c.Secret

  -- the three constructors: with no secret, the bridge server's, or both
  unfoldable pub new_sign_req : c.BlockHeader → MessageHeaderSignReq
  new_sign_req header = record {
    message = start message_header_sign_req;
    header = header;
    bridge_server_secret = c.null_secret;
    game_server_secret = c.null_secret;
  }

  unfoldable pub new_bridge_sign_req : c.BlockHeader → c.Secret → MessageHeaderSignReq
  new_bridge_sign_req header bridge = record {
    message = start message_header_sign_req;
    header = header;
    bridge_server_secret = bridge;
    game_server_secret = c.null_secret;
  }

  unfoldable pub new_game_sign_req : c.BlockHeader → c.Secret → c.Secret → MessageHeaderSignReq
  new_game_sign_req header bridge game = record {
    message = start message_header_sign_req;
    header = header;
    bridge_server_secret = bridge;
    game_server_secret = game;
  }

  pub record MessageHeaderSignAck : Type 0 where
    pub message : MessageHeader
    pub header : c.BlockHeader
    pub bridge_server_secret : c.Secret
    pub game_server_secret : c.Secret

  unfoldable pub new_sign_ack : c.BlockHeader → MessageHeaderSignAck
  new_sign_ack header = record {
    message = start message_header_sign_ack;
    header = header;
    bridge_server_secret = c.null_secret;
    game_server_secret = c.null_secret;
  }

  unfoldable pub new_bridge_sign_ack : c.BlockHeader → c.Secret → MessageHeaderSignAck
  new_bridge_sign_ack header bridge = record {
    message = start message_header_sign_ack;
    header = header;
    bridge_server_secret = bridge;
    game_server_secret = c.null_secret;
  }

  unfoldable pub new_game_sign_ack : c.BlockHeader → c.Secret → c.Secret → MessageHeaderSignAck
  new_game_sign_ack header bridge game = record {
    message = start message_header_sign_ack;
    header = header;
    bridge_server_secret = bridge;
    game_server_secret = game;
  }

  pub record MessageBalanceReq : Type 0 where
    pub message : MessageHeader
    pub address : List ℕ

  -- what both constructors with an address leave in the array
  abbrev pub address_array : List ℕ → List ℕ
  address_array address = copy_string (max_address_length + 1) address (length address)

  unfoldable pub new_balance_req : List ℕ → MessageBalanceReq
  unfolding copy_string
  new_balance_req address = record {
    message = start message_balance_req;
    address = address_array address;
  }

  unfoldable pub req_address : MessageBalanceReq → Option (List ℕ)
  unfolding c_string
  req_address m = c_string m.address

  pub record MessageBalanceAck : Type 0 where
    pub message : MessageHeader
    pub address : List ℕ
    pub balance : ℕ

  unfoldable pub new_balance_ack : List ℕ → ℕ → MessageBalanceAck
  unfolding copy_string
  new_balance_ack address balance = record {
    message = start message_balance_ack;
    address = address_array address;
    balance = balance;
  }

  unfoldable pub ack_address : MessageBalanceAck → Option (List ℕ)
  unfolding c_string
  ack_address m = c_string m.address

  unfoldable pub ack_balance : MessageBalanceAck → ℕ
  ack_balance m = m.balance

  pub record MessageTransactionsNotify : Type 0 where
    pub message : MessageHeader
    pub lifetime : ℕ
    pub transactions_buffer : List ℕ

  unfoldable pub new_notify : ℕ → MessageTransactionsNotify
  new_notify lifetime = record {
    message = start message_transactions_notify;
    lifetime = lifetime;
    transactions_buffer = memset_zero (max_transactions_size + 1);
  }

  unfoldable pub new_transactions_notify : List ℕ → ℕ → c.Transactions → MessageTransactionsNotify
  new_transactions_notify memory lifetime txs = record {
    message = start message_transactions_notify;
    lifetime = lifetime;
    transactions_buffer = (c.serialize_transactions txs memory).0;
  }

  -- transactions( txs ): the list that is passed in, and whether anything was read
  unfoldable pub transactions : MessageTransactionsNotify → c.Transactions → c.Transactions × Bool
  transactions m txs =
      let (txs', count) = c.unserialize_transactions m.transactions_buffer txs in
      (txs', ltb 0 count)
