-- ===== src/P2p/Socket.antt =====
-- tests/dev/p2p_server: what the sessions and clients use of boost::asio, and what their handlers
-- start and call.
use bcp_concept_prototype.Prelude.{ℕ, Bool, Option, List}
use bcp_concept_prototype.Wire.Udp.{Memory}

-- tcp::socket; the Bool of a call tells whether it has returned, not thrown.
pub record Sockets : Type 1 where
  pub Socket : Type 0
  pub socket : Socket
  pub is_open : Socket → Bool
  pub shutdown : Socket → Socket × Bool
  pub close : Socket → Socket × Bool
  -- whether address::from_string( host ) does not throw
  pub is_address : List ℕ → Bool
  -- async_connect(), which opens the socket
  pub async_connect : Socket → Socket

-- The completion that a read of the socket is started with.
pub data Completion : Type 0 where
  header_read : Completion
  body_read : Option ℕ → Completion

-- async_read( socket, buffer( row + offset, room ), transfer_exactly( exactly ), completion )
pub record AsyncRead : Type 0 where
  pub row : Option ℕ
  pub offset : ℕ
  pub room : ℕ
  pub exactly : ℕ
  pub completion : Completion

-- async_write( socket, buffer( row, room ), transfer_exactly( exactly ), handle_write )
pub record AsyncWrite : Type 0 where
  pub row : Option ℕ
  pub room : ℕ
  pub exactly : ℕ

-- What a handler does, in order: the virtual methods that it calls and the operations that it
-- starts.
pub data Call : Type 0 where
  on_disconnected : Call
  on_message : Memory → Call
  starts_read : AsyncRead → Call
