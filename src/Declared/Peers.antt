-- ===== src/Declared/Peers.antt =====
-- bryllite-core: peer.hpp, peer_client.hpp, peer_session.hpp, peer_server.hpp, tcp_server.hpp and
-- tcp_client.hpp, apps: the servers of a node: the connections, and the callbacks that they are
-- given. A callback takes and returns the state of its object, and is passed the connection and the
-- header of the message.
use bcp_concept_prototype.Prelude.{ℕ, ◌+◌, Bool, Option, List}
use bcp_concept_prototype.Prelude.Ints.{ℤ}
use bcp_concept_prototype.Message.{MessageHeader, max_message_length}
use bcp_concept_prototype.App.PeerData.{PeerData}
use bcp_concept_prototype.Wire.{SocketBuffer}

-- the buffers of a peer hold a message and one byte more
abbrev pub max_buffer_size : ℕ
max_buffer_size = max_message_length + 1

-- class CPeerClient: rings of 16 and of 8 buffers
pub record PeerClient : Type 0 where
  pub connected : Bool
  pub read_buffer : SocketBuffer
  pub write_buffer : SocketBuffer

-- class CPeerSession: rings of 32 and of 16 buffers
pub record PeerSession : Type 0 where
  pub connected : Bool
  pub peer_id : ℤ
  pub read_buffer : SocketBuffer
  pub write_buffer : SocketBuffer

-- class CPeer
pub record Peer : Type 0 where
  pub peer_data : PeerData
  pub peer_session : Option PeerSession
  pub peer_client : PeerClient
  pub auth_code : ℕ

-- class CPeerServer
pub record PeerServer : Type 0 where
  pub peer_host : PeerData
  pub peers : List Peer
  pub sessions : List PeerSession
  pub new_session : Option PeerSession

-- class IPeerClient, IPeerSession and IPeerServer
pub record PeerClientCallback (State : Type 0) : Type 0 where
  pub on_peer_client_connected : PeerClient → Bool → State → State × ℤ
  pub on_peer_client_disconnected : PeerClient → ℤ → State → State × ℤ
  pub on_peer_client_write : PeerClient → MessageHeader → State → State × ℤ
  pub on_peer_client_message : PeerClient → MessageHeader → State → State × ℤ

pub record PeerSessionCallback (State : Type 0) : Type 0 where
  pub on_peer_session_connected : PeerSession → State → State × ℤ
  pub on_peer_session_disconnected : PeerSession → ℤ → State → State × ℤ
  pub on_peer_session_write : PeerSession → MessageHeader → State → State × ℤ
  pub on_peer_session_message : PeerSession → MessageHeader → State → State × ℤ

pub record PeerServerCallback (State : Type 0) : Type 0 where
  pub on_peer_session_connected : PeerSession → Bool → State → State × ℤ
  pub on_peer_session_disconnected : Peer → ℤ → State → State × ℤ
  pub on_peer_session_write : Peer → MessageHeader → State → State × ℤ
  pub on_peer_client_connected : Peer → Bool → State → State × ℤ
  pub on_peer_client_disconnected : Peer → ℤ → State → State × ℤ
  pub on_peer_client_write : Peer → MessageHeader → State → State × ℤ
  pub on_peer_message : Peer → MessageHeader → State → State × ℤ

-- class CTcpSession: two rings of 16 buffers of the size of a message
pub record TcpSession : Type 0 where
  pub read_buffer : SocketBuffer
  pub write_buffer : SocketBuffer
  pub connected : Bool

-- class ITcpSession and ITcpServer
pub record TcpSessionCallback (State : Type 0) : Type 0 where
  pub on_tcp_session_connected : TcpSession → Bool → State → State × ℤ
  pub on_tcp_session_disconnected : TcpSession → ℤ → State → State × ℤ
  pub on_tcp_session_write : TcpSession → MessageHeader → ℕ → State → State × ℤ
  pub on_tcp_session_message : TcpSession → MessageHeader → State → State × ℤ

pub record TcpServerCallback (State : Type 0) : Type 0 where
  pub on_tcp_server_accept : TcpSession → State → State × ℤ
  pub on_tcp_server_disconnect : TcpSession → ℤ → State → State × ℤ
  pub on_tcp_server_write : TcpSession → MessageHeader → ℕ → State → State × ℤ
  pub on_tcp_server_message : TcpSession → MessageHeader → State → State × ℤ

-- class CTcpServer
pub record TcpServer : Type 0 where
  pub sessions : List TcpSession
  pub new_session : Option TcpSession
  pub stop : Bool

-- class IBridgeServer and IUserServer of a node
pub record BridgeServerCallback (State : Type 0) : Type 0 where
  pub on_bridge_accept : TcpSession → State → State × ℤ
  pub on_bridge_disconnected : TcpSession → ℤ → State → State × ℤ
  pub on_bridge_write : TcpSession → MessageHeader → ℕ → State → State × ℤ
  pub on_bridge_message : TcpSession → MessageHeader → State → State × ℤ

pub record UserServerCallback (State : Type 0) : Type 0 where
  pub on_user_accept : TcpSession → State → State × ℤ
  pub on_user_disconnected : TcpSession → ℤ → State → State × ℤ
  pub on_user_write : TcpSession → MessageHeader → ℕ → State → State × ℤ
  pub on_user_message : TcpSession → MessageHeader → State → State × ℤ
