-- ===== src/Declared/Servers.antt =====
-- bryllite-core/tcp_client.hpp, apps/node-server-lib/node_server.hpp, apps/bridge-server-lib,
-- apps/game-server-lib and apps/game-client-lib: what the servers and the client keep, and the
-- callbacks between them. A callback takes and returns the state of its object, and is passed the
-- connection and the header of the message.
use bcp_concept_prototype.Prelude.{ℕ, Bool}
use bcp_concept_prototype.Prelude.Ints.{ℤ}
use bcp_concept_prototype.Message.{MessageHeader}
use bcp_concept_prototype.App.NodeServer
use bcp_concept_prototype.App.BridgeServer
use bcp_concept_prototype.App.GameServer
use bcp_concept_prototype.App.GameClient
use bcp_concept_prototype.Wire.{SocketBuffer}
use bcp_concept_prototype.Declared.Blocks.{BlockChain, Transactions, KeyPair}
use bcp_concept_prototype.Declared.Clock.{BcpTimer, CallbackTimers}
use bcp_concept_prototype.Declared.Peers.{PeerServer, TcpServer, TcpSession}
use bcp_concept_prototype.Declared.Round.{BcpHost}

-- class CTcpClient: rings of 16 and of 8 buffers
pub record TcpClient : Type 0 where
  pub connected : Bool
  pub read_buffer : SocketBuffer
  pub write_buffer : SocketBuffer

-- class ITcpClient, and IUserClient and INodeClient of the game client
pub record TcpClientCallback (State : Type 0) : Type 0 where
  pub on_tcp_client_connected : TcpClient → Bool → State → State × ℤ
  pub on_tcp_client_disconnected : TcpClient → ℤ → State → State × ℤ
  pub on_tcp_client_write : TcpClient → MessageHeader → ℕ → State → State × ℤ
  pub on_tcp_client_message : TcpClient → MessageHeader → State → State × ℤ

pub record UserClientCallback (State : Type 0) : Type 0 where
  pub on_user_client_connect : TcpClient → Bool → State → State × ℤ
  pub on_user_client_disconnect : TcpClient → ℤ → State → State × ℤ
  pub on_user_client_write : TcpClient → MessageHeader → ℕ → State → State × ℤ
  pub on_user_client_message : TcpClient → MessageHeader → State → State × ℤ

pub record NodeClientCallback (State : Type 0) : Type 0 where
  pub on_node_client_connect : TcpClient → Bool → State → State × ℤ
  pub on_node_client_disconnect : TcpClient → ℤ → State → State × ℤ
  pub on_node_client_write : TcpClient → MessageHeader → ℕ → State → State × ℤ
  pub on_node_client_message : TcpClient → MessageHeader → State → State × ℤ

-- class IGameServer of the bridge server, and IUserServer of the game server
pub record GameServerCallback (State : Type 0) : Type 0 where
  pub on_game_server_accept : TcpSession → State → State × ℤ
  pub on_game_server_disconnect : TcpSession → ℤ → State → State × ℤ
  pub on_game_server_write : TcpSession → MessageHeader → ℕ → State → State × ℤ
  pub on_game_server_message : TcpSession → MessageHeader → State → State × ℤ

pub record GameUserCallback (State : Type 0) : Type 0 where
  pub on_user_server_accept : TcpSession → State → State × ℤ
  pub on_user_server_disconnect : TcpSession → ℤ → State → State × ℤ
  pub on_user_server_write : TcpSession → MessageHeader → ℕ → State → State × ℤ
  pub on_user_server_message : TcpSession → MessageHeader → State → State × ℤ

-- the timers of CNodeServer and of the other programs
pub data NodeTimer : Type 0 where
  timer_id_ping timer_id_connect_peers timer_id_time_sync : NodeTimer

unfoldable pub node_timer : NodeTimer → ℕ
node_timer timer_id_ping = 100
node_timer timer_id_connect_peers = 101
node_timer timer_id_time_sync = 102

pub data ClientTimer : Type 0 where
  timer_id_reconnect timer_id_balance : ClientTimer

unfoldable pub client_timer : ClientTimer → ℕ
client_timer timer_id_reconnect = 1025
client_timer timer_id_balance = 1026

-- class CNodeServer; the configuration is that of the program, and the context of a timer a number
pub record NodeServerState : Type 0 where
  pub bcp_host : BcpHost
  pub app_config : NodeServer.AppConfig
  pub peer_server : PeerServer
  pub bridge_server : TcpServer
  pub user_server : TcpServer
  pub block_chain : BlockChain
  pub tx_mem_pool : Transactions
  pub node_account : KeyPair
  pub callback_timer : CallbackTimers ℕ
  pub bcp_timer : BcpTimer
  pub ping_id : ℕ

-- class bridge_server
pub record BridgeServerState : Type 0 where
  pub app_config : BridgeServer.AppConfig
  pub game_server : TcpServer
  pub node_client : TcpClient
  pub bridge_account : KeyPair
  pub callback_timer : CallbackTimers ℕ

-- class game_server
pub record GameServerState : Type 0 where
  pub app_config : GameServer.AppConfig
  pub user_server : TcpServer
  pub bridge_client : TcpClient
  pub game_account : KeyPair
  pub callback_timer : CallbackTimers ℕ

-- class game_client
pub record GameClientState : Type 0 where
  pub app_config : GameClient.AppConfig
  pub idx : ℕ
  pub user_client : TcpClient
  pub node_client : TcpClient
  pub user_account : KeyPair
  pub callback_timer : CallbackTimers ℕ
