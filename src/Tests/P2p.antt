-- ===== src/Tests/P2p.antt =====
-- The theorems on the sessions, clients and peers of p2p_server at small inputs.
use bcp_concept_prototype.Prelude.{
  List, ℕ, zero, suc, if◌then◌else◌, ◌+◌, ◌*◌, ◌≡◌, refl, Bool, true, false, none, some, [], ◌∷◌,
  ◌++◌, arith, sym, ◌∙◌,
}
use bcp_concept_prototype.Message.{valid}
use bcp_concept_prototype.Message.Text.{char, empty}
use bcp_concept_prototype.Wire.Udp.{Memory, cast_message, number_at}
use bcp_concept_prototype.P2p.Buffer.{SessionBuffer}
use bcp_concept_prototype.P2p.Socket.{Sockets}
use bcp_concept_prototype.P2p.Session.{P2pSession, MessageProcedure, set_active}
use bcp_concept_prototype.P2p.Client.{P2pClient, connected}
use bcp_concept_prototype.P2p.Framing.{delivered, served}
use bcp_concept_prototype.P2p.Frames.{whole, joined, left_over, frames, all_sent}
use bcp_concept_prototype.P2p.ClientFraming.{client_served}
use bcp_concept_prototype.P2p.ClientDelivery.{client_served-served}
use bcp_concept_prototype.P2p.Delivery.{served-all_frames}
use bcp_concept_prototype.P2p.Sending.{write_all, served-write_all}
use bcp_concept_prototype.P2p.Peers.{PeerInfo, Peer}
use bcp_concept_prototype.P2p.Outcome.{Outcome}
use bcp_concept_prototype.P2p.Node.{Answered, Node, on_message, notify_me}
use bcp_concept_prototype.P2p.Handshake.{
  notify_me-notify_bytes, peer_on_connected-sends, on_message-peer_on_connected,
}
use bcp_concept_prototype.P2p.Server.{Server}
use bcp_concept_prototype.P2p.Start.{
  Acceptor, Host, start_server, unless, run_server, run_threads, stop_server,
}
use bcp_concept_prototype.P2p.Lifetime.{IsQuiet, accepts, stop_server-accepts}
use bcp_concept_prototype.P2p.Owners.{IsOwned}
use bcp_concept_prototype.Tests.Wire.{ping_bytes, ping}

-- A socket is whether it is open.
abbrev sockets : Sockets
sockets = record {
  Socket = Bool;
  socket = false;
  is_open = λ b. b;
  shutdown = λ b. (b, true);
  close = λ b. (false, true);
  is_address = λ host. true;
  async_connect = λ b. true;
}

abbrev zeros : Memory
zeros i = 0

abbrev ring : SessionBuffer
ring = record { rows = λ r. zeros; current_pos = 0 }

abbrev session : P2pSession sockets
session = record { socket = true; active = true; closed = 0; read_ring = ring; write_ring = ring }

abbrev keep : MessageProcedure sockets
keep m s = s

abbrev client : P2pClient sockets zeros
client = record {
  socket = true;
  remote_endpoint = none;
  has_connected = true;
  read_ring = ring;
  write_ring = ring;
}

client-connected : connected sockets zeros client ≡ true
unfolding connected
client-connected = refl

ping_valid : valid (cast_message ping) ≡ true
unfolding valid cast_message number_at
ping_valid = refl

-- Two messages with a byte behind them.
abbrev two_pings : List ℕ
two_pings = ping_bytes ++ (ping_bytes ++ (7 ∷ []))

served-all_frames_example :
    let messages = delivered (served sockets zeros keep (29 * 2) 1000 two_pings session) in
    (messages ≡ frames 29 two_pings)
    × (joined messages ++ left_over 29 two_pings ≡ two_pings)
    × (whole (left_over 29 two_pings) ≡ false)
served-all_frames_example =
    served-all_frames sockets zeros keep 1000 two_pings session refl (λ m t o. o)

served-write_all_example :
    delivered (
      served sockets zeros keep
        ((2 + 1) * 2)
        1000
        (write_all sockets zeros (ping ∷ ping ∷ []) client)
        session)
    ≡ all_sent (ping ∷ ping ∷ [])
served-write_all_example =
    served-write_all sockets zeros keep 1000 (ping ∷ ping ∷ []) client session client-connected
      (ping_valid, (ping_valid, tt)) refl (λ m t o. o) 1

-- "n1" at "h", port 8000
abbrev info : PeerInfo
info = record { peer_id = 110 ∷ 49 ∷ []; host = 104 ∷ []; port = 8000 }

-- A server that waits for the session 2, with the sessions 0 and 1.
abbrev server : Server sockets zeros
server = record {
  accept_session = some 2;
  sessions = 0 ∷ 1 ∷ [];
  store = λ p. session;
  next_pointer = 3;
}

-- An acceptor and threads that do not fail.
abbrev acceptor : Acceptor
acceptor = record {
  World = ℕ;
  acceptor_open = λ port w. (w, true);
  set_option = λ w. (w, true);
  bind = λ port w. (w, true);
  listen = λ w. (w, true);
  run_thread = λ w. (suc w, true);
  sync = λ w. (w, true);
  stop_service = λ w. w;
  join_thread = λ w. (w, true);
}

abbrev host : Host sockets zeros acceptor
host = record {
  server = record server { accept_session = none; sessions = [] };
  me = info;
  local_port = 0;
  io_threads = 0;
  world = 0;
}

started_true :
    (start_server sockets zeros acceptor (λ r. zeros) info.peer_id info.host 8000 1 host).1 ≡ true
unfolding start_server unless run_server run_threads
started_true = refl

sockets-IsQuiet : IsQuiet sockets
sockets-IsQuiet = record { shutdown_returns = λ k. refl; close_returns = λ k. refl }

stop_server-accepts_example :
    let started =
      (start_server sockets zeros acceptor (λ r. zeros) info.peer_id info.host 8000 1 host).0 in
    let sv = accepts sockets zeros (λ r. zeros) ((1, false) ∷ (2, true) ∷ []) started.server in
    let stopped = stop_server sockets zeros acceptor (record started { server = sv }) in
    (p : ℕ) × IsOwned sockets zeros p sv × (stopped.0.1 ≡ (if stopped.1 then some p else none))
stop_server-accepts_example =
    stop_server-accepts sockets zeros acceptor (λ r. zeros) info.peer_id info.host 8000 1
      ((1, false) ∷ (2, true) ∷ []) host sockets-IsQuiet refl started_true

abbrev peer : Peer sockets zeros
peer = record { client = client; me = info; peer = info; session = none }

abbrev node : Node sockets zeros zeros
node = record {
  server = server;
  peers = (info.peer_id, peer) ∷ [];
  me = info;
  last_sec = 0;
  ping_id = 0;
}

-- the row of a session with the bytes that the peer sends
abbrev told : Memory
told = notify_me sockets zeros zeros peer

on_message-peer_on_connected_example :
    (a : Answered sockets zeros zeros) × (on_message sockets zeros zeros 1000 2 told node ≡ some a)
    × Outcome sockets zeros zeros 1000 2 info node a
on_message-peer_on_connected_example =
    on_message-peer_on_connected sockets zeros zeros 1000 2 peer node told client-connected
      (notify_me-notify_bytes sockets zeros zeros peer
        ∙ sym (peer_on_connected-sends sockets zeros zeros peer client-connected))
      (char (omega arith) (char (omega arith) empty)) (omega arith) (char (omega arith) empty)
      (omega arith) (omega arith)

client_served-served_example :
    delivered (
      client_served sockets zeros
        (λ m c. c)
        (3 * 2)
        (ping_bytes ++ (ping_bytes ++ (7 ∷ [])))
        client)
    ≡ delivered
        (served sockets zeros keep (3 * 2) 1000 (ping_bytes ++ (ping_bytes ++ (7 ∷ []))) session)
client_served-served_example =
    client_served-served sockets zeros (λ m c. c) keep 3 1000
      (ping_bytes ++ (ping_bytes ++ (7 ∷ []))) client session client-connected (λ m d k. k) refl
      (λ m t o. o)

-- A peer of another id, added beside the first.
abbrev other : PeerInfo
other = record { peer_id = 110 ∷ 50 ∷ []; host = 104 ∷ []; port = 8001 }

-- Of the sessions 0 to 2 the second is not active.
abbrev mixed : ℕ → P2pSession sockets
mixed zero = set_active sockets true session
mixed (suc zero) = set_active sockets false session
mixed (suc (suc p)) = set_active sockets true session

abbrev mixed_server : Server sockets zeros
mixed_server = record server { sessions = 0 ∷ 1 ∷ 2 ∷ []; store = mixed }
