-- ===== src/P2p/Node.antt =====
-- tests/dev/p2p_server/node_server.cpp and peer.cpp: class node_server, its message procedure, and
-- what a peer writes once it is connected. A message on the stack stands in the memory `stack`; the
-- clock is an argument.
use bcp_concept_prototype.Prelude.{
  ℕ, ◌+◌, Bool, true, false, not, Option, none, some, List, [], ◌∷◌, ◌==◌, if◌then◌else◌,
}
use bcp_concept_prototype.Message.{message_header, size_of_word}
use bcp_concept_prototype.Message.Ids.{message_ping_id, message_pong_id, number}
use bcp_concept_prototype.Stream.{copy_to}
use bcp_concept_prototype.Stream.Shifts.{bytes_le}
use bcp_concept_prototype.Wire.Udp.{Memory, number_at, cast_message}
use bcp_concept_prototype.P2p.Socket.{Sockets, AsyncWrite}
use bcp_concept_prototype.P2p.Session.{write_message}
use bcp_concept_prototype.P2p.Reading.{close_session}
use bcp_concept_prototype.P2p.Client.{P2pClient, write_message as client_write_message}
use bcp_concept_prototype.P2p.Server.{
  Effect, session_write, Server, on_session, change, sendall_message,
}
use bcp_concept_prototype.P2p.Peers.{
  PeerInfo, Peer, Peers, compare, set_session, connect_peer, find_peer, change_peer,
}
use bcp_concept_prototype.P2p.Notify.{
  header_bytes, node_message_peer_notify_id, notify_bytes, node_id_at, peer_info_at,
}

-- message_ping( id ) and message_pong( id ): the size_t stands at its alignment, at 16
abbrev pub word_offset : ℕ
word_offset = 16

unfoldable pub word_message : Memory → ℕ → ℕ → Memory
word_message stack msgid id =
    copy_to (copy_to stack 0 (header_bytes (message_header msgid 24))) word_offset (bytes_le 8 id)

module _ (sockets : Sockets) (nowhere stack : Memory) where
  pub record Node : Type 0 where
    pub server : Server sockets nowhere
    pub peers : Peers sockets nowhere
    pub me : PeerInfo
    pub last_sec : ℕ
    pub ping_id : ℕ

  -- what a handler of a message leaves, with the number that it returns
  pub record Answered : Type 0 where
    pub node : Node
    pub effects : List Effect
    pub returned : Bool
    pub result : ℕ

  unfoldable pub on_peer_message_ping : ℕ → Memory → Node → Answered
  on_peer_message_ping p msg n =
      let ack = word_message stack (number message_pong_id) (number_at msg word_offset 8) in
      let ((s, started), ok) = write_message sockets ack (n.server.store p) in
      record {
        node = record n { server = change sockets nowhere p s n.server };
        effects = session_write p started ∷ [];
        returned = true;
        result = 0;
      }

  unfoldable pub on_peer_message_pong : ℕ → Memory → Node → Answered
  on_peer_message_pong p msg n = record { node = n; effects = []; returned = true; result = 0 }

  -- close_session() and a number
  unfoldable pub refused : ℕ → ℕ → ℕ → Node → Answered
  refused now p result n =
      let d =
        on_session sockets nowhere p (close_session sockets nowhere now (n.server.store p))
          n.server in
      record {
        node = record n { server = d.server };
        effects = d.effects;
        returned = d.returned;
        result = result;
      }

  -- the peer of a notify is given its session, and is connected to
  unfoldable pub welcomed : ℕ → List ℕ → Peer sockets nowhere → Node → Answered
  welcomed p id q n =
      let (q', started) = connect_peer sockets nowhere (set_session sockets nowhere (some p) q) in
      record {
        node = record n { peers = change_peer sockets nowhere id q' n.peers };
        effects = [];
        returned = elim started [ none ↦ false | some b ↦ true ];
        result = 0;
      }

  -- none where a text of the message has no end in its row
  unfoldable pub on_peer_message_peer_notify : ℕ → ℕ → Memory → Node → Option Answered
  on_peer_message_peer_notify now p msg n = elim (node_id_at msg) [
    | none ↦ none
    | some id ↦ elim (find_peer sockets nowhere id n.peers) [
      | none ↦ some (refused now p 1 n)
      | some q ↦ elim (peer_info_at msg) [
        | none ↦ none
        | some info ↦
            some (
              if not (compare sockets nowhere info q) then refused now p 2 n else welcomed p id q n)
      ]
    ]
  ]

  -- onMessage( session, msg )
  unfoldable pub on_message : ℕ → ℕ → Memory → Node → Option Answered
  on_message now p msg n =
      let msgid = (cast_message msg).msgid in
      if msgid == number message_ping_id
      then some (on_peer_message_ping p msg n)
      else (if msgid == number message_pong_id
          then some (on_peer_message_pong p msg n)
          else (if msgid == node_message_peer_notify_id
              then on_peer_message_peer_notify now p msg n
              else some (record { node = n; effects = []; returned = true; result = 0 })))

  -- main(): a ping to all active sessions in each new second
  unfoldable pub main : ℕ → Node → Node × List Effect
  main sec n =
      let ping = word_message stack (number message_ping_id) n.ping_id in
      let d = sendall_message sockets nowhere ping n.server in
      if not (sec == n.last_sec)
      then (
        record n { server = d.server; last_sec = sec; ping_id = size_of_word (n.ping_id + 1) },
        d.effects,
      )
      else (n, [])

  -- CPeer::onConnected( connected ): the notify of the node's own data
  unfoldable pub notify_me : Peer sockets nowhere → Memory
  notify_me q = copy_to stack 0 (notify_bytes q.me)

  unfoldable pub peer_on_connected :
      Bool → Peer sockets nowhere → (P2pClient sockets nowhere × Option AsyncWrite) × Bool
  peer_on_connected is_connected q =
      client_write_message sockets nowhere (some (notify_me q)) q.client
