-- ===== src/P2p/Handshake.antt =====
-- tests/dev/p2p_server/node_server.cpp and peer.cpp: a peer that is connected tells its data, and
-- the node that it is connected to takes it or closes the session.
use bcp_concept_prototype.Prelude.{
  ℕ, ◌≡◌, ◌<◌, refl, sym, ap, ◌∙◌, true, none, some, ◌++◌, arith, length, length-append, get_or,
  Bool-cases, Option-cases, inl, inr, if◌then◌else◌,
}
use bcp_concept_prototype.Message.{MessageHeader, message_header, valid, copy_string}
use bcp_concept_prototype.Message.Ids.{number}
use bcp_concept_prototype.Message.Text.{IsText}
use bcp_concept_prototype.Stream.{slice, copy_to}
use bcp_concept_prototype.Stream.Contents.{slice-written}
use bcp_concept_prototype.Stream.Shifts.{bytes_le}
use bcp_concept_prototype.Wire.Udp.{Memory, cast_message, number_at}
use bcp_concept_prototype.Wire.Datagrams.{cast_message-same}
use bcp_concept_prototype.P2p.Socket.{Sockets}
use bcp_concept_prototype.P2p.Row.{copy_to-start}
use bcp_concept_prototype.P2p.Frames.{get_or-slice}
use bcp_concept_prototype.P2p.Client.{connected}
use bcp_concept_prototype.P2p.Sending.{transmitted, write_message-sends}
use bcp_concept_prototype.P2p.Peers.{PeerInfo, Peer, find_peer, compare}
use bcp_concept_prototype.P2p.Notify.{
  header_bytes, notify_bytes, notify_size, node_message_peer_notify_id, max_peer_id_length,
  max_host_length, node_id_at, peer_info_at,
}
use bcp_concept_prototype.P2p.NotifyRead.{
  slice_append, length-bytes_le, length-copy_string, length-header_bytes, peer_info_at-notify_bytes,
}
use bcp_concept_prototype.P2p.Outcome.{
  Outcome, refused-IsRefused, welcomed-IsWelcomed, same_info-cases,
}
use bcp_concept_prototype.P2p.Node.{
  Node, Answered, refused, welcomed, on_peer_message_peer_notify, on_message, notify_me,
  peer_on_connected,
}

abbrev notify_header : MessageHeader
notify_header = message_header node_message_peer_notify_id notify_size

length-notify_bytes : (info : PeerInfo) → length (notify_bytes info) ≡ notify_size
unfolding notify_bytes
length-notify_bytes info = omega (
  arith,
  length-append (header_bytes notify_header) (
      copy_string 32 info.peer_id (length info.peer_id)
      ++ (copy_string 16 info.host (length info.host) ++ bytes_le 2 info.port)),
  length-append (copy_string 32 info.peer_id (length info.peer_id))
      (copy_string 16 info.host (length info.host) ++ bytes_le 2 info.port),
  length-append (copy_string 16 info.host (length info.host)) (bytes_le 2 info.port),
  length-header_bytes node_message_peer_notify_id notify_size,
  length-copy_string 32 info.peer_id (length info.peer_id),
  length-copy_string 16 info.host (length info.host),
  length-bytes_le 2 info.port,
)

cast_message-header_bytes :
    cast_message (copy_to (λ _. 0) 0 (header_bytes notify_header)) ≡ notify_header
unfolding cast_message number_at copy_to header_bytes message_header bytes_le number
cast_message-header_bytes = refl

-- The memory of a notify begins with its header.
cast_message-notify_bytes :
    (m : Memory) (info : PeerInfo)
    → slice m 0 notify_size ≡ notify_bytes info
    → cast_message m ≡ notify_header
unfolding notify_bytes
cast_message-notify_bytes m info e =
    let header = header_bytes notify_header in
    let long = length-header_bytes node_message_peer_notify_id notify_size in
    let (a, b) = slice_append m 0 14 50 header _ e long in
    cast_message-same m (copy_to (λ _. 0) 0 header) (λ i l.
      ap m (omega arith)
      ∙ sym (get_or-slice m 0 14 i l)
      ∙ ap (λ bs. get_or bs i 0) a
      ∙ sym (copy_to-start (λ _. 0) i header (omega (arith, long))))
    ∙ cast_message-header_bytes

notify_header-valid : valid notify_header ≡ true
unfolding valid message_header
notify_header-valid = refl

module _ (sockets : Sockets) (nowhere stack : Memory) where
  pub notify_me-notify_bytes :
      (q : Peer sockets nowhere)
      → slice (notify_me sockets nowhere stack q) 0 notify_size ≡ notify_bytes q.me
  unfolding notify_me
  notify_me-notify_bytes q =
      ap (slice (copy_to stack 0 (notify_bytes q.me)) 0) (sym (length-notify_bytes q.me))
      ∙ slice-written stack 0 (notify_bytes q.me)

  -- A connected peer sends its notify.
  pub peer_on_connected-sends :
      (q : Peer sockets nowhere)
      → connected sockets nowhere q.client ≡ true
      → let written = peer_on_connected sockets nowhere stack true q in
        transmitted sockets nowhere written.0.1 written.0.0 ≡ notify_bytes q.me
  unfolding peer_on_connected slice notify_bytes message_header
  peer_on_connected-sends q k =
      let m = notify_me sockets nowhere stack q in
      let h = cast_message-notify_bytes m q.me (notify_me-notify_bytes q) in
      let (a, b, c) =
        write_message-sends sockets nowhere m q.client k (ap valid h ∙ notify_header-valid) in
      a ∙ ap (λ h. slice m 0 h.size) h ∙ notify_me-notify_bytes q

  -- What the handler of a notify makes of the data in the message.
  answer : ℕ → ℕ → PeerInfo → Node sockets nowhere stack → Answered sockets nowhere stack
  answer now p info n = elim (find_peer sockets nowhere info.peer_id n.peers) [
    | none ↦ refused sockets nowhere stack now p 1 n
    | some q ↦
        if compare sockets nowhere info q
        then welcomed sockets nowhere stack p info.peer_id q n
        else refused sockets nowhere stack now p 2 n
  ]

  on_message-notify :
      (now p : ℕ) (n : Node sockets nowhere stack) (row : Memory)
      → cast_message row ≡ notify_header
      → on_message sockets nowhere stack now p row n
        ≡ on_peer_message_peer_notify sockets nowhere stack now p row n
  unfolding on_message message_header number
  on_message-notify now p n row e = rw (on_message, e) refl

  on_peer_message_peer_notify-answer :
      (now p : ℕ) (info : PeerInfo) (n : Node sockets nowhere stack) (row : Memory)
      → (node_id_at row ≡ some info.peer_id) × (peer_info_at row ≡ some info)
      → on_peer_message_peer_notify sockets nowhere stack now p row n ≡ some (answer now p info n)
  unfolding on_peer_message_peer_notify answer
  on_peer_message_peer_notify-answer now p info n row (a, b) =
      elim (Option-cases (find_peer sockets nowhere info.peer_id n.peers)) [
        | inl e ↦ rw (on_peer_message_peer_notify, answer, a, e) refl
        | inr (q, e) ↦ elim (Bool-cases (compare sockets nowhere info q)) [
          | inl c ↦ rw (on_peer_message_peer_notify, answer, a, e, b, c) refl
          | inr c ↦ rw (on_peer_message_peer_notify, answer, a, e, b, c) refl
        ]
      ]

  answer-Outcome :
      (now p : ℕ) (info : PeerInfo) (n : Node sockets nowhere stack)
      → Outcome sockets nowhere stack now p info n (answer now p info n)
  unfolding answer
  answer-Outcome now p info n =
      elim (Option-cases (find_peer sockets nowhere info.peer_id n.peers)) [
        | inl e ↦ rw (answer, e) (inl (refl, refused-IsRefused sockets nowhere stack now p 1 n))
        | inr (q, e) ↦ elim (same_info-cases sockets nowhere stack info q) [
          | inl (c, same) ↦
              let w = welcomed-IsWelcomed sockets nowhere stack p info q n e same in
              rw (answer, e, c) (inr (q, refl, inl (same, w)))
          | inr (c, other) ↦
              let r = refused-IsRefused sockets nowhere stack now p 2 n in
              rw (answer, e, c) (inr (q, refl, inr (other, r)))
        ]
      ]

  -- Where a connected peer, whose own id has at most 31 characters and whose host at most 15, none
  -- of them zero, and whose port is an unsigned short, sends its notify, and a node finds its bytes
  -- in the row of a session, onMessage answers by the peer that the node has under the id. If this
  -- has the id, host and port of the notify, it is given the session, and a client of it that is
  -- not connected starts to connect to this host and port, unless the host is no address; no other
  -- peer and no session changes. If it has other data, or there is none, the session is inactive
  -- and its socket, if open, shut down and, unless this throws, closed, and no peer and no other
  -- session changes; the number 2 or 1 is returned.
  pub on_message-peer_on_connected :
      (now p : ℕ) (q : Peer sockets nowhere) (n : Node sockets nowhere stack) (row : Memory)
      → connected sockets nowhere q.client ≡ true
      → let written = peer_on_connected sockets nowhere stack true q in
        slice row 0 notify_size ≡ transmitted sockets nowhere written.0.1 written.0.0
        → IsText q.me.peer_id
        → length q.me.peer_id < max_peer_id_length
        → IsText q.me.host
        → length q.me.host < max_host_length
        → q.me.port < 65536
        → (a : Answered sockets nowhere stack) × (on_message sockets nowhere stack now p row n
            ≡ some a)
          × Outcome sockets nowhere stack now p q.me n a
  on_message-peer_on_connected now p q n row k e ti li th lh lp =
      let bytes = e ∙ peer_on_connected-sends q k in
      (
        answer now p q.me n,
        on_message-notify now p n row (cast_message-notify_bytes row q.me bytes)
            ∙ on_peer_message_peer_notify-answer now p q.me n row
                (peer_info_at-notify_bytes row q.me bytes ti li th lh lp),
        answer-Outcome now p q.me n,
      )
