-- ===== src/P2p/Notify.antt =====
-- tests/dev/p2p_server/peer_message.inl and node_server.cpp: node_message_peer_notify, by which a
-- peer tells its data, and what a node reads of it in the row that it came in. Behind the packed
-- header the arrays stand at 14 and 46, and the port at 62.
use bcp_concept_prototype.Prelude.{ℕ, ◌+◌, ◌-◌, Option, none, some, List, ◌++◌, length}
use bcp_concept_prototype.Message.{
  MessageHeader, message_header, header_size, copy_string, c_string,
}
use bcp_concept_prototype.Message.Ids.{node_message_start, number}
use bcp_concept_prototype.Stream.{slice}
use bcp_concept_prototype.Stream.Shifts.{bytes_le}
use bcp_concept_prototype.Wire.Udp.{Memory, number_at}
use bcp_concept_prototype.P2p.Session.{max_buffer_size}
use bcp_concept_prototype.P2p.Peers.{PeerInfo}

-- the bytes of a header
unfoldable pub header_bytes : MessageHeader → List ℕ
header_bytes h = h.signature ++ (bytes_le 8 h.size ++ bytes_le 2 h.msgid)

-- node_message_start_id = node_message_start comes before it
abbrev pub node_message_peer_notify_id : ℕ
node_message_peer_notify_id = number node_message_start + 1

abbrev pub max_peer_id_length : ℕ
max_peer_id_length = 32

abbrev pub max_host_length : ℕ
max_host_length = 16

-- sizeof( node_message_peer_notify )
abbrev pub notify_size : ℕ
notify_size = header_size + max_peer_id_length + max_host_length + 2

-- node_message_peer_notify( node_id, host, port )
unfoldable pub notify_bytes : PeerInfo → List ℕ
notify_bytes info =
    let id = copy_string max_peer_id_length info.peer_id (length info.peer_id) in
    let host = copy_string max_host_length info.host (length info.host) in
    header_bytes (message_header node_message_peer_notify_id notify_size)
    ++ (id ++ (host ++ bytes_le 2 info.port))

-- std::string( char* ) at an offset of a row: up to the first zero, which may lie behind the array;
-- none where the row holds none
unfoldable pub text_at : Memory → ℕ → Option (List ℕ)
text_at row at = c_string (slice row at (max_buffer_size + 1 - at))

-- peer_info( msg->_node_id, msg->_host, msg->_port )
unfoldable pub node_id_at : Memory → Option (List ℕ)
node_id_at row = text_at row header_size

unfoldable pub peer_info_at : Memory → Option PeerInfo
peer_info_at row = elim (node_id_at row) [
  | none ↦ none
  | some id ↦ elim (text_at row (header_size + max_peer_id_length)) [
    | none ↦ none
    | some host ↦ some (record {
      peer_id = id;
      host = host;
      port = number_at row (header_size + max_peer_id_length + max_host_length) 2;
    })
  ]
]
