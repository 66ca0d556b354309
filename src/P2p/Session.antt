-- ===== src/P2p/Session.antt =====
-- tests/dev/p2p_server/p2p_session.hpp and p2p_session.cpp: class p2p_session. Clock readings are
-- arguments.
use bcp_concept_prototype.Prelude.{
  ℕ, ◌+◌, Bool, true, false, not, ◌&&◌, Option, none, some, ◌==◌, ltb, if◌then◌else◌,
}
use bcp_concept_prototype.Message.{max_message_length}
use bcp_concept_prototype.Stream.{slice}
use bcp_concept_prototype.Wire.Udp.{Memory, cast_message}
use bcp_concept_prototype.P2p.Buffer.{SessionBuffer, session_buffer, get, next, length, fill}
use bcp_concept_prototype.P2p.Socket.{Sockets, AsyncWrite}

abbrev pub max_buffer_size : ℕ
max_buffer_size = max_message_length

abbrev pub read_rows : ℕ
read_rows = 32

abbrev pub write_rows : ℕ
write_rows = 16

module _ (sockets : Sockets) where
  pub record P2pSession : Type 0 where
    pub socket : sockets.Socket
    pub active : Bool
    pub closed : ℕ
    pub read_ring : SessionBuffer
    pub write_ring : SessionBuffer

  -- what the method onMessage of a server makes of a message and its session
  abbrev pub MessageProcedure : Type 0
  MessageProcedure = Memory → P2pSession → P2pSession

  -- p2p_session( ios ), with what the new rows hold
  unfoldable pub p2p_session : (ℕ → Memory) → (ℕ → Memory) → P2pSession
  p2p_session reads writes = record {
    socket = sockets.socket;
    active = false;
    closed = 0;
    read_ring = session_buffer reads;
    write_ring = session_buffer writes;
  }

  unfoldable pub set_active : Bool → P2pSession → P2pSession
  set_active active_ s = record s { active = active_ }

  -- close(); the Bool tells whether the socket has not thrown
  unfoldable pub close : ℕ → P2pSession → P2pSession × Bool
  close now s =
      let s = set_active false (record s { closed = now }) in
      let (down, ok) = sockets.shutdown s.socket in
      let (end, done) = sockets.close down in
      if not (sockets.is_open s.socket)
      then (s, true)
      else (if ok then (record s { socket = end }, done) else (record s { socket = down }, false))

  unfoldable pub expired : ℕ → ℕ → P2pSession → Bool
  expired now timeout s = not s.active && (not (s.closed == 0) && ltb (s.closed + timeout) now)

  unfoldable pub read_buffer : P2pSession → Option ℕ
  read_buffer s = get read_rows max_buffer_size s.read_ring

  unfoldable pub next_read_buffer : P2pSession → P2pSession × Option ℕ
  next_read_buffer s =
      let (ring, row) = next read_rows max_buffer_size s.read_ring in
      (record s { read_ring = ring }, row)

  unfoldable pub write_buffer : P2pSession → Option ℕ
  write_buffer s = get write_rows max_buffer_size s.write_ring

  unfoldable pub next_write_buffer : P2pSession → P2pSession × Option ℕ
  next_write_buffer s =
      let (ring, row) = next write_rows max_buffer_size s.write_ring in
      (record s { write_ring = ring }, row)

  unfoldable pub read_buffer_length : P2pSession → ℕ
  read_buffer_length s = length read_rows max_buffer_size s.read_ring

  unfoldable pub write_buffer_length : P2pSession → ℕ
  write_buffer_length s = length write_rows max_buffer_size s.write_ring

  -- the bytes in the current row of the writes; a null row, which no ring has, takes none
  unfoldable pub store_bytes : Memory → ℕ → P2pSession → P2pSession
  store_bytes data_ len s = elim (write_buffer s) [
    | none ↦ s
    | some row ↦ record s { write_ring = fill row 0 (slice data_ 0 len) s.write_ring }
  ]

  -- write( data, len ) with the operation that it starts; none as data is nullptr
  unfoldable pub write : Option Memory → ℕ → P2pSession → (P2pSession × Option AsyncWrite) × Bool
  write none len s = ((s, none), false)
  write (some data_) len s = if ltb (write_buffer_length s) len then ((s, none), false) else (
    (
      (next_write_buffer (store_bytes data_ len s)).0,
      some (record { row = write_buffer s; room = write_buffer_length s; exactly = len }),
    ),
    true,
  )

  -- write( msg )
  unfoldable pub write_message : Memory → P2pSession → (P2pSession × Option AsyncWrite) × Bool
  write_message msg s = write (some msg) (cast_message msg).size s

  -- handle_write() does nothing
  unfoldable pub handle_write : Bool → ℕ → P2pSession → P2pSession
  handle_write error bytes_transferred s = s
