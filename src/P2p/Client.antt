-- ===== src/P2p/Client.antt =====
-- tests/dev/p2p_server/p2p_client.hpp and p2p_client.cpp: class p2p_client. The constructor does
-- not set _connected, so that its first value is an argument.
use bcp_concept_prototype.Prelude.{
  ℕ, ◌+◌, ◌-◌, Bool, true, false, not, ◌&&◌, ◌||◌, Option, none, some, List, [], ◌∷◌, ltb,
  if◌then◌else◌,
}
use bcp_concept_prototype.Message.{header_size, payload_size, valid}
use bcp_concept_prototype.Stream.{slice}
use bcp_concept_prototype.Wire.Udp.{Memory, cast_message}
use bcp_concept_prototype.P2p.Buffer.{SessionBuffer, session_buffer, get, next, length, fill}
use bcp_concept_prototype.P2p.Socket.{
  Sockets, AsyncWrite, header_read, body_read, Call, on_disconnected, on_message, starts_read,
}
use bcp_concept_prototype.P2p.Session.{max_buffer_size}

abbrev pub read_rows : ℕ
read_rows = 16

abbrev pub write_rows : ℕ
write_rows = 8

module _ (sockets : Sockets) (nowhere : Memory) where
  pub record P2pClient : Type 0 where
    pub socket : sockets.Socket
    pub remote_endpoint : Option (List ℕ × ℕ)
    pub has_connected : Bool
    pub read_ring : SessionBuffer
    pub write_ring : SessionBuffer

  pub record ClientHandled : Type 0 where
    pub client : P2pClient
    pub calls : List Call
    pub returned : Bool

  -- p2p_client( io_service )
  unfoldable pub p2p_client : Bool → (ℕ → Memory) → (ℕ → Memory) → P2pClient
  p2p_client unset reads writes = record {
    socket = sockets.socket;
    remote_endpoint = none;
    has_connected = unset;
    read_ring = session_buffer reads;
    write_ring = session_buffer writes;
  }

  unfoldable pub connected : P2pClient → Bool
  connected c = c.has_connected && sockets.is_open c.socket

  -- connect(): the connection is started, unless there is one
  unfoldable pub connect : P2pClient → P2pClient × Bool
  connect c =
      if connected c
      then (c, false)
      else (record c { socket = sockets.async_connect c.socket }, true)

  -- connect( host, port ); none where the host is no address, so that it throws
  unfoldable pub connect_to : List ℕ → ℕ → P2pClient → P2pClient × Option Bool
  connect_to host port c =
      let (c', started) = connect (record c { remote_endpoint = some (host, port) }) in
      if sockets.is_address host then (c', some started) else (c, none)

  unfoldable pub client_at : Option ℕ → P2pClient → Memory
  client_at none c = nowhere
  client_at (some row) c = c.read_ring.rows row

  -- close(); where the socket throws, the client stays connected
  unfoldable pub close : P2pClient → ClientHandled
  close c =
      let (down, ok) = sockets.shutdown c.socket in
      let (end, done) = sockets.close down in
      let opened = sockets.is_open c.socket in
      let c' : P2pClient =
        (if opened
          then (if ok then record c { socket = end } else record c { socket = down })
          else c) in
      if opened && not (ok && done)
      then record { client = c'; calls = []; returned = false }
      else record {
        client = record c' { has_connected = false };
        calls = if c.has_connected then on_disconnected ∷ [] else [];
        returned = true;
      }

  unfoldable pub do_read : P2pClient → ClientHandled
  do_read c =
      let (ring, row) = next read_rows max_buffer_size c.read_ring in
      if connected c
      then record {
        client = record c { read_ring = ring };
        calls =
            starts_read (record {
              row = row;
              offset = 0;
              room = length read_rows max_buffer_size ring;
              exactly = header_size;
              completion = header_read;
            })
            ∷ [];
        returned = true;
      }
      else record { client = c; calls = []; returned = true }

  -- write( data, len ), with the operation that it starts; none as data is nullptr
  unfoldable pub write : Option Memory → ℕ → P2pClient → (P2pClient × Option AsyncWrite) × Bool
  write none len c = ((c, none), false)
  write (some data_) len c =
      let (ring, row) = next write_rows max_buffer_size c.write_ring in
      if ltb max_buffer_size len
      then ((c, none), false)
      else (if not (connected c) then ((c, none), false) else (
        (
          elim row [
            | none ↦ record c { write_ring = ring }
            | some r ↦ record c { write_ring = fill r 0 (slice data_ 0 len) ring }
          ],
          some (record { row = row; room = len; exactly = len }),
        ),
        true,
      ))

  -- write( msg )
  unfoldable pub write_message : Option Memory → P2pClient → (P2pClient × Option AsyncWrite) × Bool
  write_message none c = ((c, none), false)
  write_message (some msg) c =
      if not (valid (cast_message msg))
      then ((c, none), false)
      else write (some msg) (cast_message msg).size c

  -- handle_write(); onWrited only logs
  unfoldable pub handle_write : Bool → ℕ → P2pClient → ClientHandled
  handle_write error bytes_transferred c =
      if error then close c else record { client = c; calls = []; returned = true }

  unfoldable pub handle_read_header : Bool → ℕ → P2pClient → ClientHandled
  handle_read_header error bytes_transferred c =
      let buffer = get read_rows max_buffer_size c.read_ring in
      let header = cast_message (client_at buffer c) in
      if error
      then close c
      else (if ltb bytes_transferred header_size
          then close c
          else (if not (valid header) then close c else record {
            client = c;
            calls =
                starts_read (record {
                  row = buffer;
                  offset = bytes_transferred;
                  room = length read_rows max_buffer_size c.read_ring - bytes_transferred;
                  exactly = payload_size header;
                  completion = body_read buffer;
                })
                ∷ [];
            returned = true;
          }))

  -- handle_read_body(), with what onReceived makes of the client
  unfoldable pub handle_read_body :
      (Memory → P2pClient → P2pClient) → Bool → ℕ → Option ℕ → P2pClient → ClientHandled
  handle_read_body on_received error bytes_transferred header c =
      let msg = client_at header c in
      let size = (cast_message msg).size in
      if error
      then close c
      else (if ltb (bytes_transferred + header_size) size
          then close c
          else (if not (valid (cast_message msg)) || ltb (bytes_transferred + header_size) size
              then close c
              else (let h = do_read (on_received msg c) in
                  record h { calls = on_message msg ∷ h.calls })))

  -- handle_connect(), with what onConnected makes of the client and the write that it starts
  unfoldable pub handle_connect :
      (Bool → P2pClient → P2pClient × Option AsyncWrite)
      → Bool
      → P2pClient
      → ClientHandled × Option AsyncWrite
  handle_connect on_connected error c =
      let (c', started) = on_connected (not error) (record c { has_connected = not error }) in
      (
        if connected c' then do_read c' else record { client = c'; calls = []; returned = true },
        started,
      )
