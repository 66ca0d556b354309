-- ===== src/P2p/Sending.antt =====
-- tests/dev/p2p_server/p2p_client.cpp and p2p_server.cpp: what a connected client writes, and what
-- reaches onMessage of the server.
use bcp_concept_prototype.Prelude.{
  ℕ, ◌+◌, ◌*◌, ◌%◌, ◌≡◌, refl, sym, ap, ◌∙◌, true, false, none, some, Option, List, [], ◌∷◌, ◌++◌,
  length, arith, ltb,
}
use bcp_concept_prototype.Message.{valid}
use bcp_concept_prototype.Message.Sizes.{payload_size-valid}
use bcp_concept_prototype.Stream.{slice, copy_to}
use bcp_concept_prototype.Stream.Contents.{slice-written, length-slice}
use bcp_concept_prototype.Wire.Udp.{Memory, cast_message}
use bcp_concept_prototype.P2p.Buffer.{SessionBuffer, next-get, fill, fill-row}
use bcp_concept_prototype.P2p.Socket.{Sockets, AsyncWrite}
use bcp_concept_prototype.P2p.Session.{P2pSession, MessageProcedure, max_buffer_size}
use bcp_concept_prototype.P2p.Client.{P2pClient, write_rows, connected, write, write_message}
use bcp_concept_prototype.P2p.Framing.{delivered, served}
use bcp_concept_prototype.P2p.Frames.{AllValid, stream_of, all_sent, sent, frames, frames-stream_of}
use bcp_concept_prototype.P2p.Delivery.{served-frames}

module _ (sockets : Sockets) (nowhere : Memory) where
  -- the bytes that an operation sends while its row is as it was written
  unfoldable pub transmitted : Option AsyncWrite → P2pClient sockets nowhere → List ℕ
  transmitted none c = []
  transmitted (some w) c = elim w.row [
    | none ↦ []
    | some row ↦ slice (c.write_ring.rows row) 0 w.exactly
  ]

  -- write() of one message after another, each sent before the next
  unfoldable pub write_all : List Memory → P2pClient sockets nowhere → List ℕ
  write_all [] c = []
  write_all (m ∷ ms) c =
      let ((c', started), ok) = write_message sockets nowhere (some m) c in
      transmitted started c' ++ write_all ms c'

  -- A connected client accepts a valid message, sends its bytes and stays connected.
  pub write_message-sends :
      (m : Memory) (c : P2pClient sockets nowhere)
      → connected sockets nowhere c ≡ true
      → valid (cast_message m) ≡ true
      → let written = write_message sockets nowhere (some m) c in
        (transmitted written.0.1 written.0.0 ≡ sent m)
        × (connected sockets nowhere written.0.0 ≡ true)
        × (written.1 ≡ true)
  unfolding transmitted write_message write connected
  write_message-sends m c k v =
      let (e, small) = payload_size-valid (cast_message m) v in
      let fits : ltb max_buffer_size (cast_message m).size ≡ false = ground (arith, e) in
      let row = (c.write_ring.current_pos + 1) % write_rows in
      let (a, b) = next-get write_rows max_buffer_size c.write_ring (omega arith) in
      rw (v, fits, k, b) (row_sent m row _, k, refl)
    where
      row_sent :
          (m : Memory) (row : ℕ) (ring : SessionBuffer)
          → slice ((fill row 0 (sent m) ring).rows row) 0 (cast_message m).size ≡ sent m
      row_sent m row ring = rw (fill-row row 0 (sent m) ring) (
          ap (slice (copy_to (ring.rows row) 0 (sent m)) 0)
            (sym (length-slice m 0 (cast_message m).size))
          ∙ slice-written (ring.rows row) 0 (sent m))

  write_all-stream_of :
      (ms : List Memory) (c : P2pClient sockets nowhere)
      → connected sockets nowhere c ≡ true
      → AllValid ms
      → write_all ms c ≡ stream_of ms
  unfolding write_all stream_of
  write_all-stream_of [] c k v = refl
  write_all-stream_of (m ∷ ms) c k v =
      let (a, b, d) = write_message-sends m c k v.0 in
      let c' = (write_message sockets nowhere (some m) c).0.0 in
      ap (λ bs. bs ++ write_all ms c') a ∙ ap (λ bs. sent m ++ bs) (write_all-stream_of ms c' b v.1)

  -- Messages with valid headers that a connected client writes, each sent before the next, reach
  -- onMessage of a server one by one, whole, in their order, and nothing else does: where the
  -- session is new with an open socket, which onMessage leaves open, whatever the rows of both
  -- held.
  pub served-write_all :
      (procedure : MessageProcedure sockets) (now : ℕ) (ms : List Memory)
      (c : P2pClient sockets nowhere) (s : P2pSession sockets)
      → connected sockets nowhere c ≡ true
      → AllValid ms
      → sockets.is_open s.socket ≡ true
      → ((m : Memory) (t : P2pSession sockets)
          → sockets.is_open t.socket ≡ true
          → sockets.is_open (procedure m t).socket ≡ true)
      → (n : ℕ)
      → delivered (served sockets nowhere procedure ((length ms + n) * 2) now (write_all ms c) s)
        ≡ all_sent ms
  served-write_all procedure now ms c s k v o stays n =
      served-frames sockets nowhere procedure (length ms + n) now (write_all ms c) s o stays
      ∙ ap (frames (length ms + n)) (write_all-stream_of ms c k v)
      ∙ frames-stream_of (length ms + n) ms v (omega arith)
