-- ===== src/P2p/Body.antt =====
-- tests/dev/p2p_server/p2p_server.cpp: the completion of the read of a body.
use bcp_concept_prototype.Prelude.{
  ℕ, ◌+◌, ◌-◌, ◌≤◌, ◌<◌, ◌≡◌, refl, ap, sym, ◌∙◌, Bool, true, false, ◌&&◌, some, List, [], ◌∷◌, ltb,
  leb, length, take, drop, arith, length-take, length-drop, le→leb,
}
use bcp_concept_prototype.Message.{header_size, valid, payload_size}
use bcp_concept_prototype.Message.Sizes.{payload_size-valid}
use bcp_concept_prototype.Stream.{slice, copy_to}
use bcp_concept_prototype.Wire.Udp.{Memory, cast_message}
use bcp_concept_prototype.P2p.Buffer.{length as ring_length, fill-row}
use bcp_concept_prototype.P2p.Socket.{Sockets, AsyncRead, body_read, on_disconnected, starts_read}
use bcp_concept_prototype.P2p.Session.{
  P2pSession, MessageProcedure, max_buffer_size, read_buffer_length,
}
use bcp_concept_prototype.P2p.Reading.{
  memory_at, close_session, session_read_body, deliver, handle_session_read_body,
}
use bcp_concept_prototype.P2p.Framing.{received, completed, complete, wanted}
use bcp_concept_prototype.P2p.Row.{cast_message-body, slice-row, take-drop}
use bcp_concept_prototype.P2p.Header.{
  header_in, length-header, with_header, with_header-socket, memory_at-received,
  cast_message-received,
}

-- the read that session_read_body() starts for a payload
abbrev pub body_read_at : ℕ → ℕ → AsyncRead
body_read_at row n = record {
  row = some row;
  offset = header_size;
  room = max_buffer_size - header_size;
  exactly = n;
  completion = body_read (some row);
}

-- the payload that follows a header
abbrev pub payload : List ℕ → List ℕ
payload bytes = take (payload_size (header_in bytes)) (drop header_size bytes)

pub length-payload :
    (bytes : List ℕ)
    → payload_size (header_in bytes) ≤ length (drop header_size bytes)
    → length (payload bytes) ≡ payload_size (header_in bytes)
length-payload bytes l =
    omega (arith, length-take (payload_size (header_in bytes)) (drop header_size bytes))

pub ltb→nleb : (a b : ℕ) → b < a → leb a b ≡ false
ltb→nleb a b h = ground arith

pub and_false : (b : Bool) → (b && false) ≡ false
and_false true = refl
and_false false = refl

pub wanted-body : (row n : ℕ) → n ≤ 65522 → wanted (body_read_at row n) ≡ n
wanted-body row n l = ground arith

-- A row into which the header and the payload of a message have been read holds its bytes.
pub slice-message :
    (f : Memory) (bytes : List ℕ)
    → valid (header_in bytes) ≡ true
    → (header_in bytes).size ≤ length bytes
    → slice
        (copy_to (copy_to f 0 (take header_size bytes)) header_size (payload bytes))
        0
        (header_in bytes).size
      ≡ take (header_in bytes).size bytes
slice-message f bytes v l =
    let (e, small) = payload_size-valid (header_in bytes) v in
    let n = length-payload bytes (omega (arith, e, length-drop header_size bytes)) in
    ap (slice (copy_to (copy_to f 0 (take header_size bytes)) header_size (payload bytes)) 0)
      (sym e ∙ ap (λ k. header_size + k) (sym n))
    ∙ slice-row f (take header_size bytes) (payload bytes) (length-header bytes (omega (arith, e)))
    ∙ take-drop header_size (payload_size (header_in bytes)) bytes
    ∙ ap (λ k. take k bytes) e

module _ (sockets : Sockets) (nowhere : Memory) (procedure : MessageProcedure sockets) where
  pub session_read_body-starts :
      (row : ℕ) (bytes : List ℕ) (s : P2pSession sockets)
      → header_size ≤ length bytes
      → let s' = with_header sockets nowhere procedure row bytes s in
        session_read_body sockets nowhere (some row) s' ≡ record {
          session = s';
          calls = starts_read (body_read_at row (payload_size (header_in bytes))) ∷ [];
          returned = true;
        }
  unfolding session_read_body read_buffer_length ring_length
  session_read_body-starts row bytes s l =
      rw (cast_message-received sockets nowhere procedure row bytes s l) refl

  -- the session with a whole message in its row
  abbrev pub with_body : ℕ → List ℕ → P2pSession sockets → P2pSession sockets
  with_body row bytes s =
      received sockets nowhere procedure (body_read_at row (payload_size (header_in bytes)))
        (payload bytes) (with_header sockets nowhere procedure row bytes s)

  abbrev pub message_in : ℕ → List ℕ → P2pSession sockets → Memory
  message_in row bytes s = memory_at sockets nowhere (some row) (with_body row bytes s)

  message_in-copy_to :
      (row : ℕ) (bytes : List ℕ) (s : P2pSession sockets)
      → message_in row bytes s
        ≡ copy_to
            (copy_to (s.read_ring.rows row) 0 (take header_size bytes))
            header_size
            (payload bytes)
  message_in-copy_to row bytes s =
      unfold memory_at received in
      fill-row row header_size (payload bytes)
        (with_header sockets nowhere procedure row bytes s).read_ring
      ∙ ap (λ m. copy_to m header_size (payload bytes))
          (memory_at-received sockets nowhere procedure row (take header_size bytes) s)

  pub cast_message-message_in :
      (row : ℕ) (bytes : List ℕ) (s : P2pSession sockets)
      → header_size ≤ length bytes
      → cast_message (message_in row bytes s) ≡ header_in bytes
  cast_message-message_in row bytes s l =
      ap cast_message (message_in-copy_to row bytes s)
      ∙ cast_message-body (copy_to (s.read_ring.rows row) 0 (take header_size bytes))
          (payload bytes)
      ∙ ap cast_message
          (sym (memory_at-received sockets nowhere procedure row (take header_size bytes) s))
      ∙ cast_message-received sockets nowhere procedure row bytes s l

  -- The row holds the bytes of the message.
  pub slice-message_in :
      (row : ℕ) (bytes : List ℕ) (s : P2pSession sockets)
      → valid (header_in bytes) ≡ true
      → (header_in bytes).size ≤ length bytes
      → slice (message_in row bytes s) 0 (header_in bytes).size ≡ take (header_in bytes).size bytes
  slice-message_in row bytes s v l =
      rw (message_in-copy_to row bytes s) (slice-message (s.read_ring.rows row) bytes v l)

  -- A body that has come whole is delivered.
  pub complete-body :
      (now row : ℕ) (bytes : List ℕ) (s : P2pSession sockets)
      → sockets.is_open s.socket ≡ true
      → valid (header_in bytes) ≡ true
      → (header_in bytes).size ≤ length bytes
      → complete sockets nowhere procedure now
          (body_read_at row (payload_size (header_in bytes)))
          (drop header_size bytes)
          (with_header sockets nowhere procedure row bytes s)
        ≡ deliver sockets nowhere procedure (message_in row bytes s) (with_body row bytes s)
  unfolding complete completed handle_session_read_body
  complete-body now row bytes s o v l =
      let (e, small) = payload_size-valid (header_in bytes) v in
      let enough : payload_size (header_in bytes) ≤ length (drop header_size bytes) =
        omega (arith, e, length-drop header_size bytes) in
      let exact : ltb (header_in bytes).size (payload_size (header_in bytes) + header_size)
          ≡ false =
        ground (arith, e) in
      rw
        (
          wanted-body row (payload_size (header_in bytes)) small,
          ap sockets.is_open (with_header-socket sockets nowhere procedure row bytes s) ∙ o,
          le→leb (payload_size (header_in bytes)) (length (drop header_size bytes)) enough,
          length-payload bytes enough,
          cast_message-message_in row bytes s (omega (arith, e)),
          exact,
          v,
        )
        refl

  -- A body that ends early closes the session.
  pub complete-body_closes :
      (now row : ℕ) (bytes : List ℕ) (s : P2pSession sockets)
      → valid (header_in bytes) ≡ true
      → length bytes < (header_in bytes).size
      → header_size ≤ length bytes
      → (complete sockets nowhere procedure now
          (body_read_at row (payload_size (header_in bytes)))
          (drop header_size bytes)
          (with_header sockets nowhere procedure row bytes s)).calls
        ≡ on_disconnected ∷ []
  unfolding complete completed handle_session_read_body close_session
  complete-body_closes now row bytes s v l h =
      let (e, small) = payload_size-valid (header_in bytes) v in
      let short =
        ltb→nleb (payload_size (header_in bytes)) (length (drop header_size bytes))
          (omega (arith, e, length-drop header_size bytes)) in
      let opened = sockets.is_open (with_header sockets nowhere procedure row bytes s).socket in
      rw (wanted-body row (payload_size (header_in bytes)) small, short, and_false opened) refl
