-- ===== src/P2p/Header.antt =====
-- tests/dev/p2p_server/p2p_server.cpp: the completion of the read of a header.
use bcp_concept_prototype.Prelude.{
  ℕ, ◌+◌, ◌%◌, ◌<◌, ◌≤◌, ◌≡◌, refl, ap, ◌∙◌, true, false, ◌&&◌, some, List, [], ◌∷◌, leb, length,
  take, arith, le→leb, tests, length-take, Bool-cases, inl, inr,
}
use native.Mathlib.Nat.{mod-lt}
use bcp_concept_prototype.Message.{MessageHeader, header_size, valid}
use bcp_concept_prototype.Stream.{copy_to}
use bcp_concept_prototype.Wire.Udp.{Memory, cast_message}
use bcp_concept_prototype.P2p.Buffer.{
  get, next, length as ring_length, fill, fill-row, get-inside, next-get,
}
use bcp_concept_prototype.P2p.Socket.{Sockets, AsyncRead, header_read, on_disconnected, starts_read}
use bcp_concept_prototype.P2p.Session.{
  P2pSession, MessageProcedure, max_buffer_size, read_rows, read_buffer, next_read_buffer,
  read_buffer_length,
}
use bcp_concept_prototype.P2p.Reading.{
  memory_at, close_session, session_read_header, session_read_body, handle_session_read_header,
}
use bcp_concept_prototype.P2p.Framing.{received, completed, complete}
use bcp_concept_prototype.P2p.Row.{cast_message-start}

-- the read that session_read_header() starts
abbrev pub header_read_at : ℕ → AsyncRead
header_read_at row = record {
  row = some row;
  offset = 0;
  room = max_buffer_size;
  exactly = header_size;
  completion = header_read;
}

-- the header that some bytes begin with
unfoldable pub header_in : List ℕ → MessageHeader
unfolding cast_message copy_to
header_in bytes = cast_message (copy_to (λ _. 0) 0 (take header_size bytes))

pub length-header :
    (bytes : List ℕ) → header_size ≤ length bytes → length (take header_size bytes) ≡ header_size
length-header bytes l = omega (arith, length-take header_size bytes)

module _ (sockets : Sockets) (nowhere : Memory) (procedure : MessageProcedure sockets) where
  -- the session whose current row is the one that is read
  pub record IsReady (row : ℕ) (s : P2pSession sockets) : Type 0 where
    pub current : s.read_ring.current_pos ≡ row
    pub inside : row < read_rows

  pub session_read_header-starts :
      (s : P2pSession sockets)
      → let row = (s.read_ring.current_pos + 1) % read_rows in
        (session_read_header sockets nowhere s).calls ≡ starts_read (header_read_at row) ∷ []
  unfolding session_read_header next_read_buffer read_buffer_length ring_length
  session_read_header-starts s =
      let (a, b) = next-get read_rows max_buffer_size s.read_ring (omega arith) in rw b refl

  pub session_read_header-IsReady :
      (s : P2pSession sockets)
      → IsReady
          ((s.read_ring.current_pos + 1) % read_rows)
          (session_read_header sockets nowhere s).session
  unfolding session_read_header next_read_buffer next
  session_read_header-IsReady s = record {
    current = refl;
    inside = mod-lt (s.read_ring.current_pos + 1) (omega arith);
  }

  -- the session with the header in its row
  abbrev pub with_header : ℕ → List ℕ → P2pSession sockets → P2pSession sockets
  with_header row bytes s =
      received sockets nowhere procedure (header_read_at row) (take header_size bytes) s

  pub with_header-socket :
      (row : ℕ) (bytes : List ℕ) (s : P2pSession sockets)
      → (with_header row bytes s).socket ≡ s.socket
  unfolding received
  with_header-socket row bytes s = refl

  pub read_buffer-received :
      (row : ℕ) (bytes : List ℕ) (s : P2pSession sockets)
      → IsReady row s
      → read_buffer sockets (received sockets nowhere procedure (header_read_at row) bytes s)
        ≡ some row
  unfolding read_buffer received fill get
  read_buffer-received row bytes s v =
      get-inside read_rows max_buffer_size s.read_ring (omega (arith, v.current, v.inside))
      ∙ ap some v.current

  pub memory_at-received :
      (row : ℕ) (bytes : List ℕ) (s : P2pSession sockets)
      → memory_at sockets nowhere
          (some row)
          (received sockets nowhere procedure (header_read_at row) bytes s)
        ≡ copy_to (s.read_ring.rows row) 0 bytes
  unfolding memory_at received
  memory_at-received row bytes s = fill-row row 0 bytes s.read_ring

  -- The header that the handler finds in the row is that of the bytes.
  pub cast_message-received :
      (row : ℕ) (bytes : List ℕ) (s : P2pSession sockets)
      → header_size ≤ length bytes
      → cast_message (memory_at sockets nowhere (some row) (with_header row bytes s))
        ≡ header_in bytes
  unfolding header_in
  cast_message-received row bytes s l =
      ap cast_message (memory_at-received row (take header_size bytes) s)
      ∙ cast_message-start (s.read_ring.rows row) (λ _. 0) (take header_size bytes)
          (length-header bytes l)

  -- A valid header that has come whole starts the read of the body.
  pub complete-header :
      (now row : ℕ) (bytes : List ℕ) (s : P2pSession sockets)
      → IsReady row s
      → sockets.is_open s.socket ≡ true
      → header_size ≤ length bytes
      → valid (header_in bytes) ≡ true
      → complete sockets nowhere procedure now (header_read_at row) bytes s
        ≡ session_read_body sockets nowhere (some row) (with_header row bytes s)
  unfolding complete completed handle_session_read_header
  complete-header now row bytes s v o l h =
      rw
        (
          o,
          le→leb header_size (length bytes) l,
          read_buffer-received row (take header_size bytes) s v,
          cast_message-received row bytes s l,
          h,
        )
        refl

  -- Anything else closes the session.
  pub complete-header_closes :
      (now row : ℕ) (bytes : List ℕ) (s : P2pSession sockets)
      → IsReady row s
      → (sockets.is_open s.socket && (leb header_size (length bytes) && valid (header_in bytes)))
        ≡ false
      → (complete sockets nowhere procedure now (header_read_at row) bytes s).calls
        ≡ on_disconnected ∷ []
  unfolding complete completed handle_session_read_header close_session
  complete-header_closes now row bytes s v h = elim (Bool-cases (sockets.is_open s.socket)) [
    | inl o ↦ elim (Bool-cases (leb header_size (length bytes))) [
      | inl l ↦
          let l' : header_size ≤ length bytes = omega (tests, l) in
          let w : valid (header_in bytes) ≡ false = ground (arith, h, o, l) in
          rw
            (
              o,
              l,
              read_buffer-received row (take header_size bytes) s v,
              cast_message-received row bytes s l',
              w,
            )
            refl
      | inr l ↦ rw (o, l) refl
    ]
    | inr o ↦ rw o refl
  ]
