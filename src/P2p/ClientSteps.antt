-- ===== src/P2p/ClientSteps.antt =====
-- tests/dev/p2p_server/p2p_client.cpp: the two completions that a message takes in a client.
use bcp_concept_prototype.Prelude.{
  ℕ, ◌+◌, ◌%◌, ◌<◌, ◌≤◌, ◌≡◌, refl, ◌∙◌, true, false, not, ◌&&◌, none, List, [], ◌∷◌, ltb, leb,
  length, take, drop, arith, length-drop, le→leb, tests, Bool-cases, inl, inr,
}
use bcp_concept_prototype.Message.{header_size, valid, payload_size}
use bcp_concept_prototype.Message.Sizes.{payload_size-valid}
use bcp_concept_prototype.Wire.Udp.{Memory}
use bcp_concept_prototype.P2p.Buffer.{next, length as ring_length, next-get}
use bcp_concept_prototype.P2p.Socket.{Sockets, on_message, starts_read}
use bcp_concept_prototype.P2p.Session.{max_buffer_size}
use bcp_concept_prototype.P2p.Client.{
  P2pClient, ClientHandled, connected, read_rows, close, do_read, handle_read_header,
  handle_read_body,
}
use bcp_concept_prototype.P2p.ClientFraming.{
  Receiver, client_received, client_completed, client_complete,
}
use bcp_concept_prototype.P2p.ClientHeader.{
  IsReading, with_header, with_body, message_in, cast_message-header, cast_message-message_in,
  buffer-received,
}
use bcp_concept_prototype.P2p.Framing.{delivered, pending}
use bcp_concept_prototype.P2p.Header.{header_in, header_read_at, length-header}
use bcp_concept_prototype.P2p.Body.{body_read_at, wanted-body, length-payload, ltb→nleb, and_false}

module _ (sockets : Sockets) (nowhere : Memory) (on_received : Receiver sockets nowhere) where
  -- Nothing is read on, and nothing has been delivered.
  pub record IsOver (h : ClientHandled sockets nowhere) : Type 0 where
    pub stops : pending h.calls ≡ none
    pub silent : delivered h.calls ≡ []

  close-IsOver : (c : P2pClient sockets nowhere) → IsOver (close sockets nowhere c)
  unfolding close pending delivered
  close-IsOver c =
      let down = sockets.shutdown c.socket in
      elim (Bool-cases (sockets.is_open c.socket && not (down.1 && (sockets.close down.0).1))) [
        | inl k ↦ rw (close, k) (record { stops = refl; silent = refl })
        | inr k ↦ elim (Bool-cases c.has_connected) [
          | inl h ↦ rw (close, k, h) (record { stops = refl; silent = refl })
          | inr h ↦ rw (close, k, h) (record { stops = refl; silent = refl })
        ]
      ]

  pub do_read-starts :
      (c : P2pClient sockets nowhere)
      → connected sockets nowhere c ≡ true
      → do_read sockets nowhere c ≡ record {
        client = record c { read_ring = (next read_rows max_buffer_size c.read_ring).0 };
        calls = starts_read (header_read_at ((c.read_ring.current_pos + 1) % read_rows)) ∷ [];
        returned = true;
      }
  unfolding do_read ring_length
  do_read-starts c k =
      let (a, b) = next-get read_rows max_buffer_size c.read_ring (omega arith) in rw (k, b) refl

  pub complete-header :
      (row : ℕ) (bytes : List ℕ) (c : P2pClient sockets nowhere)
      → IsReading sockets nowhere on_received row c
      → sockets.is_open c.socket ≡ true
      → header_size ≤ length bytes
      → valid (header_in bytes) ≡ true
      → client_complete sockets nowhere on_received (header_read_at row) bytes c ≡ record {
        client = with_header sockets nowhere on_received row bytes c;
        calls = starts_read (body_read_at row (payload_size (header_in bytes))) ∷ [];
        returned = true;
      }
  unfolding client_complete client_completed handle_read_header ring_length
  complete-header row bytes c v o l h =
      rw
        (
          o,
          le→leb header_size (length bytes) l,
          length-header bytes l,
          buffer-received sockets nowhere on_received row (take header_size bytes) c v,
          cast_message-header sockets nowhere on_received row bytes c l,
          h,
        )
        refl

  pub complete-header_closes :
      (row : ℕ) (bytes : List ℕ) (c : P2pClient sockets nowhere)
      → IsReading sockets nowhere on_received row c
      → sockets.is_open c.socket ≡ true
      → (leb header_size (length bytes) && valid (header_in bytes)) ≡ false
      → IsOver (client_complete sockets nowhere on_received (header_read_at row) bytes c)
  unfolding client_complete client_completed handle_read_header
  complete-header_closes row bytes c v o h = elim (Bool-cases (leb header_size (length bytes))) [
    | inl l ↦
        let l' : header_size ≤ length bytes = omega (tests, l) in
        let w : valid (header_in bytes) ≡ false = ground (arith, h, l) in
        rw
          (
            client_complete,
            o,
            l,
            length-header bytes l',
            buffer-received sockets nowhere on_received row (take header_size bytes) c v,
            cast_message-header sockets nowhere on_received row bytes c l',
            w,
          )
          (close-IsOver _)
    | inr l ↦ rw (client_complete, o, l) (close-IsOver _)
  ]

  pub complete-body :
      (row : ℕ) (bytes : List ℕ) (c : P2pClient sockets nowhere)
      → sockets.is_open c.socket ≡ true
      → valid (header_in bytes) ≡ true
      → (header_in bytes).size ≤ length bytes
      → let m = message_in sockets nowhere on_received row bytes c in
        let h =
          do_read sockets nowhere
            (on_received m (with_body sockets nowhere on_received row bytes c)) in
        client_complete sockets nowhere on_received
          (body_read_at row (payload_size (header_in bytes)))
          (drop header_size bytes)
          (with_header sockets nowhere on_received row bytes c)
        ≡ record h { calls = on_message m ∷ h.calls }
  unfolding client_complete client_completed handle_read_body
  complete-body row bytes c o v l =
      let (e, small) = payload_size-valid (header_in bytes) v in
      let enough : payload_size (header_in bytes) ≤ length (drop header_size bytes) =
        omega (arith, e, length-drop header_size bytes) in
      let exact : ltb (payload_size (header_in bytes) + header_size) (header_in bytes).size
          ≡ false =
        ground (arith, e) in
      rw
        (
          wanted-body row (payload_size (header_in bytes)) small,
          with_header-opened row bytes c ∙ o,
          le→leb (payload_size (header_in bytes)) (length (drop header_size bytes)) enough,
          length-payload bytes enough,
          cast_message-message_in sockets nowhere on_received row bytes c (omega (arith, e)),
          exact,
          v,
        )
        refl
    where
      with_header-opened :
          (row : ℕ) (bytes : List ℕ) (c : P2pClient sockets nowhere)
          → sockets.is_open (with_header sockets nowhere on_received row bytes c).socket
            ≡ sockets.is_open c.socket
      with_header-opened row bytes c = unfold client_received in refl

  pub complete-body_closes :
      (row : ℕ) (bytes : List ℕ) (c : P2pClient sockets nowhere)
      → valid (header_in bytes) ≡ true
      → length bytes < (header_in bytes).size
      → header_size ≤ length bytes
      → IsOver (
          client_complete sockets nowhere on_received
            (body_read_at row (payload_size (header_in bytes)))
            (drop header_size bytes)
            (with_header sockets nowhere on_received row bytes c))
  unfolding client_complete client_completed handle_read_body
  complete-body_closes row bytes c v l h =
      let (e, small) = payload_size-valid (header_in bytes) v in
      let short =
        ltb→nleb (payload_size (header_in bytes)) (length (drop header_size bytes))
          (omega (arith, e, length-drop header_size bytes)) in
      let opened = sockets.is_open (with_header sockets nowhere on_received row bytes c).socket in
      rw
        (
          client_complete,
          wanted-body row (payload_size (header_in bytes)) small,
          short,
          and_false opened,
        )
        (close-IsOver _)
