-- ===== src/P2p/ClientHeader.antt =====
-- tests/dev/p2p_server/p2p_client.cpp: the completions of the reads of a header and of a body.
use bcp_concept_prototype.Prelude.{
  ℕ, ◌<◌, ◌≤◌, ◌≡◌, sym, ap, ◌∙◌, true, some, List, length, take, arith,
}
use bcp_concept_prototype.Message.{header_size, valid, payload_size}
use bcp_concept_prototype.Stream.{copy_to, slice}
use bcp_concept_prototype.Wire.Udp.{Memory, cast_message}
use bcp_concept_prototype.P2p.Buffer.{get, fill, fill-row, get-inside}
use bcp_concept_prototype.P2p.Socket.{Sockets}
use bcp_concept_prototype.P2p.Session.{max_buffer_size}
use bcp_concept_prototype.P2p.Client.{P2pClient, read_rows, client_at}
use bcp_concept_prototype.P2p.ClientFraming.{Receiver, client_received}
use bcp_concept_prototype.P2p.Row.{cast_message-start, cast_message-body}
use bcp_concept_prototype.P2p.Header.{header_in, header_read_at, length-header}
use bcp_concept_prototype.P2p.Body.{body_read_at, payload, slice-message}

module _ (sockets : Sockets) (nowhere : Memory) (on_received : Receiver sockets nowhere) where
  pub record IsReading (row : ℕ) (c : P2pClient sockets nowhere) : Type 0 where
    pub current : c.read_ring.current_pos ≡ row
    pub inside : row < read_rows

  abbrev pub with_header : ℕ → List ℕ → P2pClient sockets nowhere → P2pClient sockets nowhere
  with_header row bytes c =
      client_received sockets nowhere on_received (header_read_at row) (take header_size bytes) c

  abbrev pub with_body : ℕ → List ℕ → P2pClient sockets nowhere → P2pClient sockets nowhere
  with_body row bytes c =
      client_received sockets nowhere on_received
        (body_read_at row (payload_size (header_in bytes))) (payload bytes)
        (with_header row bytes c)

  abbrev pub message_in : ℕ → List ℕ → P2pClient sockets nowhere → Memory
  message_in row bytes c = client_at sockets nowhere (some row) (with_body row bytes c)

  client_at-header :
      (row : ℕ) (bytes : List ℕ) (c : P2pClient sockets nowhere)
      → client_at sockets nowhere (some row) (with_header row bytes c)
        ≡ copy_to (c.read_ring.rows row) 0 (take header_size bytes)
  unfolding client_at client_received
  client_at-header row bytes c = fill-row row 0 (take header_size bytes) c.read_ring

  pub cast_message-header :
      (row : ℕ) (bytes : List ℕ) (c : P2pClient sockets nowhere)
      → header_size ≤ length bytes
      → cast_message (client_at sockets nowhere (some row) (with_header row bytes c))
        ≡ header_in bytes
  unfolding header_in
  cast_message-header row bytes c l =
      ap cast_message (client_at-header row bytes c)
      ∙ cast_message-start (c.read_ring.rows row) (λ _. 0) (take header_size bytes)
          (length-header bytes l)

  pub message_in-copy_to :
      (row : ℕ) (bytes : List ℕ) (c : P2pClient sockets nowhere)
      → message_in row bytes c
        ≡ copy_to
            (copy_to (c.read_ring.rows row) 0 (take header_size bytes))
            header_size
            (payload bytes)
  message_in-copy_to row bytes c =
      unfold client_at client_received in
      fill-row row header_size (payload bytes) (with_header row bytes c).read_ring
      ∙ ap (λ m. copy_to m header_size (payload bytes)) (client_at-header row bytes c)

  pub cast_message-message_in :
      (row : ℕ) (bytes : List ℕ) (c : P2pClient sockets nowhere)
      → header_size ≤ length bytes
      → cast_message (message_in row bytes c) ≡ header_in bytes
  cast_message-message_in row bytes c l =
      ap cast_message (message_in-copy_to row bytes c)
      ∙ cast_message-body (copy_to (c.read_ring.rows row) 0 (take header_size bytes))
          (payload bytes)
      ∙ ap cast_message (sym (client_at-header row bytes c))
      ∙ cast_message-header row bytes c l

  pub buffer-received :
      (row : ℕ) (bytes : List ℕ) (c : P2pClient sockets nowhere)
      → IsReading row c
      → get read_rows max_buffer_size
          (client_received sockets nowhere on_received (header_read_at row) bytes c).read_ring
        ≡ some row
  unfolding client_received fill get
  buffer-received row bytes c v =
      get-inside read_rows max_buffer_size c.read_ring (omega (arith, v.current, v.inside))
      ∙ ap some v.current

  -- The row holds the bytes of the message.
  pub slice-message_in :
      (row : ℕ) (bytes : List ℕ) (c : P2pClient sockets nowhere)
      → valid (header_in bytes) ≡ true
      → (header_in bytes).size ≤ length bytes
      → slice (message_in row bytes c) 0 (header_in bytes).size ≡ take (header_in bytes).size bytes
  slice-message_in row bytes c v l =
      rw (message_in-copy_to row bytes c) (slice-message (c.read_ring.rows row) bytes v l)
