-- ===== src/P2p/ClientServe.antt =====
-- tests/dev/p2p_server/p2p_client.cpp: how a client goes on after each completion.
use bcp_concept_prototype.Prelude.{
  ℕ, suc, ◌+◌, ◌%◌, ◌≤◌, ◌≡◌, refl, ap, ◌∙◌, true, some, List, [], ◌∷◌, ◌++◌, length, take, drop,
  arith,
}
use native.Mathlib.Nat.{mod-lt}
use bcp_concept_prototype.Message.{header_size, valid, payload_size}
use bcp_concept_prototype.Message.Sizes.{payload_size-valid}
use bcp_concept_prototype.Wire.Udp.{Memory}
use bcp_concept_prototype.P2p.Buffer.{next}
use bcp_concept_prototype.P2p.Socket.{Sockets, AsyncRead, on_message}
use bcp_concept_prototype.P2p.Session.{max_buffer_size}
use bcp_concept_prototype.P2p.Client.{P2pClient, ClientHandled, connected, read_rows}
use bcp_concept_prototype.P2p.ClientFraming.{Receiver, client_complete, client_serve}
use bcp_concept_prototype.P2p.ClientHeader.{
  IsReading, with_header, with_body, message_in, cast_message-message_in, slice-message_in,
}
use bcp_concept_prototype.P2p.ClientSteps.{IsOver, do_read-starts, complete-header, complete-body}
use bcp_concept_prototype.P2p.Framing.{delivered, pending, wanted}
use bcp_concept_prototype.P2p.Row.{drop-drop}
use bcp_concept_prototype.P2p.Header.{header_in, header_read_at}
use bcp_concept_prototype.P2p.Body.{body_read_at, wanted-body}
use bcp_concept_prototype.P2p.Steps.{delivered-append}

module _ (sockets : Sockets) (nowhere : Memory) (on_received : Receiver sockets nowhere) where
  pub serve_ends :
      (fuel : ℕ) (r : AsyncRead) (bytes : List ℕ) (c : P2pClient sockets nowhere)
      → IsOver sockets nowhere on_received (client_complete sockets nowhere on_received r bytes c)
      → delivered (client_serve sockets nowhere on_received (suc fuel) r bytes c) ≡ []
  unfolding client_serve delivered
  serve_ends fuel r bytes c v =
      rw (client_serve, v.stops)
        (delivered-append (client_complete sockets nowhere on_received r bytes c).calls []
          ∙ rw v.silent refl)

  serve_goes :
      (fuel : ℕ) (r q : AsyncRead) (bytes : List ℕ) (c : P2pClient sockets nowhere)
      (h : ClientHandled sockets nowhere)
      → client_complete sockets nowhere on_received r bytes c ≡ h
      → pending h.calls ≡ some q
      → delivered (client_serve sockets nowhere on_received (suc fuel) r bytes c)
        ≡ delivered h.calls
          ++ delivered
              (client_serve sockets nowhere on_received fuel q (drop (wanted r) bytes) h.client)
  unfolding client_serve
  serve_goes fuel r q bytes c h e p = rw (e, p, e) (delivered-append _ _)

  abbrev pub after : ℕ → List ℕ → P2pClient sockets nowhere → P2pClient sockets nowhere
  after row bytes c =
      on_received (message_in sockets nowhere on_received row bytes c)
        (with_body sockets nowhere on_received row bytes c)

  -- the client that reads the next header
  abbrev pub reading : P2pClient sockets nowhere → P2pClient sockets nowhere
  reading c = record c { read_ring = (next read_rows max_buffer_size c.read_ring).0 }

  abbrev pub next_row : P2pClient sockets nowhere → ℕ
  next_row c = (c.read_ring.current_pos + 1) % read_rows

  pub reading-IsReading :
      (c : P2pClient sockets nowhere)
      → IsReading sockets nowhere on_received (next_row c) (reading c)
  unfolding next
  reading-IsReading c = record {
    current = refl;
    inside = mod-lt (c.read_ring.current_pos + 1) (omega arith);
  }

  pub header_step :
      (fuel row : ℕ) (bytes : List ℕ) (c : P2pClient sockets nowhere)
      → IsReading sockets nowhere on_received row c
      → sockets.is_open c.socket ≡ true
      → header_size ≤ length bytes
      → valid (header_in bytes) ≡ true
      → delivered (client_serve sockets nowhere on_received (suc fuel) (header_read_at row) bytes c)
        ≡ delivered (
            client_serve sockets nowhere on_received fuel
              (body_read_at row (payload_size (header_in bytes)))
              (drop header_size bytes)
              (with_header sockets nowhere on_received row bytes c))
  unfolding delivered
  header_step fuel row bytes c ready o l v =
      serve_goes fuel (header_read_at row) (body_read_at row (payload_size (header_in bytes))) bytes
        c _ (complete-header sockets nowhere on_received row bytes c ready o l v)
        (unfold pending in refl)

  pub body_step :
      (fuel row : ℕ) (bytes : List ℕ) (c : P2pClient sockets nowhere)
      → sockets.is_open c.socket ≡ true
      → valid (header_in bytes) ≡ true
      → (header_in bytes).size ≤ length bytes
      → connected sockets nowhere (after row bytes c) ≡ true
      → delivered (
          client_serve sockets nowhere on_received
            (suc fuel)
            (body_read_at row (payload_size (header_in bytes)))
            (drop header_size bytes)
            (with_header sockets nowhere on_received row bytes c))
        ≡ take (header_in bytes).size bytes
          ∷ delivered (
              client_serve sockets nowhere on_received fuel
                (header_read_at (next_row (after row bytes c)))
                (drop (header_in bytes).size bytes)
                (reading (after row bytes c)))
  unfolding delivered
  body_step fuel row bytes c o v w k =
      let (e, small) = payload_size-valid (header_in bytes) v in
      let msg = message_in sockets nowhere on_received row bytes c in
      let told : ClientHandled sockets nowhere → ClientHandled sockets nowhere =
        (λ h. record h { calls = on_message msg ∷ h.calls }) in
      serve_goes fuel (body_read_at row (payload_size (header_in bytes)))
        (header_read_at (next_row (after row bytes c))) (drop header_size bytes)
        (with_header sockets nowhere on_received row bytes c) _
        (complete-body sockets nowhere on_received row bytes c o v w
          ∙ ap told (do_read-starts sockets nowhere on_received (after row bytes c) k))
        (unfold pending in refl)
      ∙ rw
          (
            cast_message-message_in sockets nowhere on_received row bytes c (omega (arith, e)),
            slice-message_in sockets nowhere on_received row bytes c v w,
            wanted-body row (payload_size (header_in bytes)) small,
            drop-drop header_size (payload_size (header_in bytes)) bytes,
            e,
          )
          refl
