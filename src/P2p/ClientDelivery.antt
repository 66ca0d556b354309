-- ===== src/P2p/ClientDelivery.antt =====
-- tests/dev/p2p_server/p2p_client.cpp: the messages that reach onReceived of a client, beside those
-- that a server takes.
use bcp_concept_prototype.Prelude.{
  ℕ, zero, suc, ◌*◌, ◌≡◌, refl, sym, ap, ◌∙◌, true, false, ◌&&◌, none, some, List, [], ◌∷◌, leb,
  length, take, drop, arith, Bool-cases, inl, inr,
}
use bcp_concept_prototype.Message.{header_size, valid, payload_size}
use bcp_concept_prototype.Wire.Udp.{Memory}
use bcp_concept_prototype.P2p.Socket.{Sockets, Call}
use bcp_concept_prototype.P2p.Session.{P2pSession, MessageProcedure}
use bcp_concept_prototype.P2p.Client.{P2pClient, ClientHandled, connected}
use bcp_concept_prototype.P2p.ClientFraming.{Receiver, client_received, client_serve, client_served}
use bcp_concept_prototype.P2p.ClientHeader.{IsReading, with_header, with_body, message_in}
use bcp_concept_prototype.P2p.ClientSteps.{
  do_read-starts, complete-header_closes, complete-body_closes,
}
use bcp_concept_prototype.P2p.Framing.{delivered, pending, served}
use bcp_concept_prototype.P2p.Header.{header_in, header_read_at}
use bcp_concept_prototype.P2p.Body.{body_read_at}
use bcp_concept_prototype.P2p.Frames.{whole, frames}
use bcp_concept_prototype.P2p.Delivery.{headed, short, whole-parts, served-frames}
use bcp_concept_prototype.P2p.ClientServe.{
  serve_ends, header_step, body_step, after, reading, next_row, reading-IsReading,
}

module _ (sockets : Sockets) (nowhere : Memory) (on_received : Receiver sockets nowhere) where
  serve_not_whole :
      (fuel row : ℕ) (bytes : List ℕ) (c : P2pClient sockets nowhere)
      → IsReading sockets nowhere on_received row c
      → sockets.is_open c.socket ≡ true
      → whole bytes ≡ false
      → delivered
          (client_serve sockets nowhere on_received (suc (suc fuel)) (header_read_at row) bytes c)
        ≡ []
  serve_not_whole fuel row bytes c ready o n =
      elim (Bool-cases (leb header_size (length bytes) && valid (header_in bytes))) [
        | inl h ↦
            let (l, v) = headed bytes h in
            header_step sockets nowhere on_received (suc fuel) row bytes c ready o l v
            ∙ serve_ends sockets nowhere on_received fuel
                (body_read_at row (payload_size (header_in bytes))) (drop header_size bytes)
                (with_header sockets nowhere on_received row bytes c)
                (complete-body_closes sockets nowhere on_received row bytes c v (short bytes n h) l)
        | inr h ↦
            serve_ends sockets nowhere on_received (suc fuel) (header_read_at row) bytes c
              (complete-header_closes sockets nowhere on_received row bytes c ready o h)
      ]

  is_open-connected :
      (c : P2pClient sockets nowhere)
      → connected sockets nowhere c ≡ true
      → sockets.is_open c.socket ≡ true
  unfolding connected
  is_open-connected c k = ground (arith, k)

  connected-with_body :
      (row : ℕ) (bytes : List ℕ) (c : P2pClient sockets nowhere)
      → connected sockets nowhere (with_body sockets nowhere on_received row bytes c)
        ≡ connected sockets nowhere c
  unfolding connected client_received
  connected-with_body row bytes c = refl

  connected-reading :
      (c : P2pClient sockets nowhere)
      → connected sockets nowhere (reading sockets nowhere on_received c)
        ≡ connected sockets nowhere c
  unfolding connected
  connected-reading c = refl

  client_serve-frames :
      (fuel row : ℕ) (bytes : List ℕ) (c : P2pClient sockets nowhere)
      → IsReading sockets nowhere on_received row c
      → connected sockets nowhere c ≡ true
      → ((m : Memory) (d : P2pClient sockets nowhere)
          → connected sockets nowhere d ≡ true
          → connected sockets nowhere (on_received m d) ≡ true)
      → delivered (client_serve sockets nowhere on_received (fuel * 2) (header_read_at row) bytes c)
        ≡ frames fuel bytes
  unfolding frames
  client_serve-frames zero row bytes c ready k stays = unfold delivered client_serve in refl
  client_serve-frames (suc fuel) row bytes c ready k stays =
      ap (λ n. delivered (client_serve sockets nowhere on_received n (header_read_at row) bytes c))
        (twice fuel)
      ∙ elim (Bool-cases (whole bytes)) [
        | inl w ↦
            let (l, v, n) = whole-parts bytes w in
            let t = after sockets nowhere on_received row bytes c in
            let o = is_open-connected c k in
            let j =
              stays (message_in sockets nowhere on_received row bytes c)
                (with_body sockets nowhere on_received row bytes c)
                (connected-with_body row bytes c ∙ k) in
            rw w (
              header_step sockets nowhere on_received (suc (fuel * 2)) row bytes c ready o l v
              ∙ body_step sockets nowhere on_received (fuel * 2) row bytes c o v n j
              ∙ ap (λ fs. take (header_in bytes).size bytes ∷ fs)
                  (client_serve-frames fuel (next_row sockets nowhere on_received t)
                    (drop (header_in bytes).size bytes) (reading sockets nowhere on_received t)
                    (reading-IsReading sockets nowhere on_received t) (connected-reading t ∙ j)
                    stays))
        | inr w ↦ rw w (serve_not_whole (fuel * 2) row bytes c ready (is_open-connected c k) w)
      ]
    where
      twice : (n : ℕ) → suc n * 2 ≡ suc (suc (n * 2))
      twice n = omega arith

  client_served-start :
      (fuel : ℕ) (bytes : List ℕ) (c : P2pClient sockets nowhere)
      → connected sockets nowhere c ≡ true
      → client_served sockets nowhere on_received fuel bytes c
        ≡ client_serve sockets nowhere on_received fuel
            (header_read_at (next_row sockets nowhere on_received c))
            bytes
            (reading sockets nowhere on_received c)
  unfolding client_served pending
  client_served-start fuel bytes c k =
      let go : ClientHandled sockets nowhere → List Call = (λ h. elim (pending h.calls) [
        | none ↦ []
        | some r ↦ client_serve sockets nowhere on_received fuel r bytes h.client
      ]) in
      ap go (do_read-starts sockets nowhere on_received c k)

  -- A connected client whose onReceived leaves it connected delivers the same messages, in the same
  -- order, from any bytes as a session of a server whose onMessage leaves its socket open: two
  -- completions for each message, whatever the rows of both held.
  pub client_served-served :
      (procedure : MessageProcedure sockets) (fuel now : ℕ) (bytes : List ℕ)
      (c : P2pClient sockets nowhere) (s : P2pSession sockets)
      → connected sockets nowhere c ≡ true
      → ((m : Memory) (d : P2pClient sockets nowhere)
          → connected sockets nowhere d ≡ true
          → connected sockets nowhere (on_received m d) ≡ true)
      → sockets.is_open s.socket ≡ true
      → ((m : Memory) (t : P2pSession sockets)
          → sockets.is_open t.socket ≡ true
          → sockets.is_open (procedure m t).socket ≡ true)
      → delivered (client_served sockets nowhere on_received (fuel * 2) bytes c)
        ≡ delivered (served sockets nowhere procedure (fuel * 2) now bytes s)
  client_served-served procedure fuel now bytes c s k keeps o stays =
      ap delivered (client_served-start (fuel * 2) bytes c k)
      ∙ client_serve-frames fuel (next_row sockets nowhere on_received c) bytes
          (reading sockets nowhere on_received c) (reading-IsReading sockets nowhere on_received c)
          (connected-reading c ∙ k) keeps
      ∙ sym (served-frames sockets nowhere procedure fuel now bytes s o stays)
