-- ===== src/P2p/Delivery.antt =====
-- tests/dev/p2p_server/p2p_server.cpp: the messages that reach onMessage from the bytes that come
-- over a connection.
use bcp_concept_prototype.Prelude.{
  ◌++◌, ℕ, zero, suc, ◌+◌, ◌%◌, ◌*◌, none, some, ◌≤◌, ◌<◌, ◌≡◌, refl, ap, ◌∙◌, true, false, ◌&&◌,
  List, [], ◌∷◌, leb, length, take, drop, arith, Bool-cases, inl, inr,
}
use bcp_concept_prototype.Message.{header_size, valid, payload_size}
use bcp_concept_prototype.Wire.Udp.{Memory}
use bcp_concept_prototype.P2p.Socket.{Sockets}
use bcp_concept_prototype.P2p.Session.{P2pSession, MessageProcedure, read_rows, next_read_buffer}
use bcp_concept_prototype.P2p.Reading.{session_read_header, session_start}
use bcp_concept_prototype.P2p.Socket.{Call}
use bcp_concept_prototype.P2p.Framing.{delivered, received, serve, served, pending}
use bcp_concept_prototype.P2p.Header.{
  header_in, header_read_at, IsReady, with_header, complete-header_closes,
  session_read_header-starts, session_read_header-IsReady,
}
use bcp_concept_prototype.P2p.Body.{body_read_at, with_body, complete-body_closes}
use bcp_concept_prototype.P2p.Frames.{
  whole, frames, joined, left_over, joined-frames, left_over_ends,
}
use bcp_concept_prototype.P2p.Steps.{serve_ends, header_step, body_step, after, next_row}

pub headed :
    (bytes : List ℕ)
    → (leb header_size (length bytes) && valid (header_in bytes)) ≡ true
    → (header_size ≤ length bytes) × (valid (header_in bytes) ≡ true)
headed bytes h = ground arith

pub short :
    (bytes : List ℕ)
    → whole bytes ≡ false
    → (leb header_size (length bytes) && valid (header_in bytes)) ≡ true
    → length bytes < (header_in bytes).size
unfolding whole
short bytes n h = ground arith

pub whole-parts :
    (bytes : List ℕ)
    → whole bytes ≡ true
    → (header_size ≤ length bytes)
      × (valid (header_in bytes) ≡ true)
      × ((header_in bytes).size ≤ length bytes)
unfolding whole
whole-parts bytes h = ground arith

module _ (sockets : Sockets) (nowhere : Memory) (procedure : MessageProcedure sockets) where
  socket-with_body :
      (row : ℕ) (bytes : List ℕ) (s : P2pSession sockets)
      → (with_body sockets nowhere procedure row bytes s).socket ≡ s.socket
  unfolding received
  socket-with_body row bytes s = refl

  socket-session_read_header :
      (s : P2pSession sockets) → (session_read_header sockets nowhere s).session.socket ≡ s.socket
  unfolding session_read_header next_read_buffer
  socket-session_read_header s = refl

  -- What is not a whole message closes the session, and nothing is delivered.
  serve_not_whole :
      (fuel now row : ℕ) (bytes : List ℕ) (s : P2pSession sockets)
      → IsReady sockets nowhere procedure row s
      → sockets.is_open s.socket ≡ true
      → whole bytes ≡ false
      → delivered
          (serve sockets nowhere procedure (suc (suc fuel)) now (header_read_at row) bytes s)
        ≡ []
  serve_not_whole fuel now row bytes s ready o n =
      elim (Bool-cases (leb header_size (length bytes) && valid (header_in bytes))) [
        | inl h ↦
            let (l, v) = headed bytes h in
            header_step sockets nowhere procedure (suc fuel) now row bytes s ready o l v
            ∙ serve_ends sockets nowhere procedure fuel now
                (body_read_at row (payload_size (header_in bytes))) (drop header_size bytes)
                (with_header sockets nowhere procedure row bytes s)
                (complete-body_closes sockets nowhere procedure now row bytes s v (short bytes n h)
                  l)
        | inr h ↦ serve_ends sockets nowhere procedure (suc fuel) now (header_read_at row) bytes s (
            complete-header_closes sockets nowhere procedure now row bytes s ready (rw (o, h) refl))
      ]

  -- While onMessage leaves the socket open, a session that reads a header delivers exactly the
  -- messages that the bytes to come begin with, in their order, whatever its rows held: with fuel
  -- for two completions a message and two more to end, and nothing after sockets nowhere procedure the first bytes that
  -- are no message.
  pub serve-frames :
      (fuel now row : ℕ) (bytes : List ℕ) (s : P2pSession sockets)
      → IsReady sockets nowhere procedure row s
      → sockets.is_open s.socket ≡ true
      → ((m : Memory) (t : P2pSession sockets)
          → sockets.is_open t.socket ≡ true
          → sockets.is_open (procedure m t).socket ≡ true)
      → delivered (serve sockets nowhere procedure (fuel * 2) now (header_read_at row) bytes s)
        ≡ frames fuel bytes
  unfolding frames
  serve-frames zero now row bytes s ready o stays = unfold delivered serve in refl
  serve-frames (suc fuel) now row bytes s ready o stays =
      ap (λ k. delivered (serve sockets nowhere procedure k now (header_read_at row) bytes s))
        (twice fuel)
      ∙ elim (Bool-cases (whole bytes)) [
        | inl w ↦
            let (l, v, n) = whole-parts bytes w in
            let t = after sockets nowhere procedure row bytes s in
            rw w (
              header_step sockets nowhere procedure (suc (fuel * 2)) now row bytes s ready o l v
              ∙ body_step sockets nowhere procedure (fuel * 2) now row bytes s o v n
              ∙ ap (λ fs. take (header_in bytes).size bytes ∷ fs)
                  (serve-frames fuel now (next_row sockets nowhere procedure row bytes s)
                    (drop (header_in bytes).size bytes)
                    (session_read_header sockets nowhere t).session
                    (session_read_header-IsReady sockets nowhere procedure t)
                    (ap sockets.is_open (socket-session_read_header t)
                      ∙ stays _ _ (ap sockets.is_open (socket-with_body row bytes s) ∙ o))
                    stays))
        | inr w ↦ rw w (serve_not_whole (fuel * 2) now row bytes s ready o w)
      ]
    where
      twice : (n : ℕ) → suc n * 2 ≡ suc (suc (n * 2))
      twice n = omega arith

  served-start :
      (fuel now : ℕ) (bytes : List ℕ) (s : P2pSession sockets)
      → served sockets nowhere procedure fuel now bytes s
        ≡ serve sockets nowhere procedure fuel now
            (header_read_at ((s.read_ring.current_pos + 1) % read_rows))
            bytes
            (session_read_header sockets nowhere s).session
  unfolding served session_start pending
  served-start fuel now bytes s =
      let h = session_read_header sockets nowhere s in
      let go : List Call → List Call = (λ cs. elim (pending cs) [
        | none ↦ []
        | some r ↦ serve sockets nowhere procedure fuel now r bytes h.session
      ]) in
      ap go (session_read_header-starts sockets nowhere procedure s)

  pub served-frames :
      (fuel now : ℕ) (bytes : List ℕ) (s : P2pSession sockets)
      → sockets.is_open s.socket ≡ true
      → ((m : Memory) (t : P2pSession sockets)
          → sockets.is_open t.socket ≡ true
          → sockets.is_open (procedure m t).socket ≡ true)
      → delivered (served sockets nowhere procedure (fuel * 2) now bytes s) ≡ frames fuel bytes
  served-frames fuel now bytes s o stays =
      ap delivered (served-start (fuel * 2) now bytes s)
      ∙ serve-frames fuel now _ bytes (session_read_header sockets nowhere s).session
          (session_read_header-IsReady sockets nowhere procedure s)
          (ap sockets.is_open (socket-session_read_header s) ∙ o) stays

  -- While onMessage leaves the socket open, a session delivers from its start on exactly the
  -- messages that the bytes to come consist of, in their order, whatever its rows held: with fuel
  -- for two completions a byte, the messages and what is left over are all the bytes, and what is
  -- left over does not begin with a whole message with a valid header.
  pub served-all_frames :
      (now : ℕ) (bytes : List ℕ) (s : P2pSession sockets)
      → sockets.is_open s.socket ≡ true
      → ((m : Memory) (t : P2pSession sockets)
          → sockets.is_open t.socket ≡ true
          → sockets.is_open (procedure m t).socket ≡ true)
      → let n = length bytes in
        let messages = delivered (served sockets nowhere procedure (n * 2) now bytes s) in
        (messages ≡ frames n bytes)
        × (joined messages ++ left_over n bytes ≡ bytes)
        × (whole (left_over n bytes) ≡ false)
  served-all_frames now bytes s o stays =
      let n = length bytes in
      let e = served-frames n now bytes s o stays in
      (
        e,
        ap (λ ms. joined ms ++ left_over n bytes) e ∙ joined-frames n bytes,
        left_over_ends n bytes (omega arith),
      )
