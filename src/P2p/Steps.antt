-- ===== src/P2p/Steps.antt =====
-- tests/dev/p2p_server/p2p_server.cpp: the two completions that a message takes, of its header and
-- of its body.
use bcp_concept_prototype.Prelude.{
  ℕ, suc, ◌+◌, ◌%◌, ◌≤◌, ◌≡◌, refl, ap, ◌∙◌, true, some, List, [], ◌∷◌, ◌++◌, length, take, drop,
  arith,
}
use bcp_concept_prototype.Message.{header_size, valid, payload_size}
use bcp_concept_prototype.Message.Sizes.{payload_size-valid}
use bcp_concept_prototype.Stream.{slice}
use bcp_concept_prototype.Wire.Udp.{Memory, cast_message}
use bcp_concept_prototype.P2p.Socket.{
  Sockets, AsyncRead, Call, on_disconnected, on_message, starts_read,
}
use bcp_concept_prototype.P2p.Session.{P2pSession, MessageProcedure, read_rows}
use bcp_concept_prototype.P2p.Reading.{Handled, session_read_header, deliver}
use bcp_concept_prototype.P2p.Framing.{pending, delivered, wanted, complete, serve}
use bcp_concept_prototype.P2p.Row.{drop-drop}
use bcp_concept_prototype.P2p.Header.{
  header_in, header_read_at, IsReady, with_header, complete-header, session_read_header-starts,
}
use bcp_concept_prototype.P2p.Body.{
  body_read_at, wanted-body, with_body, message_in, slice-message_in, cast_message-message_in,
  session_read_body-starts, complete-body,
}

pub delivered-append : (a b : List Call) → delivered (a ++ b) ≡ delivered a ++ delivered b
unfolding delivered
delivered-append [] b = refl
delivered-append (on_message m ∷ a) b =
    ap (λ ms. slice m 0 (cast_message m).size ∷ ms) (delivered-append a b)
delivered-append (on_disconnected ∷ a) b = delivered-append a b
delivered-append (starts_read r ∷ a) b = delivered-append a b

module _ (sockets : Sockets) (nowhere : Memory) (procedure : MessageProcedure sockets) where
  -- A completion after which nothing is read is the last.
  pub serve_ends :
      (fuel now : ℕ) (r : AsyncRead) (bytes : List ℕ) (s : P2pSession sockets)
      → (complete sockets nowhere procedure now r bytes s).calls ≡ on_disconnected ∷ []
      → delivered (serve sockets nowhere procedure (suc fuel) now r bytes s) ≡ []
  unfolding serve pending delivered
  serve_ends fuel now r bytes s e = rw e refl

  -- A completion that starts a read goes on with it.
  pub serve_goes :
      (fuel now : ℕ) (r q : AsyncRead) (bytes : List ℕ) (s : P2pSession sockets)
      (h : Handled sockets nowhere)
      → complete sockets nowhere procedure now r bytes s ≡ h
      → pending h.calls ≡ some q
      → delivered (serve sockets nowhere procedure (suc fuel) now r bytes s)
        ≡ delivered h.calls
          ++ delivered
              (serve sockets nowhere procedure fuel now q (drop (wanted r) bytes) h.session)
  unfolding serve
  serve_goes fuel now r q bytes s h e p = rw (e, p, e) (delivered-append _ _)

  pending-deliver :
      (m : Memory) (s : P2pSession sockets)
      → pending (deliver sockets nowhere procedure m s).calls
        ≡ some (header_read_at (((procedure m s).read_ring.current_pos + 1) % read_rows))
  unfolding deliver pending
  pending-deliver m s =
      rw (session_read_header-starts sockets nowhere procedure (procedure m s)) refl

  delivered-deliver :
      (m : Memory) (s : P2pSession sockets)
      → delivered (deliver sockets nowhere procedure m s).calls
        ≡ slice m 0 (cast_message m).size ∷ []
  unfolding deliver delivered
  delivered-deliver m s =
      rw (session_read_header-starts sockets nowhere procedure (procedure m s)) refl

  session-deliver :
      (m : Memory) (s : P2pSession sockets)
      → (deliver sockets nowhere procedure m s).session
        ≡ (session_read_header sockets nowhere (procedure m s)).session
  unfolding deliver
  session-deliver m s = refl

  -- the session and its row after a message
  abbrev pub after : ℕ → List ℕ → P2pSession sockets → P2pSession sockets
  after row bytes s =
      procedure (message_in sockets nowhere procedure row bytes s)
        (with_body sockets nowhere procedure row bytes s)

  abbrev pub next_row : ℕ → List ℕ → P2pSession sockets → ℕ
  next_row row bytes s = ((after row bytes s).read_ring.current_pos + 1) % read_rows

  pub header_step :
      (fuel now row : ℕ) (bytes : List ℕ) (s : P2pSession sockets)
      → IsReady sockets nowhere procedure row s
      → sockets.is_open s.socket ≡ true
      → header_size ≤ length bytes
      → valid (header_in bytes) ≡ true
      → delivered (serve sockets nowhere procedure (suc fuel) now (header_read_at row) bytes s)
        ≡ delivered (
            serve sockets nowhere procedure fuel now
              (body_read_at row (payload_size (header_in bytes)))
              (drop header_size bytes)
              (with_header sockets nowhere procedure row bytes s))
  unfolding delivered
  header_step fuel now row bytes s ready o l v =
      serve_goes fuel now (header_read_at row) (body_read_at row (payload_size (header_in bytes)))
        bytes s _
        (complete-header sockets nowhere procedure now row bytes s ready o l v
          ∙ session_read_body-starts sockets nowhere procedure row bytes s l)
        (unfold pending in refl)

  pub body_step :
      (fuel now row : ℕ) (bytes : List ℕ) (s : P2pSession sockets)
      → sockets.is_open s.socket ≡ true
      → valid (header_in bytes) ≡ true
      → (header_in bytes).size ≤ length bytes
      → delivered (
          serve sockets nowhere procedure
            (suc fuel)
            now
            (body_read_at row (payload_size (header_in bytes)))
            (drop header_size bytes)
            (with_header sockets nowhere procedure row bytes s))
        ≡ take (header_in bytes).size bytes
          ∷ delivered (
              serve sockets nowhere procedure fuel now
                (header_read_at (next_row row bytes s))
                (drop (header_in bytes).size bytes)
                (session_read_header sockets nowhere (after row bytes s)).session)
  body_step fuel now row bytes s o v w =
      let (e, small) = payload_size-valid (header_in bytes) v in
      let msg = message_in sockets nowhere procedure row bytes s in
      let s' = with_body sockets nowhere procedure row bytes s in
      serve_goes fuel now (body_read_at row (payload_size (header_in bytes)))
        (header_read_at (next_row row bytes s)) (drop header_size bytes)
        (with_header sockets nowhere procedure row bytes s)
        (deliver sockets nowhere procedure msg s')
        (complete-body sockets nowhere procedure now row bytes s o v w) (pending-deliver msg s')
      ∙ rw
          (
            delivered-deliver msg s',
            cast_message-message_in sockets nowhere procedure row bytes s (omega (arith, e)),
            slice-message_in sockets nowhere procedure row bytes s v w,
            wanted-body row (payload_size (header_in bytes)) small,
            drop-drop header_size (payload_size (header_in bytes)) bytes,
            e,
            session-deliver msg s',
          )
          refl
