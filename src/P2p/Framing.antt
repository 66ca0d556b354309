-- ===== src/P2p/Framing.antt =====
-- tests/dev/p2p_server/p2p_server.cpp: a session under the completions of boost::asio. A read of
-- an open socket completes once the bytes that it asks for have come, with them in its row, and
-- fails where the connection ends before; a read of a closed socket fails.
use bcp_concept_prototype.Prelude.{
  ℕ, zero, suc, Bool, not, ◌&&◌, Option, none, some, List, [], ◌∷◌, ◌++◌, leb, length, take, drop,
  if◌then◌else◌,
}
use bcp_concept_prototype.Stream.{slice, min}
use bcp_concept_prototype.Wire.Udp.{Memory, cast_message}
use bcp_concept_prototype.P2p.Buffer.{fill}
use bcp_concept_prototype.P2p.Socket.{
  Sockets, AsyncRead, Completion, header_read, body_read, Call, on_disconnected, on_message,
  starts_read,
}
use bcp_concept_prototype.P2p.Session.{P2pSession, MessageProcedure}
use bcp_concept_prototype.P2p.Reading.{
  Handled, session_start, handle_session_read_header, handle_session_read_body,
}

-- the read that is started last
unfoldable pub pending : List Call → Option AsyncRead
pending [] = none
pending (starts_read r ∷ cs) = elim (pending cs) [ none ↦ some r | some q ↦ some q ]
pending (on_disconnected ∷ cs) = pending cs
pending (on_message m ∷ cs) = pending cs

-- the messages that onMessage is called with, each the bytes of its size
unfoldable pub delivered : List Call → List (List ℕ)
delivered [] = []
delivered (on_message m ∷ cs) = slice m 0 (cast_message m).size ∷ delivered cs
delivered (on_disconnected ∷ cs) = delivered cs
delivered (starts_read r ∷ cs) = delivered cs

abbrev pub wanted : AsyncRead → ℕ
wanted r = min r.exactly r.room

module _ (sockets : Sockets) (nowhere : Memory) (procedure : MessageProcedure sockets) where
  unfoldable pub received : AsyncRead → List ℕ → P2pSession sockets → P2pSession sockets
  received r bytes s = elim r.row [
    | none ↦ s
    | some row ↦ record s { read_ring = fill row r.offset bytes s.read_ring }
  ]

  unfoldable pub completed :
      ℕ → Completion → Bool → ℕ → P2pSession sockets → Handled sockets nowhere
  completed now header_read error n s = handle_session_read_header sockets nowhere now error n s
  completed now (body_read header) error n s =
      handle_session_read_body sockets nowhere procedure now header error n s

  -- one completion, as the bytes still to come are these
  unfoldable pub complete : ℕ → AsyncRead → List ℕ → P2pSession sockets → Handled sockets nowhere
  complete now r bytes s =
      let opened = sockets.is_open s.socket in
      let arrived : List ℕ = if opened then take (wanted r) bytes else [] in
      completed now r.completion (not (opened && leb (wanted r) (length bytes))) (length arrived)
        (received r arrived s)

  -- All that the handlers do from a pending read on; the fuel counts completions.
  unfoldable pub serve : ℕ → ℕ → AsyncRead → List ℕ → P2pSession sockets → List Call
  serve zero now r bytes s = []
  serve (suc fuel) now r bytes s =
      let h = complete now r bytes s in
      h.calls ++ elim (pending h.calls) [
        | none ↦ []
        | some q ↦ serve fuel now q (drop (wanted r) bytes) h.session
      ]

  -- the same from session_start() on
  unfoldable pub served : ℕ → ℕ → List ℕ → P2pSession sockets → List Call
  served fuel now bytes s =
      let h = session_start sockets nowhere s in
      elim (pending h.calls) [ none ↦ [] | some r ↦ serve fuel now r bytes h.session ]
