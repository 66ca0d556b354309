-- ===== src/P2p/ClientFraming.antt =====
-- tests/dev/p2p_server/p2p_client.cpp: a client under the completions of boost::asio, as P2p/Framing
-- has them for a session.
use bcp_concept_prototype.Prelude.{
  ℕ, zero, suc, Bool, not, ◌&&◌, none, some, List, [], ◌++◌, leb, length, take, drop, if◌then◌else◌,
}
use bcp_concept_prototype.Wire.Udp.{Memory}
use bcp_concept_prototype.P2p.Buffer.{fill}
use bcp_concept_prototype.P2p.Socket.{Sockets, AsyncRead, Completion, header_read, body_read, Call}
use bcp_concept_prototype.P2p.Client.{
  P2pClient, ClientHandled, do_read, handle_read_header, handle_read_body,
}
use bcp_concept_prototype.P2p.Framing.{pending, wanted}

-- what onReceived makes of a message and its client
abbrev pub Receiver : Sockets → Memory → Type 0
Receiver sockets nowhere = Memory → P2pClient sockets nowhere → P2pClient sockets nowhere

module _ (sockets : Sockets) (nowhere : Memory) (on_received : Receiver sockets nowhere) where
  unfoldable pub client_received :
      AsyncRead → List ℕ → P2pClient sockets nowhere → P2pClient sockets nowhere
  client_received r bytes c = elim r.row [
    | none ↦ c
    | some row ↦ record c { read_ring = fill row r.offset bytes c.read_ring }
  ]

  unfoldable pub client_completed :
      Completion → Bool → ℕ → P2pClient sockets nowhere → ClientHandled sockets nowhere
  client_completed header_read error n c = handle_read_header sockets nowhere error n c
  client_completed (body_read header) error n c =
      handle_read_body sockets nowhere on_received error n header c

  unfoldable pub client_complete :
      AsyncRead → List ℕ → P2pClient sockets nowhere → ClientHandled sockets nowhere
  client_complete r bytes c =
      let opened = sockets.is_open c.socket in
      let arrived : List ℕ = if opened then take (wanted r) bytes else [] in
      client_completed r.completion (not (opened && leb (wanted r) (length bytes))) (length arrived)
        (client_received r arrived c)

  -- All that the handlers do from a pending read on; the fuel counts completions.
  unfoldable pub client_serve : ℕ → AsyncRead → List ℕ → P2pClient sockets nowhere → List Call
  client_serve zero r bytes c = []
  client_serve (suc fuel) r bytes c =
      let h = client_complete r bytes c in
      h.calls ++ elim (pending h.calls) [
        | none ↦ []
        | some q ↦ client_serve fuel q (drop (wanted r) bytes) h.client
      ]

  -- the same from do_read() on
  unfoldable pub client_served : ℕ → List ℕ → P2pClient sockets nowhere → List Call
  client_served fuel bytes c =
      let h = do_read sockets nowhere c in
      elim (pending h.calls) [ none ↦ [] | some r ↦ client_serve fuel r bytes h.client ]
