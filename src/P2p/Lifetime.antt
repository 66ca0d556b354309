-- ===== src/P2p/Lifetime.antt =====
-- tests/dev/p2p_server/p2p_server.cpp: the sessions of a server from its start to its stop.
use bcp_concept_prototype.Prelude.{
  ℕ, zero, suc, ◌≡◌, refl, sym, ap, ◌∙◌, Bool, true, false, none, some, List, [], ◌∷◌, Bool-cases,
  inl, inr, if◌then◌else◌,
}
use mathlib.Core.Bool.{true≢false}
use bcp_concept_prototype.Wire.Udp.{Memory}
use bcp_concept_prototype.P2p.Socket.{Sockets}
use bcp_concept_prototype.P2p.Session.{P2pSession, set_active, close}
use bcp_concept_prototype.P2p.Reading.{close_session, session_start, session_read_header}
use bcp_concept_prototype.P2p.Server.{Server, accept, accepted, and_then, on_session, handle_accept}
use bcp_concept_prototype.P2p.Owners.{IsOwned, accept-IsOwned, handle_accept-IsOwned}
use bcp_concept_prototype.P2p.Start.{
  Acceptor, Host, run_threads, run_server, unless, start_server, join_threads, stop_server,
}

-- No call of a socket throws.
pub record IsQuiet (sockets : Sockets) : Type 0 where
  pub shutdown_returns : (k : sockets.Socket) → (sockets.shutdown k).1 ≡ true
  pub close_returns : (k : sockets.Socket) → (sockets.close k).1 ≡ true

module _ (sockets : Sockets) (nowhere : Memory) where
  -- the completions of accept() with their errors, at these times; what a new session's rows hold
  -- is given
  unfoldable pub accepts :
      (ℕ → Memory) → List (ℕ × Bool) → Server sockets nowhere → Server sockets nowhere
  accepts rows [] sv = sv
  accepts rows ((now, error) ∷ es) sv = elim sv.accept_session [
    | none ↦ sv
    | some p ↦ accepts rows es (handle_accept sockets nowhere now rows p error sv).server
  ]

  close-returns :
      (now : ℕ) (s : P2pSession sockets) → IsQuiet sockets → (close sockets now s).1 ≡ true
  unfolding close set_active
  close-returns now s q = elim (Bool-cases (sockets.is_open s.socket)) [
    | inl o ↦
        rw (close, o, q.shutdown_returns s.socket) (q.close_returns (sockets.shutdown s.socket).0)
    | inr o ↦ rw (close, o) refl
  ]

  handle_accept-returns :
      (now : ℕ) (rows : ℕ → Memory) (p : ℕ) (error : Bool) (sv : Server sockets nowhere)
      → IsQuiet sockets
      → (handle_accept sockets nowhere now rows p error sv).returned ≡ true
  unfolding handle_accept accepted and_then on_session accept close_session
  handle_accept-returns now rows p true sv q = rw (close-returns now (sv.store p) q) refl
  handle_accept-returns now rows p false sv q = unfold session_start session_read_header in refl

  accepts-IsOwned :
      (rows : ℕ → Memory) (es : List (ℕ × Bool)) (p : ℕ) (sv : Server sockets nowhere)
      → IsQuiet sockets
      → IsOwned sockets nowhere p sv
      → (r : ℕ) × IsOwned sockets nowhere r (accepts rows es sv)
  unfolding accepts
  accepts-IsOwned rows [] p sv q v = (p, v)
  accepts-IsOwned rows ((now, error) ∷ es) p sv q v =
      rw (accepts, v.pending)
        (accepts-IsOwned rows es sv.next_pointer
          (handle_accept sockets nowhere now rows p error sv).server q
          (handle_accept-IsOwned sockets nowhere now rows p error sv v
            (handle_accept-returns now rows p error sv q)).0)

module _ (sockets : Sockets) (nowhere : Memory) (acceptor : Acceptor) where
  server-run_threads :
      (n : ℕ) (h : Host sockets nowhere acceptor)
      → (run_threads sockets nowhere acceptor n h).0.server ≡ h.server
  unfolding run_threads
  server-run_threads zero h = refl
  server-run_threads (suc n) h = elim (Bool-cases (acceptor.run_thread h.world).1) [
    | inl ok ↦ rw (run_threads, ok) (server-run_threads n _)
    | inr bad ↦ rw (run_threads, bad) refl
  ]

  server-run_server :
      (rows : ℕ → Memory) (n : ℕ) (h : Host sockets nowhere acceptor)
      → (run_server sockets nowhere acceptor rows n h).0.server
        ≡ (accept sockets nowhere rows h.server).server
  unfolding run_server
  server-run_server rows n h =
      let waiting : Host sockets nowhere acceptor = record h {
        server = (accept sockets nowhere rows h.server).server;
      } in
      elim (Bool-cases (run_threads sockets nowhere acceptor n waiting).1) [
        | inl ok ↦ rw (run_server, ok) (server-run_threads n waiting)
        | inr bad ↦ rw (run_server, bad) (server-run_threads n waiting)
      ]

  unless-goes :
      (ok : Bool) (failed : Host sockets nowhere acceptor)
      (next : Host sockets nowhere acceptor × Bool)
      → (unless sockets nowhere acceptor ok failed next).1 ≡ true
      → unless sockets nowhere acceptor ok failed next ≡ next
  unfolding unless
  unless-goes true failed next r = refl
  unless-goes false failed next r = absurd (true≢false (sym r))

  stop_server-deletes :
      (h : Host sockets nowhere acceptor) (p : ℕ)
      → h.server.accept_session ≡ some p
      → let stopped = stop_server sockets nowhere acceptor h in
        stopped.0.1 ≡ (if stopped.1 then some p else none)
  unfolding stop_server
  stop_server-deletes h p e =
      elim (Bool-cases
        (join_threads sockets nowhere acceptor h.io_threads (acceptor.stop_service h.world)).1) [
          | inl ok ↦ rw (stop_server, ok) e
          | inr bad ↦ rw (stop_server, bad) refl
        ]

  server-start_server :
      (rows : ℕ → Memory) (node_id host : List ℕ) (port n : ℕ) (h : Host sockets nowhere acceptor)
      → (start_server sockets nowhere acceptor rows node_id host port n h).1 ≡ true
      → (start_server sockets nowhere acceptor rows node_id host port n h).0.server
        ≡ (accept sockets nowhere rows h.server).server
  unfolding start_server
  server-start_server rows node_id host port n h r =
      let opened = acceptor.acceptor_open port h.world in
      let set = acceptor.set_option opened.0 in
      let bound = acceptor.bind port set.0 in
      let a = unless-goes opened.1 _ _ r in
      let b = unless-goes set.1 _ _ (sym (ap (λ d. d.1) a) ∙ r) in
      let c = unless-goes bound.1 _ _ (sym (ap (λ d. d.1) (a ∙ b)) ∙ r) in
      let d = unless-goes (acceptor.listen bound.0).1 _ _ (sym (ap (λ d. d.1) (a ∙ b ∙ c)) ∙ r) in
      ap (λ d. d.0.server) (a ∙ b ∙ c ∙ d) ∙ server-run_server rows n _

  -- From a start_server() that returns true on a server without sessions, through any completions of
  -- accept(), while no socket throws, to a stop_server(): the server waits for one session, every
  -- session in its list is there once, and the session that stop_server() deletes, if it returns
  -- true, is the one that is waited for, which the list does not own.
  pub stop_server-accepts :
      (rows : ℕ → Memory) (node_id host : List ℕ) (port n : ℕ) (es : List (ℕ × Bool))
      (h : Host sockets nowhere acceptor)
      → IsQuiet sockets
      → h.server.sessions ≡ []
      → (start_server sockets nowhere acceptor rows node_id host port n h).1 ≡ true
      → let started = (start_server sockets nowhere acceptor rows node_id host port n h).0 in
        let sv = accepts sockets nowhere rows es started.server in
        let stopped = stop_server sockets nowhere acceptor (record started { server = sv }) in
        (p : ℕ) × IsOwned sockets nowhere p sv
        × (stopped.0.1 ≡ (if stopped.1 then some p else none))
  stop_server-accepts rows node_id host port n es h q e r =
      let started = (start_server sockets nowhere acceptor rows node_id host port n h).0 in
      let sv = accepts sockets nowhere rows es started.server in
      let first : IsOwned sockets nowhere h.server.next_pointer started.server =
        rw (server-start_server rows node_id host port n h r)
          (accept-IsOwned sockets nowhere rows h.server (rw e tt) (rw e tt)) in
      let (p, v) =
        accepts-IsOwned sockets nowhere rows es h.server.next_pointer started.server q first in
      (p, v, stop_server-deletes (record started { server = sv }) p v.pending)
