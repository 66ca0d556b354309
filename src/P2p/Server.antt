-- ===== src/P2p/Server.antt =====
-- tests/dev/p2p_server/p2p_server.cpp: the sessions of class p2p_server. A session that new has
-- made is found under its pointer, a number; _sessions holds pointers, each owned by it. The
-- threads, and the acceptor's own calls, are left out.
use bcp_concept_prototype.Prelude.{
  ℕ, suc, Bool, true, not, Option, some, List, [], ◌∷◌, ◌++◌, ◌==◌, map, if◌then◌else◌,
}
use bcp_concept_prototype.Wire.Udp.{Memory, cast_message}
use bcp_concept_prototype.P2p.Socket.{Sockets, AsyncWrite, Call}
use bcp_concept_prototype.P2p.Session.{P2pSession, p2p_session, set_active, expired, write}
use bcp_concept_prototype.P2p.Reading.{Handled, close_session, session_start}

-- What a method of the server does, in order.
pub data Effect : Type 0 where
  session_call : ℕ → Call → Effect
  session_write : ℕ → Option AsyncWrite → Effect
  on_accept : ℕ → Effect
  starts_accept : ℕ → Effect

module _ (sockets : Sockets) (nowhere : Memory) where
  pub record Server : Type 0 where
    pub accept_session : Option ℕ
    pub sessions : List ℕ
    pub store : ℕ → P2pSession sockets
    pub next_pointer : ℕ

  pub record Done : Type 0 where
    pub server : Server
    pub effects : List Effect
    pub returned : Bool

  unfoldable pub change : ℕ → P2pSession sockets → Server → Server
  change p s sv = record sv { store = λ q. if q == p then s else sv.store q }

  -- a handler of one session
  unfoldable pub on_session : ℕ → Handled sockets nowhere → Server → Done
  on_session p h sv = record {
    server = change p h.session sv;
    effects = map (session_call p) h.calls;
    returned = h.returned;
  }

  -- What follows, unless an exception has been thrown.
  unfoldable pub and_then : Done → (Server → Done) → Done
  and_then d next =
      let e = next d.server in
      if d.returned then record e { effects = d.effects ++ e.effects } else d

  -- new_session(), with what the rows of the new session hold
  unfoldable pub new_session : (ℕ → Memory) → Server → Server × ℕ
  new_session rows sv = (
    record (change sv.next_pointer (p2p_session sockets rows rows) sv) {
      next_pointer = suc sv.next_pointer;
    },
    sv.next_pointer,
  )

  unfoldable pub accept : (ℕ → Memory) → Server → Done
  accept rows sv =
      let (sv', p) = new_session rows sv in
      record {
        server = record sv' { accept_session = some p };
        effects = starts_accept p ∷ [];
        returned = true;
      }

  -- handle_accept() as far as the next accept(); onAccept only logs
  unfoldable pub accepted : ℕ → ℕ → Bool → Server → Done
  accepted now p error sv =
      let listed : Server = record (change p (set_active sockets true (sv.store p)) sv) {
        sessions = sv.sessions ++ (p ∷ []);
      } in
      let d = on_session p (session_start sockets nowhere (listed.store p)) listed in
      if not error
      then record d { effects = d.effects ++ (on_accept p ∷ []) }
      else on_session p (close_session sockets nowhere now (sv.store p)) sv

  unfoldable pub handle_accept : ℕ → (ℕ → Memory) → ℕ → Bool → Server → Done
  handle_accept now rows p error sv = and_then (accepted now p error sv) (accept rows)

  -- remove_session_if( expired )
  unfoldable pub kept_sessions : ℕ → ℕ → (ℕ → P2pSession sockets) → List ℕ → List ℕ
  kept_sessions now timeout store [] = []
  kept_sessions now timeout store (p ∷ ps) =
      let rest = kept_sessions now timeout store ps in
      if expired sockets now timeout (store p) then rest else p ∷ rest

  unfoldable pub remove_session_if : ℕ → ℕ → Server → Server
  remove_session_if now timeout sv = record sv {
    sessions = kept_sessions now timeout sv.store sv.sessions;
  }

  -- sendto( session, data, len ), and of a message
  unfoldable pub sendto : ℕ → Memory → ℕ → Server → Done
  sendto p data_ len sv =
      let ((s, started), ok) = write sockets (some data_) len (sv.store p) in
      record { server = change p s sv; effects = session_write p started ∷ []; returned = true }

  unfoldable pub sendto_message : ℕ → Memory → Server → Done
  sendto_message p msg sv = sendto p msg (cast_message msg).size sv

  -- sendall( data, len ): the loop over the sessions
  unfoldable pub send_each : List ℕ → Memory → ℕ → Server → Done
  send_each [] data_ len sv = record { server = sv; effects = []; returned = true }
  send_each (p ∷ ps) data_ len sv =
      let d : Done =
        (if (sv.store p).active
          then sendto p data_ len sv
          else record { server = sv; effects = []; returned = true }) in
      let rest = send_each ps data_ len d.server in
      record rest { effects = d.effects ++ rest.effects }

  unfoldable pub sendall : Memory → ℕ → Server → Done
  sendall data_ len sv = send_each sv.sessions data_ len sv

  unfoldable pub sendall_message : Memory → Server → Done
  sendall_message msg sv = sendall msg (cast_message msg).size sv
