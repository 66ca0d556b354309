-- ===== src/P2p/Broadcast.antt =====
-- tests/dev/p2p_server/p2p_server.cpp: which sessions sendall() writes to.
use bcp_concept_prototype.Prelude.{ℕ, none, some, List, [], ◌∷◌, if◌then◌else◌}
use bcp_concept_prototype.Wire.Udp.{Memory}
use bcp_concept_prototype.P2p.Buffer.{length as ring_length}
use bcp_concept_prototype.P2p.Socket.{Sockets}
use bcp_concept_prototype.P2p.Server.{
  Effect, session_call, session_write, on_accept, starts_accept, Server,
}

-- the writes that are started, each the session and the number of bytes
unfoldable pub writes : List Effect → List (ℕ × ℕ)
writes [] = []
writes (session_write p (some w) ∷ es) = (p, w.exactly) ∷ writes es
writes (session_write p none ∷ es) = writes es
writes (session_call p c ∷ es) = writes es
writes (on_accept p ∷ es) = writes es
writes (starts_accept p ∷ es) = writes es

module _ (sockets : Sockets) (nowhere : Memory) where
  unfoldable pub active_writes : ℕ → List ℕ → Server sockets nowhere → List (ℕ × ℕ)
  active_writes len [] sv = []
  active_writes len (p ∷ ps) sv =
      let rest = active_writes len ps sv in if (sv.store p).active then (p, len) ∷ rest else rest
