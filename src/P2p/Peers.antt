-- ===== src/P2p/Peers.antt =====
-- tests/dev/p2p_server/peer.hpp, peer.cpp and p2p_server.cpp: class peer_info, class CPeer and the
-- peers of a server, which std::map keeps in the order of their ids. A text is the list of its
-- characters; a pointer to a session is a number.
use bcp_concept_prototype.Prelude.{
  ℕ, ◌≡◌, refl, Bool, true, false, not, ◌&&◌, ◌||◌, Option, none, some, List, [], ◌∷◌, ◌==◌, ltb,
  if◌then◌else◌, arith,
}
use bcp_concept_prototype.Wire.Udp.{Memory}
use bcp_concept_prototype.P2p.Socket.{Sockets}
use bcp_concept_prototype.P2p.Client.{P2pClient, connected, connect_to}

-- std::string::compare( text ) == 0, and < 0
unfoldable pub same_text : List ℕ → List ℕ → Bool
same_text [] [] = true
same_text [] (d ∷ ds) = false
same_text (c ∷ cs) [] = false
same_text (c ∷ cs) (d ∷ ds) = c == d && same_text cs ds

unfoldable pub text_before : List ℕ → List ℕ → Bool
text_before [] [] = false
text_before [] (d ∷ ds) = true
text_before (c ∷ cs) [] = false
text_before (c ∷ cs) (d ∷ ds) = ltb c d || (c == d && text_before cs ds)

pub same_text_refl : (s : List ℕ) → same_text s s ≡ true
unfolding same_text
same_text_refl [] = refl
same_text_refl (c ∷ cs) = ground (arith, same_text_refl cs)

pub same_text_path : (s t : List ℕ) → same_text s t ≡ true → s ≡ t
unfolding same_text
same_text_path [] [] e = refl
same_text_path [] (d ∷ ds) e = absurd (ground arith)
same_text_path (c ∷ cs) [] e = absurd (ground arith)
same_text_path (c ∷ cs) (d ∷ ds) e = ground (arith, same_text_path cs ds)

pub record PeerInfo : Type 0 where
  pub peer_id : List ℕ
  pub host : List ℕ
  pub port : ℕ

-- peer_info::operator==
unfoldable pub same_info : PeerInfo → PeerInfo → Bool
same_info a b =
    if not (same_text a.peer_id b.peer_id)
    then false
    else (if not (same_text a.host b.host)
        then false
        else (if not (a.port == b.port) then false else true))

module _ (sockets : Sockets) (nowhere : Memory) where
  pub record Peer : Type 0 where
    pub client : P2pClient sockets nowhere
    pub me : PeerInfo
    pub peer : PeerInfo
    pub session : Option ℕ

  -- CPeer( ios, peer, me ), with its client
  unfoldable pub new_peer : P2pClient sockets nowhere → PeerInfo → PeerInfo → Peer
  new_peer client peer me = record { client = client; me = me; peer = peer; session = none }

  -- peer_id(), session( session ) and compare( peer )
  unfoldable pub peer_id : Peer → List ℕ
  peer_id p = p.peer.peer_id

  unfoldable pub set_session : Option ℕ → Peer → Peer
  set_session session p = record p { session = session }

  unfoldable pub compare : PeerInfo → Peer → Bool
  compare info p = same_info p.peer info

  -- connect_peer(); none where connect( host, port ) throws
  unfoldable pub connect_peer : Peer → Peer × Option Bool
  connect_peer p =
      let (c, started) = connect_to sockets nowhere p.peer.host p.peer.port p.client in
      if connected sockets nowhere p.client
      then (p, some true)
      else (record p { client = c }, started)

  -- std::map< std::string, CPeer* >
  abbrev pub Peers : Type 0
  Peers = List (List ℕ × Peer)

  unfoldable pub find_peer : List ℕ → Peers → Option Peer
  find_peer id [] = none
  find_peer id ((key, p) ∷ ps) = if same_text id key then some p else find_peer id ps

  -- _peers.insert() of a new key
  unfoldable pub insert_peer : List ℕ → Peer → Peers → Peers
  insert_peer id p [] = (id, p) ∷ []
  insert_peer id p ((key, q) ∷ ps) =
      let rest = insert_peer id p ps in
      if text_before id key then (id, p) ∷ (key, q) ∷ ps else (key, q) ∷ rest

  -- append_peer( peer_id, host, port ), as the server has its own data
  unfoldable pub append_peer :
      P2pClient sockets nowhere → PeerInfo → PeerInfo → Peers → Peers × Bool
  append_peer client me info ps = elim (find_peer info.peer_id ps) [
    | some p ↦ (ps, false)
    | none ↦ (insert_peer info.peer_id (new_peer client info me) ps, true)
  ]

  -- what a pointer to a found peer is used to change
  unfoldable pub change_peer : List ℕ → Peer → Peers → Peers
  change_peer id p [] = []
  change_peer id p ((key, q) ∷ ps) =
      let rest = change_peer id p ps in if same_text id key then (key, p) ∷ ps else (key, q) ∷ rest

  -- connect_to_peer(); none where it throws
  unfoldable pub connect_to_peer : Peer → Peer × Option Bool
  connect_to_peer p = if connected sockets nowhere p.client then (p, some false) else connect_peer p

  -- connect_to_peers(): the first that throws ends it
  unfoldable pub connect_to_peers : Peers → Peers × Bool
  connect_to_peers [] = ([], true)
  connect_to_peers ((key, p) ∷ ps) =
      let (q, started) = connect_to_peer p in
      let (rest, ok) = connect_to_peers ps in
      elim started [ none ↦ ((key, q) ∷ ps, false) | some b ↦ ((key, q) ∷ rest, ok) ]
