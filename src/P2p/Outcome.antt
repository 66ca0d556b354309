-- ===== src/P2p/Outcome.antt =====
-- tests/dev/p2p_server/node_server.cpp: what a node has done once onPeerMessagePeerNotify() has
-- answered, told by its peers, its sessions and their sockets.
use mathlib.Core.Bool.{true≢false}
use bcp_concept_prototype.Prelude.{
  ℕ, ◌≡◌, ◌≢◌, refl, sym, ap, ◌∙◌, true, false, none, some, List, [], ◌∷◌, arith, ◌==◌,
  if◌then◌else◌, Bool-cases, ◌⊎◌, inl, inr,
}
use bcp_concept_prototype.Wire.Udp.{Memory}
use bcp_concept_prototype.P2p.Socket.{Sockets, on_disconnected}
use bcp_concept_prototype.P2p.Session.{P2pSession, set_active, close}
use bcp_concept_prototype.P2p.Reading.{close_session}
use bcp_concept_prototype.P2p.Client.{P2pClient, connected, connect, connect_to}
use bcp_concept_prototype.P2p.Server.{session_call, on_session, change}
use bcp_concept_prototype.P2p.Peers.{
  same_text, same_text_refl, same_text_path, PeerInfo, same_info, Peer, Peers, compare, set_session,
  connect_peer, find_peer, change_peer,
}
use bcp_concept_prototype.P2p.Node.{Node, Answered, refused, welcomed}

same_info_refl : (a : PeerInfo) → same_info a a ≡ true
unfolding same_info
same_info_refl a = rw (same_info, same_text_refl a.peer_id, same_text_refl a.host) (ground arith)

same_info_path : (a b : PeerInfo) → same_info a b ≡ true → a ≡ b
unfolding same_info
same_info_path a b e =
    let i : a.peer_id ≡ b.peer_id = same_text_path a.peer_id b.peer_id (ground arith) in
    let h : a.host ≡ b.host = same_text_path a.host b.host (ground arith) in
    let p : a.port ≡ b.port = ground arith in cc

module _ (sockets : Sockets) (nowhere stack : Memory) where
  -- The socket of a session that is closed: an open one is shut down, and closed if that has not
  -- thrown.
  abbrev pub closed_socket : sockets.Socket → sockets.Socket
  closed_socket socket =
      let (down, ok) = sockets.shutdown socket in
      if sockets.is_open socket then (if ok then (sockets.close down).0 else down) else socket

  -- The session `p` is closed at the time `now`, and the node has not changed otherwise.
  pub record IsRefused (now p result : ℕ) (n : Node sockets nowhere stack)
      (a : Answered sockets nowhere stack) : Type 0 where
    pub peers : a.node.peers ≡ n.peers
    pub inactive : (a.node.server.store p).active ≡ false
    pub closed : (a.node.server.store p).closed ≡ now
    pub socket : (a.node.server.store p).socket ≡ closed_socket (n.server.store p).socket
    pub others : (j : ℕ) → (j == p) ≡ false → a.node.server.store j ≡ n.server.store j
    pub told : a.effects ≡ session_call p on_disconnected ∷ []
    pub returns : a.result ≡ result

  -- The client of a peer that is connected to, unless it is connected or its host is no address.
  abbrev pub dialled : PeerInfo → P2pClient sockets nowhere → P2pClient sockets nowhere
  dialled info c =
      if connected sockets nowhere c
      then c
      else if sockets.is_address info.host
      then record c {
        remote_endpoint = some (info.host, info.port);
        socket = sockets.async_connect c.socket;
      }
      else c

  -- The peer under the id has the session `p` and its client is connected to the host and port of
  -- `info`, and the node has not changed otherwise.
  pub record IsWelcomed (p : ℕ) (info : PeerInfo) (q : Peer sockets nowhere)
      (n : Node sockets nowhere stack) (a : Answered sockets nowhere stack) : Type 0 where
    pub found :
        find_peer sockets nowhere info.peer_id a.node.peers
        ≡ some (record q { session = some p; client = dialled info q.client })
    pub others :
        (key : List ℕ)
        → same_text key info.peer_id ≡ false
        → find_peer sockets nowhere key a.node.peers ≡ find_peer sockets nowhere key n.peers
    pub server : a.node.server ≡ n.server
    pub told : a.effects ≡ []
    pub returns : a.result ≡ 0

  -- The three answers to the data of a peer: there is no peer of its id, the peer of this id has
  -- the same data, or it has other data.
  abbrev pub Outcome :
      ℕ → ℕ → PeerInfo → Node sockets nowhere stack → Answered sockets nowhere stack → Type 0
  Outcome now p info n a =
      ((find_peer sockets nowhere info.peer_id n.peers ≡ none) × IsRefused now p 1 n a)
      ⊎ ((q : Peer sockets nowhere) × (find_peer sockets nowhere info.peer_id n.peers ≡ some q)
          × (((q.peer ≡ info) × IsWelcomed p info q n a)
              ⊎ ((q.peer ≢ info) × IsRefused now p 2 n a)))

  close-closed :
      (now : ℕ) (s : P2pSession sockets)
      → let t = (close sockets now s).0 in
        (t.active ≡ false) × (t.closed ≡ now) × (t.socket ≡ closed_socket s.socket)
  unfolding close set_active
  close-closed now s = ground arith

  pub refused-IsRefused :
      (now p result : ℕ) (n : Node sockets nowhere stack)
      → IsRefused now p result n (refused sockets nowhere stack now p result n)
  unfolding refused on_session close_session change
  refused-IsRefused now p result n =
      let (inactive, closed, socket) = close-closed now (n.server.store p) in
      record {
        peers = refl;
        inactive = ground arith;
        closed = ground arith;
        socket = ground arith;
        others = λ j e. ground arith;
        told = refl;
        returns = refl;
      }

  find_peer-other :
      (id key : List ℕ) (p : Peer sockets nowhere) (ps : Peers sockets nowhere)
      → same_text key id ≡ false
      → find_peer sockets nowhere key (change_peer sockets nowhere id p ps)
        ≡ find_peer sockets nowhere key ps
  unfolding find_peer change_peer
  find_peer-other id key p [] e = refl
  find_peer-other id key p ((k, r) ∷ ps) e = elim (Bool-cases (same_text id k)) [
    | inl s ↦
        let b : same_text key k ≡ false = ap (same_text key) (sym (same_text_path id k s)) ∙ e in
        ground (arith, find_peer-other id key p ps)
    | inr n ↦ ground (arith, find_peer-other id key p ps)
  ]

  find_peer-this :
      (id : List ℕ) (p q : Peer sockets nowhere) (ps : Peers sockets nowhere)
      → find_peer sockets nowhere id ps ≡ some q
      → find_peer sockets nowhere id (change_peer sockets nowhere id p ps) ≡ some p
  unfolding find_peer change_peer
  find_peer-this id p q [] h = absurd (ground arith)
  find_peer-this id p q ((k, r) ∷ ps) h = ground (arith, find_peer-this id p q ps)

  connect_peer-client :
      (q : Peer sockets nowhere)
      → (connect_peer sockets nowhere q).0 ≡ record q { client = dialled q.peer q.client }
  unfolding connect_peer connect_to connect connected
  connect_peer-client q = ground arith

  pub welcomed-IsWelcomed :
      (p : ℕ) (info : PeerInfo) (q : Peer sockets nowhere) (n : Node sockets nowhere stack)
      → find_peer sockets nowhere info.peer_id n.peers ≡ some q
      → q.peer ≡ info
      → IsWelcomed p info q n (welcomed sockets nowhere stack p info.peer_id q n)
  unfolding welcomed set_session
  welcomed-IsWelcomed p info q n e same =
      let given : Peer sockets nowhere = record q { session = some p } in
      let c : (connect_peer sockets nowhere given).0
          ≡ record q { session = some p; client = dialled info q.client } =
        connect_peer-client given
        ∙ ap
            (λ i.
              let r : Peer sockets nowhere = record q {
                session = some p;
                client = dialled i q.client;
              } in
              r)
            same in
      record {
        found = find_peer-this info.peer_id _ q n.peers e ∙ ap some c;
        others = λ key f. find_peer-other info.peer_id key _ n.peers f;
        server = refl;
        told = refl;
        returns = refl;
      }

  pub same_info-cases :
      (info : PeerInfo) (q : Peer sockets nowhere)
      → ((compare sockets nowhere info q ≡ true) × (q.peer ≡ info))
        ⊎ ((compare sockets nowhere info q ≡ false) × (q.peer ≢ info))
  unfolding compare
  same_info-cases info q = elim (Bool-cases (same_info q.peer info)) [
    | inl e ↦ inl (e, same_info_path q.peer info e)
    | inr e ↦
        inr (e, λ same. true≢false (sym (same_info_refl q.peer) ∙ ap (same_info q.peer) same ∙ e))
  ]
