-- ===== src/P2p/Start.antt =====
-- tests/dev/p2p_server/p2p_server.cpp: start_server() and stop_server(). The acceptor, the threads
-- and the clock of the network are a parameter.
use bcp_concept_prototype.Prelude.{
  ℕ, zero, suc, Bool, true, false, Option, none, List, if◌then◌else◌,
}
use bcp_concept_prototype.Wire.Udp.{Memory}
use bcp_concept_prototype.P2p.Socket.{Sockets}
use bcp_concept_prototype.P2p.Server.{Server, accept}
use bcp_concept_prototype.P2p.Peers.{PeerInfo}

-- The Bool of open() and bind() tells whether there is no error, that of the others whether the
-- call has returned, not thrown.
pub record Acceptor : Type 1 where
  pub World : Type 0
  pub acceptor_open : ℕ → World → World × Bool
  pub set_option : World → World × Bool
  pub bind : ℕ → World → World × Bool
  pub listen : World → World × Bool
  pub run_thread : World → World × Bool
  pub sync : World → World × Bool
  pub stop_service : World → World
  pub join_thread : World → World × Bool

module _ (sockets : Sockets) (nowhere : Memory) (acceptor : Acceptor) where
  -- a server with its own data, its port and its threads
  pub record Host : Type 0 where
    pub server : Server sockets nowhere
    pub me : PeerInfo
    pub local_port : ℕ
    pub io_threads : ℕ
    pub world : acceptor.World

  -- the loop that runs the threads
  unfoldable pub run_threads : ℕ → Host → Host × Bool
  run_threads zero h = (h, true)
  run_threads (suc n) h =
      let (w, ok) = acceptor.run_thread h.world in
      let rest = run_threads n (record h { world = w; io_threads = suc h.io_threads }) in
      if ok then rest else (record h { world = w }, false)

  -- from accept() on
  unfoldable pub run_server : (ℕ → Memory) → ℕ → Host → Host × Bool
  run_server rows io_thread_cnt h =
      let waiting : Host = record h { server = (accept sockets nowhere rows h.server).server } in
      let (running, ok) = run_threads io_thread_cnt waiting in
      let (w, done) = acceptor.sync running.world in
      if ok then (record running { world = w }, done) else (running, false)

  -- return false, unless a call has gone well
  unfoldable pub unless : Bool → Host → Host × Bool → Host × Bool
  unless ok failed next = if ok then next else (failed, false)

  -- start_server( node_id, host, port, io_thread_cnt )
  unfoldable pub start_server : (ℕ → Memory) → List ℕ → List ℕ → ℕ → ℕ → Host → Host × Bool
  start_server rows node_id host port io_thread_cnt h =
      let h : Host = record h {
        me = record { peer_id = node_id; host = host; port = port };
        local_port = port;
      } in
      let (w1, opened) = acceptor.acceptor_open port h.world in
      let (w2, set) = acceptor.set_option w1 in
      let (w3, bound) = acceptor.bind port w2 in
      let (w4, listens) = acceptor.listen w3 in
      unless opened (record h { world = w1 })
        (unless set (record h { world = w2 })
          (unless bound (record h { world = w3 })
            (unless listens (record h { world = w4 })
              (run_server rows io_thread_cnt (record h { world = w4 })))))

  unfoldable pub join_threads : ℕ → acceptor.World → acceptor.World × Bool
  join_threads zero w = (w, true)
  join_threads (suc n) w =
      let (w', ok) = acceptor.join_thread w in
      let rest = join_threads n w' in if ok then rest else (w', false)

  -- stop_server(), with the session that it deletes
  unfoldable pub stop_server : Host → (Host × Option ℕ) × Bool
  stop_server h =
      let (w, ok) = join_threads h.io_threads (acceptor.stop_service h.world) in
      if ok
      then (
        (
          record h { world = w; server = record h.server { accept_session = none } },
          h.server.accept_session,
        ),
        true,
      )
      else ((record h { world = w }, none), false)
