-- ===== src/P2p/Registry.antt =====
-- tests/dev/p2p_server/p2p_server.cpp: find_peer() after append_peer().
use bcp_concept_prototype.P2p.Peers.{Peers}
