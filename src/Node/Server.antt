-- ===== src/Node/Server.antt =====
-- tests/dev/node-server-mono/node_server.cpp: the callbacks of the consensus server, block creation
-- and main(); node_manager.cpp: start(), stop() and one pass of main().
use bcp_concept_prototype.Prelude.{
  ℕ, ◌+◌, ◌-◌, ◌%◌, ◌^◌, Bool, true, false, Option, none, some, if◌then◌else◌,
}
use bcp_concept_prototype.Core.{Core, Chain}
use bcp_concept_prototype.Bcp.{
  BcpServer, clear_intermediate_data, set_candidate_block, set_my_vote, start,
}
use bcp_concept_prototype.Bcp
use bcp_concept_prototype.Bcp.Select.{
  append_user_block_header_for, select_user_block_header, select_proposed_block_header,
}
use bcp_concept_prototype.Bcp.Process.{IfaceBcpServer, process}
use bcp_concept_prototype.Node.{
  NodeServer, NodeManager, new_round, propose, vote, sent_verify, all_peer_count, modify, set_bcp,
  set_chain, for_peers, sendall,
}

abbrev pub block_reward : ℕ
block_reward = 100

module _ ⦃c : Core⦄ ⦃ch : Chain⦄ where
  open c use {
    Header, Block, header, set_header, new_block, sign, coinbase_transaction, append_transaction,
  }
  open ch use {Blocks, current_height, block_exists, get_block_hash, append_block}

  -- none where it returns false; the index before 0 wraps around
  unfoldable pub create_block_for : ℕ → NodeServer → Option Block
  create_block_for index node =
      if block_exists index node.block_chain
      then none
      else let prev = get_block_hash ((index + 2 ^ 64 - 1) % 2 ^ 64) node.block_chain in
        append_transaction (new_block index prev) (coinbase_transaction node.address block_reward)

  -- The candidate becomes the signed block, and its header the first user header.
  unfoldable pub nominate : Block → NodeServer → NodeServer
  nominate b node =
      let s = set_candidate_block b node.bcp_server in
      set_bcp (append_user_block_header_for node.address (header b) s).0 node

  unfoldable pub on_bcp_new_round_ready : ℕ → NodeManager → NodeManager
  on_bcp_new_round_ready me m =
      sendall me (new_round (current_height (m.node_servers me).block_chain + 1)) m

  unfoldable pub on_bcp_new_round_start_for : ℕ → ℕ → NodeManager → NodeManager
  on_bcp_new_round_start_for me round m = elim (create_block_for round (m.node_servers me)) [
    | none ↦ m
    | some b ↦ modify me (λ node. nominate (sign b node.address) node) m
  ]

  -- The header of the candidate block becomes the chosen one.
  unfoldable pub adopt : Header → NodeServer → NodeServer
  adopt h node =
      let s = node.bcp_server in
      set_bcp (set_candidate_block (set_header h s.candidate_block) s) node

  unfoldable pub on_bcp_step_propose_start_for : ℕ → NodeManager → NodeManager
  on_bcp_step_propose_start_for me m =
      elim (select_user_block_header (m.node_servers me).bcp_server) [
        | none ↦ m
        | some (user_address, h) ↦ sendall me (propose h) (modify me (adopt h) m)
      ]

  unfoldable pub on_bcp_step_vote_start_for : ℕ → NodeManager → NodeManager
  on_bcp_step_vote_start_for me m =
      elim (select_proposed_block_header (m.node_servers me).bcp_server) [
        | none ↦ m
        | some h ↦
            sendall me (vote h) (modify me (λ node. set_bcp (set_my_vote h node.bcp_server) node) m)
      ]

  unfoldable pub on_bcp_step_commit_start_for : ℕ → Header → Bool → NodeManager → NodeManager
  on_bcp_step_commit_start_for me h my_votes m =
      if my_votes
      then sendall me (sent_verify (m.node_servers me).bcp_server.candidate_block) m
      else m

  unfoldable pub clear : NodeServer → NodeServer
  clear node = set_bcp (clear_intermediate_data node.bcp_server) node

  unfoldable pub on_bcp_new_block_commit_for : ℕ → Block → NodeManager → NodeManager
  on_bcp_new_block_commit_for me b m =
      modify me (λ node. clear (set_chain (append_block b node.block_chain).0 node)) m

  unfoldable pub on_bcp_consensus_fail : ℕ → NodeManager → NodeManager
  on_bcp_consensus_fail me m = modify me clear m

  -- The consensus server of the node `me` and its callbacks.
  unfoldable pub callbacks : ℕ → IfaceBcpServer NodeManager
  callbacks me = record {
    bcp = λ m. (m.node_servers me).bcp_server;
    set_bcp = λ s m. modify me (set_bcp s) m;
    all_peer_count = all_peer_count;
    on_bcp_new_round_ready = on_bcp_new_round_ready me;
    on_bcp_new_round_start_for = on_bcp_new_round_start_for me;
    on_bcp_step_propose_start_for = on_bcp_step_propose_start_for me;
    on_bcp_step_vote_start_for = on_bcp_step_vote_start_for me;
    on_bcp_step_commit_start_for = on_bcp_step_commit_start_for me;
    on_bcp_new_block_commit_for = on_bcp_new_block_commit_for me;
    on_bcp_consensus_fail = on_bcp_consensus_fail me;
  }

  -- node_server::main(), at a time stamp of the node's clock
  unfoldable pub main : ℕ → ℕ → NodeManager → NodeManager
  main me timestamp m = process (callbacks me) timestamp m

  -- node_manager::start(): each node starts with its account and clock; `synced` says whose clock
  -- could be synchronised
  unfoldable pub start_manager : ℕ → (ℕ → ℕ) → (ℕ → Bool) → Blocks → NodeManager
  start_manager node_count address_of synced blocks = record {
    node_servers = λ p. record {
      address = address_of p;
      block_chain = blocks;
      bcp_server = (start (synced p) Bcp.new).0;
    };
    node_count = node_count;
    stopped = false;
  }

  unfoldable pub stop : NodeManager → NodeManager
  stop m = record m { stopped = true }

  -- One pass of the loop of node_manager::main(), at the time stamps that the nodes read.
  unfoldable pub pass : (ℕ → ℕ) → NodeManager → NodeManager
  pass timestamp_of m =
      if m.stopped then m else for_peers (all_peer_count m) 0 (λ p. main p (timestamp_of p)) m
