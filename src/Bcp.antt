-- ===== src/Bcp.antt =====
-- tests/dev/node-server-mono/bcp_server.hpp and bcp_server.cpp: the state of one consensus server,
-- its accessors and the reset between rounds. The operations are in the child modules.
-- The lock of each method is left out: a method runs alone.
pub mod Agreement
pub mod Commit
pub mod Senders
pub mod Process
pub mod Rounds
pub mod Select
pub mod Sound
pub mod Tally
pub mod Votes
pub mod Election
use bcp_concept_prototype.Prelude.{ℕ, Bool, true, false, [], ◌/◌, ◌%◌}
use bcp_concept_prototype.Prelude.Map.{Map}
use bcp_concept_prototype.Core.{Core}

-- enum bcp_step
pub data BcpStep : Type 0 where
  null waiting proof_of_participation propose vote commit : BcpStep

-- enum bcp_timeout, under USE_SHORT_BLOCK_TIME as the header defines it, in seconds
abbrev pub timeout_proof_of_participation : ℕ
timeout_proof_of_participation = 5

abbrev pub timeout_propose : ℕ
timeout_propose = 10

abbrev pub timeout_vote : ℕ
timeout_vote = 15

abbrev pub timeout_commit : ℕ
timeout_commit = 20

abbrev pub block_time : ℕ
block_time = timeout_commit

-- timeline(): the part of the block time that has passed, and the number of block times before it
unfoldable pub timeline : ℕ → ℕ
timeline timestamp = timestamp % block_time

unfoldable pub time_context_at : ℕ → ℕ
time_context_at timestamp = timestamp / block_time

module _ ⦃c : Core⦄ where
  open c use {Header, Block, null_header, null_block, invalid_block_index}

  -- class bcp_server
  pub record BcpServer : Type 0 where
    pub time_context : ℕ
    pub current_step : BcpStep
    pub new_round_messages : Map ℕ
    pub new_round_votes : Map ℕ
    pub current_round : ℕ
    pub candidate_block : Block
    pub user_block_headers : Map Header
    pub proposed_block_headers : Map Header
    pub my_vote_header : Header
    pub vote_box : Map Header
    pub vote_headers : Map Header
    pub vote_counts : Map ℕ
    pub verified_blocks : Map Block
    pub commit_block : Block

  unfoldable pub new : BcpServer
  new = record {
    time_context = 0;
    current_step = BcpStep.null;
    new_round_messages = [];
    new_round_votes = [];
    current_round = invalid_block_index;
    candidate_block = null_block;
    user_block_headers = [];
    proposed_block_headers = [];
    my_vote_header = null_header;
    vote_box = [];
    vote_headers = [];
    vote_counts = [];
    verified_blocks = [];
    commit_block = null_block;
  }

  -- current_step( step ), candidate_block( b ), set_my_vote( header )
  unfoldable pub set_step : BcpStep → BcpServer → BcpServer
  set_step step s = record s { current_step = step }

  unfoldable pub set_candidate_block : Block → BcpServer → BcpServer
  set_candidate_block b s = record s { candidate_block = b }

  unfoldable pub set_my_vote : Header → BcpServer → BcpServer
  set_my_vote header s = record s { my_vote_header = header }

  -- start(), once the clock is synchronised
  unfoldable pub start : Bool → BcpServer → BcpServer × Bool
  unfolding set_step
  start true s = (set_step BcpStep.waiting s, true)
  start false s = (s, false)

  -- The candidate block, the own vote and the last verified block stay.
  unfoldable pub clear_intermediate_data : BcpServer → BcpServer
  clear_intermediate_data s = record s {
    new_round_messages = [];
    new_round_votes = [];
    current_round = invalid_block_index;
    user_block_headers = [];
    proposed_block_headers = [];
    vote_box = [];
    vote_headers = [];
    vote_counts = [];
    verified_blocks = [];
  }
