-- ===== src/Declared/Boxes.antt =====
-- apps/node-server-lib/bcp/round_helper.hpp and round_provider.hpp, apps/node-server-lib/bcp.hpp:
-- what a node keeps of a round.
use bcp_concept_prototype.Prelude.{ℕ, Bool, List}
use bcp_concept_prototype.Prelude.Ints.{ℤ}
use bcp_concept_prototype.Declared.Blocks.{Address, BlockHeader, Block, Secret}
use bcp_concept_prototype.Declared.Schedule.{BcpStep, BcpSteps}

-- class CUserSignedHeaderBox
pub record UserSignedHeaderBox : Type 0 where
  pub candidate_block : Block
  pub user_headers : List (Address × BlockHeader)
  pub selected_user_header : BlockHeader

-- class CProposeHeaderBox
pub record ProposeHeaderBox : Type 0 where
  pub proposed_headers : List (ℤ × BlockHeader)
  pub selected_proposed_header : BlockHeader

-- class CVoteHeaderBox
pub record VoteHeaderBox : Type 0 where
  pub vote_headers : List (ℤ × BlockHeader)
  pub hashed_headers : List (ℕ × BlockHeader)
  pub votes : List (ℕ × ℕ)
  pub elected_header : BlockHeader

-- class CCommitBlockBox
pub record CommitBlockBox : Type 0 where
  pub verify_block : Block
  pub verified : Bool
  pub commit_blocks : List (ℤ × Block)
  pub secrets : List (ℤ × Secret)
  pub new_block : Block

-- class CRoundHelper
pub record RoundHelper : Type 0 where
  pub user_box : UserSignedHeaderBox
  pub propose_box : ProposeHeaderBox
  pub vote_box : VoteHeaderBox
  pub commit_box : CommitBlockBox
  pub round_idx : ℤ
  pub round_begin_time : ℤ
  pub bcp_step : BcpStep

-- class CRoundProvider
pub record RoundProvider : Type 0 where
  pub time_context : ℤ
  pub current_round : ℤ
  pub new_round_messages : List (ℤ × ℤ)
  pub new_round_votes : List (ℤ × ℕ)

-- class CBcpRoundData in its parts: the round, and those of the four steps
pub record RoundTime : Type 0 where
  pub round : ℕ
  pub begin_time : ℤ
  pub step : BcpSteps

pub record Participation : Type 0 where
  pub node_signed_block : Block
  pub user_signed_headers : List (Address × BlockHeader)
  pub user_signed_header : BlockHeader

pub record Proposal : Type 0 where
  pub proposed_headers : List (ℤ × BlockHeader)
  pub proposed_header : BlockHeader

pub record Ballot : Type 0 where
  pub voted_headers : List (ℤ × BlockHeader)
  pub hashed_voted_headers : List (ℕ × BlockHeader)
  pub hashed_votes : List (ℕ × ℕ)
  pub voted_header : BlockHeader

pub record Commitment : Type 0 where
  pub candidate_block : Block
  pub commit_blocks : List (ℤ × Block)
  pub new_block : Block

-- class CBcpWorker
pub record BcpWorker : Type 0 where
  pub time_context : ℤ
  pub current_round : ℕ
  pub new_round_messages : List (ℤ × ℕ)
  pub new_round_votes : List (ℕ × ℕ)
  pub bcp_round_data : List (ℕ × RoundTime × Participation × Proposal × Ballot × Commitment)
