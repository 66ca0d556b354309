-- ===== src/Declared/Round.antt =====
-- apps/node-server-lib/bcp/bcp_host.hpp and bryllite-core/bcp_server.hpp: the processes of the
-- consensus, the callbacks that a node gives them, and what they keep. A callback takes and
-- returns the state of the node.
use Prim.Native.String.{String}
use bcp_concept_prototype.Prelude.{ℕ, Bool, List}
use bcp_concept_prototype.Prelude.Ints.{ℤ}
use bcp_concept_prototype.Declared.Blocks.{BlockHeader, Block, BlockChain, Secret}
use bcp_concept_prototype.Declared.Boxes.{RoundHelper, RoundProvider}

-- class CBcpHost; the chain is that of the node
pub record BcpHost : Type 0 where
  pub block_chain : BlockChain
  pub stopped : Bool
  pub round_provider : RoundProvider
  pub round_helpers : List (ℤ × RoundHelper)

-- its callbacks; a round helper that is passed by reference comes back
pub record BcpHostCallback (Node : Type 0) : Type 0 where
  pub qualify_votes : Node → Node × ℕ
  pub on_bcp_new_round_message : ℤ → Node → Node × ℤ
  pub on_bcp_proof_of_participation_start : RoundHelper → Node → Node × RoundHelper × ℤ
  pub on_bcp_propose_start : RoundHelper → BlockHeader → Node → Node × RoundHelper × ℤ
  pub on_bcp_vote_start : RoundHelper → BlockHeader → Node → Node × RoundHelper × ℤ
  pub on_bcp_commit_start : RoundHelper → BlockHeader → Node → Node × RoundHelper × ℤ
  pub on_bcp_commit : RoundHelper → Block → Node → Node × RoundHelper × ℤ
  pub on_bcp_new_block : RoundHelper → Block → Node → Node × RoundHelper × ℤ
  pub on_bcp_abandoned : RoundHelper → Node → Node × RoundHelper × ℤ
  pub on_bcp_round_completed : RoundHelper → Block → Node → Node × RoundHelper × ℤ

-- class IBcpServerCallback
pub record BcpServerCallback (Node : Type 0) : Type 0 where
  pub qualify_votes_count : Node → Node × ℕ
  pub on_bcp_new_round_ready : ℕ → Node → Node × ℤ
  pub on_bcp_new_round_start : ℕ → Node → Node × ℤ
  pub on_bcp_propose_start : ℕ → Node → Node × ℤ
  pub on_bcp_vote_start : ℕ → Node → Node × ℤ
  pub on_bcp_commit_start : ℕ → BlockHeader → Node → Node × ℤ
  pub on_bcp_verify_block : ℕ → Block → Node → Node × Bool
  pub on_bcp_new_block : ℕ → Block → Node → Node × ℤ
  pub on_bcp_timeout : ℕ → Node → Node × ℤ

-- class CBcpData
pub record BcpData : Type 0 where
  pub round_idx : ℕ
  pub candidate_block : Block
  pub user_signed_headers : List (String × BlockHeader)
  pub lowest_user_signed_header : BlockHeader
  pub proposed_headers : List (ℤ × BlockHeader)
  pub lowest_proposed_header : BlockHeader
  pub votes_box : List (ℤ × BlockHeader)
  pub votes_headers : List (ℕ × BlockHeader)
  pub votes : List (ℕ × ℕ)
  pub votes_qualified_header : BlockHeader
  pub votes_completed : Bool
  pub verify_block : Block
  pub verify_completed : Bool
  pub commit_block : Block
  pub committed_blocks : List (ℤ × Block)
  pub committed_secrets : List (ℤ × Secret)
  pub commit_completed : Bool

-- class CBcpServer
pub record BcpServerState : Type 0 where
  pub time_context : ℤ
  pub round_idx : ℕ
  pub new_round_messages : List (ℤ × ℕ)
  pub new_round_votes : List (ℕ × ℕ)
  pub bcp_data : List (ℕ × BcpData)
