-- ===== src/Tests/Consensus.antt =====
-- The theorems on bcp_server.cpp at two servers among three peers.
use bcp_concept_prototype.Prelude.{
  List, ◌∷◌, ℕ, ◌+◌, ◌≤◌, ◌<◌, ◌≡◌, refl, none, some, [], arith, ◌==◌, ◌↔◌, ◌⊎◌, length,
}
use bcp_concept_prototype.Prelude.Map.{count, lookup, put, insert}
use bcp_concept_prototype.Bcp.{BcpServer, new}
use bcp_concept_prototype.Bcp.Tally.{votes, add_vote, first_passing}
use bcp_concept_prototype.Bcp.Votes.{
  vote_block_header_for, get_elected_block_header, vote_header_at,
}
use bcp_concept_prototype.Bcp.Election.{elected_iff, supporters}
use bcp_concept_prototype.Bcp.Senders.{receive_all, IsSentByMajority, find_commit_block-receive_all}
use bcp_concept_prototype.Bcp.Commit.{add_verified_block, find_commit_block}
use bcp_concept_prototype.Bcp.Rounds.{
  append_new_round_message_for, new_round_start_for, new_round_start_for_iff,
}
use bcp_concept_prototype.Bcp.Select.{
  append_user_block_header_for, select_user_block_header, select_user_block_header-IsLowest,
  IsLowest,
}
use bcp_concept_prototype.Bcp.Sound.{IsSound, new-IsSound}
use bcp_concept_prototype.Bcp.Sound.Operations.{
  vote_block_header_for-IsSound, append_new_round_message_for-IsSound,
  append_user_block_header_for-IsSound,
}
use bcp_concept_prototype.Bcp.Agreement.{get_elected_block_header-agree}
use bcp_concept_prototype.Tests.{plain, PlainBlock, plain_block}

-- Peers 0 and 2 vote for 7.
abbrev one_vote : BcpServer
one_vote = (vote_block_header_for 0 7 new).0

abbrev voted : BcpServer
voted = (vote_block_header_for 2 7 one_vote).0

-- Peers 1 and 2 do, and 0 votes for nothing here.
abbrev voted_late : BcpServer
voted_late = (vote_block_header_for 2 7 (vote_block_header_for 1 7 new).0).0

one_vote-IsSound : IsSound 3 one_vote
one_vote-IsSound = vote_block_header_for-IsSound 3 _ (new-IsSound 3) 0 7 (omega arith)

voted-IsSound : IsSound 3 voted
voted-IsSound = vote_block_header_for-IsSound 3 _ one_vote-IsSound 2 7 (omega arith)

voted_late-IsSound : IsSound 3 voted_late
voted_late-IsSound =
    vote_block_header_for-IsSound 3 _
      (vote_block_header_for-IsSound 3 _ (new-IsSound 3) 1 7 (omega arith)) 2 7 (omega arith)

voted-elects : (get_elected_block_header 3 voted).1 ≡ some 7
unfolding get_elected_block_header vote_block_header_for vote_header_at new lookup put insert
    add_vote votes first_passing
voted-elects = refl

voted_late-elects : (get_elected_block_header 3 voted_late).1 ≡ some 7
unfolding get_elected_block_header vote_block_header_for vote_header_at new lookup put insert
    add_vote votes first_passing
voted_late-elects = refl

all_vote_seven :
    (p u w : ℕ)
    → p < 3
    → lookup p voted.vote_box ≡ some u
    → lookup p voted_late.vote_box ≡ some w
    → u ≡ w
unfolding vote_block_header_for new lookup put
all_vote_seven p u w h a b = ground arith

get_elected_block_header-agree_example : plain.header_hash 7 ≡ plain.header_hash 7
get_elected_block_header-agree_example =
    get_elected_block_header-agree 3 voted voted_late 7 7 voted-IsSound voted_late-IsSound
      all_vote_seven voted-elects voted_late-elects

elected_iff_example :
    ((v : ℕ) × ((get_elected_block_header 3 voted).1 ≡ some v) × (v ≡ 7))
    ↔ (3 < supporters 7 voted + supporters 7 voted)
elected_iff_example =
    elected_iff 3 7 voted voted-IsSound.certified.election voted-IsSound.certified.room

-- Two peers have sent the elected block.
abbrev seven : PlainBlock
seven = plain_block 1 7 []

abbrev both : List (ℕ × PlainBlock)
both = (0, seven) ∷ (1, seven) ∷ []

voted_unverified : voted.verified_blocks ≡ []
unfolding vote_block_header_for new lookup put
voted_unverified = refl

both-commits : find_commit_block 3 (receive_all 3 both voted) ≡ some seven
unfolding receive_all find_commit_block add_verified_block get_elected_block_header
    vote_block_header_for vote_header_at new lookup put insert add_vote votes first_passing
both-commits = refl

find_commit_block-receive_all_example : IsSentByMajority 3 both voted seven
find_commit_block-receive_all_example =
    find_commit_block-receive_all 3 both voted seven voted-IsSound.certified.election
      voted_unverified both-commits

-- Both of two peers ask for the block 5.
abbrev ready : BcpServer
ready = (append_new_round_message_for 1 5 (append_new_round_message_for 0 5 new).0).0

ready-IsSound : IsSound 2 ready
ready-IsSound =
    append_new_round_message_for-IsSound 2 _
      (append_new_round_message_for-IsSound 2 _ (new-IsSound 2) 0 5 (omega arith)) 1 5 (omega arith)

ready_room : length ready.new_round_messages ≤ 2
unfolding append_new_round_message_for new lookup put
ready_room = omega arith

new_round_start_for_iff_example :
    (new_round_start_for 2 ready ≡ some 5)
    ↔ ((count (λ v. v == 5) ready.new_round_messages ≡ 2) × (0 < 5))
new_round_start_for_iff_example =
    new_round_start_for_iff 2 5 ready (omega arith) ready-IsSound.rounds ready_room

-- The headers 9 and 4, of the addresses or peers 1 and 2.
abbrev signed : BcpServer
signed = (append_user_block_header_for 2 4 (append_user_block_header_for 1 9 new).0).0

signed-IsSound : IsSound 3 signed
signed-IsSound =
    append_user_block_header_for-IsSound 3 _
      (append_user_block_header_for-IsSound 3 _ (new-IsSound 3) 1 9) 2 4

select_user_block_header-IsLowest_example :
    ((select_user_block_header signed ≡ none) × (signed.user_block_headers ≡ []))
    ⊎ ((k h : ℕ) × (select_user_block_header signed ≡ some (k, h))
        × IsLowest signed.user_block_headers k h)
select_user_block_header-IsLowest_example =
    select_user_block_header-IsLowest signed signed-IsSound.users
