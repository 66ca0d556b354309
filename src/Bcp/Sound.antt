-- ===== src/Bcp/Sound.antt =====
-- What holds of a consensus server of bcp_server.cpp among `n` peers with the ids 0 to n - 1.
pub mod Operations
use mathlib.Core.Path.{subst, subst₂, ap₂}
use bcp_concept_prototype.Prelude.{
  ℕ, suc, ◌+◌, ◌≤◌, ◌<◌, ◌≡◌, refl, sym, ap, ◌∙◌, Bool, true, false, Option, none, some, [], arith,
  length, Option-cases, inl, inr, if◌then◌else◌,
}
use bcp_concept_prototype.Prelude.Map.{
  Map, lookup, put, IsSorted, Below, put-IsSorted, put-Below, length-Below,
}
use bcp_concept_prototype.Core.{Core}
use bcp_concept_prototype.Bcp.{
  BcpServer, BcpStep, new, start, set_step, set_candidate_block, set_my_vote,
  clear_intermediate_data,
}
use bcp_concept_prototype.Bcp.Tally.{first_passing, IsTally, IsTally-empty, IsTally-vote, votes}
use bcp_concept_prototype.Bcp.Rounds.{
  append_new_round_message_for, IsRoundTally, append_new_round_message_for-IsRoundTally, same_round,
}
use bcp_concept_prototype.Bcp.Select.{
  append_user_block_header_for, append_proposed_block_header_for,
}
use bcp_concept_prototype.Bcp.Votes.{
  qualified, vote_block_header_for, get_elected_block_header, IsElection,
}
use bcp_concept_prototype.Bcp.Election.{Election-cases}
use bcp_concept_prototype.Bcp.Commit.{
  add_verified_block, IsCertified, aside as history_aside, empty, HasElected,
  add_verified_block-IsCertified, add_verified_block_cases, vote_block_header_for-IsCertified,
}

module _ ⦃c : Core⦄ where
  open c use {Header, Block, header_hash, null_header}

  -- The elected header is computed from the counts and the kept headers.
  elected_of : ℕ → Map ℕ → Map Header → Option Header
  elected_of n counts headers = elim (first_passing (qualified n) counts) [
    | none ↦ none
    | some k ↦ elim (lookup k headers) [ none ↦ some null_header | some h ↦ some h ]
  ]

  elected-eq :
      (n : ℕ) (s : BcpServer)
      → (get_elected_block_header n s).1 ≡ elected_of n s.vote_counts s.vote_headers
  unfolding elected_of get_elected_block_header
  elected-eq n s = ground arith

  -- A server that shares votes and verified blocks with a certified one is certified.
  abbrev pub SameVotes : BcpServer → BcpServer → Type 0
  SameVotes s t =
      (t.vote_box ≡ s.vote_box)
      × (t.vote_counts ≡ s.vote_counts)
      × (t.vote_headers ≡ s.vote_headers)
      × (t.verified_blocks ≡ s.verified_blocks)
      × (t.commit_block ≡ s.commit_block)

  same_elected :
      (n : ℕ) (s t : BcpServer)
      → SameVotes s t
      → (get_elected_block_header n t).1 ≡ (get_elected_block_header n s).1
  same_elected n s t e = elected-eq n t ∙ ap₂ (elected_of n) e.1 e.2 ∙ sym (elected-eq n s)

  SameVotes-IsCertified :
      (n : ℕ) (s t : BcpServer) → SameVotes s t → IsCertified n s → IsCertified n t
  SameVotes-IsCertified n s t e v = record {
    election = record {
      tally = rw (e.0, e.1) v.election.tally;
      headed = rw (e.1, e.2) v.election.headed;
      own = rw e.2 v.election.own;
    };
    room = rw e.0 v.room;
    history = (v.history.0, history_aside e.3 v.history.1);
    senders = rw e.3 v.senders;
    verified = λ p b l. moved b (v.verified p b (rw e.3 at l));
    last = λ some_block.
        subst (HasElected n t) (sym e.4) (moved s.commit_block (v.last (rw e.3 at some_block)));
  }
    where
      moved : (b : Block) → HasElected n s b → HasElected n t b
      moved b (h, elected, same) = (h, same_elected n s t e ∙ elected, same)

  -- The invariant: the maps of peers hold peers, counts agree with messages and votes, and the
  -- verified blocks have the elected header.
  pub record IsSound (n : ℕ) (s : BcpServer) : Type 0 where
    pub certified : IsCertified n s
    pub voters : IsSorted s.vote_box × Below n s.vote_box
    pub rounds : IsRoundTally s
    pub callers : IsSorted s.new_round_messages × Below n s.new_round_messages
    pub users : IsSorted s.user_block_headers
    pub proposers : IsSorted s.proposed_block_headers

  -- A server with no votes and no verified blocks.
  abbrev pub unvoted : BcpServer → BcpServer
  unvoted s = record s { vote_box = []; vote_headers = []; vote_counts = []; verified_blocks = [] }

  pub unvoted-IsCertified : (n : ℕ) (s : BcpServer) → IsCertified n (unvoted s)
  unfolding lookup votes
  unvoted-IsCertified n s = record {
    election = record {
      tally = IsTally-empty header_hash;
      headed = λ k p. absurd (omega arith);
      own = λ k w e. cc;
    };
    room = omega arith;
    history = ([], empty refl);
    senders = (tt, tt);
    verified = λ p b e. cc;
    last = λ h. absurd (omega arith);
  }

  pub new-IsSound : (n : ℕ) → IsSound n new
  unfolding new
  new-IsSound n = record {
    certified = unvoted-IsCertified n new;
    voters = (tt, tt);
    rounds = IsTally-empty same_round;
    callers = (tt, tt);
    users = tt;
    proposers = tt;
  }

  -- A change of fields that the votes do not use.
  pub aside :
      {n : ℕ} (s t : BcpServer)
      → IsSound n s
      → SameVotes s t
      → IsRoundTally t
      → IsSorted t.new_round_messages × Below n t.new_round_messages
      → IsSorted t.user_block_headers
      → IsSorted t.proposed_block_headers
      → IsSound n t
  aside {n} s t v e rounds callers users proposers = record {
    certified = SameVotes-IsCertified n s t e v.certified;
    voters = subst (λ m. IsSorted m × Below n m) (sym e.0) v.voters;
    rounds = rounds;
    callers = callers;
    users = users;
    proposers = proposers;
  }
