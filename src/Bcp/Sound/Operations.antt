-- ===== src/Bcp/Sound/Operations.antt =====
-- Each operation of a consensus server of bcp_server.cpp keeps it sound.
use mathlib.Core.Path.{subst, subst₂}
use bcp_concept_prototype.Prelude.{ℕ, ◌<◌, ◌≡◌, refl, sym, ap, arith, Option-cases, inl, inr}
use bcp_concept_prototype.Prelude.Map.{
  lookup, put, IsSorted, Below, put-IsSorted, put-Below, length-Below,
}
use bcp_concept_prototype.Core.{Core}
use bcp_concept_prototype.Bcp.{
  BcpServer, BcpStep, set_step, set_candidate_block, set_my_vote, clear_intermediate_data,
}
use bcp_concept_prototype.Bcp.Tally.{IsTally, IsTally-empty, IsTally-vote}
use bcp_concept_prototype.Bcp.Rounds.{append_new_round_message_for, same_round}
use bcp_concept_prototype.Bcp.Select.{
  append_user_block_header_for, append_proposed_block_header_for,
}
use bcp_concept_prototype.Bcp.Votes.{vote_block_header_for, get_elected_block_header}
use bcp_concept_prototype.Bcp.Election.{Election-cases}
use bcp_concept_prototype.Bcp.Commit.{
  add_verified_block, IsCertified, add_verified_block-IsCertified, add_verified_block_cases,
  vote_block_header_for-IsCertified,
}
use bcp_concept_prototype.Bcp.Sound.{IsSound, unvoted-IsCertified, aside}

module _ ⦃c : Core⦄ where
  open c use {Header, Block, header_hash}

  module _ (n : ℕ) (s : BcpServer) (v : IsSound n s) where
    pub set_step-IsSound : (step : BcpStep) → IsSound n (set_step step s)
    unfolding set_step
    set_step-IsSound step =
        aside s _ v (refl, refl, refl, refl, refl) v.rounds v.callers v.users v.proposers

    pub set_time-IsSound : (time : ℕ) → IsSound n (record s { time_context = time })
    set_time-IsSound time =
        aside s _ v (refl, refl, refl, refl, refl) v.rounds v.callers v.users v.proposers

    pub set_candidate_block-IsSound : (b : Block) → IsSound n (set_candidate_block b s)
    unfolding set_candidate_block
    set_candidate_block-IsSound b =
        aside s _ v (refl, refl, refl, refl, refl) v.rounds v.callers v.users v.proposers

    pub set_my_vote-IsSound : (h : Header) → IsSound n (set_my_vote h s)
    unfolding set_my_vote
    set_my_vote-IsSound h =
        aside s _ v (refl, refl, refl, refl, refl) v.rounds v.callers v.users v.proposers

    pub clear_intermediate_data-IsSound : IsSound n (clear_intermediate_data s)
    unfolding clear_intermediate_data
    clear_intermediate_data-IsSound = record {
      certified = unvoted-IsCertified n (clear_intermediate_data s);
      voters = (tt, tt);
      rounds = IsTally-empty same_round;
      callers = (tt, tt);
      users = tt;
      proposers = tt;
    }

    pub append_new_round_message_for-IsSound :
        (peer round : ℕ) → peer < n → IsSound n (append_new_round_message_for peer round s).0
    unfolding append_new_round_message_for
    append_new_round_message_for-IsSound peer round lt =
        elim (Option-cases (lookup peer s.new_round_messages)) [
          | inr (r, e) ↦ rw (e, append_new_round_message_for) v
          | inl e ↦
              rw (e, append_new_round_message_for)
                (aside s _ v (refl, refl, refl, refl, refl)
                  (IsTally-vote same_round peer round _ _ e v.rounds)
                  (put-IsSorted peer round _ v.callers.0, put-Below n peer round _ lt v.callers.1)
                  v.users v.proposers)
        ]

    pub append_user_block_header_for-IsSound :
        (address : ℕ) (h : Header) → IsSound n (append_user_block_header_for address h s).0
    unfolding append_user_block_header_for
    append_user_block_header_for-IsSound address h =
        elim (Option-cases (lookup address s.user_block_headers)) [
          | inr (r, e) ↦ rw (e, append_user_block_header_for) v
          | inl e ↦
              rw (e, append_user_block_header_for)
                (aside s _ v (refl, refl, refl, refl, refl) v.rounds v.callers
                  (put-IsSorted address h _ v.users) v.proposers)
        ]

    pub append_proposed_block_header_for-IsSound :
        (peer : ℕ) (h : Header) → IsSound n (append_proposed_block_header_for peer h s).0
    unfolding append_proposed_block_header_for
    append_proposed_block_header_for-IsSound peer h =
        elim (Option-cases (lookup peer s.proposed_block_headers)) [
          | inr (r, e) ↦ rw (e, append_proposed_block_header_for) v
          | inl e ↦
              rw (e, append_proposed_block_header_for)
                (aside s _ v (refl, refl, refl, refl, refl) v.rounds v.callers v.users
                  (put-IsSorted peer h _ v.proposers))
        ]

    vote_rest :
        (peer : ℕ) (h : Header)
        → let t = (vote_block_header_for peer h s).0 in
          (t.new_round_messages ≡ s.new_round_messages)
          × (t.new_round_votes ≡ s.new_round_votes)
          × (t.user_block_headers ≡ s.user_block_headers)
          × (t.proposed_block_headers ≡ s.proposed_block_headers)
    unfolding vote_block_header_for
    vote_rest peer h = ground arith

    vote_voters :
        (peer : ℕ) (h : Header)
        → peer < n
        → let box = (vote_block_header_for peer h s).0.vote_box in IsSorted box × Below n box
    unfolding vote_block_header_for
    vote_voters peer h lt = elim (Option-cases (lookup peer s.vote_box)) [
      | inr (w, e) ↦ rw (e, vote_block_header_for) v.voters
      | inl e ↦
          rw (e, vote_block_header_for)
            (put-IsSorted peer h _ v.voters.0, put-Below n peer h _ lt v.voters.1)
    ]

    pub vote_block_header_for-IsSound :
        (peer : ℕ) (h : Header) → peer < n → IsSound n (vote_block_header_for peer h s).0
    vote_block_header_for-IsSound peer h lt =
        let (calls, counts, users, proposals) = vote_rest peer h in
        let box = vote_voters peer h lt in
        record {
          certified =
              vote_block_header_for-IsCertified n peer h s v.certified
                (length-Below n _ box.0 box.1);
          voters = box;
          rounds = subst₂ (IsTally same_round) (sym calls) (sym counts) v.rounds;
          callers = subst (λ m. IsSorted m × Below n m) (sym calls) v.callers;
          users = subst IsSorted (sym users) v.users;
          proposers = subst IsSorted (sym proposals) v.proposers;
        }

    pub add_verified_block-IsSound :
        (peer : ℕ) (b : Block) → peer < n → IsSound n (add_verified_block n peer b s).0
    add_verified_block-IsSound peer b lt =
        let kept = add_verified_block-IsCertified n peer b s lt v.certified in
        elim (add_verified_block_cases n peer b s v.certified.election) [
          | inl e ↦ rw e v
          | inr (free, has, e) ↦
              let kept' : IsCertified n
                  (record s { verified_blocks = put peer b s.verified_blocks; commit_block = b }) =
                rw e at kept in
              rw e (record {
                certified = kept';
                voters = v.voters;
                rounds = v.rounds;
                callers = v.callers;
                users = v.users;
                proposers = v.proposers;
              })
        ]

    -- Looking for the elected header changes nothing.
    pub get_elected_block_header-state : (get_elected_block_header n s).0 ≡ s
    get_elected_block_header-state = elim (Election-cases n s v.certified.election) [
      | inl (e, _) ↦ ap (λ r. r.0) e
      | inr (h, e, _) ↦ ap (λ r. r.0) e
    ]
