-- ===== src/Bcp/Rounds.antt =====
-- bcp_server.cpp: append_new_round_message_for() and new_round_start_for(). A new round starts when
-- every peer has asked for the same block index.
use bcp_concept_prototype.Prelude.{
  ℕ, ◌≤◌, ◌<◌, ◌≡◌, ◌↔◌, ap, refl, Bool, true, false, ◌&&◌, Option, none, some, arith, ltb, leb,
  ◌==◌, if◌then◌else◌, length,
}
use bcp_concept_prototype.Prelude.Map.{lookup, put, contains, count, count-le}
use bcp_concept_prototype.Core.{Core}
use bcp_concept_prototype.Bcp.{BcpServer}
use bcp_concept_prototype.Bcp.Tally.{
  votes, add_vote, first_passing, first_passing_sound, first_passing_complete, IsTally,
  IsTally-vote, IsTally-majority,
}

-- Enough votes, and the index is above the invalid one.
abbrev starts : ℕ → ℕ → ℕ → ℕ → Bool
starts invalid qualify round n = leb qualify n && ltb invalid round

module _ ⦃c : Core⦄ where
  -- The second message of a peer is refused.
  unfoldable pub append_new_round_message_for : ℕ → ℕ → BcpServer → BcpServer × Bool
  append_new_round_message_for peer round s =
      if contains peer s.new_round_messages then (s, false) else (
        record s {
          new_round_messages = put peer round s.new_round_messages;
          new_round_votes = add_vote round s.new_round_votes;
        },
        true,
      )

  -- The out-parameter and the result in one: none where it returns false.
  unfoldable pub new_round_start_for : ℕ → BcpServer → Option ℕ
  new_round_start_for all_peer_count s =
      first_passing (starts c.invalid_block_index all_peer_count) s.new_round_votes

  abbrev pub same_round : ℕ → ℕ
  same_round r = r

  -- The votes are a count of the messages.
  abbrev pub IsRoundTally : BcpServer → Type 0
  IsRoundTally s = IsTally same_round s.new_round_messages s.new_round_votes

  pub append_new_round_message_for-IsRoundTally :
      (peer round : ℕ) (s : BcpServer)
      → IsRoundTally s
      → IsRoundTally (append_new_round_message_for peer round s).0
  unfolding append_new_round_message_for
  append_new_round_message_for-IsRoundTally peer round s t =
      go (lookup peer s.new_round_messages) refl
    where
      go :
          (o : Option ℕ)
          → lookup peer s.new_round_messages ≡ o
          → IsRoundTally (append_new_round_message_for peer round s).0
      go none e = rw (e, append_new_round_message_for) (IsTally-vote same_round peer round _ _ e t)
      go (some r) e = rw (e, append_new_round_message_for) t

  new_round_start_for_sound :
      (n r : ℕ) (s : BcpServer)
      → IsRoundTally s
      → length s.new_round_messages ≤ n
      → new_round_start_for n s ≡ some r
      → (count (λ v. v == r) s.new_round_messages ≡ n) × (c.invalid_block_index < r)
  unfolding new_round_start_for
  new_round_start_for_sound n r s t len e = ground (
    arith,
    first_passing_sound (starts c.invalid_block_index n) s.new_round_votes r t.sorted e,
    t.counted r,
    count-le (λ v. v == r) s.new_round_messages,
  )

  new_round_start_for_complete :
      (n r : ℕ) (s : BcpServer)
      → 0 < n
      → IsRoundTally s
      → length s.new_round_messages ≤ n
      → count (λ v. v == r) s.new_round_messages ≡ n
      → c.invalid_block_index < r
      → new_round_start_for n s ≡ some r
  new_round_start_for_complete n r s pos t len all above =
      let passes : starts c.invalid_block_index n r (votes r s.new_round_votes) ≡ true =
        ground (arith, t.counted r) in
      let (j, e) = found passes in
      let (full, _) = new_round_start_for_sound n j s t len e in
      rw e (
        ap some (
          IsTally-majority same_round _ _ n j r t len (omega (arith, t.counted j))
            (omega (arith, t.counted r))))
    where
      found :
          starts c.invalid_block_index n r (votes r s.new_round_votes) ≡ true
          → (j : ℕ) × (new_round_start_for n s ≡ some j)
      found p =
          unfold new_round_start_for in
          first_passing_complete (starts c.invalid_block_index n) s.new_round_votes r
            (omega (arith, t.counted r)) p

  -- With votes that count the messages, and not more messages than the `n` peers, of which there is
  -- at least one, a new round starts for an index exactly when all `n` peers have asked for that
  -- index and it lies above the invalid one.
  pub new_round_start_for_iff :
      (n r : ℕ) (s : BcpServer)
      → 0 < n
      → IsRoundTally s
      → length s.new_round_messages ≤ n
      → (new_round_start_for n s ≡ some r)
        ↔ ((count (λ v. v == r) s.new_round_messages ≡ n) × (c.invalid_block_index < r))
  new_round_start_for_iff n r s pos t len = (
    new_round_start_for_sound n r s t len,
    λ h. new_round_start_for_complete n r s pos t len h.0 h.1,
  )
