-- ===== src/Bcp/Election.antt =====
-- What get_elected_block_header() of bcp_server.cpp guarantees.
use mathlib.Core.Path.{subst}
use bcp_concept_prototype.Prelude.{
  ℕ, ◌+◌, ◌≤◌, ◌<◌, ◌≡◌, refl, ap, Option, none, some, arith, ◌==◌, ◌⊎◌, ◌↔◌, inl, inr, length,
}
use bcp_concept_prototype.Prelude.Map.{lookup, count, lookup-insert}
use bcp_concept_prototype.Core.{Core}
use bcp_concept_prototype.Bcp.{BcpServer}
use bcp_concept_prototype.Bcp.Tally.{
  votes, votes-add_vote, first_passing, first_passing_sound, first_passing_complete,
  IsTally-majority,
}
use bcp_concept_prototype.Bcp.Votes.{
  qualified, vote_block_header_for, vote_header_at, get_elected_block_header, IsElection,
  vote_block_header_for-IsElection,
}

module _ ⦃c : Core⦄ where
  open c use {Header, header_hash}

  -- The kept header of a hash with a majority of the votes.
  abbrev pub Elects : ℕ → BcpServer → ℕ → Header → Type 0
  Elects n s k v =
      (lookup k s.vote_headers ≡ some v)
      × (header_hash v ≡ k)
      × (n < votes k s.vote_counts + votes k s.vote_counts)

  elected-none :
      (n : ℕ) (s : BcpServer)
      → first_passing (qualified n) s.vote_counts ≡ none
      → get_elected_block_header n s ≡ (s, none)
  unfolding get_elected_block_header
  elected-none n s e = rw (e, get_elected_block_header)

  elected-some :
      (n : ℕ) (s : BcpServer) (k : ℕ) (v : Header)
      → first_passing (qualified n) s.vote_counts ≡ some k
      → lookup k s.vote_headers ≡ some v
      → get_elected_block_header n s ≡ (s, some v)
  unfolding get_elected_block_header
  elected-some n s k v e h = rw (e, h, get_elected_block_header, vote_header_at)

  -- Either no hash has a majority, or the kept header of one that has is returned. The state stays.
  pub Election-cases :
      (n : ℕ) (s : BcpServer)
      → IsElection s
      → ((get_elected_block_header n s ≡ (s, none))
          × ((k : ℕ) → votes k s.vote_counts + votes k s.vote_counts ≤ n))
        ⊎ ((v : Header) × (get_elected_block_header n s ≡ (s, some v))
            × Elects n s (header_hash v) v)
  Election-cases n s i = go (first_passing (qualified n) s.vote_counts) refl
    where
      some_winner :
          (k : ℕ) (v : Header)
          → first_passing (qualified n) s.vote_counts ≡ some k
          → lookup k s.vote_headers ≡ some v
          → Elects n s (header_hash v) v
      some_winner k v e h =
          let own : header_hash v ≡ k = i.own k v h in
          rw own (
            h,
            refl,
            ground (arith, first_passing_sound (qualified n) s.vote_counts k i.tally.sorted e),
          )

      none_wins :
          (k : ℕ)
          → first_passing (qualified n) s.vote_counts ≡ none
          → votes k s.vote_counts + votes k s.vote_counts ≤ n
      none_wins k e = ground (arith, first_passing_complete (qualified n) s.vote_counts k)

      go :
          (o : Option ℕ)
          → first_passing (qualified n) s.vote_counts ≡ o
          → ((get_elected_block_header n s ≡ (s, none))
              × ((k : ℕ) → votes k s.vote_counts + votes k s.vote_counts ≤ n))
            ⊎ ((v : Header) × (get_elected_block_header n s ≡ (s, some v))
                × Elects n s (header_hash v) v)
      go none e = inl (elected-none n s e, λ k. none_wins k e)
      go (some k) e =
          let (v, h) =
            i.headed k (
              ground (arith, first_passing_sound (qualified n) s.vote_counts k i.tally.sorted e)) in
          inr (v, elected-some n s k v e h, some_winner k v e h)

  -- How many peers have voted for a hash.
  abbrev pub supporters : ℕ → BcpServer → ℕ
  supporters k s = count (λ v. header_hash v == k) s.vote_box

  elected_sound :
      (n k : ℕ) (s : BcpServer)
      → IsElection s
      → (v : Header) × ((get_elected_block_header n s).1 ≡ some v) × (header_hash v ≡ k)
      → n < supporters k s + supporters k s
  elected_sound n k s i (v, e, h) = elim (Election-cases n s i) [
    | inl (none', _) ↦ cc
    | inr (w, e', won) ↦
        let same : w ≡ v = ground arith in
        ground (arith, i.tally.counted k, ap header_hash same, won.2, h)
  ]

  elected_complete :
      (n k : ℕ) (s : BcpServer)
      → IsElection s
      → length s.vote_box ≤ n
      → n < supporters k s + supporters k s
      → (v : Header) × ((get_elected_block_header n s).1 ≡ some v) × (header_hash v ≡ k)
  elected_complete n k s i room more = elim (Election-cases n s i) [
    | inl (_, few) ↦ absurd (omega (arith, few k, i.tally.counted k))
    | inr (v, e, won) ↦ (
      v,
      ap (λ r. r.1) e,
      IsTally-majority header_hash s.vote_box s.vote_counts n (header_hash v) k i.tally room won.2
          (omega (arith, i.tally.counted k)),
    )
  ]

  -- In a server whose counts are those of its votes, while no more than `n` peers have voted, a
  -- header with the hash `k` is elected among `n` peers exactly when more than half of the `n` have
  -- voted for `k`.
  pub elected_iff :
      (n k : ℕ) (s : BcpServer)
      → IsElection s
      → length s.vote_box ≤ n
      → ((v : Header) × ((get_elected_block_header n s).1 ≡ some v) × (header_hash v ≡ k))
        ↔ (n < supporters k s + supporters k s)
  elected_iff n k s i room = (elected_sound n k s i, elected_complete n k s i room)

  module _ (peer : ℕ) (header : Header) (s : BcpServer) where
    vote-grows :
        (k : ℕ)
        → votes k s.vote_counts ≤ votes k (vote_block_header_for peer header s).0.vote_counts
    unfolding vote_block_header_for
    vote-grows k = ground (arith, votes-add_vote k (header_hash header) s.vote_counts)

    vote-keeps :
        (k : ℕ) (v : Header)
        → lookup k s.vote_headers ≡ some v
        → lookup k (vote_block_header_for peer header s).0.vote_headers ≡ some v
    unfolding vote_block_header_for
    vote-keeps k v e = ground (arith, lookup-insert k (header_hash header) header s.vote_headers)

  elected-Elects :
      (n : ℕ) (s : BcpServer) (v : Header)
      → IsElection s
      → (get_elected_block_header n s).1 ≡ some v
      → Elects n s (header_hash v) v
  elected-Elects n s v i e = elim (Election-cases n s i) [
    | inl (none', _) ↦ cc
    | inr (w, e', won) ↦
        let same : w ≡ v = ground arith in subst (λ x. Elects n s (header_hash x) x) same won
  ]

  Elects-elected :
      (n : ℕ) (s : BcpServer) (v : Header)
      → IsElection s
      → length s.vote_box ≤ n
      → Elects n s (header_hash v) v
      → (get_elected_block_header n s).1 ≡ some v
  Elects-elected n s v i room won = elim (Election-cases n s i) [
    | inl (_, few) ↦ absurd (omega (arith, few (header_hash v), won.2))
    | inr (u, f, now) ↦
        let hash : header_hash u ≡ header_hash v =
          IsTally-majority header_hash s.vote_box s.vote_counts n (header_hash u) (header_hash v)
            i.tally room now.2 won.2 in
        cc (won.0, now.0, f, hash)
  ]

  -- In a server whose counts are those of its votes, once a header is elected, a later vote leaves
  -- it elected, while no more than `n` peers have voted after that.
  pub vote_block_header_for-elected :
      (n peer : ℕ) (header v : Header) (s : BcpServer)
      → IsElection s
      → length (vote_block_header_for peer header s).0.vote_box ≤ n
      → (get_elected_block_header n s).1 ≡ some v
      → (get_elected_block_header n (vote_block_header_for peer header s).0).1 ≡ some v
  vote_block_header_for-elected n peer header v s i room e =
      let won = elected-Elects n s v i e in
      Elects-elected n _ v (vote_block_header_for-IsElection peer header s i) room (
        vote-keeps peer header s (header_hash v) v won.0,
        refl,
        omega (arith, vote-grows peer header s (header_hash v), won.2),
      )
