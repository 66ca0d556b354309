-- ===== src/Bcp/Votes.antt =====
-- bcp_server.cpp: vote_block_header_for() and get_elected_block_header(). A header is elected by more
-- than half of the peers.
use bcp_concept_prototype.Prelude.{
  ℕ, ◌+◌, ◌/◌, ◌<◌, ◌≡◌, refl, Bool, true, false, Option, none, some, arith, leb, if◌then◌else◌,
}
use bcp_concept_prototype.Prelude.Map.{insert, lookup-insert, lookup, put, contains}
use bcp_concept_prototype.Core.{Core}
use bcp_concept_prototype.Bcp.{BcpServer}
use bcp_concept_prototype.Bcp.Tally.{
  votes, add_vote, votes-add_vote, first_passing, IsTally, IsTally-vote,
}

-- ( all_peer_count / 2 ) + 1
abbrev pub majority : ℕ → ℕ
majority n = n / 2 + 1

abbrev pub qualified : ℕ → ℕ → ℕ → Bool
qualified n hash k = leb (majority n) k

module _ ⦃c : Core⦄ where
  open c use {Header, header_hash, null_header}

  -- The second vote of a peer is refused. The first header of each hash is kept.
  unfoldable pub vote_block_header_for : ℕ → Header → BcpServer → BcpServer × Bool
  vote_block_header_for peer header s =
      if contains peer s.vote_box
      then (s, false)
      else let hash = header_hash header in
        (
          record s {
            vote_box = put peer header s.vote_box;
            vote_headers = insert hash header s.vote_headers;
            vote_counts = add_vote hash s.vote_counts;
          },
          true,
        )

  -- _vote_headers[ hash ], which makes an entry where there is none
  unfoldable pub vote_header_at : ℕ → BcpServer → BcpServer × Header
  vote_header_at hash s = elim (lookup hash s.vote_headers) [
    | none ↦ (record s { vote_headers = put hash null_header s.vote_headers }, null_header)
    | some header ↦ (s, header)
  ]

  -- The out-parameter is none where it returns false.
  unfoldable pub get_elected_block_header : ℕ → BcpServer → BcpServer × Option Header
  unfolding vote_header_at
  get_elected_block_header all_peer_count s =
      elim (first_passing (qualified all_peer_count) s.vote_counts) [
        | none ↦ (s, none)
        | some hash ↦ let (s', header) = vote_header_at hash s in (s', some header)
      ]

  -- The counts are those of the vote box, and every hash with a vote has its header.
  pub record IsElection (s : BcpServer) : Type 0 where
    pub tally : IsTally header_hash s.vote_box s.vote_counts
    pub headed :
        (k : ℕ) → 0 < votes k s.vote_counts → (v : Header) × (lookup k s.vote_headers ≡ some v)
    pub own : (k : ℕ) (v : Header) → lookup k s.vote_headers ≡ some v → header_hash v ≡ k

  module _ (peer : ℕ) (header : Header) (s : BcpServer) (v : IsElection s) where
    insert-headed :
        (k : ℕ)
        → 0 < votes k (add_vote (header_hash header) s.vote_counts)
        → (w : Header) × (lookup k (insert (header_hash header) header s.vote_headers) ≡ some w)
    insert-headed k p = ground (
      arith,
      lookup-insert k (header_hash header) header s.vote_headers,
      votes-add_vote k (header_hash header) s.vote_counts,
      v.headed k,
    )

    insert-own :
        (k : ℕ) (w : Header)
        → lookup k (insert (header_hash header) header s.vote_headers) ≡ some w
        → header_hash w ≡ k
    insert-own k w e =
        ground (arith, lookup-insert k (header_hash header) header s.vote_headers, v.own k w)

    -- If the counts are those of the votes and each hash with a vote has its header, this is so
    -- after one more vote, accepted or refused.
    pub vote_block_header_for-IsElection : IsElection (vote_block_header_for peer header s).0
    vote_block_header_for-IsElection = go (lookup peer s.vote_box) refl
      where
        go :
            (o : Option Header)
            → lookup peer s.vote_box ≡ o
            → IsElection (vote_block_header_for peer header s).0
        go (some w) e = unfold vote_block_header_for in rw e v
        go none e =
            unfold vote_block_header_for in
            rw e (record {
              tally = IsTally-vote header_hash peer header _ _ e v.tally;
              headed = insert-headed;
              own = insert-own;
            })
