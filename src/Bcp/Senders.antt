-- ===== src/Bcp/Senders.antt =====
-- bcp_server.cpp: the messages that add_verified_block() is called for, and the peers that sent the
-- blocks which find_commit_block() counts.
use mathlib.Core.Path.{subst}
use bcp_concept_prototype.Prelude.{
  ℕ, ◌+◌, ◌<◌, ◌≡◌, refl, sym, ◌∙◌, some, List, [], ◌∷◌, arith, length, ◌==◌, Bool-cases, inl, inr,
}
use bcp_concept_prototype.Prelude.Map.{Map, lookup, put, lookup-put, IsSorted, Below, put-IsSorted}
use bcp_concept_prototype.Core.{Core}
use bcp_concept_prototype.Bcp.{BcpServer}
use bcp_concept_prototype.Bcp.Votes.{get_elected_block_header, IsElection}
use bcp_concept_prototype.Bcp.Commit.{
  add_verified_block, find_commit_block, HasElected, IsSent, IsHistory, IsHistory-IsSent,
  IsCertified, add_verified_block_cases, elected-verified,
}

module _ ⦃c : Core⦄ where
  open c use {Block}

  -- The blocks of a list of messages, each with its sender, arrive in turn.
  unfoldable pub receive_all : ℕ → List (ℕ × Block) → BcpServer → BcpServer
  unfolding add_verified_block
  receive_all n [] s = s
  receive_all n ((p, b) ∷ msgs) s = receive_all n msgs (add_verified_block n p b s).0

  -- More than half of the `n` peers, each counted once, have a verified block with the elected header,
  -- which the peer has sent: it was the sender at a call of add_verified_block() since the server had
  -- no verified block.
  abbrev pub IsMajority : ℕ → BcpServer → Type 0
  IsMajority n s =
      IsSorted s.verified_blocks
      × Below n s.verified_blocks
      × (n < length s.verified_blocks + length s.verified_blocks)
      × (msgs : List (ℕ × Block)) × IsHistory n s msgs
      × ((p : ℕ) (d : Block)
          → lookup p s.verified_blocks ≡ some d
          → IsSent msgs p d × HasElected n s d)

  -- A certified server commits a block only with such a majority, and the block committed has the
  -- elected header.
  pub find_commit_block_certified :
      (n : ℕ) (s : BcpServer) (b : Block)
      → IsCertified n s
      → find_commit_block n s ≡ some b
      → IsMajority n s × HasElected n s b
  unfolding find_commit_block
  find_commit_block_certified n s b v e =
      let same : s.commit_block ≡ b = ground arith in
      let many : n < length s.verified_blocks + length s.verified_blocks = ground arith in
      (
        (
          v.senders.0,
          v.senders.1,
          many,
          v.history.0,
          v.history.1,
          λ p d l. (IsHistory-IsSent p d v.history.1 l, v.verified p d l),
        ),
        subst (HasElected n s) same (v.last (omega arith)),
      )

  -- And a majority of verified blocks is enough for a block to be committed.
  pub find_commit_block_majority :
      (n : ℕ) (s : BcpServer)
      → n < length s.verified_blocks + length s.verified_blocks
      → find_commit_block n s ≡ some s.commit_block
  unfolding find_commit_block
  find_commit_block_majority n s h = ground arith

  -- More than half of `n` in number, the peers of a map have each sent the block that stands there,
  -- with the elected header, and the block committed is one that was sent and has this header.
  abbrev pub IsSentByMajority : ℕ → List (ℕ × Block) → BcpServer → Block → Type 0
  IsSentByMajority n msgs s b =
      ((senders : Map Block) × IsSorted senders
        × (n < length senders + length senders)
        × ((p : ℕ) (d : Block) → lookup p senders ≡ some d → IsSent msgs p d × HasElected n s d))
      × ((p : ℕ) × IsSent msgs p b × HasElected n s b)

  module _ (n : ℕ) (Origin : ℕ → Block → Type 0) where
    -- What holds of a server `t` that was `s` before the blocks arrived.
    record IsReceived (s t : BcpServer) : Type 0 where
      election : IsElection t
      elected : (get_elected_block_header n t).1 ≡ (get_elected_block_header n s).1
      sorted : IsSorted t.verified_blocks
      sent :
          (p : ℕ) (d : Block) → lookup p t.verified_blocks ≡ some d → Origin p d × HasElected n s d
      last :
          0 < length t.verified_blocks
          → (p : ℕ) × Origin p t.commit_block × HasElected n s t.commit_block

    add_verified_block-IsReceived :
        (p : ℕ) (b : Block) (s t : BcpServer)
        → Origin p b
        → IsReceived s t
        → IsReceived s (add_verified_block n p b t).0
    add_verified_block-IsReceived p b s t o r = elim (add_verified_block_cases n p b t r.election) [
      | inl e ↦ rw e r
      | inr (free, (h, now, same), e) ↦
          let has : HasElected n s b = (h, sym r.elected ∙ now, same) in
          rw e (record {
            election = record {
              tally = r.election.tally;
              headed = r.election.headed;
              own = r.election.own;
            };
            elected = elected-verified n p b t ∙ r.elected;
            sorted = put-IsSorted p b _ r.sorted;
            sent = λ q d l. taken has q d l;
            last = λ _. (p, o, has);
          })
    ]
      where
        taken :
            HasElected n s b
            → (q : ℕ) (d : Block) → lookup q (put p b t.verified_blocks) ≡ some d
            → Origin q d × HasElected n s d
        taken has q d l = elim (Bool-cases (p == q)) [
          | inl this ↦
              let same : b ≡ d = ground (arith, lookup-put q p b t.verified_blocks) in
              let here : p ≡ q = ground arith in rw (← same, ← here) (o, has)
          | inr other ↦ r.sent q d (ground (arith, lookup-put q p b t.verified_blocks))
        ]

    receive_all-IsReceived :
        (msgs : List (ℕ × Block)) (s t : BcpServer)
        → ((p : ℕ) (d : Block) → IsSent msgs p d → Origin p d)
        → IsReceived s t
        → IsReceived s (receive_all n msgs t)
    unfolding receive_all
    receive_all-IsReceived [] s t o r = r
    receive_all-IsReceived ((p, b) ∷ msgs) s t o r =
        receive_all-IsReceived msgs s (add_verified_block n p b t).0 (λ q d i. o q d (inr i))
          (add_verified_block-IsReceived p b s t (o p b (inl (refl, refl))) r)

    unverified-IsReceived : (s : BcpServer) → IsElection s → s.verified_blocks ≡ [] → IsReceived s s
    unfolding lookup
    unverified-IsReceived s v e = record {
      election = v;
      elected = refl;
      sorted = rw e tt;
      sent = λ p d l. absurd (ground (arith, e));
      last = λ h. absurd (ground (arith, e));
    }

  -- A server whose votes are counted right and which has no verified block receives blocks of any
  -- senders, in any order and any number of times. If it then has a block to commit, there are
  -- distinct peers, more than half of `n` in number, each of which has sent a block with the header
  -- elected before, and the block to commit is one of those sent and has that header.
  pub find_commit_block-receive_all :
      (n : ℕ) (msgs : List (ℕ × Block)) (s : BcpServer) (b : Block)
      → IsElection s
      → s.verified_blocks ≡ []
      → find_commit_block n (receive_all n msgs s) ≡ some b
      → IsSentByMajority n msgs s b
  unfolding find_commit_block
  find_commit_block-receive_all n msgs s b v empty e =
      let t = receive_all n msgs s in
      let r =
        receive_all-IsReceived n (IsSent msgs) msgs s s (λ p d i. i)
          (unverified-IsReceived n (IsSent msgs) s v empty) in
      let same : t.commit_block ≡ b = ground arith in
      let many : n < length t.verified_blocks + length t.verified_blocks = ground arith in
      ((t.verified_blocks, r.sorted, many, r.sent), rw (← same) (r.last (omega arith)))
