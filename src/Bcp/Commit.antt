-- ===== src/Bcp/Commit.antt =====
-- bcp_server.cpp: add_verified_block() and find_commit_block(). A block is committed when more than
-- half of the peers have sent a block with the elected header.
use mathlib.Core.Path.{subst}
use bcp_concept_prototype.Prelude.{
  ℕ, ◌≤◌, ◌<◌, ◌≡◌, refl, ap, Bool, true, false, Option, none, some, List, [], ◌∷◌, arith, leb,
  ◌==◌, if◌then◌else◌, length, Bool-cases, ◌⊎◌, inl, inr, Option-cases, ◌∙◌,
}
use bcp_concept_prototype.Prelude.Map.{
  lookup, put, contains, lookup-put, IsSorted, Below, put-IsSorted, put-Below,
}
use bcp_concept_prototype.Core.{Core}
use bcp_concept_prototype.Bcp.{BcpServer}
use bcp_concept_prototype.Bcp.Votes.{
  majority, get_elected_block_header, vote_block_header_for, IsElection,
  vote_block_header_for-IsElection,
}
use bcp_concept_prototype.Bcp.Election.{Election-cases, vote_block_header_for-elected}

module _ ⦃c : Core⦄ where
  open c use {Header, Block, header, header_eq}

  -- The block of a peer counts once, and only with the elected header.
  unfoldable pub add_verified_block : ℕ → ℕ → Block → BcpServer → BcpServer × Bool
  add_verified_block all_peer_count peer b s =
      if contains peer s.verified_blocks
      then (s, false)
      else let (s', elected) = get_elected_block_header all_peer_count s in
        elim elected [
          | none ↦ (s', false)
          | some h ↦
              if header_eq (header b) h
              then (
                record s' { verified_blocks = put peer b s'.verified_blocks; commit_block = b },
                true,
              )
              else (s', false)
        ]

  -- The out-parameter and the result in one: none where it returns false.
  unfoldable pub find_commit_block : ℕ → BcpServer → Option Block
  find_commit_block all_peer_count s =
      if leb (majority all_peer_count) (length s.verified_blocks) then some s.commit_block else none

  -- The block has the elected header.
  abbrev pub HasElected : ℕ → BcpServer → Block → Type 0
  HasElected n s b =
      (h : Header) × ((get_elected_block_header n s).1 ≡ some h) × (header_eq (header b) h ≡ true)

  -- The peer has sent the block.
  abbrev pub IsSent : List (ℕ × Block) → ℕ → Block → Type 0
  IsSent [] p b = ⊥
  IsSent ((q, d) ∷ msgs) p b = ((q ≡ p) × (d ≡ b)) ⊎ IsSent msgs p b

  -- The calls of add_verified_block(), the last one first, since the server had no verified block:
  -- each is the sender of a message and its block. Nothing else changes the verified blocks.
  pub data IsHistory (n : ℕ) : BcpServer → List (ℕ × Block) → Type 0 where
    empty : {s : BcpServer} → s.verified_blocks ≡ [] → IsHistory n s []
    arrived :
        {s : BcpServer} {msgs : List (ℕ × Block)} (p : ℕ) (b : Block)
        → IsHistory n s msgs
        → IsHistory n (add_verified_block n p b s).0 ((p, b) ∷ msgs)
    aside :
        {s t : BcpServer} {msgs : List (ℕ × Block)}
        → t.verified_blocks ≡ s.verified_blocks
        → IsHistory n s msgs
        → IsHistory n t msgs

  -- Every verified block has the elected header, and so has the block to commit. The verified blocks
  -- are stored under distinct peers below `n`, and come from calls of add_verified_block().
  pub record IsCertified (n : ℕ) (s : BcpServer) : Type 0 where
    pub election : IsElection s
    pub room : length s.vote_box ≤ n
    pub history : (msgs : List (ℕ × Block)) × IsHistory n s msgs
    pub senders : IsSorted s.verified_blocks × Below n s.verified_blocks
    pub verified : (p : ℕ) (b : Block) → lookup p s.verified_blocks ≡ some b → HasElected n s b
    pub last : 0 < length s.verified_blocks → HasElected n s s.commit_block

  -- The three ends of add_verified_block().
  pub add_verified_block_cases :
      (n peer : ℕ) (b : Block) (s : BcpServer)
      → IsElection s
      → (add_verified_block n peer b s ≡ (s, false))
        ⊎ ((lookup peer s.verified_blocks ≡ none)
            × HasElected n s b
            × (add_verified_block n peer b s ≡ (
              record s { verified_blocks = put peer b s.verified_blocks; commit_block = b },
              true,
            )))
  unfolding add_verified_block
  add_verified_block_cases n peer b s i = elim (Option-cases (lookup peer s.verified_blocks)) [
    | inr (x, taken) ↦ inl (rw (taken, add_verified_block))
    | inl free ↦ elim (Election-cases n s i) [
      | inl (e, _) ↦ inl (rw (free, e, add_verified_block) (ground arith))
      | inr (h, e, _) ↦ elim (Bool-cases (header_eq (header b) h)) [
        | inl same ↦ inr (
          free,
          (h, ap (λ r. r.1) e, same),
          rw (free, e, same, add_verified_block) (ground arith),
        )
        | inr other ↦ inl (rw (free, e, other, add_verified_block) (ground arith))
      ]
    ]
  ]

  -- The election does not look at the verified blocks.
  pub elected-verified :
      (n peer : ℕ) (b : Block) (s : BcpServer)
      → (get_elected_block_header n
          (record s { verified_blocks = put peer b s.verified_blocks; commit_block = b })).1
        ≡ (get_elected_block_header n s).1
  unfolding get_elected_block_header
  elected-verified n peer b s = ground arith

  -- A verified block of a peer below `n`, accepted or refused, keeps the server certified.
  pub add_verified_block-IsCertified :
      (n peer : ℕ) (b : Block) (s : BcpServer)
      → peer < n
      → IsCertified n s
      → IsCertified n (add_verified_block n peer b s).0
  add_verified_block-IsCertified n peer b s lt v =
      let (msgs, calls) = v.history in
      let longer : (log : List (ℕ × Block)) × IsHistory n (add_verified_block n peer b s).0 log =
        ((peer, b) ∷ msgs, arrived peer b calls) in
      elim (add_verified_block_cases n peer b s v.election) [
        | inl e ↦ rw e v
        | inr (free, (h, elected, same), e) ↦
            let kept = elected-verified n peer b s in
            rw e (record {
              election = record {
                tally = v.election.tally;
                headed = v.election.headed;
                own = v.election.own;
              };
              room = v.room;
              history = rw e at longer;
              senders = (put-IsSorted peer b _ v.senders.0, put-Below n peer b _ lt v.senders.1);
              verified = λ p d l. rw kept (taken p d (h, elected, same) l);
              last = λ _. (h, kept ∙ elected, same);
            })
      ]
    where
      taken :
          (p : ℕ) (d : Block)
          → HasElected n s b
          → lookup p (put peer b s.verified_blocks) ≡ some d
          → HasElected n s d
      taken p d now l = elim (Bool-cases (peer == p)) [
        | inl this ↦
            let same : b ≡ d = ground (arith, lookup-put p peer b s.verified_blocks) in
            subst (HasElected n s) same now
        | inr other ↦ v.verified p d (ground (arith, lookup-put p peer b s.verified_blocks))
      ]

  vote-verified :
      (peer : ℕ) (h : Header) (s : BcpServer)
      → ((vote_block_header_for peer h s).0.verified_blocks ≡ s.verified_blocks)
        × ((vote_block_header_for peer h s).0.commit_block ≡ s.commit_block)
  unfolding vote_block_header_for
  vote-verified peer h s = ground arith

  -- So does a vote, while no more than `n` peers vote.
  pub vote_block_header_for-IsCertified :
      (n peer : ℕ) (h : Header) (s : BcpServer)
      → IsCertified n s
      → length (vote_block_header_for peer h s).0.vote_box ≤ n
      → IsCertified n (vote_block_header_for peer h s).0
  vote_block_header_for-IsCertified n peer h s v room =
      let (blocks, block) = vote-verified peer h s in
      record {
        election = vote_block_header_for-IsElection peer h s v.election;
        room = room;
        history = (v.history.0, aside blocks v.history.1);
        senders = rw blocks v.senders;
        verified = λ p b l. still b (v.verified p b (rw blocks at l));
        last = λ some_block. rw block (still s.commit_block (v.last (rw blocks at some_block)));
      }
    where
      still : (b : Block) → HasElected n s b → HasElected n (vote_block_header_for peer h s).0 b
      still b (w, e, same) = (w, vote_block_header_for-elected n peer h w s v.election room e, same)

  asked-verified :
      (n : ℕ) (s : BcpServer) → (get_elected_block_header n s).0.verified_blocks ≡ s.verified_blocks
  unfolding get_elected_block_header
  asked-verified n s = ground arith

  verified-put :
      (n peer : ℕ) (b : Block) (s : BcpServer)
      → ((add_verified_block n peer b s).0.verified_blocks ≡ s.verified_blocks)
        ⊎ ((add_verified_block n peer b s).0.verified_blocks ≡ put peer b s.verified_blocks)
  unfolding add_verified_block
  verified-put n peer b s =
      let same = asked-verified n s in
      elim (Option-cases (lookup peer s.verified_blocks)) [
        | inr (x, taken) ↦ inl (rw (taken, add_verified_block) refl)
        | inl free ↦ elim (Option-cases (get_elected_block_header n s).1) [
          | inl e ↦ inl (rw (free, e, add_verified_block) same)
          | inr (h, e) ↦ elim (Bool-cases (header_eq (header b) h)) [
            | inl q ↦ inr (rw (free, e, q, add_verified_block) (ap (put peer b) same))
            | inr q ↦ inl (rw (free, e, q, add_verified_block) same)
          ]
        ]
      ]

  verified-added :
      (n peer q : ℕ) (b d : Block) (s : BcpServer)
      → lookup q (add_verified_block n peer b s).0.verified_blocks ≡ some d
      → ((peer ≡ q) × (b ≡ d)) ⊎ (lookup q s.verified_blocks ≡ some d)
  verified-added n peer q b d s l = elim (verified-put n peer b s) [
    | inl e ↦ inr (rw e at l)
    | inr e ↦
        let found : lookup q (put peer b s.verified_blocks) ≡ some d = rw e at l in
        elim (Bool-cases (peer == q)) [
          | inl this ↦ inl (ground arith, ground (arith, lookup-put q peer b s.verified_blocks))
          | inr other ↦ inr (ground (arith, lookup-put q peer b s.verified_blocks))
        ]
  ]

  -- A verified block stands under the peer that sent it.
  pub IsHistory-IsSent :
      {n : ℕ} {s : BcpServer} {msgs : List (ℕ × Block)} (p : ℕ) (d : Block)
      → IsHistory n s msgs
      → lookup p s.verified_blocks ≡ some d
      → IsSent msgs p d
  unfolding lookup
  IsHistory-IsSent p d (empty e) l = absurd (ground (arith, e, l))
  IsHistory-IsSent {n = n} p d (arrived {s = s} q b h) l = elim (verified-added n q p b d s l) [
    | inl now ↦ inl now
    | inr before ↦ inr (IsHistory-IsSent p d h before)
  ]
  IsHistory-IsSent p d (aside e h) l = IsHistory-IsSent p d h (rw e at l)
