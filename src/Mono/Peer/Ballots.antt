-- ===== src/Mono/Peer/Ballots.antt =====
-- tests/dev/bcp_mono/node.cpp: the votes that onMessage() adds are not told apart by their senders.
use bcp_concept_prototype.Prelude.{
  ℕ, zero, suc, ◌+◌, ◌/◌, ◌≡◌, refl, ap, ◌∙◌, Bool, true, some, List, [], ◌∷◌, arith,
}
use bcp_concept_prototype.Core.{Core}
use bcp_concept_prototype.Mono.{MonoCore}
use bcp_concept_prototype.Mono.Vector.{add, count, exceeding, get_value_if_count_exceeds}
use bcp_concept_prototype.Mono.Peer.{Manager, vote_msg, update, receive, deliver, on_message}

-- The same value, `n` times.
copies {ℓ} : {T : Type ℓ} → ℕ → T → List T
copies zero v = []
copies (suc n) v = v ∷ copies n v

module _ {ℓ} {T : Type ℓ} (eq : T → T → Bool) (v : T) where
  add-copies : (n : ℕ) → add v (copies n v) ≡ copies (suc n) v
  unfolding add copies
  add-copies zero = refl
  add-copies (suc n) = ap (λ vs. v ∷ vs) (add-copies n)

  count-copies : (n : ℕ) → eq v v ≡ true → count eq v (copies n v) ≡ n
  unfolding count copies
  count-copies zero h = refl
  count-copies (suc n) h = ground (arith, count-copies n h)

  copies_exceed :
      (n : ℕ) → eq v v ≡ true → get_value_if_count_exceeds eq n (copies (suc n) v) ≡ some v
  unfolding get_value_if_count_exceeds exceeding copies
  copies_exceed n h = ground (arith, count-copies (suc n) h)

module _ ⦃c : Core⦄ ⦃k : MonoCore⦄ where
  open c use {Header, header_eq}

  abbrev pub votes_at : ℕ → Manager → List Header
  votes_at me m = (m.nodes me).vote_header

  -- The same vote message of one sender, handled `n` times.
  unfoldable pub vote_times : ℕ → ℕ → ℕ → Header → Manager → Manager
  vote_times zero me sender h m = m
  vote_times (suc n) me sender h m = vote_times n me sender h (on_message me sender (vote_msg h) m)

  one_vote :
      (me sender : ℕ) (h : Header) (m : Manager)
      → votes_at me (on_message me sender (vote_msg h) m) ≡ add h (votes_at me m)
  unfolding on_message deliver update receive
  one_vote me sender h m = ground arith

  all_votes :
      (n j me sender : ℕ) (h : Header) (m : Manager)
      → votes_at me m ≡ copies j h
      → votes_at me (vote_times n me sender h m) ≡ copies (n + j) h
  unfolding vote_times
  all_votes zero j me sender h m e = e ∙ ap (λ i. copies i h) (plus_zero j)
    where
      plus_zero : (i : ℕ) → i ≡ 0 + i
      plus_zero i = omega arith
  all_votes (suc n) j me sender h m e =
      all_votes n (suc j) me sender h _
        (one_vote me sender h m ∙ ap (add h) e ∙ add-copies header_eq h j)
      ∙ ap (λ i. copies i h) (shifted n j)
    where
      shifted : (a b : ℕ) → a + suc b ≡ suc a + b
      shifted a b = omega arith

  -- One sender alone can make a majority: if no votes have been received, the same vote message
  -- handled once more often than half the number of nodes wins the vote, if the header equals
  -- itself.
  pub on_message-one_voter :
      (me sender : ℕ) (h : Header) (m : Manager)
      → header_eq h h ≡ true
      → votes_at me m ≡ []
      → get_value_if_count_exceeds header_eq
          (m.peer_count / 2)
          (votes_at me (vote_times (suc (m.peer_count / 2)) me sender h m))
        ≡ some h
  unfolding copies
  on_message-one_voter me sender h m own e =
      ap (get_value_if_count_exceeds header_eq (m.peer_count / 2)) (
        all_votes (suc (m.peer_count / 2)) 0 me sender h m e
        ∙ ap (λ i. copies i h) (plus_none (suc (m.peer_count / 2))))
      ∙ copies_exceed header_eq h (m.peer_count / 2) own
    where
      plus_none : (i : ℕ) → i + 0 ≡ i
      plus_none i = omega arith
