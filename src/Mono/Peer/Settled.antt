-- ===== src/Mono/Peer/Settled.antt =====
-- tests/dev/bcp_mono/node.cpp: what set_state() does to the nodes: one node is in the
-- new state, and all other states and all chains are as they were.
use bcp_concept_prototype.Prelude.{
  ℕ, ◌≡◌, ◌≢◌, refl, sym, ap, ◌∙◌, true, false, arith, ◌==◌, if◌then◌else◌, Bool-cases, inl, inr,
}
use bcp_concept_prototype.Core.{Core}
use bcp_concept_prototype.Mono.{MonoCore}
use bcp_concept_prototype.Mono.Chain.{BlockChain}
use bcp_concept_prototype.Mono.Peer.{
  NodeState, null, sync, waiting, new_round, propose, vote, commit, Clock, Node, Manager, update,
}
use bcp_concept_prototype.Mono.Peer.States.{state_eq, number_of, enter, set_state}
use bcp_concept_prototype.Mono.Peer.Quiet.{Same, Quiet, still, on_state_begin-Quiet}

of_number : ℕ → NodeState
of_number n =
    if n == 0
    then null
    else if n == 1
    then sync
    else if n == 2
    then waiting
    else if n == 3
    then new_round
    else if n == 4
    then propose
    else if n == 5
    then vote
    else commit

of_number-number_of : (s : NodeState) → of_number (number_of s) ≡ s
unfolding of_number
of_number-number_of null = refl
of_number-number_of sync = refl
of_number-number_of waiting = refl
of_number-number_of new_round = refl
of_number-number_of propose = refl
of_number-number_of vote = refl
of_number-number_of commit = refl

same_state : (s t : NodeState) → state_eq s t ≡ true → s ≡ t
same_state s t e =
    let numbers : number_of s ≡ number_of t = ground arith in
    sym (of_number-number_of s) ∙ ap of_number numbers ∙ of_number-number_of t

module _ ⦃c : Core⦄ ⦃k : MonoCore⦄ where
  abbrev pub state_at : ℕ → Manager → NodeState
  state_at me m = (m.nodes me).node_state

  abbrev pub chain_at : ℕ → Manager → BlockChain
  chain_at me m = (m.nodes me).block_chain

  -- The node `me` is in the state `s`, and the others have their chains and states.
  pub record IsMoved (me : ℕ) (s : NodeState) (old m : Manager) : Type 0 where
    pub counted : m.peer_count ≡ old.peer_count
    pub state : state_at me m ≡ s
    pub others : (j : ℕ) → me ≢ j → Same (old.nodes j) (m.nodes j)

  -- So, and its chain is that of before.
  abbrev pub Settled : ℕ → NodeState → Manager → Manager → Type 0
  Settled me s old m = IsMoved me s old m × (chain_at me m ≡ chain_at me old)

  pub Quiet-Settled :
      (me : ℕ) (s : NodeState) (old m : Manager)
      → state_at me old ≡ s
      → Quiet old m
      → Settled me s old m
  unfolding Quiet
  Quiet-Settled me s old m e q =
      (record { counted = q.0; state = (q.1 me).1 ∙ e; others = λ j d. q.1 j }, (q.1 me).0)

  pub IsMoved-trans :
      (me : ℕ) (s t : NodeState) (old m r : Manager)
      → IsMoved me s old m
      → IsMoved me t m r
      → IsMoved me t old r
  IsMoved-trans me s t old m r a b = record {
    counted = b.counted ∙ a.counted;
    state = b.state;
    others = λ j d. ((b.others j d).0 ∙ (a.others j d).0, (b.others j d).1 ∙ (a.others j d).1);
  }

  pub Settled-trans :
      (me : ℕ) (s t : NodeState) (old m r : Manager)
      → Settled me s old m
      → Settled me t m r
      → Settled me t old r
  Settled-trans me s t old m r a b = (IsMoved-trans me s t old m r a.0 b.0, b.1 ∙ a.1)

  -- A change of the node `me` alone.
  pub update-IsMoved :
      (me : ℕ) (f : Node → Node) (m : Manager)
      → IsMoved me (f (m.nodes me)).node_state m (update me f m)
  unfolding update
  update-IsMoved me f m = record {
    counted = refl;
    state = ground arith;
    others = λ j d. other j (ground (arith, d));
  }
    where
      other : (j : ℕ) → (me == j) ≡ false → Same (m.nodes j) ((update me f m).nodes j)
      other j e = rw (e, update) (refl, refl)

  pub update-chain :
      (me : ℕ) (f : Node → Node) (m : Manager)
      → chain_at me (update me f m) ≡ (f (m.nodes me)).block_chain
  unfolding update
  update-chain me f m = ground arith

  pub set_state-Settled :
      (me : ℕ) (clock : Clock) (s : NodeState) (m : Manager)
      → Settled me s m (set_state me clock s m)
  unfolding set_state enter
  set_state-Settled me clock s m = elim (Bool-cases (state_eq (state_at me m) s)) [
    | inl there ↦
        rw (there, set_state)
          (Quiet-Settled me s m m (same_state (state_at me m) s there) (still m))
    | inr fresh ↦
        let entered : Settled me s m (update me (enter clock s) m) =
          (update-IsMoved me (enter clock s) m, update-chain me (enter clock s) m) in
        rw (fresh, set_state)
          (Settled-trans me s s m _ _ entered (
            Quiet-Settled me s _ _ entered.0.state (on_state_begin-Quiet _ _ me clock s (still _))))
  ]
