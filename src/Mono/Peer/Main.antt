-- ===== src/Mono/Peer/Main.antt =====
-- tests/dev/bcp_mono/node.cpp: one call of onMain(), over the moves of the single states.
use bcp_concept_prototype.Prelude.{
  ℕ, ◌/◌, ◌<◌, ◌≡◌, ◌≢◌, refl, sym, ◌∙◌, true, some, arith, ltb, leb, Bool-cases, Option-cases, ◌⊎◌,
  inl, inr,
}
use mathlib.Core.Path.{subst}
use bcp_concept_prototype.Core.{Core}
use bcp_concept_prototype.Mono.{MonoCore}
use bcp_concept_prototype.Mono.Vector.{get_value_if_count_exceeds}
use bcp_concept_prototype.Mono.Chain.{append_block}
use bcp_concept_prototype.Mono.Peer.{
  NodeState, null, sync, waiting, new_round, propose, vote, commit, bcp_timeout_pop,
  bcp_timeout_propose, Clock, round_time, Manager, update,
}
use bcp_concept_prototype.Mono.Peer.Mains.{
  append, on_state_new_round_main, on_state_propose_main, on_state_commit_main, on_state_main,
  on_main,
}
use bcp_concept_prototype.Mono.Peer.Settled.{
  state_at, chain_at, IsMoved, Quiet-Settled, IsMoved-trans, update-IsMoved, update-chain,
  set_state-Settled,
}
use bcp_concept_prototype.Mono.Peer.Quiet.{Same, still}
use bcp_concept_prototype.Mono.Peer.Moves.{
  Move, stay, synced, proposing, voting, commit_failed, committed, Moves,
  on_state_sync_main-Settled, on_state_waiting_main-Moves, on_state_vote_main-Moves,
}

module _ ⦃c : Core⦄ ⦃k : MonoCore⦄ where
  open k use {block_eq}

  -- What a commit that succeeds does to the node.
  abbrev pub Commits : ℕ → Clock → Manager → Manager → Type 0
  Commits me clock m r =
      (b : c.Block) × (1 < round_time clock)
      × (get_value_if_count_exceeds block_eq (m.peer_count / 2) (m.nodes me).commits ≡ some b)
      × IsMoved me waiting m r
      × (chain_at me r ≡ (append_block (c.block_index b) b true (chain_at me m)).0)

  on_state_commit_main-ends :
      (me : ℕ) (clock : Clock) (m : Manager)
      → state_at me m ≡ commit
      → Moves me clock commit m (on_state_commit_main me clock m)
        ⊎ Commits me clock m (on_state_commit_main me clock m)
  unfolding on_state_commit_main append
  on_state_commit_main-ends me clock m e = elim (Bool-cases (leb (round_time clock) 1)) [
    | inl late ↦
        rw (late, on_state_commit_main)
          (inl (waiting, commit_failed (ground arith), set_state-Settled me clock waiting m))
    | inr early ↦
        elim (Option-cases
          (get_value_if_count_exceeds block_eq (m.peer_count / 2) (m.nodes me).commits)) [
            | inl f ↦
                rw (early, f, on_state_commit_main)
                  (inl (commit, stay (λ g. cc), Quiet-Settled me commit m m e (still m)))
            | inr (b, f) ↦
                let done = set_state-Settled me clock waiting (update me (append b) m) in
                let moved =
                  IsMoved-trans me _ waiting m _ _ (update-IsMoved me (append b) m) done.0 in
                rw (early, f, on_state_commit_main)
                  (inr (b, ground arith, refl, moved, done.1 ∙ update-chain me (append b) m))
          ]
  ]

  pub on_main-ends :
      (me : ℕ) (clock : Clock) (s : NodeState) (m : Manager)
      → state_at me m ≡ s
      → Moves me clock s m (on_state_main me clock s m)
        ⊎ ((s ≡ commit) × Commits me clock m (on_state_main me clock s m))
  unfolding on_state_main on_state_new_round_main on_state_propose_main
  on_main-ends me clock null m e = inl (null, stay (λ g. cc), Quiet-Settled me null m m e (still m))
  on_main-ends me clock sync m e = inl (waiting, synced, on_state_sync_main-Settled me clock m)
  on_main-ends me clock waiting m e = inl (on_state_waiting_main-Moves me clock m e)
  on_main-ends me clock new_round m e = elim (Bool-cases (ltb bcp_timeout_pop (round_time clock))) [
    | inl late ↦
        rw (late, on_state_main, on_state_new_round_main)
          (inl (propose, proposing (ground arith), set_state-Settled me clock propose m))
    | inr early ↦
        rw (early, on_state_main, on_state_new_round_main)
          (inl (new_round, stay (λ g. cc), Quiet-Settled me new_round m m e (still m)))
  ]
  on_main-ends me clock propose m e =
      elim (Bool-cases (ltb bcp_timeout_propose (round_time clock))) [
        | inl late ↦
            rw (late, on_state_main, on_state_propose_main)
              (inl (vote, voting (ground arith), set_state-Settled me clock vote m))
        | inr early ↦
            rw (early, on_state_main, on_state_propose_main)
              (inl (propose, stay (λ g. cc), Quiet-Settled me propose m m e (still m)))
      ]
  on_main-ends me clock vote m e = inl (on_state_vote_main-Moves me clock m e)
  on_main-ends me clock commit m e = elim (on_state_commit_main-ends me clock m e) [
    | inl moves ↦ inl moves
    | inr commits ↦ inr (refl, commits)
  ]

  -- One call of onMain() takes the node by one move of the protocol, within its part of the round,
  -- and out of the sync state at once; all other nodes keep their states and their chains.
  pub on_main-Move :
      (me : ℕ) (clock : Clock) (m : Manager)
      → Move (round_time clock) (state_at me m) (state_at me (on_main me clock m))
        × ((j : ℕ) → me ≢ j → Same (m.nodes j) ((on_main me clock m).nodes j))
  unfolding on_main
  on_main-Move me clock m = elim (on_main-ends me clock (state_at me m) m refl) [
    | inl (t, move, settled) ↦ (
      subst (Move (round_time clock) (state_at me m)) (sym settled.0.state) move,
      settled.0.others,
    )
    | inr (e, (b, late, won, moved, chain)) ↦ (
      subst (Move (round_time clock) (state_at me m)) (sym moved.state)
          (subst (λ s. Move (round_time clock) s waiting) (sym e) (committed late)),
      moved.others,
    )
  ]
