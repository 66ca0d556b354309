-- ===== src/Mono/Peer/Moves.antt =====
-- tests/dev/bcp_mono/node.cpp: the moves of onMain() from state to state.
use bcp_concept_prototype.Prelude.{
  ℕ, ◌+◌, ◌/◌, ◌≤◌, ◌<◌, ◌≡◌, ◌≢◌, refl, Bool, true, false, arith, ◌==◌, ltb, leb, if◌then◌else◌,
  Bool-cases, Option-cases, inl, inr,
}
use bcp_concept_prototype.Core.{Core}
use bcp_concept_prototype.Mono.{MonoCore}
use bcp_concept_prototype.Mono.Vector.{get_value_if_count_exceeds}
use bcp_concept_prototype.Mono.Chain.{size}
use bcp_concept_prototype.Mono.Peer.{
  NodeState, sync, waiting, new_round, propose, vote, commit, bcp_timeout_pop, bcp_timeout_propose,
  bcp_timeout_vote, Clock, round_time, Manager,
}
use bcp_concept_prototype.Mono.Peer.States.{
  nat_eq, set_state, on_state_sync_begin, request_new_round,
}
use bcp_concept_prototype.Mono.Peer.Mains.{
  join_round, on_state_sync_main, on_state_waiting_main, on_state_vote_main,
}
use bcp_concept_prototype.Mono.Peer.Settled.{
  state_at, Settled, Quiet-Settled, Settled-trans, set_state-Settled,
}
use bcp_concept_prototype.Mono.Peer.Quiet.{
  still, update-Quiet, request_block_sync-Quiet, request_new_round-Quiet,
}

-- A move at a time of the round: no node stays in the sync state.
pub data Move (t : ℕ) : NodeState → NodeState → Type 0 where
  stay : {s : NodeState} → s ≢ sync → Move t s s
  synced : Move t sync waiting
  joined : Move t waiting new_round
  fell_behind : Move t waiting sync
  proposing : bcp_timeout_pop < t → Move t new_round propose
  voting : bcp_timeout_propose < t → Move t propose vote
  vote_failed : bcp_timeout_vote < t → Move t vote waiting
  elected : t ≤ bcp_timeout_vote → Move t vote commit
  commit_failed : t ≤ 1 → Move t commit waiting
  committed : 1 < t → Move t commit waiting

module _ ⦃c : Core⦄ ⦃k : MonoCore⦄ where
  open c use {header_eq}
  open k use {block_eq}

  pub on_state_sync_main-Settled :
      (me : ℕ) (clock : Clock) (m : Manager) → Settled me waiting m (on_state_sync_main me clock m)
  unfolding on_state_sync_main on_state_sync_begin
  on_state_sync_main-Settled me clock m =
      let left = set_state me clock waiting m in
      let gone : Settled me waiting m left = set_state-Settled me clock waiting m in
      elim (Bool-cases (ltb ((left.nodes me).sync_time + 1000) clock.now)) [
        | inl late ↦
            rw (late, on_state_sync_main)
              (Settled-trans me waiting waiting m left _ gone (
                Quiet-Settled me waiting left _ gone.0.state (
                  request_block_sync-Quiet left _ me
                    (update-Quiet left left me _ (refl, refl) (still left)))))
        | inr early ↦
            elim (Option-cases (
              get_value_if_count_exceeds nat_eq (left.peer_count / 2)
                (left.nodes me).sync_target_block_height)) [
                  | inl e ↦ rw (early, e, on_state_sync_main) gone
                  | inr (h, e) ↦
                      rw (early, e, on_state_sync_main)
                        (ends left gone (leb h (size (left.nodes me).block_chain)))
                ]
      ]
    where
      ends :
          (left : Manager)
          → Settled me waiting m left
          → (b : Bool) → Settled me waiting m (if b then set_state me clock waiting left else left)
      ends left gone true =
          Settled-trans me waiting waiting m left _ gone (set_state-Settled me clock waiting left)
      ends left gone false = gone

  -- Some move, with the chain of the node as it was.
  abbrev pub Moves : ℕ → Clock → NodeState → Manager → Manager → Type 0
  Moves me clock s old m = (t : NodeState) × Move (round_time clock) s t × Settled me t old m

  join_round-Moves :
      (me : ℕ) (clock : Clock) (own index : ℕ) (m : Manager)
      → state_at me m ≡ waiting
      → Moves me clock waiting m (join_round me clock own index m)
  unfolding join_round
  join_round-Moves me clock own index m e = elim (Bool-cases (own == index)) [
    | inl same ↦
        rw (same, join_round)
          (
            new_round,
            joined,
            Settled-trans me waiting new_round m _ _
                (Quiet-Settled me waiting m _ e (update-Quiet m m me _ (refl, refl) (still m)))
                (set_state-Settled me clock new_round _),
          )
    | inr other ↦ elim (Bool-cases (ltb own index)) [
      | inl behind ↦
          rw (other, behind, join_round) (sync, fell_behind, set_state-Settled me clock sync m)
      | inr ahead ↦
          rw (other, ahead, join_round)
            (waiting, stay (λ f. cc), Quiet-Settled me waiting m m e (still m))
    ]
  ]

  pub on_state_waiting_main-Moves :
      (me : ℕ) (clock : Clock) (m : Manager)
      → state_at me m ≡ waiting
      → Moves me clock waiting m (on_state_waiting_main me clock m)
  unfolding on_state_waiting_main
  on_state_waiting_main-Moves me clock m e =
      let own = size (m.nodes me).block_chain + 1 in
      let asked = request_new_round me clock own m in
      let calm : Settled me waiting m asked =
        Quiet-Settled me waiting m asked e (request_new_round-Quiet m m me clock own (still m)) in
      elim (Option-cases (
        get_value_if_count_exceeds nat_eq (asked.peer_count / 2)
          (asked.nodes me).received_new_round)) [
            | inl f ↦ rw (f, on_state_waiting_main) (waiting, stay (λ g. cc), calm)
            | inr (index, f) ↦
                let (t, move, settled) = join_round-Moves me clock own index asked calm.0.state in
                rw (f, on_state_waiting_main)
                  (t, move, Settled-trans me waiting t m asked _ calm settled)
          ]

  pub on_state_vote_main-Moves :
      (me : ℕ) (clock : Clock) (m : Manager)
      → state_at me m ≡ vote
      → Moves me clock vote m (on_state_vote_main me clock m)
  unfolding on_state_vote_main
  on_state_vote_main-Moves me clock m e =
      elim (Bool-cases (ltb bcp_timeout_vote (round_time clock))) [
        | inl late ↦
            rw (late, on_state_vote_main)
              (waiting, vote_failed (ground arith), set_state-Settled me clock waiting m)
        | inr early ↦
            elim (Option-cases
              (get_value_if_count_exceeds header_eq (m.peer_count / 2) (m.nodes me).vote_header)) [
                | inl f ↦
                    rw (early, f, on_state_vote_main)
                      (vote, stay (λ g. cc), Quiet-Settled me vote m m e (still m))
                | inr (h, f) ↦
                    rw (early, f, on_state_vote_main)
                      (
                        commit,
                        elected (ground arith),
                        Settled-trans me vote commit m _ _
                            (Quiet-Settled me vote m _ e
                              (update-Quiet m m me _ (refl, refl) (still m)))
                            (set_state-Settled me clock commit _),
                      )
              ]
      ]
