-- ===== src/Mono/Peer/Commits.antt =====
-- tests/dev/bcp_mono/node.cpp: when onMain() extends the chain of a node.
use bcp_concept_prototype.Prelude.{ℕ, ◌/◌, ◌<◌, ◌≡◌, refl, true, ◌⊎◌, inl, inr}
use bcp_concept_prototype.Core.{Core}
use bcp_concept_prototype.Mono.{MonoCore}
use bcp_concept_prototype.Mono.Vector.{count}
use bcp_concept_prototype.Mono.Vector.Majority.{get_value_if_count_exceeds_sound}
use bcp_concept_prototype.Mono.Chain.{append_block}
use bcp_concept_prototype.Mono.Peer.{commit, Clock, round_time, Manager}
use bcp_concept_prototype.Mono.Peer.Mains.{on_main}
use bcp_concept_prototype.Mono.Peer.Settled.{state_at, chain_at}
use bcp_concept_prototype.Mono.Peer.Main.{on_main-ends}

module _ ⦃c : Core⦄ ⦃k : MonoCore⦄ where
  open c use {block_index}
  open k use {block_eq}

  -- One call of onMain() leaves the chain of the node as it was, or the node is in the commit
  -- state, the time of the round is past one second, and a block is appended of which more than
  -- half as many copies as there are nodes have been received.
  pub on_main_commit :
      (me : ℕ) (clock : Clock) (m : Manager)
      → (chain_at me (on_main me clock m) ≡ chain_at me m)
        ⊎ ((b : c.Block) × (state_at me m ≡ commit)
            × (1 < round_time clock)
            × (m.peer_count / 2 < count block_eq b (m.nodes me).commits)
            × (chain_at me (on_main me clock m)
                ≡ (append_block (block_index b) b true (chain_at me m)).0))
  unfolding on_main
  on_main_commit me clock m = elim (on_main-ends me clock (state_at me m) m refl) [
    | inl (t, move, settled) ↦ inl settled.1
    | inr (e, (b, late, won, moved, chain)) ↦
        inr
          (b, e, late, get_value_if_count_exceeds_sound block_eq (m.peer_count / 2) _ b won, chain)
  ]
