-- ===== src/Mono/Peer/Quiet.antt =====
-- tests/dev/bcp_mono/node.cpp: what no message touches. The handlers and the begin of a state leave the
-- chain and the state of every node.
use bcp_concept_prototype.Prelude.{
  ℕ, zero, suc, ◌≡◌, refl, ◌∙◌, not, ◌&&◌, ltb, Bool, true, false, arith, ◌==◌, if◌then◌else◌,
  Bool-cases, Option-cases, inl, inr,
}
use mathlib.Core.Path.{subst}
use bcp_concept_prototype.Core.{Core}
use bcp_concept_prototype.Mono.{MonoCore}
use bcp_concept_prototype.Mono.Vector.{low_value}
use bcp_concept_prototype.Mono.Peer.{
  NodeState, null, sync, waiting, new_round, propose, vote, commit, Clock, round_time,
  bcp_timeout_pop, for_nodes, Node, Manager, Message, block_height_req, block_height_ack, block_req,
  block_ack, new_round_msg, propose_msg, vote_msg, commit_msg, commit_block_req, commit_block_ack,
  update, receive, deliver, request_commit, take_block, is_elected_block, on_commit_block_ack,
  on_commit_block_req, on_block_height_req, on_message, sendall,
}
use bcp_concept_prototype.Mono.Peer.States.{
  create_block_for, nominate, on_state_new_round_begin, on_state_sync_begin, on_state_waiting_begin,
  on_state_propose_begin, on_state_vote_begin, on_state_commit_begin, on_state_begin,
  request_block_sync, begin_round, request_new_round,
}

module _ ⦃c : Core⦄ ⦃k : MonoCore⦄ where
  open c use {Header, Block, header}
  open k use {header_lt}

  -- The chain and the state are those of before.
  abbrev pub Same : Node → Node → Type 0
  Same old node = (node.block_chain ≡ old.block_chain) × (node.node_state ≡ old.node_state)

  unfoldable pub Quiet : Manager → Manager → Type 0
  Quiet old m = (m.peer_count ≡ old.peer_count) × ((j : ℕ) → Same (old.nodes j) (m.nodes j))

  pub still : (m : Manager) → Quiet m m
  unfolding Quiet
  still m = (refl, λ j. (refl, refl))

  pub update-Quiet :
      (old m : Manager) (p : ℕ) (f : Node → Node)
      → Same (m.nodes p) (f (m.nodes p))
      → Quiet old m
      → Quiet old (update p f m)
  unfolding Quiet update
  update-Quiet old m p f keep q = (q.0, λ j. at j)
    where
      at : (j : ℕ) → Same (old.nodes j) ((update p f m).nodes j)
      at j = elim (Bool-cases (p == j)) [
        | inl this ↦
            let here : p ≡ j = ground arith in
            let kept = subst (λ i. Same (m.nodes i) (f (m.nodes i))) here keep in
            rw (this, update) (kept.0 ∙ (q.1 j).0, kept.1 ∙ (q.1 j).1)
        | inr other ↦ rw (other, update) (q.1 j)
      ]

  for_nodes-Quiet :
      (old : Manager) (f : ℕ → Manager → Manager) (n p : ℕ) (m : Manager)
      → ((i : ℕ) (r : Manager) → Quiet old r → Quiet old (f i r))
      → Quiet old m
      → Quiet old (for_nodes n p f m)
  unfolding for_nodes
  for_nodes-Quiet old f zero p m step q = q
  for_nodes-Quiet old f (suc n) p m step q =
      for_nodes-Quiet old f n (suc p) (f p m) step (step p m q)

  receive-Same : (msg : Message) (node : Node) → Same node (receive msg node)
  unfolding receive
  receive-Same (block_height_req h) node = (refl, refl)
  receive-Same (block_height_ack h) node = (refl, refl)
  receive-Same (block_req i) node = (refl, refl)
  receive-Same (block_ack b) node = (refl, refl)
  receive-Same (new_round_msg i) node = (refl, refl)
  receive-Same (propose_msg h) node = (refl, refl)
  receive-Same (vote_msg h) node = (refl, refl)
  receive-Same (commit_msg b) node = (refl, refl)
  receive-Same (commit_block_req h) node = (refl, refl)
  receive-Same (commit_block_ack b) node = (refl, refl)

  deliver-Quiet :
      (old m : Manager) (p : ℕ) (msg : Message) → Quiet old m → Quiet old (deliver p msg m)
  unfolding deliver
  deliver-Quiet old m p msg q = update-Quiet old m p _ (receive-Same msg (m.nodes p)) q

  on_commit_block_ack-Quiet :
      (old m : Manager) (me : ℕ) (b : Block) → Quiet old m → Quiet old (on_commit_block_ack me b m)
  unfolding on_commit_block_ack request_commit take_block
  on_commit_block_ack-Quiet old m me b q =
      let taken = update-Quiet old m me (take_block b) (refl, refl) q in
      elim (Bool-cases (is_elected_block ((update me (take_block b) m).nodes me))) [
        | inl good ↦
            rw (good, on_commit_block_ack)
              (for_nodes-Quiet old _ _ 0 _ (λ i r h. deliver-Quiet old r i _ h) taken)
        | inr bad ↦ rw (bad, on_commit_block_ack) taken
      ]

  on_message-Quiet :
      (old m : Manager) (me sender : ℕ) (msg : Message)
      → Quiet old m
      → Quiet old (on_message me sender msg m)
  unfolding on_message on_block_height_req on_commit_block_req
  on_message-Quiet old m me sender (block_height_req h) q = deliver-Quiet old m sender _ q
  on_message-Quiet old m me sender (commit_block_req h) q =
      elim (Bool-cases (c.header_eq h (header (m.nodes me).new_block))) [
        | inl mine ↦ rw mine (on_commit_block_ack-Quiet old m sender _ q)
        | inr other ↦ rw other q
      ]
  on_message-Quiet old m me sender (commit_block_ack b) q = on_commit_block_ack-Quiet old m me b q
  on_message-Quiet old m me sender (block_height_ack h) q = deliver-Quiet old m me _ q
  on_message-Quiet old m me sender (block_req i) q = deliver-Quiet old m me _ q
  on_message-Quiet old m me sender (block_ack b) q = deliver-Quiet old m me _ q
  on_message-Quiet old m me sender (new_round_msg i) q = deliver-Quiet old m me _ q
  on_message-Quiet old m me sender (propose_msg h) q = deliver-Quiet old m me _ q
  on_message-Quiet old m me sender (vote_msg h) q = deliver-Quiet old m me _ q
  on_message-Quiet old m me sender (commit_msg b) q = deliver-Quiet old m me _ q

  pub sendall-Quiet :
      (old m : Manager) (sender : ℕ) (msg : Message)
      → Quiet old m
      → Quiet old (sendall sender msg m)
  unfolding sendall
  sendall-Quiet old m sender msg q =
      for_nodes-Quiet old _ _ 0 m (λ i r h. on_message-Quiet old r i sender msg h) q

  new_round_begin-Same : (node : Node) → Same node (on_state_new_round_begin node)
  unfolding on_state_new_round_begin nominate
  new_round_begin-Same node = elim (Option-cases (create_block_for node.new_block_index node)) [
    | inl e ↦ rw (e, on_state_new_round_begin) (refl, refl)
    | inr (b, e) ↦ rw (e, on_state_new_round_begin) (refl, refl)
  ]

  pub on_state_begin-Quiet :
      (old m : Manager) (me : ℕ) (clock : Clock) (s : NodeState)
      → Quiet old m
      → Quiet old (on_state_begin me clock s m)
  unfolding on_state_begin on_state_sync_begin on_state_waiting_begin on_state_propose_begin
      on_state_vote_begin on_state_commit_begin
  on_state_begin-Quiet old m me clock null q = q
  on_state_begin-Quiet old m me clock sync q = update-Quiet old m me _ (refl, refl) q
  on_state_begin-Quiet old m me clock waiting q = update-Quiet old m me _ (refl, refl) q
  on_state_begin-Quiet old m me clock new_round q =
      update-Quiet old m me _ (new_round_begin-Same (m.nodes me)) q
  on_state_begin-Quiet old m me clock propose q =
      elim (Option-cases (low_value header_lt (m.nodes me).user_block_header)) [
        | inl e ↦ rw (e, on_state_begin, on_state_propose_begin) q
        | inr (h, e) ↦ rw (e, on_state_begin, on_state_propose_begin) (sendall-Quiet old m me _ q)
      ]
  on_state_begin-Quiet old m me clock vote q =
      elim (Option-cases (low_value header_lt (m.nodes me).propose_header)) [
        | inl e ↦ rw (e, on_state_begin, on_state_vote_begin) q
        | inr (h, e) ↦ rw (e, on_state_begin, on_state_vote_begin) (sendall-Quiet old m me _ q)
      ]
  on_state_begin-Quiet old m me clock commit q = sendall-Quiet old m me _ q

  pub request_block_sync-Quiet :
      (old m : Manager) (me : ℕ) → Quiet old m → Quiet old (request_block_sync me m)
  unfolding request_block_sync
  request_block_sync-Quiet old m me q =
      sendall-Quiet old _ me _ (update-Quiet old m me _ (refl, refl) q)

  begin_round-Same : (clock : Clock) (node : Node) → Same node (begin_round clock node)
  unfolding begin_round
  begin_round-Same clock node = ground arith

  pub request_new_round-Quiet :
      (old m : Manager) (me : ℕ) (clock : Clock) (index : ℕ)
      → Quiet old m
      → Quiet old (request_new_round me clock index m)
  unfolding request_new_round
  request_new_round-Quiet old m me clock index q =
      let begun = update-Quiet old m me _ (begin_round-Same clock (m.nodes me)) q in
      ends _ _
        (not ((update me (begin_round clock) m).nodes me).new_round_message_sent
          && ltb (round_time clock) bcp_timeout_pop)
        (sendall-Quiet old _ me _ (update-Quiet old _ me _ (refl, refl) begun)) begun
    where
      ends : (x y : Manager) (b : Bool) → Quiet old x → Quiet old y → Quiet old (if b then x else y)
      ends x y true p q = p
      ends x y false p q = q
