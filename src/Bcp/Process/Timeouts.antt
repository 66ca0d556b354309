-- ===== src/Bcp/Process/Timeouts.antt =====
-- Timeouts of process() in bcp_server.cpp: no step outlives its part of the block time, and a round
-- ends with the block time in which it began.
use mathlib.Core.Path.{subst}
use bcp_concept_prototype.Prelude.{ℕ, ◌<◌, ◌≡◌, ◌≢◌, refl, arith, lt→ltb, ◌⊎◌, inl, inr, sym}
use bcp_concept_prototype.Core.{Core}
use bcp_concept_prototype.Bcp.{
  BcpStep, null, waiting, proof_of_participation, propose, vote, commit,
  timeout_proof_of_participation, timeout_propose, timeout_vote, timeline,
}
use bcp_concept_prototype.Bcp.Process.{
  IfaceBcpServer, process_vote, process_commit, process_at, process,
}
use bcp_concept_prototype.Bcp.Process.Steps.{
  Move, stay, round_started, proposing, voting, elected, vote_failed, commit_failed, committed,
  IsIface, step_of, process-Move, step_of-step_to,
}

-- A step that is over at this point of the block time.
abbrev pub IsOver : ℕ → BcpStep → Type 0
IsOver tl null = ⊥
IsOver tl waiting = ⊥
IsOver tl proof_of_participation = timeout_proof_of_participation < tl
IsOver tl propose = timeout_propose < tl
IsOver tl vote = timeout_vote < tl
IsOver tl commit = tl < timeout_proof_of_participation

-- The step that follows without an election or a commit.
abbrev pub next : BcpStep → BcpStep
next null = null
next waiting = waiting
next proof_of_participation = propose
next propose = vote
next vote = waiting
next commit = waiting

-- A call in the step `s` that is not over may stay in it.
abbrev Leaves : ℕ → BcpStep → BcpStep → Type 0
Leaves tl s t = IsOver tl s → t ≡ next s

no_stay : (tl : ℕ) (s r : BcpStep) → Leaves tl s s → IsOver tl r → next r ≢ r → s ≢ r
no_stay tl s r o h ne e = ne (sym (subst (λ x. x ≡ next x) e (o (subst (IsOver tl) (sym e) h))))

after_proof :
    {tl : ℕ} {s t : BcpStep}
    → Move tl s t
    → Leaves tl s t
    → timeout_proof_of_participation < tl
    → s ≢ null
    → (t ≢ null) × (t ≢ proof_of_participation)
after_proof {tl} (stay {s = s}) o h n = (n, no_stay tl s proof_of_participation o h (λ e. cc))
after_proof (round_started b) o h n = absurd (omega arith)
after_proof (proposing b) o h n = (λ e. cc, λ e. cc)
after_proof (voting b) o h n = (λ e. cc, λ e. cc)
after_proof (elected b) o h n = (λ e. cc, λ e. cc)
after_proof (vote_failed b) o h n = (λ e. cc, λ e. cc)
after_proof (commit_failed b) o h n = (λ e. cc, λ e. cc)
after_proof (committed b) o h n = (λ e. cc, λ e. cc)

after_propose :
    {tl : ℕ} {s t : BcpStep}
    → Move tl s t
    → Leaves tl s t
    → timeout_propose < tl
    → (s ≢ null) × (s ≢ proof_of_participation)
    → (t ≢ null) × (t ≢ proof_of_participation) × (t ≢ propose)
after_propose {tl} (stay {s = s}) o h n = (n.0, n.1, no_stay tl s propose o h (λ e. cc))
after_propose (round_started b) o h n = absurd (omega arith)
after_propose (proposing b) o h n = absurd (n.1 refl)
after_propose (voting b) o h n = (λ e. cc, λ e. cc, λ e. cc)
after_propose (elected b) o h n = (λ e. cc, λ e. cc, λ e. cc)
after_propose (vote_failed b) o h n = (λ e. cc, λ e. cc, λ e. cc)
after_propose (commit_failed b) o h n = (λ e. cc, λ e. cc, λ e. cc)
after_propose (committed b) o h n = (λ e. cc, λ e. cc, λ e. cc)

rest_cases :
    (s : BcpStep)
    → s ≢ null
    → s ≢ proof_of_participation
    → s ≢ propose
    → s ≢ vote
    → (s ≡ waiting) ⊎ (s ≡ commit)
rest_cases null n p q v = absurd (n refl)
rest_cases waiting n p q v = inl refl
rest_cases proof_of_participation n p q v = absurd (p refl)
rest_cases propose n p q v = absurd (q refl)
rest_cases vote n p q v = absurd (v refl)
rest_cases commit n p q v = inr refl

after_vote :
    {tl : ℕ} {s t : BcpStep}
    → Move tl s t
    → Leaves tl s t
    → timeout_vote < tl
    → (s ≢ null) × (s ≢ proof_of_participation) × (s ≢ propose)
    → (t ≡ waiting) ⊎ (t ≡ commit)
after_vote {tl} (stay {s = s}) o h n = rest_cases s n.0 n.1 n.2 (no_stay tl s vote o h (λ e. cc))
after_vote (round_started b) o h n = absurd (omega arith)
after_vote (proposing b) o h n = absurd (n.1 refl)
after_vote (voting b) o h n = absurd (n.2 refl)
after_vote (elected b) o h n = inr refl
after_vote (vote_failed b) o h n = inl refl
after_vote (commit_failed b) o h n = inl refl
after_vote (committed b) o h n = inl refl

after_commit :
    {tl : ℕ} {s t : BcpStep}
    → Move tl s t
    → Leaves tl s t
    → tl < timeout_proof_of_participation
    → (s ≡ waiting) ⊎ (s ≡ commit)
    → (t ≡ waiting) ⊎ (t ≡ proof_of_participation)
after_commit (stay {s = s}) o h (inl e) = inl e
after_commit {tl} (stay {s = s}) o h (inr e) = absurd (no_stay tl s commit o h (λ f. cc) e)
after_commit (round_started b) o h n = inr refl
after_commit (proposing b) o h n = absurd (omega arith)
after_commit (voting b) o h n = absurd (omega arith)
after_commit (elected b) o h (inl e) = cc
after_commit (elected b) o h (inr e) = cc
after_commit (vote_failed b) o h n = inl refl
after_commit (commit_failed b) o h n = inl refl
after_commit (committed b) o h n = inl refl

module _ ⦃c : Core⦄ where
  module _ {W : Type 0} (i : IfaceBcpServer W) (laws : IsIface i) where
    process_at_over :
        (s : BcpStep) (tl ctx : ℕ) (w : W)
        → IsOver tl s
        → step_of i (process_at i s tl ctx w) ≡ next s
    unfolding process_at process_vote process_commit
    process_at_over null tl ctx w h = absurd h
    process_at_over waiting tl ctx w h = absurd h
    process_at_over proof_of_participation tl ctx w h =
        rw (lt→ltb _ _ h, process_at) (step_of-step_to i laws propose _)
    process_at_over propose tl ctx w h =
        rw (lt→ltb _ _ h, process_at) (step_of-step_to i laws vote _)
    process_at_over vote tl ctx w h =
        rw (lt→ltb _ _ h, process_at, process_vote) (step_of-step_to i laws waiting _)
    process_at_over commit tl ctx w h =
        rw (lt→ltb _ _ h, process_at, process_commit) (step_of-step_to i laws waiting _)

    -- A call of process() when the current step is over leaves it: proof of participation for the
    -- proposal, the proposal for the vote, and the vote and the commit for waiting.
    pub process_over :
        (timestamp : ℕ) (w : W)
        → IsOver (timeline timestamp) (step_of i w)
        → step_of i (process i timestamp w) ≡ next (step_of i w)
    unfolding process
    process_over timestamp w h = process_at_over (step_of i w) _ _ w h

    -- A server that runs, called once after each timeout of one block time and then early in the
    -- next, has ended its round: it waits or has begun a new one.
    pub round_ends :
        (t₁ t₂ t₃ t₄ : ℕ) (w : W)
        → step_of i w ≢ null
        → timeout_proof_of_participation < timeline t₁
        → timeout_propose < timeline t₂
        → timeout_vote < timeline t₃
        → timeline t₄ < timeout_proof_of_participation
        → let s = step_of i (process i t₄ (process i t₃ (process i t₂ (process i t₁ w)))) in
          (s ≡ waiting) ⊎ (s ≡ proof_of_participation)
    round_ends t₁ t₂ t₃ t₄ w run h₁ h₂ h₃ h₄ =
        let w₁ = process i t₁ w in
        let w₂ = process i t₂ w₁ in
        let w₃ = process i t₃ w₂ in
        after_commit (process-Move i laws t₄ w₃) (process_over t₄ w₃) h₄ (
          after_vote (process-Move i laws t₃ w₂) (process_over t₃ w₂) h₃ (
            after_propose (process-Move i laws t₂ w₁) (process_over t₂ w₁) h₂
              (after_proof (process-Move i laws t₁ w) (process_over t₁ w) h₁ run)))
