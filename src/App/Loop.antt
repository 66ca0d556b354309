-- ===== src/App/Loop.antt =====
-- apps/*/main.cpp: `while( keepGoing() ) { ... }` with the signals that come in its passes, on
-- fuel: none where the fuel runs out before the loop ends. A signal that comes is handled, ignored,
-- or ends the process, by what the system has been told.
use bcp_concept_prototype.Prelude.{
  ℕ, zero, suc, Bool, true, false, List, [], ◌∷◌, Option, none, some, if◌then◌else◌,
}
use bcp_concept_prototype.App.{Platform, Machine}

-- The system delivers a signal; none where it ends the process.
unfoldable pub deliver {ℓ} :
    {Config : Type 0} (m : Machine Config) {A : Type ℓ}
    → Platform
    → m.Handlers
    → (ℕ → A → A)
    → ℕ
    → A
    → Option A
deliver m p handlers handler sig a =
    if m.is_handled sig handlers
    then (if m.ends_handled p sig then none else some (handler sig a))
    else (if m.ends p sig then none else some a)

unfoldable pub deliver_all {ℓ} : {A : Type ℓ} → (ℕ → A → Option A) → List ℕ → A → Option A
deliver_all arrive [] a = some a
deliver_all arrive (s ∷ ss) a = elim (arrive s a) [ none ↦ none | some b ↦ deliver_all arrive ss b ]

-- The inner none is a process that the system has ended.
module _ {ℓ κ} {A : Type ℓ} {World : Type κ} (keep_going : A → Bool) (arrive : ℕ → A → Option A)
    (pass : World → World) where
  unfoldable pub run_loop : (ℕ → List ℕ) → ℕ → ℕ → A → World → Option (Option A × World)
  unfolding deliver_all
  run_loop during zero n a w = none
  run_loop during (suc fuel) n a w = elim (keep_going a) [
    | false ↦ some (some a, w)
    | true ↦ elim (deliver_all arrive (during n) a) [
      | none ↦ some (none, pass w)
      | some b ↦ run_loop during fuel (suc n) b (pass w)
    ]
  ]
