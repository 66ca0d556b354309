-- ===== src/App/Stops.antt =====
-- apps/*/main.cpp: the loop of a program ends in the pass in which the first interrupt comes.
use bcp_concept_prototype.Prelude.{
  ℕ, zero, suc, ◌+◌, ◌<◌, ◌≡◌, refl, ap, ◌∙◌, Bool, true, false, not, ◌&&◌, ◌||◌, Option, some,
  List, [], ◌∷◌, arith, ◌==◌, Bool-cases, inl, inr,
}
use bcp_concept_prototype.App.{
  Platform, posix, windows, Machine, Arrivals, sigint, sigkill, ctrl_c_event, ctrl_close_event,
}
use bcp_concept_prototype.App.Loop.{deliver, deliver_all, run_loop}

-- The signals that are to stop a program.
unfoldable pub is_stop : Platform → ℕ → Bool
is_stop posix sig = sig == sigint
is_stop windows sig = sig == ctrl_c_event || sig == ctrl_close_event

unfoldable pub iterate {ℓ} : {A : Type ℓ} → (A → A) → ℕ → A → A
iterate f zero a = a
iterate f (suc n) a = iterate f n (f a)

module _ {Config : Type 0} (m : Machine Config) where
  -- What the manuals say of signal() and SetConsoleCtrlHandler(): without a call no signal is
  -- handled, a handler can be set for each signal but SIGKILL, that of a console for each event, and
  -- a process goes on after the handler of signal().
  pub record HasSignals : Type 0 where
    pub first : (x : ℕ) → m.is_handled x m.no_handlers ≡ false
    pub caught :
        (sig x : ℕ) (h : m.Handlers)
        → m.is_handled x (m.signal sig h) ≡ ((not (sig == sigkill) && sig == x) || m.is_handled x h)
    pub console : (x : ℕ) (h : m.Handlers) → m.is_handled x (m.set_console_ctrl_handler h) ≡ true
    pub goes_on : (x : ℕ) → m.ends_handled posix x ≡ false

  -- A program with a handler for SIGINT, or for the console, is not ended by the signal.
  unfoldable pub survives : Platform → ℕ → Bool
  survives posix sig = sig == sigint || not (m.ends posix sig)
  survives windows sig = not (m.ends_handled windows sig)

  unfoldable pub any_stop : Platform → List ℕ → Bool
  unfolding is_stop
  any_stop p [] = false
  any_stop p (sig ∷ sigs) = is_stop p sig || any_stop p sigs

  unfoldable pub all_survive : Platform → List ℕ → Bool
  unfolding survives
  all_survive p [] = true
  all_survive p (sig ∷ sigs) = survives p sig && all_survive p sigs

  -- No signal up to pass n ends the process, and the first one to stop the program comes in pass n.
  pub record IsLastPass (p : Platform) (s : Arrivals) (n : ℕ) : Type 0 where
    pub early : any_stop p s.early ≡ false
    pub early_survive : all_survive p s.early ≡ true
    pub before : (k : ℕ) → k < n → any_stop p (s.during k) ≡ false
    pub survive : (k : ℕ) → k < suc n → all_survive p (s.during k) ≡ true
    pub stop : any_stop p (s.during n) ≡ true

  -- The handler of the program is the one that the system calls.
  unfoldable pub registered : Platform → ℕ → Bool
  registered posix sig = sig == sigint
  registered windows sig = true

  abbrev pub IsRegistered : Platform → m.Handlers → Type 0
  IsRegistered p h = (sig : ℕ) → m.is_handled sig h ≡ registered p sig

  pub signal-IsRegistered :
      HasSignals → IsRegistered posix (m.signal sigkill (m.signal sigint m.no_handlers))
  unfolding registered
  signal-IsRegistered sg sig = ground (
    arith,
    sg.caught sigkill sig (m.signal sigint m.no_handlers),
    sg.caught sigint sig m.no_handlers,
    sg.first sig,
  )

  pub console-IsRegistered :
      HasSignals → IsRegistered windows (m.set_console_ctrl_handler m.no_handlers)
  unfolding registered
  console-IsRegistered sg sig = sg.console sig m.no_handlers

  module _ {ℓ κ μ} {A : Type ℓ} {World : Type κ} {B : Type μ} (sg : HasSignals) (p : Platform)
      (handlers : m.Handlers) (known : IsRegistered p handlers) (keep_going : A → Bool)
      (handler : ℕ → A → A) (pass : World → World) (view : A → B)
      (handled : (sig : ℕ) (a : A)
        → registered p sig ≡ true
        → (keep_going (handler sig a) ≡ keep_going a && not (is_stop p sig))
          × (view (handler sig a) ≡ view a)) where
    abbrev arrive : ℕ → A → Option A
    arrive = deliver m p handlers handler

    -- What is left of the state after signals that the process survives.
    abbrev Goes : Option A → A → Bool → Type (ℓ ⊔ μ)
    Goes r a stops =
        (b : A) × (r ≡ some b) × (keep_going b ≡ keep_going a && not stops) × (view b ≡ view a)

    and_true : (b : Bool) → b ≡ b && true
    and_true true = refl
    and_true false = refl

    deliver-Goes : (sig : ℕ) (a : A) → survives p sig ≡ true → Goes (arrive sig a) a (is_stop p sig)
    unfolding deliver survives registered is_stop
    deliver-Goes sig a lives = elim (Bool-cases (registered p sig)) [
      | inl r ↦
          let (k, v) = handled sig a r in
          let e : m.ends_handled p sig ≡ false = no_end p lives r in
          (handler sig a, rw (deliver, known sig, r, e) refl, k, v)
      | inr r ↦
          let (e, q) = ignored p lives r in
          (a, rw (deliver, known sig, r, e) refl, rw q (and_true (keep_going a)), refl)
    ]
      where
        no_end :
            (p : Platform)
            → survives p sig ≡ true
            → registered p sig ≡ true
            → m.ends_handled p sig ≡ false
        no_end posix l r = sg.goes_on sig
        no_end windows l r = ground arith

        ignored :
            (p : Platform)
            → survives p sig ≡ true
            → registered p sig ≡ false
            → (m.ends p sig ≡ false) × (is_stop p sig ≡ false)
        ignored posix l r = ground arith
        ignored windows l r = absurd (ground arith)

    deliver_all-next :
        (sig : ℕ) (sigs : List ℕ) (a b : A)
        → arrive sig a ≡ some b
        → deliver_all arrive (sig ∷ sigs) a ≡ deliver_all arrive sigs b
    unfolding deliver_all
    deliver_all-next sig sigs a b e = rw (deliver_all, e) refl

    pub deliver_all-Goes :
        (sigs : List ℕ) (a : A)
        → all_survive p sigs ≡ true
        → Goes (deliver_all arrive sigs a) a (any_stop p sigs)
    unfolding deliver_all any_stop all_survive
    deliver_all-Goes [] a lives = (a, refl, and_true (keep_going a), refl)
    deliver_all-Goes (sig ∷ sigs) a lives =
        let (b, e, k, v) = deliver-Goes sig a (ground arith) in
        let (c, f, l, w) = deliver_all-Goes sigs b (ground arith) in
        (c, deliver_all-next sig sigs a b e ∙ f, l ∙ ground (arith, k), w ∙ v)

    run_loop-now :
        (during : ℕ → List ℕ) (n fuel : ℕ) (a : A) (w : World)
        → keep_going a ≡ false
        → run_loop keep_going arrive pass during (suc fuel) n a w ≡ some (some a, w)
    unfolding run_loop
    run_loop-now during n fuel a w g = rw (run_loop, g) refl

    run_loop-next :
        (during : ℕ → List ℕ) (n fuel : ℕ) (a b : A) (w : World)
        → keep_going a ≡ true
        → deliver_all arrive (during n) a ≡ some b
        → run_loop keep_going arrive pass during (suc fuel) n a w
          ≡ run_loop keep_going arrive pass during fuel (suc n) b (pass w)
    unfolding run_loop
    run_loop-next during n fuel a b w g e = rw (run_loop, g, e) refl

    going : (a : A) (b : Bool) → keep_going a ≡ true → b ≡ false → (keep_going a && not b) ≡ true
    going a b g e = rw (g, e) refl

    halted : (a : A) (b : Bool) → b ≡ true → (keep_going a && not b) ≡ false
    halted a b e = ground arith

    run_loop-from :
        (during : ℕ → List ℕ) (last left n fuel : ℕ) (a : A) (w : World)
        → ((k : ℕ) → k < last → any_stop p (during k) ≡ false)
        → ((k : ℕ) → k < suc last → all_survive p (during k) ≡ true)
        → any_stop p (during last) ≡ true
        → last ≡ n + left
        → suc left < fuel
        → keep_going a ≡ true
        → (a' : A) × (run_loop keep_going arrive pass during fuel n a w
            ≡ some (some a', iterate pass (suc left) w))
          × (view a' ≡ view a)
    unfolding iterate
    run_loop-from during last left n zero a w before lives stop e f g = absurd (omega arith)
    run_loop-from during last zero n (suc zero) a w before lives stop e f g = absurd (omega arith)
    run_loop-from during last zero n (suc (suc fuel)) a w before lives stop e f g =
        let (b, d, k, v) = deliver_all-Goes (during n) a (lives n (omega arith)) in
        let n-last : n ≡ last = omega arith in
        let halt = k ∙ halted a _ (ap (λ i. any_stop p (during i)) n-last ∙ stop) in
        (
          b,
          run_loop-next during n (suc fuel) a b w g d
              ∙ run_loop-now during (suc n) fuel b (pass w) halt,
          v,
        )
    run_loop-from during last (suc left) n (suc fuel) a w before lives stop e f g =
        let (b, d, k, v) = deliver_all-Goes (during n) a (lives n (omega arith)) in
        let (a', r, v') =
          run_loop-from during last left (suc n) fuel b (pass w) before lives stop (omega arith)
            (omega arith) (k ∙ going a _ g (before n (omega arith))) in
        (a', run_loop-next during n fuel a b w g d ∙ r, v' ∙ v)

    -- The loop after the early signals.
    pub run_loop-last :
        (s : Arrivals) (n fuel : ℕ) (a : A) (w : World)
        → IsLastPass p s n
        → suc n < fuel
        → keep_going a ≡ true
        → (b a' : A) × (deliver_all arrive s.early a ≡ some b)
          × (view b ≡ view a)
          × (run_loop keep_going arrive pass s.during fuel 0 b w
              ≡ some (some a', iterate pass (suc n) w))
          × (view a' ≡ view a)
    run_loop-last s n fuel a w h f g =
        let (b, d, k, v) = deliver_all-Goes s.early a h.early_survive in
        let (a', r, v') =
          run_loop-from s.during n n 0 fuel b w h.before h.survive h.stop (omega arith) f
            (k ∙ going a _ g h.early) in
        (b, a', d, v, r, v' ∙ v)
