-- ===== src/Common/Singleton.antt =====
-- bryllite-common/singleton.hpp: template singleton, with the objects that new and delete have made
-- of it and the handlers that atexit() has been given. One thread calls it.
use bcp_concept_prototype.Prelude.{
  ℕ, zero, suc, ◌+◌, ◌≡◌, refl, inl, inr, Bool, true, false, List, [], ◌∷◌, Option, none, some,
  arith, Option-cases,
}

pub record Singleton : Type 0 where
  -- m_pInstance; an object is the number of objects made before it
  pub instance : Option ℕ
  pub made : ℕ
  pub deleted : ℕ
  pub handlers : ℕ

-- before the first call
unfoldable pub singleton : Singleton
singleton = record { instance = none; made = 0; deleted = 0; handlers = 0 }

-- instance(), with the pointer that it returns
unfoldable pub get_instance : Singleton → Singleton × ℕ
get_instance s = elim s.instance [
  | none ↦
      (record s { instance = some s.made; made = s.made + 1; handlers = s.handlers + 1 }, s.made)
  | some object ↦ (s, object)
]

unfoldable pub release : Singleton → Singleton
release s = elim s.instance [
  | none ↦ record s { instance = none }
  | some object ↦ record s { instance = none; deleted = s.deleted + 1 }
]

unfoldable pub allocated : Singleton → Bool
allocated s = elim s.instance [ none ↦ false | some object ↦ true ]

-- The calls of a program.
pub data Call : Type 0 where
  instance_call release_call : Call

unfoldable pub run : List Call → Singleton → Singleton
unfolding get_instance release
run [] s = s
run (instance_call ∷ calls) s = run calls (get_instance s).0
run (release_call ∷ calls) s = run calls (release s)

-- The handlers that atexit() has been given, each of which calls release().
unfoldable pub run_handlers : ℕ → Singleton → Singleton
unfolding release
run_handlers zero s = s
run_handlers (suc n) s = run_handlers n (release s)

-- Every object made is deleted or the instance, and has one handler.
unfoldable alive : Option ℕ → ℕ
alive none = 0
alive (some object) = 1

record IsCounted (s : Singleton) : Type 0 where
  counted : s.deleted + alive s.instance ≡ s.made
  handled : s.handlers ≡ s.made

get_instance-IsCounted : (s : Singleton) → IsCounted s → IsCounted (get_instance s).0
unfolding get_instance alive
get_instance-IsCounted s h = ground arith

release-IsCounted : (s : Singleton) → IsCounted s → IsCounted (release s)
unfolding release alive
release-IsCounted s h = ground arith

run-IsCounted : (calls : List Call) (s : Singleton) → IsCounted s → IsCounted (run calls s)
unfolding run
run-IsCounted [] s h = h
run-IsCounted (instance_call ∷ calls) s h = run-IsCounted calls _ (get_instance-IsCounted s h)
run-IsCounted (release_call ∷ calls) s h = run-IsCounted calls _ (release-IsCounted s h)

release-none : (s : Singleton) → (release s).instance ≡ none
unfolding release
release-none s = ground arith

run_handlers-IsCounted : (n : ℕ) (s : Singleton) → IsCounted s → IsCounted (run_handlers n s)
unfolding run_handlers
run_handlers-IsCounted zero s h = h
run_handlers-IsCounted (suc n) s h = run_handlers-IsCounted n _ (release-IsCounted s h)

run_handlers-none : (n : ℕ) (s : Singleton) → s.instance ≡ none → (run_handlers n s).instance ≡ none
unfolding run_handlers
run_handlers-none zero s e = e
run_handlers-none (suc n) s e = run_handlers-none n (release s) (release-none s)

-- A counted singleton is empty once its handlers have run.
handlers_empty :
    (s : Singleton) (n : ℕ) → IsCounted s → s.handlers ≡ n → (run_handlers n s).instance ≡ none
unfolding run_handlers alive
handlers_empty s zero h e = elim (Option-cases s.instance) [
  | inl q ↦ q
  | inr (object, q) ↦ absurd (ground (arith, h.counted, h.handled, e, q))
]
handlers_empty s (suc n) h e = run_handlers-none n (release s) (release-none s)

-- After any calls of instance() and release() from the start, the handlers that instance() has
-- given to atexit() leave no instance, and every object made is deleted once: the counts are equal.
pub run_handlers-run :
    (calls : List Call)
    → let s = run calls singleton in
      let ended = run_handlers s.handlers s in
      (ended.instance ≡ none) × (ended.deleted ≡ ended.made)
unfolding singleton alive
run_handlers-run calls =
    let s = run calls singleton in
    let h = run-IsCounted calls singleton (record { counted = refl; handled = refl }) in
    let e = handlers_empty s s.handlers h refl in
    let k = run_handlers-IsCounted s.handlers s h in (e, ground (arith, e, k.counted))
