-- ===== src/App/Accepted.antt =====
-- apps/node-server-app/main.cpp: when process_options() lets the program go on.
use Prim.Native.String.{String}
use bcp_concept_prototype.Prelude.{
  ℕ, ◌<◌, ◌≡◌, ◌↔◌, ◌⊎◌, refl, sym, ap, ◌∙◌, inl, inr, true, false, List, arith, ltb, Bool-cases,
}
use bcp_concept_prototype.Prelude.Ints.{ℤ, pos, negsuc}
use bcp_concept_prototype.App.{
  Throws, Exception, returns, throws, std_exception, unknown_exception, version, help, Machine,
  minus,
}
use bcp_concept_prototype.App.NodeServer.{
  AppConfig, max_node_count, option_specs, invalid_id, try_options, process_options,
}

Throws-cases :
    {A : Type 0} (t : Throws A) → ((a : A) × (t ≡ returns a)) ⊎ ((e : Exception) × (t ≡ throws e))
Throws-cases (returns a) = inl (a, refl)
Throws-cases (throws e) = inr (e, refl)

ltb-zero : (n : ℕ) → ltb 0 n ≡ false → n ≡ 0
ltb-zero n e = ground arith

invalid_id-valid : (z : ℤ) → invalid_id z ≡ false → (n : ℕ) × (z ≡ pos n) × (n < max_node_count)
unfolding invalid_id
invalid_id-valid (pos n) e = (n, refl, ground arith)
invalid_id-valid (negsuc n) e = absurd (ground arith)

valid-invalid_id : (z : ℤ) (n : ℕ) → z ≡ pos n → n < max_node_count → invalid_id z ≡ false
unfolding invalid_id
valid-invalid_id z n e l = ap invalid_id e ∙ ground arith

negative : (r r' : AppConfig × ℤ) (k : ℕ) → r.1 ≡ negsuc k → r'.1 ≡ pos 0 → ¬ (r ≡ r')
negative r r' k e e' q = ground (arith, sym e ∙ ap (λ x. x.1) q ∙ e')

-- A result that is another one than that of the hypothesis.
refused : {A : Type 0} {x a b : A} → x ≡ b → x ≡ a → ¬ (a ≡ b) → ⊥
refused h e n = n (sym e ∙ h)

module _ (m : Machine AppConfig) where
  -- What the program asks of its command line and its configuration file.
  pub record IsAccepted (argv : List String) (c : AppConfig) (w : m.World) (c' : AppConfig)
      : Type 0 where
    pub vm : m.VariablesMap
    pub noted : AppConfig
    pub id : ℕ
    pub parsed : m.parse option_specs argv ≡ returns vm
    pub notified : m.notify option_specs vm c ≡ returns noted
    pub no_help : m.count vm help ≡ 0
    pub no_version : m.count vm version ≡ 0
    pub is_id : noted.node_id ≡ pos id
    pub in_range : id < max_node_count
    pub loaded : m.load_config noted w ≡ returns (c', true)

  IsAccepted-process_options :
      (argv : List String) (c c' : AppConfig) (w : m.World)
      → IsAccepted argv c w c'
      → process_options m argv c w ≡ (c', pos 0)
  unfolding process_options try_options
  IsAccepted-process_options argv c c' w h =
      rw
        (
          process_options,
          try_options,
          h.parsed,
          h.notified,
          h.no_help,
          h.no_version,
          valid-invalid_id h.noted.node_id h.id h.is_id h.in_range,
          h.loaded,
        )
        refl

  -- The cases of the result after loadConfig().
  loaded-true :
      (argv : List String) (c c' : AppConfig) (w : m.World) (vm : m.VariablesMap)
      (noted : AppConfig)
      → process_options m argv c w ≡ (c', pos 0)
      → m.parse option_specs argv ≡ returns vm
      → m.notify option_specs vm c ≡ returns noted
      → ltb 0 (m.count vm help) ≡ false
      → ltb 0 (m.count vm version) ≡ false
      → invalid_id noted.node_id ≡ false
      → m.load_config noted w ≡ returns (c', true)
  unfolding process_options try_options
  loaded-true argv c c' w vm noted h p q e f g = elim (Throws-cases (m.load_config noted w)) [
    | inl ((c₁, true), r) ↦
        let gives : process_options m argv c w ≡ (c₁, pos 0) =
          rw (process_options, try_options, p, q, e, f, g, r) refl in
        r ∙ ap (λ x. returns (x.0, true)) (sym gives ∙ h)
    | inl ((c₁, false), r) ↦ absurd (
        refused h (rw (process_options, try_options, p, q, e, f, g, r) refl)
          (negative (c₁, minus 3) (c', pos 0) 2 refl refl))
    | inr (std_exception, r) ↦ absurd (
        refused h (rw (process_options, try_options, p, q, e, f, g, r) refl)
          (negative (c, minus 100) (c', pos 0) 99 refl refl))
    | inr (unknown_exception, r) ↦ absurd (
        refused h (rw (process_options, try_options, p, q, e, f, g, r) refl)
          (negative (c, minus 101) (c', pos 0) 100 refl refl))
  ]

  notified-IsAccepted :
      (argv : List String) (c c' : AppConfig) (w : m.World) (vm : m.VariablesMap)
      (noted : AppConfig)
      → process_options m argv c w ≡ (c', pos 0)
      → m.parse option_specs argv ≡ returns vm
      → m.notify option_specs vm c ≡ returns noted
      → IsAccepted argv c w c'
  unfolding process_options try_options
  notified-IsAccepted argv c c' w vm noted h p q = elim (Bool-cases (ltb 0 (m.count vm help))) [
    | inl e ↦ absurd (
        refused h (rw (process_options, try_options, p, q, e) refl)
          (negative (noted, minus 1) (c', pos 0) 0 refl refl))
    | inr e ↦ elim (Bool-cases (ltb 0 (m.count vm version))) [
      | inl f ↦ absurd (
          refused h (rw (process_options, try_options, p, q, e, f) refl)
            (negative (noted, minus 1) (c', pos 0) 0 refl refl))
      | inr f ↦ elim (Bool-cases (invalid_id noted.node_id)) [
        | inl g ↦ absurd (
            refused h (rw (process_options, try_options, p, q, e, f, g) refl)
              (negative (noted, minus 2) (c', pos 0) 1 refl refl))
        | inr g ↦
            let (id, is_id, in_range) = invalid_id-valid noted.node_id g in
            record {
              vm = vm;
              noted = noted;
              id = id;
              parsed = p;
              notified = q;
              no_help = ltb-zero _ e;
              no_version = ltb-zero _ f;
              is_id = is_id;
              in_range = in_range;
              loaded = loaded-true argv c c' w vm noted h p q e f g;
            }
      ]
    ]
  ]

  process_options-IsAccepted :
      (argv : List String) (c c' : AppConfig) (w : m.World)
      → process_options m argv c w ≡ (c', pos 0)
      → IsAccepted argv c w c'
  unfolding process_options try_options
  process_options-IsAccepted argv c c' w h = elim (Throws-cases (m.parse option_specs argv)) [
    | inr (std_exception, p) ↦ absurd (
        refused h (rw (process_options, try_options, p) refl)
          (negative (c, minus 100) (c', pos 0) 99 refl refl))
    | inr (unknown_exception, p) ↦ absurd (
        refused h (rw (process_options, try_options, p) refl)
          (negative (c, minus 101) (c', pos 0) 100 refl refl))
    | inl (vm, p) ↦ elim (Throws-cases (m.notify option_specs vm c)) [
      | inr (std_exception, q) ↦ absurd (
          refused h (rw (process_options, try_options, p, q) refl)
            (negative (c, minus 100) (c', pos 0) 99 refl refl))
      | inr (unknown_exception, q) ↦ absurd (
          refused h (rw (process_options, try_options, p, q) refl)
            (negative (c, minus 101) (c', pos 0) 100 refl refl))
      | inl (noted, q) ↦ notified-IsAccepted argv c c' w vm noted h p q
    ]
  ]

  -- process_options() of the node server lets the program go on, with a configuration, exactly
  -- where the command line is read and notified without an exception, asks for neither the help
  -- nor the version, names a node id from 0 to 99, and loadConfig() returns true and leaves that
  -- configuration.
  pub process_options_iff :
      (argv : List String) (c c' : AppConfig) (w : m.World)
      → (process_options m argv c w ≡ (c', pos 0)) ↔ IsAccepted argv c w c'
  process_options_iff argv c c' w =
      (process_options-IsAccepted argv c c' w, IsAccepted-process_options argv c c' w)
