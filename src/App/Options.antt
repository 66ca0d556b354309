-- ===== src/App/Options.antt =====
-- apps/node-server-app/main.cpp: the options without a node id.
use Prim.Native.String.{String}
use bcp_concept_prototype.Prelude.{◌≡◌, refl, Bool, true, false, ◌&&◌, ◌||◌, List, [], ◌∷◌, ◌==◌}
use bcp_concept_prototype.App.{minus, returns, throws, std_exception, OptionSpec, node_id, Machine}
use bcp_concept_prototype.App.NodeServer.{AppConfig, option_specs, try_options, process_options}

-- Is an option required that the command line does not have?
unfoldable pub lacks_required :
    {C : Type 0} (m : Machine C) → List OptionSpec → m.VariablesMap → Bool
lacks_required m [] vm = false
lacks_required m (o ∷ os) vm = (o.required && m.count vm o.name == 0) || lacks_required m os vm

module _ (m : Machine AppConfig) where
  -- po::notify throws a std::exception where a required option is missing.
  abbrev pub NotifyRequires : Type 0
  NotifyRequires =
      (os : List OptionSpec) (vm : m.VariablesMap) (c : AppConfig)
      → lacks_required m os vm ≡ true
      → m.notify os vm c ≡ throws std_exception

  -- Where notify() throws for a missing required option, as boost documents it, a command line
  -- without a node id ends in the code -100, even where it asks for the help or the version: the
  -- text is not printed.
  pub process_options_without_id :
      (argv : List String) (c : AppConfig) (w : m.World) (vm : m.VariablesMap)
      → NotifyRequires
      → m.parse option_specs argv ≡ returns vm
      → m.count vm node_id ≡ 0
      → process_options m argv c w ≡ (c, minus 100)
  unfolding process_options try_options lacks_required
  process_options_without_id argv c w vm law p z =
      rw (process_options, try_options, p, law option_specs vm c (rw z refl)) refl
