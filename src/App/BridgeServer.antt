-- ===== src/App/BridgeServer.antt =====
-- apps/bridge-server-app/main.cpp: class bridge_server_app and main(), with the fields of
-- apps/bridge-server-lib/app_config.hpp. The constructor runs the whole program.
use Prim.Native.String.{String}
use bcp_concept_prototype.Prelude.{
  ℕ, Bool, true, false, List, [], ◌∷◌, Option, none, some, ◌||◌, ◌==◌, ltb, if◌then◌else◌,
}
use bcp_concept_prototype.Prelude.Ints.{ℤ, pos, is_negative}
use bcp_concept_prototype.App.{
  minus, std_exception, unknown_exception, Throws, returns, throws, ◌>>=◌, OptionSpec, node_id,
  node_limit, config, version, help, sigint, sigkill, ctrl_c_event, ctrl_close_event, Platform,
  posix, windows, Machine, Arrivals,
}
use bcp_concept_prototype.App.PeerData.{PeerData}
use bcp_concept_prototype.App.Loop.{deliver, deliver_all, run_loop}

abbrev pub max_node_count : ℕ
max_node_count = 100

-- class app_config; a std::map is the list of its entries
pub record AppConfig : Type 0 where
  pub node_id : ℤ
  pub max_node_count : ℕ
  pub node_peers : List (ℤ × PeerData)
  pub node_bridge_servers : List (ℤ × PeerData)
  pub bridge_game_servers : List (ℤ × PeerData)
  pub game_user_servers : List (ℤ × PeerData)
  pub node_user_servers : List (ℤ × PeerData)
  pub data_dir : String
  pub log_dir : String
  pub key_dir : String
  pub config_file : String

pub record BridgeServerApp : Type 0 where
  pub argc : ℕ
  pub argv : List String
  pub exit_code : ℤ
  pub keep_going : Bool
  pub app_config : AppConfig

-- keepGoing( go )
unfoldable pub set_keep_going : Bool → BridgeServerApp → BridgeServerApp
set_keep_going go a = record a { keep_going = go }

unfoldable pub on_signal : ℕ → BridgeServerApp → BridgeServerApp
unfolding set_keep_going
on_signal sig a = set_keep_going false a

-- sig_handler with signals, and with the console of Windows
unfoldable pub sig_handler : ℕ → BridgeServerApp → BridgeServerApp
unfolding on_signal
sig_handler sig a = if sig == sigkill || sig == sigint then on_signal sig a else a

unfoldable pub ctrl_handler : ℕ → BridgeServerApp → BridgeServerApp × Bool
unfolding on_signal
ctrl_handler sig a =
    (if sig == ctrl_c_event || sig == ctrl_close_event then on_signal sig a else a, true)

-- the handler of the platform
unfoldable pub handler : Platform → ℕ → BridgeServerApp → BridgeServerApp
unfolding sig_handler ctrl_handler
handler posix sig a = sig_handler sig a
handler windows sig a = (ctrl_handler sig a).0

abbrev pub option_specs : List OptionSpec
option_specs =
    record { name = node_id; short = "i"; required = true; default_value = none }
    ∷ record { name = node_limit; short = "l"; required = false; default_value = none }
    ∷ record {
      name = config;
      short = "c";
      required = false;
      default_value = some "bryllite.config.json";
    }
    ∷ record { name = version; short = "v"; required = false; default_value = none }
    ∷ record { name = help; short = "h"; required = false; default_value = none }
    ∷ []

module _ (m : Machine AppConfig) where
  unfoldable pub register_signal : Platform → m.Handlers → m.Handlers
  register_signal posix h = m.signal sigkill (m.signal sigint h)
  register_signal windows h = m.set_console_ctrl_handler h

  -- the block of the try statement
  unfoldable pub try_options : List String → AppConfig → m.World → Throws (AppConfig × ℤ)
  try_options argv c w = do
    vm ← m.parse option_specs argv
    c ← m.notify option_specs vm c
    if ltb 0 (m.count vm help)
        then returns (c, minus 1)
        else if ltb 0 (m.count vm version)
        then returns (c, minus 1)
        else (do
          (c, loaded) ← m.load_config c w
          returns (if loaded then (c, pos 0) else (c, minus 2)))

  -- After an exception nothing reads the configuration.
  unfoldable pub process_options : List String → AppConfig → m.World → AppConfig × ℤ
  unfolding try_options
  process_options argv c w = elim (try_options argv c w) [
    | returns r ↦ r
    | throws std_exception ↦ (c, minus 100)
    | throws unknown_exception ↦ (c, minus 101)
  ]

  -- one pass of the loop
  unfoldable pub pass : m.World → m.World
  pass w = m.update (m.sleep_for 5 w)

  unfoldable pub main_loop :
      Platform
      → m.Handlers
      → Arrivals
      → ℕ
      → BridgeServerApp
      → m.World
      → Option (Option BridgeServerApp × m.World)
  unfolding deliver handler pass run_loop
  main_loop p h s fuel a w =
      run_loop (λ a. a.keep_going) (deliver m p h (handler p)) pass s.during fuel 0 a w

  -- what _main does before the loop
  unfoldable pub set_up : AppConfig → m.World → m.World
  set_up c w = m.start_server c (
      m.new_server c (
        m.log_file (m.format "%s/%%y-%%m-%%d/bridge-server-%d.log" c.log_dir (m.config_node_id c))
          (m.create_directories c w)))

  -- _main, with its return value, if the system has not ended the process
  unfoldable pub run_main :
      Platform
      → m.Handlers
      → Arrivals
      → ℕ
      → BridgeServerApp
      → m.World
      → Option (Option (BridgeServerApp × ℤ) × m.World)
  unfolding deliver handler deliver_all set_up main_loop
  run_main p h s fuel a w =
      let w' = set_up a.app_config w in
      elim (deliver_all (deliver m p h (handler p)) s.early a) [
        | none ↦ some (none, w')
        | some a ↦ elim (main_loop p h s fuel a w') [
          | none ↦ none
          | some (none, w) ↦ some (none, w)
          | some (some a, w) ↦ some (some (a, pos 0), m.delete_server (m.stop_server w))
        ]
      ]

  -- the constructor
  unfoldable pub new :
      Platform
      → Arrivals
      → ℕ
      → ℕ
      → List String
      → m.World
      → Option (Option BridgeServerApp × m.World)
  unfolding register_signal process_options run_main
  new p s fuel argc argv w =
      let h = register_signal p m.no_handlers in
      let (c, code) = process_options argv m.default_config w in
      let a : BridgeServerApp = record {
        argc = argc;
        argv = argv;
        exit_code = pos 0;
        keep_going = true;
        app_config = c;
      } in
      if is_negative code then some (some a, w) else elim (run_main p h s fuel a w) [
        | none ↦ none
        | some (none, w) ↦ some (none, w)
        | some (some (a, code), w) ↦ some (some (record a { exit_code = code }), w)
      ]

  -- main(), with the exit status, if the system has not ended the process: the exit code is only
  -- logged
  unfoldable pub main :
      Platform → Arrivals → ℕ → ℕ → List String → m.World → Option (Option ℤ × m.World)
  unfolding new
  main p s fuel argc argv w = elim (new p s fuel argc argv w) [
    | none ↦ none
    | some (none, w) ↦ some (none, w)
    | some (some a, w) ↦ some (some (pos 0), w)
  ]
