-- ===== src/App/GameClient.antt =====
-- apps/game-client-app/main.cpp: class game_client_app, which runs a number of clients, and main(),
-- with the fields of apps/game-client-lib/app_config.hpp. The constructor runs the whole program;
-- what the destructors of the clients do at its end is left out.
use Prim.Native.String.{String}
use bcp_concept_prototype.Prelude.{
  ℕ, zero, suc, Bool, true, false, List, [], ◌∷◌, ◌++◌, Option, none, some, ◌||◌, ◌==◌, ltb,
  if◌then◌else◌,
}
use bcp_concept_prototype.Prelude.Ints.{ℤ, pos, is_negative}
use bcp_concept_prototype.App.{
  minus, std_exception, unknown_exception, Throws, returns, throws, ◌>>=◌, OptionSpec, node_id,
  config, client_count, version, help, sigint, sigkill, ctrl_c_event, ctrl_close_event, Platform,
  posix, windows, Machine, Arrivals,
}
use bcp_concept_prototype.App.PeerData.{PeerData}
use bcp_concept_prototype.App.Loop.{deliver, deliver_all, run_loop}

-- class app_config
pub record AppConfig : Type 0 where
  pub node_id : ℤ
  pub max_node_count : ℕ
  pub node_peers : List (ℤ × PeerData)
  pub node_bridge_servers : List (ℤ × PeerData)
  pub bridge_game_servers : List (ℤ × PeerData)
  pub game_user_servers : List (ℤ × PeerData)
  pub node_user_servers : List (ℤ × PeerData)
  pub data_dir : String
  pub log_dir : String
  pub key_dir : String
  pub client_cnt : ℕ
  pub config_file : String

-- What is outside of the program, with the closed class game_client and the io_service. new and
-- start() may throw; the result of start() is not read.
pub record ClientMachine : Type 1 where
  pub machine : Machine AppConfig
  pub open machine use *
  pub Client : Type 0
  pub new_client : AppConfig → World → World × Throws Client
  pub start_client : ℕ → Client → World → World × Throws Client
  pub client_main : Client → World → World
  pub stop_client : Client → World → World
  pub run_io_service : World → World
  pub stop_io_service : World → World
  pub join_io_thread : World → World

module _ (m : ClientMachine) where
  pub record GameClientApp : Type 0 where
    pub argc : ℕ
    pub argv : List String
    pub exit_code : ℤ
    pub keep_going : Bool
    pub app_config : AppConfig
    pub clients : List m.Client

  -- keepGoing( go )
  unfoldable pub set_keep_going : Bool → GameClientApp → GameClientApp
  set_keep_going go a = record a { keep_going = go }

  unfoldable pub on_signal : ℕ → GameClientApp → GameClientApp
  unfolding set_keep_going
  on_signal sig a = set_keep_going false a

  -- sig_handler with signals, and with the console of Windows
  unfoldable pub sig_handler : ℕ → GameClientApp → GameClientApp
  unfolding on_signal
  sig_handler sig a = if sig == sigkill || sig == sigint then on_signal sig a else a

  unfoldable pub ctrl_handler : ℕ → GameClientApp → GameClientApp × Bool
  unfolding on_signal
  ctrl_handler sig a =
      (if sig == ctrl_c_event || sig == ctrl_close_event then on_signal sig a else a, true)

  -- the handler of the platform
  unfoldable pub handler : Platform → ℕ → GameClientApp → GameClientApp
  unfolding sig_handler ctrl_handler
  handler posix sig a = sig_handler sig a
  handler windows sig a = (ctrl_handler sig a).0

  abbrev pub option_specs : List OptionSpec
  option_specs =
      record { name = node_id; short = "i"; required = true; default_value = none }
      ∷ record {
        name = config;
        short = "c";
        required = false;
        default_value = some "bryllite.config.json";
      }
      ∷ record { name = client_count; short = "n"; required = false; default_value = some "1" }
      ∷ record { name = version; short = "v"; required = false; default_value = none }
      ∷ record { name = help; short = "h"; required = false; default_value = none }
      ∷ []

  -- signal() for both signals, or the console handler of Windows
  unfoldable pub register_signal : Platform → m.Handlers → m.Handlers
  register_signal posix h = m.signal sigkill (m.signal sigint h)
  register_signal windows h = m.set_console_ctrl_handler h

  -- the block of the try statement
  unfoldable pub try_options : List String → AppConfig → m.World → Throws (AppConfig × ℤ)
  try_options argv c w = do
    vm ← m.parse option_specs argv
    c ← m.notify option_specs vm c
    if ltb 0 (m.count vm help)
        then returns (c, minus 1)
        else if ltb 0 (m.count vm version)
        then returns (c, minus 1)
        else (do
          (c, loaded) ← m.load_config c w
          returns (if loaded then (c, pos 0) else (c, minus 2)))

  -- After an exception nothing reads the configuration.
  unfoldable pub process_options : List String → AppConfig → m.World → AppConfig × ℤ
  unfolding try_options
  process_options argv c w = elim (try_options argv c w) [
    | returns r ↦ r
    | throws std_exception ↦ (c, minus 100)
    | throws unknown_exception ↦ (c, minus 101)
  ]

  -- the block of the try statement for client i: the client is kept only where start() returns
  unfoldable pub create_client : AppConfig → ℕ → List m.Client → m.World → List m.Client × m.World
  create_client c i clients w =
      let (w, made) = m.new_client c w in
      elim made [
        | throws e ↦ (clients, w)
        | returns cli ↦
            let (w, started) = m.start_client i cli w in
            elim started [ throws e ↦ (clients, w) | returns cli ↦ (clients ++ (cli ∷ []), w) ]
      ]

  -- the clients i, i + 1, ..., as many as are left
  unfoldable pub create_clients :
      AppConfig → ℕ → ℕ → List m.Client → m.World → List m.Client × m.World
  unfolding create_client
  create_clients c zero i clients w = (clients, w)
  create_clients c (suc left) i clients w =
      let (clients, w) = create_client c i clients w in create_clients c left (suc i) clients w

  unfoldable pub for_clients : (m.Client → m.World → m.World) → List m.Client → m.World → m.World
  for_clients f [] w = w
  for_clients f (cli ∷ clients) w = for_clients f clients (f cli w)

  -- one pass of the loop
  unfoldable pub pass : List m.Client → m.World → m.World
  unfolding for_clients
  pass clients w = for_clients m.client_main clients (m.sleep_for 1000 w)

  unfoldable pub main_loop :
      Platform
      → m.Handlers
      → Arrivals
      → ℕ
      → GameClientApp
      → m.World
      → Option (Option GameClientApp × m.World)
  unfolding deliver handler pass run_loop
  main_loop p h s fuel a w =
      run_loop (λ a. a.keep_going) (deliver m.machine p h (handler p)) (pass a.clients) s.during
        fuel 0 a w

  -- what _main does after the loop
  unfoldable pub tear_down : List m.Client → m.World → m.World
  unfolding for_clients
  tear_down clients w = m.join_io_thread (for_clients m.stop_client clients (m.stop_io_service w))

  -- _main, with its return value, if the system has not ended the process
  unfoldable pub run_main :
      Platform
      → m.Handlers
      → Arrivals
      → ℕ
      → GameClientApp
      → m.World
      → Option (Option (GameClientApp × ℤ) × m.World)
  unfolding deliver handler deliver_all main_loop tear_down
  run_main p h s fuel a w = elim (deliver_all (deliver m.machine p h (handler p)) s.early a) [
    | none ↦ some (none, w)
    | some a ↦ elim (main_loop p h s fuel a w) [
      | none ↦ none
      | some (none, w) ↦ some (none, w)
      | some (some a, w) ↦ some (some (a, pos 0), tear_down a.clients w)
    ]
  ]

  -- what the constructor does before it calls _main
  unfoldable pub set_up : AppConfig → m.World → List m.Client × m.World
  unfolding create_clients
  set_up c w =
      let (clients, w) = create_clients c c.client_cnt 0 [] (
        m.log_file (m.format "%s/%%y-%%m-%%d/game-client-%d.log" c.log_dir (m.config_node_id c))
          (m.create_directories c w)) in
      (clients, m.run_io_service w)

  -- the constructor
  unfoldable pub new :
      Platform → Arrivals → ℕ → ℕ → List String → m.World → Option (Option GameClientApp × m.World)
  unfolding register_signal process_options set_up run_main
  new p s fuel argc argv w =
      let h = register_signal p m.no_handlers in
      let (c, code) = process_options argv m.default_config w in
      let (clients, w') = set_up c w in
      let a : List m.Client → GameClientApp = λ clients. record {
        argc = argc;
        argv = argv;
        exit_code = pos 0;
        keep_going = true;
        app_config = c;
        clients = clients;
      } in
      if is_negative code
      then some (some (a []), w)
      else elim (run_main p h s fuel (a clients) w') [
        | none ↦ none
        | some (none, w) ↦ some (none, w)
        | some (some (a, code), w) ↦ some (some (record a { exit_code = code }), w)
      ]

  -- main(), with the exit status, if the system has not ended the process: the exit code is only
  -- logged
  unfoldable pub main :
      Platform → Arrivals → ℕ → ℕ → List String → m.World → Option (Option ℤ × m.World)
  unfolding new
  main p s fuel argc argv w = elim (new p s fuel argc argv w) [
    | none ↦ none
    | some (none, w) ↦ some (none, w)
    | some (some a, w) ↦ some (some (pos 0), w)
  ]
