-- ===== src/Tests/Apps.antt =====
-- The theorems on the programs of apps at an instance whose world is the list of what happened.
use Prim.Native.String.{String}
use bcp_concept_prototype.Prelude.{
  ℕ, zero, suc, ◌≡◌, ◌↔◌, ◌<◌, ◌&&◌, ◌||◌, ◌==◌, refl, Bool, true, false, not, List, [], ◌∷◌, some,
  arith, if◌then◌else◌,
}
use bcp_concept_prototype.Prelude.Ints.{pos}
use bcp_concept_prototype.App.{
  minus, returns, throws, std_exception, OptionSpec, OptionName, posix, windows, Platform, Machine,
  Arrivals, Throws,
}
use bcp_concept_prototype.App.Stops.{
  iterate, IsLastPass, HasSignals, is_stop, survives, any_stop, all_survive,
}
use bcp_concept_prototype.App.Clients.{Started}
use bcp_concept_prototype.App.Accepted.{IsAccepted, process_options_iff}
use bcp_concept_prototype.App.Options.{lacks_required, process_options_without_id, NotifyRequires}
use bcp_concept_prototype.App.NodeServer
use bcp_concept_prototype.App.BridgeServer
use bcp_concept_prototype.App.GameServer
use bcp_concept_prototype.App.GameClient
use bcp_concept_prototype.App.NodeRuns
use bcp_concept_prototype.App.GameRuns
use bcp_concept_prototype.App.BridgeRuns
use bcp_concept_prototype.App.ClientRuns

-- A command line is read as the number of its words: with none there is only the option help, with
-- more the node id.
abbrev counts : ℕ → OptionName → ℕ
counts zero OptionName.help = 1
counts zero _ = 0
counts (suc n) OptionName.node_id = 1
counts (suc n) _ = 0

abbrev words : List String → ℕ
words [] = 0
words (w ∷ ws) = suc (words ws)

-- What is asked for that is not there makes notify() throw.
abbrev missing : ℕ → List OptionSpec → Bool
missing vm [] = false
missing vm (o ∷ os) = (o.required && counts vm o.name == 0) || missing vm os

-- SIGINT, SIGKILL and SIGTERM end a process, others are ignored; a closed console ends one.
abbrev fatal : Platform → ℕ → Bool
fatal posix x = x == 2 || x == 9 || x == 15
fatal windows x = true

abbrev closing : Platform → ℕ → Bool
closing posix x = false
closing windows x = x == 2

module _ (Config : Type 0) (c : Config) where
  abbrev machine : Machine Config
  machine = record {
    World = List ℕ;
    VariablesMap = ℕ;
    parse = λ os argv. returns (words argv);
    notify = λ os vm c. if missing vm os then throws std_exception else returns c;
    count = counts;
    default_config = c;
    load_config = λ c w. returns (c, true);
    config_node_id = λ c. pos 7;
    create_directories = λ c w. 1 ∷ w;
    format = λ s t n. s;
    log_file = λ s w. 2 ∷ w;
    sleep_for = λ n w. w;
    Handlers = ℕ → Bool;
    no_handlers = λ x. false;
    signal = λ sig h x. (not (sig == 9) && sig == x) || h x;
    set_console_ctrl_handler = λ h x. true;
    is_handled = λ x h. h x;
    ends = fatal;
    ends_handled = closing;
    new_server = λ c w. 3 ∷ w;
    start_server = λ c w. 4 ∷ w;
    update = λ w. 5 ∷ w;
    stop_server = λ w. 6 ∷ w;
    delete_server = λ w. 7 ∷ w;
  }

  machine-HasSignals : HasSignals machine
  machine-HasSignals = record {
    first = λ x. refl;
    caught = λ sig x h. refl;
    console = λ x h. refl;
    goes_on = λ x. refl;
  }

-- The interrupt comes in pass 1. A change of the window's size, before the loop, is ignored.
abbrev interrupt : ℕ → List ℕ
interrupt zero = []
interrupt (suc zero) = 2 ∷ []
interrupt (suc (suc n)) = []

abbrev arrivals : Arrivals
arrivals = record { early = 28 ∷ []; during = interrupt }

arrivals-IsLastPass :
    (Config : Type 0) (c : Config) → IsLastPass (machine Config c) posix arrivals 1
unfolding any_stop all_survive survives is_stop
arrivals-IsLastPass Config c = record {
  early = refl;
  early_survive = refl;
  before = quiet;
  survive = lives;
  stop = refl;
}
  where
    quiet : (k : ℕ) → k < 1 → any_stop (machine Config c) posix (interrupt k) ≡ false
    quiet zero l = refl
    quiet (suc k) l = absurd (omega arith)

    lives : (k : ℕ) → k < 2 → all_survive (machine Config c) posix (interrupt k) ≡ true
    lives zero l = refl
    lives (suc zero) l = refl
    lives (suc (suc k)) l = absurd (omega arith)

abbrev line : List String
line = "-i" ∷ "7" ∷ []

abbrev node_config : NodeServer.AppConfig
node_config = record {
  node_id = pos 7;
  max_node_count = 100;
  node_peers = [];
  node_bridge_servers = [];
  bridge_game_servers = [];
  game_user_servers = [];
  node_user_servers = [];
  data_dir = "data";
  log_dir = "log";
  key_dir = "key";
  config_file = "bryllite.config.json";
}

abbrev node_machine : Machine NodeServer.AppConfig
node_machine = machine NodeServer.AppConfig node_config

main_of_node_example :
    NodeServer.main node_machine posix arrivals 5 2 line []
    ≡ some (some (pos 0), 7 ∷ 6 ∷ 5 ∷ 5 ∷ 4 ∷ 2 ∷ 1 ∷ 3 ∷ [])
unfolding NodeServer.process_options NodeServer.try_options NodeServer.invalid_id NodeServer.set_up
    NodeServer.pass iterate
main_of_node_example =
    NodeRuns.main_of_node node_machine posix arrivals 1 5
      (machine-HasSignals NodeServer.AppConfig node_config) 2 line []
      (arrivals-IsLastPass NodeServer.AppConfig node_config) (omega arith)

abbrev bridge_config : BridgeServer.AppConfig
bridge_config = record {
  node_id = pos 7;
  max_node_count = 100;
  node_peers = [];
  node_bridge_servers = [];
  bridge_game_servers = [];
  game_user_servers = [];
  node_user_servers = [];
  data_dir = "data";
  log_dir = "log";
  key_dir = "key";
  config_file = "bryllite.config.json";
}

abbrev bridge_machine : Machine BridgeServer.AppConfig
bridge_machine = machine BridgeServer.AppConfig bridge_config

main_of_bridge_example :
    BridgeServer.main bridge_machine posix arrivals 5 2 line []
    ≡ some (some (pos 0), 7 ∷ 6 ∷ 5 ∷ 5 ∷ 4 ∷ 3 ∷ 2 ∷ 1 ∷ [])
unfolding BridgeServer.process_options BridgeServer.try_options BridgeServer.set_up
    BridgeServer.pass iterate
main_of_bridge_example =
    BridgeRuns.main_of_bridge bridge_machine posix arrivals 1 5
      (machine-HasSignals BridgeServer.AppConfig bridge_config) 2 line []
      (arrivals-IsLastPass BridgeServer.AppConfig bridge_config) (omega arith)

abbrev game_config : GameServer.AppConfig
game_config = record {
  node_id = pos 7;
  max_node_count = 100;
  node_peers = [];
  node_bridge_servers = [];
  bridge_game_servers = [];
  game_user_servers = [];
  node_user_servers = [];
  data_dir = "data";
  log_dir = "log";
  key_dir = "key";
  config_file = "bryllite.config.json";
}

abbrev game_machine : Machine GameServer.AppConfig
game_machine = machine GameServer.AppConfig game_config

main_of_game_example :
    GameServer.main game_machine posix arrivals 5 2 line []
    ≡ some (some (pos 0), 7 ∷ 6 ∷ 5 ∷ 5 ∷ 4 ∷ 3 ∷ 2 ∷ 1 ∷ [])
unfolding GameServer.process_options GameServer.try_options GameServer.set_up GameServer.pass
    iterate
main_of_game_example =
    GameRuns.main_of_game game_machine posix arrivals 1 5
      (machine-HasSignals GameServer.AppConfig game_config) 2 line []
      (arrivals-IsLastPass GameServer.AppConfig game_config) (omega arith)

abbrev client_config : GameClient.AppConfig
client_config = record {
  node_id = pos 7;
  max_node_count = 100;
  node_peers = [];
  node_bridge_servers = [];
  bridge_game_servers = [];
  game_user_servers = [];
  node_user_servers = [];
  data_dir = "data";
  log_dir = "log";
  key_dir = "key";
  client_cnt = 2;
  config_file = "bryllite.config.json";
}

abbrev start_of : ℕ → Throws ℕ
start_of zero = throws std_exception
start_of (suc i) = returns (suc i)

-- A client is a number; the start() of the first throws.
abbrev client_machine : GameClient.ClientMachine
client_machine = record {
  machine = machine GameClient.AppConfig client_config;
  Client = ℕ;
  new_client = λ c w. (3 ∷ w, returns 0);
  start_client = λ i cli w. (4 ∷ w, start_of i);
  client_main = λ cli w. 5 ∷ w;
  stop_client = λ cli w. 6 ∷ w;
  run_io_service = λ w. 8 ∷ w;
  stop_io_service = λ w. 9 ∷ w;
  join_io_thread = λ w. 10 ∷ w;
}

main_of_client_example :
    (clients : List ℕ) × (made : List ℕ) × Started client_machine client_config 0 2
      (2 ∷ 1 ∷ [])
      clients
      made
    × (GameClient.main client_machine posix arrivals 5 2 line []
        ≡ some (
          some (pos 0),
          10
              ∷ GameClient.for_clients client_machine client_machine.stop_client clients (
                  9
                  ∷ iterate
                      (λ w.
                        GameClient.for_clients client_machine client_machine.client_main clients w)
                      2
                      (8 ∷ made)),
        ))
unfolding GameClient.process_options GameClient.try_options
main_of_client_example =
    ClientRuns.main_of_client client_machine posix arrivals 1 5
      (machine-HasSignals GameClient.AppConfig client_config) 2 line []
      (arrivals-IsLastPass GameClient.AppConfig client_config) (omega arith)

missing-lacks_required :
    (os : List OptionSpec) (vm : ℕ) → lacks_required node_machine os vm ≡ missing vm os
unfolding lacks_required
missing-lacks_required [] vm = refl
missing-lacks_required (o ∷ os) vm = rw (missing-lacks_required os vm) refl

node_machine-NotifyRequires : NotifyRequires node_machine
node_machine-NotifyRequires os vm c h = rw (← missing-lacks_required os vm, h) refl

-- A command line that asks for the help alone.
process_options_without_id_example :
    NodeServer.process_options node_machine [] node_config [] ≡ (node_config, minus 100)
process_options_without_id_example =
    process_options_without_id node_machine [] node_config [] 0 node_machine-NotifyRequires refl
      refl

process_options_iff_example :
    (NodeServer.process_options node_machine line node_config [] ≡ (node_config, pos 0))
    ↔ IsAccepted node_machine line node_config [] node_config
process_options_iff_example = process_options_iff node_machine line node_config node_config []
