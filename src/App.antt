-- ===== src/App.antt =====
-- apps/*/main.cpp: what the four programs share. Their code around it stands four times in the
-- repository and is four modules here. boost::program_options, the closed classes app_config and
-- the servers, the clock and the signals of the platform are a parameter of each program: a record
-- of operations on what is outside of it, the World. Log and console output are left out.
pub mod PeerData
pub mod Loop
pub mod Stops
pub mod NodeServer
pub mod BridgeServer
pub mod GameServer
pub mod GameClient
pub mod NodeRuns
pub mod BridgeRuns
pub mod GameRuns
pub mod ClientRuns
pub mod Options
pub mod Accepted
pub mod Clients
use Prim.Native.String.{String}
use bcp_concept_prototype.Prelude.{ℕ, zero, suc, Bool, List, Option, ◌==◌, ◌||◌}
use bcp_concept_prototype.Prelude.Ints.{ℤ, pos, negsuc}

-- -n
abbrev pub minus : ℕ → ℤ
minus zero = pos 0
minus (suc n) = negsuc n

-- catch( std::exception& e ) and catch( ... )
pub data Exception : Type 0 where
  std_exception unknown_exception : Exception

pub data Throws {ℓ} (A : Type ℓ) : Type ℓ where
  returns : A → Throws A
  throws : Exception → Throws A

infixl 5 ◌>>=◌
abbrev pub ◌>>=◌ {ℓ κ} : {A : Type ℓ} {B : Type κ} → Throws A → (A → Throws B) → Throws B
returns a >>= f = f a
throws e >>= f = throws e

-- What a program tells boost of one option: the field of app_config that it sets and the type of
-- its value follow from the name.
pub data OptionName : Type 0 where
  node_id node_limit config client_count version help : OptionName

pub record OptionSpec : Type 0 where
  pub name : OptionName
  pub short : String
  pub required : Bool
  pub default_value : Option String

-- signal numbers, and those of the console of Windows
abbrev pub sigint : ℕ
sigint = 2

abbrev pub sigkill : ℕ
sigkill = 9

abbrev pub ctrl_c_event : ℕ
ctrl_c_event = 0

abbrev pub ctrl_close_event : ℕ
ctrl_close_event = 2

pub data Platform : Type 0 where
  posix windows : Platform

-- What is outside of a program whose configuration has the type Config.
pub record Machine (Config : Type 0) : Type 1 where
  pub World : Type 0
  -- po::parse_command_line and po::store, po::notify, and variables_map::count
  pub VariablesMap : Type 0
  pub parse : List OptionSpec → List String → Throws VariablesMap
  pub notify : List OptionSpec → VariablesMap → Config → Throws Config
  pub count : VariablesMap → OptionName → ℕ
  -- app_config(), loadConfig(), node_id() and create_directories()
  pub default_config : Config
  pub load_config : Config → World → Throws (Config × Bool)
  pub config_node_id : Config → ℤ
  pub create_directories : Config → World → World
  -- bryllite::format with a text and a number, and clog.logFile()
  pub format : String → String → ℤ → String
  pub log_file : String → World → World
  pub sleep_for : ℕ → World → World
  -- The handlers that the system knows of, changed by signal() and SetConsoleCtrlHandler() with the
  -- handler of the program; for which signals this is called; whether a signal ends a process that
  -- has no handler for it, and whether one ends it after its handler has returned.
  pub Handlers : Type 0
  pub no_handlers : Handlers
  pub signal : ℕ → Handlers → Handlers
  pub set_console_ctrl_handler : Handlers → Handlers
  pub is_handled : ℕ → Handlers → Bool
  pub ends : Platform → ℕ → Bool
  pub ends_handled : Platform → ℕ → Bool
  -- the server: its constructor, start_server(), update() or onMain(), stop_server() and its
  -- destructor; it holds a reference to the configuration, which is passed where it may read it
  pub new_server : Config → World → World
  pub start_server : Config → World → World
  pub update : World → World
  pub stop_server : World → World
  pub delete_server : World → World

-- The signals that arrive before the loop of a program and in its passes.
pub record Arrivals : Type 0 where
  pub early : List ℕ
  pub during : ℕ → List ℕ
