-- ===== src/Tests/Starts.antt =====
-- The starts of the two programs, with a configuration file that names no storage, and in memory on
-- a file that was saved before.
use go_metrics_harvester.Base.{
  ℕ, String, ◌≡◌, ◌≢◌, ◌⊎◌, inl, inr, refl, ◌∙◌, true, false, Option, none, some, [], ◌∷◌, ◌==◌,
  eq_iff, arith, if◌then◌else◌, length, nat_eq, List, ℕ, Error, other, ok,
}
use go_metrics_harvester.Agent.Config as AgentConfig
use go_metrics_harvester.Server.Config.{
  Config, CfgFile, Inputs, flagged, check_subnet, read_file, decode_file, with_storage, completed,
  without_scheme, remove_all, new_config,
}
use go_metrics_harvester.Server.Config.Usable.{NamesFiles}
use go_metrics_harvester.Server.Config.Precedence.{with_given, new_config-eq_of_file}
use go_metrics_harvester.Middleware.Logging.{Zap, initialize}
use go_metrics_harvester.Programs.AgentStart
use go_metrics_harvester.Programs.AgentStart.{Starts}
use go_metrics_harvester.Programs.AgentStart.Clients.{start-Starts}
use go_metrics_harvester.Programs.ServerStart.{
  in_memory, Files, open_store, choose, restore, Ports, listen_address, new_server, start,
}
use go_metrics_harvester.Programs.ServerStart.Running.{IsRunning, start-IsRunning}
use go_metrics_harvester.Programs.Restart.{Sizes, RefusesEmpty}
use go_metrics_harvester.Tests.Samples.{codec, one_file}
use go_metrics_harvester.Tests.Webs.{one_address}
use go_metrics_harvester.Tests.Databases.{one_table}

abbrev settings : CfgFile
settings = record {
  address = "http://server:8080";
  restore = true;
  store_interval = "5s";
  store_file = "";
  database_dsn = "";
  crypto_key = "";
  trusted_subnet = "10.0.0.2";
}

abbrev named_file : String → Option String
named_file flag =
    if flag == "c" then some "cfg.json" else if flag == "t" then some "10.0.0.1" else none

-- Over a disk of one file.
abbrev inputs : Inputs (List ℕ)
inputs = record {
  string_flag = named_file;
  int64_flag = λ flag. none;
  bool_flag = λ flag. some false;
  env_parse = λ cfg. inr cfg;
  cidr_error = λ s. other "invalid CIDR address";
  open_file = λ name. inr (1 ∷ []);
  decode = λ text. inr settings;
  seconds = λ s. inr 5;
  create_temp = λ dir pattern n. (inr "/tmp/metric1", n);
  close = λ name n. (none, n);
}

abbrev configured : Config
configured = record {
  address = "server:8080";
  log_level = "info";
  store_interval = 5;
  file_storage_path = "/tmp/metric1";
  restore = true;
  database_dsn = "";
  key = "";
  crypto_key = "";
  config_file = "cfg.json";
  trusted_subnet = "10.0.0.1";
}

-- Opens what a test of the configurations computes with.
config : Unit {0}
unfolding flagged check_subnet read_file decode_file with_storage completed without_scheme
    remove_all new_config
config = tt

new_config_completes : new_config one_address inputs [] ≡ (ok configured, [])
unfolding config
new_config_completes = refl

tmp-eq :
    {name : String}
    → ◌≡◌ {A = Error ⊎ String} (inr "/tmp/metric1") (inr name)
    → "/tmp/metric1" ≡ name
tmp-eq p = cc p

size-eq : {a n : ℕ} → ◌≡◌ {A = Error ⊎ ℕ} (inr a) (inr n) → n ≡ a
size-eq p = cc p

tmp-ne : ◌≢◌ {A = String} "/tmp/metric1" ""
tmp-ne p = ground (arith, eq_iff "/tmp/metric1" "")

inputs-NamesFiles : NamesFiles inputs
inputs-NamesFiles = record { created = λ dir pattern name s p q. tmp-ne (tmp-eq p ∙ q) }

abbrev ports : Ports
ports = record {
  split_host_port = λ address. inr ("server", "8080");
  atoi = λ port. inr 8080;
  decimal = λ n. if nat_eq n 8081 then "8081" else "";
}

abbrev pub files : Files one_file
files = record { open_or_create = λ path d. (ok tt, d); size = λ path d. inr (length d) }

-- A zap that knows one level.
abbrev parse_info : String → Error ⊎ Unit {0}
parse_info level = if level == "info" then inr tt else inl (other "unrecognized level")

abbrev quiet : Zap
quiet = record {
  Level = Unit;
  Logger = ℕ;
  new_nop = 0;
  parse_atomic_level = parse_info;
  build = λ _. inr 1;
}

initialize_sets :
    (initialize quiet "info" 0 ≡ (none, 1))
    × (initialize quiet "loud" 0 ≡ (some (other "unrecognized level"), 0))
unfolding initialize
initialize_sets = (refl, refl)

-- A start on an empty file.
start-IsRunning_example :
    IsRunning {F = ℕ} one_address inputs ports
      (λ name. inr [])
      []
      (
        in_memory (record { storage = [] }),
        record { key = ""; trusted_subnet = "10.0.0.1"; private_key = none; store_interval = 5 },
        "server:8081",
      )
unfolding config open_store choose restore listen_address new_server start initialize
start-IsRunning_example =
    start-IsRunning codec one_file files one_table one_address inputs ports (λ name. inr []) quiet
      [] []
      (
        in_memory (record { storage = [] }),
        record { key = ""; trusted_subnet = "10.0.0.1"; private_key = none; store_interval = 5 },
        "server:8081",
      )
      inputs-NamesFiles refl

-- With no flag at all, the environment names the file and the subnet.
abbrev env : Config → Error ⊎ Config
env cfg =
    inr (record cfg { config_file = "cfg.json"; trusted_subnet = "10.0.0.1"; address = "lost:1" })

new_config-eq_of_file_example :
    new_config one_address inputs []
    ≡ new_config one_address (with_given inputs (λ _. none) (λ _. none) (λ _. none) env) []
unfolding config
new_config-eq_of_file_example =
    new_config-eq_of_file one_address inputs (λ _. none) (λ _. none) (λ _. none) env
      (flagged inputs)
      (record (flagged (with_given inputs (λ _. none) (λ _. none) (λ _. none) env)) {
        config_file = "cfg.json";
        trusted_subnet = "10.0.0.1";
        address = "lost:1";
      })
      [] refl refl
      (record {
        named = λ p. ground (arith, eq_iff "cfg.json" "");
        config_file = refl;
        log_level = refl;
        key = refl;
        trusted_subnet = refl;
      })

abbrev agent_file : AgentConfig.CfgFile
agent_file = record {
  address = "localhost:9090";
  report_interval = "1s";
  poll_interval = "1s";
  crypto_key = "key.pem";
  protocol = "grpc";
}

abbrev agent_inputs : AgentConfig.Inputs
agent_inputs = record {
  string_flag = named_file;
  int64_flag = λ flag. none;
  env_parse = λ cfg. inr cfg;
  open_file = λ name. inr (1 ∷ []);
  decode = λ text. inr agent_file;
  seconds = λ s. inr 1;
  scheme = λ address. inr "localhost";
}

start-Starts_example :
    Starts
      (λ _. inr (8 ∷ []))
      (λ _. none)
      (AgentConfig.flagged agent_inputs)
      (AgentStart.start (λ _. inr (8 ∷ [])) (λ _. none) quiet agent_inputs)
start-Starts_example =
    start-Starts (λ _. inr (8 ∷ [])) (λ _. none) quiet agent_inputs
      (AgentConfig.flagged agent_inputs) refl

pub files-Sizes : Sizes files
files-Sizes = record {
  read-open_or_create = λ path d e. refl;
  size-length = λ path d n e. size-eq e;
}

pub codec-RefusesEmpty : RefusesEmpty codec
codec-RefusesEmpty = record { decode_nothing = (other "unexpected end", refl) }

abbrev pub in_file : Config
in_file = record configured { file_storage_path = "m.json" }
