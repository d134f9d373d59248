-- ===== src/Worker/Command.antt =====
-- The configuration and the start-up of cmd/terra-worker/main.go and config/config.go.
pub mod FileOnly
mod Examples
use Prim.Native.String.{◌++◌ as append}
use terra_worker.Prelude.{String, Bool, ◌||◌, not, List, [], ◌∷◌, map, str_eq, if◌then◌else◌}
use terra_worker.Go.Outcome.{Outcome, ok, err, panic, ◌>>=◌}
use terra_worker.Go.Text.{split}

-- Config, with the fields that the start-up reads before it builds the servers
pub record Config : Type 0 where
  pub app_env : String
  pub address : String
  pub port : String
  pub http_port : String
  pub managers : String
  pub hostname : String
  pub terra_rpc_addr : String
  pub terra_lcd_addr : String
  pub chain_id : String
  pub rollbar_access_token : String
  pub rollbar_server_root : String

-- &config.Config{}
abbrev pub no_config : Config
no_config = record {
  app_env = "";
  address = "";
  port = "";
  http_port = "";
  managers = "";
  hostname = "";
  terra_rpc_addr = "";
  terra_lcd_addr = "";
  chain_id = "";
  rollbar_access_token = "";
  rollbar_server_root = "";
}

-- What the configuration is read with: ioutil.ReadFile, json.Unmarshal into a configuration, and
-- envconfig.Process on one.
pub record Sources : Type 0 where
  pub read_file : String → Outcome String
  pub unmarshal : String → Config → Outcome Config
  pub process : Config → Outcome Config

module _ (sources : Sources) where
  unfoldable pub from_file : String → Config → Outcome Config
  from_file path config = do bytes ← sources.read_file path; sources.unmarshal bytes config

  unfoldable pub from_env : Config → Outcome Config
  from_env config = sources.process config

  unfoldable pub init_config : String → Outcome Config
  unfolding from_file from_env
  init_config path = do
    cfg ← (if str_eq path "" then ok no_config else from_file path no_config)
    if not (str_eq cfg.terra_rpc_addr "") then ok cfg else from_env cfg

-- RollbarConfig, without the commit of the build and with its one chain
pub record RollbarConfig : Type 0 where
  pub app_env : String
  pub rollbar_access_token : String
  pub rollbar_server_root : String
  pub chain_id : String

-- What the configuration comes to: the arguments of logger.Init, the address that the worker gives
-- to the managers, theirs, and the two addresses that it listens on.
pub record Settings : Type 0 where
  pub encoding : String
  pub log_level : String
  pub rollbar : RollbarConfig
  pub worker_address : String
  pub managers : List String
  pub grpc_listens : String
  pub http_listens : String

unfoldable pub unless_empty : String → String → String
unless_empty s default = if str_eq s "" then default else s

unfoldable pub is_development : Config → Bool
is_development cfg = str_eq cfg.app_env "development" || str_eq cfg.app_env "local"

-- what `main` does with its configuration
unfoldable pub settings : Config → Settings
unfolding unless_empty is_development split
settings cfg = record {
  encoding = if is_development cfg then "console" else "json";
  log_level = if is_development cfg then "debug" else "info";
  rollbar = record {
    app_env = cfg.app_env;
    rollbar_access_token = cfg.rollbar_access_token;
    rollbar_server_root =
        unless_empty cfg.rollbar_server_root "github.com/figment-networks/terra-worker";
    chain_id = cfg.chain_id;
  };
  worker_address = append (append (unless_empty cfg.hostname cfg.address) ":") cfg.port;
  managers = map (λ m. append m "/client_ping") (split cfg.managers b',');
  grpc_listens = append "0.0.0.0:" cfg.port;
  http_listens = append "0.0.0.0:" cfg.http_port;
}

unfoldable pub start_up : Sources → String → Outcome Settings
unfolding init_config settings
start_up sources path = do cfg ← init_config sources path; ok (settings cfg)
