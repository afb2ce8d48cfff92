-- ===== src/Service/Run.antt =====
-- cmd/remote-console/{main,command,service}.go: a run of the program, from its parsed configuration to
-- its exit code. The loops that runService starts stand in Service/Loops.
pub mod Exit
pub mod Rotated
use remote_console.Prelude.{
  ℕ, Bool, true, false, Option, none, some, List, [], ◌∷◌, Result, ok, err, Error, if◌then◌else◌,
}
use remote_console.Prelude.Text.{Str, str, ◌==◌}
use remote_console.Prelude.Filepath.{join}
use remote_console.Prelude.Map.{Map}
use remote_console.Conman.Process.{new_conman_service}
use remote_console.Creds.Passwords.{CredsService, new_creds_service}
use remote_console.Creds.Storage.{Secrets}
use remote_console.Creds.Keys.{KeyIo, KeyState, ensure_console_keys_present}
use remote_console.Logs.AggLog.{AggIo, ensure_agg_log}
use remote_console.Logs.Service.{LogsService, new_logs_service}
use remote_console.Nodes.Registry.{NodesState}
use remote_console.Console.Auth.{KeyServer}
use remote_console.Console.Router.{Route, setup_routes}
use remote_console.Service.Config.{
  RemoteConsoleConfig, OAuth2Config, ensure_trailing_slash, validate_config,
}
use remote_console.Service.Startup.{init_auth}
use remote_console.Service.Loops.{Site}

-- What the start meets: os.MkdirAll, the files of the aggregation log and of the keys, the secure
-- storage, and the key server at each try.
pub record StartIo (KeySet Jwt : Type 0) : Type 0 where
  pub mkdir_all : Str → Option Error
  pub agg_io : AggIo
  pub key_io : KeyIo
  pub secrets : Secrets
  pub disk : Map Str
  pub servers : ℕ → KeyServer KeySet Jwt

-- The client of the node service: the default one, or one with OAuth2 credentials.
pub data SmdClient : Type 0 where
  default_client : SmdClient
  oauth2_client : OAuth2Config → SmdClient

unfoldable pub smd_http_client : OAuth2Config → SmdClient
smd_http_client oauth2 = if oauth2.token_url == [] then default_client else oauth2_client oauth2

-- The program when its loops and its server run.
pub record Serving (Jwt : Type 0) : Type 0 where
  pub site : Site
  pub creds : KeyState
  pub smd_client : SmdClient
  pub routes : List (Route Jwt)

-- The package variables of internal/nodes at the start of the program.
abbrev pub initial_nodes : NodesState
initial_nodes = record { current_nodes = []; hardware_update_time = str "Unknown" }

module _ {KeySet Jwt : Type 0} (config : RemoteConsoleConfig) (io : StartIo KeySet Jwt) where
  abbrev pub initial_site : LogsService → Site
  initial_site logs = record {
    nodes = initial_nodes;
    conman = new_conman_service config.conman;
    logs = record logs {
      agg_log = ensure_agg_log logs.agg_log logs.config.agg_logs_path io.agg_io;
    };
    rotate_conf = [];
  }

  -- The error of the keys is only logged.
  abbrev keys_ensured : KeyState
  keys_ensured =
      (ensure_console_keys_present io.key_io (new_creds_service config.creds) io.disk io.secrets).0

  abbrev serving_with : LogsService → Option Jwt × Option Error → Result (Serving Jwt)
  serving_with logs (token_auth, some e) = err e
  serving_with logs (token_auth, none) = ok (record {
    site = initial_site logs;
    creds = keys_ensured;
    smd_client = smd_http_client config.oauth2;
    routes = setup_routes token_auth;
  })

  abbrev with_logs : Result LogsService → Result (Serving Jwt)
  with_logs (err e) = err (Error.wrap (str "failed to initialize logs service: ") e)
  with_logs (ok logs) = serving_with logs (init_auth config.jwks_url io.servers)

  abbrev in_directory : Option Error → Result (Serving Jwt)
  in_directory (some e) = err e
  in_directory none = with_logs (new_logs_service config.log io.mkdir_all)

  -- runService up to its wait for a signal.
  unfoldable pub run_service : Result (Serving Jwt)
  unfolding new_conman_service init_auth new_logs_service
  run_service = in_directory (io.mkdir_all (join config.conman.logs_path (str "conman")))

-- What the end meets: the error of server.Shutdown, and whether its grace period passed before.
pub record StopIo : Type 0 where
  pub shutdown : Option Error
  pub timed_out : Bool

-- runService behind the signal, with the exit code of the program.
unfoldable pub shut_down : StopIo → ℕ
shut_down io = if io.timed_out then 1 else elim io.shutdown [ some e ↦ 1 | none ↦ 0 ]

abbrev pub with_slash : RemoteConsoleConfig → RemoteConsoleConfig
with_slash config = record config { smd_url = ensure_trailing_slash config.smd_url }

module _ {KeySet Jwt : Type 0} (config : RemoteConsoleConfig) (io : StartIo KeySet Jwt) where
  abbrev before : Option Error → Result (Serving Jwt)
  before (some e) = err e
  before none = run_service (with_slash config) io

  -- The command: its Before, then its Action up to the wait.
  unfoldable pub run_command : Result (Serving Jwt)
  unfolding ensure_trailing_slash validate_config run_service
  run_command = before (validate_config (with_slash config))

  abbrev exit_with : StopIo → Result (Serving Jwt) → ℕ
  exit_with stop (err e) = 1
  exit_with stop (ok serving) = shut_down stop

  -- The program's exit code.
  unfoldable pub main : StopIo → ℕ
  unfolding run_command shut_down
  main stop = exit_with stop run_command
