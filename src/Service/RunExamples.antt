-- ===== src/Service/RunExamples.antt =====
-- A run of the program with a key server, and the theorems about its start at it.
use remote_console.Prelude.{
  ℕ, zero, suc, ◌≡◌, ◌≢◌, refl, ◌↔◌, inl, inr, true, false, Option, none, some, List, [], ◌∷◌, ◌++◌,
  ok, err, arith, In,
}
use remote_console.Prelude.Text.{Str, str, ◌==◌}
use remote_console.Prelude.Filepath.{join, dir}
use remote_console.Prelude.Strings.{itoa}
use remote_console.Console.Auth.{KeyServer, fetch_public_key_from_url}
use remote_console.Console.Auth.Fetched.{IsDocumented}
use remote_console.Console.Router.{
  to_consoles, Middleware, Route, Request, Framework, Server, refused, setup_routes, serve,
  required_claims,
}
use remote_console.Service.Config.{RemoteConsoleConfig, default_config}
use remote_console.Service.Startup.{init_auth}
use remote_console.Service.Run.{
  StartIo, StopIo, SmdClient, Serving, initial_nodes, initial_site, run_service, main,
}
use remote_console.Service.Run.Exit.{IsReady, main_iff}
use remote_console.Service.Run.Rotated.{start_log_rotate_agg}
use remote_console.Service.Loops.{Site, start_log_rotate}
use remote_console.Console.Router.Guarded.{admits}
use remote_console.Nodes.Registry.{current_nodes}
use remote_console.Creds.Passwords.{new_creds_service}
use remote_console.Creds.Examples.{working, full}
use remote_console.Logs.AggLog.{agg_log_file, ensure_agg_log}
use remote_console.Logs.Tails.{no_tails}
use remote_console.Logs.RotateConf.{header, line, agg_entry, update_log_rotate_conf}
use remote_console.Logs.RotateConf.Complete.{node_entries}
use remote_console.Logs.Examples.{agg_io, conf_file}
use remote_console.Service.Startup.Consoles.{consoles_protected}

-- A key server that answers with a status; the key set is the body.
abbrev key_server : ℕ → KeyServer Str Str
key_server status = record {
  round_trip = ok (record { status_code = status; body = str "keys" });
  fetch = λ answer. elim answer [ ok resp ↦ ok resp.body | err e ↦ err e ];
  marshal = λ set. ok set;
  new_key_set = λ jwks. (some jwks, none);
}

-- The third fetch succeeds.
abbrev servers : ℕ → KeyServer Str Str
servers zero = key_server 503
servers (suc zero) = key_server 503
servers (suc (suc i)) = key_server 200

servers-IsDocumented : (j : ℕ) → IsDocumented (servers j)
servers-IsDocumented zero = record {
  fetch_errors = λ e. (e, refl);
  new_key_set_some = λ jwks h. refl;
}
servers-IsDocumented (suc zero) = record {
  fetch_errors = λ e. (e, refl);
  new_key_set_some = λ jwks h. refl;
}
servers-IsDocumented (suc (suc j)) = record {
  fetch_errors = λ e. (e, refl);
  new_key_set_some = λ jwks h. refl;
}

abbrev url : Str
url = str "http://jwks"

url-nonempty : url ≢ []
url-nonempty e = absurd (ground (arith, e))

fetched : init_auth url servers ≡ (some (str "keys"), none)
unfolding init_auth fetch_public_key_from_url itoa ◌==◌
fetched = refl

started : (init_auth url servers).1 ≡ none
unfolding init_auth fetch_public_key_from_url itoa ◌==◌
started = refl

-- The route of the list of the consoles.
abbrev consoles_route : Route Str
consoles_route = record {
  method = str "GET";
  pattern = str "/remote-console/consoles";
  middlewares =
      Middleware.redirect_slashes
      ∷ Middleware.verifier (str "keys")
      ∷ Middleware.authenticator_with_required_claims (str "keys") required_claims
      ∷ [];
  handler = to_consoles;
}

abbrev fourth : List (Route Str) → Option (Route Str × Str)
fourth (a ∷ b ∷ c ∷ route ∷ rest) = some (route, [])
fourth _ = none

-- Every request goes to the list, and only one token is good.
abbrev framework : Framework Str
framework = record {
  find = λ routes r. fourth routes;
  passes = λ m r. r.token == str "good";
  upgraded = λ r. true;
}

abbrev server : Server
server = record { nodes = initial_nodes; sessions = [] }

abbrev forged : Request
forged = record {
  method = str "GET";
  path = str "/remote-console/consoles";
  token = str "forged";
  mode = [];
  follow = [];
  lines = [];
}

found : framework.find (setup_routes (init_auth url servers).0) forged ≡ some (consoles_route, [])
unfolding setup_routes init_auth fetch_public_key_from_url itoa ◌==◌
found = refl

listed : In consoles_route (setup_routes (init_auth url servers).0)
unfolding setup_routes init_auth fetch_public_key_from_url itoa ◌==◌
listed = inr (inr (inr (inl refl)))

unfit : (token_auth : Str) → admits framework forged token_auth ≡ false
unfolding ◌==◌
unfit token_auth = refl

consoles_protected_example :
    serve framework server forged (setup_routes (init_auth url servers).0) ≡ (server, refused)
consoles_protected_example =
    consoles_protected url servers framework server forged consoles_route [] servers-IsDocumented
      url-nonempty started found listed (inl refl) (λ token_auth e. unfit token_auth)

-- A configuration with a key set, and a start that meets no fault but in its two first fetches.
abbrev config : RemoteConsoleConfig
config = record default_config { jwks_url = url }

abbrev start_io : StartIo Str Str
start_io = record {
  mkdir_all = λ path. none;
  agg_io = agg_io 3;
  key_io = working;
  secrets = full;
  disk = [];
  servers = servers;
}

abbrev stop : StopIo
stop = record { shutdown = none; timed_out = false }

main_iff_example :
    (main config start_io stop ≡ 0)
    ↔ (IsReady config start_io × (stop.timed_out ≡ false) × (stop.shutdown ≡ none))
main_iff_example = main_iff start_io config stop

abbrev serving : Serving Str
serving = elim (run_service config start_io) [
  | ok s ↦ s
  | err e ↦ record {
    site = initial_site config start_io (record {
      config = config.log;
      agg_log = record {
        con_agg_logger = none;
        con_agg_log_file = [];
        con_agg_file = none;
        closed = [];
        printed = [];
      };
      tails = no_tails;
      log_rotate_file_stamp = none;
    });
    creds = record { service = new_creds_service config.creds; disk = [] };
    smd_client = SmdClient.default_client;
    routes = [];
  }
]

served : run_service config start_io ≡ ok serving
unfolding run_service fetch_public_key_from_url itoa ◌==◌ default_config
served = refl

abbrev rotated : Site
rotated = elim (start_log_rotate serving.site conf_file) [ none ↦ serving.site | some t ↦ t.0 ]

rotated_runs :
    start_log_rotate (record serving.site { nodes = initial_nodes }) conf_file
    ≡ some (rotated, none)
unfolding start_log_rotate run_service fetch_public_key_from_url itoa ◌==◌ default_config
    update_log_rotate_conf ensure_agg_log dir current_nodes
rotated_runs = refl

start_log_rotate_agg_example :
    rotated.rotate_conf
    ≡ line header []
      ++ (agg_entry config.log (agg_log_file config.log.agg_logs_path start_io.agg_io.hostname)
          ++ (node_entries config.log
                (join config.conman.logs_path (str "conman"))
                (current_nodes initial_nodes)
              ++ b'\n' ∷ []))
start_log_rotate_agg_example =
    start_log_rotate_agg config start_io serving initial_nodes conf_file rotated served
      (λ content text h. refl) rotated_runs
