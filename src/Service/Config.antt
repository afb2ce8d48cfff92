-- ===== src/Service/Config.antt =====
-- cmd/remote-console/config.go, and ensureTrailingSlash of command.go.
pub mod Valid
use remote_console.Prelude.{
  ℕ, ◌≡◌, refl, Bool, true, false, ◌&&◌, ◌||◌, not, Option, none, some, List, [], ◌∷◌, ◌++◌, Result,
  ok, err, Error, if◌then◌else◌, length, ltb,
}
use remote_console.Prelude.Text.{Str, str, ◌==◌}
use remote_console.Prelude.Int.{ℤ, pos}
use remote_console.Conman.Config.{ConmanConfig, default_conman_config}
use remote_console.Creds.Config.{
  CredsConfig, default_creds_config, new_storage_adapter, storage_adapter_local,
}
use remote_console.Logs.Config.{LogConfig, default_log_config}

pub record OAuth2Config : Type 0 where
  pub client_id : Str
  pub client_secret : Str
  pub token_url : Str
  pub scopes : List Str

pub record RemoteConsoleConfig : Type 0 where
  pub log : LogConfig
  pub conman : ConmanConfig
  pub creds : CredsConfig
  pub http_listen : Str
  pub new_node_lookup : ℤ
  pub creds_monitor_interval : ℤ
  pub smd_url : Str
  pub jwks_url : Str
  pub jwks_fetch_interval : ℤ
  pub oauth2 : OAuth2Config

unfoldable pub default_config : RemoteConsoleConfig
unfolding default_conman_config default_creds_config
default_config = record {
  log = default_log_config;
  conman = default_conman_config;
  creds = default_creds_config;
  http_listen = str "0.0.0.0:26776";
  new_node_lookup = pos 120;
  creds_monitor_interval = pos 30;
  smd_url = str "http://cray-smd/";
  jwks_url = [];
  jwks_fetch_interval = pos 5;
  oauth2 = record { client_id = []; client_secret = []; token_url = []; scopes = [] };
}

abbrev local_error : CredsConfig → Option Error
local_error config =
    if config.local_store_file_path == []
    then some (
        Error.new
          (str "a local storage path must be set when using the local secure storage adapter"))
    else if config.local_store_key == []
    then some (
        Error.new
          (str "a local storage key must be set when using the local secure storage adapter"))
    else none

abbrev adapter_error : CredsConfig → Result Str → Option Error
adapter_error config (err e) = some (
    Error.new (
      str "invalid secure storage adapter: "
      ++ (config.secure_storage_adapter ++ str ", valid values are (vault or local)")))
adapter_error config (ok adapter) =
    if config.secure_storage_adapter == storage_adapter_local then local_error config else none

unfoldable pub validate_creds_config : RemoteConsoleConfig → Option Error
unfolding new_storage_adapter
validate_creds_config config =
    if config.creds.secure_storage_adapter == []
    then none
    else adapter_error config.creds (new_storage_adapter config.creds.secure_storage_adapter)

-- slices.Contains
unfoldable contains : List Bool → Bool → Bool
contains [] b = false
contains (x ∷ xs) b = (if b then x else not x) || contains xs b

unfoldable pub oauth2_provided : OAuth2Config → List Bool
oauth2_provided oauth2 =
    not (oauth2.client_id == [])
    ∷ not (oauth2.client_secret == [])
    ∷ not (oauth2.token_url == [])
    ∷ ltb 0 (length oauth2.scopes)
    ∷ []

abbrev incomplete : Error
incomplete = Error.new (
    str
      "incomplete OAuth2 configuration: all fields (oauth2-client-id, oauth2-client-secret, oauth2-token-url and oauth2-scopes) must be provided")

abbrev oauth2_error : OAuth2Config → Option Error
oauth2_error oauth2 =
    let all_provided = not (contains (oauth2_provided oauth2) false) in
    let none_provided = not (contains (oauth2_provided oauth2) true) in
    if not all_provided && not none_provided then some incomplete else none

unfoldable pub validate_config : RemoteConsoleConfig → Option Error
unfolding validate_creds_config contains oauth2_provided
validate_config config = elim (validate_creds_config config) [
  | some e ↦ some e
  | none ↦ oauth2_error config.oauth2
]

-- strings.HasSuffix with "/"
unfoldable ends_in_slash : Str → Bool
unfolding ◌==◌
ends_in_slash [] = false
ends_in_slash (c ∷ s) = let rest = ends_in_slash s in if s == [] then (c ∷ []) == str "/" else rest

unfoldable pub ensure_trailing_slash : Str → Str
unfolding ends_in_slash
ensure_trailing_slash url =
    if not (url == []) && not (ends_in_slash url) then url ++ str "/" else url
