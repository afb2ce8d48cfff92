-- ===== src/Nodes/Smd.antt =====
-- internal/nodes/nodes.go: the component endpoints of the State Management Database, and the query
-- for them.
use remote_console.Prelude.{
  Bool, true, false, Option, none, some, List, [], ◌++◌, Result, ok, err, Error,
}
use remote_console.Prelude.Text.{Str, str}
use remote_console.Prelude.Int.{ℤ, negsuc}
use remote_console.Prelude.Map.{Map}

pub record ConsoleServiceInfo : Type 0 where
  pub service_enabled : Bool
  pub port : ℤ
  pub hot_key_sequence_display : Str
  pub shared_with_manager_cli : Bool
  pub console_entry_command : Str

pub record WebSocketConsole : Type 0 where
  pub service_enabled : Bool
  pub interactive : Bool
  pub console_uri : Str

pub record SerialConsole : Type 0 where
  pub max_concurrent_sessions : ℤ
  pub ssh : Option ConsoleServiceInfo
  pub ipmi : Option ConsoleServiceInfo
  pub telnet : Option ConsoleServiceInfo
  pub web_socket : Option WebSocketConsole

pub record CommandShell : Type 0 where
  pub service_enabled : Bool
  pub max_concurrent_sessions : ℤ
  pub connect_types_supported : List Str

pub record RedfishSystemInfo : Type 0 where
  pub name : Str
  pub serial_console : Option SerialConsole

pub record RedfishManagerInfo : Type 0 where
  pub name : Str
  pub command_shell : Option CommandShell

pub record ComponentEndpoint : Type 0 where
  pub id : Str
  pub type : Str
  pub enabled : Bool
  pub redfish_endpoint_fqdn : Str
  pub redfish_system_info : Option RedfishSystemInfo
  pub redfish_manager_info : Option RedfishManagerInfo

pub record Response : Type 0 where
  pub status_code : ℤ
  pub body : Str

-- net/http and encoding/json, as one query sees them: the verdict on a new request, what the round
-- trip brings, what reading the body brings, and the decoder.
pub record Http : Type 0 where
  pub new_request : Str → Option Error
  pub send : Str → Map Str → Result Response
  pub read_all : Response → Result Str
  pub unmarshal : Str → Result (List ComponentEndpoint)

pub record Fetched : Type 0 where
  pub content : Str
  pub status : ℤ
  pub error : Option Error

abbrev failed : ℤ → Error → Fetched
failed status e = record { content = []; status = status; error = some e }

abbrev read_response : Http → Response → Fetched
read_response http resp = elim (http.read_all resp) [
  | ok content ↦ record { content = content; status = resp.status_code; error = none }
  | err e ↦ failed resp.status_code e
]

abbrev send_request : Http → Str → Map Str → Fetched
send_request http url headers = elim (http.send url headers) [
  | ok resp ↦ read_response http resp
  | err e ↦ failed (negsuc 0) e
]

abbrev checked_request : Http → Str → Map Str → Option Error → Fetched
checked_request http url headers (some e) = failed (negsuc 0) e
checked_request http url headers none = send_request http url headers

-- The first argument says whether a context is given; a client may be nil too.
unfoldable pub get_url : Bool → Option Http → Str → Map Str → Fetched
get_url false client url headers = failed (negsuc 0) (Error.new (str "nil context"))
get_url true none url headers = failed (negsuc 0) (Error.new (str "nil httpClient"))
get_url true (some http) url headers = checked_request http url headers (http.new_request url)

abbrev decode_endpoints : Http → Str → Result (List ComponentEndpoint)
decode_endpoints http content = elim (http.unmarshal content) [
  | ok endpoints ↦ ok endpoints
  | err e ↦ err (Error.wrap (str "unable to unmarshal component endpoints response: ") e)
]

abbrev after_fetch : Http → Fetched → Result (List ComponentEndpoint)
after_fetch http fetched = elim fetched.error [
  | some e ↦ err (Error.wrap (str "unable to get component endpoints from hsm: ") e)
  | none ↦ decode_endpoints http fetched.content
]

unfoldable pub get_component_endpoints : Http → Str → Result (List ComponentEndpoint)
unfolding get_url
get_component_endpoints http smd_url =
    after_fetch http
      (get_url true (some http) (smd_url ++ str "hsm/v2/Inventory/ComponentEndpoints") [])
