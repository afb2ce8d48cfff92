-- ===== src/Nodes/Discovery.antt =====
-- internal/nodes/nodes.go: from component endpoints to nodes with a console.
pub mod Supported
pub mod Consoles
use remote_console.Prelude.{
  ℕ, ◌+◌, Bool, true, false, ◌&&◌, Option, none, some, List, [], ◌∷◌, map, Result, ok, err, Error,
  if◌then◌else◌, leb, is_some,
}
use remote_console.Prelude.Text.{Str, str, ◌==◌}
use remote_console.Prelude.Int.{ℤ, pos}
use remote_console.Nodes.Info.{NodeConsoleInfo, ssh, ipmi}
use remote_console.Nodes.Smd.{
  ConsoleServiceInfo, SerialConsole, CommandShell, RedfishSystemInfo, RedfishManagerInfo,
  ComponentEndpoint, Http, get_component_endpoints,
}

-- sc.X != nil && sc.X.ServiceEnabled
abbrev pub is_enabled : Option ConsoleServiceInfo → Bool
is_enabled none = false
is_enabled (some service) = service.service_enabled

abbrev from_ssh : ComponentEndpoint → Option ConsoleServiceInfo → Option NodeConsoleInfo
from_ssh ep none = none
from_ssh ep (some service) = some (record {
  id = ep.id;
  connection_type = ssh;
  connection_host = ep.redfish_endpoint_fqdn;
  connection_port = service.port;
  console_entry_command = service.console_entry_command;
})

abbrev from_ipmi : ComponentEndpoint → Option ConsoleServiceInfo → Option NodeConsoleInfo
from_ipmi ep none = none
from_ipmi ep (some service) = some (record {
  id = ep.id;
  connection_type = ipmi;
  connection_host = ep.redfish_endpoint_fqdn;
  connection_port = service.port;
  console_entry_command = [];
})

abbrev from_serial_console : ComponentEndpoint → SerialConsole → Option NodeConsoleInfo
from_serial_console ep sc =
    if is_enabled sc.ssh
    then from_ssh ep sc.ssh
    else if is_enabled sc.ipmi
    then from_ipmi ep sc.ipmi
    else none

unfoldable pub serial_console_of : ComponentEndpoint → Option SerialConsole
serial_console_of ep = elim ep.redfish_system_info [ none ↦ none | some rf ↦ rf.serial_console ]

unfoldable pub serial_console_to_node_console_info : ComponentEndpoint → Option NodeConsoleInfo
serial_console_to_node_console_info ep = elim (serial_console_of ep) [
  | none ↦ none
  | some sc ↦ from_serial_console ep sc
]

-- strings.ToLower on ASCII text.
abbrev lower : ℕ → ℕ
lower c = if leb b'A' c && leb c b'Z' then c + 32 else c

abbrev pub to_lower : Str → Str
to_lower = map lower

abbrev shell_info : ComponentEndpoint → Str → NodeConsoleInfo
shell_info ep connection_type = record {
  id = ep.id;
  connection_type = connection_type;
  connection_host = ep.redfish_endpoint_fqdn;
  connection_port = pos 0;
  console_entry_command = [];
}

-- The first supported connection type of the list wins.
unfoldable pub first_connect_type : ComponentEndpoint → List Str → Option NodeConsoleInfo
first_connect_type ep [] = none
first_connect_type ep (ct ∷ cts) =
    let rest = first_connect_type ep cts in
    if to_lower ct == ssh
    then some (shell_info ep ssh)
    else if to_lower ct == ipmi
    then some (shell_info ep ipmi)
    else rest

unfoldable pub command_shell_of : ComponentEndpoint → Option CommandShell
command_shell_of ep = elim ep.redfish_manager_info [ none ↦ none | some rf ↦ rf.command_shell ]

unfoldable pub command_shell_to_node_console_info : ComponentEndpoint → Option NodeConsoleInfo
unfolding first_connect_type
command_shell_to_node_console_info ep = elim (command_shell_of ep) [
  | none ↦ none
  | some cs ↦ first_connect_type ep cs.connect_types_supported
]

-- The choice in the loop's body: a serial console hides a command shell.
unfoldable pub console_info : ComponentEndpoint → Option NodeConsoleInfo
unfolding serial_console_to_node_console_info command_shell_to_node_console_info
console_info ep =
    if is_some (serial_console_of ep)
    then serial_console_to_node_console_info ep
    else if is_some (command_shell_of ep)
    then command_shell_to_node_console_info ep
    else none

abbrev append_info : Option NodeConsoleInfo → List NodeConsoleInfo → List NodeConsoleInfo
append_info none nodes = nodes
append_info (some nci) nodes = nci ∷ nodes

unfoldable pub collect_nodes : List ComponentEndpoint → List NodeConsoleInfo
collect_nodes [] = []
collect_nodes (ep ∷ eps) =
    let rest = collect_nodes eps in if ep.enabled then append_info (console_info ep) rest else rest

unfoldable pub current_nodes_from_smd : Http → Str → Result (List NodeConsoleInfo)
unfolding get_component_endpoints collect_nodes
current_nodes_from_smd http smd_url = elim (get_component_endpoints http smd_url) [
  | ok endpoints ↦ ok (collect_nodes endpoints)
  | err e ↦ err (Error.wrap (str "unable to get component endpoints: ") e)
]
