-- ===== src/Nodes/Examples.antt =====
-- A small site, and the theorems about internal/nodes at it.
use remote_console.Prelude.{
  ◌≡◌, refl, ◌↔◌, inl, inr, true, false, none, some, List, [], ◌∷◌, ok, err, Error, arith, In,
  Bool-cases,
}
use remote_console.Prelude.Text.{Str, str, ◌==◌, ==-sound}
use remote_console.Prelude.Int.{ℤ, pos}
use remote_console.Prelude.Map.{get, put, delete}
use remote_console.Nodes.Info.{NodeConsoleInfo, ssh, nci_eq}
use remote_console.Nodes.Smd.{ConsoleServiceInfo, SerialConsole, ComponentEndpoint, Http}
use remote_console.Nodes.Discovery.{serial_console_of, console_info, collect_nodes}
use remote_console.Nodes.Discovery.Consoles.{HasConsole, In-collect_nodes_iff}
use remote_console.Nodes.Registry.{
  NodeMap, NodesState, update_nodes, check_for_updates, nodes_by_id, remove_missing, store_changed,
}
use remote_console.Nodes.Registry.Exact.{
  entry, latest, get-update_nodes, update_nodes_unchanged_iff,
}
use remote_console.Nodes.Registry.Refresh.{Answers, check_for_updates-Answers}
use remote_console.Nodes.Registry.Invariant.{IsTable, check_for_updates-IsTable}

abbrev service_on : ℤ → ConsoleServiceInfo
service_on port = record {
  service_enabled = true;
  port = port;
  hot_key_sequence_display = [];
  shared_with_manager_cli = false;
  console_entry_command = [];
}

abbrev pub ssh_console : SerialConsole
ssh_console = record {
  max_concurrent_sessions = pos 1;
  ssh = some (service_on (pos 2200));
  ipmi = some (service_on (pos 623));
  telnet = none;
  web_socket = none;
}

abbrev pub endpoint : Str → ComponentEndpoint
endpoint id = record {
  id = id;
  type = str "Node";
  enabled = true;
  redfish_endpoint_fqdn = str "bmc";
  redfish_system_info = some (record { name = []; serial_console = some ssh_console });
  redfish_manager_info = none;
}

abbrev pub node : Str → ℤ → NodeConsoleInfo
node id port = record {
  id = id;
  connection_type = ssh;
  connection_host = str "bmc";
  connection_port = port;
  console_entry_command = [];
}

-- One node that has moved to another port, and one that is gone.
abbrev pub before : NodesState
before = record {
  current_nodes =
      (str "x1", some (node (str "x1") (pos 22)))
      ∷ (str "x2", some (node (str "x2") (pos 22)))
      ∷ [];
  hardware_update_time = str "Unknown";
}

abbrev pub smd : Http
smd = record {
  new_request = λ url. none;
  send = λ url headers. ok (record { status_code = pos 500; body = str "{}" });
  read_all = λ resp. ok resp.body;
  unmarshal = λ content. ok (endpoint (str "x1") ∷ []);
}

abbrev down : Http
down = record smd { send = λ url headers. err (Error.new (str "refused")) }

update_nodes_runs :
    update_nodes before (node (str "x1") (pos 2200) ∷ [])
    ≡ (record before { current_nodes = (str "x1", some (node (str "x1") (pos 2200))) ∷ [] }, true)
unfolding update_nodes nodes_by_id remove_missing store_changed get put delete nci_eq ◌==◌
update_nodes_runs = refl

get-update_nodes_example :
    get (update_nodes before (node (str "x1") (pos 2200) ∷ [])).0.current_nodes (str "x2") ≡ none
unfolding ◌==◌
get-update_nodes_example = get-update_nodes before (node (str "x1") (pos 2200) ∷ []) (str "x2")

update_nodes_unchanged_iff_example :
    ((update_nodes before []).1 ≡ false)
    ↔ ((k : Str) → get (update_nodes before []).0.current_nodes k ≡ get before.current_nodes k)
update_nodes_unchanged_iff_example = update_nodes_unchanged_iff before []

pub smd-Answers : Answers smd (str "http://smd/") (endpoint (str "x1") ∷ [])
smd-Answers = record {
  response = record { status_code = pos 500; body = str "{}" };
  content = str "{}";
  accepted = refl;
  sent = refl;
  read = refl;
  decoded = refl;
}

check_for_updates-Answers_example :
    get (check_for_updates before (str "now") smd (str "http://smd/")).0.current_nodes (str "x1")
    ≡ entry (latest (collect_nodes (endpoint (str "x1") ∷ [])) (str "x1"))
check_for_updates-Answers_example =
    check_for_updates-Answers before (str "now") (str "http://smd/") smd (endpoint (str "x1") ∷ [])
      smd-Answers (str "x1")

down_fails : (eps : List ComponentEndpoint) → ¬ Answers down (str "http://smd/") eps
down_fails eps a = cc (a.sent)

abbrev one_node : NodeMap
one_node = (str "x1", some (node (str "x1") (pos 22))) ∷ []

one_node-IsTable : IsTable one_node
unfolding get
one_node-IsTable = record {
  distinct = (refl, tt);
  keyed = λ k p h. elim (Bool-cases (str "x1" == k)) [
    | inl e ↦ (node (str "x1") (pos 22), ground (arith, e), ==-sound (str "x1") k e)
    | inr e ↦ absurd (ground (arith, e))
  ];
}

check_for_updates-IsTable_example :
    IsTable
      (check_for_updates
        (record before { current_nodes = one_node })
        (str "now")
        smd
        (str "http://smd/")).0.current_nodes
check_for_updates-IsTable_example =
    check_for_updates-IsTable (record before { current_nodes = one_node }) (str "now")
      (str "http://smd/") smd one_node-IsTable

In-collect_nodes_iff_example :
    In (node (str "x1") (pos 2200)) (collect_nodes (endpoint (str "x1") ∷ [])) ↔ (
      (ep : ComponentEndpoint) × In ep (endpoint (str "x1") ∷ [])
      × (ep.enabled ≡ true)
      × HasConsole ep (node (str "x1") (pos 2200)))
In-collect_nodes_iff_example =
    In-collect_nodes_iff (endpoint (str "x1") ∷ []) (node (str "x1") (pos 2200))

x1_collected : In (node (str "x1") (pos 2200)) (collect_nodes (endpoint (str "x1") ∷ []))
unfolding collect_nodes console_info serial_console_of
x1_collected = inl refl
