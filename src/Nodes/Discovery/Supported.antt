-- ===== src/Nodes/Discovery/Supported.antt =====
-- Which endpoints become nodes, and what the nodes of a discovery have in common.
use remote_console.Prelude.{
  ◌≡◌, refl, ◌↔◌, ◌⊎◌, inl, inr, true, Option, none, some, List, [], ◌∷◌, arith, In, Option-cases,
  Bool-cases, if◌then◌else◌,
}
use remote_console.Prelude.Text.{Str}
use remote_console.Nodes.Info.{NodeConsoleInfo, ssh, ipmi}
use remote_console.Nodes.Smd.{SerialConsole, RedfishManagerInfo, ComponentEndpoint}
use remote_console.Nodes.Discovery.{
  is_enabled, serial_console_of, serial_console_to_node_console_info, command_shell_of,
  first_connect_type, command_shell_to_node_console_info, console_info, collect_nodes,
}

-- A node that the rest of the program can reach, taken from the endpoint.
pub record IsFrom (ep : ComponentEndpoint) (nci : NodeConsoleInfo) : Type 0 where
  pub id : nci.id ≡ ep.id
  pub host : nci.connection_host ≡ ep.redfish_endpoint_fqdn
  pub supported : (nci.connection_type ≡ ssh) ⊎ (nci.connection_type ≡ ipmi)

first_connect_type-IsFrom :
    (ep : ComponentEndpoint) (cts : List Str) (nci : NodeConsoleInfo)
    → first_connect_type ep cts ≡ some nci
    → IsFrom ep nci
unfolding first_connect_type
first_connect_type-IsFrom ep [] nci h = cc
first_connect_type-IsFrom ep (ct ∷ cts) nci h = ground (arith, first_connect_type-IsFrom ep cts nci)

serial_console-IsFrom :
    (ep : ComponentEndpoint) (nci : NodeConsoleInfo)
    → serial_console_to_node_console_info ep ≡ some nci
    → IsFrom ep nci
unfolding serial_console_to_node_console_info
serial_console-IsFrom ep nci h = ground arith

command_shell-IsFrom :
    (ep : ComponentEndpoint) (nci : NodeConsoleInfo)
    → command_shell_to_node_console_info ep ≡ some nci
    → IsFrom ep nci
unfolding command_shell_to_node_console_info
command_shell-IsFrom ep nci h = elim (Option-cases (command_shell_of ep)) [
  | inl e ↦ ground arith
  | inr (cs, e) ↦ first_connect_type-IsFrom ep cs.connect_types_supported nci (ground arith)
]

console_info-IsFrom :
    (ep : ComponentEndpoint) (nci : NodeConsoleInfo) → console_info ep ≡ some nci → IsFrom ep nci
unfolding console_info
console_info-IsFrom ep nci h =
    ground (arith, serial_console-IsFrom ep nci, command_shell-IsFrom ep nci)

-- The endpoint is on the list, is enabled, and gives the node.
abbrev pub IsSource : List ComponentEndpoint → NodeConsoleInfo → ComponentEndpoint → Type 0
IsSource eps nci ep = In ep eps × (ep.enabled ≡ true) × (console_info ep ≡ some nci)

IsSource-of_In :
    (eps : List ComponentEndpoint) (nci : NodeConsoleInfo)
    → In nci (collect_nodes eps)
    → (ep : ComponentEndpoint) × IsSource eps nci ep
unfolding collect_nodes
IsSource-of_In [] nci i = absurd i
IsSource-of_In (ep ∷ eps) nci i = elim (Bool-cases ep.enabled) [
  | inl on ↦ elim (Option-cases (console_info ep)) [
    | inl e ↦ later (IsSource-of_In eps nci (simp (on, e) at i))
    | inr (found, e) ↦ first on found e (λ j. later (IsSource-of_In eps nci j)) (simp (on, e) at i)
  ]
  | inr off ↦ later (IsSource-of_In eps nci (simp off at i))
]
  where
    later :
        (ep' : ComponentEndpoint) × IsSource eps nci ep'
        → (ep' : ComponentEndpoint) × IsSource (ep ∷ eps) nci ep'
    later (ep', s) = (ep', (inr s.0, s.1, s.2))

    first :
        ep.enabled ≡ true
        → (found : NodeConsoleInfo) → console_info ep ≡ some found
        → (In nci (collect_nodes eps) → (ep' : ComponentEndpoint) × IsSource (ep ∷ eps) nci ep')
        → (nci ≡ found) ⊎ In nci (collect_nodes eps)
        → (ep' : ComponentEndpoint) × IsSource (ep ∷ eps) nci ep'
    first on found e more (inl same) = (ep, (inl refl, on, rw same e))
    first on found e more (inr rest) = more rest

In-of_source :
    (eps : List ComponentEndpoint) (nci : NodeConsoleInfo) (ep : ComponentEndpoint)
    → IsSource eps nci ep
    → In nci (collect_nodes eps)
unfolding collect_nodes
In-of_source [] nci ep s = absurd s.0
In-of_source (e ∷ eps) nci ep (inl same, on, info) = simp (← same, on, info) (inl refl)
In-of_source (e ∷ eps) nci ep (inr i, on, info) =
    ground (arith, In-of_source eps nci ep (i, on, info))

-- Exactly the enabled endpoints with console information become nodes.
pub In-sources_iff :
    (eps : List ComponentEndpoint) (nci : NodeConsoleInfo)
    → In nci (collect_nodes eps) ↔ ((ep : ComponentEndpoint) × IsSource eps nci ep)
In-sources_iff eps nci = (IsSource-of_In eps nci, λ (ep, s). In-of_source eps nci ep s)

-- Every node of a discovery comes from an enabled endpoint with its id and host, and its connection
-- type is one that conman is configured for.
collect_nodes-supported :
    (eps : List ComponentEndpoint) (nci : NodeConsoleInfo)
    → In nci (collect_nodes eps)
    → (ep : ComponentEndpoint) × In ep eps × (ep.enabled ≡ true) × IsFrom ep nci
collect_nodes-supported eps nci i =
    let (ep, s) = IsSource-of_In eps nci i in (ep, s.0, s.1, console_info-IsFrom ep nci s.2)

abbrev pub connection_type_of : Option NodeConsoleInfo → Option Str
connection_type_of none = none
connection_type_of (some nci) = some nci.connection_type

-- An endpoint with a serial console is judged by that alone: it becomes an SSH node if SSH is
-- enabled, else an IPMI node if IPMI is, else none, whatever command shell its manager has.
console_info_serial :
    (ep : ComponentEndpoint) (sc : SerialConsole) (manager : Option RedfishManagerInfo)
    → serial_console_of ep ≡ some sc
    → connection_type_of (console_info (record ep { redfish_manager_info = manager }))
      ≡ (if is_enabled sc.ssh then some ssh else if is_enabled sc.ipmi then some ipmi else none)
unfolding console_info serial_console_of
console_info_serial ep sc manager h = ground arith
