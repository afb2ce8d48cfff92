-- ===== src/Nodes/Discovery/Consoles.antt =====
-- Which console an endpoint has, told from the endpoint alone, and that the discovery finds it.
use remote_console.Prelude.{
  ◌≡◌, refl, ap, ◌↔◌, ◌⊎◌, inl, inr, true, false, none, some, List, [], ◌∷◌, ◌++◌, arith, In, All,
  Option-cases, Bool-cases,
}
use remote_console.Prelude.Text.{Str, ◌==◌, ==_iff}
use remote_console.Prelude.Int.{ℤ, pos}
use remote_console.Nodes.Info.{NodeConsoleInfo, ssh, ipmi}
use remote_console.Nodes.Smd.{ConsoleServiceInfo, SerialConsole, CommandShell, ComponentEndpoint}
use remote_console.Nodes.Discovery.{
  is_enabled, serial_console_of, serial_console_to_node_console_info, command_shell_of, to_lower,
  first_connect_type, command_shell_to_node_console_info, console_info, collect_nodes,
}
use remote_console.Nodes.Discovery.Supported.{In-sources_iff}

-- The type is ssh or ipmi, in any case.
abbrev pub IsKnown : Str → Type 0
IsKnown shown = (to_lower shown ≡ ssh) ⊎ (to_lower shown ≡ ipmi)

-- The first known connection type of a list.
pub record IsFirst (types : List Str) (shown : Str) : Type 0 where
  pub before : List Str
  pub after : List Str
  pub split : types ≡ before ++ shown ∷ after
  pub others : All (λ t. IsKnown t → ⊥) before
  pub known : IsKnown shown

abbrev pub reached_by : ComponentEndpoint → Str → ℤ → Str → NodeConsoleInfo
reached_by ep connection_type port command = record {
  id = ep.id;
  connection_type = connection_type;
  connection_host = ep.redfish_endpoint_fqdn;
  connection_port = port;
  console_entry_command = command;
}

-- The console of an endpoint: SSH of its serial console if that is enabled, else IPMI of its serial
-- console if that is; without a serial console, the first known type of its command shell.
pub data HasConsole (ep : ComponentEndpoint) (nci : NodeConsoleInfo) : Type 0 where
  by_ssh :
      (sc : SerialConsole) (service : ConsoleServiceInfo)
      → serial_console_of ep ≡ some sc
      → sc.ssh ≡ some service
      → service.service_enabled ≡ true
      → nci ≡ reached_by ep ssh service.port service.console_entry_command
      → HasConsole ep nci
  by_ipmi :
      (sc : SerialConsole) (service : ConsoleServiceInfo)
      → serial_console_of ep ≡ some sc
      → is_enabled sc.ssh ≡ false
      → sc.ipmi ≡ some service
      → service.service_enabled ≡ true
      → nci ≡ reached_by ep ipmi service.port []
      → HasConsole ep nci
  by_shell :
      (cs : CommandShell) (shown : Str)
      → serial_console_of ep ≡ none
      → command_shell_of ep ≡ some cs
      → IsFirst cs.connect_types_supported shown
      → nci ≡ reached_by ep (to_lower shown) (pos 0) []
      → HasConsole ep nci

IsFirst-later :
    (ct shown : Str) (cts : List Str)
    → (IsKnown ct → ⊥)
    → IsFirst cts shown
    → IsFirst (ct ∷ cts) shown
IsFirst-later ct shown cts unknown f = record {
  before = ct ∷ f.before;
  after = f.after;
  split = ap (λ ts. ct ∷ ts) f.split;
  others = (unknown, f.others);
  known = f.known;
}

first_connect_type-IsFirst :
    (ep : ComponentEndpoint) (cts : List Str) (nci : NodeConsoleInfo)
    → first_connect_type ep cts ≡ some nci
    → (shown : Str) × IsFirst cts shown × (nci ≡ reached_by ep (to_lower shown) (pos 0) [])
unfolding first_connect_type
first_connect_type-IsFirst ep [] nci h = absurd (cc)
first_connect_type-IsFirst ep (ct ∷ cts) nci h = elim (Bool-cases (to_lower ct == ssh)) [
  | inl e ↦ (
    ct,
    record {
      before = [];
      after = cts;
      split = refl;
      others = tt;
      known = inl (ground (arith, e, ==_iff (to_lower ct) ssh));
    },
    ground (arith, e, h, ==_iff (to_lower ct) ssh),
  )
  | inr e ↦ elim (Bool-cases (to_lower ct == ipmi)) [
    | inl f ↦ (
      ct,
      record {
        before = [];
        after = cts;
        split = refl;
        others = tt;
        known = inr (ground (arith, f, ==_iff (to_lower ct) ipmi));
      },
      ground (arith, e, f, h, ==_iff (to_lower ct) ipmi),
    )
    | inr f ↦
        let (shown, first, same) =
          first_connect_type-IsFirst ep cts nci (ground (arith, e, f, h)) in
        (
          shown,
          IsFirst-later ct shown cts
              (λ k. ground (arith, e, f, k, ==_iff (to_lower ct) ssh, ==_iff (to_lower ct) ipmi))
              first,
          same,
        )
  ]
]

first_connect_type-split :
    (ep : ComponentEndpoint) (before after : List Str) (shown : Str)
    → All (λ t. IsKnown t → ⊥) before
    → IsKnown shown
    → first_connect_type ep (before ++ shown ∷ after)
      ≡ some (reached_by ep (to_lower shown) (pos 0) [])
unfolding first_connect_type
first_connect_type-split ep [] after shown others known =
    ground (arith, known, ==_iff (to_lower shown) ssh, ==_iff (to_lower shown) ipmi)
first_connect_type-split ep (t ∷ before) after shown others known = ground (
  arith,
  others.0,
  ==_iff (to_lower t) ssh,
  ==_iff (to_lower t) ipmi,
  first_connect_type-split ep before after shown others.1 known,
)

serial_console-HasConsole :
    (ep : ComponentEndpoint) (sc : SerialConsole) (nci : NodeConsoleInfo)
    → serial_console_of ep ≡ some sc
    → serial_console_to_node_console_info ep ≡ some nci
    → HasConsole ep nci
unfolding serial_console_to_node_console_info
serial_console-HasConsole ep sc nci found h = elim (Bool-cases (is_enabled sc.ssh)) [
  | inl on ↦ elim (Option-cases sc.ssh) [
    | inl e ↦ absurd (ground (arith, on, e))
    | inr (service, e) ↦
        by_ssh sc service found e (ground (arith, on, e)) (ground (arith, found, on, e, h))
  ]
  | inr off ↦ elim (Option-cases sc.ipmi) [
    | inl e ↦ absurd (ground (arith, found, off, e, h))
    | inr (service, e) ↦
        by_ipmi sc service found off e (ground (arith, found, off, e, h))
          (ground (arith, found, off, e, h))
  ]
]

command_shell-HasConsole :
    (ep : ComponentEndpoint) (nci : NodeConsoleInfo)
    → serial_console_of ep ≡ none
    → command_shell_to_node_console_info ep ≡ some nci
    → HasConsole ep nci
unfolding command_shell_to_node_console_info
command_shell-HasConsole ep nci missing h = elim (Option-cases (command_shell_of ep)) [
  | inl e ↦ absurd (ground (arith, e, h))
  | inr (cs, e) ↦
      let (shown, first, same) =
        first_connect_type-IsFirst ep cs.connect_types_supported nci (ground (arith, e, h)) in
      by_shell cs shown missing e first same
]

console_info-HasConsole :
    (ep : ComponentEndpoint) (nci : NodeConsoleInfo)
    → console_info ep ≡ some nci
    → HasConsole ep nci
unfolding console_info
console_info-HasConsole ep nci h = elim (Option-cases (serial_console_of ep)) [
  | inl missing ↦ command_shell-HasConsole ep nci missing (ground (arith, missing, h))
  | inr (sc, found) ↦ serial_console-HasConsole ep sc nci found (ground (arith, found, h))
]

console_info_of_HasConsole :
    (ep : ComponentEndpoint) (nci : NodeConsoleInfo)
    → HasConsole ep nci
    → console_info ep ≡ some nci
unfolding console_info serial_console_to_node_console_info command_shell_to_node_console_info
console_info_of_HasConsole ep nci (by_ssh sc service found e on same) =
    ground (arith, found, e, on, same)
console_info_of_HasConsole ep nci (by_ipmi sc service found off e on same) =
    ground (arith, found, off, e, on, same)
console_info_of_HasConsole ep nci (by_shell cs shown missing found first same) =
    let split =
      first_connect_type-split ep first.before first.after shown first.others first.known in
    ground (arith, missing, found, first.split, split, same)

-- Exactly the enabled endpoints with a console become nodes, each with the SSH access of its serial
-- console if that is enabled, else with its IPMI access if that is; an endpoint without a serial
-- console, with the first of ssh and ipmi, in any case, among the types of its command shell, on port
-- 0.
pub In-collect_nodes_iff :
    (eps : List ComponentEndpoint) (nci : NodeConsoleInfo)
    → In nci (collect_nodes eps)
      ↔ ((ep : ComponentEndpoint) × In ep eps × (ep.enabled ≡ true) × HasConsole ep nci)
In-collect_nodes_iff eps nci =
    let (from, to) = In-sources_iff eps nci in
    (
      λ i. let (ep, s) = from i in (ep, s.0, s.1, console_info-HasConsole ep nci s.2),
      λ (ep, i, on, has). to (ep, (i, on, console_info_of_HasConsole ep nci has)),
    )
