-- ===== src/Nodes/Registry.antt =====
-- internal/nodes/nodes.go: the table of current nodes, kept under a mutex, and its refresh.
pub mod Sweep
pub mod Exact
pub mod Refresh
pub mod Copies
pub mod Invariant
use remote_console.Prelude.{
  Bool, true, false, ◌||◌, not, Option, none, some, List, [], ◌∷◌, Result, ok, err, if◌then◌else◌,
  is_some,
}
use remote_console.Prelude.Text.{Str}
use remote_console.Prelude.Map.{Map, get, put, delete, has, keys}
use remote_console.Nodes.Info.{NodeConsoleInfo, nci_eq}
use remote_console.Nodes.Smd.{Http}
use remote_console.Nodes.Discovery.{current_nodes_from_smd}

-- map[string]*NodeConsoleInfo: a pointer may be nil. No code writes through a pointer of the table.
abbrev pub NodeMap : Type 0
NodeMap = Map (Option NodeConsoleInfo)

pub record NodesState : Type 0 where
  pub current_nodes : NodeMap
  pub hardware_update_time : Str

unfoldable pub nodes_by_id : List NodeConsoleInfo → Map NodeConsoleInfo → Map NodeConsoleInfo
nodes_by_id [] m = m
nodes_by_id (nci ∷ nodes) m = nodes_by_id nodes (put m nci.id nci)

-- The loop over the old table; the pair is the table and `changed`.
unfoldable pub remove_missing : Map NodeConsoleInfo → List Str → NodeMap × Bool → NodeMap × Bool
remove_missing by_id [] s = s
remove_missing by_id (id ∷ ids) (m, changed) =
    remove_missing by_id ids (if has by_id id then (m, changed) else (delete m id, true))

abbrev needs_store : Option (Option NodeConsoleInfo) → NodeConsoleInfo → Bool
needs_store none nci = true
needs_store (some none) nci = true
needs_store (some (some existing)) nci = not (nci_eq existing nci)

-- The loop over the fetched nodes.
unfoldable pub store_changed : Map NodeConsoleInfo → NodeMap × Bool → NodeMap × Bool
store_changed [] s = s
store_changed ((id, nci) ∷ rest) (m, changed) =
    store_changed rest
      (if needs_store (get m id) nci then (put m id (some nci), true) else (m, changed))

unfoldable pub update_nodes : NodesState → List NodeConsoleInfo → NodesState × Bool
update_nodes s nodes =
    let by_id = nodes_by_id nodes [] in
    let swept = remove_missing by_id (keys s.current_nodes) (s.current_nodes, false) in
    let stored = store_changed by_id swept in (record s { current_nodes = stored.0 }, stored.1)

abbrev refresh : NodesState → Result (List NodeConsoleInfo) → NodesState × Bool
refresh s (ok nodes) = update_nodes s nodes
refresh s (err e) = (s, false)

-- `now` is the formatted time of the call.
unfoldable pub check_for_updates : NodesState → Str → Http → Str → NodesState × Bool
unfolding update_nodes
check_for_updates s now http smd_url =
    refresh (record s { hardware_update_time = now }) (current_nodes_from_smd http smd_url)

-- The copy that CurrentNodes returns has the same entries.
unfoldable pub copy_nodes : NodeMap → NodeMap → NodeMap
copy_nodes [] copied = copied
copy_nodes ((k, v) ∷ m) copied = copy_nodes m (put copied k v)

unfoldable pub current_nodes : NodesState → NodeMap
unfolding copy_nodes
current_nodes s = copy_nodes s.current_nodes []

unfoldable pub is_current_node : NodesState → Str → Bool
is_current_node s node_id = has s.current_nodes node_id

unfoldable pub get_hardware_update_time : NodesState → Str
get_hardware_update_time s = s.hardware_update_time
