-- ===== src/Nodes/Registry/Invariant.antt =====
-- The table's invariant: no id twice, no nil pointer, and each node under its own id.
use remote_console.Prelude.{
  sym, ◌∙◌, Result-cases, ◌≡◌, Bool, true, false, Option, some, List, [], ◌∷◌, inl, inr, arith,
  Bool-cases, Option-cases,
}
use remote_console.Prelude.Text.{Str, ==_iff}
use remote_console.Prelude.Map.{
  Map, get, put, delete, has, keys, Distinct, put-Distinct, delete-Distinct,
}
use remote_console.Nodes.Info.{NodeConsoleInfo}
use remote_console.Nodes.Smd.{Http}
use remote_console.Nodes.Discovery.{current_nodes_from_smd}
use remote_console.Nodes.Registry.{
  NodeMap, NodesState, remove_missing, needs_store, store_changed, update_nodes, check_for_updates,
}
use remote_console.Nodes.Registry.Exact.{latest, entry, get-update_nodes}

pub record IsTable (m : NodeMap) : Type 0 where
  pub distinct : Distinct m
  pub keyed :
      (k : Str) (p : Option NodeConsoleInfo)
      → get m k ≡ some p
      → (nci : NodeConsoleInfo) × (p ≡ some nci) × (nci.id ≡ k)

remove_missing-Distinct :
    (by_id : Map NodeConsoleInfo) (ids : List Str) (m : NodeMap) (c : Bool)
    → Distinct m
    → Distinct (remove_missing by_id ids (m, c)).0
unfolding remove_missing
remove_missing-Distinct by_id [] m c d = d
remove_missing-Distinct by_id (id ∷ ids) m c d = elim (Bool-cases (has by_id id)) [
  | inl e ↦ simp e (remove_missing-Distinct by_id ids m c d)
  | inr e ↦ simp e (remove_missing-Distinct by_id ids (delete m id) true (delete-Distinct m id d))
]

latest-keyed :
    (nodes : List NodeConsoleInfo) (k : Str) (nci : NodeConsoleInfo)
    → latest nodes k ≡ some nci
    → nci.id ≡ k
latest-keyed [] k nci h = cc
latest-keyed (n ∷ nodes) k nci h = ground (arith, ==_iff n.id k, latest-keyed nodes k nci)

store_changed-Distinct :
    (es : Map NodeConsoleInfo) (m : NodeMap) (c : Bool)
    → Distinct m
    → Distinct (store_changed es (m, c)).0
unfolding store_changed
store_changed-Distinct [] m c d = d
store_changed-Distinct ((id, nci) ∷ es) m c d = elim (Bool-cases (needs_store (get m id) nci)) [
  | inl e ↦
      simp e (store_changed-Distinct es (put m id (some nci)) true (put-Distinct m id (some nci) d))
  | inr e ↦ simp e (store_changed-Distinct es m c d)
]

entry-keyed :
    (nodes : List NodeConsoleInfo) (k : Str) (p : Option NodeConsoleInfo)
    → entry (latest nodes k) ≡ some p
    → (nci : NodeConsoleInfo) × (p ≡ some nci) × (nci.id ≡ k)
entry-keyed nodes k p h = elim (Option-cases (latest nodes k)) [
  | inl e ↦ absurd (ground arith)
  | inr (nci, e) ↦ (nci, ground arith, latest-keyed nodes k nci e)
]

pub update_nodes-Distinct :
    (s : NodesState) (nodes : List NodeConsoleInfo)
    → Distinct s.current_nodes
    → Distinct (update_nodes s nodes).0.current_nodes
unfolding update_nodes
update_nodes-Distinct s nodes d =
    store_changed-Distinct _ _ _
      (remove_missing-Distinct _ (keys s.current_nodes) s.current_nodes false d)

update_nodes-IsTable :
    (s : NodesState) (nodes : List NodeConsoleInfo)
    → IsTable s.current_nodes
    → IsTable (update_nodes s nodes).0.current_nodes
update_nodes-IsTable s nodes t = record {
  distinct = update_nodes-Distinct s nodes t.distinct;
  keyed = λ k p h. entry-keyed nodes k p (sym (get-update_nodes s nodes k) ∙ h);
}

-- Whatever the query brings, a refresh keeps the table well formed.
pub check_for_updates-IsTable :
    (s : NodesState) (now smd_url : Str) (http : Http)
    → IsTable s.current_nodes
    → IsTable (check_for_updates s now http smd_url).0.current_nodes
unfolding check_for_updates
check_for_updates-IsTable s now smd_url http t =
    elim (Result-cases (current_nodes_from_smd http smd_url)) [
      | inl (nodes, e) ↦
          rw e (update_nodes-IsTable (record s { hardware_update_time = now }) nodes t)
      | inr (e', e) ↦ rw e t
    ]
