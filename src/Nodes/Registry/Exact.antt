-- ===== src/Nodes/Registry/Exact.antt =====
-- What a refresh of the node table does to it, and what its flag says.
use remote_console.Prelude.{
  ap, sym, ◌∙◌, All, All-of_In, inl, inr, ◌≡◌, refl, ◌↔◌, Bool, true, false, Option, none, some,
  List, [], ◌∷◌, arith, Option-cases, if◌then◌else◌,
}
use remote_console.Prelude.Text.{Str, ◌==◌, ==_iff}
use remote_console.Prelude.Map.{
  Map, get, put, has, keys, Distinct, In-keys_of_get, has_of_In-keys, get_of_In, get-put,
  put-Distinct,
}
use remote_console.Nodes.Info.{NodeConsoleInfo, nci_eq_iff}
use remote_console.Nodes.Registry.{
  NodeMap, NodesState, nodes_by_id, remove_missing, needs_store, store_changed, update_nodes,
}
use remote_console.Nodes.Registry.Sweep.{
  get-remove_missing_of_none, get-remove_missing_of_missing, remove_missing_unflagged,
  remove_missing_idle,
}

-- The last node of the list that has the id.
abbrev pub latest : List NodeConsoleInfo → Str → Option NodeConsoleInfo
latest [] k = none
latest (nci ∷ nodes) k = elim (latest nodes k) [
  | some later ↦ some later
  | none ↦ if nci.id == k then some nci else none
]

abbrev or_else : {A : Type 0} → Option A → Option A → Option A
or_else none b = b
or_else (some a) b = some a

abbrev pub entry : Option NodeConsoleInfo → Option (Option NodeConsoleInfo)
entry none = none
entry (some nci) = some (some nci)

get-nodes_by_id :
    (nodes : List NodeConsoleInfo) (m : Map NodeConsoleInfo) (k : Str)
    → get (nodes_by_id nodes m) k ≡ or_else (latest nodes k) (get m k)
unfolding nodes_by_id
get-nodes_by_id [] m k = refl
get-nodes_by_id (nci ∷ nodes) m k =
    ground (arith, get-nodes_by_id nodes (put m nci.id nci) k, get-put m nci.id k nci)

nodes_by_id-Distinct :
    (nodes : List NodeConsoleInfo) (m : Map NodeConsoleInfo)
    → Distinct m
    → Distinct (nodes_by_id nodes m)
unfolding nodes_by_id
nodes_by_id-Distinct [] m d = d
nodes_by_id-Distinct (nci ∷ nodes) m d =
    nodes_by_id-Distinct nodes (put m nci.id nci) (put-Distinct m nci.id nci d)

needs_store-false :
    (o : Option (Option NodeConsoleInfo)) (nci : NodeConsoleInfo)
    → needs_store o nci ≡ false
    → o ≡ some (some nci)
needs_store-false none nci h = cc
needs_store-false (some none) nci h = cc
needs_store-false (some (some e)) nci h = ground (arith, nci_eq_iff e nci)

get-store_changed :
    (es : Map NodeConsoleInfo) (m : NodeMap) (c : Bool) (k : Str)
    → Distinct es
    → get (store_changed es (m, c)).0 k ≡ or_else (entry (get es k)) (get m k)
unfolding store_changed get
get-store_changed [] m c k d = refl
get-store_changed ((id, nci) ∷ es) m c k d = ground (
  arith,
  ==_iff id k,
  needs_store-false (get m id) nci,
  get-put m id k (some nci),
  get-store_changed es (put m id (some nci)) true k d.1,
  get-store_changed es m c k d.1,
)

store_changed_flag :
    (es : Map NodeConsoleInfo) (m : NodeMap) → (store_changed es (m, true)).1 ≡ true
unfolding store_changed
store_changed_flag [] m = refl
store_changed_flag ((id, nci) ∷ es) m =
    ground (arith, store_changed_flag es m, store_changed_flag es (put m id (some nci)))

store_changed_unflagged :
    (es : Map NodeConsoleInfo) (m : NodeMap) (c : Bool)
    → (store_changed es (m, c)).1 ≡ false
    → store_changed es (m, c) ≡ (m, false)
unfolding store_changed
store_changed_unflagged [] m c h = ground arith
store_changed_unflagged ((id, nci) ∷ es) m c h =
    ground (arith, store_changed_unflagged es m c, store_changed_flag es (put m id (some nci)))

store_changed_idle :
    (es : Map NodeConsoleInfo) (m : NodeMap) (c : Bool)
    → All (λ e. get m e.0 ≡ some (some e.1)) es
    → store_changed es (m, c) ≡ (m, c)
unfolding store_changed
store_changed_idle [] m c h = refl
store_changed_idle ((id, nci) ∷ es) m c h =
    ground (arith, h.0, nci_eq_iff nci nci, store_changed_idle es m c h.1)

get-fetched :
    (nodes : List NodeConsoleInfo) (k : Str) → get (nodes_by_id nodes []) k ≡ latest nodes k
unfolding get
get-fetched nodes k = ground (arith, get-nodes_by_id nodes [] k)

swept : NodesState → List NodeConsoleInfo → NodeMap × Bool
swept s nodes =
    remove_missing (nodes_by_id nodes []) (keys s.current_nodes) (s.current_nodes, false)

get-swept_of_missing :
    (s : NodesState) (nodes : List NodeConsoleInfo) (k : Str)
    → latest nodes k ≡ none
    → get (swept s nodes).0 k ≡ none
unfolding swept
get-swept_of_missing s nodes k h = elim (Option-cases (get s.current_nodes k)) [
  | inl e ↦ get-remove_missing_of_none (nodes_by_id nodes []) (keys s.current_nodes) _ false k e
  | inr (v, e) ↦
      get-remove_missing_of_missing (nodes_by_id nodes []) (keys s.current_nodes) _ false k
        (rw (get-fetched nodes k, h)) (In-keys_of_get s.current_nodes k v e)
]

-- After a refresh the table holds exactly the fetched nodes, each under its id: of several fetched
-- nodes with one id the last, and no entry for an id that was not fetched.
pub get-update_nodes :
    (s : NodesState) (nodes : List NodeConsoleInfo) (k : Str)
    → get (update_nodes s nodes).0.current_nodes k ≡ entry (latest nodes k)
unfolding update_nodes swept
get-update_nodes s nodes k = ground (
  arith,
  get-fetched nodes k,
  get-swept_of_missing s nodes k,
  get-store_changed (nodes_by_id nodes []) (swept s nodes).0 (swept s nodes).1 k
      (nodes_by_id-Distinct nodes [] tt),
)

update_nodes-unflagged :
    (s : NodesState) (nodes : List NodeConsoleInfo)
    → (update_nodes s nodes).1 ≡ false
    → (update_nodes s nodes).0 ≡ s
unfolding update_nodes swept
update_nodes-unflagged s nodes h = ground (
  arith,
  store_changed_unflagged (nodes_by_id nodes []) (swept s nodes).0 (swept s nodes).1,
  store_changed_flag (nodes_by_id nodes []) (swept s nodes).0,
  remove_missing_unflagged (nodes_by_id nodes []) (keys s.current_nodes) s.current_nodes false,
)

-- When every fetched node is there already, and nothing else, neither loop does anything.
update_nodes_idle :
    (s : NodesState) (nodes : List NodeConsoleInfo)
    → ((k : Str) → get s.current_nodes k ≡ entry (latest nodes k))
    → (update_nodes s nodes).1 ≡ false
unfolding update_nodes
update_nodes_idle s nodes h = rw (
  remove_missing_idle by_id (keys s.current_nodes) (s.current_nodes, false) fetched,
  store_changed_idle by_id s.current_nodes false stored,
)
  where
    by_id : Map NodeConsoleInfo
    by_id = nodes_by_id nodes []

    fetched : All (λ id. has by_id id ≡ true) (keys s.current_nodes)
    fetched =
        All-of_In _ (keys s.current_nodes)
          λ id i. ground (arith, has_of_In-keys s.current_nodes id i, h id, get-fetched nodes id)

    stored : All (λ e. get s.current_nodes e.0 ≡ some (some e.1)) by_id
    stored = All-of_In _ by_id λ e i. ground (
      arith,
      get_of_In by_id e.0 e.1 (nodes_by_id-Distinct nodes [] tt) i,
      h e.0,
      get-fetched nodes e.0,
    )

-- A refresh reports no change exactly when every id has the entry that it had before.
pub update_nodes_unchanged_iff :
    (s : NodesState) (nodes : List NodeConsoleInfo)
    → ((update_nodes s nodes).1 ≡ false)
      ↔ ((k : Str) → get (update_nodes s nodes).0.current_nodes k ≡ get s.current_nodes k)
update_nodes_unchanged_iff s nodes = (
  λ h k. ap (λ t. get t.current_nodes k) (update_nodes-unflagged s nodes h),
  λ same. update_nodes_idle s nodes λ k. sym (same k) ∙ get-update_nodes s nodes k,
)
