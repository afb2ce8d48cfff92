-- ===== src/Nodes/Ids.antt =====
-- The loop that collects the ids of a node table, in internal/creds/monitor.go and in
-- cmd/remote-console/service.go; `none` is the panic at a nil pointer.
use remote_console.Prelude.{◌≡◌, refl, ap, Option, none, some, List, [], ◌∷◌, arith}
use remote_console.Prelude.Text.{Str, ==_iff, ==-refl}
use remote_console.Prelude.Map.{get, keys}
use remote_console.Nodes.Info.{NodeConsoleInfo}
use remote_console.Nodes.Registry.{NodeMap}
use remote_console.Nodes.Registry.Invariant.{IsTable}

abbrev add_id : Option NodeConsoleInfo → Option (List Str) → Option (List Str)
add_id none ids = none
add_id (some nci) none = none
add_id (some nci) (some ids) = some (nci.id ∷ ids)

unfoldable pub node_ids : NodeMap → Option (List Str)
node_ids [] = some []
node_ids ((k, p) ∷ nodes) = add_id p (node_ids nodes)

-- The rest of a table without its first entry is looked up alike, at all keys but the first.
pub IsTable-tail :
    (k : Str) (p : Option NodeConsoleInfo) (nodes : NodeMap)
    → IsTable ((k, p) ∷ nodes)
    → IsTable nodes
unfolding get
IsTable-tail k p nodes t = record {
  distinct = t.distinct.1;
  keyed = λ j q h. t.keyed j q (ground (arith, t.distinct.0, ==_iff k j));
}

-- A well-formed table has no nil pointer, and its ids are its keys.
node_ids-keys : (nodes : NodeMap) → IsTable nodes → node_ids nodes ≡ some (keys nodes)
unfolding node_ids get
node_ids-keys [] t = refl
node_ids-keys ((k, p) ∷ nodes) t =
    let (nci, e, id) = t.keyed k p (rw (==-refl k)) in
    let rest = node_ids-keys nodes (IsTable-tail k p nodes t) in
    rw (e, rest) (ap (λ (s : Str). some (s ∷ keys nodes)) id)
