-- ===== src/Nodes/Table.antt =====
-- The node table of internal/nodes/nodes.go as a finite map: its entries without their order.
use mathlib.Core.Quot
use mathlib.Core.Quot.{Quot, Quot-set}
use native.Mathlib.Nat.{ℕ_set}
use remote_console.Prelude.{◌≡◌, sym, ◌∙◌, Option, List}
use remote_console.Prelude.Text.{Str}
use remote_console.Prelude.Map.{get, Distinct}
use remote_console.Nodes.Info.{NodeConsoleInfo}
use remote_console.Nodes.Registry.{NodeMap, NodesState, update_nodes, current_nodes}
use remote_console.Nodes.Registry.Exact.{latest, get-update_nodes}
use remote_console.Nodes.Registry.Invariant.{update_nodes-Distinct}
use remote_console.Nodes.Registry.Copies.{current_nodes-get, current_nodes-Distinct}

-- A map without a double key.
abbrev pub Entries : Type 0
Entries = (m : NodeMap) × Distinct m

abbrev pub SameEntries : Entries → Entries → Type 0
SameEntries a b = (k : Str) → get a.0 k ≡ get b.0 k

abbrev pub Table : Type 0
Table = Quot SameEntries

abbrev pub table : (m : NodeMap) → Distinct m → Table
table m d = Quot.mk (m, d)

Entry-set : IsSet (Option (Option NodeConsoleInfo))
Entry-set = hlevel ℕ_set

pub lookup : Table → Str → Option (Option NodeConsoleInfo)
lookup t k = Quot.lift Entry-set (λ a. get a.0 k) (λ a b same. same k) t

-- A table is what its lookups are.
pub Table-ext : (s t : Table) → ((k : Str) → lookup s k ≡ lookup t k) → s ≡ t
unfolding lookup
Table-ext =
    Quot.ind (λ s. hlevel Quot-set)
      (λ a. Quot.ind (λ t. hlevel Quot-set) (λ b same. Quot.sound same))

-- The table that CurrentNodes copies.
abbrev pub table_of : (s : NodesState) → Distinct s.current_nodes → Table
table_of s d = table (current_nodes s) (current_nodes-Distinct s d)

-- After a refresh the table is what was fetched, whatever it was before.
pub refreshed_table :
    (s t : NodesState) (fetched fetched' : List NodeConsoleInfo) (d : Distinct s.current_nodes)
    (e : Distinct t.current_nodes)
    → ((k : Str) → latest fetched k ≡ latest fetched' k)
    → table_of (update_nodes s fetched).0 (update_nodes-Distinct s fetched d)
      ≡ table_of (update_nodes t fetched').0 (update_nodes-Distinct t fetched' e)
unfolding lookup
refreshed_table s t fetched fetched' d e same = Table-ext _ _ λ k.
    current_nodes-get (update_nodes s fetched).0 k (update_nodes-Distinct s fetched d)
    ∙ get-update_nodes s fetched k
    ∙ rw (same k) (sym (get-update_nodes t fetched' k))
    ∙ sym (current_nodes-get (update_nodes t fetched').0 k (update_nodes-Distinct t fetched' e))
