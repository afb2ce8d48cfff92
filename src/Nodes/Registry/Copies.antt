-- ===== src/Nodes/Registry/Copies.antt =====
-- The copy of the node table that CurrentNodes returns.
use remote_console.Prelude.{
  suc, ◌+◌, ◌≡◌, refl, true, false, Option, none, some, [], ◌∷◌, arith, length,
}
use remote_console.Prelude.Text.{Str, ==_iff, ==-refl}
use remote_console.Prelude.Map.{get, put, has, Distinct, get-put, put-Distinct}
use remote_console.Nodes.Registry.{NodeMap, NodesState, copy_nodes, current_nodes}
use remote_console.Nodes.Info.{NodeConsoleInfo}
use remote_console.Nodes.Registry.Invariant.{IsTable}

-- A copy of a table has its entries.
pub copy_nodes-get :
    (m copied : NodeMap) (k : Str)
    → Distinct m
    → get (copy_nodes m copied) k ≡ (elim (get m k) [ none ↦ get copied k | some p ↦ some p ])
unfolding copy_nodes get
copy_nodes-get [] copied k d = refl
copy_nodes-get ((j, p) ∷ m) copied k d =
    ground (arith, copy_nodes-get m (put copied j p) k d.1, get-put copied j k p, ==_iff j k, d.0)

copy_nodes-Distinct : (m copied : NodeMap) → Distinct copied → Distinct (copy_nodes m copied)
unfolding copy_nodes
copy_nodes-Distinct [] copied d = d
copy_nodes-Distinct ((j, p) ∷ m) copied d =
    copy_nodes-Distinct m (put copied j p) (put-Distinct copied j p d)

pub current_nodes-Distinct :
    (s : NodesState) → Distinct s.current_nodes → Distinct (current_nodes s)
unfolding current_nodes
current_nodes-Distinct s d = copy_nodes-Distinct s.current_nodes [] tt

pub current_nodes-get :
    (s : NodesState) (k : Str)
    → Distinct s.current_nodes
    → get (current_nodes s) k ≡ get s.current_nodes k
unfolding current_nodes get
current_nodes-get s k d = ground (arith, copy_nodes-get s.current_nodes [] k d)

pub copy_nodes-IsTable : (m : NodeMap) → IsTable m → IsTable (copy_nodes m [])
unfolding get
copy_nodes-IsTable m t = record {
  distinct = copy_nodes-Distinct m [] tt;
  keyed = λ k p h. t.keyed k p (ground (arith, copy_nodes-get m [] k t.distinct, h));
}

length-put :
    (m : NodeMap) (k : Str) (p : Option NodeConsoleInfo)
    → has m k ≡ false
    → length (put m k p) ≡ suc (length m)
unfolding put get
length-put [] k p h = refl
length-put ((j, q) ∷ m) k p h = ground (arith, length-put m k p, h)

length-copy_nodes :
    (m copied : NodeMap)
    → Distinct m
    → ((x : Str) → has m x ≡ true → has copied x ≡ false)
    → length (copy_nodes m copied) ≡ length m + length copied
unfolding copy_nodes get
length-copy_nodes [] copied d h = omega arith
length-copy_nodes ((k, p) ∷ m) copied d h = ground (
  arith,
  length-put copied k p (h k (ground (arith, ==-refl k))),
  length-copy_nodes m (put copied k p) d.1
      (λ x i. ground (arith, get-put copied k x p, ==_iff k x, d.0, h x, i)),
)

-- A copy has as many entries as its table.
pub length-current_nodes :
    (s : NodesState) → Distinct s.current_nodes → length (current_nodes s) ≡ length s.current_nodes
unfolding current_nodes get
length-current_nodes s d = ground (arith, length-copy_nodes s.current_nodes [] d (λ x i. refl))
