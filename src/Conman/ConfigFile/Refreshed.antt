-- ===== src/Conman/ConfigFile/Refreshed.antt =====
-- conman's configuration file as a function of the node table, whose order it does not see.
use mathlib.Core.Quot
use native.Mathlib.Nat.{ℕ_set}
use remote_console.Prelude.{◌≡◌, ap, List}
use remote_console.Prelude.Text.{Str}
use remote_console.Prelude.Map.{Map, Distinct}
use remote_console.Prelude.Map.Extensional.{Perm_of_get}
use remote_console.Nodes.Info.{NodeConsoleInfo}
use remote_console.Nodes.Registry.{NodesState, update_nodes, current_nodes}
use remote_console.Nodes.Registry.Exact.{latest}
use remote_console.Nodes.Table.{Table, refreshed_table}
use remote_console.Conman.Config.{ConmanConfig}
use remote_console.Conman.Entries.{CompCredentials}
use remote_console.Conman.ConfigFile.{ConfigIo, Outcome, configure_conman}
use remote_console.Conman.ConfigFile.Deterministic.{configure_conman-perm}

Outcome-set : IsSet Outcome
Outcome-set = hlevel ℕ_set

module _ (io : ConfigIo) (config : ConmanConfig) (passwords : Map CompCredentials)
    (key_path file : Str) where
  -- ConfigureConman on a table without an order.
  configure_table : Table → Outcome
  configure_table =
      Quot.lift Outcome-set (λ a. configure_conman io config a.0 passwords key_path file)
        (λ a b same.
          configure_conman-perm io config a.0 b.0 passwords key_path file
            (Perm_of_get a.0 b.0 a.1 b.1 same))

-- Two node tables that were refreshed with lists in which each id has the same last node give the same
-- configuration file and the same result, whatever the tables held before, in whatever order the
-- lists and the maps are, and with every fault of the files and the template included.
pub configure_conman-refreshed :
    (io : ConfigIo) (config : ConmanConfig) (passwords : Map CompCredentials) (key_path file : Str)
    (s t : NodesState) (fetched fetched' : List NodeConsoleInfo)
    → Distinct s.current_nodes
    → Distinct t.current_nodes
    → ((k : Str) → latest fetched k ≡ latest fetched' k)
    → configure_conman io config (current_nodes (update_nodes s fetched).0) passwords key_path file
      ≡ configure_conman io config
          (current_nodes (update_nodes t fetched').0)
          passwords
          key_path
          file
unfolding configure_table
configure_conman-refreshed io config passwords key_path file s t fetched fetched' d e same =
    ap (configure_table io config passwords key_path file)
      (refreshed_table s t fetched fetched' d e same)
