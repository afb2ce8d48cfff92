-- ===== src/Service/ConmanLoop/Discovered.antt =====
-- From the reply of the node service to conman's configuration file.
use remote_console.Prelude.{Option, ◌≡◌, ◌↔◌, refl, sym, ◌∙◌, some, none, List, arith, In}
use remote_console.Prelude.Text.{Str}
use remote_console.Prelude.Map.{get, get_of_In, In_of_get}
use remote_console.Nodes.Info.{NodeConsoleInfo}
use remote_console.Nodes.Smd.{Http, ComponentEndpoint}
use remote_console.Nodes.Discovery.{collect_nodes}
use remote_console.Nodes.Registry.{NodesState, current_nodes, check_for_updates}
use remote_console.Nodes.Registry.Exact.{latest, entry}
use remote_console.Nodes.Registry.Invariant.{IsTable, check_for_updates-IsTable}
use remote_console.Nodes.Registry.Refresh.{Answers, check_for_updates-Answers}
use remote_console.Nodes.Registry.Copies.{current_nodes-get, current_nodes-Distinct}
use remote_console.Conman.ConfigFile.Complete.{Appends}
use remote_console.Service.ConmanLoop.{ConmanRound, Conmand, again, run_conman}
use remote_console.Service.ConmanLoop.Live.{IsUndone}
use remote_console.Service.ConmanLoop.Configured.{IsFaultless, IsRound, run_conman-IsRound}

entry_iff :
    (found : Option NodeConsoleInfo) (nci : NodeConsoleInfo)
    → (entry found ≡ some (some nci)) ↔ (found ≡ some nci)
entry_iff none nci = (λ h. absurd (cc), λ h. absurd (cc))
entry_iff (some n) nci = (λ h. ground (arith, h), λ h. rw h refl)

-- The copy of the table that was refreshed from a reply holds exactly the nodes of the reply.
In-current_nodes_iff :
    (s : NodesState) (now smd_url : Str) (http : Http) (eps : List ComponentEndpoint) (k : Str)
    (nci : NodeConsoleInfo)
    → IsTable s.current_nodes
    → Answers http smd_url eps
    → In (k, some nci) (current_nodes (check_for_updates s now http smd_url).0)
      ↔ (latest (collect_nodes eps) k ≡ some nci)
In-current_nodes_iff s now smd_url http eps k nci t answers =
    let s' = (check_for_updates s now http smd_url).0 in
    let t' = check_for_updates-IsTable s now smd_url http t in
    let found : get (current_nodes s') k ≡ entry (latest (collect_nodes eps) k) =
      current_nodes-get s' k t'.distinct
      ∙ check_for_updates-Answers s now smd_url http eps answers k in
    let (from, to) = entry_iff (latest (collect_nodes eps) k) nci in
    (
      λ i. from (
          sym found
          ∙ get_of_In (current_nodes s') k (some nci) (current_nodes-Distinct s' t'.distinct) i),
      λ h. In_of_get (current_nodes s') k (some nci) (found ∙ to h),
    )

-- When a well-formed node table was refreshed from a reply of the node service that decodes to a list
-- of endpoints, and the next round of the conman loop is one in which the service's context is not
-- done, no answer of the store is an error that wraps context.Canceled, and the template, the opening
-- and the writes of the configuration file succeed, each write appending its output, then the loop goes
-- on, and the file holds the base configuration and then entries, among which each IPMI and each SSH
-- node that the list gives, of several with one id the last, has the one made with the credentials that
-- the round has retrieved; the loop has called ExecuteConman if there is a node, else left the conman
-- service as it was.
pub run_conman-Answers :
    (io : ConmanRound) (c : Conmand) (s : NodesState) (now smd_url : Str) (http : Http)
    (eps : List ComponentEndpoint)
    → IsTable s.current_nodes
    → Answers http smd_url eps
    → IsUndone io
    → IsFaultless io.conf c.conman.config
    → Appends io.conf
    → (d : Conmand) × (run_conman io c (check_for_updates s now http smd_url).0 ≡ some (again d))
      × IsRound io c (current_nodes (check_for_updates s now http smd_url).0) d
      × ((k : Str) (nci : NodeConsoleInfo)
          → In (k, some nci) (current_nodes (check_for_updates s now http smd_url).0)
            ↔ (latest (collect_nodes eps) k ≡ some nci))
run_conman-Answers io c s now smd_url http eps t answers u f a =
    let t' = check_for_updates-IsTable s now smd_url http t in
    let (d, on, written) =
      run_conman-IsRound io c (check_for_updates s now http smd_url).0 t' u f a in
    (d, on, written, λ k nci. In-current_nodes_iff s now smd_url http eps k nci t answers)
