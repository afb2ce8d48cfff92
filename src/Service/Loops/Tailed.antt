-- ===== src/Service/Loops/Tailed.antt =====
-- The node table and the tailed logs, turn after turn of watchForNodesUpdates.
use remote_console.Prelude.{
  ◌≡◌, refl, sym, ◌∙◌, ◌||◌, inl, inr, true, false, some, [], ◌∷◌, if◌then◌else◌, length, arith,
  Bool-cases, Result-cases, ap, is_some,
}
use remote_console.Prelude.Text.{Str, ==_iff}
use remote_console.Prelude.Map.{get, put, has, get-put}
use remote_console.Nodes.Smd.{Http}
use remote_console.Nodes.Discovery.{current_nodes_from_smd}
use remote_console.Nodes.Registry.{
  NodeMap, NodesState, check_for_updates, current_nodes, copy_nodes,
}
use remote_console.Nodes.Registry.Exact.{update_nodes_unchanged_iff}
use remote_console.Conman.Process.{ConmanService}
use remote_console.Logs.Service.{LogsService}
use remote_console.Logs.Tails.{no_tails, aggregate_files}
use remote_console.Logs.Tails.Live
use remote_console.Logs.Tails.Live.{live, Reach-IsTended}
use remote_console.Logs.Tails.Exact.{aggregate_files-has}
use remote_console.Service.Loops.{
  Site, NodesTick, conman_logs_path, watch_for_nodes_updates, nodes_changed, aggregate,
}

copy_nodes-has :
    (m copied : NodeMap) (x : Str) → has (copy_nodes m copied) x ≡ has m x || has copied x
unfolding copy_nodes get
copy_nodes-has [] copied x = refl
copy_nodes-has ((k, p) ∷ m) copied x =
    ground (arith, copy_nodes-has m (put copied k p) x, get-put copied k x p, ==_iff k x)

current_nodes-has : (s : NodesState) (x : Str) → has (current_nodes s) x ≡ has s.current_nodes x
unfolding current_nodes get
current_nodes-has s x = ground (arith, copy_nodes-has s.current_nodes [] x)

check_for_updates-unflagged :
    (s : NodesState) (now smd_url : Str) (http : Http) (x : Str)
    → (check_for_updates s now http smd_url).1 ≡ false
    → get (check_for_updates s now http smd_url).0.current_nodes x ≡ get s.current_nodes x
unfolding check_for_updates
check_for_updates-unflagged s now smd_url http x h =
    elim (Result-cases (current_nodes_from_smd http smd_url)) [
      | inl (nodes, answered) ↦ rw answered (
          (update_nodes_unchanged_iff (record s { hardware_update_time = now }) nodes).0
            (ground (arith, answered, h)) x)
      | inr (e, failed) ↦ rw failed refl
    ]

-- The site from its start: turns of the loop, and whatever the other loops do to conman, to the
-- aggregation log, the stamps and the configuration file.
pub data Reach (path : Str) : Site → Type 0 where
  start :
      (s : Site)
      → s.nodes.current_nodes ≡ []
      → s.logs.tails ≡ no_tails
      → conman_logs_path s ≡ path
      → Reach path s
  turn :
      {s t : Site}
      → Reach path s
      → (io : NodesTick) → watch_for_nodes_updates s io ≡ some t
      → Reach path t
  others :
      {s : Site}
      → Reach path s
      → (conman : ConmanService) (logs : LogsService) (rotate_conf : Str)
      → conman.config ≡ s.conman.config
      → logs.tails ≡ s.logs.tails
      → Reach path (record s { conman = conman; logs = logs; rotate_conf = rotate_conf })

record IsInStep (path : Str) (s : Site) : Type 0 where
  reached : Live.Reach path s.logs.tails
  in_step : (x : Str) → has s.logs.tails.tail_cancel_by_node x ≡ has s.nodes.current_nodes x
  placed : conman_logs_path s ≡ path

nodes_changed-tails :
    (s t : Site) (io : NodesTick)
    → nodes_changed s io true ≡ some t
    → (t.nodes ≡ s.nodes)
      × (t.conman ≡ s.conman)
      × (t.logs.tails ≡ aggregate_files s.logs.tails (conman_logs_path s) (current_nodes s.nodes))
unfolding aggregate
nodes_changed-tails s t io h = ground arith

changed-IsInStep :
    (path : Str) (s t : Site) (io : NodesTick) (nodes : NodesState)
    → nodes_changed (record s { nodes = nodes }) io true ≡ some t
    → IsInStep path s
    → IsInStep path t
changed-IsInStep path s t io nodes h i =
    let (same_nodes, same_conman, tails) =
      nodes_changed-tails (record s { nodes = nodes }) t io h in
    record {
      reached = rw (tails, i.placed) (Live.Reach.later i.reached (current_nodes nodes));
      in_step = λ x.
          rw
            (
              tails,
              same_nodes,
              aggregate_files-has s.logs.tails (conman_logs_path s) (current_nodes nodes) x,
            )
            (current_nodes-has nodes x);
      placed = rw same_conman i.placed;
    }

turn-IsInStep :
    (path : Str) (s t : Site) (io : NodesTick)
    → watch_for_nodes_updates s io ≡ some t
    → IsInStep path s
    → IsInStep path t
unfolding watch_for_nodes_updates
turn-IsInStep path s t io h i =
    let (nodes, changed) = check_for_updates s.nodes io.now io.http io.smd_url in
    elim (Bool-cases (check_for_updates s.nodes io.now io.http io.smd_url).1) [
      | inl flagged ↦ changed-IsInStep path s t io nodes (ground (arith, flagged, h)) i
      | inr unflagged ↦
          let same : record s { nodes = nodes } ≡ t = ground (arith, unflagged, h) in
          rw (← same) (record {
            reached = i.reached;
            in_step = λ x.
                i.in_step x
                ∙ sym (
                    ap is_some
                      (check_for_updates-unflagged s.nodes io.now io.smd_url io.http x unflagged));
            placed = i.placed;
          })
    ]

others-IsInStep :
    (path : Str) (s : Site) (conman : ConmanService) (logs : LogsService) (rotate_conf : Str)
    → conman.config ≡ s.conman.config
    → logs.tails ≡ s.logs.tails
    → IsInStep path s
    → IsInStep path (record s { conman = conman; logs = logs; rotate_conf = rotate_conf })
others-IsInStep path s conman logs rotate_conf c e i = record {
  reached = rw e i.reached;
  in_step = λ x. rw e (i.in_step x);
  placed = rw c i.placed;
}

Reach-IsInStep : {path : Str} {s : Site} → Reach path s → IsInStep path s
unfolding get
Reach-IsInStep (start s empty none_tailed placed) = record {
  reached = rw none_tailed Live.Reach.start;
  in_step = λ x. rw (none_tailed, empty) refl;
  placed = placed;
}
Reach-IsInStep {path = path} (turn {s} {t} r io h) = turn-IsInStep path s t io h (Reach-IsInStep r)
Reach-IsInStep {path = path} (others {s} r conman logs rotate_conf c e) =
    others-IsInStep path s conman logs rotate_conf c e (Reach-IsInStep r)

-- From a start without nodes on, after any turns of the loop that do not panic, whatever the node
-- service answers and whatever the other loops do, each current node has one watcher of its log that
-- was started and not canceled, and no other node has one.
pub current_nodes_tailed :
    {path : Str} {s : Site}
    → Reach path s
    → (x : Str)
    → length (live s.logs.tails.canceled x s.logs.tails.watchers)
      ≡ (if has s.nodes.current_nodes x then 1 else 0)
current_nodes_tailed {s = s} r x =
    let i = Reach-IsInStep r in ground (arith, (Reach-IsTended i.reached).tended x, i.in_step x)
