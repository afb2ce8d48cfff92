-- ===== src/Logs/Tails.antt =====
-- internal/logs/aggregation.go: which console logs are tailed. A cancel function stands for its
-- context, a number; the goroutines of watchConsoleLogFile are recorded as they are started.
pub mod Live
pub mod Exact
use remote_console.Prelude.{
  ℕ, ◌+◌, ◌≡◌, refl, Bool, true, false, ◌&&◌, ◌||◌, not, Option, none, some, List, [], ◌∷◌, ◌++◌,
  if◌then◌else◌, nat_eq,
}
use remote_console.Prelude.Text.{Str, str, ◌==◌}
use remote_console.Prelude.Map.{Map, get, put, delete, has, keys}
use remote_console.Nodes.Registry.{NodeMap}

pub record Watcher : Type 0 where
  pub context : ℕ
  pub xname : Str
  pub filename : Str

pub record Tails : Type 0 where
  pub tail_cancel_by_node : Map ℕ
  pub next_context : ℕ
  pub canceled : List ℕ
  pub watchers : List Watcher

abbrev pub no_tails : Tails
no_tails = record { tail_cancel_by_node = []; next_context = 0; canceled = []; watchers = [] }

unfoldable pub console_file : Str → Str → Str
console_file console_logs_path xname = console_logs_path ++ (str "/console." ++ xname)

-- context.WithCancel, the entry, and the goroutine.
abbrev watched : Tails → Str → Str → Tails
watched t console_logs_path xname = record {
  tail_cancel_by_node = put t.tail_cancel_by_node xname t.next_context;
  next_context = t.next_context + 1;
  canceled = t.canceled;
  watchers =
      (record {
        context = t.next_context;
        xname = xname;
        filename = console_file console_logs_path xname;
      })
      ∷ t.watchers;
}

unfoldable pub aggregate_file : Tails → Str → Str → Tails
unfolding console_file
aggregate_file t console_logs_path xname =
    if has t.tail_cancel_by_node xname then t else watched t console_logs_path xname

unfoldable pub stop_tailing : Tails → Str → Tails
stop_tailing t xname = elim (get t.tail_cancel_by_node xname) [
  | none ↦ t
  | some cancel ↦ record t {
    canceled = cancel ∷ t.canceled;
    tail_cancel_by_node = delete t.tail_cancel_by_node xname;
  }
]

-- The loop over the nodes.
unfoldable pub start_new : Tails → Str → List Str → Tails
unfolding aggregate_file
start_new t console_logs_path [] = t
start_new t console_logs_path (xname ∷ xnames) =
    start_new (aggregate_file t console_logs_path xname) console_logs_path xnames

-- The loop over the entries: it deletes only the one it stands at, so it meets each that was there.
unfoldable pub stop_removed : Tails → NodeMap → List Str → Tails
unfolding stop_tailing
stop_removed t nodes [] = t
stop_removed t nodes (xname ∷ xnames) =
    stop_removed (if has nodes xname then t else stop_tailing t xname) nodes xnames

unfoldable pub aggregate_files : Tails → Str → NodeMap → Tails
unfolding start_new stop_removed
aggregate_files t console_logs_path nodes =
    let started = start_new t console_logs_path (keys nodes) in
    stop_removed started nodes (keys started.tail_cancel_by_node)
