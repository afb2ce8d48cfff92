-- ===== src/Console/Sessions.antt =====
-- internal/console/interactive.go: at most one interactive session per node. Other handlers run while
-- this one upgrades its connection and while its session runs, so it stands here in three parts: up to
-- the upgrade, behind the upgrade, and behind the session.
pub mod Exclusive
pub mod Refined
use remote_console.Prelude.{
  ℕ, ◌≡◌, refl, Bool, true, false, not, Option, none, some, List, [], ◌∷◌, ◌++◌, Result, ok, err,
  Error, if◌then◌else◌,
}
use remote_console.Prelude.Text.{Str, str}
use remote_console.Prelude.Map.{Map, get, put, delete, has}
use remote_console.Nodes.Registry.{NodesState, is_current_node}
use remote_console.Console.Handlers.{
  Reply, http_error, extract_node_id, status_bad_request, status_not_found, status_conflict,
}

-- map[string]struct{}
abbrev pub InteractiveSessions : Type 0
InteractiveSessions = Map Unit

abbrev pub new_interactive_sessions : InteractiveSessions
new_interactive_sessions = []

unfoldable pub reserve : InteractiveSessions → Str → InteractiveSessions × Bool
reserve s node_id = if has s node_id then (s, false) else (put s node_id tt, true)

unfoldable pub release : InteractiveSessions → Str → InteractiveSessions
release s node_id = delete s node_id

-- The handler has replied, or it goes on to upgrade its connection, with the node reserved.
pub data Admitted : Type 0 where
  refused : Reply → Admitted
  upgrading : Str → Admitted

module _ (nodes : NodesState) where
  abbrev in_use : Str → Reply
  in_use node_id =
      http_error (str "Console " ++ (node_id ++ str " is already in use")) status_conflict

  abbrev after_reserve : Str → InteractiveSessions × Bool → InteractiveSessions × Admitted
  after_reserve node_id (s, true) = (s, upgrading node_id)
  after_reserve node_id (s, false) = (s, refused (in_use node_id))

  abbrev for_node : InteractiveSessions → Result Str → InteractiveSessions × Admitted
  for_node s (err e) =
      (s, refused (http_error (str "unable to extract node ID") status_bad_request))
  for_node s (ok node_id) =
      if is_current_node nodes node_id
      then after_reserve node_id (reserve s node_id)
      else (s, refused (http_error (str "Node doesn't exists") status_not_found))

  -- doInteractiveConsole up to the upgrade.
  unfoldable pub enter_interactive_console :
      InteractiveSessions → Str → InteractiveSessions × Admitted
  unfolding reserve
  enter_interactive_console s url_param = for_node s (extract_node_id url_param)

-- doInteractiveConsole behind Upgrade, and whether it runs a session: when the upgrade has failed, it
-- returns, and the deferred call releases the node.
unfoldable pub upgrade_interactive_console :
    InteractiveSessions → Str → Bool → InteractiveSessions × Bool
unfolding release
upgrade_interactive_console s node_id upgraded =
    if upgraded then (s, true) else (release s node_id, false)

-- How the handler goes on: it has replied, it returns without a reply, or it runs a session.
pub data Entered : Type 0 where
  replied : Reply → Entered
  not_upgraded : Entered
  serving : Str → Entered

abbrev entered_by : Str → InteractiveSessions × Bool → InteractiveSessions × Entered
entered_by node_id (s, true) = (s, serving node_id)
entered_by node_id (s, false) = (s, not_upgraded)

abbrev upgrade_admitted : Bool → InteractiveSessions × Admitted → InteractiveSessions × Entered
upgrade_admitted upgraded (s, refused reply) = (s, replied reply)
upgrade_admitted upgraded (s, upgrading node_id) =
    entered_by node_id (upgrade_interactive_console s node_id upgraded)

-- doInteractiveConsole up to the session, with nobody else in between.
unfoldable pub open_interactive_console :
    NodesState → Bool → InteractiveSessions → Str → InteractiveSessions × Entered
unfolding enter_interactive_console upgrade_interactive_console
open_interactive_console nodes upgraded s url_param =
    upgrade_admitted upgraded (enter_interactive_console nodes s url_param)

-- doInteractiveConsole behind the session: the deferred calls.
unfoldable pub leave_interactive_console : InteractiveSessions → Str → InteractiveSessions
unfolding release
leave_interactive_console s node_id = release s node_id
