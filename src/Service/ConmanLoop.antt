-- ===== src/Service/ConmanLoop.antt =====
-- cmd/remote-console/service.go: the loop that configures and runs conmand. `none` is a panic.
pub mod Round
pub mod Live
pub mod Configured
pub mod Discovered
use remote_console.Prelude.{
  ℕ, Bool, true, false, Option, none, some, List, [], ◌∷◌, ok, err, Error, if◌then◌else◌,
}
use remote_console.Prelude.Text.{Str}
use remote_console.Prelude.Errors.{is_canceled}
use remote_console.Prelude.Map.{Map}
use remote_console.Nodes.Registry.{NodeMap, NodesState, current_nodes}
use remote_console.Nodes.Ids.{node_ids}
use remote_console.Conman.Entries.{CompCredentials}
use remote_console.Conman.ConfigFile.{ConfigIo, Outcome, configure_conman}
use remote_console.Conman.Process.{ConmanService, Launch, execute_conman}
use remote_console.Creds.Passwords.{CredsService, Attempt, get_passwords_with_retries}
use remote_console.Creds.Storage.{Passwords}

-- What one round of runConman meets. The context's error is that of a canceled context. `done_at`
-- answers the wait of a number of seconds.
pub record ConmanRound : Type 0 where
  pub done : Bool
  pub ctx_err : Error
  pub attempt : ℕ → Attempt
  pub conf : ConfigIo
  pub launch : Launch
  pub done_at : ℕ → Bool

-- The state of runConman: the services and the content of conman's configuration file.
pub record Conmand : Type 0 where
  pub conman : ConmanService
  pub creds : CredsService
  pub conf_file : Str

-- The loop returns, or goes into its next round.
pub data Turn : Type 0 where
  stopped : Conmand → Turn
  again : Conmand → Turn

abbrev wait_with_context : ConmanRound → Conmand → ℕ → Turn → Turn
wait_with_context io c seconds next = if io.done_at seconds then stopped c else next

abbrev last_wait : ConmanRound → Conmand → Turn
last_wait io c = wait_with_context io c 10 (again c)

abbrev executed : ConmanRound → Conmand → Turn
executed io c = last_wait io (record c { conman = (execute_conman c.conman io.launch).0 })

abbrev pub configured : ConmanRound → Conmand → Outcome → Option Turn
configured io c Outcome.panicked = none
configured io c (Outcome.returned content (err e)) =
    let d = record c { conf_file = content } in some (wait_with_context io d 5 (again d))
configured io c (Outcome.returned content (ok false)) =
    let d = record c { conf_file = content } in some (wait_with_context io d 30 (last_wait io d))
configured io c (Outcome.returned content (ok true)) =
    some (executed io (record c { conf_file = content }))

abbrev pub ends_early : Option Error → Bool
ends_early none = false
ends_early (some e) = is_canceled e

abbrev pub passwords_map : Option (Map CompCredentials) → Map CompCredentials
passwords_map none = []
passwords_map (some passwords) = passwords

abbrev configure : ConmanRound → Conmand → NodeMap → Passwords → Option Turn
configure io c nodes (passwords, error) =
    if ends_early error
    then some (stopped c)
    else configured io c (
        configure_conman io.conf c.conman.config nodes (passwords_map passwords)
          c.creds.config.ssh_console_key_path c.conf_file)

abbrev pub for_ids : ConmanRound → Conmand → NodeMap → Option (List Str) → Option Turn
for_ids io c nodes none = none
for_ids io c nodes (some require_credentials) =
    let (creds, passwords) =
      get_passwords_with_retries c.creds io.ctx_err require_credentials 15 io.attempt in
    configure io (record c { creds = creds }) nodes passwords

unfoldable pub run_conman : ConmanRound → Conmand → NodesState → Option Turn
run_conman io c nodes =
    if io.done
    then some (stopped c)
    else for_ids io c (current_nodes nodes) (node_ids (current_nodes nodes))

abbrev go_on : Option Turn → (Conmand → Option Turn) → Option Turn
go_on none next = none
go_on (some (stopped c)) next = some (stopped c)
go_on (some (again c)) next = next c

-- The loop of runConman, for the rounds that it goes, each with the node table that it finds.
unfoldable pub run_rounds : List (ConmanRound × NodesState) → Conmand → Option Turn
unfolding run_conman
run_rounds [] c = some (again c)
run_rounds ((io, nodes) ∷ rounds) c = go_on (run_conman io c nodes) (run_rounds rounds)
