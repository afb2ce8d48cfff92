-- ===== src/Service/Loops.antt =====
-- cmd/remote-console/service.go: the node loop, the credentials loop and the rotation loop. `none` is
-- a panic.
pub mod Tailed
use remote_console.Prelude.{
  ℕ, Bool, true, false, Option, none, some, List, [], ◌∷◌, Result, ok, err, Error, if◌then◌else◌,
}
use remote_console.Prelude.Text.{Str, str}
use remote_console.Prelude.Int.{ℤ, pos, is_positive}
use remote_console.Prelude.Filepath.{join}
use remote_console.Nodes.Smd.{Http}
use remote_console.Nodes.Registry.{NodeMap, NodesState, check_for_updates, current_nodes}
use remote_console.Conman.Process.{ConmanService, Signal, sigterm, sighup, Signaled, signal_conman}
use remote_console.Logs.AggLog.{AggIo, ensure_agg_log}
use remote_console.Logs.Tails.{aggregate_files}
use remote_console.Logs.RotateConf.{ConfFile, Updated, update_log_rotate_conf}
use remote_console.Logs.Service.{LogsService, Rotate, log_rotate}

-- What the loops share; `rotate_conf` is the content of logrotate's configuration file.
pub record Site : Type 0 where
  pub nodes : NodesState
  pub conman : ConmanService
  pub logs : LogsService
  pub rotate_conf : Str

abbrev pub conman_logs_path : Site → Str
conman_logs_path s = join s.conman.config.logs_path (str "conman")

-- What one turn of watchForNodesUpdates meets.
pub record NodesTick : Type 0 where
  pub now : Str
  pub http : Http
  pub smd_url : Str
  pub kill : ℕ → Signal → Option Error
  pub conf_file : ConfFile
  pub agg_io : AggIo

-- LogsService.AggregateFiles
unfoldable pub aggregate : LogsService → AggIo → Str → NodeMap → LogsService
aggregate ls agg_io console_logs_path nodes = record ls {
  agg_log = ensure_agg_log ls.agg_log ls.config.agg_logs_path agg_io;
  tails = aggregate_files ls.tails console_logs_path nodes;
}

abbrev conf_updated : Site → NodesTick → NodeMap → Updated → Option Site
conf_updated s io nodes Updated.panicked = none
conf_updated s io nodes (Updated.returned content e) = some (record s {
  rotate_conf = content;
  logs = aggregate s.logs io.agg_io (conman_logs_path s) nodes;
})

abbrev signaled_term : Site → NodesTick → NodeMap → Signaled → Option Site
signaled_term s io nodes Signaled.panicked = none
signaled_term s io nodes (Signaled.returned e) = conf_updated s io nodes (
    update_log_rotate_conf io.conf_file s.logs.config (conman_logs_path s) nodes
      s.logs.agg_log.con_agg_log_file s.rotate_conf)

abbrev nodes_changed : Site → NodesTick → Bool → Option Site
nodes_changed s io false = some s
nodes_changed s io true =
    signaled_term s io (current_nodes s.nodes) (signal_conman s.conman io.kill sigterm)

unfoldable pub watch_for_nodes_updates : Site → NodesTick → Option Site
unfolding aggregate
watch_for_nodes_updates s io =
    let (nodes, changed) = check_for_updates s.nodes io.now io.http io.smd_url in
    nodes_changed (record s { nodes = nodes }) io changed

abbrev signaled : Signaled → Option Bool
signaled Signaled.panicked = none
signaled (Signaled.returned e) = some true

-- What a turn of watchForCredUpdates does with the result of its check: whether conman was
-- signaled. An error comes with `false`.
unfoldable pub watch_for_cred_updates :
    ConmanService → (ℕ → Signal → Option Error) → Result Bool → Option Bool
watch_for_cred_updates cs kill (err e) = some false
watch_for_cred_updates cs kill (ok false) = some false
watch_for_cred_updates cs kill (ok true) = signaled (signal_conman cs kill sigterm)

abbrev pub conf_written : Site → Updated → Option (Site × Option Error)
conf_written s Updated.panicked = none
conf_written s (Updated.returned content e) = some (record s { rotate_conf = content }, e)

-- logRotate up to its loop, with the error that it logs.
unfoldable pub start_log_rotate : Site → ConfFile → Option (Site × Option Error)
start_log_rotate s io = conf_written s (
    update_log_rotate_conf io s.logs.config (conman_logs_path s) (current_nodes s.nodes)
      s.logs.agg_log.con_agg_log_file s.rotate_conf)

unfoldable pub sleep_duration : ℤ → ℤ
sleep_duration log_rot_check_freq_sec =
    if is_positive log_rot_check_freq_sec then log_rot_check_freq_sec else pos 300

abbrev hup : Site → (ℕ → Signal → Option Error) → Option (LogsService × Bool) → Option (Site × Bool)
hup s kill none = none
hup s kill (some (logs, false)) = some (record s { logs = logs }, false)
hup s kill (some (logs, true)) = elim (signal_conman s.conman kill sighup) [
  | Signaled.panicked ↦ none
  | Signaled.returned e ↦ some (record s { logs = logs }, true)
]

-- A turn of logRotate, and whether conman was signaled.
unfoldable pub log_rotate_turn : Site → (ℕ → Signal → Option Error) → Rotate → Option (Site × Bool)
log_rotate_turn s kill io = hup s kill (log_rotate s.logs (conman_logs_path s) io)

-- What the select of a loop receives: the end of the service's context, or a tick of its ticker, with
-- what the turn meets.
pub data Select (A : Type 0) : Type 0 where
  done : Select A
  tick : A → Select A

module _ {S A : Type 0} (turn : S → A → Option S) where
  abbrev turned : Option S → (S → Option (S × Bool)) → Option (S × Bool)
  turned none next = none
  turned (some s) next = next s

  -- A loop with its turn, and whether it has returned.
  unfoldable pub watch : List (Select A) → S → Option (S × Bool)
  watch [] s = some (s, false)
  watch (done ∷ events) s = some (s, true)
  watch (tick a ∷ events) s = turned (turn s a) (watch events)

unfoldable pub watch_nodes : List (Select NodesTick) → Site → Option (Site × Bool)
unfolding watch_for_nodes_updates watch
watch_nodes = watch watch_for_nodes_updates

-- What a turn of the rotation loop meets.
pub record RotateTick : Type 0 where
  pub kill : ℕ → Signal → Option Error
  pub rotate : Rotate

abbrev site_of : Option (Site × Bool) → Option Site
site_of none = none
site_of (some (s, signaled)) = some s

abbrev rotate_turn : Site → RotateTick → Option Site
rotate_turn s io = site_of (log_rotate_turn s io.kill io.rotate)

abbrev from_start : List (Select RotateTick) → Option (Site × Option Error) → Option (Site × Bool)
from_start events none = none
from_start events (some (s, e)) = watch rotate_turn events s

-- logRotate: the first update of the configuration, then the loop.
unfoldable pub rotate_logs : ConfFile → List (Select RotateTick) → Site → Option (Site × Bool)
unfolding start_log_rotate log_rotate_turn watch
rotate_logs io events s = from_start events (start_log_rotate s io)
