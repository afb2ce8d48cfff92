-- ===== src/Service/Run/Rotated.antt =====
-- The state in which the loops start.
use remote_console.Prelude.{
  ◌≡◌, ◌≢◌, refl, ap, ◌∙◌, false, Option, none, some, [], ◌∷◌, ◌++◌, Result, ok, Error, arith,
  Option-cases, inl, inr,
}
use remote_console.Prelude.Text.{Str, str, ==_iff, ◌==◌}
use remote_console.Prelude.Filepath.{join}
use remote_console.Nodes.Registry.{NodesState, current_nodes}
use remote_console.Conman.Process.{new_conman_service}
use remote_console.Logs.AggLog.{AggLog, AggIo, agg_log_file, ensure_agg_log, open_agg_log_locked}
use remote_console.Logs.Tails.{no_tails}
use remote_console.Logs.Config.{LogConfig}
use remote_console.Logs.Service.{LogsService, new_logs_service}
use remote_console.Logs.RotateConf.{ConfFile, Updated, header, line, agg_entry}
use remote_console.Logs.RotateConf.Complete.{
  Appends, agg_entries, node_entries, update_log_rotate_conf_complete,
}
use remote_console.Service.Config.{RemoteConsoleConfig}
use remote_console.Service.Loops.{Site, conman_logs_path, conf_written, start_log_rotate}
use remote_console.Service.Loops.Tailed.{Reach, start}
use remote_console.Service.Run.{StartIo, Serving, initial_site, run_service}
use remote_console.Service.Run.Exit.{run_service-found}

ensure_agg_log-file :
    (s : AggLog) (path : Str) (io : AggIo)
    → s.con_agg_logger ≡ none
    → s.con_agg_log_file ≡ []
    → (ensure_agg_log s path io).con_agg_log_file ≡ agg_log_file path io.hostname
unfolding ensure_agg_log open_agg_log_locked
ensure_agg_log-file s path io unlogged unnamed =
    ground (arith, unlogged, unnamed, ==_iff s.con_agg_log_file [])

agg_log_file_named : (path : Str) (hostname : Result Str) → agg_log_file path hostname ≢ []
unfolding agg_log_file
agg_log_file_named [] hostname = λ e. absurd (ground (arith, e))
agg_log_file_named (c ∷ path) hostname = λ e. absurd (ground (arith, e))

record IsFresh (config : LogConfig) (logs : LogsService) : Type 0 where
  tailless : logs.tails ≡ no_tails
  configured : logs.config ≡ config
  unlogged : logs.agg_log.con_agg_logger ≡ none
  unnamed : logs.agg_log.con_agg_log_file ≡ []

new_logs_service-IsFresh :
    (config : LogConfig) (mkdir : Str → Option Error) (logs : LogsService)
    → new_logs_service config mkdir ≡ ok logs
    → IsFresh config logs
unfolding new_logs_service
new_logs_service-IsFresh config mkdir logs h =
    elim (Option-cases (mkdir config.console_logs_backup_path)) [
      | inr (e, failed) ↦ absurd (ground (arith, failed, h))
      | inl fine ↦ record {
        tailless = ground (arith, fine, h);
        configured = ground (arith, fine, h);
        unlogged = ground (arith, fine, h);
        unnamed = ground (arith, fine, h);
      }
    ]

conf_written-returned :
    (s t : Site) (u : Updated)
    → conf_written s u ≡ some (t, none)
    → u ≡ Updated.returned t.rotate_conf none
conf_written-returned s t Updated.panicked h = absurd (ground (arith, h))
conf_written-returned s t (Updated.returned content none) h = ground (arith, h)
conf_written-returned s t (Updated.returned content (some e)) h = absurd (ground (arith, h))

start_log_rotate_complete :
    (s t : Site) (conf_file : ConfFile)
    → Appends conf_file
    → start_log_rotate s conf_file ≡ some (t, none)
    → t.rotate_conf
      ≡ line header []
        ++ (agg_entries s.logs.config s.logs.agg_log.con_agg_log_file
            ++ (node_entries s.logs.config (conman_logs_path s) (current_nodes s.nodes)
                ++ b'\n' ∷ []))
unfolding start_log_rotate
start_log_rotate_complete s t conf_file appends h =
    update_log_rotate_conf_complete conf_file s.logs.config (conman_logs_path s) appends
      (current_nodes s.nodes) s.logs.agg_log.con_agg_log_file s.rotate_conf t.rotate_conf
      (conf_written-returned s t _ h)

module _ {KeySet Jwt : Type 0} (config : RemoteConsoleConfig) (io : StartIo KeySet Jwt)
    (serving : Serving Jwt) where
  -- The tailed logs start as Loops/Tailed takes them.
  run_service-Reach :
      run_service config io ≡ ok serving
      → Reach (join config.conman.logs_path (str "conman")) serving.site
  unfolding new_logs_service new_conman_service
  run_service-Reach h =
      let (_, (logs, made, _, placed, _)) = run_service-found io config serving h in
      let fresh = new_logs_service-IsFresh config.log io.mkdir_all logs made in
      rw placed (start (initial_site config io logs) refl fresh.tailless refl)

  -- When the first update of logrotate's configuration behind a start returns no error, whatever the
  -- nodes are by then, and writes append, the file holds the header, the entry of the aggregation log
  -- under the host's name, even if its file was not opened, an entry for each node, and an empty line.
  pub start_log_rotate_agg :
      (nodes : NodesState) (conf_file : ConfFile) (t : Site)
      → run_service config io ≡ ok serving
      → Appends conf_file
      → start_log_rotate (record serving.site { nodes = nodes }) conf_file ≡ some (t, none)
      → t.rotate_conf
        ≡ line header []
          ++ (agg_entry config.log (agg_log_file config.log.agg_logs_path io.agg_io.hostname)
              ++ (node_entries config.log
                    (join config.conman.logs_path (str "conman"))
                    (current_nodes nodes)
                  ++ b'\n' ∷ []))
  start_log_rotate_agg nodes conf_file t h appends written =
      let (_, (logs, made, _, placed, _)) = run_service-found io config serving h in
      let fresh = new_logs_service-IsFresh config.log io.mkdir_all logs made in
      let file = agg_log_file config.log.agg_logs_path io.agg_io.hostname in
      let named : serving.site.logs.agg_log.con_agg_log_file ≡ file = rw placed (
        ensure_agg_log-file logs.agg_log logs.config.agg_logs_path io.agg_io fresh.unlogged
          fresh.unnamed
        ∙ ap (λ c. agg_log_file c.agg_logs_path io.agg_io.hostname) fresh.configured) in
      let configured : serving.site.logs.config ≡ config.log = rw placed fresh.configured in
      let put : conman_logs_path serving.site ≡ join config.conman.logs_path (str "conman") =
        unfold new_conman_service in rw placed refl in
      let unempty : (file == []) ≡ false =
        ground
          (arith, ==_iff file [], agg_log_file_named config.log.agg_logs_path io.agg_io.hostname) in
      start_log_rotate_complete (record serving.site { nodes = nodes }) t conf_file appends written
      ∙ rw (configured, named, put, unempty) refl
