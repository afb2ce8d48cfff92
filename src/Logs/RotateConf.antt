-- ===== src/Logs/RotateConf.antt =====
-- internal/logs/rotation.go: writing the configuration file of logrotate. The file names in the
-- texts of the errors are left out.
pub mod Complete
use remote_console.Prelude.{
  ◌≡◌, refl, Bool, true, false, Option, none, some, List, [], ◌∷◌, ◌++◌, Error, if◌then◌else◌,
  String,
}
use remote_console.Prelude.Text.{Str, str, ◌==◌}
use remote_console.Prelude.Int.{ℤ}
use remote_console.Prelude.Strings.{itoa}
use remote_console.Prelude.Filepath.{dir, join}
use remote_console.Nodes.Info.{NodeConsoleInfo}
use remote_console.Nodes.Registry.{NodeMap}
use remote_console.Logs.Config.{LogConfig}

-- os.Create, a write of a text behind what the file holds, and Close.
pub record ConfFile : Type 0 where
  pub create : Str → Option Error
  pub write : Str → Str → Str × Option Error
  pub close : Option Error

abbrev pub line : Str → Str → Str
line text rest = text ++ b'\n' ∷ rest

unfoldable pub config_entry : Str → Str → ℤ → Str → Str
config_entry file_name old_dir num_rotate file_size = line (file_name ++ str " { ") (
    line (str "  nocompress") (
      line (str "  missingok") (
        line (str "  nocopytruncate") (
          line (str "  nocreate") (
            line (str "  nodelaycompress") (
              line (str "  nomail") (
                line (str "  notifempty") (
                  line (str "  olddir " ++ old_dir) (
                    line (str "  rotate " ++ itoa num_rotate)
                      (line (str "  size=" ++ file_size) (line (str "}") [])))))))))))

-- What the file holds, and what the call returned.
pub data Updated : Type 0 where
  returned : Str → Option Error → Updated
  panicked : Updated

abbrev pub header : Str
header = str "# Auto-generated conman log rotation configuration file."

abbrev pub console_log : Str → NodeConsoleInfo → Str
console_log console_logs_path cni = join console_logs_path (str "console." ++ cni.id)

abbrev pub node_entry : LogConfig → Str → NodeConsoleInfo → Str
node_entry config console_logs_path cni =
    config_entry (console_log console_logs_path cni) config.console_logs_backup_path
      config.console_logs_num_rotate config.console_logs_file_size

abbrev pub agg_entry : LogConfig → Str → Str
agg_entry config con_agg_log_file =
    config_entry con_agg_log_file (dir con_agg_log_file) config.agg_logs_num_rotate
      config.agg_logs_file_size

module _ (io : ConfFile) (config : LogConfig) where
  abbrev failed : String → Str × Error → Updated
  failed what (content, e) = returned content (some (Error.wrap (str what) e))

  abbrev close_error : Option Error → Option Error
  close_error none = none
  close_error (some e) = some (Error.wrap (str "failed to close log rotation config file: ") e)

  abbrev write_footer : Str × Option Error → Updated
  write_footer (content, some e) = failed "failed to write log rotation footer: " (content, e)
  write_footer (content, none) = returned content (close_error io.close)

  -- The loop over the nodes, and the footer behind it.
  unfoldable pub write_nodes : Str → NodeMap → Str → Updated
  write_nodes console_logs_path [] content = write_footer (io.write content (b'\n' ∷ []))
  write_nodes console_logs_path ((k, none) ∷ nodes) content = panicked
  write_nodes console_logs_path ((k, some cni) ∷ nodes) content =
      let (content', error) = io.write content (node_entry config console_logs_path cni) in
      elim error [
        | none ↦ write_nodes console_logs_path nodes content'
        | some e ↦ failed "failed to write console log rotate entry: " (content', e)
      ]

  abbrev after_agg : Str → NodeMap → Str × Option Error → Updated
  after_agg console_logs_path nodes (content, some e) =
      failed "failed to write aggregation log rotate entry: " (content, e)
  after_agg console_logs_path nodes (content, none) = write_nodes console_logs_path nodes content

  abbrev invalid_dir : Error
  invalid_dir = Error.new (str "invalid aggregation file name/dir for log rotation")

  abbrev pub write_agg : Str → NodeMap → Str → Str → Updated
  write_agg console_logs_path nodes con_agg_log_file content =
      if con_agg_log_file == []
      then write_nodes console_logs_path nodes content
      else if dir con_agg_log_file == []
      then returned content (some invalid_dir)
      else after_agg console_logs_path nodes (io.write content (agg_entry config con_agg_log_file))

  abbrev after_header : Str → NodeMap → Str → Str × Option Error → Updated
  after_header console_logs_path nodes con_agg_log_file (content, some e) =
      failed "failed to write log rotation header: " (content, e)
  after_header console_logs_path nodes con_agg_log_file (content, none) =
      write_agg console_logs_path nodes con_agg_log_file content

  abbrev created : Str → NodeMap → Str → Str → Option Error → Updated
  created console_logs_path nodes con_agg_log_file file (some e) =
      failed "unable to create log rotation config file: " (file, e)
  created console_logs_path nodes con_agg_log_file file none =
      after_header console_logs_path nodes con_agg_log_file (io.write [] (line header []))

  -- `file` is what the configuration file held before.
  unfoldable pub update_log_rotate_conf : Str → NodeMap → Str → Str → Updated
  unfolding write_nodes
  update_log_rotate_conf console_logs_path nodes con_agg_log_file file =
      created console_logs_path nodes con_agg_log_file file (io.create config.log_rotate_file_path)
