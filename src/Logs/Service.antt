-- ===== src/Logs/Service.antt =====
-- internal/logs/logs.go and the check of internal/logs/rotation.go: the state of the service and
-- a run of logrotate.
pub mod Reports
use remote_console.Prelude.{
  ◌≡◌, refl, Bool, true, false, Option, none, some, List, [], ◌∷◌, Result, ok, err, Error,
  if◌then◌else◌,
}
use remote_console.Prelude.Text.{Str, str}
use remote_console.Prelude.Int.{ℤ}
use remote_console.Prelude.Map.{Map}
use remote_console.Logs.Config.{LogConfig}
use remote_console.Logs.AggLog.{AggLog, AggIo, reopen_agg_log}
use remote_console.Logs.Tails.{Tails, no_tails}
use remote_console.Logs.Rotation.{Civil, Reading, read_log_rot_timestamps}

-- `log_rotate_file_stamp` is `none` for a nil map.
pub record LogsService : Type 0 where
  pub config : LogConfig
  pub agg_log : AggLog
  pub tails : Tails
  pub log_rotate_file_stamp : Option (Map ℤ)

abbrev init_log_rotate : Option Error → Option Error
init_log_rotate none = none
init_log_rotate (some e) =
    some (Error.wrap (str "error ensuring console logs backup directory: ") e)

abbrev new_or : LogConfig → Option Error → Result LogsService
new_or config (some e) = err e
new_or config none = ok (record {
  config = config;
  agg_log = record {
    con_agg_logger = none;
    con_agg_log_file = [];
    con_agg_file = none;
    closed = [];
    printed = [];
  };
  tails = no_tails;
  log_rotate_file_stamp = some [];
})

-- `mkdir` is the result of os.MkdirAll on the backup directory.
unfoldable pub new_logs_service : LogConfig → (Str → Option Error) → Result LogsService
new_logs_service config mkdir =
    new_or config (init_log_rotate (mkdir config.console_logs_backup_path))

-- The state file before and after logrotate ran, and the system as reopening the log sees it.
pub record Rotate : Type 0 where
  pub date : Civil → ℤ
  pub before : Result Str
  pub after : Result Str
  pub agg_io : AggIo

abbrev pub stamps_of : Option (Map ℤ) → Map ℤ
stamps_of none = []
stamps_of (some file_stamp) = file_stamp

abbrev pub with_stamps : LogsService → Map ℤ → LogsService
with_stamps s file_stamp = record s { log_rotate_file_stamp = some file_stamp }

abbrev pub reopened : LogsService → AggIo → LogsService
reopened s io = record s { agg_log = reopen_agg_log s.agg_log s.config.agg_logs_path io }

abbrev rotated : LogsService → AggIo → Option Reading → Option (LogsService × Bool)
rotated s io none = none
rotated s io (some r) =
    let t = with_stamps s r.file_stamp in
    some ((if r.agg_changed then reopened t io else t), r.con_changed)

-- The reading after logrotate, whatever its exit code; `none` is a panic.
unfoldable pub rotate_logs_once : LogsService → Str → Rotate → Map ℤ → Option (LogsService × Bool)
rotate_logs_once s console_logs_path io file_stamp = rotated s io.agg_io (
    read_log_rot_timestamps io.date io.after console_logs_path s.agg_log.con_agg_log_file
      file_stamp)

abbrev checked : LogsService → Str → Rotate → Option Reading → Option (LogsService × Bool)
checked s console_logs_path io none = none
checked s console_logs_path io (some r) =
    if s.config.log_rotate_enabled
    then rotate_logs_once (with_stamps s r.file_stamp) console_logs_path io r.file_stamp
    else some (with_stamps s r.file_stamp, false)

unfoldable pub log_rotate : LogsService → Str → Rotate → Option (LogsService × Bool)
unfolding rotate_logs_once
log_rotate s console_logs_path io = checked s console_logs_path io (
    read_log_rot_timestamps io.date io.before console_logs_path s.agg_log.con_agg_log_file
      (stamps_of s.log_rotate_file_stamp))
