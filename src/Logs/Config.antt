-- ===== src/Logs/Config.antt =====
-- internal/logs/config.go: the settings of the logs and their defaults.
use remote_console.Prelude.{Bool, true}
use remote_console.Prelude.Text.{Str, str}
use remote_console.Prelude.Int.{ℤ, pos}

pub record LogConfig : Type 0 where
  pub console_logs_file_size : Str
  pub console_logs_num_rotate : ℤ
  pub console_logs_backup_path : Str
  pub agg_logs_file_size : Str
  pub agg_logs_num_rotate : ℤ
  pub agg_logs_path : Str
  pub log_rotate_enabled : Bool
  pub log_rotate_check_frequency : ℤ
  pub log_rotate_file_path : Str
  pub log_rotate_state_file_path : Str

abbrev pub default_log_config : LogConfig
default_log_config = record {
  console_logs_file_size = str "5M";
  console_logs_num_rotate = pos 2;
  console_logs_backup_path = str "/var/log/conman.old";
  agg_logs_file_size = str "20M";
  agg_logs_num_rotate = pos 1;
  agg_logs_path = str "/tmp/consoleAgg";
  log_rotate_enabled = true;
  log_rotate_check_frequency = pos 600;
  log_rotate_file_path = str "/tmp/logrotate.conman";
  log_rotate_state_file_path = str "/tmp/rot_conman.state";
}
