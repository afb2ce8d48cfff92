-- ===== src/Conman/Config.antt =====
-- internal/conman/config.go
use remote_console.Prelude.Text.{Str, str}

pub record ConmanConfig : Type 0 where
  pub base_conf_file_path : Str
  pub conf_file_path : Str
  pub logs_path : Str
  pub pid_file_path : Str
  pub console_scripts_path : Str

unfoldable pub default_conman_config : ConmanConfig
default_conman_config = record {
  base_conf_file_path = str "/app/conman.conf.tmpl";
  conf_file_path = str "/app/conman.conf";
  logs_path = str "/var/log/conman";
  pid_file_path = str "/var/run/conman.pid";
  console_scripts_path = str "/usr/bin";
}
