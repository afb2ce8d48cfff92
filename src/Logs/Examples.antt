-- ===== src/Logs/Examples.antt =====
-- A site of two nodes, and the theorems about internal/logs at it.
use remote_console.Prelude.{
  List, Error, err, ok, none, ℕ, ◌≡◌, refl, ◌↔◌, ◌≢◌, ◌<◌, ◌+◌, true, none, some, [], ◌∷◌, ◌++◌, ok,
  In, length, Bool,
}
use remote_console.Prelude.Text.{Str, str, ◌==◌}
use remote_console.Prelude.Int.{ℤ, pos}
use remote_console.Prelude.Strings.{index, itoa}
use remote_console.Prelude.Filepath.{join, dir, clean}
use remote_console.Prelude.Lines.{newline, complete_lines}
use remote_console.Prelude.Map.{put, get}
use remote_console.Nodes.Info.{NodeConsoleInfo, ssh}
use remote_console.Nodes.Registry.{NodeMap}
use remote_console.Logs.Config.{default_log_config}
use remote_console.Logs.AggLog.{AggIo, AggLog}
use remote_console.Logs.AggLog.Open
use remote_console.Logs.AggLog.Open.{
  Operation, ensure, reopen, no_log, operate_all, IsPaired, Reach-IsPaired,
}
use remote_console.Logs.AggLog.{TailEvent, ensure_agg_log, watch_console_log_file}
use remote_console.Logs.AggLog.Watched.{printed_to, lines_of, ends, watch_console_log_file_prints}
use remote_console.Logs.Tails.Exact.{aggregate_all, aggregate_all_kept}
use remote_console.Logs.Tails.{Tails, aggregate_files, no_tails}
use remote_console.Logs.Tails.Live
use remote_console.Logs.Tails.Live.{live}
use remote_console.Logs.Rotation.{
  Civil, console, aggregation, panicked, parse_timestamp, scan_timestamp,
}
use remote_console.Logs.Rotation.Parse.{parse_timestamp-panicked_iff}
use remote_console.Logs.Rotation.Stamps.{Entries, entries, time_of}
use remote_console.Logs.RotateConf.{
  ConfFile, header, line, update_log_rotate_conf, returned, config_entry,
}
use remote_console.Logs.RotateConf.Complete.{agg_entries, node_entries}
use remote_console.Logs.Service.{LogsService, Rotate, log_rotate, stamps_of}
use remote_console.Logs.Service.Reports.{log_rotate_iff}

abbrev node : Str → NodeConsoleInfo
node id = record {
  id = id;
  connection_type = ssh;
  connection_host = str "bmc";
  connection_port = pos 22;
  console_entry_command = [];
}

abbrev first : NodeMap
first = (str "x0", some (node (str "x0"))) ∷ (str "x1", some (node (str "x1"))) ∷ []

abbrev second : NodeMap
second = (str "x1", some (node (str "x1"))) ∷ []

abbrev logs_path : Str
logs_path = str "/var/log/conman"

abbrev tailed : Tails
tailed = aggregate_files no_tails logs_path first

tailed-Reach : Live.Reach logs_path tailed
tailed-Reach = Live.Reach.later Live.Reach.start first

aggregate_all_kept_example :
    live
      (aggregate_all logs_path tailed (second ∷ first ∷ [])).canceled
      (str "x1")
      (aggregate_all logs_path tailed (second ∷ first ∷ [])).watchers
    ≡ 1 ∷ []
unfolding aggregate_files get put ◌==◌
aggregate_all_kept_example =
    aggregate_all_kept logs_path tailed-Reach (second ∷ first ∷ []) (str "x1") 1 (refl, (refl, tt))
      refl

abbrev pub agg_io : ℕ → AggIo
agg_io handle = record {
  hostname = ok (str "host");
  mkdir_all = λ path. none;
  open_file = λ path. ok handle;
}

abbrev opened : AggLog
opened = operate_all (str "/tmp/consoleAgg") (no_log []) (ensure (agg_io 3) ∷ [])

-- A line, one that cannot be read, another line, and the end of the context.
abbrev events : List TailEvent
events =
    TailEvent.line (str "now") (ok (str "boot"))
    ∷ TailEvent.line (str "now") (err Error.eof)
    ∷ TailEvent.line (str "now") (ok (str "login"))
    ∷ TailEvent.done
    ∷ []

watch_console_log_file_prints_example : watch_console_log_file opened none (str "x1") events ≡ (
  record opened { printed = printed_to 3 (lines_of (str "x1") events) ++ opened.printed },
  ends events,
)
unfolding ensure_agg_log
watch_console_log_file_prints_example =
    watch_console_log_file_prints opened 3 (str "x1") events refl

opened_Reach : Open.Reach (str "/tmp/consoleAgg") opened
opened_Reach =
    Open.Reach.later (Open.Reach.start []) (ensure (agg_io 3)) (λ name calf h. ((λ i. i), λ e. cc))

Reach-IsPaired_example : IsPaired opened
Reach-IsPaired_example = Reach-IsPaired opened_Reach

abbrev seconds : Civil → ℤ
seconds civil = civil.sec

abbrev agg_file : Str
agg_file = str "/tmp/agg.log"

parse_timestamp-panicked_iff_example :
    (parse_timestamp seconds logs_path agg_file (agg_file ++ newline ∷ []) ≡ panicked) ↔ (
      (index (agg_file ++ newline ∷ []) (join logs_path (str "console.")) ≡ none)
      × (agg_file ≢ [])
      × (p : ℕ) × (index (agg_file ++ newline ∷ []) agg_file ≡ some p)
      × (length agg_file < length agg_file + p + 1))
parse_timestamp-panicked_iff_example =
    parse_timestamp-panicked_iff seconds logs_path agg_file agg_file

-- Such a line does make it panic.
parse_timestamp_runs :
    parse_timestamp seconds logs_path agg_file (agg_file ++ newline ∷ []) ≡ panicked
unfolding parse_timestamp join clean ◌==◌ index
parse_timestamp_runs = refl

abbrev state : Str → Str
state sec =
    str "v2"
    ++ newline
      ∷ (str "\"/l/console.x0\" 2024-1-2-3:4:"
          ++ (sec ++ newline ∷ (str "\"/tmp/agg.log\" 2024-1-2-3:4:9" ++ newline ∷ [])))

abbrev rotation : Rotate
rotation = record {
  date = seconds;
  before = ok (state (str "5"));
  after = ok (state (str "6"));
  agg_io = agg_io 4;
}

abbrev pub service : LogsService
service = record {
  config = default_log_config;
  agg_log = no_log agg_file;
  tails = no_tails;
  log_rotate_file_stamp = some [];
}

abbrev named : ℤ → Entries
named sec = (str "x0", (sec, console)) ∷ (str "consoleAgg.log", (pos 9, aggregation)) ∷ []

entries_runs : entries seconds (str "/l") agg_file (state (str "5")) ≡ some (named (pos 5))
unfolding parse_timestamp join clean ◌==◌ index complete_lines scan_timestamp
entries_runs = refl

entries_later_runs : entries seconds (str "/l") agg_file (state (str "6")) ≡ some (named (pos 6))
unfolding parse_timestamp join clean ◌==◌ index complete_lines scan_timestamp
entries_later_runs = refl

log_rotate_iff_example :
    (t : LogsService) × (flag : Bool) × (log_rotate service (str "/l") rotation ≡ some (t, flag))
    × ((flag ≡ true) ↔ (
        (name : Str) × (fd : ℤ) × In (name, (fd, console)) (named (pos 6))
        × (time_of (get (named (pos 5)) name) (get (stamps_of service.log_rotate_file_stamp) name)
            ≢ some fd)))
unfolding get ◌==◌
log_rotate_iff_example =
    log_rotate_iff service (str "/l") rotation (state (str "5")) (state (str "6")) (named (pos 5))
      (named (pos 6)) refl refl refl entries_runs entries_later_runs (refl, (refl, tt))
      (refl, (refl, tt))

abbrev pub conf_file : ConfFile
conf_file = record {
  create = λ path. none;
  write = λ content text. (content ++ text, none);
  close = none;
}

abbrev written : Str
written =
    line header []
    ++ (agg_entries default_log_config agg_file
        ++ (node_entries default_log_config logs_path first ++ b'\n' ∷ []))

written_runs :
    update_log_rotate_conf conf_file default_log_config logs_path first agg_file []
    ≡ returned written none
unfolding update_log_rotate_conf ◌==◌ clean join dir config_entry itoa
written_runs = refl
