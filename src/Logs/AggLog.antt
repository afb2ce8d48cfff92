-- ===== src/Logs/AggLog.antt =====
-- internal/logs/aggregation.go: the aggregation log file, kept under conAggMutex. Handles stand for
-- *os.File; the system's files are the parameter AggIo.
pub mod Open
pub mod Watched
use remote_console.Prelude.{
  ℕ, ◌≡◌, refl, Bool, true, false, Option, none, some, List, [], ◌∷◌, ◌++◌, Result, ok, err, Error,
  if◌then◌else◌, nat_eq,
}
use remote_console.Prelude.Text.{Str, str, ◌==◌}
use remote_console.Prelude.Filepath.{dir}

-- os.Hostname, os.MkdirAll, and os.OpenFile to append, with the handle.
pub record AggIo : Type 0 where
  pub hostname : Result Str
  pub mkdir_all : Str → Option Error
  pub open_file : Str → Result ℕ

-- `closed` are the handles that were closed, and `printed` what was printed to each, last first.
pub record AggLog : Type 0 where
  pub con_agg_logger : Option ℕ
  pub con_agg_log_file : Str
  pub con_agg_file : Option ℕ
  pub closed : List ℕ
  pub printed : List (ℕ × Str)

abbrev hostname_of : Result Str → Str
hostname_of (ok hostname) = hostname
hostname_of (err e) = str "unknown"

unfoldable pub agg_log_file : Str → Result Str → Str
agg_log_file agg_logs_path hostname =
    agg_logs_path ++ (str "/consoleAgg-" ++ (hostname_of hostname ++ str ".log"))

abbrev name_file : AggLog → Str → AggIo → AggLog
name_file s agg_logs_path io =
    if s.con_agg_log_file == []
    then record s { con_agg_log_file = agg_log_file agg_logs_path io.hostname }
    else s

abbrev pub starting : Str
starting = str "Starting aggregation log"

abbrev opened : AggLog → Result ℕ → AggLog
opened s (err e) = s
opened s (ok calf) = record s {
  con_agg_file = some calf;
  con_agg_logger = some calf;
  printed = (calf, starting) ∷ s.printed;
}

abbrev in_dir : AggLog → AggIo → Option Error → AggLog
in_dir s io (some e) = s
in_dir s io none = opened s (io.open_file s.con_agg_log_file)

abbrev open_named : AggLog → AggIo → AggLog
open_named s io = in_dir s io (io.mkdir_all (dir s.con_agg_log_file))

unfoldable pub open_agg_log_locked : AggLog → Str → AggIo → AggLog
unfolding agg_log_file
open_agg_log_locked s agg_logs_path io = open_named (name_file s agg_logs_path io) io

unfoldable pub ensure_agg_log : AggLog → Str → AggIo → AggLog
unfolding open_agg_log_locked
ensure_agg_log s agg_logs_path io =
    let opened_log = open_agg_log_locked s agg_logs_path io in
    elim s.con_agg_logger [ some logger ↦ s | none ↦ opened_log ]

-- Close, whether or not it fails, leaves the handle unusable.
abbrev close_file : AggLog → Option ℕ → AggLog
close_file s none = s
close_file s (some calf) = record s { con_agg_file = none; closed = calf ∷ s.closed }

abbrev without_logger : AggLog → AggLog
without_logger s = record s { con_agg_logger = none }

unfoldable pub reopen_agg_log : AggLog → Str → AggIo → AggLog
unfolding open_agg_log_locked
reopen_agg_log s agg_logs_path io =
    open_agg_log_locked (without_logger (close_file s s.con_agg_file)) agg_logs_path io

abbrev pub log_line : Str → Str → Str → Str
log_line timestamp xname line = timestamp ++ (str " [" ++ (xname ++ (str "] " ++ line)))

-- `timestamp` is the formatted time of the call.
unfoldable pub write_to_agg_log : AggLog → Str → Str → Str → AggLog
write_to_agg_log s timestamp xname line = elim s.con_agg_logger [
  | none ↦ s
  | some logger ↦ record s { printed = (logger, log_line timestamp xname line) ∷ s.printed }
]

-- What the loop of watchConsoleLogFile is woken by: a canceled context, the closed channel of
-- lines, or a line with its time.
pub data TailEvent : Type 0 where
  done : TailEvent
  closed_lines : TailEvent
  line : Str → Result Str → TailEvent

-- The loop, and whether it has returned.
unfoldable pub watch_lines : AggLog → Str → List TailEvent → AggLog × Bool
unfolding write_to_agg_log
watch_lines s xname [] = (s, false)
watch_lines s xname (done ∷ events) = (s, true)
watch_lines s xname (closed_lines ∷ events) = (s, true)
watch_lines s xname (line timestamp (err e) ∷ events) = watch_lines s xname events
watch_lines s xname (line timestamp (ok text) ∷ events) =
    watch_lines (write_to_agg_log s timestamp xname text) xname events

unfoldable pub watch_console_log_file : AggLog → Option Error → Str → List TailEvent → AggLog × Bool
unfolding watch_lines
watch_console_log_file s (some e) xname events = (s, true)
watch_console_log_file s none xname events = watch_lines s xname events
