-- ===== src/Logs/Rotation.antt =====
-- internal/logs/rotation.go: the state file of logrotate, and what a run of logrotate changed.
pub mod Parse
pub mod Stamps
use remote_console.Prelude.{
  ℕ, ◌+◌, ◌≡◌, refl, Bool, true, false, ◌&&◌, ◌||◌, not, Option, none, some, List, [], ◌∷◌, ◌++◌,
  Result, ok, err, Error, if◌then◌else◌, length, drop, take, leb,
}
use remote_console.Prelude.Text.{Str, str, ◌==◌}
use remote_console.Prelude.Int.{ℤ, int_eq}
use remote_console.Prelude.Strings.{index}
use remote_console.Prelude.Lines.{complete_lines}
use remote_console.Prelude.Filepath.{join}
use remote_console.Prelude.Sscanf.{scan_int, scan_char}
use remote_console.Prelude.Map.{Map, get, put}

pub record Civil : Type 0 where
  pub year : ℤ
  pub month : ℤ
  pub day : ℤ
  pub hour : ℤ
  pub min : ℤ
  pub sec : ℤ

-- The literal that separates a number from the next.
abbrev after_char : ℕ → Option (ℤ × Str) → Option (ℤ × Str)
after_char c none = none
after_char c (some (i, s)) = elim (scan_char c s) [ none ↦ none | some rest ↦ some (i, rest) ]

abbrev with_sec : ℤ → ℤ → ℤ → ℤ → ℤ → Option (ℤ × Str) → Option Civil
with_sec year month day hour min none = none
with_sec year month day hour min (some (sec, s)) =
    some (record { year = year; month = month; day = day; hour = hour; min = min; sec = sec })

abbrev with_min : ℤ → ℤ → ℤ → ℤ → Option (ℤ × Str) → Option Civil
with_min year month day hour none = none
with_min year month day hour (some (min, s)) = with_sec year month day hour min (scan_int s)

abbrev with_hour : ℤ → ℤ → ℤ → Option (ℤ × Str) → Option Civil
with_hour year month day none = none
with_hour year month day (some (hour, s)) =
    with_min year month day hour (after_char b':' (scan_int s))

abbrev with_day : ℤ → ℤ → Option (ℤ × Str) → Option Civil
with_day year month none = none
with_day year month (some (day, s)) = with_hour year month day (after_char b':' (scan_int s))

abbrev with_month : ℤ → Option (ℤ × Str) → Option Civil
with_month year none = none
with_month year (some (month, s)) = with_day year month (after_char b'-' (scan_int s))

abbrev with_year : Option (ℤ × Str) → Option Civil
with_year none = none
with_year (some (year, s)) = with_month year (after_char b'-' (scan_int s))

-- fmt.Sscanf with "%d-%d-%d-%d:%d:%d"
unfoldable pub scan_timestamp : Str → Option Civil
unfolding scan_int scan_char
scan_timestamp s = with_year (after_char b'-' (scan_int s))

pub data Source : Type 0 where
  console aggregation : Source

-- A line is passed over, holds the time of a file, or indexes out of range.
pub data Parsed : Type 0 where
  skipped : Parsed
  stamped : Str → ℤ → Source → Parsed
  panicked : Parsed

abbrev pub agg_name : Str
agg_name = str "consoleAgg.log"

-- `date` is time.Date in the local zone, the instant as a number of seconds.
module _ (date : Civil → ℤ) where
  abbrev dated : Str → Source → Option Civil → Parsed
  dated name source none = skipped
  dated name source (some civil) = stamped name (date civil) source

  -- line[start:]
  abbrev sliced : Str → Source → Str → ℕ → Parsed
  sliced name source line start =
      if leb start (length line)
      then dated name source (scan_timestamp (drop start line))
      else panicked

  abbrev console_line : Str → ℕ → Option ℕ → Parsed
  console_line line node_st_pos none = skipped
  console_line line node_st_pos (some n) =
      sliced (take n (drop node_st_pos line)) console line (n + node_st_pos + 2)

  abbrev agg_line : Str → Str → Option ℕ → Parsed
  agg_line con_agg_log_file line none = skipped
  agg_line con_agg_log_file line (some p) =
      sliced agg_name aggregation line (length con_agg_log_file + p + 2)

  abbrev not_console : Str → Str → Parsed
  not_console con_agg_log_file line =
      if con_agg_log_file == []
      then skipped
      else agg_line con_agg_log_file line (index line con_agg_log_file)

  abbrev at_prefix : Str → Str → Str → Option ℕ → Parsed
  at_prefix file_prefix con_agg_log_file line none = not_console con_agg_log_file line
  at_prefix file_prefix con_agg_log_file line (some p) =
      let node_st_pos = p + length file_prefix in
      console_line line node_st_pos (index (drop node_st_pos line) (str "\""))

  unfoldable pub parse_timestamp : Str → Str → Str → Parsed
  unfolding scan_timestamp join index
  parse_timestamp console_logs_path con_agg_log_file line =
      let file_prefix = join console_logs_path (str "console.") in
      at_prefix file_prefix con_agg_log_file line (index line file_prefix)

-- The stamps, and whether a console log or the aggregation log changed.
pub record Reading : Type 0 where
  pub file_stamp : Map ℤ
  pub con_changed : Bool
  pub agg_changed : Bool

abbrev changed : Reading → Str → ℤ → Source → Reading
changed r name fd console = record r { file_stamp = put r.file_stamp name fd; con_changed = true }
changed r name fd aggregation = record r {
  file_stamp = put r.file_stamp name fd;
  agg_changed = true;
}

abbrev pub is_stamp : Option ℤ → ℤ → Bool
is_stamp none fd = false
is_stamp (some old) fd = int_eq old fd

unfoldable pub stamp : Reading → Str → ℤ → Source → Reading
stamp r name fd source = if is_stamp (get r.file_stamp name) fd then r else changed r name fd source

abbrev pub unread : Map ℤ → Reading
unread file_stamp = record { file_stamp = file_stamp; con_changed = false; agg_changed = false }

module _ (date : Civil → ℤ) where
  -- The loop over the lines; `none` is a panic.
  unfoldable pub read_lines : Str → Str → List Str → Reading → Option Reading
  read_lines console_logs_path con_agg_log_file [] r = some r
  read_lines console_logs_path con_agg_log_file (line ∷ lines) r =
      elim (parse_timestamp date console_logs_path con_agg_log_file line) [
        | skipped ↦ read_lines console_logs_path con_agg_log_file lines r
        | stamped name fd source ↦
            read_lines console_logs_path con_agg_log_file lines (stamp r name fd source)
        | panicked ↦ none
      ]

  -- The first line, the version, is read and dropped.
  abbrev pub behind_version : Str → Str → List Str → Reading → Option Reading
  behind_version console_logs_path con_agg_log_file [] r = some r
  behind_version console_logs_path con_agg_log_file (version ∷ lines) r =
      read_lines console_logs_path con_agg_log_file lines r

  -- `state` is what opening the state file finds. A read error is not told from its end.
  unfoldable pub read_log_rot_timestamps : Result Str → Str → Str → Map ℤ → Option Reading
  read_log_rot_timestamps (err e) console_logs_path con_agg_log_file file_stamp =
      some (unread file_stamp)
  read_log_rot_timestamps (ok content) console_logs_path con_agg_log_file file_stamp =
      behind_version console_logs_path con_agg_log_file (complete_lines content) (unread file_stamp)
