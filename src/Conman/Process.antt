-- ===== src/Conman/Process.antt =====
-- internal/conman/conman.go: the conmand process and its signals. Other goroutines signal while
-- ExecuteConman runs, so it stands here in three parts: up to its new command, through Start, and after
-- Wait.
pub mod Stuck
pub mod Single
use remote_console.Prelude.{
  ℕ, ◌≡◌, Bool, Option, none, some, List, [], ◌∷◌, Result, ok, err, Error, map,
}
use remote_console.Prelude.Text.{Str, str}
use remote_console.Conman.Config.{ConmanConfig}

pub data Signal : Type 0 where
  sigterm sighup : Signal

-- exec.Cmd: `process` is nil until Start has succeeded.
pub record Command : Type 0 where
  pub process : Option ℕ

pub record ConmanService : Type 0 where
  pub config : ConmanConfig
  pub command : Option Command

unfoldable pub new_conman_service : ConmanConfig → ConmanService
new_conman_service config = record { config = config; command = none }

-- os/exec, as one launch sees it; a started process has a pid.
pub record Launch : Type 0 where
  pub stderr_pipe : Option Error
  pub stdout_pipe : Option Error
  pub start : Result ℕ

abbrev pub not_nil_error : Error
not_nil_error = Error.new (str "command not nil on entry to executeConman")

abbrev start_command : ConmanService → Result ℕ → ConmanService × Result ℕ
start_command cs (err e) = (cs, err (Error.wrap (str "unable to start command: ") e))
start_command cs (ok pid) = (record cs { command = some (record { process = some pid }) }, ok pid)

abbrev connect_stdout : ConmanService → Launch → Option Error → ConmanService × Result ℕ
connect_stdout cs launch (some e) =
    (cs, err (Error.wrap (str "unable to connect to conmand stdout pipe: ") e))
connect_stdout cs launch none = start_command cs launch.start

abbrev connect_stderr : ConmanService → Launch → Option Error → ConmanService × Result ℕ
connect_stderr cs launch (some e) =
    (cs, err (Error.wrap (str "unable to connect to conmand stderr pipe: ") e))
connect_stderr cs launch none = connect_stdout cs launch launch.stdout_pipe

-- ExecuteConman up to its new command, which has no process yet: the error that it returns.
unfoldable pub set_command : ConmanService → ConmanService × Option Error
set_command cs = elim cs.command [
  | some command ↦ (cs, some not_nil_error)
  | none ↦ (record cs { command = some (record { process = none }) }, none)
]

-- From there through the pipes and Start: the pid, or the error that it returns.
unfoldable pub start_conman : ConmanService → Launch → ConmanService × Result ℕ
start_conman cs launch = connect_stderr cs launch launch.stderr_pipe

abbrev with_command : Launch → ConmanService × Option Error → ConmanService × Result ℕ
with_command launch (cs, some e) = (cs, err e)
with_command launch (cs, none) = start_conman cs launch

-- Both, with nobody else in between.
unfoldable pub begin_conman : ConmanService → Launch → ConmanService × Result ℕ
unfolding set_command start_conman
begin_conman cs launch = with_command launch (set_command cs)

-- ExecuteConman after Wait, whether or not the process failed.
unfoldable pub end_conman : ConmanService → ConmanService
end_conman cs = record cs { command = none }

abbrev finish : ConmanService → Result ℕ → ConmanService × Option Error
finish cs (err e) = (cs, some e)
finish cs (ok pid) = (end_conman cs, none)

-- The whole call, with nobody else in between.
unfoldable pub execute_conman : ConmanService → Launch → ConmanService × Option Error
unfolding begin_conman end_conman
execute_conman cs launch = finish (begin_conman cs launch).0 (begin_conman cs launch).1

pub data Signaled : Type 0 where
  returned : Option Error → Signaled
  panicked : Signaled

abbrev pub signal_error : Signal → Option Error → Option Error
signal_error sig none = none
signal_error sigterm (some e) = some (Error.wrap (str "failed to signal conman with SIGTERM: ") e)
signal_error sighup (some e) = some (Error.wrap (str "failed to signal conman with SIGHUP: ") e)

-- A method of os.Process on a nil pointer panics.
abbrev signal_process : (ℕ → Signal → Option Error) → Signal → Option ℕ → Signaled
signal_process kill sig none = panicked
signal_process kill sig (some pid) = returned (signal_error sig (kill pid sig))

-- SignalConmanTERM and SignalConmanHUP; `kill` is the system's answer.
unfoldable pub signal_conman : ConmanService → (ℕ → Signal → Option Error) → Signal → Signaled
signal_conman cs kill sig = elim cs.command [
  | none ↦ returned none
  | some command ↦ signal_process kill sig command.process
]
