-- ===== src/Conman/Zombies.antt =====
-- internal/conman/zombies.go: finding zombie processes in the output of `ps -eo pid,stat`, and waiting
-- for them.
pub mod Found
use remote_console.Prelude.{Option, none, some, List, [], ◌∷◌, Error, if◌then◌else◌}
use remote_console.Prelude.Text.{Str, str, ◌==◌}
use remote_console.Prelude.Int.{ℤ}
use remote_console.Prelude.Strings.{fields, atoi}
use remote_console.Prelude.Lines.{complete_lines}

abbrev pid_of_columns : List Str → Option ℤ
pid_of_columns [] = none
pid_of_columns (pid ∷ []) = none
pid_of_columns (pid ∷ stat ∷ rest) = if stat == str "Z" then atoi pid else none

unfoldable pub zombie_pid : Str → Option ℤ
zombie_pid line = pid_of_columns (fields line)

abbrev add_zombie : Option ℤ → List ℤ → List ℤ
add_zombie none zombies = zombies
add_zombie (some pid) zombies = pid ∷ zombies

unfoldable pub zombies_of : List Str → List ℤ
unfolding zombie_pid
zombies_of [] = []
zombies_of (line ∷ lines) = add_zombie (zombie_pid line) (zombies_of lines)

-- `out` is what ps wrote.
unfoldable pub find_zombies : Str → List ℤ
unfolding zombies_of complete_lines
find_zombies out = zombies_of (complete_lines out)

-- os.FindProcess, and Wait on what it found.
pub record ProcessIo : Type 0 where
  pub find_process : ℤ → Option Error
  pub wait : ℤ → Option Error

pub data Killed : Type 0 where
  not_attached not_waited cleaned_up : Killed

abbrev waited : Option Error → Killed
waited none = cleaned_up
waited (some e) = not_waited

abbrev attached : ProcessIo → ℤ → Option Error → Killed
attached io pid (some e) = not_attached
attached io pid none = waited (io.wait pid)

unfoldable pub kill_zombie : ProcessIo → ℤ → Killed
kill_zombie io pid = attached io pid (io.find_process pid)

unfoldable pub kill_all : ProcessIo → List ℤ → List (ℤ × Killed)
unfolding kill_zombie
kill_all io [] = []
kill_all io (zombie ∷ zombies) = (zombie, kill_zombie io zombie) ∷ kill_all io zombies

-- A turn of WatchForZombies, with what becomes of each zombie.
unfoldable pub watch_for_zombies : ProcessIo → Str → List (ℤ × Killed)
unfolding find_zombies kill_all
watch_for_zombies io out = kill_all io (find_zombies out)
