-- ===== src/Conman/Process/Stuck.antt =====
-- What a launch that fails leaves behind.
use remote_console.Prelude.{ℕ, ◌≡◌, Option, none, some, Error, arith}
use remote_console.Conman.Process.{
  Signal, ConmanService, Launch, not_nil_error, execute_conman, panicked, signal_conman,
}

-- The command is set and has no process.
abbrev pub IsStuck : ConmanService → Type 0
IsStuck cs = cs.command ≡ some (record { process = none })

pub execute_conman-IsStuck :
    (cs : ConmanService) (launch : Launch)
    → IsStuck cs
    → execute_conman cs launch ≡ (cs, some not_nil_error)
unfolding execute_conman
execute_conman-IsStuck cs launch h = ground arith

pub signal_conman-IsStuck :
    (cs : ConmanService) (kill : ℕ → Signal → Option Error) (sig : Signal)
    → IsStuck cs
    → signal_conman cs kill sig ≡ panicked
unfolding signal_conman
signal_conman-IsStuck cs kill sig h = ground (arith, h)

pub execute_conman_failed :
    (cs : ConmanService) (launch : Launch) (e : Error)
    → cs.command ≡ none
    → (execute_conman cs launch).1 ≡ some e
    → IsStuck (execute_conman cs launch).0
unfolding execute_conman
execute_conman_failed cs launch e h failed = ground arith
