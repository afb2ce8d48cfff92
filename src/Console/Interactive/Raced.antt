-- ===== src/Console/Interactive/Raced.antt =====
-- A close between the look at the context in startConmanProcess and the start of the process.
use remote_console.Prelude.{◌≡◌, refl, true, false, Option, some, ok, Error, Result, In, arith}
use remote_console.Prelude.Text.{Str}
use remote_console.Nodes.Registry.{NodesState}
use remote_console.Console.WebSocket.{SessionCloseReason}
use remote_console.Console.Interactive.{
  InteractiveSession, close_with_reason, Started, start_process, monitor_process,
}

-- The session when its process is started behind a close that came after the look at the context.
abbrev pub raced : InteractiveSession → SessionCloseReason → Str → Started → InteractiveSession
raced s reason message started = (start_process (close_with_reason s reason message) (ok started)).0

-- When a session is closed while startConmanProcess is past its look at the context, and the pty and
-- the process that it starts are new, the pty is open and the process not signaled although the
-- session is canceled, and monitorProcess ends without closing them.
pub start_process_raced :
    (s : InteractiveSession) (reason : SessionCloseReason) (message : Str) (started : Started)
    (nodes : NodesState) (write : Option Error) (next : Result Started)
    → (In started.pty s.closed → ⊥)
    → (s.ptmx ≡ some started.pty → ⊥)
    → (In started.pid s.signaled → ⊥)
    → (s.process ≡ some started.pid → ⊥)
    → let t = raced s reason message started in
      (t.canceled ≡ true)
      × (t.ptmx ≡ some started.pty)
      × (In started.pty t.closed → ⊥)
      × (In started.pid t.signaled → ⊥)
      × (monitor_process t nodes write next ≡ (t, false))
unfolding close_with_reason start_process monitor_process
start_process_raced s reason message started nodes write next a b c d =
    (ground arith, refl, ground (arith, a, b), ground (arith, c, d), ground arith)
