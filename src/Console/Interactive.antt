-- ===== src/Console/Interactive.antt =====
-- internal/console/interactive.go: an interactive session: its conman process behind a pty, its web
-- socket, and the turns of its goroutines. A handle stands for the *os.File of a pty.
pub mod Closed
pub mod Raced
pub mod Retry
use remote_console.Prelude.{
  ℕ, ◌≡◌, refl, Bool, true, false, ◌||◌, Option, none, some, List, [], ◌∷◌, ◌++◌, Result, ok, err,
  Error, if◌then◌else◌, nat_eq, ltb,
}
use remote_console.Prelude.Text.{Str, str}
use remote_console.Prelude.Errors.{is_eintr}
use remote_console.Nodes.Registry.{NodesState, is_current_node}
use remote_console.Console.WebSocket.{
  WebSocketSession, SessionCloseReason, session_close_normal, session_close_error, enqueue,
}
use remote_console.Console.WebSocket

-- `canceled` says that the session's context is done. `process` is cmd.Process, nil before the first
-- command and in one that did not start. `opened` are the ptys of the processes that were started,
-- `closed` those that Close was called on, `typed` what was written to a pty and `signaled` the
-- processes that were sent SIGTERM, the last first.
pub record InteractiveSession : Type 0 where
  pub node_id : Str
  pub canceled : Bool
  pub process : Option ℕ
  pub ptmx : Option ℕ
  pub process_exited : Bool
  pub opened : List ℕ
  pub closed : List ℕ
  pub typed : List (ℕ × Str)
  pub signaled : List ℕ
  pub ws : WebSocketSession

abbrev disconnect : InteractiveSession → Option ℕ → InteractiveSession
disconnect s none = s
disconnect s (some ptmx) = record s { typed = (ptmx, str "&.") ∷ s.typed }

abbrev terminate : InteractiveSession → Option ℕ → InteractiveSession
terminate s none = s
terminate s (some pid) = record s { signaled = pid ∷ s.signaled }

abbrev close_pty : InteractiveSession → Option ℕ → InteractiveSession
close_pty s none = s
close_pty s (some ptmx) = record s { closed = ptmx ∷ s.closed; ptmx = none }

abbrev close_socket : InteractiveSession → SessionCloseReason → Str → InteractiveSession
close_socket s reason message = record s { ws = WebSocket.close s.ws reason message }

abbrev cancel : InteractiveSession → InteractiveSession
cancel s = record s { canceled = true }

-- The errors of the escape sequence, the signal and Close are only logged.
unfoldable pub close_with_reason :
    InteractiveSession → SessionCloseReason → Str → InteractiveSession
close_with_reason s reason message =
    let disconnected = disconnect (cancel s) s.ptmx in
    close_socket (close_pty (terminate disconnected s.process) s.ptmx) reason message

-- The process and its pty that pty.Start started.
pub record Started : Type 0 where
  pub pid : ℕ
  pub pty : ℕ

-- startConmanProcess behind its look at the context. The goroutine that waits is started with the
-- new channel.
unfoldable pub start_process :
    InteractiveSession → Result Started → InteractiveSession × Option Error
start_process s (err e) =
    (record s { process = none }, some (Error.wrap (str "failed to start conman with PTY: ") e))
start_process s (ok started) = (
  record s {
    process = some started.pid;
    ptmx = some started.pty;
    process_exited = false;
    opened = started.pty ∷ s.opened;
  },
  none,
)

abbrev session_closing : Error
session_closing = Error.wrap (str "session closing, cannot start conman process: ") Error.canceled

unfoldable pub start_conman_process :
    InteractiveSession → Result Started → InteractiveSession × Option Error
unfolding start_process
start_conman_process s start =
    if s.canceled then (s, some session_closing) else start_process s start

-- The web socket's Write, with what it returns.
abbrev ws_write : InteractiveSession → ℕ → Str → Option Error → InteractiveSession
ws_write s message_type data_bytes (some e) = s
ws_write s message_type data_bytes none = record s {
  ws = enqueue s.ws (record { message_type = message_type; data_bytes = data_bytes });
}

abbrev pub text_message : ℕ
text_message = 1

abbrev pub binary_message : ℕ
binary_message = 2

-- The old pty is closed and kept in its place.
abbrev close_old_pty : InteractiveSession → Option ℕ → InteractiveSession
close_old_pty s none = s
close_old_pty s (some ptmx) = record s { closed = ptmx ∷ s.closed }

abbrev reconnect_message : InteractiveSession → Str
reconnect_message s = str "\n[Reconnecting to " ++ (s.node_id ++ str "...]\n")

abbrev restarted : InteractiveSession → Result Started → InteractiveSession
restarted s start = (start_conman_process (close_old_pty s s.ptmx) start).0

unfoldable pub reconnect : InteractiveSession → Option Error → Result Started → InteractiveSession
unfolding close_with_reason start_conman_process
reconnect s (some e) start = close_with_reason s session_close_error (str "websocket write failed")
reconnect s none start = restarted (ws_write s text_message (reconnect_message s) none) start

-- A turn of monitorProcess behind its delay, and whether it goes on.
unfoldable pub monitor_process :
    InteractiveSession → NodesState → Option Error → Result Started → InteractiveSession × Bool
unfolding close_with_reason reconnect
monitor_process s nodes write start =
    if s.canceled
    then (s, false)
    else if is_current_node nodes s.node_id
    then (reconnect s write start, true)
    else (close_with_reason s session_close_normal (str "node no longer exists"), false)

-- What the session reads from its client: an error, unexpected or not, or a message.
pub data Read : Type 0 where
  failed : Bool → Read
  received : ℕ → Str → Read

abbrev input_written : InteractiveSession → ℕ → Str → Option Error → InteractiveSession × Bool
input_written s ptmx message none = (record s { typed = (ptmx, message) ∷ s.typed }, true)
input_written s ptmx message (some e) =
    (close_with_reason s session_close_error (str "failed to write to console"), false)

abbrev to_pty : InteractiveSession → Str → Option Error → Option ℕ → InteractiveSession × Bool
to_pty s message write none = (s, true)
to_pty s message write (some ptmx) = input_written s ptmx message write

abbrev handle_read : InteractiveSession → Read → Option Error → InteractiveSession × Bool
handle_read s (failed true) write =
    (close_with_reason s session_close_error (str "websocket read failed"), false)
handle_read s (failed false) write = (close_with_reason s session_close_normal [], false)
handle_read s (received message_type message) write =
    if nat_eq message_type text_message || nat_eq message_type binary_message
    then to_pty s message write s.ptmx
    else (s, true)

-- A turn of streamInput, and whether it goes on; `write` is the error of the write to the pty.
unfoldable pub stream_input : InteractiveSession → Read → Option Error → InteractiveSession × Bool
unfolding close_with_reason
stream_input s read write =
    if s.canceled || s.ws.canceled then (s, false) else handle_read s read write

-- What streamOutput finds at its pty: an error while it waits or reads, nothing yet, or bytes.
pub data Output : Type 0 where
  unreadable : Output
  not_ready : Output
  read_bytes : Str → Output

abbrev forward : InteractiveSession → Str → Option Error → InteractiveSession × Bool
forward s [] write = (s, true)
forward s (c ∷ bytes) (some e) = (s, false)
forward s (c ∷ bytes) none = (ws_write s binary_message (c ∷ bytes) none, true)

abbrev from_pty : InteractiveSession → Output → Option Error → Option ℕ → InteractiveSession × Bool
from_pty s output write none = (s, false)
from_pty s unreadable write (some ptmx) = (s, false)
from_pty s not_ready write (some ptmx) = (s, true)
from_pty s (read_bytes bytes) write (some ptmx) = forward s bytes write

-- A turn of streamOutput, and whether it goes on.
unfoldable pub stream_output :
    InteractiveSession → Output → Option Error → InteractiveSession × Bool
stream_output s output write =
    if s.canceled || s.ws.canceled then (s, false) else from_pty s output write s.ptmx

-- What unix.Select returns tells whether the pty is readable.
unfoldable pub wait_for_pty_readable : Result ℕ → Result Bool
unfolding is_eintr
wait_for_pty_readable (ok n) = ok (ltb 0 n)
wait_for_pty_readable (err e) = if is_eintr e then ok false else err e

abbrev read_output : Result Str → Output
read_output (ok bytes) = read_bytes bytes
read_output (err e) = unreadable

abbrev when_ready : Result Str → Result Bool → Output
when_ready read (err e) = unreadable
when_ready read (ok false) = not_ready
when_ready read (ok true) = read_output read

-- The wait of streamOutput with the Read behind it.
unfoldable pub pty_output : Result ℕ → Result Str → Output
unfolding wait_for_pty_readable
pty_output select read = when_ready read (wait_for_pty_readable select)

-- Start up to its goroutines: `false` if it returns. A failed message is only logged.
unfoldable pub start_session :
    InteractiveSession → Result Started → Option Error → InteractiveSession × Bool
unfolding close_with_reason start_conman_process
start_session s started write =
    let (t, error) = start_conman_process s started in
    elim error [
      | none ↦ (t, true)
      | some e ↦ (
        close_with_reason
            (ws_write t text_message (str "Error: Failed to start conman with PTY") write)
            session_close_error (str "failed to connect to console"),
        false,
      )
    ]
