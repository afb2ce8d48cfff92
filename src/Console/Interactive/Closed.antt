-- ===== src/Console/Interactive/Closed.antt =====
-- The goroutines of a session by turns: no pty is left open when it is closed.
use remote_console.Prelude.{
  ℕ, ◌≡◌, ◌⊎◌, inl, inr, true, false, Option, none, some, [], Result, ok, err, Error, In, arith,
  Bool-cases,
}
use remote_console.Prelude.Text.{Str, str}
use remote_console.Nodes.Registry.{NodesState, is_current_node}
use remote_console.Console.WebSocket
use remote_console.Console.WebSocket.{
  SessionCloseReason, session_close_error, session_close_normal, WebSocketSession,
  new_web_socket_session,
}
use remote_console.Console.Interactive.{
  InteractiveSession, close_with_reason, Started, start_process, start_conman_process, reconnect,
  monitor_process, Read, failed, received, stream_input, Output, stream_output, start_session,
}

abbrev pub new_session : Str → InteractiveSession
new_session node_id = record {
  node_id = node_id;
  canceled = false;
  process = none;
  ptmx = none;
  process_exited = false;
  opened = [];
  closed = [];
  typed = [];
  signaled = [];
  ws = new_web_socket_session;
}

-- The start, then turns of the goroutines, each as a whole, and calls of close.
pub data Reach (node_id : Str) : InteractiveSession → Type 0 where
  began :
      (started : Result Started) (write : Option Error)
      → Reach node_id (start_session (new_session node_id) started write).0
  monitored :
      {s : InteractiveSession}
      → Reach node_id s
      → (nodes : NodesState) (write : Option Error) (started : Result Started)
      → Reach node_id (monitor_process s nodes write started).0
  input :
      {s : InteractiveSession}
      → Reach node_id s
      → (read : Read) (write : Option Error) → Reach node_id (stream_input s read write).0
  output :
      {s : InteractiveSession}
      → Reach node_id s
      → (out : Output) (write : Option Error) → Reach node_id (stream_output s out write).0
  closing :
      {s : InteractiveSession}
      → Reach node_id s
      → (reason : SessionCloseReason) (message : Str)
      → Reach node_id (close_with_reason s reason message)

-- A pty that was opened is closed, or the session holds it.
abbrev IsTracked : InteractiveSession → Type 0
IsTracked s = (pty : ℕ) → In pty s.opened → (In pty s.closed) ⊎ (s.ptmx ≡ some pty)

close_with_reason-IsTracked :
    (s : InteractiveSession) (reason : SessionCloseReason) (message : Str)
    → IsTracked s
    → IsTracked (close_with_reason s reason message)
unfolding close_with_reason
close_with_reason-IsTracked s reason message t pty i = ground (arith, t pty)

reconnect-IsTracked :
    (s : InteractiveSession) (write : Option Error) (started : Result Started)
    → IsTracked s
    → IsTracked (reconnect s write started)
unfolding reconnect start_conman_process start_process
reconnect-IsTracked s (some e) started t pty i =
    close_with_reason-IsTracked s session_close_error (str "websocket write failed") t pty i
reconnect-IsTracked s none (err e) t pty i = ground (arith, t pty)
reconnect-IsTracked s none (ok started) t pty i = ground (arith, t pty)

monitor_process-IsTracked :
    (s : InteractiveSession) (nodes : NodesState) (write : Option Error) (started : Result Started)
    → IsTracked s
    → IsTracked (monitor_process s nodes write started).0
unfolding monitor_process
monitor_process-IsTracked s nodes write started t = elim (Bool-cases s.canceled) [
  | inl closed ↦ simp closed t
  | inr alive ↦ elim (Bool-cases (is_current_node nodes s.node_id)) [
    | inl current ↦ simp (alive, current) (reconnect-IsTracked s write started t)
    | inr gone ↦
        simp (alive, gone)
          (close_with_reason-IsTracked s session_close_normal (str "node no longer exists") t)
  ]
]

stream_input-IsTracked :
    (s : InteractiveSession) (read : Read) (write : Option Error)
    → IsTracked s
    → IsTracked (stream_input s read write).0
unfolding stream_input close_with_reason
stream_input-IsTracked s (failed unexpected) write t pty i = ground (arith, t pty)
stream_input-IsTracked s (received message_type message) write t pty i = ground (arith, t pty)

stream_output-IsTracked :
    (s : InteractiveSession) (out : Output) (write : Option Error)
    → IsTracked s
    → IsTracked (stream_output s out write).0
unfolding stream_output
stream_output-IsTracked s out write t pty i = ground (arith, t pty)

start_session-IsTracked :
    (node_id : Str) (started : Result Started) (write : Option Error)
    → IsTracked (start_session (new_session node_id) started write).0
unfolding start_session start_conman_process start_process close_with_reason
start_session-IsTracked node_id (err e) write pty i = ground arith
start_session-IsTracked node_id (ok started) write pty i = ground arith

Reach-IsTracked : {node_id : Str} {s : InteractiveSession} → Reach node_id s → IsTracked s
Reach-IsTracked (began started write) = start_session-IsTracked _ started write
Reach-IsTracked (monitored r nodes write started) =
    monitor_process-IsTracked _ nodes write started (Reach-IsTracked r)
Reach-IsTracked (input r read write) = stream_input-IsTracked _ read write (Reach-IsTracked r)
Reach-IsTracked (output r out write) = stream_output-IsTracked _ out write (Reach-IsTracked r)
Reach-IsTracked (closing r reason message) =
    close_with_reason-IsTracked _ reason message (Reach-IsTracked r)

-- After a start and any turns of the goroutines, none of which overlap, a close leaves no pty open
-- that the session ever opened, has signaled the process that it had, and has canceled the session
-- and its web socket.
pub close_with_reason-closes :
    {node_id : Str} {s : InteractiveSession}
    → Reach node_id s
    → (reason : SessionCloseReason) (message : Str)
    → ((pty : ℕ)
        → In pty (close_with_reason s reason message).opened
        → In pty (close_with_reason s reason message).closed)
      × ((pid : ℕ) → s.process ≡ some pid → In pid (close_with_reason s reason message).signaled)
      × ((close_with_reason s reason message).canceled ≡ true)
      × ((close_with_reason s reason message).ws.canceled ≡ true)
unfolding close_with_reason WebSocket.close
close_with_reason-closes {s = s} r reason message = (
  λ pty i. ground (arith, Reach-IsTracked r pty),
  λ pid h. ground (arith, h),
  ground arith,
  ground arith,
)
