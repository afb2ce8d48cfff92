-- ===== src/Console/Interactive/Retry.antt =====
-- A client's input after a reconnection that failed.
use remote_console.Prelude.{ℕ, ◌≡◌, refl, true, false, none, some, err, Error, In, arith}
use remote_console.Prelude.Text.{Str, str}
use remote_console.Nodes.Registry.{NodesState, is_current_node}
use remote_console.Console.WebSocket.{session_close_error, enqueue}
use remote_console.Console.Interactive.{
  InteractiveSession, close_with_reason, start_process, start_conman_process, reconnect,
  monitor_process, received, text_message, stream_input,
}

module _ (s : InteractiveSession) (pty : ℕ) (p : s.ptmx ≡ some pty) (o : s.canceled ≡ false)
    (w : s.ws.canceled ≡ false) where
  input_failed :
      (text : Str) (closed : Error)
      → stream_input s (received text_message text) (some closed)
        ≡ (close_with_reason s session_close_error (str "failed to write to console"), false)
  unfolding stream_input
  input_failed text closed = rw (o, w, p) refl

  retried :
      (nodes : NodesState) (e : Error)
      → is_current_node nodes s.node_id ≡ true
      → let (t, goes_on) = monitor_process s nodes none (err e) in
        (goes_on ≡ true)
        × (t.canceled ≡ false)
        × (t.ws.canceled ≡ false)
        × (t.ptmx ≡ some pty)
        × In pty t.closed
  unfolding monitor_process reconnect start_conman_process start_process enqueue
  retried nodes e c = ground (arith, o, w, p, c)

-- When an open session's process has exited, its node is current and the new process cannot be
-- started, monitorProcess goes on and the session stays open, but with the old pty, closed, in its
-- place; so the next text of the client, whose write to the closed pty fails, closes the session.
pub monitor_process_retry_lost :
    (s : InteractiveSession) (nodes : NodesState) (pty : ℕ) (text : Str) (e closed : Error)
    → s.canceled ≡ false
    → s.ws.canceled ≡ false
    → s.ptmx ≡ some pty
    → is_current_node nodes s.node_id ≡ true
    → let (t, goes_on) = monitor_process s nodes none (err e) in
      (goes_on ≡ true)
      × (t.canceled ≡ false)
      × (t.ptmx ≡ some pty)
      × In pty t.closed
      × (stream_input t (received text_message text) (some closed)
          ≡ (close_with_reason t session_close_error (str "failed to write to console"), false))
monitor_process_retry_lost s nodes pty text e closed o w p c =
    let t = (monitor_process s nodes none (err e)).0 in
    let (on, going, unclosed, held, shut) = retried s pty p o w nodes e c in
    (on, going, held, shut, input_failed t pty held going unclosed text closed)
