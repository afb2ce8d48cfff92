-- ===== src/Console/Tail/Session.antt =====
-- internal/console/tail.go: the tail session that the handler's goroutine and waitForClientClose
-- share, and the turns of the two. A handle stands for the *tail.Tail that TailFile returns.
use Prim.Native.Nat.{◌+◌, ◌/◌, ◌%◌, ◌^◌}
use remote_console.Prelude.{
  ℕ, Bool, true, false, Option, none, some, List, [], ◌∷◌, Result, ok, err, Error, if◌then◌else◌,
}
use remote_console.Prelude.Text.{Str, str}
use remote_console.Console.WebSocket.{
  WebSocketSession, SessionCloseReason, session_close_normal, session_close_canceled,
  session_close_error, new_web_socket_session, enqueue,
}
use remote_console.Console.WebSocket
use remote_console.Console.Tail.{
  StreamEvent, done, web_socket_done, lines_closed, line, Sending, line_text,
}

-- `closed_once` says that closeOnce is done; Stop was called on `stopped`, the last first.
pub record ConsoleTailSession : Type 0 where
  pub node_id : Str
  pub tail : Option ℕ
  pub closed_once : Bool
  pub stopped : List ℕ
  pub ws : WebSocketSession

unfoldable pub new_console_tail_session : Str → ConsoleTailSession
new_console_tail_session node_id = record {
  node_id = node_id;
  tail = none;
  closed_once = false;
  stopped = [];
  ws = new_web_socket_session;
}

abbrev pub stop_tail : ConsoleTailSession → Option ℕ → ConsoleTailSession
stop_tail cts none = cts
stop_tail cts (some tail) = record cts { stopped = tail ∷ cts.stopped }

abbrev close_first : ConsoleTailSession → SessionCloseReason → Str → ConsoleTailSession
close_first cts reason message =
    let t = stop_tail cts cts.tail in
    record t { closed_once = true; ws = WebSocket.close t.ws reason message }

-- The error of Stop is only logged.
unfoldable pub close_with_reason :
    ConsoleTailSession → SessionCloseReason → Str → ConsoleTailSession
unfolding WebSocket.close
close_with_reason cts reason message =
    if cts.closed_once then cts else close_first cts reason message

-- A turn of waitForClientClose, and whether it goes on; `error` is what Read returns. That the error
-- is one of an expected close decides only what is logged.
unfoldable pub wait_for_client_close : ConsoleTailSession → Option Error → ConsoleTailSession × Bool
unfolding close_with_reason
wait_for_client_close cts none = (cts, true)
wait_for_client_close cts (some e) = (close_with_reason cts session_close_normal [], false)

-- The kilobytes of n bytes, rounded up, in a uint16.
unfoldable pub kilobytes : ℕ → ℕ
kilobytes n = (n + 1023) / 1024 % 2 ^ 16

-- The size of the bucket in kilobytes.
abbrev pub rate_limit_burst_kb : ℕ
rate_limit_burst_kb = 10240

abbrev sent : ConsoleTailSession → Str → ConsoleTailSession
sent cts text = record cts {
  ws = enqueue cts.ws (record { message_type = 1; data_bytes = line_text text });
}

abbrev stream_line : ConsoleTailSession → Str → Option Error → ConsoleTailSession × Bool
stream_line cts text none = (sent cts text, true)
stream_line cts text (some e) =
    let closed = close_with_reason cts session_close_error (str "error sending console log") in
    (stop_tail closed closed.tail, false)

-- A turn of streamConsoleTail, and whether it goes on.
unfoldable pub stream_turn : ConsoleTailSession → StreamEvent → ConsoleTailSession × Bool
unfolding close_with_reason
stream_turn cts done = (close_with_reason cts session_close_canceled (str "session ended"), false)
stream_turn cts web_socket_done = (cts, false)
stream_turn cts lines_closed = (close_with_reason cts session_close_normal [], false)
stream_turn cts (line text error) = stream_line cts text error

-- A turn of the loop over the history, and whether it goes on.
unfoldable pub history_turn : ConsoleTailSession → Str → Sending → ConsoleTailSession × Bool
unfolding close_with_reason
history_turn cts text io =
    if io.done
    then (close_with_reason cts session_close_canceled (str "session ended"), false)
    else elim io.write [
      | some e ↦
          (close_with_reason cts session_close_error (str "error sending console log"), false)
      | none ↦ (sent cts text, true)
    ]

-- tailConsole behind the history: `tail_file` is what TailFile returns.
unfoldable pub start_tail : ConsoleTailSession → Result ℕ → ConsoleTailSession × Bool
unfolding close_with_reason
start_tail cts (err e) =
    (close_with_reason cts session_close_error (str "error starting console tail session"), false)
start_tail cts (ok tail) = (record cts { tail = some tail }, true)
