-- ===== src/Console/WebSocket.antt =====
-- internal/console/websocket.go: a session's outbound messages, its close frame, and the goroutine
-- that writes them.
pub mod Delivered
use remote_console.Prelude.{
  ℕ, ◌<◌, ◌≡◌, refl, Bool, true, false, Option, none, some, List, [], ◌∷◌, ◌++◌, Error,
  if◌then◌else◌, length,
}
use remote_console.Prelude.Text.{Str, str}

pub record WebSockMessage : Type 0 where
  pub message_type : ℕ
  pub data_bytes : Str

-- An int in the source; `other` stands for the values without a name.
pub data SessionCloseReason : Type 0 where
  session_close_normal session_close_canceled session_close_error other : SessionCloseReason

abbrev pub close_normal_closure : ℕ
close_normal_closure = 1000

abbrev pub close_going_away : ℕ
close_going_away = 1001

abbrev pub close_internal_server_err : ℕ
close_internal_server_err = 1011

unfoldable pub map_close_reason : SessionCloseReason → ℕ
map_close_reason session_close_normal = close_normal_closure
map_close_reason session_close_canceled = close_going_away
map_close_reason session_close_error = close_internal_server_err
map_close_reason other = close_going_away

-- What is written to the connection.
pub data Frame : Type 0 where
  message : WebSockMessage → Frame
  ping : Frame
  close_frame : ℕ → Str → Frame

-- writePump is in its loop, or has returned, after its close frame or after a failed write.
pub data Pump : Type 0 where
  running finished broken : Pump

-- `canceled` says that the session's context is done; `frames` went out, the first first.
pub record WebSocketSession : Type 0 where
  pub send : List WebSockMessage
  pub canceled : Bool
  pub close_code : ℕ
  pub close_reason : Str
  pub pump : Pump
  pub frames : List Frame

abbrev pub send_capacity : ℕ
send_capacity = 64

abbrev pub new_web_socket_session : WebSocketSession
new_web_socket_session = record {
  send = [];
  canceled = false;
  close_code = 0;
  close_reason = [];
  pump = running;
  frames = [];
}

-- The send of Write.
unfoldable pub enqueue : WebSocketSession → WebSockMessage → WebSocketSession
enqueue ws m = record ws { send = ws.send ++ m ∷ [] }

abbrev session_closed : Error
session_closed = Error.new (str "websocket session closed")

-- Write, with the choice of its select: the send, for which the channel must have room, or the end of
-- the session's context.
unfoldable pub write : WebSocketSession → WebSockMessage → Bool → WebSocketSession × Option Error
unfolding enqueue
write ws m true = (enqueue ws m, none)
write ws m false = (ws, some session_closed)

unfoldable pub close : WebSocketSession → SessionCloseReason → Str → WebSocketSession
unfolding map_close_reason
close ws reason text = record ws {
  close_code = map_close_reason reason;
  close_reason = text;
  canceled = true;
}

abbrev broken_off : WebSocketSession → List WebSockMessage → WebSocketSession
broken_off ws rest = record ws { send = rest; canceled = true; pump = broken }

abbrev written :
    WebSocketSession → WebSockMessage → List WebSockMessage → Option Error → WebSocketSession
written ws m rest none = record ws { send = rest; frames = ws.frames ++ message m ∷ [] }
written ws m rest (some e) = broken_off ws rest

-- writePump receives a message, in its loop or while it drains the channel; `error` is what the
-- write returns. A failed write while draining finds the context done already.
unfoldable pub pump_message : WebSocketSession → Option Error → WebSocketSession
pump_message ws error = elim ws.send [ [] ↦ ws | m ∷ rest ↦ written ws m rest error ]

unfoldable pub pump_ping : WebSocketSession → Option Error → WebSocketSession
pump_ping ws none = record ws { frames = ws.frames ++ ping ∷ [] }
pump_ping ws (some e) = record ws { canceled = true; pump = broken }

-- The default of the drain: the close frame. A failed write is only logged.
unfoldable pub pump_close : WebSocketSession → Option Error → WebSocketSession
pump_close ws none = record ws {
  pump = finished;
  frames = ws.frames ++ close_frame ws.close_code ws.close_reason ∷ [];
}
pump_close ws (some e) = record ws { pump = finished }
