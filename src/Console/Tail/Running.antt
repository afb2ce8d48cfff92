-- ===== src/Console/Tail/Running.antt =====
-- A tail session in any interleaving of its goroutines.
use remote_console.Prelude.{
  ℕ, ◌≡◌, ◌<◌, Bool, true, false, Option, none, some, List, [], ◌∷◌, ◌++◌, Result, Error, length,
}
use remote_console.Prelude.Text.{Str}
use remote_console.Console.WebSocket.{
  SessionCloseReason, WebSockMessage, WebSocketSession, running, send_capacity, pump_message,
  pump_ping, pump_close,
}
use remote_console.Console.Tail.{StreamEvent, line, Sending}
use remote_console.Console.Tail.Session.{
  ConsoleTailSession, new_console_tail_session, close_with_reason, wait_for_client_close,
  stream_turn, history_turn, start_tail,
}

-- Where the handler's goroutine stands.
pub data Phase : Type 0 where
  opening streaming ended : Phase

-- `waiting` says that waitForClientClose runs, `late` that the session was closed already when its
-- tail was started; `lines` are those for which Write returned without an error, the first first.
pub record Running : Type 0 where
  pub cts : ConsoleTailSession
  pub phase : Phase
  pub waiting : Bool
  pub late : Bool
  pub lines : List Str

abbrev pub phase_of : Phase → Bool → Phase
phase_of phase true = phase
phase_of phase false = ended

abbrev pub line_if : Str → Bool → List Str
line_if text true = text ∷ []
line_if text false = []

abbrev pub line_of : StreamEvent → List Str
line_of (line text none) = text ∷ []
line_of _ = []

-- Write returns without an error only when the channel has room.
abbrev pub HasRoom : WebSocketSession → Option Error → Type 0
HasRoom ws none = length ws.send < send_capacity
HasRoom ws (some e) = Unit

abbrev pub EventHasRoom : WebSocketSession → StreamEvent → Type 0
EventHasRoom ws (line text error) = HasRoom ws error
EventHasRoom ws _ = Unit

-- A turn of writePump.
pub data PumpStep (ws : WebSocketSession) : WebSocketSession → Type 0 where
  taken :
      (m : WebSockMessage) (rest : List WebSockMessage) (error : Option Error)
      → ws.pump ≡ running
      → ws.send ≡ m ∷ rest
      → PumpStep ws (pump_message ws error)
  ticked : (error : Option Error) → ws.pump ≡ running → PumpStep ws (pump_ping ws error)
  drained :
      (error : Option Error)
      → ws.pump ≡ running
      → ws.canceled ≡ true
      → ws.send ≡ []
      → PumpStep ws (pump_close ws error)

pub data Step (r : Running) : Running → Type 0 where
  history :
      (text : Str) (io : Sending)
      → r.phase ≡ opening
      → HasRoom r.cts.ws io.write
      → Step r (record r {
        cts = (history_turn r.cts text io).0;
        phase = phase_of opening (history_turn r.cts text io).1;
        lines = r.lines ++ line_if text (history_turn r.cts text io).1;
      })
  left :
      (reason : SessionCloseReason) (message : Str)
      → r.phase ≡ opening
      → Step r (record r { cts = close_with_reason r.cts reason message; phase = ended })
  started :
      (tail_file : Result ℕ)
      → r.phase ≡ opening
      → Step r (record r {
        cts = (start_tail r.cts tail_file).0;
        phase = phase_of streaming (start_tail r.cts tail_file).1;
        late = r.cts.closed_once;
      })
  streamed :
      (event : StreamEvent)
      → r.phase ≡ streaming
      → EventHasRoom r.cts.ws event
      → Step r (record r {
        cts = (stream_turn r.cts event).0;
        phase = phase_of streaming (stream_turn r.cts event).1;
        lines = r.lines ++ line_of event;
      })
  client :
      (error : Option Error)
      → r.waiting ≡ true
      → Step r (record r {
        cts = (wait_for_client_close r.cts error).0;
        waiting = (wait_for_client_close r.cts error).1;
      })
  pumped :
      (ws : WebSocketSession)
      → PumpStep r.cts.ws ws
      → Step r (record r { cts = record r.cts { ws = ws } })

pub data Reach (node_id : Str) : Running → Type 0 where
  start : Reach node_id (record {
    cts = new_console_tail_session node_id;
    phase = opening;
    waiting = true;
    late = false;
    lines = [];
  })
  later : {r s : Running} → Reach node_id r → Step r s → Reach node_id s
