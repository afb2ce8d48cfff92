-- ===== src/Console/Tail/Script.antt =====
-- internal/console/tail.go: a tail session that sends the lines that readLastNLines gave and does not
-- follow, while its client and writePump take their turns.
pub mod Complete
pub mod Normal
use remote_console.Prelude.{
  ℕ, ◌≡◌, Bool, true, false, Option, none, some, List, [], ◌∷◌, ◌++◌, Error,
}
use remote_console.Prelude.Text.{Str}
use remote_console.Console.WebSocket.{WebSocketSession, session_close_normal}
use remote_console.Console.Tail.{Sending}
use remote_console.Console.Tail.Session.{
  new_console_tail_session, close_with_reason, wait_for_client_close, history_turn,
}
use remote_console.Console.Tail.Running.{
  Running, opening, ended, PumpStep, HasRoom, phase_of, line_if,
}

-- `rest` are the lines that are not sent yet; `complete` says that the loop is through and the session
-- was closed behind it.
pub record Script : Type 0 where
  pub running : Running
  pub rest : List Str
  pub complete : Bool

abbrev pub script_of : Str → List Str → Script
script_of node_id history = record {
  running = record {
    cts = new_console_tail_session node_id;
    phase = opening;
    waiting = true;
    late = false;
    lines = [];
  };
  rest = history;
  complete = false;
}

pub data Play (s : Script) : Script → Type 0 where
  sends :
      (text : Str) (rest : List Str) (io : Sending)
      → s.running.phase ≡ opening
      → s.rest ≡ text ∷ rest
      → HasRoom s.running.cts.ws io.write
      → Play s (record {
        running = record s.running {
          cts = (history_turn s.running.cts text io).0;
          phase = phase_of opening (history_turn s.running.cts text io).1;
          lines = s.running.lines ++ line_if text (history_turn s.running.cts text io).1;
        };
        rest = rest;
        complete = false;
      })
  closes :
      s.running.phase ≡ opening
      → s.rest ≡ []
      → Play s (record {
        running = record s.running {
          cts = close_with_reason s.running.cts session_close_normal [];
          phase = ended;
        };
        rest = [];
        complete = true;
      })
  client :
      (error : Option Error)
      → s.running.waiting ≡ true
      → Play s (record s {
        running = record s.running {
          cts = (wait_for_client_close s.running.cts error).0;
          waiting = (wait_for_client_close s.running.cts error).1;
        };
      })
  pumped :
      (ws : WebSocketSession)
      → PumpStep s.running.cts.ws ws
      → Play s (record s { running = record s.running { cts = record s.running.cts { ws = ws } } })

pub data Played (node_id : Str) (history : List Str) : Script → Type 0 where
  start : Played node_id history (script_of node_id history)
  later : {s t : Script} → Played node_id history s → Play s t → Played node_id history t
