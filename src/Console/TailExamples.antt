-- ===== src/Console/TailExamples.antt =====
-- A tail session of one line, and the theorems about tail sessions at it.
use remote_console.Prelude.{
  List, ◌++◌, ◌≡◌, refl, ◌≤◌, ◌<◌, ◌*◌, ◌+◌, true, false, none, some, [], ◌∷◌, ok, Error, inl,
  length, arith,
}
use remote_console.Prelude.Text.{str, ◌==◌}
use remote_console.Console.LastLines.{scan_lines, read_last_n_lines}
use remote_console.Console.Tail.{Sending, line, web_socket_done, line_text}
use remote_console.Console.Tail.Session.{
  kilobytes, rate_limit_burst_kb, new_console_tail_session, close_with_reason, start_tail,
  stream_turn, wait_for_client_close, history_turn,
}
use remote_console.Console.Tail.Running
use remote_console.Console.Tail.Running.{opening, ended, Running, started, streamed, client, taken}
use remote_console.Console.WebSocket.{
  WebSockMessage, session_close_normal, enqueue, close_frame, close_normal_closure, pump_message,
  pump_close,
}
use remote_console.Console.WebSocket.Delivered.{messages_of}
use remote_console.Console.Tail.Received.{texts, message_of, received_in_order}
use remote_console.Console.Tail.Leaked.{late_tail_leaked}
use remote_console.Console.Tail.Script
use remote_console.Console.Tail.Script.{Script, script_of, Played}
use remote_console.Console.Tail.Script.Complete.{script_complete}
use remote_console.Console.Tail.Bounds.{kilobytes-read_last_n_lines}

abbrev fresh : Running
fresh = record {
  cts = new_console_tail_session (str "x0");
  phase = opening;
  waiting = true;
  late = false;
  lines = [];
}

-- The tail is started, one line is sent, and the client closes.
abbrev streaming : Running
streaming = record fresh { cts = (start_tail fresh.cts (ok 5)).0; phase = Running.streaming }

abbrev one_line : Running
one_line = record streaming {
  cts = (stream_turn streaming.cts (line (str "boot") none)).0;
  lines = str "boot" ∷ [];
}

abbrev left : Running
left = record one_line {
  cts = (wait_for_client_close one_line.cts (some Error.eof)).0;
  waiting = false;
}

left-Reach : Running.Reach (str "x0") left
unfolding start_tail stream_turn wait_for_client_close new_console_tail_session
left-Reach =
    Running.Reach.later
      (Running.Reach.later (Running.Reach.later Running.Reach.start (started (ok 5) refl))
        (streamed (line (str "boot") none) refl (omega arith)))
      (client (some Error.eof) refl)

received_in_order_example :
    (lost : List WebSockMessage) × (texts left.lines
      ≡ messages_of left.cts.ws.frames ++ (lost ++ left.cts.ws.send))
    × (length lost ≤ 1)
received_in_order_example = received_in_order left-Reach

-- The client closes before the tail is started.
abbrev early : Running
early = record fresh { cts = (wait_for_client_close fresh.cts (some Error.eof)).0; waiting = false }

early-Reach : Running.Reach (str "x0") early
unfolding wait_for_client_close
early-Reach = Running.Reach.later Running.Reach.start (client (some Error.eof) refl)

early-closed : early.cts.closed_once ≡ true
unfolding wait_for_client_close close_with_reason new_console_tail_session
early-closed = refl

late_tail_leaked_example :
    let (cts, goes_on) = stream_turn (start_tail early.cts (ok 5)).0 web_socket_done in
    (goes_on ≡ false) × (cts.tail ≡ some 5) × (cts.stopped ≡ []) × (early.waiting ≡ false)
late_tail_leaked_example = late_tail_leaked early-Reach 5 refl early-closed

read : read_last_n_lines (ok (str "boot\nlogin")) 1 ≡ ok (str "login" ∷ [], 10)
unfolding read_last_n_lines ◌==◌
read = refl

kilobytes-read_last_n_lines_example :
    let kb = kilobytes (length (line_text (str "login"))) in
    (1 ≤ kb)
    × (kb * 10 ≤ rate_limit_burst_kb)
    × (length (line_text (str "login")) ≤ kb * 1024)
    × (kb * 1024 < length (line_text (str "login")) + 1024)
kilobytes-read_last_n_lines_example =
    kilobytes-read_last_n_lines (str "boot\nlogin") 1 10 (str "login" ∷ []) (str "login")
      (omega arith) read (inl refl)

-- The session sends its line and closes, and writePump writes it.
abbrev begun : Script
begun = script_of (str "x0") (str "login" ∷ [])

abbrev smooth : Sending
smooth = record { done = false; write = none }

abbrev one_sent : Script
one_sent = record {
  running = record begun.running {
    cts = (history_turn begun.running.cts (str "login") smooth).0;
    phase = opening;
    lines = str "login" ∷ [];
  };
  rest = [];
  complete = false;
}

abbrev through : Script
through = record {
  running = record one_sent.running {
    cts = close_with_reason one_sent.running.cts session_close_normal [];
    phase = ended;
  };
  rest = [];
  complete = true;
}

abbrev flushed : Script
flushed = record through {
  running = record through.running {
    cts = record through.running.cts { ws = pump_message through.running.cts.ws none };
  };
}

flushed-Played : Played (str "x0") (str "login" ∷ []) flushed
unfolding history_turn close_with_reason new_console_tail_session pump_message enqueue
flushed-Played =
    Script.later
      (Script.later
        (Script.later Script.start (Script.sends (str "login") [] smooth refl refl (omega arith)))
        (Script.closes refl refl))
      (Script.pumped _ (taken (message_of (str "login")) [] none refl refl))

scanned : scan_lines (str "boot\nlogin") ≡ ok (str "boot" ∷ str "login" ∷ [])
unfolding scan_lines ◌==◌
scanned = refl

script_complete_example :
    (messages_of (pump_close flushed.running.cts.ws none).frames ≡ texts (str "login" ∷ []))
    × ((pump_close flushed.running.cts.ws none).frames
        ≡ flushed.running.cts.ws.frames ++ close_frame close_normal_closure [] ∷ [])
unfolding history_turn close_with_reason new_console_tail_session pump_message enqueue
script_complete_example =
    script_complete (str "boot\nlogin") (str "boot" ∷ str "login" ∷ []) (str "login" ∷ []) 1 10
      (omega arith) scanned read flushed-Played refl refl refl refl
