-- ===== src/Console/Tail/Received.antt =====
-- What the client of a tail session receives: the session drives its web socket as
-- Console/WebSocket/Delivered takes it.
use remote_console.Prelude.{
  true, ◌≡◌, ◌≤◌, refl, ap, ◌<◌, Option, none, some, List, [], ◌∷◌, ◌++◌, ok, err, arith, length,
  Bool-cases, Option-cases, inl, inr,
}
use remote_console.Prelude.Text.{Str, str}
use remote_console.Console.WebSocket.{
  WebSockMessage, SessionCloseReason, session_close_normal, session_close_canceled,
  session_close_error, WebSocketSession, send_capacity, write, enqueue, running, close_frame,
  pump_close,
}
use remote_console.Console.WebSocket.Delivered.{
  Traffic, sending, closing, IsFifo, messages_of, Reach-IsFifo, pump_close-delivers,
}
use remote_console.Console.WebSocket.Delivered
use remote_console.Console.Tail.{
  StreamEvent, done, web_socket_done, lines_closed, line, Sending, line_text,
}
use remote_console.Console.Tail.Session.{
  ConsoleTailSession, new_console_tail_session, close_with_reason, wait_for_client_close,
  stream_turn, history_turn, start_tail, stop_tail,
}
use remote_console.Console.Tail.Running.{
  Running, PumpStep, taken, ticked, drained, HasRoom, EventHasRoom, Step, history, left, started,
  streamed, client, pumped, Reach, start, later, line_if, line_of,
}

abbrev pub message_of : Str → WebSockMessage
message_of text = record { message_type = 1; data_bytes = line_text text }

abbrev pub texts : List Str → List WebSockMessage
texts [] = []
texts (text ∷ lines) = message_of text ∷ texts lines

abbrev traffic : ConsoleTailSession → List Str → Traffic
traffic cts lines = record { ws = cts.ws; accepted = texts lines }

texts-append : (a b : List Str) → texts (a ++ b) ≡ texts a ++ texts b
texts-append [] b = refl
texts-append (text ∷ a) b = ap (λ ms. message_of text ∷ ms) (texts-append a b)

append-empty : (lines : List Str) → lines ++ [] ≡ lines
append-empty [] = refl
append-empty (text ∷ lines) = ap (λ xs. text ∷ xs) (append-empty lines)

Drives : ConsoleTailSession → List Str → Type 0
Drives cts lines = Delivered.Reach (traffic cts lines)

close_with_reason-Drives :
    (cts : ConsoleTailSession) (lines : List Str) (reason : SessionCloseReason) (message : Str)
    → Drives cts lines
    → Drives (close_with_reason cts reason message) lines
unfolding close_with_reason Drives
close_with_reason-Drives cts lines reason message d = elim (Bool-cases cts.closed_once) [
  | inl c ↦ rw c d
  | inr c ↦ elim (Option-cases cts.tail) [
    | inl e ↦ rw (c, e) (Delivered.Reach.later d (closing reason message))
    | inr (tail, e) ↦ rw (c, e) (Delivered.Reach.later d (closing reason message))
  ]
]

sent-Drives :
    (cts : ConsoleTailSession) (lines : List Str) (text : Str)
    → length cts.ws.send < send_capacity
    → Drives cts lines
    → Drives (record cts { ws = enqueue cts.ws (message_of text) }) (lines ++ text ∷ [])
unfolding write Drives
sent-Drives cts lines text room d =
    rw (texts-append lines (text ∷ [])) (Delivered.Reach.later d (sending (message_of text) room))

history_turn-Drives :
    (cts : ConsoleTailSession) (lines : List Str) (text : Str) (io : Sending)
    → HasRoom cts.ws io.write
    → Drives cts lines
    → Drives (history_turn cts text io).0 (lines ++ line_if text (history_turn cts text io).1)
unfolding history_turn
history_turn-Drives cts lines text io room d = elim (Bool-cases io.done) [
  | inl over ↦
      rw (over, append-empty lines)
        (close_with_reason-Drives cts lines session_close_canceled (str "session ended") d)
  | inr going ↦ elim (Option-cases io.write) [
    | inl fine ↦ rw (going, fine) (sent-Drives cts lines text (ground (arith, fine, room)) d)
    | inr (e, failed) ↦
        rw (going, failed, append-empty lines)
          (close_with_reason-Drives cts lines session_close_error (str "error sending console log")
            d)
  ]
]

stop_tail-Drives :
    (cts : ConsoleTailSession) (lines : List Str) (tail : Option _)
    → Drives cts lines
    → Drives (stop_tail cts tail) lines
unfolding Drives
stop_tail-Drives cts lines none d = d
stop_tail-Drives cts lines (some tail) d = d

stream_turn-Drives :
    (cts : ConsoleTailSession) (lines : List Str) (event : StreamEvent)
    → EventHasRoom cts.ws event
    → Drives cts lines
    → Drives (stream_turn cts event).0 (lines ++ line_of event)
unfolding stream_turn
stream_turn-Drives cts lines done room d =
    rw (append-empty lines)
      (close_with_reason-Drives cts lines session_close_canceled (str "session ended") d)
stream_turn-Drives cts lines web_socket_done room d = rw (append-empty lines) d
stream_turn-Drives cts lines lines_closed room d =
    rw (append-empty lines) (close_with_reason-Drives cts lines session_close_normal [] d)
stream_turn-Drives cts lines (line text none) room d = sent-Drives cts lines text room d
stream_turn-Drives cts lines (line text (some e)) room d = rw (append-empty lines) (
    stop_tail-Drives (close_with_reason cts session_close_error (str "error sending console log"))
      lines _
      (close_with_reason-Drives cts lines session_close_error (str "error sending console log") d))

PumpStep-Drives :
    (cts : ConsoleTailSession) (lines : List Str) (ws : WebSocketSession)
    → PumpStep cts.ws ws
    → Drives cts lines
    → Drives (record cts { ws = ws }) lines
unfolding Drives
PumpStep-Drives cts lines _ (taken m rest error p h) d =
    Delivered.Reach.later d (Delivered.pumped m rest error p h)
PumpStep-Drives cts lines _ (ticked error p) d = Delivered.Reach.later d (Delivered.pinged error p)
PumpStep-Drives cts lines _ (drained error p c h) d =
    Delivered.Reach.later d (Delivered.ended error p c h)

Step-Drives : {r s : Running} → Step r s → Drives r.cts r.lines → Drives s.cts s.lines
unfolding start_tail wait_for_client_close
Step-Drives {r} (history text io p room) d = history_turn-Drives r.cts r.lines text io room d
Step-Drives {r} (left reason message p) d = close_with_reason-Drives r.cts r.lines reason message d
Step-Drives {r} (started (ok tail) p) d = unfold Drives in d
Step-Drives {r} (started (err e) p) d =
    close_with_reason-Drives r.cts r.lines session_close_error
      (str "error starting console tail session") d
Step-Drives {r} (streamed event p room) d = stream_turn-Drives r.cts r.lines event room d
Step-Drives {r} (client none w) d = d
Step-Drives {r} (client (some e) w) d =
    close_with_reason-Drives r.cts r.lines session_close_normal [] d
Step-Drives {r} (pumped ws step) d = PumpStep-Drives r.cts r.lines ws step d

Reach-Drives : {node_id : Str} {r : Running} → Reach node_id r → Drives r.cts r.lines
unfolding Drives new_console_tail_session
Reach-Drives start = Delivered.Reach.start
Reach-Drives (later r s) = Step-Drives s (Reach-Drives r)

-- In every interleaving of a tail session's goroutines and the goroutine that writes its web socket,
-- where Write succeeds only while the channel has room, the lines of the history and of the stream
-- that were sent without an error are, each with its newline and in their order, the messages that
-- were written to the client, then at most one that was lost at a failed write, then those that wait.
pub received_in_order :
    {node_id : Str} {r : Running}
    → Reach node_id r
    → (lost : List WebSockMessage) × (texts r.lines
        ≡ messages_of r.cts.ws.frames ++ (lost ++ r.cts.ws.send))
      × (length lost ≤ 1)
unfolding Drives
received_in_order r =
    let (lost, fifo) = Reach-IsFifo (Reach-Drives r) in (lost, fifo.in_order, fifo.few)

-- The close frame that writePump writes behind the drained channel comes after all lines.
pub closed_in_order :
    {node_id : Str} {r : Running}
    → Reach node_id r
    → r.cts.ws.pump ≡ running
    → r.cts.ws.canceled ≡ true
    → r.cts.ws.send ≡ []
    → (messages_of (pump_close r.cts.ws none).frames ≡ texts r.lines)
      × ((pump_close r.cts.ws none).frames
          ≡ r.cts.ws.frames ++ close_frame r.cts.ws.close_code r.cts.ws.close_reason ∷ [])
unfolding Drives
closed_in_order r p c e = pump_close-delivers (Reach-Drives r) p c e
