-- ===== src/Console/Tail/Script/Complete.antt =====
-- What the client of a tail session that does not follow has got when its close frame is written.
use mathlib.Core.List.{append_assoc, append-nil}
use Prim.Native.Nat.{◌-◌}
use remote_console.Prelude.{
  Bool, ℕ, ◌≡◌, ◌<◌, refl, ap, sym, ◌∙◌, true, false, none, List, [], ◌∷◌, ◌++◌, ok, arith, length,
  drop,
}
use remote_console.Prelude.Text.{Str}
use remote_console.Console.LastLines.{scan_lines, read_last_n_lines}
use remote_console.Console.LastLines.Last.{read_last_n_lines-drop}
use remote_console.Console.WebSocket.{running, pump_close, close_frame, close_normal_closure}
use remote_console.Console.WebSocket.Delivered.{messages_of}
use remote_console.Console.Tail.Running
use remote_console.Console.Tail.Running.{Running, opening, ended, history, left, phase_of, line_if}
use remote_console.Console.Tail.Received.{texts, closed_in_order}
use remote_console.Console.Tail.Script.Normal.{
  IsNormal, close_with_reason-IsNormal, history_turn-IsNormal, wait_for_client_close-IsNormal,
  wait_for_client_close-closed, PumpStep-IsNormal, new_console_tail_session-IsNormal,
}
use remote_console.Console.Tail.Script.{
  Script, Play, sends, closes, client, pumped, Played, start, later,
}

record IsKept (node_id : Str) (lines : List Str) (s : Script) : Type 0 where
  reached : Running.Reach node_id s.running
  kept : s.running.phase ≡ opening → lines ≡ s.running.lines ++ s.rest
  whole : s.complete ≡ true → lines ≡ s.running.lines
  open_normal : s.running.phase ≡ opening → IsNormal s.running.cts
  normal : s.complete ≡ true → IsNormal s.running.cts
  shut : s.complete ≡ true → s.running.cts.closed_once ≡ true

sent_kept :
    {lines : List Str} (before : List Str) (text : Str) (rest : List Str) (goes_on : Bool)
    → lines ≡ before ++ text ∷ rest
    → phase_of opening goes_on ≡ opening
    → lines ≡ (before ++ line_if text goes_on) ++ rest
sent_kept before text rest true h p = h ∙ sym (append_assoc before (text ∷ []) rest)
sent_kept before text rest false h p = absurd (cc)

Play-IsKept :
    {node_id : Str} {lines : List Str} {s t : Script}
    → IsKept node_id lines s
    → Play s t
    → IsKept node_id lines t
Play-IsKept {s = s} k (sends text rest io p e room) = record {
  reached = Running.Reach.later k.reached (history text io p room);
  kept = sent_kept s.running.lines text rest _ (k.kept p ∙ rw e refl);
  whole = λ c. absurd (cc);
  open_normal = history_turn-IsNormal s.running.cts text io (k.open_normal p);
  normal = λ c. absurd (cc);
  shut = λ c. absurd (cc);
}
Play-IsKept {s = s} k (closes p e) =
    let (shut, normal) = close_with_reason-IsNormal s.running.cts (k.open_normal p) in
    record {
      reached = Running.Reach.later k.reached (left _ [] p);
      kept = λ h. absurd (cc);
      whole = λ c. k.kept p ∙ rw e (append-nil s.running.lines);
      open_normal = λ h. absurd (cc);
      normal = λ c. normal;
      shut = λ c. shut;
    }
Play-IsKept {s = s} k (client error w) = record {
  reached = Running.Reach.later k.reached (Running.client error w);
  kept = k.kept;
  whole = k.whole;
  open_normal = λ h. wait_for_client_close-IsNormal s.running.cts error (k.open_normal h);
  normal = λ c. wait_for_client_close-IsNormal s.running.cts error (k.normal c);
  shut = λ c. wait_for_client_close-closed s.running.cts error (k.shut c);
}
Play-IsKept {s = s} k (pumped ws step) = record {
  reached = Running.Reach.later k.reached (Running.pumped ws step);
  kept = k.kept;
  whole = k.whole;
  open_normal = λ h. PumpStep-IsNormal s.running.cts ws step (k.open_normal h);
  normal = λ c. PumpStep-IsNormal s.running.cts ws step (k.normal c);
  shut = k.shut;
}

Played-IsKept :
    {node_id : Str} {lines : List Str} {s : Script}
    → Played node_id lines s
    → IsKept node_id lines s
Played-IsKept {node_id} start = record {
  reached = Running.Reach.start;
  kept = λ h. refl;
  whole = λ c. absurd (cc);
  open_normal = λ h. new_console_tail_session-IsNormal node_id;
  normal = λ c. absurd (cc);
  shut = λ c. absurd (cc);
}
Played-IsKept (later p s) = Play-IsKept (Played-IsKept p) s

-- In every interleaving of a tail session with its client and writePump, when it sends what
-- readLastNLines gave for n, at least 1, and a log without a line that is too long, and does not
-- follow: once the session was closed behind its history, and writePump has drained the channel, the
-- messages before the close frame that writePump writes then are exactly the log's last n lines, all
-- if there are fewer, each with its newline and in their order, and the close frame has the code of a
-- normal closure and no text.
pub script_complete :
    {node_id : Str} (content : Str) (lines given : List Str) (n position : ℕ) {s : Script}
    → 0 < n
    → scan_lines content ≡ ok lines
    → read_last_n_lines (ok content) n ≡ ok (given, position)
    → Played node_id given s
    → s.complete ≡ true
    → s.running.cts.ws.pump ≡ running
    → s.running.cts.ws.canceled ≡ true
    → s.running.cts.ws.send ≡ []
    → (messages_of (pump_close s.running.cts.ws none).frames
        ≡ texts (drop (length lines - n) lines))
      × ((pump_close s.running.cts.ws none).frames
          ≡ s.running.cts.ws.frames ++ close_frame close_normal_closure [] ∷ [])
script_complete content lines given n position {s} h scanned read played c p canceled drained =
    let k = Played-IsKept played in
    let last : given ≡ drop (length lines - n) lines =
      ground (arith, read, read_last_n_lines-drop content lines n h scanned) in
    let (delivered, closed) = closed_in_order k.reached p canceled drained in
    let normal = k.normal c in
    (
      delivered ∙ ap texts (sym (k.whole c) ∙ last),
      rw⁻¹ (normal.code (k.shut c), normal.reason (k.shut c)) closed,
    )
