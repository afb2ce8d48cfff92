-- ===== src/Console/Tail/History.antt =====
-- The history that a tail session sends, and where its stream starts.
use Prim.Native.Nat.{suc, ◌+◌, ◌-◌}
use remote_console.Prelude.{
  ℕ, ◌≡◌, refl, Bool, true, false, none, some, List, [], ◌∷◌, ok, if◌then◌else◌, length, drop, map,
  arith, ltb, ◌≢◌,
}
use remote_console.Prelude.Text.{Str}
use remote_console.Prelude.Int.{pos}
use remote_console.Console.LastLines.{scan_lines, read_last_n_lines}
use remote_console.Console.LastLines.Last.{read_last_n_lines-drop}
use remote_console.Console.WebSocket.{session_close_normal}
use remote_console.Console.Tail.{closed, streaming, Sending, line_text, send_history, tail_console}

-- No line meets a done context or a failed write.
abbrev pub IsSmooth : (ℕ → Sending) → Type 0
IsSmooth io = (i : ℕ) → ((io i).done ≡ false) × ((io i).write ≡ none)

send_history-smooth :
    (io : ℕ → Sending) (i : ℕ) (lines : List Str)
    → IsSmooth io
    → send_history io i lines ≡ (map line_text lines, streaming)
unfolding send_history
send_history-smooth io i [] h = refl
send_history-smooth io i (line ∷ lines) h =
    rw ((h i).0, (h i).1, send_history-smooth io (i + 1) lines h) refl

positive : (content : Str) → content ≢ [] → ltb 0 (length content) ≡ true
positive [] full = absurd (full refl)
positive (c ∷ s) full = ground arith

-- A session that asks for the last n lines, n at least 1, of a log that is not empty and has no line
-- too long, and is neither canceled nor cut, sends these lines; then it is closed, or, when it
-- follows, the tail starts at the end of what was read.
pub tail_console-last :
    (content : Str) (lines : List Str) (n : ℕ) (io : ℕ → Sending) (follow : Bool)
    → scan_lines content ≡ ok lines
    → content ≢ []
    → IsSmooth io
    → tail_console (read_last_n_lines (ok content)) io none follow (pos (suc n)) ≡ (
      map line_text (drop (length lines - suc n) lines),
      if follow
          then (
            streaming,
            some (record { follow = true; re_open = true; location = some (length content) }),
          )
          else (closed session_close_normal [], none),
    )
unfolding tail_console
tail_console-last content lines n io true scanned full smooth =
    rw
      (
        read_last_n_lines-drop content lines (suc n) (omega arith) scanned,
        send_history-smooth io 0 (drop (length lines - suc n) lines) smooth,
        positive content full,
      )
      refl
tail_console-last content lines n io false scanned full smooth =
    rw
      (
        read_last_n_lines-drop content lines (suc n) (omega arith) scanned,
        send_history-smooth io 0 (drop (length lines - suc n) lines) smooth,
      )
      refl
