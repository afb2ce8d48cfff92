-- ===== src/Logs/AggLog/Watched.antt =====
-- What the watcher of a console's log prints.
use remote_console.Prelude.{
  ℕ, ◌≡◌, refl, ap, sym, ◌∙◌, Bool, true, false, none, some, List, [], ◌∷◌, ◌++◌, ok, err, arith,
}
use mathlib.Core.List.{append_assoc}
use remote_console.Prelude.Text.{Str}
use remote_console.Logs.AggLog.{
  AggLog, TailEvent, done, closed_lines, line, log_line, write_to_agg_log, watch_lines,
  watch_console_log_file,
}

-- The readable lines in front of the end of the context or of the channel, the last first.
abbrev pub lines_of : Str → List TailEvent → List Str
lines_of xname [] = []
lines_of xname (done ∷ events) = []
lines_of xname (closed_lines ∷ events) = []
lines_of xname (line timestamp (err e) ∷ events) = lines_of xname events
lines_of xname (line timestamp (ok text) ∷ events) =
    lines_of xname events ++ log_line timestamp xname text ∷ []

abbrev pub ends : List TailEvent → Bool
ends [] = false
ends (done ∷ events) = true
ends (closed_lines ∷ events) = true
ends (line timestamp text ∷ events) = ends events

abbrev pub printed_to : ℕ → List Str → List (ℕ × Str)
printed_to logger [] = []
printed_to logger (text ∷ texts) = (logger, text) ∷ printed_to logger texts

printed_to-append :
    (logger : ℕ) (a b : List Str)
    → printed_to logger (a ++ b) ≡ printed_to logger a ++ printed_to logger b
printed_to-append logger [] b = refl
printed_to-append logger (text ∷ a) b =
    ap (λ ps. (logger, text) ∷ ps) (printed_to-append logger a b)

-- A watcher whose log could be tailed prints to an open aggregation log the readable lines that come
-- before the end of its context or of its channel, in their order, each with its time and its node,
-- and returns exactly at that end; nothing else of the log changes.
pub watch_console_log_file_prints :
    (s : AggLog) (logger : ℕ) (xname : Str) (events : List TailEvent)
    → s.con_agg_logger ≡ some logger
    → watch_console_log_file s none xname events
      ≡ (record s { printed = printed_to logger (lines_of xname events) ++ s.printed }, ends events)
unfolding watch_console_log_file watch_lines write_to_agg_log
watch_console_log_file_prints s logger xname [] h = refl
watch_console_log_file_prints s logger xname (done ∷ events) h = refl
watch_console_log_file_prints s logger xname (closed_lines ∷ events) h = refl
watch_console_log_file_prints s logger xname (line timestamp (err e) ∷ events) h =
    watch_console_log_file_prints s logger xname events h
watch_console_log_file_prints s logger xname (line timestamp (ok text) ∷ events) h =
    let entry = log_line timestamp xname text in
    let t = record s { printed = (logger, entry) ∷ s.printed } in
    let rest = watch_console_log_file_prints t logger xname events h in
    let stepped : write_to_agg_log s timestamp xname text ≡ t = ground (arith, h) in
    let appended : printed_to logger (lines_of xname events) ++ t.printed
        ≡ printed_to logger (lines_of xname events ++ entry ∷ []) ++ s.printed =
      sym (
        ap (λ ps. ps ++ s.printed) (printed_to-append logger (lines_of xname events) (entry ∷ []))
        ∙ append_assoc (printed_to logger (lines_of xname events)) ((logger, entry) ∷ [])
            s.printed) in
    ap (λ u. watch_lines u xname events) stepped
    ∙ rest
    ∙ ap (λ ps. (record s { printed = ps }, ends events)) appended
