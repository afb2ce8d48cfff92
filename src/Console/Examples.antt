-- ===== src/Console/Examples.antt =====
-- A site of one node, and the theorems about internal/console at it.
use remote_console.Prelude.{
  ◌+◌, ℕ, ◌≡◌, refl, ◌↔◌, ◌≤◌, inl, inr, true, false, none, some, List, [], ◌∷◌, ok, err, Error,
  arith, In, Bool-cases, length, false,
}
use remote_console.Prelude.Text.{Str, str, ◌==◌, ==-sound}
use remote_console.Prelude.Int.{pos}
use remote_console.Prelude.Map.{get, put}
use remote_console.Nodes.Info.{NodeConsoleInfo, ssh}
use remote_console.Nodes.Registry.{NodesState, is_current_node}
use remote_console.Nodes.Registry.Invariant.{IsTable}
use remote_console.Console.Handlers.{
  do_consoles, get_current_health, send_response_json, status_ok, consoles, extract_node_id,
}
use remote_console.Console.Handlers.Answers.{do_consoles_iff, number_consoles-atoi}
use remote_console.Console.Sessions.{
  reserve, enter_interactive_console, upgrade_interactive_console,
}
use remote_console.Console.Sessions.Exclusive
use remote_console.Console.Sessions.Exclusive.{
  System, request, upgrade, entering, upgraded_to, count, exclusive_session,
}
use remote_console.Console.Sessions.{new_interactive_sessions}
use remote_console.Console.Sessions.Refined.{Call, leaving, run, run_locks, run_refines}
use remote_console.Console.Sessions.Refined
use remote_console.Prelude.Strings.{atoi}
use remote_console.Console.LastLines.{scan_lines, read_last_n_lines}
use remote_console.Console.WebSocket.{
  WebSockMessage, new_web_socket_session, enqueue, close, session_close_error, pump_message, write,
}
use remote_console.Console.WebSocket.Delivered
use remote_console.Console.WebSocket.Delivered.{
  Traffic, IsFifo, messages_of, Reach-IsFifo, sending, closing, pumped,
}
use remote_console.Console.Tail.{Sending, tail_console, streaming}
use remote_console.Console.Tail.History.{tail_console-last}
use remote_console.Console.Interactive.{
  InteractiveSession, Started, start_session, start_conman_process, start_process,
  close_with_reason, monitor_process, received, text_message, stream_input,
}
use remote_console.Console.Interactive.Closed
use remote_console.Console.Interactive.Closed.{new_session, close_with_reason-closes}
use remote_console.Console.Interactive.Retry.{monitor_process_retry_lost}
use remote_console.Console.Interactive.Raced.{raced, start_process_raced}

abbrev node : NodeConsoleInfo
node = record {
  id = str "x0";
  connection_type = ssh;
  connection_host = str "bmc";
  connection_port = pos 22;
  console_entry_command = [];
}

abbrev site : NodesState
site = record { current_nodes = (str "x0", some node) ∷ []; hardware_update_time = str "Unknown" }

site-IsTable : IsTable site.current_nodes
unfolding get
site-IsTable = record {
  distinct = (refl, tt);
  keyed = λ k p h. elim (Bool-cases (str "x0" == k)) [
    | inl e ↦ (node, ground (arith, e, h), ==-sound (str "x0") k e)
    | inr e ↦ absurd (ground (arith, e, h))
  ];
}

do_consoles_iff_example :
    (infos : List NodeConsoleInfo) × (do_consoles site
      ≡ some (send_response_json none status_ok (consoles (record { consoles = infos }))))
    × ((nci : NodeConsoleInfo) → In nci infos ↔ (get site.current_nodes nci.id ≡ some (some nci)))
do_consoles_iff_example = do_consoles_iff site site-IsTable

abbrev idle : System
idle = record { sessions = []; upgrades = []; running = [] }

-- The handler upgrades its connection, then runs its session.
abbrev asked : System
asked = entering idle site (str "x0")

abbrev busy : System
busy = upgraded_to asked (str "x0") [] true

busy-Reach : Exclusive.Reach busy
unfolding enter_interactive_console reserve is_current_node get put ◌==◌ extract_node_id
busy-Reach =
    Exclusive.Reach.later (Exclusive.Reach.later Exclusive.Reach.start (request site (str "x0")))
      (upgrade (str "x0") [] [] true refl)

exclusive_session_example :
    (count (str "x0") busy.upgrades + count (str "x0") busy.running ≤ 1)
    × (((reserve busy.sessions (str "x0")).1 ≡ true)
        ↔ (count (str "x0") busy.upgrades + count (str "x0") busy.running ≡ 0))
exclusive_session_example = exclusive_session busy-Reach (str "x0")

-- The session runs.
busy_runs : count (str "x0") busy.running ≡ 1
unfolding enter_interactive_console upgrade_interactive_console reserve is_current_node get put ◌==◌
    extract_node_id
busy_runs = refl

abbrev log : Str
log = str "a\nb\r\n\nlast"

abbrev log_lines : List Str
log_lines = str "a" ∷ str "b" ∷ [] ∷ str "last" ∷ []

scan_lines_runs : scan_lines log ≡ ok log_lines
unfolding scan_lines ◌==◌
scan_lines_runs = refl

abbrev smooth : ℕ → Sending
smooth i = record { done = false; write = none }

tail_console-last_example : tail_console (read_last_n_lines (ok log)) smooth none true (pos 2) ≡ (
  str "\n" ∷ str "last\n" ∷ [],
  (streaming, some (record { follow = true; re_open = true; location = some 10 })),
)
tail_console-last_example =
    tail_console-last log log_lines 1 smooth true scan_lines_runs (λ e. cc) (λ i. (refl, refl))

abbrev hello : WebSockMessage
hello = record { message_type = 1; data_bytes = str "hello" }

abbrev written : Traffic
written = record { ws = enqueue new_web_socket_session hello; accepted = hello ∷ [] }

abbrev closed : Traffic
closed = record written { ws = close written.ws session_close_error (str "gone") }

abbrev drained : Traffic
drained = record closed { ws = pump_message closed.ws none }

drained-Reach : Delivered.Reach drained
unfolding write enqueue close
drained-Reach =
    Delivered.Reach.later
      (Delivered.Reach.later
        (Delivered.Reach.later Delivered.Reach.start (sending hello (omega arith)))
        (closing session_close_error (str "gone")))
      (pumped hello [] none refl refl)

Reach-IsFifo_example : (lost : List WebSockMessage) × IsFifo drained lost
Reach-IsFifo_example = Reach-IsFifo drained-Reach

abbrev conman_started : Started
conman_started = record { pid = 7; pty = 3 }

abbrev session : InteractiveSession
session = (start_session (new_session (str "x0")) (ok conman_started) none).0

close_with_reason-closes_example :
    ((pty : ℕ)
      → In pty (close_with_reason session session_close_error []).opened
      → In pty (close_with_reason session session_close_error []).closed)
    × ((pid : ℕ)
        → session.process ≡ some pid
        → In pid (close_with_reason session session_close_error []).signaled)
    × ((close_with_reason session session_close_error []).canceled ≡ true)
    × ((close_with_reason session session_close_error []).ws.canceled ≡ true)
close_with_reason-closes_example =
    close_with_reason-closes (Closed.Reach.began (ok conman_started) none) session_close_error []

-- The next process, whose start a close meets.
abbrev late : Started
late = record { pid = 8; pty = 4 }

start_process_raced_example :
    ((raced session session_close_error [] late).canceled ≡ true)
    × ((raced session session_close_error [] late).ptmx ≡ some 4)
    × (In 4 (raced session session_close_error [] late).closed → ⊥)
    × (In 8 (raced session session_close_error [] late).signaled → ⊥)
    × (monitor_process (raced session session_close_error [] late) site none (err Error.eof)
        ≡ (raced session session_close_error [] late, false))
unfolding start_session start_conman_process start_process
start_process_raced_example =
    start_process_raced session session_close_error [] late site none (err Error.eof) (λ i. i)
      (λ e. ground (arith, e)) (λ i. i) (λ e. ground (arith, e))

-- Two clients ask for the same node while the first upgrades its connection, which fails; then the
-- second asks again, gets its session and leaves.
abbrev calls : List Call
calls =
    Refined.entering site (str "x0")
    ∷ Refined.entering site (str "x0")
    ∷ Refined.upgrade (str "x0") false
    ∷ Refined.entering site (str "x0")
    ∷ Refined.upgrade (str "x0") true
    ∷ leaving (str "x0")
    ∷ []

run_refines_example : run new_interactive_sessions calls ≡ run_locks (λ x. false) calls
run_refines_example = run_refines calls

number_consoles-atoi_example :
    atoi (get_current_health site).number_consoles ≡ some (pos (length site.current_nodes))
number_consoles-atoi_example = number_consoles-atoi site site-IsTable (omega arith)

monitor_process_retry_lost_example :
    let (t, goes_on) = monitor_process session site none (err Error.eof) in
    (goes_on ≡ true)
    × (t.canceled ≡ false)
    × (t.ptmx ≡ some 3)
    × In 3 t.closed
    × (stream_input t (received text_message (str "ls")) (some Error.eio)
        ≡ (close_with_reason t session_close_error (str "failed to write to console"), false))
unfolding start_session start_conman_process start_process is_current_node get ◌==◌
monitor_process_retry_lost_example =
    monitor_process_retry_lost session site 3 (str "ls") Error.eof Error.eio refl refl refl refl
