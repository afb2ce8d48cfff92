-- ===== src/Console/Tail.antt =====
-- internal/console/tail.go: a tail session, from the request's parameters to the stream of lines.
-- The rate limiter only delays; what its delay lets happen stands in the events.
pub mod History
pub mod Session
pub mod Bounds
pub mod Leaked
pub mod Running
pub mod Received
pub mod Stopped
pub mod Script
use Prim.Native.Nat.{zero, suc, ◌+◌}
use remote_console.Prelude.{
  ℕ, ◌≡◌, refl, Bool, true, false, ◌&&◌, ◌||◌, Option, none, some, List, [], ◌∷◌, ◌++◌, Result, ok,
  err, Error, if◌then◌else◌, length, ltb,
}
use remote_console.Prelude.Text.{Str, str, ◌==◌}
use remote_console.Prelude.Int.{ℤ, pos, negsuc}
use remote_console.Prelude.Strings.{atoi}
use remote_console.Prelude.Errors.{is_not_exist}
use remote_console.Nodes.Registry.{NodesState, is_current_node}
use remote_console.Console.Handlers.{
  Reply, http_error, extract_node_id, status_bad_request, status_not_found,
}
use remote_console.Console.WebSocket.{
  SessionCloseReason, session_close_normal, session_close_canceled, session_close_error,
}

-- The fields of tail.Config that the sessions tell apart.
pub record TailConfig : Type 0 where
  pub follow : Bool
  pub re_open : Bool
  pub location : Option ℕ

-- The session was closed, or is at the lines that the tail library sends.
pub data Progress : Type 0 where
  closed : SessionCloseReason → Str → Progress
  streaming : Progress

-- What sending a line meets: whether the request's context is done, and what Write returns.
pub record Sending : Type 0 where
  pub done : Bool
  pub write : Option Error

abbrev pub line_text : Str → Str
line_text line = line ++ b'\n' ∷ []

abbrev after_line : Str → Sending → List Str × Progress → List Str × Progress
after_line line io rest =
    if io.done then ([], closed session_close_canceled (str "session ended")) else elim io.write [
      | some e ↦ ([], closed session_close_error (str "error sending console log"))
      | none ↦ (line_text line ∷ rest.0, rest.1)
    ]

-- The loop over the history; line number i meets `io i`.
unfoldable pub send_history : (ℕ → Sending) → ℕ → List Str → List Str × Progress
send_history io i [] = ([], streaming)
send_history io i (line ∷ lines) = after_line line (io i) (send_history io (i + 1) lines)

-- The tail library's start for a session that goes on; `started` is what TailFile returns.
abbrev pub tail_file : Option Error → Progress × TailConfig → Progress × Option TailConfig
tail_file (some e) (p, conf) =
    (closed session_close_error (str "error starting console tail session"), none)
tail_file none (p, conf) = (p, some conf)

abbrev config_at : Bool → ℕ → TailConfig
config_at follow seek_offset = record {
  follow = follow;
  re_open = follow;
  location = if follow && ltb 0 seek_offset then some seek_offset else none;
}

abbrev pub Tailed : Type 0
Tailed = List Str × (Progress × Option TailConfig)

abbrev goes_on : Option Error → List Str → TailConfig → Tailed
goes_on started sent conf = (sent, tail_file started (streaming, conf))

abbrev after_history : Option Error → Bool → ℕ → List Str × Progress → Tailed
after_history started follow position (sent, closed reason text) =
    (sent, (closed reason text, none))
after_history started follow position (sent, streaming) =
    if follow
    then goes_on started sent (config_at follow position)
    else (sent, (closed session_close_normal [], none))

abbrev no_history : Option Error → Bool → Error → Tailed
no_history started follow e =
    if is_not_exist e
    then (if follow
        then goes_on started [] (config_at follow 0)
        else ([], (closed session_close_normal (str "console log not available"), none)))
    else ([], (closed session_close_error (str "error reading console log"), none))

abbrev with_lines : (ℕ → Sending) → Option Error → Bool → Result (List Str × ℕ) → Tailed
with_lines io started follow (ok (lines, position)) =
    after_history started follow position (send_history io 0 lines)
with_lines io started follow (err e) = no_history started follow e

-- tailConsole up to its stream: what was sent, how it goes on, and the tail that it started. `read`
-- is what readLastNLines returns for a number of lines.
unfoldable pub tail_console :
    (ℕ → Result (List Str × ℕ)) → (ℕ → Sending) → Option Error → Bool → ℤ → Tailed
unfolding send_history is_not_exist
tail_console read io started follow (negsuc n) = goes_on started [] (config_at follow 0)
tail_console read io started follow (pos zero) = goes_on started [] (config_at follow 0)
tail_console read io started follow (pos (suc n)) = with_lines io started follow (read (suc n))

-- What the stream's select receives.
pub data StreamEvent : Type 0 where
  done : StreamEvent
  web_socket_done : StreamEvent
  lines_closed : StreamEvent
  line : Str → Option Error → StreamEvent

abbrev stream_line : Str → Option Error → List Str × Option Progress → List Str × Option Progress
stream_line text none rest = (line_text text ∷ rest.0, rest.1)
stream_line text (some e) rest =
    ([], some (closed session_close_error (str "error sending console log")))

-- The lines that were sent, and how the session was closed: `none` if it goes on, or if the client
-- had closed it before.
unfoldable pub stream_console_tail : List StreamEvent → List Str × Option Progress
stream_console_tail [] = ([], none)
stream_console_tail (done ∷ events) =
    ([], some (closed session_close_canceled (str "session ended")))
stream_console_tail (web_socket_done ∷ events) = ([], none)
stream_console_tail (lines_closed ∷ events) = ([], some (closed session_close_normal []))
stream_console_tail (line text error ∷ events) = stream_line text error (stream_console_tail events)

-- strconv.ParseBool
unfoldable pub parse_bool : Str → Option Bool
unfolding ◌==◌
parse_bool s =
    let is_true =
      s == str "1"
      || s == str "t"
      || s == str "T"
      || s == str "TRUE"
      || s == str "true"
      || s == str "True" in
    let is_false =
      s == str "0"
      || s == str "f"
      || s == str "F"
      || s == str "FALSE"
      || s == str "false"
      || s == str "False" in
    if is_true then some true else if is_false then some false else none

-- How doTailConsole goes on.
pub data Entered : Type 0 where
  replied : Reply → Entered
  not_upgraded : Entered
  serving : Str → Bool → ℤ → Entered

abbrev follow_of : Str → Option Bool
follow_of follow_param = if follow_param == [] then some false else parse_bool follow_param

abbrev lines_of : Str → Option ℤ
lines_of lines_param = if lines_param == [] then some (negsuc 0) else atoi lines_param

module _ (nodes : NodesState) (upgraded : Bool) where
  abbrev with_parameters : Str → Option Bool → Option ℤ → Entered
  with_parameters node_id none num_lines =
      replied (http_error (str "Follow parameter must be a boolean value") status_bad_request)
  with_parameters node_id (some follow) none =
      replied (http_error (str "Lines parameter must be a valid integer") status_bad_request)
  with_parameters node_id (some follow) (some num_lines) =
      if upgraded then serving node_id follow num_lines else not_upgraded

  abbrev for_node : Str → Str → Result Str → Entered
  for_node follow_param lines_param (err e) =
      replied (http_error (str "unable to extract node ID") status_bad_request)
  for_node follow_param lines_param (ok node_id) =
      if is_current_node nodes node_id
      then with_parameters node_id (follow_of follow_param) (lines_of lines_param)
      else replied (http_error (str "Node not found") status_not_found)

  -- doTailConsole up to its session.
  unfoldable pub enter_tail_console : Str → Str → Str → Entered
  unfolding extract_node_id parse_bool atoi
  enter_tail_console url_param follow_param lines_param =
      for_node follow_param lines_param (extract_node_id url_param)
