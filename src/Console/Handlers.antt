-- ===== src/Console/Handlers.antt =====
-- internal/console/{common,health,consoles,http,router}.go: the HTTP handlers that answer at once,
-- and the choice between the two kinds of session. encoding/json encodes the body; here it is the
-- value that is encoded.
pub mod Answers
use remote_console.Prelude.{
  ℕ, ◌+◌, ◌≡◌, refl, Bool, true, false, ◌&&◌, Option, none, some, List, [], ◌∷◌, ◌++◌, Result, ok,
  err, Error, if◌then◌else◌, length, leb,
}
use remote_console.Prelude.Text.{Str, str, ◌==◌}
use remote_console.Prelude.Int.{ℤ, pos}
use remote_console.Prelude.Strings.{itoa}
use remote_console.Nodes.Info.{NodeConsoleInfo}
use remote_console.Nodes.Registry.{NodeMap, NodesState, current_nodes, get_hardware_update_time}

pub record HealthResponse : Type 0 where
  pub number_consoles : Str
  pub last_hardware_update : Str

pub record ErrorResponse : Type 0 where
  pub e : ℕ
  pub err_msg : Str

pub record ConsolesResponse : Type 0 where
  pub consoles : List NodeConsoleInfo

pub data Body : Type 0 where
  no_body : Body
  text : Str → Body
  health : HealthResponse → Body
  error : ErrorResponse → Body
  consoles : ConsolesResponse → Body

-- `allow` is the header Allow.
pub record Reply : Type 0 where
  pub status : ℕ
  pub allow : Option Str
  pub body : Body

abbrev pub status_ok : ℕ
status_ok = 200

abbrev pub status_no_content : ℕ
status_no_content = 204

abbrev pub status_bad_request : ℕ
status_bad_request = 400

abbrev pub status_not_found : ℕ
status_not_found = 404

abbrev pub status_method_not_allowed : ℕ
status_method_not_allowed = 405

abbrev pub status_conflict : ℕ
status_conflict = 409

unfoldable pub send_response_json : Option Str → ℕ → Body → Reply
send_response_json allow sc body = record { status = sc; allow = allow; body = body }

-- http.Error; the newline that it adds is left out.
abbrev pub http_error : Str → ℕ → Reply
http_error message code = record { status = code; allow = none; body = text message }

unfoldable pub send_json_error : Option Str → ℕ → Str → Reply
unfolding send_response_json
send_json_error allow ecode message =
    let e = if leb 200 ecode && leb ecode 299 then 0 else ecode in
    send_response_json allow ecode (error (record { e = e; err_msg = message }))

abbrev not_allowed : Str → Reply
not_allowed method =
    send_json_error (some (str "GET")) status_method_not_allowed
      (str "(" ++ (method ++ str ") Not Allowed"))

unfoldable pub get_current_health : NodesState → HealthResponse
unfolding current_nodes get_hardware_update_time
get_current_health s = record {
  number_consoles = itoa (pos (length (current_nodes s)));
  last_hardware_update = get_hardware_update_time s;
}

unfoldable pub do_health : NodesState → Str → Reply
unfolding send_json_error get_current_health
do_health s method =
    if method == str "GET"
    then send_response_json none status_ok (health (get_current_health s))
    else not_allowed method

abbrev no_content : Reply
no_content = record { status = status_no_content; allow = none; body = no_body }

unfoldable pub do_liveness : Str → Reply
unfolding send_json_error
do_liveness method = if method == str "GET" then no_content else not_allowed method

unfoldable pub do_readiness : Str → Reply
unfolding send_json_error
do_readiness method = if method == str "GET" then no_content else not_allowed method

abbrev add_console :
    Option NodeConsoleInfo → Option (List NodeConsoleInfo) → Option (List NodeConsoleInfo)
add_console none infos = none
add_console (some console_info) none = none
add_console (some console_info) (some infos) = some (console_info ∷ infos)

-- The loop over the nodes; `none` is the panic at a nil pointer.
unfoldable pub collect_consoles : NodeMap → Option (List NodeConsoleInfo)
collect_consoles [] = some []
collect_consoles ((k, p) ∷ nodes) = add_console p (collect_consoles nodes)

abbrev consoles_reply : Option (List NodeConsoleInfo) → Option Reply
consoles_reply none = none
consoles_reply (some infos) =
    some (send_response_json none status_ok (consoles (record { consoles = infos })))

unfoldable pub do_consoles : NodesState → Option Reply
unfolding collect_consoles send_response_json
do_consoles s = consoles_reply (collect_consoles (current_nodes s))

-- The URL parameter that chi found, empty if there is none.
unfoldable pub extract_node_id : Str → Result Str
extract_node_id url_param =
    if url_param == [] then err (Error.new (str "unable to extract node ID")) else ok url_param

-- What a request for a console goes to.
pub data Mode : Type 0 where
  interactive tail : Mode
  rejected : Reply → Mode

unfoldable pub do_console : Str → Mode
do_console mode_param =
    let mode = if mode_param == [] then str "interactive" else mode_param in
    if mode == str "tail"
    then tail
    else if mode == str "interactive"
    then interactive
    else rejected (
        http_error
          (str "Invalid mode parameter: " ++ (mode ++ str " (must be 'interactive' or 'tail')"))
          status_bad_request)
