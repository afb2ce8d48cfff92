-- ===== src/Console/Sessions/Refined.antt =====
-- The handlers of interactive sessions behave as locks, one for each node.
use remote_console.Prelude.{
  ◌≡◌, refl, ap, Bool, true, false, ◌||◌, ◌&&◌, not, List, [], ◌∷◌, ◌++◌, arith, if◌then◌else◌,
}
use remote_console.Prelude.Text.{Str, str, ◌==◌, ==_iff}
use remote_console.Prelude.Map.{get, has, get-put, get-delete}
use remote_console.Nodes.Registry.{NodesState, is_current_node}
use remote_console.Console.Handlers.{
  http_error, extract_node_id, status_bad_request, status_not_found, status_conflict,
}
use remote_console.Console.Sessions.{
  InteractiveSessions, new_interactive_sessions, Admitted, refused, upgrading,
  enter_interactive_console, upgrade_interactive_console, leave_interactive_console, reserve,
  release,
}

-- A request with the node table that it meets, the end of an upgrade, or the end of a session.
pub data Call : Type 0 where
  entering : NodesState → Str → Call
  upgrade : Str → Bool → Call
  leaving : Str → Call

-- How a request goes on, and whether the end of an upgrade leads to a session.
pub data Answer : Type 0 where
  admitted : Admitted → Answer
  upgraded : Bool → Answer

abbrev pub run : InteractiveSessions → List Call → List Answer
run s [] = []
run s (entering nodes url_param ∷ calls) =
    let (t, answer) = enter_interactive_console nodes s url_param in admitted answer ∷ run t calls
run s (upgrade node_id ok ∷ calls) =
    let (t, answer) = upgrade_interactive_console s node_id ok in upgraded answer ∷ run t calls
run s (leaving node_id ∷ calls) = run (leave_interactive_console s node_id) calls

-- Which nodes are locked.
abbrev pub Locks : Type 0
Locks = Str → Bool

abbrev lock : Locks → Str → Locks
lock held x y = (x == y) || held y

abbrev unlock : Locks → Str → Locks
unlock held x y = not (x == y) && held y

abbrev outcome : NodesState → Locks → Str → Admitted
outcome nodes held x =
    if x == []
    then refused (http_error (str "unable to extract node ID") status_bad_request)
    else if not (is_current_node nodes x)
    then refused (http_error (str "Node doesn't exists") status_not_found)
    else if held x
    then refused (http_error (str "Console " ++ (x ++ str " is already in use")) status_conflict)
    else upgrading x

abbrev locked : Locks → Admitted → Locks
locked held (upgrading x) = lock held x
locked held (refused reply) = held

abbrev kept : Locks → Str → Bool → Locks
kept held x true = held
kept held x false = unlock held x

-- A request for a node that is monitored and not locked locks it for its upgrade and its session; a
-- failed upgrade and the end of a session unlock it.
abbrev pub run_locks : Locks → List Call → List Answer
run_locks held [] = []
run_locks held (entering nodes url_param ∷ calls) =
    let answer = outcome nodes held url_param in
    admitted answer ∷ run_locks (locked held answer) calls
run_locks held (upgrade node_id ok ∷ calls) = upgraded ok ∷ run_locks (kept held node_id ok) calls
run_locks held (leaving node_id ∷ calls) = run_locks (unlock held node_id) calls

module _ (nodes : NodesState) (s : InteractiveSessions) (held : Locks)
    (agree : (x : Str) → has s x ≡ held x) where
  enter_outcome : (x : Str) → (enter_interactive_console nodes s x).1 ≡ outcome nodes held x
  unfolding enter_interactive_console extract_node_id reserve
  enter_outcome x = ground (arith, agree x)

  enter_locked :
      (x y : Str)
      → has (enter_interactive_console nodes s x).0 y ≡ locked held (outcome nodes held x) y
  unfolding enter_interactive_console extract_node_id reserve
  enter_locked x y = ground (arith, agree x, agree y, get-put s x y tt, ==_iff x y)

released :
    (s : InteractiveSessions) (held : Locks)
    → ((x : Str) → has s x ≡ held x)
    → (x y : Str) → has (release s x) y ≡ unlock held x y
unfolding release
released s held agree x y = ground (arith, agree y, get-delete s x y)

run_refines_from :
    (calls : List Call) (s : InteractiveSessions) (held : Locks)
    → ((x : Str) → has s x ≡ held x)
    → run s calls ≡ run_locks held calls
unfolding upgrade_interactive_console leave_interactive_console
run_refines_from [] s held h = refl
run_refines_from (entering nodes url_param ∷ calls) s held h =
    let (t, _) = enter_interactive_console nodes s url_param in
    rw (enter_outcome nodes s held h url_param) (
      ap (λ later. admitted (outcome nodes held url_param) ∷ later)
        (run_refines_from calls t (locked held (outcome nodes held url_param))
          (enter_locked nodes s held h url_param)))
run_refines_from (upgrade node_id true ∷ calls) s held h =
    ap (λ later. upgraded true ∷ later) (run_refines_from calls s held h)
run_refines_from (upgrade node_id false ∷ calls) s held h =
    ap (λ later. upgraded false ∷ later)
      (run_refines_from calls (release s node_id) (unlock held node_id) (released s held h node_id))
run_refines_from (leaving node_id ∷ calls) s held h =
    run_refines_from calls (release s node_id) (unlock held node_id) (released s held h node_id)

-- Whatever requests come, upgrades end, failed ones included, and sessions end, in whatever order,
-- each request goes on as with one lock for each node, all open at first: it is answered with 400, 404
-- or 409, or locks the node and goes on to its upgrade; the end of a session and a failed upgrade open
-- the lock again.
pub run_refines :
    (calls : List Call) → run new_interactive_sessions calls ≡ run_locks (λ x. false) calls
unfolding get
run_refines calls = run_refines_from calls [] (λ x. false) (λ x. refl)
