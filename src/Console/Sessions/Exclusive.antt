-- ===== src/Console/Sessions/Exclusive.antt =====
-- The handlers of interactive sessions, in any interleaving.
use remote_console.Prelude.{
  ℕ, ◌+◌, ◌≤◌, ◌≡◌, refl, ◌↔◌, inl, inr, Bool, true, false, List, [], ◌∷◌, ◌++◌, arith,
  Result-cases,
}
use remote_console.Prelude.Text.{Str, ◌==◌, ==_iff}
use remote_console.Prelude.Map.{get, has, get-put, get-delete}
use remote_console.Nodes.Registry.{NodesState}
use remote_console.Console.Handlers.{extract_node_id}
use remote_console.Console.Sessions.{
  InteractiveSessions, new_interactive_sessions, Admitted, refused, upgrading,
  enter_interactive_console, upgrade_interactive_console, leave_interactive_console, reserve,
  release,
}

-- The nodes of the handlers that upgrade their connection, and of those that run a session.
pub record System : Type 0 where
  pub sessions : InteractiveSessions
  pub upgrades : List Str
  pub running : List Str

abbrev after_enter : System → InteractiveSessions × Admitted → System
after_enter s (sessions, refused reply) = record s { sessions = sessions }
after_enter s (sessions, upgrading node_id) = record s {
  sessions = sessions;
  upgrades = node_id ∷ s.upgrades;
}

abbrev pub entering : System → NodesState → Str → System
entering s nodes url_param = after_enter s (enter_interactive_console nodes s.sessions url_param)

abbrev after_upgrade : Str → List Str → List Str → InteractiveSessions × Bool → System
after_upgrade node_id upgrades running (sessions, true) = record {
  sessions = sessions;
  upgrades = upgrades;
  running = node_id ∷ running;
}
after_upgrade node_id upgrades running (sessions, false) = record {
  sessions = sessions;
  upgrades = upgrades;
  running = running;
}

abbrev pub upgraded_to : System → Str → List Str → Bool → System
upgraded_to s node_id rest upgraded =
    after_upgrade node_id rest s.running (upgrade_interactive_console s.sessions node_id upgraded)

pub data Step (s : System) : System → Type 0 where
  request : (nodes : NodesState) (url_param : Str) → Step s (entering s nodes url_param)
  upgrade :
      (node_id : Str) (before after : List Str) (upgraded : Bool)
      → s.upgrades ≡ before ++ node_id ∷ after
      → Step s (upgraded_to s node_id (before ++ after) upgraded)
  finish :
      (node_id : Str) (before after : List Str)
      → s.running ≡ before ++ node_id ∷ after
      → Step s (record s {
        sessions = leave_interactive_console s.sessions node_id;
        running = before ++ after;
      })

pub data Reach : System → Type 0 where
  start : Reach (record { sessions = new_interactive_sessions; upgrades = []; running = [] })
  later : {s t : System} → Reach s → Step s t → Reach t

abbrev one_if : Bool → ℕ
one_if true = 1
one_if false = 0

abbrev pub count : Str → List Str → ℕ
count x [] = 0
count x (y ∷ ys) = one_if (y == x) + count x ys

count-append : (x : Str) (xs ys : List Str) → count x (xs ++ ys) ≡ count x xs + count x ys
count-append x [] ys = ground arith
count-append x (z ∷ zs) ys = ground (arith, count-append x zs ys)

-- A node is reserved while one handler upgrades its connection or runs its session, and free else.
abbrev IsExclusive : System → Type 0
IsExclusive s = (x : Str) → count x s.upgrades + count x s.running ≡ one_if (has s.sessions x)

request-IsExclusive :
    (s : System) (nodes : NodesState) (url_param : Str)
    → IsExclusive s
    → IsExclusive (entering s nodes url_param)
unfolding enter_interactive_console reserve
request-IsExclusive s nodes url_param i x = elim (Result-cases (extract_node_id url_param)) [
  | inr (e, bad) ↦ ground (arith, bad, i x)
  | inl (node_id, named) ↦
      ground (arith, named, i x, get-put s.sessions node_id x tt, ==_iff node_id x)
]

count-removed :
    (x y : Str) (before after : List Str)
    → count x (before ++ y ∷ after) ≡ one_if (y == x) + count x (before ++ after)
count-removed x y before after =
    omega (arith, count-append x before (y ∷ after), count-append x before after)

upgrade-IsExclusive :
    (s : System) (node_id : Str) (before after : List Str) (upgraded : Bool)
    → s.upgrades ≡ before ++ node_id ∷ after
    → IsExclusive s
    → IsExclusive (upgraded_to s node_id (before ++ after) upgraded)
unfolding upgrade_interactive_console release
upgrade-IsExclusive s node_id before after upgraded h i x = ground (
  arith,
  h,
  i x,
  count-removed x node_id before after,
  get-delete s.sessions node_id x,
  ==_iff node_id x,
)

finish-IsExclusive :
    (s : System) (node_id : Str) (before after : List Str)
    → s.running ≡ before ++ node_id ∷ after
    → IsExclusive s
    → IsExclusive (record s {
      sessions = leave_interactive_console s.sessions node_id;
      running = before ++ after;
    })
unfolding leave_interactive_console release
finish-IsExclusive s node_id before after h i x = ground (
  arith,
  h,
  i x,
  count-removed x node_id before after,
  get-delete s.sessions node_id x,
  ==_iff node_id x,
)

Reach-IsExclusive : {s : System} → Reach s → IsExclusive s
unfolding get
Reach-IsExclusive start x = refl
Reach-IsExclusive (later r (request nodes url_param)) x =
    request-IsExclusive _ nodes url_param (Reach-IsExclusive r) x
Reach-IsExclusive (later r (upgrade node_id before after upgraded h)) x =
    upgrade-IsExclusive _ node_id before after upgraded h (Reach-IsExclusive r) x
Reach-IsExclusive (later r (finish node_id before after h)) x =
    finish-IsExclusive _ node_id before after h (Reach-IsExclusive r) x

-- In every interleaving of requests, ends of upgrades, failed ones included, and ends of sessions, a
-- node has at most one handler that upgrades its connection or runs a session, and it can be reserved
-- exactly when it has none.
pub exclusive_session :
    {s : System}
    → Reach s
    → (x : Str)
    → (count x s.upgrades + count x s.running ≤ 1)
      × (((reserve s.sessions x).1 ≡ true) ↔ (count x s.upgrades + count x s.running ≡ 0))
unfolding reserve
exclusive_session r x = ground (arith, Reach-IsExclusive r x)
