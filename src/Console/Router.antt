-- ===== src/Console/Router.antt =====
-- internal/console/router.go: the routes and what guards them. chi and the two middlewares of the
-- tokens are parameters; `Jwt` stands for *jwtauth.JWTAuth.
pub mod Guarded
use remote_console.Prelude.{
  ℕ, Bool, true, false, ◌&&◌, Option, none, some, List, [], ◌∷◌, ◌++◌, map, if◌then◌else◌,
}
use remote_console.Prelude.Text.{Str, str}
use remote_console.Nodes.Registry.{NodesState}
use remote_console.Console.Handlers.{
  Reply, do_liveness, do_readiness, do_health, do_consoles, do_console, Mode, rejected,
}
use remote_console.Console.Handlers
use remote_console.Console.Sessions.{InteractiveSessions, open_interactive_console}
use remote_console.Console.Sessions
use remote_console.Console.Tail.{enter_tail_console}
use remote_console.Console.Tail

abbrev pub route_prefix : Str
route_prefix = str "/remote-console"

-- The function that a route is bound to.
pub data Handler : Type 0 where
  to_liveness to_readiness to_health to_consoles to_console : Handler

pub data Middleware (Jwt : Type 0) : Type 0 where
  redirect_slashes : Middleware Jwt
  verifier : Jwt → Middleware Jwt
  authenticator_with_required_claims : Jwt → List Str → Middleware Jwt

pub record Route (Jwt : Type 0) : Type 0 where
  pub method : Str
  pub pattern : Str
  pub middlewares : List (Middleware Jwt)
  pub handler : Handler

abbrev pub required_claims : List Str
required_claims = str "sub" ∷ str "iss" ∷ str "aud" ∷ []

module _ {Jwt : Type 0} where
  -- r.Get below the prefix, in a router that uses `middlewares`.
  abbrev get_route : List (Middleware Jwt) → Str → Handler → Route Jwt
  get_route middlewares pattern handler = record {
    method = str "GET";
    pattern = route_prefix ++ pattern;
    middlewares = middlewares;
    handler = handler;
  }

  unfoldable pub token_middlewares : Option Jwt → List (Middleware Jwt)
  token_middlewares none = []
  token_middlewares (some token_auth) =
      verifier token_auth ∷ authenticator_with_required_claims token_auth required_claims ∷ []

  unfoldable pub setup_routes : Option Jwt → List (Route Jwt)
  unfolding token_middlewares
  setup_routes token_auth =
      let common = redirect_slashes ∷ [] in
      let group = redirect_slashes ∷ token_middlewares token_auth in
      get_route common (str "/liveness") to_liveness
      ∷ get_route common (str "/readiness") to_readiness
      ∷ get_route common (str "/health") to_health
      ∷ get_route group (str "/consoles") to_consoles
      ∷ get_route group (str "/consoles/{nodeID}") to_console
      ∷ []

-- `follow` and `lines` are the parameters of the query, empty if absent.
pub record Request : Type 0 where
  pub method : Str
  pub path : Str
  pub token : Str
  pub mode : Str
  pub follow : Str
  pub lines : Str

-- chi's choice of a route with the URL parameter nodeID, a middleware's decision to call the next
-- handler, and whether the upgrade to a web socket succeeds.
pub record Framework (Jwt : Type 0) : Type 0 where
  pub find : List (Route Jwt) → Request → Option (Route Jwt × Str)
  pub passes : Middleware Jwt → Request → Bool
  pub upgraded : Request → Bool

-- What becomes of a request.
pub data Served : Type 0 where
  unrouted : Served
  refused : Served
  panicked : Served
  replied : Reply → Served
  tailing : Tail.Entered → Served
  interacting : Sessions.Entered → Served

-- The state that the handlers see.
pub record Server : Type 0 where
  pub nodes : NodesState
  pub sessions : InteractiveSessions

abbrev listed : Option Reply → Served
listed none = panicked
listed (some reply) = replied reply

unfoldable pub all_pass : {Jwt : Type 0} → Framework Jwt → Request → List (Middleware Jwt) → Bool
all_pass io r [] = true
all_pass io r (m ∷ middlewares) = io.passes m r && all_pass io r middlewares

module _ {Jwt : Type 0} (io : Framework Jwt) (s : Server) (r : Request) where
  abbrev interact : InteractiveSessions × Sessions.Entered → Server × Served
  interact (sessions, entered) = (record s { sessions = sessions }, interacting entered)

  abbrev in_mode : Str → Mode → Server × Served
  in_mode param Mode.tail =
      (s, tailing (enter_tail_console s.nodes (io.upgraded r) param r.follow r.lines))
  in_mode param Mode.interactive =
      interact (open_interactive_console s.nodes (io.upgraded r) s.sessions param)
  in_mode param (Mode.rejected reply) = (s, replied reply)

  abbrev handle : Handler → Str → Server × Served
  handle to_liveness param = (s, replied (do_liveness r.method))
  handle to_readiness param = (s, replied (do_readiness r.method))
  handle to_health param = (s, replied (do_health s.nodes r.method))
  handle to_consoles param = (s, listed (do_consoles s.nodes))
  handle to_console param = in_mode param (do_console r.mode)

  abbrev through : Option (Route Jwt × Str) → Server × Served
  through none = (s, unrouted)
  through (some (route, param)) =
      if all_pass io r route.middlewares then handle route.handler param else (s, refused)

  -- A request at a router with these routes.
  unfoldable pub serve : List (Route Jwt) → Server × Served
  unfolding all_pass
  serve routes = through (io.find routes r)
