-- ===== src/Service/Startup/Consoles.antt =====
-- The consoles behind a start with a key set.
use remote_console.Prelude.{ℕ, ◌≡◌, ◌≢◌, false, none, some, [], arith, In, inl, inr, Option-cases}
use remote_console.Prelude.Text.{Str}
use remote_console.Console.Auth.{KeyServer}
use remote_console.Console.Auth.Fetched.{IsDocumented}
use remote_console.Console.Router.{Route, setup_routes, Request, Framework, Server, refused, serve}
use remote_console.Console.Router.Guarded.{IsConsoleHandler, admits, serve_refused}
use remote_console.Service.Startup.{init_auth}
use remote_console.Service.Startup.Protected.{init_auth_some}

-- When a key set is configured and the start goes on to the routes, a request that chi routes to the
-- list of the consoles or to a console, and that the middlewares of the key set, if there is one, do
-- not let pass, is refused and changes nothing; chi routes to one of the routes, jwk.Fetch fails when
-- its client does, and NewKeySet returns a key set when it returns no error.
pub consoles_protected :
    {KeySet Jwt : Type 0} (jwks_url : Str) (servers : ℕ → KeyServer KeySet Jwt) (io : Framework Jwt)
    (s : Server) (r : Request) (route : Route Jwt) (param : Str)
    → ((j : ℕ) → IsDocumented (servers j))
    → jwks_url ≢ []
    → (init_auth jwks_url servers).1 ≡ none
    → io.find (setup_routes (init_auth jwks_url servers).0) r ≡ some (route, param)
    → In route (setup_routes (init_auth jwks_url servers).0)
    → IsConsoleHandler route.handler
    → ((token_auth : Jwt)
        → (init_auth jwks_url servers).0 ≡ some token_auth
        → admits io r token_auth ≡ false)
    → serve io s r (setup_routes (init_auth jwks_url servers).0) ≡ (s, refused)
consoles_protected jwks_url servers io s r route param d given h f i c unfit =
    elim (Option-cases (init_auth jwks_url servers).0) [
      | inl missing ↦
          absurd (ground (arith, missing, (init_auth_some servers jwks_url d given h).0))
      | inr (token_auth, e) ↦ rw e (
          serve_refused io r token_auth s route param (rw (← e) f) (rw (← e) i) c
            (unfit token_auth e))
    ]
