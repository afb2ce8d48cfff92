-- ===== src/Console/Router/Guarded.antt =====
-- Which requests get to the consoles.
use remote_console.Prelude.{◌≡◌, refl, ap, Bool, false, ◌&&◌, ◌⊎◌, inl, inr, some, arith, In}
use remote_console.Prelude.Text.{Str}
use remote_console.Console.Router.{
  Handler, to_consoles, to_console, verifier, authenticator_with_required_claims, Route,
  required_claims, setup_routes, Request, Framework, refused, Server, all_pass, serve,
}

abbrev pub IsConsoleHandler : Handler → Type 0
IsConsoleHandler handler = (handler ≡ to_consoles) ⊎ (handler ≡ to_console)

module _ {Jwt : Type 0} (io : Framework Jwt) (r : Request) where
  -- Both middlewares let the request pass.
  abbrev pub admits : Jwt → Bool
  admits token_auth =
      io.passes (verifier token_auth) r
      && io.passes (authenticator_with_required_claims token_auth required_claims) r

  module _ (token_auth : Jwt) (route : Route Jwt) where
    guarded :
        In route (setup_routes (some token_auth))
        → IsConsoleHandler route.handler
        → admits token_auth ≡ false
        → all_pass io r route.middlewares ≡ false
    unfolding setup_routes all_pass
    guarded (inl e) c h = absurd (ground (arith, c, ap (λ x. x.handler) e))
    guarded (inr (inl e)) c h = absurd (ground (arith, c, ap (λ x. x.handler) e))
    guarded (inr (inr (inl e))) c h = absurd (ground (arith, c, ap (λ x. x.handler) e))
    guarded (inr (inr (inr (inl e)))) c h = rw e (ground (arith, h))
    guarded (inr (inr (inr (inr (inl e))))) c h = rw e (ground (arith, h))
    guarded (inr (inr (inr (inr (inr e))))) c h = absurd e

  -- With a key set, a request that its middlewares do not let pass and that goes to the consoles is
  -- refused, and the sessions stay.
  pub serve_refused :
      (token_auth : Jwt) (s : Server) (route : Route Jwt) (param : Str)
      → io.find (setup_routes (some token_auth)) r ≡ some (route, param)
      → In route (setup_routes (some token_auth))
      → IsConsoleHandler route.handler
      → admits token_auth ≡ false
      → serve io s r (setup_routes (some token_auth)) ≡ (s, refused)
  unfolding serve
  serve_refused token_auth s route param f i c h = rw (f, guarded token_auth route i c h) refl
