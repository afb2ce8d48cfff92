-- ===== src/Service/Startup.antt =====
-- cmd/remote-console/service.go: fetching the key set before the server starts.
pub mod Protected
pub mod Consoles
use Prim.Native.Nat.{zero, suc, ◌+◌}
use remote_console.Prelude.{
  ℕ, ◌≡◌, refl, Option, none, some, List, [], ◌∷◌, ◌++◌, Error, if◌then◌else◌,
}
use remote_console.Prelude.Text.{Str, str, ◌==◌}
use remote_console.Console.Auth.{KeyServer, fetch_public_key_from_url}

abbrev pub max_retries : ℕ
max_retries = 5

abbrev fetched : {Jwt : Type 0} → Str → Option Jwt × Option Error → Option Jwt × Option Error
fetched jwks_url (token_auth, none) = (token_auth, none)
fetched jwks_url (token_auth, some e) =
    (token_auth, some (Error.wrap (str "failed to fetch JWKS from " ++ (jwks_url ++ str ": ")) e))

module _ {KeySet Jwt : Type 0} where
  -- The loop, with TokenAuth: try number i meets `servers i`; the error of the last if all failed.
  unfoldable pub fetch_with_retries :
      (ℕ → KeyServer KeySet Jwt) → ℕ → ℕ → Option Jwt → Option Error → Option Jwt × Option Error
  fetch_with_retries servers zero i token_auth last_err = (token_auth, last_err)
  fetch_with_retries servers (suc left) i token_auth last_err =
      let (assigned, error) = fetch_public_key_from_url token_auth (servers i) in
      elim error [
        | none ↦ (assigned, none)
        | some e ↦ fetch_with_retries servers left (i + 1) assigned (some e)
      ]

  -- runService up to the routes: TokenAuth, nil at first, and the error with which it returns.
  unfoldable pub init_auth : Str → (ℕ → KeyServer KeySet Jwt) → Option Jwt × Option Error
  unfolding fetch_with_retries
  init_auth jwks_url servers =
      if jwks_url == []
      then (none, none)
      else fetched jwks_url (fetch_with_retries servers 6 0 none none)
