-- ===== src/Console/Auth.antt =====
-- internal/console/auth.go: fetching the key set that the tokens are checked with. net/http, jwx and
-- jwtauth are parameters; `KeySet` stands for jwk.Set and `Jwt` for *jwtauth.JWTAuth.
pub mod Fetched
use remote_console.Prelude.{
  ℕ, Option, none, some, List, [], ◌++◌, Result, ok, err, Error, if◌then◌else◌, nat_eq,
}
use remote_console.Prelude.Text.{Str, str}
use remote_console.Prelude.Int.{pos}
use remote_console.Prelude.Strings.{itoa}
use remote_console.Prelude.Errors.{is_eof}

pub record Response : Type 0 where
  pub status_code : ℕ
  pub body : Str

-- What one attempt meets: http.DefaultTransport.RoundTrip, jwk.Fetch on what its client's transport
-- returns, json.Marshal, and jwtauth.NewKeySet, which returns a pointer and an error.
pub record KeyServer (KeySet Jwt : Type 0) : Type 0 where
  pub round_trip : Result Response
  pub fetch : Result Response → Result KeySet
  pub marshal : KeySet → Result Str
  pub new_key_set : Str → Option Jwt × Option Error

abbrev check_status : Response → Result Response
check_status resp =
    if nat_eq resp.status_code 200
    then ok resp
    else err (Error.new (str "status code: " ++ itoa (pos resp.status_code)))

-- statusCheckTransport.RoundTrip, on what the default transport returns.
unfoldable pub status_check_round_trip : Result Response → Result Response
status_check_round_trip (err e) = err e
status_check_round_trip (ok resp) = check_status resp

abbrev fetch_failed : Error → Error
fetch_failed e =
    if is_eof e then Error.wrap (str "received empty response for key: ") e else Error.wrap [] e

abbrev assigned : {Jwt : Type 0} → Option Jwt × Option Error → Option Jwt × Option Error
assigned (token_auth, none) = (token_auth, none)
assigned (token_auth, some e) =
    (token_auth, some (Error.wrap (str "failed to initialize JWKS: ") e))

module _ {KeySet Jwt : Type 0} where
  abbrev marshaled : Option Jwt → KeyServer KeySet Jwt → Result Str → Option Jwt × Option Error
  marshaled token_auth io (err e) =
      (token_auth, some (Error.wrap (str "failed to marshal JWKS: ") e))
  marshaled token_auth io (ok jwks) = assigned (io.new_key_set jwks)

  abbrev with_set : Option Jwt → KeyServer KeySet Jwt → Result KeySet → Option Jwt × Option Error
  with_set token_auth io (err e) = (token_auth, some (fetch_failed e))
  with_set token_auth io (ok set) = marshaled token_auth io (io.marshal set)

  -- FetchPublicKeyFromURL: TokenAuth and the error. NewKeySet's pointer is assigned with its error.
  unfoldable pub fetch_public_key_from_url :
      Option Jwt → KeyServer KeySet Jwt → Option Jwt × Option Error
  unfolding status_check_round_trip is_eof itoa
  fetch_public_key_from_url token_auth io =
      with_set token_auth io (io.fetch (status_check_round_trip io.round_trip))
