-- ===== src/Console/Auth/Fetched.antt =====
-- What a fetch without an error has assigned.
use remote_console.Prelude.{
  ◌≡◌, refl, Option, none, Result, ok, err, Error, is_some, true, arith, Result-cases, inl, inr,
  Bool-cases, nat_eq, ◌⊎◌,
}
use remote_console.Prelude.Text.{Str}
use remote_console.Console.Auth.{
  Response, KeyServer, status_check_round_trip, fetch_public_key_from_url,
}

status_check_round_trip_cases :
    (answer : Result Response)
    → ((resp : Response) × (answer ≡ ok resp) × (resp.status_code ≡ 200))
      ⊎ ((e : Error) × (status_check_round_trip answer ≡ err e))
unfolding status_check_round_trip
status_check_round_trip_cases (err e) = inr (e, refl)
status_check_round_trip_cases (ok resp) = elim (Bool-cases (nat_eq resp.status_code 200)) [
  | inl fine ↦ inl (resp, refl, ground (arith, fine))
  | inr other ↦ rw other (inr (_, refl))
]

module _ {KeySet Jwt : Type 0} where
  -- jwk.Fetch returns an error when its client does, and NewKeySet without an error a key set.
  pub record IsDocumented (io : KeyServer KeySet Jwt) : Type 0 where
    pub fetch_errors : (e : Error) → (e' : Error) × (io.fetch (err e) ≡ err e')
    pub new_key_set_some :
        (jwks : Str) → (io.new_key_set jwks).1 ≡ none → is_some (io.new_key_set jwks).0 ≡ true

  -- TokenAuth does not decide the error.
  pub fetch_public_key_from_url_error :
      (a b : Option Jwt) (io : KeyServer KeySet Jwt)
      → (fetch_public_key_from_url a io).1 ≡ (fetch_public_key_from_url b io).1
  unfolding fetch_public_key_from_url
  fetch_public_key_from_url_error a b io = ground arith

  pub fetch_public_key_from_url_ok :
      (a : Option Jwt) (io : KeyServer KeySet Jwt)
      → IsDocumented io
      → (fetch_public_key_from_url a io).1 ≡ none
      → (is_some (fetch_public_key_from_url a io).0 ≡ true)
        × ((resp : Response) × (io.round_trip ≡ ok resp) × (resp.status_code ≡ 200))
  unfolding fetch_public_key_from_url
  fetch_public_key_from_url_ok a io d h =
      elim (Result-cases (io.fetch (status_check_round_trip io.round_trip))) [
        | inr (e, failed) ↦ absurd (ground (arith, failed, h))
        | inl (set, fetched) ↦ elim (Result-cases (io.marshal set)) [
          | inr (e, failed) ↦ absurd (ground (arith, fetched, failed, h))
          | inl (jwks, marshaled) ↦ (
            ground (arith, fetched, marshaled, h, d.new_key_set_some jwks),
            elim (status_check_round_trip_cases io.round_trip) [
              | inl fine ↦ fine
              | inr (e, refused) ↦
                  let (f, failed) = d.fetch_errors e in
                  absurd (ground (arith, fetched, refused, failed))
            ],
          )
        ]
      ]
