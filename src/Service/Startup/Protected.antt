-- ===== src/Service/Startup/Protected.antt =====
-- The server is started without the key set only if none is configured.
use Prim.Native.Nat.{zero, suc, ◌+◌, ◌<◌, ◌≤◌}
use remote_console.Prelude.{
  ℕ, ◌≡◌, ◌≢◌, ◌∙◌, ◌↔◌, ◌⊎◌, inl, inr, Option, none, some, Error, ok, true, false, is_some, arith,
  ap, Option-cases, [], Bool-cases,
}
use native.Mathlib.Decide.{ℕ_discrete}
use remote_console.Prelude.Text.{Str, ==_iff, ◌==◌}
use remote_console.Console.Auth.{Response, KeyServer, fetch_public_key_from_url}
use remote_console.Console.Auth.Fetched.{
  IsDocumented, fetch_public_key_from_url_error, fetch_public_key_from_url_ok,
}
use remote_console.Service.Startup.{max_retries, fetch_with_retries, init_auth}

module _ {KeySet Jwt : Type 0} (servers : ℕ → KeyServer KeySet Jwt) where
  -- Try number j would succeed.
  abbrev pub Fetches : ℕ → Type 0
  Fetches j = (fetch_public_key_from_url none (servers j)).1 ≡ none

  fetch_with_retries-found :
      (left i : ℕ) (token_auth : Option Jwt) (last : Option Error)
      → (fetch_with_retries servers left i token_auth last).1 ≡ none
      → 0 < left
      → (j : ℕ) × (b : Option Jwt) × (j < i + left)
        × (fetch_public_key_from_url b (servers j)
            ≡ fetch_with_retries servers left i token_auth last)
  unfolding fetch_with_retries
  fetch_with_retries-found zero i token_auth last h p = absurd (omega (arith, p))
  fetch_with_retries-found (suc zero) i token_auth last h p =
      elim (Option-cases (fetch_public_key_from_url token_auth (servers i)).1) [
        | inl fine ↦ (i, token_auth, omega arith, ground (arith, fine))
        | inr (e, failed) ↦ absurd (ground (arith, failed, h))
      ]
  fetch_with_retries-found (suc (suc left)) i token_auth last h p =
      elim (Option-cases (fetch_public_key_from_url token_auth (servers i)).1) [
        | inl fine ↦ (i, token_auth, omega arith, ground (arith, fine))
        | inr (e, failed) ↦
            let assigned = (fetch_public_key_from_url token_auth (servers i)).0 in
            let on : fetch_with_retries servers (suc left) (i + 1) assigned (some e)
                ≡ fetch_with_retries servers (suc (suc left)) i token_auth last =
              ground (arith, failed) in
            let (j, b, low, fine) =
              fetch_with_retries-found (suc left) (i + 1) assigned (some e) (ap (λ r. r.1) on ∙ h)
                (omega arith) in
            (j, b, omega (arith, low), fine ∙ on)
      ]

  fetch_with_retries_of :
      (left i j : ℕ) (token_auth : Option Jwt) (last : Option Error)
      → i ≤ j
      → j < i + left
      → Fetches j
      → (fetch_with_retries servers left i token_auth last).1 ≡ none
  unfolding fetch_with_retries
  fetch_with_retries_of zero i j token_auth last low high fine = absurd (omega (arith, low, high))
  fetch_with_retries_of (suc left) i j token_auth last low high fine = elim (ℕ_discrete i j) [
    | yes e ↦
        let now : (fetch_public_key_from_url token_auth (servers i)).1 ≡ none =
          fetch_public_key_from_url_error token_auth none (servers i)
          ∙ ap (λ k. (fetch_public_key_from_url none (servers k)).1) e
          ∙ fine in
        ground (arith, now)
    | no ne ↦ elim (Option-cases (fetch_public_key_from_url token_auth (servers i)).1) [
      | inl now ↦ ground (arith, now)
      | inr (e, failed) ↦ ground (
        arith,
        failed,
        fetch_with_retries_of left (i + 1) j (fetch_public_key_from_url token_auth (servers i)).0
            (some e) (omega (arith, low, ne)) (omega (arith, high)) fine,
      )
    ]
  ]

  fetched-found :
      (jwks_url : Str)
      → (init_auth jwks_url servers).1 ≡ none
      → (jwks_url == []) ≡ false
      → (j : ℕ) × (b : Option Jwt) × (j ≤ max_retries)
        × (fetch_public_key_from_url b (servers j) ≡ init_auth jwks_url servers)
  unfolding init_auth
  fetched-found jwks_url h given =
      let all = fetch_with_retries servers 6 0 none none in
      elim (Option-cases all.1) [
        | inr (e, failed) ↦ absurd (ground (arith, given, failed, h))
        | inl fine ↦
            let (j, b, low, same) = fetch_with_retries-found 6 0 none none fine (omega arith) in
            (j, b, omega (arith, low), same ∙ ground (arith, given, fine))
      ]

  -- The start goes on to the routes exactly when no key set is configured, or one of the first six
  -- fetches would succeed.
  pub init_auth_iff :
      (jwks_url : Str)
      → ((init_auth jwks_url servers).1 ≡ none)
        ↔ ((jwks_url ≡ []) ⊎ ((j : ℕ) × (j ≤ max_retries) × Fetches j))
  init_auth_iff jwks_url = elim (Bool-cases (jwks_url == [])) [
    | inl unset ↦ unfold init_auth in ground (arith, unset, ==_iff jwks_url [])
    | inr given ↦ (
      λ h.
          let (j, b, low, same) = fetched-found jwks_url h given in
          inr (j, low, fetch_public_key_from_url_error none b (servers j) ∙ ap (λ r. r.1) same ∙ h),
      λ h. elim h [
        | inl unset ↦ absurd (ground (arith, given, unset, ==_iff jwks_url []))
        | inr (j, low, fine) ↦
            unfold init_auth in
            ground (
              arith,
              given,
              fetch_with_retries_of 6 0 j none none (omega arith) (omega (arith, low)) fine,
            )
      ],
    )
  ]

  -- When a key set is configured and the start goes on to the routes, TokenAuth is not nil, and one of
  -- the first six fetches was answered with status 200, given that jwk.Fetch fails when its client
  -- does and NewKeySet returns a key set when it returns no error.
  pub init_auth_some :
      (jwks_url : Str)
      → ((j : ℕ) → IsDocumented (servers j))
      → jwks_url ≢ []
      → (init_auth jwks_url servers).1 ≡ none
      → (is_some (init_auth jwks_url servers).0 ≡ true)
        × ((j : ℕ) × (resp : Response) × (j ≤ max_retries)
            × ((servers j).round_trip ≡ ok resp)
            × (resp.status_code ≡ 200))
  init_auth_some jwks_url d given h =
      let (j, b, low, same) =
        fetched-found jwks_url h (ground (arith, ==_iff jwks_url [], given)) in
      let (some_key, (resp, answered, fine)) =
        fetch_public_key_from_url_ok b (servers j) (d j) (ap (λ r. r.1) same ∙ h) in
      (rw (← same) some_key, (j, resp, low, answered, fine))
