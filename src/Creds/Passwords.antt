-- ===== src/Creds/Passwords.antt =====
-- internal/creds/creds.go and monitor.go: retrieving the passwords, and the check for changed ones.
pub mod Retries
pub mod Changes
use remote_console.Prelude.{
  ℕ, zero, suc, ◌+◌, Bool, true, false, ◌||◌, ◌&&◌, not, Option, none, some, List, [], ◌∷◌, Result,
  ok, err, Error, if◌then◌else◌,
}
use remote_console.Prelude.Text.{Str, ◌==◌}
use remote_console.Prelude.Map.{Map, get, has}
use remote_console.Conman.Entries.{CompCredentials}
use remote_console.Creds.Config.{CredsConfig}
use remote_console.Creds.Storage.{Secrets, Passwords, get_passwords}

-- The hashes are what sha256 gave; nil before the first.
pub record CredsService : Type 0 where
  pub config : CredsConfig
  pub previous_passwords : Option (Map CompCredentials)
  pub previous_private_key_hash : Option Str
  pub previous_cert_hash : Option Str

unfoldable pub new_creds_service : CredsConfig → CredsService
new_creds_service config = record {
  config = config;
  previous_passwords = none;
  previous_private_key_hash = none;
  previous_cert_hash = none;
}

-- What one round of the loop meets: whether the context is done at its start, the store, and
-- whether the context is done before the wait is over.
pub record Attempt : Type 0 where
  pub done_before : Bool
  pub secrets : Secrets
  pub done_in_wait : Bool

abbrev pub has_creds : Option (Map CompCredentials) → Str → Bool
has_creds none name = false
has_creds (some m) name = has m name

unfoldable pub found_all : Option (Map CompCredentials) → List Str → Bool
found_all passwords [] = true
found_all passwords (name ∷ names) = has_creds passwords name && found_all passwords names

pub data Retrieved : Type 0 where
  finished : Passwords → Retrieved
  canceled : Option (Map CompCredentials) → Retrieved

module _ (config : CredsConfig) (names : List Str) (attempt : ℕ → Attempt) where
  abbrev pub answer : ℕ → Passwords
  answer i = get_passwords (attempt i).secrets config names

  -- The rounds left, the number of tries so far, and the passwords and error of the last.
  unfoldable pub retry : ℕ → ℕ → Passwords → Retrieved
  unfolding found_all
  retry zero i last = finished last
  retry (suc rounds) i last = elim (attempt i).done_before [
    | true ↦ canceled last.0
    | false ↦ elim (found_all (answer i).0 names) [
      | true ↦ finished (answer i)
      | false ↦ elim (attempt i).done_in_wait [
        | true ↦ canceled (answer i).0
        | false ↦ retry rounds (i + 1) (answer i)
      ]
    ]
  ]

abbrev store_retrieved : CredsService → Error → Retrieved → CredsService × Passwords
store_retrieved cs ctx_err (finished passwords) =
    (record cs { previous_passwords = passwords.0 }, passwords)
store_retrieved cs ctx_err (canceled passwords) = (cs, (passwords, some ctx_err))

-- `ctx_err` is ctx.Err() once the context is done.
unfoldable pub get_passwords_with_retries :
    CredsService → Error → List Str → ℕ → (ℕ → Attempt) → CredsService × Passwords
unfolding retry
get_passwords_with_retries cs ctx_err names max_tries attempt =
    store_retrieved cs ctx_err (retry cs.config names attempt max_tries 0 (none, none))

-- previous[xname], the zero value where there is none
unfoldable pub previous_creds : Map CompCredentials → Str → CompCredentials
previous_creds previous name = elim (get previous name) [
  | none ↦ record { username = []; password = [] }
  | some creds ↦ creds
]

abbrev pub differs : CompCredentials → CompCredentials → Bool
differs current previous =
    not (current.username == previous.username) || not (current.password == previous.password)

abbrev pub lookup_creds : Option (Map CompCredentials) → Str → Option CompCredentials
lookup_creds none name = none
lookup_creds (some m) name = get m name

abbrev pub name_changed : Option CompCredentials → CompCredentials → Bool
name_changed none previous = false
name_changed (some current) previous = differs current previous

-- The loop over the names; one without current credentials is passed over.
unfoldable pub any_changed : Option (Map CompCredentials) → Map CompCredentials → List Str → Bool
unfolding previous_creds
any_changed current previous [] = false
any_changed current previous (name ∷ names) =
    let rest = any_changed current previous names in
    if name_changed (lookup_creds current name) (previous_creds previous name) then true else rest

abbrev compare_passwords : Map CompCredentials → List Str → Passwords → Result Bool
compare_passwords previous names (current, none) = ok (any_changed current previous names)
compare_passwords previous names (current, some e) = err e

unfoldable pub check_if_passwords_changed : CredsService → Secrets → List Str → Result Bool
unfolding get_passwords any_changed
check_if_passwords_changed cs secrets names = elim cs.previous_passwords [
  | none ↦ ok false
  | some previous ↦ compare_passwords previous names (get_passwords secrets cs.config names)
]
