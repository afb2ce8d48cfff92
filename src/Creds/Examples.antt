-- ===== src/Creds/Examples.antt =====
-- A store, a disk and a few nodes, and the theorems about internal/creds at them.
use remote_console.Prelude.{
  ℕ, zero, suc, ◌≡◌, ◌≢◌, refl, ◌↔◌, Bool, true, false, Option, none, some, [], ◌∷◌, Result, ok,
  err, Error, In,
}
use remote_console.Prelude.Text.{Str, str, ◌==◌}
use remote_console.Prelude.Map.{Map, get, put, get-put}
use remote_console.Nodes.Ids.{node_ids}
use remote_console.Nodes.Examples.{before}
use remote_console.Conman.Entries.{CompCredentials}
use remote_console.Creds.Config.{CredsConfig, storage_adapter_vault}
use remote_console.Creds.Storage.{SshKeys, Secrets, vault, get_passwords, create_secure_storage}
use remote_console.Creds.Passwords.{
  CredsService, Attempt, found_all, get_passwords_with_retries, check_if_passwords_changed,
  previous_creds,
}
use remote_console.Creds.Passwords.Retries.{RetrievalEnds, get_passwords_with_retries_ends}
use remote_console.Creds.Passwords.Changes.{IsChanged, check_if_passwords_changed_iff}
use remote_console.Creds.Keys.{KeyIo, KeyState, ensure_console_keys_present}
use remote_console.Creds.Keys.Synced.{
  Writes, Serves, IsSynced, HasHash, ensure_console_keys_present-IsSynced,
}
use remote_console.Creds.Keys.Lost.{ensure_console_keys_present_lost}
use remote_console.Creds.Keys.Again.{Hashes}
use remote_console.Creds.Monitor.{check_for_updates}
use remote_console.Creds.Monitor.Missed.{check_for_updates_missed}

abbrev config : CredsConfig
config = record {
  ssh_console_key_path = str "/app/conman.key";
  secure_storage_adapter = storage_adapter_vault;
  vault_base_path = [];
  vault_role = [];
  local_store_file_path = [];
  local_store_key = [];
  secure_storage_ssh_keys_path = str "keys";
  secure_storage_passwords_path = str "hms-creds";
}

abbrev pub fresh : CredsService
fresh = record {
  config = config;
  previous_passwords = none;
  previous_private_key_hash = none;
  previous_cert_hash = none;
}

abbrev creds_of : Str → Map CompCredentials
creds_of password = (str "x1", record { username = str "root"; password = password }) ∷ []

abbrev keys : SshKeys
keys = record { private_key = str "PRIVATE"; certificate = none }

abbrev answers : Result (Option (Map CompCredentials)) → Secrets
answers ccreds = record {
  opens = λ ss. none;
  lookup = λ ss path. ok keys;
  get_comp_creds = λ ss path names. ccreds;
}

abbrev pub full : Secrets
full = answers (ok (some (creds_of (str "pw"))))

abbrev changed : Secrets
changed = answers (ok (some (creds_of (str "new"))))

abbrev broken : Secrets
broken = answers (err (Error.new (str "sealed")))

-- The store is sealed at the first try.
abbrev pub attempt : ℕ → Attempt
attempt zero = record { done_before = false; secrets = broken; done_in_wait = false }
attempt (suc i) = record { done_before = false; secrets = full; done_in_wait = false }

get_passwords_with_retries_ends_example :
    RetrievalEnds fresh Error.canceled
      (str "x1" ∷ [])
      15
      attempt
      (get_passwords_with_retries fresh Error.canceled (str "x1" ∷ []) 15 attempt)
get_passwords_with_retries_ends_example =
    get_passwords_with_retries_ends fresh Error.canceled (str "x1" ∷ []) 15 attempt

retrieval_runs :
    (get_passwords_with_retries fresh Error.canceled (str "x1" ∷ []) 15 attempt).1
    ≡ (some (creds_of (str "pw")), none)
unfolding get_passwords_with_retries get_passwords found_all get ◌==◌
retrieval_runs = refl

abbrev ready : CredsService
ready = record fresh { previous_passwords = some (creds_of (str "pw")) }

changed_answers : get_passwords changed config (str "x1" ∷ []) ≡ (some (creds_of (str "new")), none)
unfolding get_passwords ◌==◌
changed_answers = refl

check_if_passwords_changed_iff_example :
    (check_if_passwords_changed ready changed (str "x1" ∷ []) ≡ ok true) ↔ (
      (name : Str) × In name (str "x1" ∷ [])
      × IsChanged (some (creds_of (str "new"))) (creds_of (str "pw")) name)
check_if_passwords_changed_iff_example =
    check_if_passwords_changed_iff ready changed (str "x1" ∷ []) (creds_of (str "pw"))
      (some (creds_of (str "new"))) refl changed_answers

full_answers : get_passwords full config (str "x1" ∷ []) ≡ (some (creds_of (str "pw")), none)
unfolding get_passwords ◌==◌
full_answers = refl

-- A disk that takes every write, and one that takes none.
abbrev pub working : KeyIo
working = record {
  hash_string = λ s. ok s;
  write_file = λ disk path content. (put disk path content, none);
}

abbrev read_only : KeyIo
read_only = record working {
  write_file = λ disk path content. (disk, some (Error.new (str "read-only")));
}

working-Writes : Writes working
working-Writes = record { written = λ disk path content e other. get-put disk path other content }

serves : (ccreds : Result (Option (Map CompCredentials))) → Serves (answers ccreds) config keys
unfolding create_secure_storage ◌==◌
serves ccreds = record { configured = refl; storage = vault [] []; opened = refl; found = refl }

hashes : Hashes working keys
hashes = record { key_hash = str "PRIVATE"; key = refl; cert = λ c e. absurd (cc) }

abbrev after_first : KeyState
after_first = record {
  service = record fresh { previous_private_key_hash = some (str "PRIVATE") };
  disk = (str "/app/conman.key", str "PRIVATE") ∷ [];
}

first_call : ensure_console_keys_present working fresh [] full ≡ (after_first, ok true)
unfolding ensure_console_keys_present create_secure_storage put ◌==◌
first_call = refl

fresh-IsSynced : IsSynced working fresh []
fresh-IsSynced = λ h e. absurd (cc)

ensure_console_keys_present-IsSynced_example :
    (h : Str) × (working.hash_string keys.private_key ≡ ok h)
    × (after_first.service.previous_private_key_hash ≡ some h)
    × HasHash working after_first.service.config after_first.disk h
ensure_console_keys_present-IsSynced_example =
    ensure_console_keys_present-IsSynced working fresh [] full keys after_first true working-Writes
      (serves _) fresh-IsSynced first_call

ensure_console_keys_present_lost_example :
    let first = ensure_console_keys_present read_only fresh [] full in
    ((b : Bool) → first.1 ≢ ok b)
    × (ensure_console_keys_present working first.0.service first.0.disk full ≡ (first.0, ok false))
    × (first.0.disk ≡ [])
ensure_console_keys_present_lost_example =
    ensure_console_keys_present_lost read_only working fresh [] [] full keys (str "PRIVATE")
      (Error.new (str "read-only")) (serves _) refl refl refl refl refl

abbrev late : CredsService
late = record ready { previous_passwords = some (creds_of (str "pw")) }

abbrev after_late : KeyState
after_late = record after_first {
  service = record ready { previous_private_key_hash = some (str "PRIVATE") };
}

late_call : ensure_console_keys_present working late [] broken ≡ (after_late, ok true)
unfolding ensure_console_keys_present create_secure_storage put ◌==◌
late_call = refl

ids_there : node_ids before.current_nodes ≡ some (str "x1" ∷ str "x2" ∷ [])
unfolding node_ids
ids_there = refl

late_fails :
    check_if_passwords_changed after_late.service broken (str "x1" ∷ str "x2" ∷ [])
    ≡ err (Error.wrap (str "error creating comp creds store: ") (Error.new (str "sealed")))
unfolding check_if_passwords_changed get_passwords ◌==◌
late_fails = refl

later_same :
    check_if_passwords_changed after_late.service full (str "x1" ∷ str "x2" ∷ []) ≡ ok false
unfolding check_if_passwords_changed get_passwords get previous_creds ◌==◌
later_same = refl

check_for_updates_missed_example :
    (check_for_updates working late [] broken before.current_nodes
      ≡ some (
        after_late,
        err (Error.wrap (str "error creating comp creds store: ") (Error.new (str "sealed"))),
      ))
    × (check_for_updates working after_late.service after_late.disk full before.current_nodes
        ≡ some (after_late, ok false))
check_for_updates_missed_example =
    check_for_updates_missed working late [] broken full before.current_nodes
      (str "x1" ∷ str "x2" ∷ []) keys after_late
      (Error.wrap (str "error creating comp creds store: ") (Error.new (str "sealed"))) false
      ids_there (serves _) (serves _) hashes late_call late_fails later_same
