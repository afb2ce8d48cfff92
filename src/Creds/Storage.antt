-- ===== src/Creds/Storage.antt =====
-- internal/creds/creds.go: opening the secure store, and one query for passwords.
use remote_console.Prelude.{
  Bool, false, Option, none, some, List, ◌++◌, Result, ok, err, Error, if◌then◌else◌,
}
use remote_console.Prelude.Text.{Str, str, ◌==◌}
use remote_console.Prelude.Map.{Map}
use remote_console.Conman.Entries.{CompCredentials}
use remote_console.Creds.Config.{CredsConfig, storage_adapter_vault, storage_adapter_local}

-- sshKeys: the record that the store holds for the console keys.
pub record SshKeys : Type 0 where
  pub private_key : Str
  pub certificate : Option Str

-- An adapter, by what it was made from.
pub data SecureStorage : Type 0 where
  vault : (base_path role : Str) → SecureStorage
  local : (key file_path : Str) (create : Bool) → SecureStorage

-- hms-securestorage and hms-compcredentials at one moment. The map of credentials may be nil.
pub record Secrets : Type 0 where
  pub opens : SecureStorage → Option Error
  pub lookup : SecureStorage → Str → Result SshKeys
  pub get_comp_creds : SecureStorage → Str → List Str → Result (Option (Map CompCredentials))

abbrev open_adapter : Secrets → SecureStorage → Str → Result SecureStorage
open_adapter secrets ss message = elim (secrets.opens ss) [
  | none ↦ ok ss
  | some e ↦ err (Error.wrap message e)
]

unfoldable pub create_secure_storage : Secrets → CredsConfig → Result SecureStorage
create_secure_storage secrets config =
    if config.secure_storage_adapter == storage_adapter_vault
    then open_adapter secrets (vault config.vault_base_path config.vault_role)
        (str "unable to create vault secure storage adapter: ")
    else if config.secure_storage_adapter == storage_adapter_local
    then open_adapter secrets (local config.local_store_key config.local_store_file_path false)
        (str "unable to create local file secure storage adapter: ")
    else err
        (Error.new (str "invalid secure storage adapter type: " ++ config.secure_storage_adapter))

-- A map that may be nil, and an error.
abbrev pub Passwords : Type 0
Passwords = Option (Map CompCredentials) × Option Error

abbrev from_creds : Result (Option (Map CompCredentials)) → Passwords
from_creds (ok ccreds) = (ccreds, none)
from_creds (err e) = (none, some (Error.wrap (str "error creating comp creds store: ") e))

abbrev from_storage : Secrets → CredsConfig → List Str → Result SecureStorage → Passwords
from_storage secrets config names (err e) =
    (none, some (Error.wrap (str "error creating secure storage adapter: ") e))
from_storage secrets config names (ok ss) =
    from_creds (secrets.get_comp_creds ss config.secure_storage_passwords_path names)

unfoldable pub get_passwords : Secrets → CredsConfig → List Str → Passwords
unfolding create_secure_storage
get_passwords secrets config names =
    from_storage secrets config names (create_secure_storage secrets config)
