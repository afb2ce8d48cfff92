-- ===== src/Creds/Config.antt =====
-- internal/creds/config.go, and the validation of the adapter's name in creds.go.
use remote_console.Prelude.{
  ◌||◌, Option, none, some, [], ◌++◌, Result, ok, err, Error, if◌then◌else◌,
}
use remote_console.Prelude.Text.{Str, str, ◌==◌}

-- A named string type in the source.
abbrev pub StorageAdapter : Type 0
StorageAdapter = Str

abbrev pub storage_adapter_vault : StorageAdapter
storage_adapter_vault = str "vault"

abbrev pub storage_adapter_local : StorageAdapter
storage_adapter_local = str "local"

pub record CredsConfig : Type 0 where
  pub ssh_console_key_path : Str
  pub secure_storage_adapter : StorageAdapter
  pub vault_base_path : Str
  pub vault_role : Str
  pub local_store_file_path : Str
  pub local_store_key : Str
  pub secure_storage_ssh_keys_path : Str
  pub secure_storage_passwords_path : Str

unfoldable pub default_creds_config : CredsConfig
default_creds_config = record {
  ssh_console_key_path = str "/app/conman.key";
  secure_storage_adapter = storage_adapter_vault;
  vault_base_path = [];
  vault_role = [];
  local_store_file_path = [];
  local_store_key = [];
  secure_storage_ssh_keys_path = [];
  secure_storage_passwords_path = str "hms-creds";
}

unfoldable pub validate : StorageAdapter → Option Error
validate s =
    if s == storage_adapter_vault || s == storage_adapter_local
    then none
    else some (Error.new (str "invalid storage adapter \"" ++ (s ++ str "\"")))

abbrev adapter_or : StorageAdapter → Option Error → Result StorageAdapter
adapter_or adapter none = ok adapter
adapter_or adapter (some e) = err e

unfoldable pub new_storage_adapter : Str → Result StorageAdapter
unfolding validate
new_storage_adapter value = adapter_or value (validate value)
