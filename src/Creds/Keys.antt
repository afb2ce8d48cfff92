-- ===== src/Creds/Keys.antt =====
-- internal/creds/creds.go: the SSH key and certificate files for console access.
pub mod Lost
pub mod Synced
pub mod Again
use remote_console.Prelude.{
  Bool, true, false, ◌||◌, not, Option, none, some, List, [], ◌∷◌, ◌++◌, Result, ok, err, Error,
  if◌then◌else◌,
}
use remote_console.Prelude.Text.{Str, str, ◌==◌}
use remote_console.Prelude.Map.{Map}
use remote_console.Creds.Config.{CredsConfig}
use remote_console.Creds.Storage.{SshKeys, SecureStorage, Secrets, create_secure_storage}
use remote_console.Creds.Passwords.{CredsService}

-- crypto/sha256 and os.WriteFile. `write_file disk path content` is the disk after the write, and
-- the error of the write.
pub record KeyIo : Type 0 where
  pub hash_string : Str → Result Str
  pub write_file : Map Str → Str → Str → Map Str × Option Error

pub record KeyState : Type 0 where
  pub service : CredsService
  pub disk : Map Str

-- What a call leaves, and what it returns.
abbrev pub KeyResult : Type 0
KeyResult = KeyState × Result Bool

-- A nil hash has no bytes.
abbrev pub hash_bytes : Option Str → Str
hash_bytes none = []
hash_bytes (some h) = h

-- previous == nil || !bytes.Equal(new, previous)
abbrev pub is_new_hash : Option Str → Option Str → Bool
is_new_hash none new = true
is_new_hash (some previous) new = not (hash_bytes new == previous)

abbrev pub cert_path : CredsConfig → Str
cert_path config = config.ssh_console_key_path ++ str "-cert.pub"

abbrev hash_or_nil : Result Str → Option Str
hash_or_nil (ok h) = some h
hash_or_nil (err e) = none

abbrev cert_written : CredsService → Map Str × Option Error → KeyResult
cert_written cs (disk, some e) = (
  record { service = cs; disk = disk },
  err (Error.wrap (str "failed to write public ssh cert: ") e),
)
cert_written cs (disk, none) = (record { service = cs; disk = disk }, ok true)

module _ (io : KeyIo) where
  -- `changed` is retVal so far.
  unfoldable pub ensure_certificate : CredsService → Map Str → Bool → Option Str → KeyResult
  ensure_certificate cs disk changed none = (record { service = cs; disk = disk }, ok changed)
  ensure_certificate cs disk changed (some cert) =
      let new = hash_or_nil (io.hash_string cert) in
      if is_new_hash cs.previous_cert_hash new
      then cert_written (record cs { previous_cert_hash = new })
          (io.write_file disk (cert_path cs.config) cert)
      else (record { service = cs; disk = disk }, ok changed)

  abbrev key_written : CredsService → Option Str → Map Str × Option Error → KeyResult
  key_written cs cert (disk, some e) = (
    record { service = cs; disk = disk },
    err (Error.wrap (str "failed to write private ssh key received from vault: ") e),
  )
  key_written cs cert (disk, none) = ensure_certificate cs disk true cert

  -- The hash is kept before the file is written.
  unfoldable pub ensure_private_key : CredsService → Map Str → SshKeys → Result Str → KeyResult
  unfolding ensure_certificate
  ensure_private_key cs disk keys (err e) = (
    record { service = cs; disk = disk },
    err (Error.wrap (str "failed to hash private ssh key received from vault: ") e),
  )
  ensure_private_key cs disk keys (ok new) =
      if is_new_hash cs.previous_private_key_hash (some new)
      then key_written (record cs { previous_private_key_hash = some new }) keys.certificate
          (io.write_file disk cs.config.ssh_console_key_path keys.private_key)
      else ensure_certificate cs disk false keys.certificate

  abbrev with_keys : CredsService → Map Str → Result SshKeys → KeyResult
  with_keys cs disk (err e) = (
    record { service = cs; disk = disk },
    err (Error.wrap (str "unable to lookup private key: ") e),
  )
  with_keys cs disk (ok keys) = ensure_private_key cs disk keys (io.hash_string keys.private_key)

  abbrev with_storage : CredsService → Map Str → Secrets → Result SecureStorage → KeyResult
  with_storage cs disk secrets (err e) = (
    record { service = cs; disk = disk },
    err (Error.wrap (str "unable to create secure storage adapter: ") e),
  )
  with_storage cs disk secrets (ok ss) =
      with_keys cs disk (secrets.lookup ss cs.config.secure_storage_ssh_keys_path)

  unfoldable pub ensure_console_keys_present : CredsService → Map Str → Secrets → KeyResult
  unfolding ensure_private_key
  ensure_console_keys_present cs disk secrets =
      if cs.config.secure_storage_ssh_keys_path == []
      then (record { service = cs; disk = disk }, ok false)
      else with_storage cs disk secrets (create_secure_storage secrets cs.config)
