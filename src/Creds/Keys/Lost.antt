-- ===== src/Creds/Keys/Lost.antt =====
-- A key file that could not be written is not tried again.
use remote_console.Prelude.{◌≡◌, ◌≢◌, Bool, true, false, none, some, ok, Error, arith}
use remote_console.Prelude.Text.{Str, ==-refl}
use remote_console.Prelude.Map.{Map}
use remote_console.Creds.Storage.{SshKeys, Secrets}
use remote_console.Creds.Passwords.{CredsService}
use remote_console.Creds.Keys.{KeyIo, is_new_hash, ensure_console_keys_present}
use remote_console.Creds.Keys.Synced.{Serves}

-- When the store serves a key without a certificate, and the write of the key, which is new, fails, the
-- next call with the same keys in the store returns no error and no change, and writes nothing,
-- whatever the disk would do: the key file stays as the failed write left it.
pub ensure_console_keys_present_lost :
    (io later : KeyIo) (cs : CredsService) (disk disk' : Map Str) (secrets : Secrets)
    (keys : SshKeys) (h : Str) (e : Error)
    → Serves secrets cs.config keys
    → keys.certificate ≡ none
    → io.hash_string keys.private_key ≡ ok h
    → later.hash_string keys.private_key ≡ ok h
    → is_new_hash cs.previous_private_key_hash (some h) ≡ true
    → io.write_file disk cs.config.ssh_console_key_path keys.private_key ≡ (disk', some e)
    → let first = ensure_console_keys_present io cs disk secrets in
      ((b : Bool) → first.1 ≢ ok b)
      × (ensure_console_keys_present later first.0.service first.0.disk secrets
          ≡ (first.0, ok false))
      × (first.0.disk ≡ disk')
unfolding ensure_console_keys_present
ensure_console_keys_present_lost io later cs disk disk' secrets keys h e s c hash hash' new failed =
    ground (arith, s, ==-refl h)
