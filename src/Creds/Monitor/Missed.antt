-- ===== src/Creds/Monitor/Missed.antt =====
-- A change of the keys that a check does not report.
use remote_console.Prelude.{◌≡◌, Bool, true, some, List, ok, err, Error, arith, length, ltb, ◌&&◌}
use remote_console.Prelude.Text.{Str}
use remote_console.Prelude.Map.{Map}
use remote_console.Nodes.Registry.{NodeMap}
use remote_console.Nodes.Ids.{node_ids}
use remote_console.Creds.Storage.{SshKeys, Secrets}
use remote_console.Creds.Passwords.{CredsService, check_if_passwords_changed}
use remote_console.Creds.Keys.{KeyIo, KeyState, ensure_console_keys_present}
use remote_console.Creds.Keys.Synced.{Serves}
use remote_console.Creds.Keys.Again.{
  Hashes, config-ensure_console_keys_present, ensure_console_keys_present_again,
}
use remote_console.Creds.Monitor.{check_for_updates}

-- New keys that arrive while the passwords cannot be read are written, but the check returns an
-- error and no change, and every later check with the same keys reports what the passwords alone
-- give: that the keys changed is never reported.
pub check_for_updates_missed :
    (io : KeyIo) (cs : CredsService) (disk : Map Str) (secrets later : Secrets) (nodes : NodeMap)
    (ids : List Str) (keys : SshKeys) (t : KeyState) (e : Error) (b : Bool)
    → node_ids nodes ≡ some ids
    → Serves secrets cs.config keys
    → Serves later cs.config keys
    → Hashes io keys
    → ensure_console_keys_present io cs disk secrets ≡ (t, ok true)
    → check_if_passwords_changed t.service secrets ids ≡ err e
    → check_if_passwords_changed t.service later ids ≡ ok b
    → (check_for_updates io cs disk secrets nodes ≡ some (t, err e))
      × (check_for_updates io t.service t.disk later nodes ≡ some (t, ok (ltb 0 (length ids) && b)))
check_for_updates_missed io cs disk secrets later nodes ids keys t e b listed s s' h first failed
      second =
    unfold check_for_updates in
    ground (
      arith,
      s,
      ensure_console_keys_present_again io cs disk secrets later keys t true s s' h first,
      config-ensure_console_keys_present io cs disk secrets keys t true s h first,
    )
