-- ===== src/Creds/Monitor.antt =====
-- internal/creds/monitor.go: CheckForUpdates.
pub mod Missed
use remote_console.Prelude.{
  ◌<◌, Bool, true, false, ◌||◌, ◌&&◌, Option, none, some, List, [], ◌∷◌, Result, ok, err, Error,
  if◌then◌else◌, length, ltb,
}
use remote_console.Prelude.Text.{Str, ◌==◌}
use remote_console.Prelude.Map.{Map}
use remote_console.Nodes.Registry.{NodeMap}
use remote_console.Nodes.Ids.{node_ids}
use remote_console.Creds.Storage.{Secrets}
use remote_console.Creds.Passwords.{CredsService, check_if_passwords_changed}
use remote_console.Creds.Keys.{KeyIo, KeyState, KeyResult, ensure_console_keys_present}

-- The keys are looked at only if they have a path.
abbrev check_keys : KeyIo → CredsService → Map Str → Secrets → KeyResult
check_keys io cs disk secrets =
    if cs.config.secure_storage_ssh_keys_path == []
    then (record { service = cs; disk = disk }, ok false)
    else ensure_console_keys_present io cs disk secrets

abbrev combine : List Str → Bool → Result Bool → Result Bool
combine ids keys_changed (err e) = err e
combine ids keys_changed (ok passwords_changed) =
    ok ((ltb 0 (length ids) && passwords_changed) || keys_changed)

abbrev check_passwords : Secrets → List Str → KeyResult → KeyResult
check_passwords secrets ids (t, err e) = (t, err e)
check_passwords secrets ids (t, ok keys_changed) =
    (t, combine ids keys_changed (check_if_passwords_changed t.service secrets ids))

abbrev check_ids : KeyIo → CredsService → Map Str → Secrets → Option (List Str) → Option KeyResult
check_ids io cs disk secrets none = none
check_ids io cs disk secrets (some ids) =
    some (check_passwords secrets ids (check_keys io cs disk secrets))

-- `none` is the panic at a nil pointer of the node table.
unfoldable pub check_for_updates :
    KeyIo → CredsService → Map Str → Secrets → NodeMap → Option KeyResult
unfolding ensure_console_keys_present check_if_passwords_changed node_ids
check_for_updates io cs disk secrets nodes = check_ids io cs disk secrets (node_ids nodes)
