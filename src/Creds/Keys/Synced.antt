-- ===== src/Creds/Keys/Synced.antt =====
-- After a call that returns no error, the key file holds the key of the store.
use remote_console.Prelude.{
  ℕ, ◌≡◌, ap, ◌∙◌, inl, inr, Bool, true, false, Option, none, some, [], ◌∷◌, ◌++◌, ok, arith,
  Bool-cases, Result-cases, length, length-append, if◌then◌else◌,
}
use remote_console.Prelude.Text.{Str, ◌==◌, ==_iff, ==-sound, ==-refl}
use remote_console.Prelude.Map.{Map, get}
use remote_console.Creds.Config.{CredsConfig}
use remote_console.Creds.Storage.{SshKeys, SecureStorage, Secrets, create_secure_storage}
use remote_console.Creds.Passwords.{CredsService}
use remote_console.Creds.Keys.{
  KeyIo, KeyState, cert_path, is_new_hash, ensure_certificate, ensure_console_keys_present,
}

-- os.WriteFile: without an error the file holds the content, and no other file has changed.
pub record Writes (io : KeyIo) : Type 0 where
  pub written :
      (disk : Map Str) (path content : Str)
      → (io.write_file disk path content).1 ≡ none
      → (other : Str)
      → get (io.write_file disk path content).0 other
        ≡ (if path == other then some content else get disk other)

-- The store opens and has the keys.
pub record Serves (secrets : Secrets) (config : CredsConfig) (keys : SshKeys) : Type 0 where
  pub configured : (config.secure_storage_ssh_keys_path == []) ≡ false
  pub storage : SecureStorage
  pub opened : create_secure_storage secrets config ≡ ok storage
  pub found : secrets.lookup storage config.secure_storage_ssh_keys_path ≡ ok keys

-- The key file has the hash.
abbrev pub HasHash : KeyIo → CredsConfig → Map Str → Str → Type 0
HasHash io config disk h =
    (content : Str) × (get disk config.ssh_console_key_path ≡ some content)
    × (io.hash_string content ≡ ok h)

-- The hash that the service keeps is that of the key file.
abbrev pub IsSynced : KeyIo → CredsService → Map Str → Type 0
IsSynced io cs disk =
    (h : Str) → cs.previous_private_key_hash ≡ some h → HasHash io cs.config disk h

append-ne : (s t : Str) (c : ℕ) → ((s ++ c ∷ t) == s) ≡ false
append-ne s t c = elim (Bool-cases ((s ++ c ∷ t) == s)) [
  | inr ne ↦ ne
  | inl e ↦ absurd (omega (arith, length-append s (c ∷ t), ap length (==-sound (s ++ c ∷ t) s e)))
]

cert_path-ne : (config : CredsConfig) → (cert_path config == config.ssh_console_key_path) ≡ false
cert_path-ne config = append-ne config.ssh_console_key_path _ _

get-write_file :
    {io : KeyIo}
    → Writes io
    → (disk : Map Str) (path content other : Str) → (io.write_file disk path content).1 ≡ none
    → get (io.write_file disk path content).0 other
      ≡ (if path == other then some content else get disk other)
get-write_file w disk path content other ok' = w.written disk path content ok' other

ensure_certificate_keeps :
    (io : KeyIo) (cs : CredsService) (disk : Map Str) (changed : Bool) (cert : Option Str)
    (t : KeyState) (r : Bool)
    → Writes io
    → ensure_certificate io cs disk changed cert ≡ (t, ok r)
    → (get t.disk cs.config.ssh_console_key_path ≡ get disk cs.config.ssh_console_key_path)
      × (t.service.previous_private_key_hash ≡ cs.previous_private_key_hash)
      × (t.service.config ≡ cs.config)
unfolding ensure_certificate
ensure_certificate_keeps io cs disk changed none t r w h = ground arith
ensure_certificate_keeps io cs disk changed (some cert) t r w h = ground (
  arith,
  get-write_file w disk (cert_path cs.config) cert cs.config.ssh_console_key_path,
  cert_path-ne cs.config,
)

pub is_new_hash-false :
    (previous : Option Str) (h : Str) → is_new_hash previous (some h) ≡ false → previous ≡ some h
is_new_hash-false none h e = cc
is_new_hash-false (some p) h e = ground (arith, ==_iff h p)

module _ (io : KeyIo) (cs : CredsService) (disk : Map Str) (secrets : Secrets) (keys : SshKeys)
    (t : KeyState) (r : Bool) (w : Writes io) (served : Serves secrets cs.config keys)
    (e : ensure_console_keys_present io cs disk secrets ≡ (t, ok r)) (h : Str)
    (hashed : io.hash_string keys.private_key ≡ ok h) where
  kept_key :
      is_new_hash cs.previous_private_key_hash (some h) ≡ false
      → IsSynced io cs disk
      → (t.service.previous_private_key_hash ≡ some h) × HasHash io t.service.config t.disk h
  kept_key old synced = (
    same.1 ∙ is_new_hash-false cs.previous_private_key_hash h old,
    rw (same.2, same.0) (synced h (is_new_hash-false cs.previous_private_key_hash h old)),
  )
    where
      reached : ensure_certificate io cs disk false keys.certificate ≡ (t, ok r)
      reached = unfold ensure_console_keys_present in ground (arith, served)

      same :
          (get t.disk cs.config.ssh_console_key_path ≡ get disk cs.config.ssh_console_key_path)
          × (t.service.previous_private_key_hash ≡ cs.previous_private_key_hash)
          × (t.service.config ≡ cs.config)
      same = ensure_certificate_keeps io cs disk false keys.certificate t r w reached

  written_key :
      is_new_hash cs.previous_private_key_hash (some h) ≡ true
      → (t.service.previous_private_key_hash ≡ some h) × HasHash io t.service.config t.disk h
  written_key new = (
    same.1,
    rw (same.2, same.0)
        (
          keys.private_key,
          get-write_file w disk cs.config.ssh_console_key_path keys.private_key
                cs.config.ssh_console_key_path no_error
              ∙ rw (==-refl cs.config.ssh_console_key_path),
          hashed,
        ),
  )
    where
      no_error : (io.write_file disk cs.config.ssh_console_key_path keys.private_key).1 ≡ none
      no_error = unfold ensure_console_keys_present in ground (arith, served)

      reached :
          ensure_certificate io
            (record cs { previous_private_key_hash = some h })
            (io.write_file disk cs.config.ssh_console_key_path keys.private_key).0
            true
            keys.certificate
          ≡ (t, ok r)
      reached = unfold ensure_console_keys_present in ground (arith, served)

      same :
          (get t.disk cs.config.ssh_console_key_path
            ≡ get
                (io.write_file disk cs.config.ssh_console_key_path keys.private_key).0
                cs.config.ssh_console_key_path)
          × (t.service.previous_private_key_hash ≡ some h)
          × (t.service.config ≡ cs.config)
      same =
          ensure_certificate_keeps io (record cs { previous_private_key_hash = some h }) _ true
            keys.certificate t r w reached

-- A call on a service in step with its key file, to a store that serves keys, writes what is new:
-- if it returns no error, the key file and the service both have the hash of the store's key.
pub ensure_console_keys_present-IsSynced :
    (io : KeyIo) (cs : CredsService) (disk : Map Str) (secrets : Secrets) (keys : SshKeys)
    (t : KeyState) (r : Bool)
    → Writes io
    → Serves secrets cs.config keys
    → IsSynced io cs disk
    → ensure_console_keys_present io cs disk secrets ≡ (t, ok r)
    → (h : Str) × (io.hash_string keys.private_key ≡ ok h)
      × (t.service.previous_private_key_hash ≡ some h)
      × HasHash io t.service.config t.disk h
unfolding ensure_console_keys_present
ensure_console_keys_present-IsSynced io cs disk secrets keys t r w served synced e =
    elim (Result-cases (io.hash_string keys.private_key)) [
      | inr (e', failed) ↦ absurd (ground (arith, served))
      | inl (h, hashed) ↦ elim (Bool-cases (is_new_hash cs.previous_private_key_hash (some h))) [
        | inl new ↦
            let (stored, has) = written_key io cs disk secrets keys t r w served e h hashed new in
            (h, hashed, stored, has)
        | inr old ↦
            let (stored, has) =
              kept_key io cs disk secrets keys t r w served e h hashed old synced in
            (h, hashed, stored, has)
      ]
    ]
