-- ===== src/Creds/Keys/Again.antt =====
-- A second call finds nothing new.
use remote_console.Prelude.{
  ◌≡◌, refl, inl, inr, Bool, true, false, Option, none, some, ok, arith, Option-cases, Bool-cases,
}
use remote_console.Prelude.Text.{Str, ==-refl, ==_iff}
use remote_console.Prelude.Map.{Map}
use remote_console.Creds.Storage.{SshKeys, Secrets}
use remote_console.Creds.Config.{CredsConfig}
use remote_console.Creds.Passwords.{CredsService}
use remote_console.Creds.Keys.{
  KeyIo, KeyState, is_new_hash, hash_bytes, ensure_certificate, ensure_console_keys_present,
}
use remote_console.Creds.Keys.Synced.{Serves, is_new_hash-false}

-- The service keeps the hashes of the keys.
pub record HasSeen (cs : CredsService) (io : KeyIo) (keys : SshKeys) : Type 0 where
  pub key :
      (h : Str) → io.hash_string keys.private_key ≡ ok h → cs.previous_private_key_hash ≡ some h
  pub cert :
      (c h : Str)
      → keys.certificate ≡ some c
      → io.hash_string c ≡ ok h
      → cs.previous_cert_hash ≡ some h

-- Hashing does not fail.
pub record Hashes (io : KeyIo) (keys : SshKeys) : Type 0 where
  pub key_hash : Str
  pub key : io.hash_string keys.private_key ≡ ok key_hash
  pub cert : (c : Str) → keys.certificate ≡ some c → (h : Str) × (io.hash_string c ≡ ok h)

ensure_certificate-seen :
    (io : KeyIo) (cs : CredsService) (disk : Map Str) (changed : Bool) (cert : Option Str)
    (t : KeyState) (r : Bool)
    → ensure_certificate io cs disk changed cert ≡ (t, ok r)
    → (t.service.previous_private_key_hash ≡ cs.previous_private_key_hash)
      × (t.service.config ≡ cs.config)
      × ((c h : Str)
          → cert ≡ some c
          → io.hash_string c ≡ ok h
          → t.service.previous_cert_hash ≡ some h)
unfolding ensure_certificate
ensure_certificate-seen io cs disk changed none t r e =
    (ground arith, ground arith, λ c h k. absurd (cc))
ensure_certificate-seen io cs disk changed (some d) t r e = (
  ground arith,
  ground arith,
  λ c h same hashed. ground (
    arith,
    ==_iff h (hash_bytes cs.previous_cert_hash),
    is_new_hash-false cs.previous_cert_hash h,
  ),
)

module _ (io : KeyIo) (cs : CredsService) (disk : Map Str) (changed : Bool) (keys : SshKeys)
    (t : KeyState) (r : Bool) (h : Str) (hashed : io.hash_string keys.private_key ≡ ok h)
    (e : ensure_certificate io cs disk changed keys.certificate ≡ (t, ok r))
    (stored : cs.previous_private_key_hash ≡ some h) where
  HasSeen-of_certificate : (t.service.config ≡ cs.config) × HasSeen t.service io keys
  HasSeen-of_certificate =
      let seen = ensure_certificate-seen io cs disk changed keys.certificate t r e in
      (seen.1, record { key = λ g q. ground (arith, seen.0); cert = seen.2 })

ensure_console_keys_present-HasSeen :
    (io : KeyIo) (cs : CredsService) (disk : Map Str) (secrets : Secrets) (keys : SshKeys)
    (t : KeyState) (r : Bool)
    → Serves secrets cs.config keys
    → Hashes io keys
    → ensure_console_keys_present io cs disk secrets ≡ (t, ok r)
    → (t.service.config ≡ cs.config) × HasSeen t.service io keys
unfolding ensure_console_keys_present
ensure_console_keys_present-HasSeen io cs disk secrets keys t r s h e =
    elim (Bool-cases (is_new_hash cs.previous_private_key_hash (some h.key_hash))) [
      | inl new ↦
          HasSeen-of_certificate io (record cs { previous_private_key_hash = some h.key_hash })
            (io.write_file disk cs.config.ssh_console_key_path keys.private_key).0 true keys t r
            h.key_hash h.key (ground (arith, s, h.key)) refl
      | inr old ↦
          HasSeen-of_certificate io cs disk false keys t r h.key_hash h.key
            (ground (arith, s, h.key))
            (is_new_hash-false cs.previous_private_key_hash h.key_hash old)
    ]

pub ensure_console_keys_present_idle :
    (io : KeyIo) (cs : CredsService) (disk : Map Str) (secrets : Secrets) (keys : SshKeys)
    → Serves secrets cs.config keys
    → Hashes io keys
    → HasSeen cs io keys
    → ensure_console_keys_present io cs disk secrets
      ≡ (record { service = cs; disk = disk }, ok false)
unfolding ensure_console_keys_present
ensure_console_keys_present_idle io cs disk secrets keys s h seen =
    elim (Option-cases keys.certificate) [
      | inl none_there ↦ ground (arith, s, h.key, seen.key h.key_hash h.key, ==-refl h.key_hash)
      | inr (c, there) ↦
          let (hc, hashed) = h.cert c there in
          ground (
            arith,
            s,
            h.key,
            seen.key h.key_hash h.key,
            seen.cert c hc there hashed,
            ==-refl h.key_hash,
            ==-refl hc,
          )
    ]

Serves-config :
    (secrets : Secrets) (config config' : CredsConfig) (keys : SshKeys)
    → config' ≡ config
    → Serves secrets config keys
    → Serves secrets config' keys
Serves-config secrets config config' keys e s = rw e s

-- After a call that returned no error, a second one, with the same keys in the store, changes
-- neither the service nor the disk, and reports no change.
pub ensure_console_keys_present_again :
    (io : KeyIo) (cs : CredsService) (disk : Map Str) (secrets later : Secrets) (keys : SshKeys)
    (t : KeyState) (r : Bool)
    → Serves secrets cs.config keys
    → Serves later cs.config keys
    → Hashes io keys
    → ensure_console_keys_present io cs disk secrets ≡ (t, ok r)
    → ensure_console_keys_present io t.service t.disk later ≡ (t, ok false)
ensure_console_keys_present_again io cs disk secrets later keys t r s s' h e =
    let (config, seen) = ensure_console_keys_present-HasSeen io cs disk secrets keys t r s h e in
    ensure_console_keys_present_idle io t.service t.disk later keys
      (Serves-config later cs.config t.service.config keys config s') h seen

-- No call changes the configuration.
pub config-ensure_console_keys_present :
    (io : KeyIo) (cs : CredsService) (disk : Map Str) (secrets : Secrets) (keys : SshKeys)
    (t : KeyState) (r : Bool)
    → Serves secrets cs.config keys
    → Hashes io keys
    → ensure_console_keys_present io cs disk secrets ≡ (t, ok r)
    → t.service.config ≡ cs.config
config-ensure_console_keys_present io cs disk secrets keys t r s h e =
    (ensure_console_keys_present-HasSeen io cs disk secrets keys t r s h e).0
