-- ===== src/Conman/ConfigFile/Flag.antt =====
-- The UPDATE_CONFIG flag of the base configuration.
use mathlib.Core.List.{append_assoc}
use remote_console.Prelude.{
  length-append, ap, sym, ◌∙◌, ◌+◌, if◌then◌else◌, ◌↔◌, ◌≢◌, Option-cases, inl, inr, ℕ, ◌≡◌, refl,
  true, false, some, [], ◌∷◌, ◌++◌, ok, arith, length, drop,
}
use remote_console.Prelude.Text.{Str}
use remote_console.Prelude.Map.{Map}
use remote_console.Prelude.Strings.{index, index-found}
use remote_console.Nodes.Registry.{NodeMap}
use remote_console.Conman.Config.{ConmanConfig}
use remote_console.Conman.Entries.{CompCredentials}
use remote_console.Conman.ConfigFile.{
  ConfigIo, returned, update_key, is_update_value, will_update_config, generate_base_config,
  update_config_file, configure_conman,
}

drop-append : (pre s : Str) → drop (length pre) (pre ++ s) ≡ s
drop-append [] s = refl
drop-append (c ∷ pre) s = drop-append pre s

drop-past : (pre sep t : Str) → drop (length pre + length sep) (pre ++ (sep ++ t)) ≡ t
drop-past pre sep t =
    rw (← append_assoc pre sep t, ← length-append pre sep) (drop-append (pre ++ sep) t)

will_update_config-value :
    (s pre t : Str)
    → s ≡ pre ++ (update_key ++ t)
    → index s update_key ≡ some (length pre)
    → will_update_config s ≡ is_update_value t
unfolding will_update_config
will_update_config-value s pre t e found =
    rw found (rw e (ap is_update_value (drop-past pre update_key t)))

update_value :
    (s pre t : Str)
    → s ≡ pre ++ (update_key ++ t)
    → index s update_key ≡ some (length pre)
    → is_update_value t ≡ true
    → (pre : Str) × (value : ℕ) × (rest : Str) × (s ≡ pre ++ (update_key ++ value ∷ rest))
      × (index s update_key ≡ some (length pre))
      × (value ≢ b'F')
      × (value ≢ b'f')
update_value s pre [] e found h = absurd (ground arith)
update_value s pre (value ∷ rest) e found h =
    (pre, value, rest, e, found, ground arith, ground arith)

-- The base configuration asks for updates exactly when its first UPDATE_CONFIG= stands before a byte
-- other than F and f; without one, or with nothing behind it, it does not.
will_update_config_iff :
    (s : Str)
    → (will_update_config s ≡ true) ↔ (
        (pre : Str) × (value : ℕ) × (rest : Str) × (s ≡ pre ++ (update_key ++ value ∷ rest))
        × (index s update_key ≡ some (length pre))
        × (value ≢ b'F')
        × (value ≢ b'f'))
will_update_config_iff s = (
  λ h. elim (Option-cases (index s update_key)) [
    | inl gone ↦ absurd (unfold will_update_config in ground arith)
    | inr (n, found) ↦
        let (pre, t, e, l) = index-found s update_key n found in
        let at_pre : index s update_key ≡ some (length pre) = found ∙ ap some (sym l) in
        update_value s pre t e at_pre (sym (will_update_config-value s pre t e at_pre) ∙ h)
  ],
  λ (pre, value, rest, e, found, not_upper, not_lower).
      will_update_config-value s pre (value ∷ rest) e found ∙ ground arith,
)

-- The flag decides an update that is not forced, and only that: a forced one, which is the only
-- kind that ConfigureConman makes, goes on as if the flag were set.
update_config_file-flag :
    (io : ConfigIo) (config : ConmanConfig) (nodes : NodeMap) (passwords : Map CompCredentials)
    (key_path file bs : Str)
    → generate_base_config io config ≡ ok bs
    → update_config_file io config nodes passwords key_path false file ≡ (
        if will_update_config bs
        then configure_conman io config nodes passwords key_path file
        else returned file (ok false))
unfolding configure_conman
update_config_file-flag io config nodes passwords key_path file bs h = ground (arith, h)
