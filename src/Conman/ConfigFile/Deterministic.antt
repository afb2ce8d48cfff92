-- ===== src/Conman/ConfigFile/Deterministic.antt =====
-- Go ranges over a map in no fixed order; the configuration file does not depend on it.
use mathlib.Core.List.{Perm, Permᴰ}
use mathlib.Core.Logic.{∥∥₁_elim}
use native.Mathlib.Nat.{ℕ_set}
use remote_console.Prelude.{
  suc, ◌≡◌, refl, ap, ◌∙◌, Bool, true, Option, none, some, List, [], ◌∷◌, Result, ok, err, Error,
  length,
}
use remote_console.Prelude.Text.{Str}
use remote_console.Prelude.Map.{Map}
use remote_console.Nodes.Info.{NodeConsoleInfo}
use remote_console.Nodes.Registry.{NodeMap}
use remote_console.Conman.Config.{ConmanConfig}
use remote_console.Conman.Entries.{CompCredentials}
use remote_console.Conman.Sort.{insert, sort_strings, insert_comm}
use remote_console.Conman.ConfigFile.{
  ConfigIo, console_entry, console_entries, then_add, write_consoles, after_base, opened, with_base,
  generate_base_config, update_config_file, configure_conman,
}

abbrev sorted : Option (List Str) → Option (List Str)
sorted none = none
sorted (some consoles) = some (sort_strings consoles)

abbrev then_insert : Option Str → Option (List Str) → Option (List Str)
then_insert output none = none
then_insert none (some consoles) = some consoles
then_insert (some output) (some consoles) = some (insert output consoles)

sorted-set : IsSet (Option (List Str))
sorted-set = hlevel ℕ_set

sorted-then_add :
    (output : Option Str) (consoles : Option (List Str))
    → sorted (then_add output consoles) ≡ then_insert output (sorted consoles)
unfolding sort_strings
sorted-then_add output none = refl
sorted-then_add none (some consoles) = refl
sorted-then_add (some output) (some consoles) = refl

then_insert_comm :
    (a b : Option Str) (consoles : Option (List Str))
    → then_insert a (then_insert b consoles) ≡ then_insert b (then_insert a consoles)
then_insert_comm a b none = refl
then_insert_comm none none (some cs) = refl
then_insert_comm none (some b) (some cs) = refl
then_insert_comm (some a) none (some cs) = refl
then_insert_comm (some a) (some b) (some cs) = ap some (insert_comm a b cs)

module _ (config : ConmanConfig) (passwords : Map CompCredentials) (key_path : Str) where
  sorted_entries : NodeMap → Option (List Str)
  sorted_entries nodes = sorted (console_entries config passwords key_path nodes)

  abbrev insert_node : Option NodeConsoleInfo → Option (List Str) → Option (List Str)
  insert_node none consoles = none
  insert_node (some nci) consoles =
      then_insert (console_entry config passwords key_path nci) consoles

  sorted_entries-cons :
      (e : Str × Option NodeConsoleInfo) (nodes : NodeMap)
      → sorted_entries (e ∷ nodes) ≡ insert_node e.1 (sorted_entries nodes)
  unfolding sorted_entries console_entries
  sorted_entries-cons (k, none) nodes = refl
  sorted_entries-cons (k, some nci) nodes = sorted-then_add _ _

  insert_node_comm :
      (p q : Option NodeConsoleInfo) (consoles : Option (List Str))
      → insert_node p (insert_node q consoles) ≡ insert_node q (insert_node p consoles)
  insert_node_comm none none consoles = refl
  insert_node_comm none (some q) consoles = refl
  insert_node_comm (some p) none consoles = refl
  insert_node_comm (some p) (some q) consoles = then_insert_comm _ _ consoles

  sorted_entries-Permᴰ : {xs ys : NodeMap} → Permᴰ xs ys → sorted_entries xs ≡ sorted_entries ys
  sorted_entries-Permᴰ Permᴰ.nil = refl
  sorted_entries-Permᴰ (Permᴰ.cons e p) = cc (e, sorted_entries-cons _ _, sorted_entries-Permᴰ p)
  sorted_entries-Permᴰ (Permᴰ.swap {a} {b} {a'} {b'} {l} e f) = cc (
    e,
    f,
    sorted_entries-cons a (b ∷ l),
    sorted_entries-cons b l,
    sorted_entries-cons a' (b' ∷ l),
    sorted_entries-cons b' l,
    insert_node_comm a.1 b.1 (sorted_entries l),
  )
  sorted_entries-Permᴰ (Permᴰ.trans p q) = sorted_entries-Permᴰ p ∙ sorted_entries-Permᴰ q

  sorted_entries-perm : {xs ys : NodeMap} → Perm xs ys → sorted_entries xs ≡ sorted_entries ys
  sorted_entries-perm p = ∥∥₁_elim p (sorted-set _ _) sorted_entries-Permᴰ

length-Permᴰ : {xs ys : NodeMap} → Permᴰ xs ys → length xs ≡ length ys
length-Permᴰ Permᴰ.nil = refl
length-Permᴰ (Permᴰ.cons e p) = ap suc (length-Permᴰ p)
length-Permᴰ (Permᴰ.swap e f) = refl
length-Permᴰ (Permᴰ.trans p q) = length-Permᴰ p ∙ length-Permᴰ q

length-perm : {xs ys : NodeMap} → Perm xs ys → length xs ≡ length ys
length-perm p = ∥∥₁_elim p (ℕ_set _ _) length-Permᴰ

write_consoles-sorted :
    (io : ConfigIo) (xs ys : NodeMap) (content : Str) (cs ds : Option (List Str))
    → sorted cs ≡ sorted ds
    → length xs ≡ length ys
    → write_consoles io xs content cs ≡ write_consoles io ys content ds
write_consoles-sorted io xs ys content none none s e = refl
write_consoles-sorted io xs ys content none (some d) s e = absurd (cc)
write_consoles-sorted io xs ys content (some c) none s e = absurd (cc)
write_consoles-sorted io xs ys content (some c) (some d) s e =
    let same : sort_strings c ≡ sort_strings d = cc in rw (e, same)

module _ (io : ConfigIo) (config : ConmanConfig) (xs ys : NodeMap) (passwords : Map CompCredentials)
    (key_path : Str) (p : Perm xs ys) where
  after_base-perm :
      (written : Str × Option Error)
      → after_base io config xs passwords key_path written
        ≡ after_base io config ys passwords key_path written
  unfolding sorted_entries
  after_base-perm (content, some e) = refl
  after_base-perm (content, none) =
      write_consoles-sorted io xs ys content _ _ (sorted_entries-perm config passwords key_path p)
        (length-perm p)

  opened-perm :
      (bs file : Str) (failed : Option Error)
      → opened io config xs passwords key_path bs file failed
        ≡ opened io config ys passwords key_path bs file failed
  opened-perm bs file (some e) = refl
  opened-perm bs file none = after_base-perm (io.write [] bs)

  with_base-perm :
      (force : Bool) (file : Str) (base : Result Str)
      → with_base io config xs passwords key_path force file base
        ≡ with_base io config ys passwords key_path force file base
  with_base-perm force file (err e) = refl
  with_base-perm force file (ok bs) = rw (opened-perm bs file (io.open_file config.conf_file_path))

-- Two node tables with the same entries in any order give the same file and the same result, with
-- every fault of the files and the template included.
pub update_config_file-perm :
    (io : ConfigIo) (config : ConmanConfig) (xs ys : NodeMap) (passwords : Map CompCredentials)
    (key_path : Str) (force : Bool) (file : Str)
    → Perm xs ys
    → update_config_file io config xs passwords key_path force file
      ≡ update_config_file io config ys passwords key_path force file
unfolding update_config_file
update_config_file-perm io config xs ys passwords key_path force file p =
    with_base-perm io config xs ys passwords key_path p force file (generate_base_config io config)

pub configure_conman-perm :
    (io : ConfigIo) (config : ConmanConfig) (xs ys : NodeMap) (passwords : Map CompCredentials)
    (key_path file : Str)
    → Perm xs ys
    → configure_conman io config xs passwords key_path file
      ≡ configure_conman io config ys passwords key_path file
unfolding configure_conman
configure_conman-perm io config xs ys passwords key_path file p =
    update_config_file-perm io config xs ys passwords key_path true file p
