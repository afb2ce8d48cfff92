-- ===== src/Conman/ConfigFile.antt =====
-- internal/conman/conman.go: writing the configuration file of conmand.
pub mod Flag
pub mod Complete
pub mod Deterministic
pub mod Refreshed
use remote_console.Prelude.{
  ℕ, zero, suc, ◌+◌, ◌<◌, ◌≡◌, refl, Bool, true, false, ◌&&◌, ◌||◌, not, Option, none, some, List,
  [], ◌∷◌, ◌++◌, Result, ok, err, Error, if◌then◌else◌, leb, ltb, nat_eq, length, drop, is_some,
}
use remote_console.Prelude.Text.{Str, str, ◌==◌}
use remote_console.Prelude.Strings.{index}
use remote_console.Prelude.Map.{Map, get}
use remote_console.Nodes.Info.{NodeConsoleInfo, ssh, ipmi}
use remote_console.Nodes.Registry.{NodeMap}
use remote_console.Conman.Config.{ConmanConfig}
use remote_console.Conman.Entries.{
  CompCredentials, generate_ipmi_console_config, generate_ssh_console_config,
}
use remote_console.Conman.Sort.{sort_strings}

-- os, text/template and os.File, as one update sees them. `write content output` is what the file
-- holds after a write of `output` behind `content`, and the error of the write.
pub record ConfigIo : Type 0 where
  pub read_file : Str → Result Str
  pub parse : Str → Option Error
  pub execute : Str → ConmanConfig → Result Str
  pub open_file : Str → Option Error
  pub write : Str → Str → Str × Option Error

templating : Error → Error
templating e = Error.wrap (str "error templating base config: ") e

abbrev execute_template : ConfigIo → ConmanConfig → Str → Result Str
execute_template io config content = elim (io.execute content config) [
  | ok output ↦ ok output
  | err e ↦ err (templating e)
]

abbrev parse_template : ConfigIo → ConmanConfig → Str → Result Str
parse_template io config content = elim (io.parse content) [
  | some e ↦ err (templating e)
  | none ↦ execute_template io config content
]

unfoldable pub generate_base_config : ConfigIo → ConmanConfig → Result Str
unfolding templating
generate_base_config io config = elim (io.read_file config.base_conf_file_path) [
  | ok content ↦ parse_template io config content
  | err e ↦ err (Error.wrap (str "error opening base config template: ") e)
]

abbrev pub update_key : Str
update_key = str "UPDATE_CONFIG="

-- The byte at the position decides; a text that ends there has none.
abbrev is_update_value : Str → Bool
is_update_value [] = false
is_update_value (value ∷ rest) = not (nat_eq value b'F') && not (nat_eq value b'f')

abbrev value_from : Str → Option ℕ → Bool
value_from config none = false
value_from config (some key_position) =
    is_update_value (drop (key_position + length update_key) config)

unfoldable pub will_update_config : Str → Bool
will_update_config base_config = value_from base_config (index base_config update_key)

-- passwords[nci.ID], the zero value where there is none
unfoldable pub credentials_of : Map CompCredentials → Str → CompCredentials
credentials_of passwords id = elim (get passwords id) [
  | none ↦ record { username = []; password = [] }
  | some creds ↦ creds
]

-- The switch on the connection type: a node of another type has no entry.
unfoldable pub console_entry :
    ConmanConfig → Map CompCredentials → Str → NodeConsoleInfo → Option Str
unfolding credentials_of
console_entry config passwords key_path nci =
    let creds = credentials_of passwords nci.id in
    if nci.connection_type == ipmi
    then some (generate_ipmi_console_config nci creds)
    else if nci.connection_type == ssh
    then some (generate_ssh_console_config config nci creds key_path)
    else none

abbrev pub add_entry : Option Str → List Str → List Str
add_entry none consoles = consoles
add_entry (some output) consoles = output ∷ consoles

abbrev pub then_add : Option Str → Option (List Str) → Option (List Str)
then_add output none = none
then_add output (some consoles) = some (add_entry output consoles)

-- The loop over the nodes; `none` is the panic at a nil pointer.
unfoldable pub console_entries :
    ConmanConfig → Map CompCredentials → Str → NodeMap → Option (List Str)
unfolding console_entry
console_entries config passwords key_path [] = some []
console_entries config passwords key_path ((k, none) ∷ nodes) = none
console_entries config passwords key_path ((k, some nci) ∷ nodes) =
    then_add (console_entry config passwords key_path nci)
      (console_entries config passwords key_path nodes)

-- The file's content, and what the call returned.
pub data Outcome : Type 0 where
  returned : Str → Result Bool → Outcome
  panicked : Outcome

-- The loop over the sorted entries: `none` if all were written.
unfoldable pub write_entries : ConfigIo → Str → List Str → Str × Option Error
write_entries io content [] = (content, none)
write_entries io content (output ∷ consoles) =
    let (content', error) = io.write content output in
    elim error [ none ↦ write_entries io content' consoles | some e ↦ (content', some e) ]

abbrev has_nodes : NodeMap → Bool
has_nodes nodes = ltb 0 (length nodes)

abbrev finish : Bool → Str × Option Error → Outcome
finish found (content, none) = returned content (ok found)
finish found (content, some e) =
    returned content (err (Error.wrap (str "unable to write console entry into file: ") e))

abbrev write_consoles : ConfigIo → NodeMap → Str → Option (List Str) → Outcome
write_consoles io nodes content none = panicked
write_consoles io nodes content (some consoles) =
    finish (has_nodes nodes) (write_entries io content (sort_strings consoles))

module _ (io : ConfigIo) (config : ConmanConfig) where
  abbrev after_base : NodeMap → Map CompCredentials → Str → Str × Option Error → Outcome
  after_base nodes passwords key_path (content, some e) =
      returned content (err (Error.wrap (str "unable to write base config into file: ") e))
  after_base nodes passwords key_path (content, none) =
      write_consoles io nodes content (console_entries config passwords key_path nodes)

  -- O_TRUNC empties the file before the first write.
  abbrev opened : NodeMap → Map CompCredentials → Str → Str → Str → Option Error → Outcome
  opened nodes passwords key_path bs file (some e) =
      returned file (err (Error.wrap (str "unable to open config file to write: ") e))
  opened nodes passwords key_path bs file none =
      after_base nodes passwords key_path (io.write [] bs)

  abbrev with_base : NodeMap → Map CompCredentials → Str → Bool → Str → Result Str → Outcome
  with_base nodes passwords key_path force file (err e) =
      returned file (err (Error.wrap (str "unable to template base config file: ") e))
  with_base nodes passwords key_path force file (ok bs) =
      if not force && not (will_update_config bs)
      then returned file (ok false)
      else opened nodes passwords key_path bs file (io.open_file config.conf_file_path)

  -- `file` is what the configuration file held before.
  unfoldable pub update_config_file : NodeMap → Map CompCredentials → Str → Bool → Str → Outcome
  unfolding generate_base_config console_entries write_entries
  update_config_file nodes passwords key_path force file =
      with_base nodes passwords key_path force file (generate_base_config io config)

  unfoldable pub configure_conman : NodeMap → Map CompCredentials → Str → Str → Outcome
  unfolding update_config_file
  configure_conman nodes passwords key_path file =
      update_config_file nodes passwords key_path true file
