-- ===== src/Service/ConmanLoop/Configured.antt =====
-- A round of the conman loop that meets no fault.
use remote_console.Prelude.{
  ◌≡◌, refl, ◌⊎◌, Bool, true, false, none, some, List, [], ◌∷◌, ok, err, Error, arith, inl, inr,
  if◌then◌else◌,
}
use remote_console.Prelude.Text.{Str}
use remote_console.Prelude.Map.{Map}
use remote_console.Nodes.Registry.{NodeMap, NodesState, current_nodes}
use remote_console.Nodes.Registry.Invariant.{IsTable}
use remote_console.Nodes.Registry.Copies.{copy_nodes-IsTable}
use remote_console.Nodes.Ids.{node_ids}
use remote_console.Conman.Config.{ConmanConfig}
use remote_console.Conman.Entries.{CompCredentials}
use remote_console.Conman.Process.{execute_conman}
use remote_console.Conman.Sort.{sort_strings}
use remote_console.Conman.ConfigFile.{
  ConfigIo, Outcome, generate_base_config, write_entries, update_config_file, configure_conman,
}
use remote_console.Conman.ConfigFile.Complete.{Appends, IsWritten, configure_conman-IsWritten}
use remote_console.Creds.Passwords.{get_passwords_with_retries}
use remote_console.Service.ConmanLoop.{
  ConmanRound, Conmand, again, for_ids, run_conman, configured, passwords_map,
}
use remote_console.Service.ConmanLoop.Live.{
  IsUndone, IsFilled, IsTable-IsFilled, console_entries-IsFilled, node_ids-IsFilled, passwords_kept,
}

-- The template, the opening and the writes of the configuration file succeed.
pub record IsFaultless (io : ConfigIo) (config : ConmanConfig) : Type 0 where
  pub templated : (base : Str) × (generate_base_config io config ≡ ok base)
  pub opens : io.open_file config.conf_file_path ≡ none
  pub writes : (content output : Str) → (io.write content output).1 ≡ none

write_entries-IsFaultless :
    (io : ConfigIo)
    → ((content output : Str) → (io.write content output).1 ≡ none)
    → (entries : List Str) (content : Str) → (write_entries io content entries).1 ≡ none
unfolding write_entries
write_entries-IsFaultless io w [] content = refl
write_entries-IsFaultless io w (output ∷ entries) content =
    rw (write_entries, w content output)
      (write_entries-IsFaultless io w entries (io.write content output).0)

Outcome-cases :
    (outcome : Outcome)
    → ((content : Str) × (found : Bool) × (outcome ≡ Outcome.returned content (ok found)))
      ⊎ ((content : Str) × (e : Error) × (outcome ≡ Outcome.returned content (err e)))
      ⊎ (outcome ≡ Outcome.panicked)
Outcome-cases (Outcome.returned content (ok found)) = inl (content, found, refl)
Outcome-cases (Outcome.returned content (err e)) = inr (inl (content, e, refl))
Outcome-cases Outcome.panicked = inr (inr refl)

configure_conman-ok :
    (io : ConfigIo) (config : ConmanConfig) (nodes : NodeMap) (passwords : Map CompCredentials)
    (key_path file : Str)
    → IsFaultless io config
    → IsFilled nodes
    → (content : Str) × (found : Bool) × (configure_conman io config nodes passwords key_path file
        ≡ Outcome.returned content (ok found))
unfolding configure_conman update_config_file
configure_conman-ok io config nodes passwords key_path file f filled =
    let (base, templated) = f.templated in
    let (consoles, listed) = console_entries-IsFilled config passwords key_path nodes filled in
    let written =
      write_entries-IsFaultless io f.writes (sort_strings consoles) (io.write [] base).0 in
    elim (Outcome-cases (configure_conman io config nodes passwords key_path file)) [
      | inl found ↦ found
      | inr (inl (content, e, failed)) ↦
          absurd (ground (arith, templated, f.opens, f.writes [] base, listed, written, failed))
      | inr (inr crashed) ↦
          absurd (ground (arith, templated, f.opens, f.writes [] base, listed, written, crashed))
    ]

-- What a round has done: the configuration file holds the entries of the nodes with the credentials
-- that were just retrieved, and conmand was run if there is a node.
pub record IsRound (io : ConmanRound) (c : Conmand) (nodes : NodeMap) (d : Conmand) : Type 0 where
  pub ids : List Str
  pub collected : node_ids nodes ≡ some ids
  pub found : Bool
  pub written :
      IsWritten io.conf c.conman.config nodes
        (passwords_map (get_passwords_with_retries c.creds io.ctx_err ids 15 io.attempt).1.0)
        (get_passwords_with_retries c.creds io.ctx_err ids 15
          io.attempt).0.config.ssh_console_key_path
        d.conf_file
        found
  pub executed : d.conman ≡ (if found then (execute_conman c.conman io.launch).0 else c.conman)

configured-ok :
    (io : ConmanRound) (c : Conmand) (content : Str) (found : Bool)
    → IsUndone io
    → (d : Conmand) × (configured io c (Outcome.returned content (ok found)) ≡ some (again d))
      × (d.conf_file ≡ content)
      × (d.conman ≡ (if found then (execute_conman c.conman io.launch).0 else c.conman))
configured-ok io c content false u =
    (record c { conf_file = content }, rw (u.waited 30, u.waited 10) refl, refl, refl)
configured-ok io c content true u =
    let d = record c { conf_file = content } in
    (record d { conman = (execute_conman d.conman io.launch).0 }, rw (u.waited 10) refl, refl, refl)

for_ids-IsRound :
    (io : ConmanRound) (c : Conmand) (nodes : NodeMap) (ids : List Str)
    → node_ids nodes ≡ some ids
    → IsFilled nodes
    → IsUndone io
    → IsFaultless io.conf c.conman.config
    → Appends io.conf
    → (d : Conmand) × (for_ids io c nodes (some ids) ≡ some (again d)) × IsRound io c nodes d
for_ids-IsRound io c nodes ids named filled u f a =
    let (creds, passwords) = get_passwords_with_retries c.creds io.ctx_err ids 15 io.attempt in
    let key_path = creds.config.ssh_console_key_path in
    let all = passwords_map passwords.0 in
    let (content, found, wrote) =
      configure_conman-ok io.conf c.conman.config nodes all key_path c.conf_file f filled in
    let (d, on, file, ran) = configured-ok io (record c { creds = creds }) content found u in
    (
      d,
      rw (passwords_kept io c ids u, wrote) on,
      record {
        ids = ids;
        collected = named;
        found = found;
        written = rw file (
            configure_conman-IsWritten io.conf c.conman.config nodes all key_path c.conf_file
              content found a wrote);
        executed = ran;
      },
    )

-- In a round in which the service's context is not done, no answer of the store is an error that wraps
-- context.Canceled, the node table is well formed, and the template, the opening and the writes of
-- conman's configuration file succeed, each write appending its output, the conman loop goes into its
-- next round. The file then holds the base configuration and then entries, among which each IPMI and
-- each SSH node of the table has the one made with the credentials that the round has retrieved, and
-- the loop has called ExecuteConman if the table has a node, else left the conman service as it was.
pub run_conman-IsRound :
    (io : ConmanRound) (c : Conmand) (nodes : NodesState)
    → IsTable nodes.current_nodes
    → IsUndone io
    → IsFaultless io.conf c.conman.config
    → Appends io.conf
    → (d : Conmand) × (run_conman io c nodes ≡ some (again d))
      × IsRound io c (current_nodes nodes) d
unfolding run_conman
run_conman-IsRound io c nodes t u f a =
    let filled : IsFilled (current_nodes nodes) =
      unfold current_nodes in
      IsTable-IsFilled (current_nodes nodes) (copy_nodes-IsTable nodes.current_nodes t) in
    let (ids, named) = node_ids-IsFilled (current_nodes nodes) filled in
    let (d, on, done) = for_ids-IsRound io c (current_nodes nodes) ids named filled u f a in
    (d, rw (u.begun, named) on, done)
