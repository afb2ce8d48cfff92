-- ===== src/Service/ConmanLoop/Live.antt =====
-- The conman loop goes on until the service shuts down.
use remote_console.Prelude.{
  ℕ, ◌≡◌, refl, inl, inr, true, false, none, some, List, [], ◌∷◌, ok, err, arith, All, is_some,
  Option-cases, Result-cases,
}
use remote_console.Prelude.Text.{Str, ==-refl}
use remote_console.Prelude.Map.{Map, get}
use remote_console.Nodes.Registry.{NodeMap, NodesState, current_nodes}
use remote_console.Nodes.Registry.Invariant.{IsTable}
use remote_console.Nodes.Registry.Copies.{copy_nodes-IsTable}
use remote_console.Nodes.Ids.{node_ids, IsTable-tail}
use remote_console.Conman.Config.{ConmanConfig}
use remote_console.Conman.Entries.{CompCredentials}
use remote_console.Conman.ConfigFile.{
  ConfigIo, Outcome, console_entries, generate_base_config, update_config_file, configure_conman,
}
use remote_console.Conman.Process.{execute_conman}
use remote_console.Creds.Config.{CredsConfig}
use remote_console.Creds.Passwords.{answer, get_passwords_with_retries}
use remote_console.Creds.Passwords.Retries.{get_passwords_with_retries_ends}
use remote_console.Service.ConmanLoop.{
  ConmanRound, Conmand, again, run_conman, run_rounds, configured, ends_early, for_ids,
  passwords_map,
}

-- No pointer of the map is nil.
abbrev pub IsFilled : NodeMap → Type 0
IsFilled nodes = All (λ e. is_some e.1 ≡ true) nodes

pub IsTable-IsFilled : (nodes : NodeMap) → IsTable nodes → IsFilled nodes
unfolding get
IsTable-IsFilled [] t = tt
IsTable-IsFilled ((k, p) ∷ nodes) t =
    let (nci, e, id) = t.keyed k p (rw (==-refl k)) in
    (rw e refl, IsTable-IsFilled nodes (IsTable-tail k p nodes t))

pub node_ids-IsFilled :
    (nodes : NodeMap) → IsFilled nodes → (ids : List Str) × (node_ids nodes ≡ some ids)
unfolding node_ids
node_ids-IsFilled [] f = ([], refl)
node_ids-IsFilled ((k, none) ∷ nodes) f = absurd (ground (arith, f.0))
node_ids-IsFilled ((k, some nci) ∷ nodes) f =
    let (ids, e) = node_ids-IsFilled nodes f.1 in (nci.id ∷ ids, rw e refl)

pub console_entries-IsFilled :
    (config : ConmanConfig) (passwords : Map CompCredentials) (key_path : Str) (nodes : NodeMap)
    → IsFilled nodes
    → (consoles : List Str) × (console_entries config passwords key_path nodes ≡ some consoles)
unfolding console_entries
console_entries-IsFilled config passwords key_path [] f = ([], refl)
console_entries-IsFilled config passwords key_path ((k, none) ∷ nodes) f =
    absurd (ground (arith, f.0))
console_entries-IsFilled config passwords key_path ((k, some nci) ∷ nodes) f =
    let (consoles, e) = console_entries-IsFilled config passwords key_path nodes f.1 in
    elim (Option-cases (console_entries config passwords key_path ((k, some nci) ∷ nodes))) [
      | inl missing ↦ absurd (ground (arith, e, missing))
      | inr found ↦ found
    ]

configure_conman-IsFilled :
    (io : ConfigIo) (config : ConmanConfig) (passwords : Map CompCredentials) (key_path file : Str)
    (nodes : NodeMap)
    → IsFilled nodes
    → configure_conman io config nodes passwords key_path file ≡ Outcome.panicked
    → ⊥
unfolding configure_conman update_config_file
configure_conman-IsFilled io config passwords key_path file nodes f h =
    let (consoles, e) = console_entries-IsFilled config passwords key_path nodes f in
    elim (Result-cases (generate_base_config io config)) [
      | inr (x, failed) ↦ absurd (ground (arith, failed, h))
      | inl (bs, made) ↦ elim (Option-cases (io.open_file config.conf_file_path)) [
        | inr (x, failed) ↦ absurd (ground (arith, made, failed, h))
        | inl fine ↦ elim (Option-cases (io.write [] bs).1) [
          | inr (x, failed) ↦ absurd (ground (arith, made, fine, failed, h))
          | inl written ↦ absurd (ground (arith, made, fine, written, e, h))
        ]
      ]
    ]

-- The context is not done in the round, and no answer of the store is an error that wraps
-- context.Canceled.
pub record IsUndone (io : ConmanRound) : Type 0 where
  pub begun : io.done ≡ false
  pub tried : (i : ℕ) → ((io.attempt i).done_before ≡ false) × ((io.attempt i).done_in_wait ≡ false)
  pub answered :
      (config : CredsConfig) (names : List Str) (i : ℕ)
      → ends_early (answer config names io.attempt i).1 ≡ false
  pub waited : (seconds : ℕ) → io.done_at seconds ≡ false

configured-again :
    (io : ConmanRound) (c : Conmand) (outcome : Outcome)
    → IsUndone io
    → (outcome ≡ Outcome.panicked → ⊥)
    → (d : Conmand) × (configured io c outcome ≡ some (again d))
configured-again io c Outcome.panicked u h = absurd (h refl)
configured-again io c (Outcome.returned content (err e)) u h =
    (record c { conf_file = content }, rw (u.waited 5) refl)
configured-again io c (Outcome.returned content (ok false)) u h =
    (record c { conf_file = content }, rw (u.waited 30, u.waited 10) refl)
configured-again io c (Outcome.returned content (ok true)) u h =
    let d = record c { conf_file = content } in
    (record d { conman = (execute_conman d.conman io.launch).0 }, rw (u.waited 10) refl)

pub passwords_kept :
    (io : ConmanRound) (c : Conmand) (ids : List Str)
    → IsUndone io
    → ends_early (get_passwords_with_retries c.creds io.ctx_err ids 15 io.attempt).1.1 ≡ false
passwords_kept io c ids u =
    elim (get_passwords_with_retries_ends c.creds io.ctx_err ids 15 io.attempt) [
      | inl (j, _, same, _, _, _) ↦ rw same (u.answered c.creds.config ids j)
      | inr (inl (_, same, _)) ↦ rw same (u.answered c.creds.config ids 14)
      | inr (inr (j, _, done, _, _)) ↦ absurd (ground (arith, u.tried j, done))
    ]

for_ids-again :
    (io : ConmanRound) (c : Conmand) (nodes : NodeMap) (ids : List Str)
    → IsFilled nodes
    → IsUndone io
    → (d : Conmand) × (for_ids io c nodes (some ids) ≡ some (again d))
for_ids-again io c nodes ids filled u =
    let (creds, passwords) = get_passwords_with_retries c.creds io.ctx_err ids 15 io.attempt in
    let (next, on) =
      configured-again io (record c { creds = creds })
        (configure_conman io.conf c.conman.config nodes (passwords_map passwords.0)
          creds.config.ssh_console_key_path c.conf_file)
        u
        (configure_conman-IsFilled io.conf c.conman.config (passwords_map passwords.0)
          creds.config.ssh_console_key_path c.conf_file nodes filled) in
    (next, rw (passwords_kept io c ids u) on)

run_conman-again :
    (io : ConmanRound) (c : Conmand) (nodes : NodesState)
    → IsTable nodes.current_nodes
    → IsUndone io
    → (d : Conmand) × (run_conman io c nodes ≡ some (again d))
unfolding run_conman
run_conman-again io c nodes t u =
    let filled : IsFilled (current_nodes nodes) =
      unfold current_nodes in
      IsTable-IsFilled (current_nodes nodes) (copy_nodes-IsTable nodes.current_nodes t) in
    let (ids, named) = node_ids-IsFilled (current_nodes nodes) filled in
    let (next, on) = for_ids-again io c (current_nodes nodes) ids filled u in
    (next, rw (u.begun, named) on)

abbrev pub IsLive : ConmanRound × NodesState → Type 0
IsLive (io, nodes) = IsTable nodes.current_nodes × IsUndone io

-- As long as the service's context is not done, the node tables are well formed, and no answer of the
-- store is an error that wraps context.Canceled, the conman loop neither returns nor panics, however
-- many rounds it has gone and whatever fails in them.
pub run_rounds_go_on :
    (rounds : List (ConmanRound × NodesState)) (c : Conmand)
    → All IsLive rounds
    → (d : Conmand) × (run_rounds rounds c ≡ some (again d))
unfolding run_rounds
run_rounds_go_on [] c live = (c, refl)
run_rounds_go_on ((io, nodes) ∷ rounds) c live =
    let (next, on) = run_conman-again io c nodes live.0.0 live.0.1 in
    let (last, further) = run_rounds_go_on rounds next live.1 in (last, rw (run_rounds, on) further)
