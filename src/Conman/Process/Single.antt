-- ===== src/Conman/Process/Single.antt =====
-- The loop that runs conmand beside the processes of the system and the goroutines that signal, in any
-- interleaving. runConman is the one caller of ExecuteConman.
use remote_console.Prelude.{
  ℕ, ◌≡◌, ◌⊎◌, Bool, true, false, Option, none, some, List, [], ◌∷◌, ◌++◌, Result, ok, err, Error,
  In,
}
use remote_console.Conman.Config.{ConmanConfig}
use remote_console.Conman.Process.{
  Signal, ConmanService, new_conman_service, Launch, set_command, start_conman, end_conman,
  Signaled, signal_error, returned, panicked,
}

-- Where the goroutine that runs conmand stands: between two calls, behind the new command, or in
-- Wait.
pub data Loop : Type 0 where
  between starting : Loop
  waiting : ℕ → Loop

-- `running` holds the conmand processes that are alive; `failed` says that a launch has failed, at a
-- pipe or at Start.
pub record System : Type 0 where
  pub service : ConmanService
  pub loop : Loop
  pub running : List ℕ
  pub failed : Bool

abbrev pub after_set : System → ConmanService × Option Error → System
after_set s (cs, some e) = record s { service = cs }
after_set s (cs, none) = record s { service = cs; loop = starting }

abbrev pub after_start : System → ConmanService × Result ℕ → System
after_start s (cs, err e) = record s { service = cs; loop = between; failed = true }
after_start s (cs, ok pid) = record s {
  service = cs;
  loop = waiting pid;
  running = pid ∷ s.running;
}

abbrev pub init : ConmanConfig → System
init config = record {
  service = new_conman_service config;
  loop = between;
  running = [];
  failed = false;
}

-- Any process may end; Wait returns when its own process has ended.
pub data Step (s : System) : System → Type 0 where
  entered : s.loop ≡ between → Step s (after_set s (set_command s.service))
  launched : (l : Launch) → s.loop ≡ starting → Step s (after_start s (start_conman s.service l))
  exited :
      (pid : ℕ) (before after : List ℕ)
      → s.running ≡ before ++ pid ∷ after
      → Step s (record s { running = before ++ after })
  reaped :
      (pid : ℕ)
      → s.loop ≡ waiting pid
      → (In pid s.running → ⊥)
      → Step s (record s { service = end_conman s.service; loop = between })

pub data Reach (config : ConmanConfig) : System → Type 0 where
  start : Reach config (init config)
  later : {s t : System} → Reach config s → Step s t → Reach config t

-- Between calls no process is alive, and the command is nil, or without a process once a launch has
-- failed; behind a new command it has none yet; in Wait it holds the one process that may be alive.
abbrev IsSingle : System → Type 0
IsSingle s = elim s.loop [
  | between ↦
      (s.running ≡ [])
      × (s.service.command
          ≡ (elim s.failed [ false ↦ none | true ↦ some (record { process = none }) ]))
  | starting ↦
      (s.running ≡ []) × (s.service.command ≡ some (record { process = none })) × (s.failed ≡ false)
  | waiting pid ↦
      (s.service.command ≡ some (record { process = some pid }))
      × ((s.running ≡ []) ⊎ (s.running ≡ pid ∷ []))
      × (s.failed ≡ false)
]

-- What a signal does by the place of the loop.
abbrev pub signaled_at : Loop → Bool → (ℕ → Signal → Option Error) → Signal → Signaled
signaled_at between false kill sig = returned none
signaled_at between true kill sig = panicked
signaled_at starting failed kill sig = panicked
signaled_at (waiting pid) failed kill sig = returned (signal_error sig (kill pid sig))
