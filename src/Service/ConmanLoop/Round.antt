-- ===== src/Service/ConmanLoop/Round.antt =====
-- The conmand process over the rounds of runConman.
use remote_console.Prelude.{
  ℕ, refl, ap, ◌∙◌, Option, none, List, [], ◌∷◌, Error, ◌≡◌, ◌⊎◌, inl, inr, true, false, some, ok,
  err, arith, Option-cases,
}
use remote_console.Nodes.Registry.{NodesState, current_nodes}
use remote_console.Nodes.Ids.{node_ids}
use remote_console.Conman.ConfigFile.{Outcome, configure_conman}
use remote_console.Conman.Process.{
  ConmanService, Launch, execute_conman, not_nil_error, Signal, panicked, signal_conman,
}
use remote_console.Conman.Process.Stuck.{
  IsStuck, execute_conman-IsStuck, execute_conman_failed, signal_conman-IsStuck,
}
use remote_console.Creds.Passwords.{get_passwords_with_retries}
use remote_console.Service.ConmanLoop.{
  ConmanRound, Conmand, Turn, stopped, again, run_conman, configured, passwords_map, go_on,
  run_rounds,
}

abbrev pub conmand_of : Turn → Conmand
conmand_of (stopped c) = c
conmand_of (again c) = c

configured-conman :
    (io : ConmanRound) (c : Conmand) (outcome : Outcome) (turn : Turn)
    → configured io c outcome ≡ some turn
    → ((conmand_of turn).conman ≡ c.conman)
      ⊎ ((conmand_of turn).conman ≡ (execute_conman c.conman io.launch).0)
configured-conman io c Outcome.panicked turn h = cc
configured-conman io c (Outcome.returned content (err e)) turn h = ground arith
configured-conman io c (Outcome.returned content (ok false)) turn h = ground arith
configured-conman io c (Outcome.returned content (ok true)) turn h = ground arith

-- A round leaves the conman service as it was, or as one call of ExecuteConman leaves it.
run_conman-conman :
    (io : ConmanRound) (c : Conmand) (nodes : NodesState) (turn : Turn)
    → run_conman io c nodes ≡ some turn
    → ((conmand_of turn).conman ≡ c.conman)
      ⊎ ((conmand_of turn).conman ≡ (execute_conman c.conman io.launch).0)
unfolding run_conman
run_conman-conman io c nodes turn h = elim (Option-cases (node_ids (current_nodes nodes))) [
  | inl bad ↦ ground (arith, bad, h)
  | inr (ids, named) ↦
      let (creds, passwords) = get_passwords_with_retries c.creds io.ctx_err ids 15 io.attempt in
      let d = record c { creds = creds } in
      let written =
        configure_conman io.conf d.conman.config (current_nodes nodes) (passwords_map passwords.0)
          d.creds.config.ssh_console_key_path d.conf_file in
      ground (arith, named, h, configured-conman io d written turn)
]

run_conman-IsStuck :
    (io : ConmanRound) (c : Conmand) (nodes : NodesState) (turn : Turn)
    → IsStuck c.conman
    → run_conman io c nodes ≡ some turn
    → (conmand_of turn).conman ≡ c.conman
run_conman-IsStuck io c nodes turn stuck h =
    ground
      (arith, run_conman-conman io c nodes turn h, execute_conman-IsStuck c.conman io.launch stuck)

go_on-conman :
    (cs : ConmanService) (first : Option Turn) (next : Conmand → Option Turn) (turn : Turn)
    → ((t : Turn) → first ≡ some t → (conmand_of t).conman ≡ cs)
    → ((c : Conmand) → c.conman ≡ cs → next c ≡ some turn → (conmand_of turn).conman ≡ cs)
    → go_on first next ≡ some turn
    → (conmand_of turn).conman ≡ cs
go_on-conman cs none next turn f n h = absurd (cc)
go_on-conman cs (some (stopped c)) next turn f n h = f turn h
go_on-conman cs (some (again c)) next turn f n h = n c (f (again c) refl) h

run_rounds-IsStuck :
    (rounds : List (ConmanRound × NodesState)) (c : Conmand) (turn : Turn)
    → IsStuck c.conman
    → run_rounds rounds c ≡ some turn
    → (conmand_of turn).conman ≡ c.conman
unfolding run_rounds
run_rounds-IsStuck [] c turn stuck h = ground (arith, h)
run_rounds-IsStuck ((io, nodes) ∷ rounds) c turn stuck h =
    go_on-conman c.conman (run_conman io c nodes) (run_rounds rounds) turn
      (λ t e. run_conman-IsStuck io c nodes t stuck e)
      (λ d same e. run_rounds-IsStuck rounds d turn (ap (λ cs. cs.command) same ∙ stuck) e ∙ same) h

-- Once ExecuteConman has failed at a pipe or at Start, the conman loop starts conmand no more, however
-- many rounds it goes: they leave the service as the failed launch left it, every further
-- ExecuteConman fails on entry, whatever the system would answer, and every signal panics.
pub run_rounds_stuck :
    (rounds : List (ConmanRound × NodesState)) (c : Conmand) (launch : Launch) (e : Error)
    (turn : Turn)
    → c.conman.command ≡ none
    → (execute_conman c.conman launch).1 ≡ some e
    → run_rounds rounds (record c { conman = (execute_conman c.conman launch).0 }) ≡ some turn
    → (further : Launch) (kill : ℕ → Signal → Option Error) (sig : Signal)
    → ((conmand_of turn).conman ≡ (execute_conman c.conman launch).0)
      × (execute_conman (conmand_of turn).conman further
          ≡ ((conmand_of turn).conman, some not_nil_error))
      × (signal_conman (conmand_of turn).conman kill sig ≡ panicked)
run_rounds_stuck rounds c launch e turn idle failed h further kill sig =
    let stuck = execute_conman_failed c.conman launch e idle failed in
    let same =
      run_rounds-IsStuck rounds (record c { conman = (execute_conman c.conman launch).0 }) turn
        stuck h in
    let still : IsStuck (conmand_of turn).conman = ap (λ cs. cs.command) same ∙ stuck in
    (
      same,
      execute_conman-IsStuck (conmand_of turn).conman further still,
      signal_conman-IsStuck (conmand_of turn).conman kill sig still,
    )
