-- ===== src/Service/Examples.antt =====
-- The theorems about cmd/remote-console at the sites of the other examples.
use remote_console.Prelude.{
  In, ◌↔◌, ap, sym, ℕ, zero, suc, List, arith, Bool-cases, inl, inr, ◌≡◌, refl, false, none, some,
  [], ◌∷◌, Error, length, if◌then◌else◌,
}
use remote_console.Prelude.Text.{Str, str, ◌==◌, ==-sound}
use remote_console.Prelude.Filepath.{join, clean, dir}
use remote_console.Prelude.Map.{get, put, has}
use remote_console.Prelude.Strings.{itoa}
use remote_console.Nodes.Smd.{get_component_endpoints}
use remote_console.Nodes.Discovery.{
  current_nodes_from_smd, collect_nodes, console_info, serial_console_of,
}
use remote_console.Nodes.Registry.{
  NodesState, check_for_updates, current_nodes, update_nodes, nodes_by_id, remove_missing,
  store_changed, copy_nodes,
}
use remote_console.Nodes.Examples.{smd, node, endpoint, smd-Answers}
use remote_console.Nodes.Ids.{node_ids}
use remote_console.Prelude.Int.{pos}
use remote_console.Conman.ConfigFile.{
  configure_conman, generate_base_config, write_entries, console_entries,
}
use remote_console.Conman.Sort.{sort_strings}
use remote_console.Creds.Passwords.{get_passwords_with_retries, found_all, answer}
use remote_console.Creds.Storage.{get_passwords, create_secure_storage}
use remote_console.Conman.Config.{default_conman_config}
use remote_console.Conman.Process.{
  execute_conman, not_nil_error, ConmanService, signal_conman, new_conman_service, panicked, sighup,
}
use remote_console.Conman.Examples.{io, good, missing}
use remote_console.Creds.Examples.{fresh, attempt}
use remote_console.Logs.Tails.Live.{live}
use remote_console.Logs.RotateConf.{update_log_rotate_conf, write_nodes, config_entry}
use remote_console.Logs.Examples.{conf_file, agg_io, service}
use remote_console.Service.Config.{ensure_trailing_slash}
use remote_console.Service.Loops.{Site, NodesTick, conman_logs_path, watch_for_nodes_updates}
use remote_console.Service.ConmanLoop.{
  ConmanRound, Conmand, Turn, stopped, again, ends_early, run_conman, run_rounds,
}
use remote_console.Service.Loops.Tailed
use remote_console.Service.Loops.Tailed.{current_nodes_tailed}
use remote_console.Service.ConmanLoop.Live.{IsUndone, run_rounds_go_on}
use remote_console.Service.ConmanLoop.Configured.{IsFaultless, IsRound}
use remote_console.Service.ConmanLoop.Discovered.{run_conman-Answers}
use remote_console.Nodes.Registry.Exact.{latest}
use remote_console.Nodes.Info.{NodeConsoleInfo}
use remote_console.Conman.ConfigFile.Complete.{Appends}
use remote_console.Creds.Config.{CredsConfig}
use remote_console.Prelude.Errors.{is_canceled}
use remote_console.Nodes.Registry.Invariant.{IsTable}
use remote_console.Service.ConmanLoop.Round.{conmand_of, run_rounds_stuck}

ensure_trailing_slash_runs : ensure_trailing_slash (str "http://smd") ≡ str "http://smd/"
unfolding ensure_trailing_slash ◌==◌
ensure_trailing_slash_runs = refl

abbrev site : Site
site = record {
  nodes = record { current_nodes = []; hardware_update_time = str "Unknown" };
  conman = record { config = default_conman_config; command = none };
  logs = service;
  rotate_conf = [];
}

abbrev tick : NodesTick
tick = record {
  now = str "now";
  http = smd;
  smd_url = str "http://smd/";
  kill = λ pid sig. none;
  conf_file = conf_file;
  agg_io = agg_io 3;
}

abbrev after : Site
after = elim (watch_for_nodes_updates site tick) [ none ↦ site | some s ↦ s ]

after_runs : watch_for_nodes_updates site tick ≡ some after
unfolding watch_for_nodes_updates check_for_updates update_nodes nodes_by_id remove_missing
    store_changed get put current_nodes_from_smd get_component_endpoints collect_nodes console_info
    ◌==◌ signal_conman update_log_rotate_conf write_nodes current_nodes copy_nodes clean join dir
    config_entry itoa serial_console_of
after_runs = refl

after_Reach : Tailed.Reach (conman_logs_path site) after
after_Reach = Tailed.Reach.turn (Tailed.Reach.start site refl refl refl) tick after_runs

current_nodes_tailed_example :
    length (live after.logs.tails.canceled (str "x1") after.logs.tails.watchers)
    ≡ (if has after.nodes.current_nodes (str "x1") then 1 else 0)
current_nodes_tailed_example = current_nodes_tailed after_Reach (str "x1")

abbrev stuck : ConmanService
stuck = record { config = default_conman_config; command = some (record { process = none }) }

abbrev round : ConmanRound
round = record {
  done = false;
  ctx_err = Error.canceled;
  attempt = attempt;
  conf = io;
  launch = good;
  done_at = λ seconds. false;
}

abbrev conmand : Conmand
conmand = record { conman = stuck; creds = fresh; conf_file = [] }

abbrev polled : NodesState
polled = record {
  current_nodes = (str "x1", some (node (str "x1") (pos 22))) ∷ [];
  hardware_update_time = str "now";
}

-- conmand could not be started.
abbrev unlaunched : Conmand
unlaunched = record conmand { conman = new_conman_service default_conman_config }

abbrev failed : Conmand
failed = record unlaunched { conman = (execute_conman unlaunched.conman missing).0 }

abbrev two_rounds : List (ConmanRound × NodesState)
two_rounds = (round, polled) ∷ (round, polled) ∷ []

abbrev turned : Turn
turned = elim (run_rounds two_rounds failed) [ none ↦ stopped failed | some turn ↦ turn ]

turned_runs : run_rounds two_rounds failed ≡ some turned
unfolding run_rounds run_conman node_ids current_nodes copy_nodes put get get_passwords_with_retries
    get_passwords create_secure_storage found_all configure_conman generate_base_config
    write_entries console_entries sort_strings execute_conman ◌==◌
turned_runs = refl

launch_failed :
    (execute_conman unlaunched.conman missing).1
    ≡ some (Error.wrap (str "unable to start command: ") (Error.new (str "not found")))
unfolding execute_conman new_conman_service
launch_failed = refl

run_rounds_stuck_example :
    ((conmand_of turned).conman ≡ (execute_conman unlaunched.conman missing).0)
    × (execute_conman (conmand_of turned).conman good
        ≡ ((conmand_of turned).conman, some not_nil_error))
    × (signal_conman (conmand_of turned).conman (λ pid sig. none) sighup ≡ panicked)
unfolding new_conman_service
run_rounds_stuck_example =
    run_rounds_stuck two_rounds unlaunched missing
      (Error.wrap (str "unable to start command: ") (Error.new (str "not found"))) turned refl
      launch_failed turned_runs good (λ pid sig. none) sighup

answered :
    (config : CredsConfig) (names : List Str) (i : ℕ)
    → ends_early (answer config names attempt i).1 ≡ false
unfolding get_passwords create_secure_storage is_canceled
answered config names zero = ground arith
answered config names (suc i) = ground arith

tried : (i : ℕ) → ((attempt i).done_before ≡ false) × ((attempt i).done_in_wait ≡ false)
tried zero = (refl, refl)
tried (suc i) = (refl, refl)

round-IsUndone : IsUndone round
round-IsUndone = record {
  begun = refl;
  tried = tried;
  answered = answered;
  waited = λ seconds. refl;
}

polled-IsTable : IsTable polled.current_nodes
unfolding get
polled-IsTable = record {
  distinct = (refl, tt);
  keyed = λ k p h. elim (Bool-cases (str "x1" == k)) [
    | inl e ↦ (node (str "x1") (pos 22), ground (arith, e, h), ==-sound (str "x1") k e)
    | inr e ↦ absurd (ground (arith, e, h))
  ];
}

run_rounds_go_on_example :
    (d : Conmand) × (run_rounds ((round, polled) ∷ (round, polled) ∷ []) conmand ≡ some (again d))
run_rounds_go_on_example =
    run_rounds_go_on ((round, polled) ∷ (round, polled) ∷ []) conmand
      ((polled-IsTable, round-IsUndone), ((polled-IsTable, round-IsUndone), tt))

round-IsFaultless : IsFaultless round.conf conmand.conman.config
unfolding generate_base_config default_conman_config
round-IsFaultless = record {
  templated = (str "# UPDATE_CONFIG=FALSE\n", refl);
  opens = refl;
  writes = λ content output. refl;
}

round-Appends : Appends round.conf
round-Appends = record { appended = λ content output content' e. ap (λ p. p.0) (sym e) }

run_conman-Answers_example :
    (d : Conmand) × (run_conman round conmand
        (check_for_updates polled (str "now") smd (str "http://smd/")).0
      ≡ some (again d))
    × IsRound round conmand
        (current_nodes (check_for_updates polled (str "now") smd (str "http://smd/")).0)
        d
    × ((k : Str) (nci : NodeConsoleInfo)
        → In
            (k, some nci)
            (current_nodes (check_for_updates polled (str "now") smd (str "http://smd/")).0)
          ↔ (latest (collect_nodes (endpoint (str "x1") ∷ [])) k ≡ some nci))
run_conman-Answers_example =
    run_conman-Answers round conmand polled (str "now") (str "http://smd/") smd
      (endpoint (str "x1") ∷ []) polled-IsTable smd-Answers round-IsUndone round-IsFaultless
      round-Appends
