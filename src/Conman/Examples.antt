-- ===== src/Conman/Examples.antt =====
-- A disk, a template and a conmand process, and the theorems about internal/conman at them.
use mathlib.Core.Path.{subst}
use remote_console.Prelude.{
  false, arith, Bool-cases, inl, inr, ap, sym, ◌≡◌, refl, ◌↔◌, true, none, some, [], ◌∷◌, ◌++◌, ok,
  err, Error, In,
}
use remote_console.Prelude.Text.{Str, str, ◌==◌, ==-sound, str_leb}
use remote_console.Prelude.Int.{pos}
use remote_console.Prelude.Map.{Map, get}
use remote_console.Prelude.Strings.{fields, atoi, itoa}
use remote_console.Prelude.Lines.{text_of, with_newlines}
use remote_console.Nodes.Info.{NodeConsoleInfo, ssh, ipmi}
use remote_console.Nodes.Registry.{NodeMap, NodesState, update_nodes, current_nodes}
use remote_console.Conman.Config.{default_conman_config}
use remote_console.Conman.Entries.{
  CompCredentials, generate_ipmi_console_config, generate_ssh_console_config,
}
use remote_console.Conman.Sort.{sort_strings}
use remote_console.Conman.ConfigFile.{ConfigIo, returned, generate_base_config, configure_conman}
use remote_console.Conman.ConfigFile.Complete.{Appends, IsWritten, configure_conman-IsWritten}
use remote_console.Conman.ConfigFile.Refreshed.{configure_conman-refreshed}
use remote_console.Nodes.Registry.Exact.{latest}
use remote_console.Conman.Process.{Launch}
use remote_console.Conman.Process.Single.{System, Loop, start}
use remote_console.Conman.Zombies.{find_zombies, ProcessIo, cleaned_up, watch_for_zombies}
use remote_console.Conman.Zombies.Found.{IsZombieLine, watch_for_zombies_iff}

abbrev x1 : NodeConsoleInfo
x1 = record {
  id = str "x1";
  connection_type = ssh;
  connection_host = str "bmc1";
  connection_port = pos 22;
  console_entry_command = [];
}

abbrev x2 : NodeConsoleInfo
x2 = record {
  id = str "x2";
  connection_type = ipmi;
  connection_host = str "bmc2";
  connection_port = pos 623;
  console_entry_command = [];
}

abbrev site : NodeMap
site = (str "x2", some x2) ∷ (str "x1", some x1) ∷ []

abbrev passwords : Map CompCredentials
passwords = (str "x2", record { username = str "root"; password = str "pw" }) ∷ []

-- A template with the flag off, on a disk where every write goes through.
abbrev pub io : ConfigIo
io = record {
  read_file = λ path. ok (str "# UPDATE_CONFIG=FALSE\n");
  parse = λ content. none;
  execute = λ content config. ok content;
  open_file = λ path. none;
  write = λ content output. (content ++ output, none);
}

abbrev written : Str
written =
    str
      "# UPDATE_CONFIG=FALSE\nconsole name=\"x1\" dev=\"/usr/bin/ssh-key-console bmc1 22  /key\"\nconsole name=\"x2\" dev=\"ipmi:bmc2\" ipmiopts=\"U:root,P:pw,W:solpayloadsize\"\n"

configure_conman_runs :
    configure_conman io default_conman_config site passwords (str "/key") []
    ≡ returned written (ok true)
unfolding configure_conman default_conman_config sort_strings ◌==◌ str_leb
    generate_ipmi_console_config generate_ssh_console_config get itoa
configure_conman_runs = refl

-- Two services of which one had a node that is gone; their lists are turned.
abbrev had : NodesState
had = record { current_nodes = (str "x9", none) ∷ []; hardware_update_time = str "then" }

abbrev bare : NodesState
bare = record { current_nodes = []; hardware_update_time = str "Unknown" }

same_at_x1 : latest (x1 ∷ x2 ∷ []) (str "x1") ≡ latest (x2 ∷ x1 ∷ []) (str "x1")
unfolding ◌==◌
same_at_x1 = refl

same_latest : (k : Str) → latest (x1 ∷ x2 ∷ []) k ≡ latest (x2 ∷ x1 ∷ []) k
same_latest k = elim (Bool-cases (str "x1" == k)) [
  | inr e ↦ ground (arith, e)
  | inl e ↦
      subst (λ j. latest (x1 ∷ x2 ∷ []) j ≡ latest (x2 ∷ x1 ∷ []) j) (==-sound (str "x1") k e)
        same_at_x1
]

configure_conman-refreshed_example :
    configure_conman io default_conman_config
      (current_nodes (update_nodes had (x1 ∷ x2 ∷ [])).0)
      passwords
      (str "/key")
      []
    ≡ configure_conman io default_conman_config
        (current_nodes (update_nodes bare (x2 ∷ x1 ∷ [])).0)
        passwords
        (str "/key")
        []
unfolding get
configure_conman-refreshed_example =
    configure_conman-refreshed io default_conman_config passwords (str "/key") [] had bare
      (x1 ∷ x2 ∷ []) (x2 ∷ x1 ∷ []) (refl, tt) tt same_latest

io-Appends : Appends io
io-Appends = record { appended = λ content output content' e. ap (λ p. p.0) (sym e) }

configure_conman-IsWritten_example :
    IsWritten io default_conman_config site passwords (str "/key") written true
configure_conman-IsWritten_example =
    configure_conman-IsWritten io default_conman_config site passwords (str "/key") [] written true
      io-Appends configure_conman_runs

base_there : generate_base_config io default_conman_config ≡ ok (str "# UPDATE_CONFIG=FALSE\n")
unfolding generate_base_config default_conman_config
base_there = refl

abbrev pub good : Launch
good = record { stderr_pipe = none; stdout_pipe = none; start = ok 77 }

-- conmand is not on the path at the first launch.
abbrev pub missing : Launch
missing = record good { start = err (Error.new (str "not found")) }

-- conmand runs.
abbrev started : System
started = record {
  service = record {
    config = default_conman_config;
    command = some (record { process = some 77 });
  };
  loop = Loop.waiting 77;
  running = 77 ∷ [];
  failed = false;
}

find_zombies_runs :
    find_zombies (str "  PID STAT\n    1 Ss\n   17 Z\n   18 Z+\n   19 Z") ≡ pos 17 ∷ []
unfolding find_zombies fields atoi ◌==◌
find_zombies_runs = refl

-- Every process is found and waited for.
abbrev processes : ProcessIo
processes = record { find_process = λ pid. none; wait = λ pid. none }

watch_for_zombies_iff_example :
    In (pos 17, cleaned_up) (watch_for_zombies processes (text_of (str "17 Z" ∷ []) (str "19"))) ↔ (
      ((line : Str) × In line (with_newlines (str "17 Z" ∷ [])) × IsZombieLine (pos 17) line)
      × (processes.find_process (pos 17) ≡ none)
      × (processes.wait (pos 17) ≡ none))
watch_for_zombies_iff_example =
    watch_for_zombies_iff processes (pos 17) (str "17 Z" ∷ []) (str "19")
      ((refl, (refl, (refl, (refl, tt)))), tt) (refl, (refl, tt))
