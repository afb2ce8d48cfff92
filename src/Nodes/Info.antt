-- ===== src/Nodes/Info.antt =====
-- internal/nodes/node_console_info.go
use remote_console.Prelude.{◌≡◌, ◌↔◌, Bool, true, ◌&&◌, arith}
use remote_console.Prelude.Text.{Str, str, ◌==◌, ==_iff}
use remote_console.Prelude.Int.{ℤ, int_eq, int_eq_iff}

abbrev pub ipmi : Str
ipmi = str "ipmi"

abbrev pub ssh : Str
ssh = str "ssh"

pub record NodeConsoleInfo : Type 0 where
  pub id : Str
  pub connection_type : Str
  pub connection_host : Str
  pub connection_port : ℤ
  pub console_entry_command : Str

-- `==` on the struct: all five fields.
unfoldable pub nci_eq : NodeConsoleInfo → NodeConsoleInfo → Bool
nci_eq a b =
    a.id == b.id
    && (a.connection_type == b.connection_type
        && (a.connection_host == b.connection_host
            && (int_eq a.connection_port b.connection_port
                && a.console_entry_command == b.console_entry_command)))

pub nci_eq_iff : (a b : NodeConsoleInfo) → (nci_eq a b ≡ true) ↔ (a ≡ b)
unfolding nci_eq
nci_eq_iff a b = ground (
  arith,
  ==_iff a.id b.id,
  ==_iff a.connection_type b.connection_type,
  ==_iff a.connection_host b.connection_host,
  int_eq_iff a.connection_port b.connection_port,
  ==_iff a.console_entry_command b.console_entry_command,
)
