-- ===== src/Conman/Entries.antt =====
-- internal/conman/conman.go: the configuration entry of one console.
use remote_console.Prelude.{[], ◌++◌, if◌then◌else◌}
use remote_console.Prelude.Text.{Str, str, ◌==◌}
use remote_console.Prelude.Strings.{itoa}
use remote_console.Nodes.Info.{NodeConsoleInfo}
use remote_console.Conman.Config.{ConmanConfig}
use remote_console.Conman.Base64.{encode_to_string}

-- The two fields of compcredentials.CompCredentials that the program reads.
pub record CompCredentials : Type 0 where
  pub username : Str
  pub password : Str

unfoldable pub generate_ipmi_console_config : NodeConsoleInfo → CompCredentials → Str
generate_ipmi_console_config nci creds =
    str "console name=\""
    ++ nci.id
    ++ (str "\" dev=\"ipmi:"
        ++ nci.connection_host
        ++ (str "\" ipmiopts=\"U:"
            ++ creds.username
            ++ (str ",P:" ++ creds.password ++ str ",W:solpayloadsize\"\n")))

-- "%s/<script> %s %d %s %s"
abbrev script_args : ConmanConfig → NodeConsoleInfo → Str → Str → Str → Str
script_args config nci script username secret =
    config.console_scripts_path
    ++ (script
        ++ (str " "
            ++ nci.connection_host
            ++ (str " "
                ++ itoa nci.connection_port
                ++ (str " " ++ username ++ (str " " ++ secret)))))

-- A password if there is one, else the key file.
unfoldable pub ssh_login_args : ConmanConfig → NodeConsoleInfo → CompCredentials → Str → Str
ssh_login_args config nci creds key_path =
    if creds.password == []
    then script_args config nci (str "/ssh-key-console") creds.username key_path
    else script_args config nci (str "/ssh-pwd-console") creds.username creds.password

unfoldable pub ssh_dev_args : ConmanConfig → NodeConsoleInfo → CompCredentials → Str → Str
unfolding ssh_login_args
ssh_dev_args config nci creds key_path =
    let args = ssh_login_args config nci creds key_path in
    if nci.console_entry_command == []
    then args
    else args ++ (str " " ++ encode_to_string nci.console_entry_command)

unfoldable pub generate_ssh_console_config :
    ConmanConfig → NodeConsoleInfo → CompCredentials → Str → Str
unfolding ssh_dev_args
generate_ssh_console_config config nci creds key_path =
    str "console name=\""
    ++ nci.id
    ++ (str "\" dev=\"" ++ ssh_dev_args config nci creds key_path ++ str "\"\n")
