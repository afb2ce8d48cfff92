-- ===== src/Service/Run/Exit.antt =====
-- When the program starts to serve, and how it exits.
use remote_console.Prelude.{
  ℕ, ◌≡◌, ◌↔◌, ◌⊎◌, ◌≤◌, inl, inr, false, none, ok, arith, [], Option-cases, Result-cases,
}
use remote_console.Prelude.Text.{str}
use remote_console.Prelude.Filepath.{join}
use remote_console.Logs.Service.{LogsService, new_logs_service}
use remote_console.Console.Router.{setup_routes}
use remote_console.Service.Config.{RemoteConsoleConfig, validate_config}
use remote_console.Service.Startup.{init_auth}
use remote_console.Service.Startup.Protected.{Fetches, init_auth_iff}
use remote_console.Service.Startup
use remote_console.Service.Config.Valid.{IsCredsValid, IsOAuth2Valid, validate_config_iff}
use remote_console.Service.Run.{
  StartIo, Serving, StopIo, with_slash, initial_site, run_service, run_command, shut_down, main,
}

module _ {KeySet Jwt : Type 0} (config : RemoteConsoleConfig) (io : StartIo KeySet Jwt) where
  -- A key set is fetched within the tries, if one is configured.
  abbrev pub IsAuthReady : Type 0
  IsAuthReady =
      (config.jwks_url ≡ []) ⊎ ((j : ℕ) × (j ≤ Startup.max_retries) × Fetches io.servers j)

  pub record IsReady : Type 0 where
    pub valid : IsCredsValid config.creds × IsOAuth2Valid config.oauth2
    pub logs_dir : io.mkdir_all (join config.conman.logs_path (str "conman")) ≡ none
    pub backup_dir : io.mkdir_all config.log.console_logs_backup_path ≡ none
    pub auth : IsAuthReady

module _ {KeySet Jwt : Type 0} (io : StartIo KeySet Jwt) where
  -- What a start that goes on to the server has done.
  pub run_service-found :
      (config : RemoteConsoleConfig) (serving : Serving Jwt)
      → run_service config io ≡ ok serving
      → (io.mkdir_all (join config.conman.logs_path (str "conman")) ≡ none)
        × ((logs : LogsService) × (new_logs_service config.log io.mkdir_all ≡ ok logs)
            × ((init_auth config.jwks_url io.servers).1 ≡ none)
            × (serving.site ≡ initial_site config io logs)
            × (serving.routes ≡ setup_routes (init_auth config.jwks_url io.servers).0))
  unfolding run_service
  run_service-found config serving h =
      elim (Option-cases (io.mkdir_all (join config.conman.logs_path (str "conman")))) [
        | inr (e, failed) ↦ absurd (ground (arith, failed, h))
        | inl made ↦ elim (Result-cases (new_logs_service config.log io.mkdir_all)) [
          | inr (e, failed) ↦ absurd (ground (arith, made, failed, h))
          | inl (logs, fine) ↦ elim (Option-cases (init_auth config.jwks_url io.servers).1) [
            | inr (e, failed) ↦ absurd (ground (arith, made, fine, failed, h))
            | inl fetched ↦ (
              made,
              (
                logs,
                fine,
                fetched,
                ground (arith, made, fine, fetched, h),
                ground (arith, made, fine, fetched, h),
              ),
            )
          ]
        ]
      ]

  new_logs_service-ok :
      (config : RemoteConsoleConfig) (logs : LogsService)
      → new_logs_service config.log io.mkdir_all ≡ ok logs
      → io.mkdir_all config.log.console_logs_backup_path ≡ none
  unfolding new_logs_service
  new_logs_service-ok config logs h = ground (arith, h)

  pub run_command-IsReady :
      (config : RemoteConsoleConfig) (serving : Serving Jwt)
      → run_command config io ≡ ok serving
      → (run_service (with_slash config) io ≡ ok serving) × IsReady config io
  unfolding run_command
  run_command-IsReady config serving h = elim (Option-cases (validate_config (with_slash config))) [
    | inr (e, failed) ↦ absurd (ground (arith, failed, h))
    | inl valid ↦
        let started : run_service (with_slash config) io ≡ ok serving = ground (arith, valid, h) in
        let (made, (logs, fine, fetched, _, _)) =
          run_service-found (with_slash config) serving started in
        (
          started,
          record {
            valid = (validate_config_iff (with_slash config)).0 valid;
            logs_dir = made;
            backup_dir = new_logs_service-ok (with_slash config) logs fine;
            auth = (init_auth_iff io.servers config.jwks_url).0 fetched;
          },
        )
  ]

  IsReady-run_command :
      (config : RemoteConsoleConfig)
      → IsReady config io
      → (serving : Serving Jwt) × (run_command config io ≡ ok serving)
  unfolding run_command run_service new_logs_service
  IsReady-run_command config ready = elim (Result-cases (run_command config io)) [
    | inl found ↦ found
    | inr (e, failed) ↦
        let valid : validate_config (with_slash config) ≡ none =
          (validate_config_iff (with_slash config)).1 ready.valid in
        let fetched : (init_auth config.jwks_url io.servers).1 ≡ none =
          (init_auth_iff io.servers config.jwks_url).1 ready.auth in
        absurd (ground (arith, failed, valid, ready.logs_dir, ready.backup_dir, fetched))
  ]

  -- The program exits with 0 exactly when its configuration is valid, the directories of the console
  -- logs and of their backups can be made, a key set is fetched within six tries if one is
  -- configured, and the shutdown behind the signal succeeds within its grace period.
  pub main_iff :
      (config : RemoteConsoleConfig) (stop : StopIo)
      → (main config io stop ≡ 0)
        ↔ (IsReady config io × (stop.timed_out ≡ false) × (stop.shutdown ≡ none))
  unfolding main shut_down
  main_iff config stop = elim (Result-cases (run_command config io)) [
    | inl (serving, fine) ↦ (
      λ h.
          let (_, ready) = run_command-IsReady config serving fine in
          (ready, ground (arith, fine, h), ground (arith, fine, h)),
      λ (_, on_time, graceful). ground (arith, fine, on_time, graceful),
    )
    | inr (e, failed) ↦ (
      λ h. absurd (ground (arith, failed, h)),
      λ (ready, _, _).
          let (serving, fine) = IsReady-run_command config ready in
          absurd (ground (arith, failed, fine)),
    )
  ]
