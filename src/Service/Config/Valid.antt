-- ===== src/Service/Config/Valid.antt =====
-- Which configurations the service starts with.
use remote_console.Prelude.{◌≡◌, refl, ◌≢◌, ◌↔◌, ◌⊎◌, true, none, [], ◌∷◌, ◌++◌, arith}
use remote_console.Prelude.Text.{Str, str, ◌==◌, ==_iff}
use remote_console.Creds.Config.{
  CredsConfig, storage_adapter_vault, storage_adapter_local, new_storage_adapter, validate,
}
use remote_console.Service.Config.{
  OAuth2Config, RemoteConsoleConfig, validate_config, validate_creds_config, oauth2_provided,
  contains, ensure_trailing_slash, ends_in_slash,
}

abbrev pub IsCredsValid : CredsConfig → Type 0
IsCredsValid c =
    (c.secure_storage_adapter ≡ [])
    ⊎ ((c.secure_storage_adapter ≡ storage_adapter_vault)
        ⊎ ((c.secure_storage_adapter ≡ storage_adapter_local)
            × ((c.local_store_file_path ≢ []) × (c.local_store_key ≢ []))))

-- All four settings are given, or none.
abbrev pub IsOAuth2Valid : OAuth2Config → Type 0
IsOAuth2Valid o =
    ((o.client_id ≢ []) × ((o.client_secret ≢ []) × ((o.token_url ≢ []) × (o.scopes ≢ []))))
    ⊎ ((o.client_id ≡ []) × ((o.client_secret ≡ []) × ((o.token_url ≡ []) × (o.scopes ≡ []))))

validate_creds_config_iff :
    (config : RemoteConsoleConfig)
    → (validate_creds_config config ≡ none) ↔ IsCredsValid config.creds
unfolding validate_creds_config new_storage_adapter validate
validate_creds_config_iff config =
    let c = config.creds in
    (
      λ h. ground (
        arith,
        ==_iff c.secure_storage_adapter [],
        ==_iff c.secure_storage_adapter storage_adapter_vault,
        ==_iff c.secure_storage_adapter storage_adapter_local,
        ==_iff c.local_store_file_path [],
        ==_iff c.local_store_key [],
      ),
      λ h. ground (
        arith,
        ==_iff c.secure_storage_adapter [],
        ==_iff c.secure_storage_adapter storage_adapter_vault,
        ==_iff c.secure_storage_adapter storage_adapter_local,
        ==_iff c.local_store_file_path [],
        ==_iff c.local_store_key [],
      ),
    )

-- A configuration is accepted exactly when its storage adapter is empty, vault, or local with a path
-- and a key, and its OAuth2 settings are all given or all empty.
pub validate_config_iff :
    (config : RemoteConsoleConfig)
    → (validate_config config ≡ none) ↔ (IsCredsValid config.creds × IsOAuth2Valid config.oauth2)
unfolding validate_config oauth2_provided contains
validate_config_iff config =
    let o = config.oauth2 in
    ground (
      arith,
      validate_creds_config_iff config,
      ==_iff o.client_id [],
      ==_iff o.client_secret [],
      ==_iff o.token_url [],
    )

ends_in_slash-append : (s : Str) → ends_in_slash (s ++ str "/") ≡ true
unfolding ends_in_slash ◌==◌
ends_in_slash-append [] = refl
ends_in_slash-append (c ∷ []) = refl
ends_in_slash-append (c ∷ d ∷ s) = ends_in_slash-append (d ∷ s)

-- A URL that went through once is left alone by a second pass.
ensure_trailing_slash_again :
    (url : Str) → ensure_trailing_slash (ensure_trailing_slash url) ≡ ensure_trailing_slash url
unfolding ensure_trailing_slash
ensure_trailing_slash_again url = ground (arith, ends_in_slash-append url)
