-- ===== src/Config/Checked.antt =====
-- What `loadConfig` of config.ts has checked when it returns.
use zendesk_mcp_server.Base.{◌⊎◌, true, ℕ, ◌≤◌, ◌≡◌, Option, none, some, List, number_key, text_key}
use zendesk_mcp_server.OauthScopes.{list_key}
use zendesk_mcp_server.Sla.Thresholds.{AreOrdered}
use zendesk_mcp_server.Config.{EnvOf, namespace_options}
use zendesk_mcp_server.Config.Lists.{AreBrands}
use zendesk_mcp_server.Config.Names.{AreNamed, AreNames}
use zendesk_mcp_server.Config.Settings.{CliResult, SlaSettings}
use zendesk_mcp_server.Config.Load.{ConfigInput, has_tools}

pub record AreChecked (s : SlaSettings) : Type 0 where
  pub thresholds : AreOrdered s.sla_thresholds
  pub poll : (n : ℕ) → s.sla_poll_seconds ≡ some n → (60 ≤ n) × (n ≤ 86400)

-- The text of a setting: its flag, or its variable where there is no flag.
abbrev pub IsGiven : Option (List ℕ) → Option (List ℕ) → List ℕ → Type 0
IsGiven flag variable raw = (flag ≡ some raw) ⊎ ((flag ≡ none) × (variable ≡ some raw))

-- The namespaces of an input, for the flag, the environment and the tools that were named.
abbrev pub AreResolved :
    Option (List (List ℕ)) → Option (List (List ℕ)) → EnvOf → List (List ℕ) → Type 0
AreResolved tools flag env names =
    ((entries : List (List ℕ)) × AreNamed flag env entries × AreNames entries names)
    ⊎ ((flag ≡ none)
        × (env "MCP_NAMESPACES" ≡ none)
        × (has_tools tools ≡ true)
        × (names ≡ namespace_options))

-- What is known of an input to the schema, for a command line and an environment.
pub record IsClean (to_lower_case : List ℕ → List ℕ) (cli : CliResult) (env : EnvOf)
    (input : ConfigInput) : Type 0 where
  pub sla : AreChecked input.sla_settings
  pub brands :
      (ids : List (List ℕ))
      → input.brand_ids ≡ some ids
      → (raw : List ℕ) × IsGiven cli.brand_ids (env "ZENDESK_BRAND_IDS") raw
        × AreBrands to_lower_case raw ids
  pub names :
      (names : List (List ℕ))
      → input.namespaces ≡ some names
      → AreResolved cli.tools cli.namespaces env names
