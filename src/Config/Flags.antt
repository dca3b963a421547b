-- ===== src/Config/Flags.antt =====
-- config.ts: the command line, and `loadConfig` up to the schema. `parseArgs` of the platform is a
-- parameter: it gives the flags that were passed, each once, and the positional arguments. The
-- result is what the schema then checks.
use zendesk_mcp_server.Base.{
  ℕ, String, Bool, true, false, Option, none, some, List, [], ◌∷◌, ltb, if◌then◌else◌, length, any,
  number_key, text_key, Result, ok, err,
}
use zendesk_mcp_server.OauthScopes.{list_key}
use zendesk_mcp_server.Config.{
  Flag, ConfigError, empty_flag, too_many_positionals, and_then, is_empty, parse_port,
}
use zendesk_mcp_server.Config.Settings.{CliResult}

-- A value as `parseArgs` gives it: of a flag, of a repeatable flag, or a flag without a value.
pub data FlagValue : Type 0 where
  text : List ℕ → FlagValue
  texts : List (List ℕ) → FlagValue
  switch : FlagValue

abbrev pub is_blank : FlagValue → Bool
is_blank (text v) = is_empty v
is_blank (texts vs) = any is_empty vs
is_blank switch = false

abbrev pub start_result : Option (List ℕ) → CliResult
start_result subdomain = record {
  subdomain = subdomain;
  brand_ids = none;
  mode = none;
  read_only = none;
  namespaces = none;
  tools = none;
  topology = none;
  promoted_articles = none;
  hc_resource_scheme = none;
  dev = none;
  print_tools = none;
  log_level = none;
  transport = none;
  host = none;
  port = none;
  public_url = none;
  cors_origins = none;
  callback_port = none;
  oauth_master_secret_file = none;
  oauth_store = none;
  customization_store = none;
  oauth_trusted_clients = none;
  default_trusted_clients = none;
  sla_push = none;
  sla_reply_thresholds = none;
  sla_wait_thresholds = none;
  sla_cache_ttl_seconds = none;
  sla_state_store = none;
  sla_user_preferences = none;
  sla_poll_seconds = none;
}

-- STANDALONE_EFFECTS
unfoldable pub with_switch : CliResult → Flag → CliResult
with_switch r Flag.read_only = record r { read_only = some true }
with_switch r Flag.no_topology = record r { topology = some false }
with_switch r Flag.no_promoted_articles = record r { promoted_articles = some false }
with_switch r Flag.dev = record r { dev = some true }
with_switch r Flag.print_tools = record r { print_tools = some true }
with_switch r Flag.no_default_trusted_clients = record r { default_trusted_clients = some false }
with_switch r Flag.sla_push = record r { sla_push = some true }
with_switch r Flag.no_sla_user_preferences = record r { sla_user_preferences = some false }
with_switch r _ = r

-- FIELD_BY_FLAG, for the flags with one value; the ports and the brand ids come later
unfoldable pub with_text : CliResult → Flag → List ℕ → CliResult
with_text r Flag.mode v = record r { mode = some v }
with_text r Flag.log_level v = record r { log_level = some v }
with_text r Flag.hc_resource_scheme v = record r { hc_resource_scheme = some v }
with_text r Flag.transport v = record r { transport = some v }
with_text r Flag.host v = record r { host = some v }
with_text r Flag.public_url v = record r { public_url = some v }
with_text r Flag.oauth_master_secret_file v = record r { oauth_master_secret_file = some v }
with_text r Flag.oauth_store v = record r { oauth_store = some v }
with_text r Flag.customization_store v = record r { customization_store = some v }
with_text r Flag.sla_reply_thresholds v = record r { sla_reply_thresholds = some v }
with_text r Flag.sla_wait_thresholds v = record r { sla_wait_thresholds = some v }
with_text r Flag.sla_cache_ttl_seconds v = record r { sla_cache_ttl_seconds = some v }
with_text r Flag.sla_state_store v = record r { sla_state_store = some v }
with_text r Flag.sla_poll_seconds v = record r { sla_poll_seconds = some v }
with_text r _ v = r

-- FIELD_BY_FLAG, for the repeatable flags
unfoldable pub with_texts : CliResult → Flag → List (List ℕ) → CliResult
with_texts r Flag.namespace vs = record r { namespaces = some vs }
with_texts r Flag.tool vs = record r { tools = some vs }
with_texts r Flag.cors_origin vs = record r { cors_origins = some vs }
with_texts r Flag.oauth_trusted_client vs = record r { oauth_trusted_clients = some vs }
with_texts r _ vs = r

abbrev pub with_flag : CliResult → Flag → FlagValue → CliResult
with_flag r flag (text v) = with_text r flag v
with_flag r flag (texts vs) = with_texts r flag vs
with_flag r flag switch = with_switch r flag

-- the loop over the values
unfoldable pub with_flags : CliResult → List (Flag × FlagValue) → Result ConfigError CliResult
with_flags r [] = ok r
with_flags r ((flag, value) ∷ values) =
    let rest = with_flags (with_flag r flag value) values in
    if is_blank value then err (empty_flag flag) else rest

abbrev pub text_value : FlagValue → Option (List ℕ)
text_value (text v) = some v
text_value _ = none

-- `values.port`, `values['callback-port']` and `values['brand-ids']`
unfoldable pub brand_ids_value : List (Flag × FlagValue) → Option (List ℕ)
brand_ids_value [] = none
brand_ids_value ((Flag.brand_ids, value) ∷ values) = text_value value
brand_ids_value ((_, value) ∷ values) = brand_ids_value values

unfoldable pub port_value : List (Flag × FlagValue) → Option (List ℕ)
port_value [] = none
port_value ((Flag.port, value) ∷ values) = text_value value
port_value ((_, value) ∷ values) = port_value values

unfoldable pub callback_port_value : List (Flag × FlagValue) → Option (List ℕ)
callback_port_value [] = none
callback_port_value ((Flag.callback_port, value) ∷ values) = text_value value
callback_port_value ((_, value) ∷ values) = callback_port_value values

abbrev pub port_flag : String → Option (List ℕ) → Result ConfigError (Option ℕ)
port_flag label none = ok none
port_flag label (some raw) = and_then (parse_port raw label) (λ port. ok (some port))

abbrev pub first_positional : List (List ℕ) → Option (List ℕ)
first_positional [] = none
first_positional (p ∷ ps) = some p

unfoldable pub cli_of : List (Flag × FlagValue) → Option (List ℕ) → Result ConfigError CliResult
cli_of values subdomain = and_then (with_flags (start_result subdomain) values) (λ result.
    and_then (port_flag "--port" (port_value values)) (λ port.
      and_then (port_flag "--callback-port" (callback_port_value values)) (λ callback_port.
        ok (record result {
          port = port;
          callback_port = callback_port;
          brand_ids = brand_ids_value values;
        }))))

unfoldable pub parse_cli_args :
    List (Flag × FlagValue) → List (List ℕ) → Result ConfigError CliResult
parse_cli_args values positionals =
    if ltb 1 (length positionals)
    then err (too_many_positionals (length positionals))
    else cli_of values (first_positional positionals)
