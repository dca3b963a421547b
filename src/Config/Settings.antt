-- ===== src/Config/Settings.antt =====
-- config.ts: the settings of SLA alerting, of the transport and of the authorization server, each from
-- its flag, else its variable, else its default.
use zendesk_mcp_server.Base.{
  ℕ, String, Bool, true, not, ◌&&◌, Option, none, some, List, [], ◌∷◌, ◌++◌, leb, if◌then◌else◌,
  ◌==◌, number_key, text_key, includes, Result, ok, err,
}
use zendesk_mcp_server.Text.{codes, number_from}
use zendesk_mcp_server.OauthScopes.{list_key}
use zendesk_mcp_server.Sla.Thresholds.{
  SlaThreshold, SlaThresholds, ThresholdError, default_sla_thresholds, parse_threshold_pair,
}
use zendesk_mcp_server.Config.{
  EnvOf, ConfigError, invalid_threshold, invalid_seconds, out_of_range, invalid_store, and_then,
  digits_only, read_non_empty_env, port_env, or_else, or_default, flag_or_env, split_list,
  boolean_env,
}

abbrev pub first_of : Option (List ℕ) → Option (List ℕ) → Option (List ℕ)
first_of (some flag) variable = some flag
first_of none variable = variable

-- the name that an error gives: the flag where it was passed, else the variable
abbrev pub named : Option (List ℕ) → String → String → String
named (some raw) flag name = flag
named none flag name = name

abbrev pub threshold_parsed :
    String → Result ThresholdError SlaThreshold → Result ConfigError SlaThreshold
threshold_parsed label (err e) = err (invalid_threshold label e)
threshold_parsed label (ok t) = ok t

abbrev pub threshold_of_raw :
    SlaThreshold → String → Option (List ℕ) → Result ConfigError SlaThreshold
threshold_of_raw fallback label none = ok fallback
threshold_of_raw fallback label (some raw) = threshold_parsed label (parse_threshold_pair raw)

unfoldable pub threshold_setting :
    Option (List ℕ) → EnvOf → String → String → SlaThreshold → Result ConfigError SlaThreshold
threshold_setting cli_value env name flag fallback =
    and_then (read_non_empty_env env name) (λ variable.
      threshold_of_raw fallback (named cli_value flag name) (first_of cli_value variable))

abbrev pub in_range : ℕ → Option (ℕ × ℕ) → Bool
in_range seconds none = true
in_range seconds (some (least, most)) = leb least seconds && leb seconds most

abbrev pub range_error : String → Option (ℕ × ℕ) → ConfigError
range_error label none = invalid_seconds label
range_error label (some (least, most)) = out_of_range label least most

abbrev pub seconds_of_raw :
    String → Option (ℕ × ℕ) → Option (List ℕ) → Result ConfigError (Option ℕ)
seconds_of_raw label range none = ok none
seconds_of_raw label range (some raw) =
    if not (digits_only raw)
    then err (invalid_seconds label)
    else if in_range (number_from 0 raw) range
    then ok (some (number_from 0 raw))
    else err (range_error label range)

unfoldable pub seconds_setting :
    Option (List ℕ) → EnvOf → String → String → Option (ℕ × ℕ) → Result ConfigError (Option ℕ)
seconds_setting cli_value env name flag range =
    and_then (read_non_empty_env env name)
      (λ variable. seconds_of_raw (named cli_value flag name) range (first_of cli_value variable))

abbrev pub store_of_raw : String → Option (List ℕ) → Result ConfigError (Option (List ℕ))
store_of_raw label none = ok none
store_of_raw label (some raw) =
    if includes (codes "memory" ∷ codes "disk" ∷ []) raw
    then ok (some raw)
    else err (invalid_store label)

unfoldable pub state_store_setting : Option (List ℕ) → EnvOf → Result ConfigError (Option (List ℕ))
state_store_setting cli_value env = and_then (read_non_empty_env env "SLA_STATE_STORE") (λ variable.
    store_of_raw (named cli_value "--sla-state-store" "SLA_STATE_STORE")
      (first_of cli_value variable))

abbrev pub sla_poll_range : ℕ × ℕ
sla_poll_range = (60, 86400)

-- The fields that flags fill, as `parseCliArgs` returns them.
pub record CliResult : Type 0 where
  pub subdomain : Option (List ℕ)
  pub brand_ids : Option (List ℕ)
  pub mode : Option (List ℕ)
  pub read_only : Option Bool
  pub namespaces : Option (List (List ℕ))
  pub tools : Option (List (List ℕ))
  pub topology : Option Bool
  pub promoted_articles : Option Bool
  pub hc_resource_scheme : Option (List ℕ)
  pub dev : Option Bool
  pub print_tools : Option Bool
  pub log_level : Option (List ℕ)
  pub transport : Option (List ℕ)
  pub host : Option (List ℕ)
  pub port : Option ℕ
  pub public_url : Option (List ℕ)
  pub cors_origins : Option (List (List ℕ))
  pub callback_port : Option ℕ
  pub oauth_master_secret_file : Option (List ℕ)
  pub oauth_store : Option (List ℕ)
  pub customization_store : Option (List ℕ)
  pub oauth_trusted_clients : Option (List (List ℕ))
  pub default_trusted_clients : Option Bool
  pub sla_push : Option Bool
  pub sla_reply_thresholds : Option (List ℕ)
  pub sla_wait_thresholds : Option (List ℕ)
  pub sla_cache_ttl_seconds : Option (List ℕ)
  pub sla_state_store : Option (List ℕ)
  pub sla_user_preferences : Option Bool
  pub sla_poll_seconds : Option (List ℕ)

pub record TransportSettings : Type 0 where
  pub transport : List ℕ
  pub host : List ℕ
  pub port : ℕ
  pub public_url : Option (List ℕ)
  pub cors_origins : List (List ℕ)

unfoldable pub resolve_transport_settings : CliResult → EnvOf → Result ConfigError TransportSettings
resolve_transport_settings cli env =
    and_then (flag_or_env cli.transport env "TRANSPORT") (λ transport.
      and_then (flag_or_env cli.host env "LISTEN_HOST") (λ host.
        and_then (or_else cli.port (port_env env "PORT")) (λ port.
          and_then (flag_or_env cli.public_url env "PUBLIC_URL") (λ public_url. ok (record {
            transport = or_default (codes "stdio") transport;
            host = or_default (codes "0.0.0.0") host;
            port = or_default 3000 port;
            public_url = public_url;
            cors_origins = or_default [] cli.cors_origins ++ split_list (env "CORS_ORIGIN");
          })))))

pub record OauthServerSettings : Type 0 where
  pub oauth_master_secret : Option (List ℕ)
  pub oauth_master_secret_file : Option (List ℕ)
  pub oauth_store : Option (List ℕ)
  pub customization_store : Option (List ℕ)
  pub oauth_trusted_clients : List (List ℕ)
  pub default_trusted_clients : Option Bool

unfoldable pub resolve_oauth_server_settings :
    CliResult → EnvOf → Result ConfigError OauthServerSettings
resolve_oauth_server_settings cli env =
    and_then (read_non_empty_env env "OAUTH_MASTER_SECRET") (λ secret.
      and_then (flag_or_env cli.oauth_master_secret_file env "OAUTH_MASTER_SECRET_FILE") (λ file.
        and_then (flag_or_env cli.oauth_store env "OAUTH_STORE") (λ store.
          and_then (flag_or_env cli.customization_store env "CUSTOMIZATION_STORE") (λ customization.
            ok (record {
              oauth_master_secret = secret;
              oauth_master_secret_file = file;
              oauth_store = store;
              customization_store = customization;
              oauth_trusted_clients =
                  or_default [] cli.oauth_trusted_clients
                  ++ split_list (env "OAUTH_TRUSTED_CLIENTS");
              default_trusted_clients = cli.default_trusted_clients;
            })))))

pub record SlaSettings : Type 0 where
  pub sla_thresholds : SlaThresholds
  pub sla_push : Option Bool
  pub sla_cache_ttl_seconds : Option ℕ
  pub sla_state_store : Option (List ℕ)
  pub sla_user_preferences : Option Bool
  pub sla_poll_seconds : Option ℕ

unfoldable pub resolve_sla_settings : CliResult → EnvOf → Result ConfigError SlaSettings
resolve_sla_settings cli env =
    and_then
      (threshold_setting cli.sla_reply_thresholds env "SLA_REPLY_THRESHOLDS"
        "--sla-reply-thresholds" default_sla_thresholds.reply_family)
      (λ reply.
        and_then
          (threshold_setting cli.sla_wait_thresholds env "SLA_WAIT_THRESHOLDS"
            "--sla-wait-thresholds" default_sla_thresholds.wait_family)
          (λ wait. and_then (or_else cli.sla_push (boolean_env env "SLA_PUSH")) (λ push.
            and_then
              (seconds_setting cli.sla_cache_ttl_seconds env "SLA_CACHE_TTL_SECONDS"
                "--sla-cache-ttl-seconds" none)
              (λ cache_ttl. and_then (state_store_setting cli.sla_state_store env) (λ store.
                and_then (or_else cli.sla_user_preferences (boolean_env env "SLA_USER_PREFERENCES"))
                  (λ preferences.
                    and_then
                      (seconds_setting cli.sla_poll_seconds env "SLA_POLL_SECONDS"
                        "--sla-poll-seconds" (some sla_poll_range))
                      (λ poll. ok (record {
                        sla_thresholds = record { reply_family = reply; wait_family = wait };
                        sla_push = push;
                        sla_cache_ttl_seconds = cache_ttl;
                        sla_state_store = store;
                        sla_user_preferences = preferences;
                        sla_poll_seconds = poll;
                      }))))))))

unfoldable pub sla_state_store_of : Option (List ℕ) → List ℕ → List ℕ
sla_state_store_of (some store) transport = store
sla_state_store_of none transport =
    if transport == codes "http" then codes "memory" else codes "disk"
