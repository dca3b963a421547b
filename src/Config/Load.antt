-- ===== src/Config/Load.antt =====
-- `loadConfig` of config.ts, up to the schema: flags and variables in the order that they are read, so
-- that the first fault is the one reported.
use zendesk_mcp_server.Base.{
  ℕ, Bool, true, false, Option, none, some, List, [], ◌∷◌, ◌++◌, if◌then◌else◌, number_key,
  text_key, Result, ok,
}
use zendesk_mcp_server.Text.{codes}
use zendesk_mcp_server.OauthScopes.{list_key}
use zendesk_mcp_server.Config.{
  EnvOf, Flag, ConfigError, and_then, or_else, or_default, port_env, flag_or_env,
  read_non_empty_env, resolve_namespaces, parse_brand_ids, namespace_options,
}
use zendesk_mcp_server.Config.Settings.{
  CliResult, TransportSettings, OauthServerSettings, SlaSettings, resolve_transport_settings,
  resolve_oauth_server_settings, resolve_sla_settings,
}
use zendesk_mcp_server.Config.Flags.{FlagValue, parse_cli_args}

-- What `loadConfig` hands to the schema.
pub record ConfigInput : Type 0 where
  pub subdomain : List ℕ
  pub oauth_client_id : List ℕ
  pub brand_ids : Option (List (List ℕ))
  pub log_level : List ℕ
  pub mode : List ℕ
  pub read_only : Bool
  pub namespaces : Option (List (List ℕ))
  pub tools : Option (List (List ℕ))
  pub topology : Option Bool
  pub promoted_articles : Option Bool
  pub hc_resource_scheme : Option (List ℕ)
  pub dev : Bool
  pub print_tools : Bool
  pub callback_port : Option ℕ
  pub transport_settings : TransportSettings
  pub oauth_settings : OauthServerSettings
  pub sla_settings : SlaSettings

-- `cli.tools?.length`
abbrev pub has_tools : Option (List (List ℕ)) → Bool
has_tools none = false
has_tools (some []) = false
has_tools (some (t ∷ tools)) = true

-- an explicit tool opens the namespaces
abbrev pub or_all_namespaces :
    Option (List (List ℕ)) → Option (List (List ℕ)) → Option (List (List ℕ))
or_all_namespaces tools (some names) = some names
or_all_namespaces tools none = if has_tools tools then some namespace_options else none

unfoldable pub load_config_of :
    (List ℕ → List ℕ) → CliResult → EnvOf → Result ConfigError ConfigInput
load_config_of to_lower_case cli env =
    and_then (flag_or_env cli.subdomain env "ZENDESK_SUBDOMAIN") (λ given.
      and_then (read_non_empty_env env "ZENDESK_OAUTH_CLIENT_ID") (λ client.
        and_then (resolve_namespaces cli.namespaces env) (λ named.
          and_then (or_else cli.callback_port (port_env env "OAUTH_CALLBACK_PORT"))
            (λ callback_port.
              and_then (flag_or_env cli.brand_ids env "ZENDESK_BRAND_IDS") (λ brands.
                and_then (flag_or_env cli.hc_resource_scheme env "HC_RESOURCE_SCHEME") (λ scheme.
                  and_then (parse_brand_ids to_lower_case brands) (λ brand_ids.
                    and_then (flag_or_env cli.log_level env "LOG_LEVEL") (λ log_level.
                      and_then (resolve_transport_settings cli env) (λ transport.
                        and_then (resolve_oauth_server_settings cli env) (λ oauth.
                          and_then (resolve_sla_settings cli env) (λ sla.
                            let subdomain : List ℕ = or_default [] given in
                            ok (record {
                              subdomain = subdomain;
                              oauth_client_id = or_default (subdomain ++ codes "_zendesk") client;
                              brand_ids = brand_ids;
                              log_level = or_default (codes "info") log_level;
                              mode =
                                  if has_tools cli.tools
                                  then codes "all"
                                  else or_default (codes "namespace") cli.mode;
                              read_only = or_default false cli.read_only;
                              namespaces = or_all_namespaces cli.tools named;
                              tools = cli.tools;
                              topology = cli.topology;
                              promoted_articles = cli.promoted_articles;
                              hc_resource_scheme = scheme;
                              dev = or_default false cli.dev;
                              print_tools = or_default false cli.print_tools;
                              callback_port = callback_port;
                              transport_settings = transport;
                              oauth_settings = oauth;
                              sla_settings = sla;
                            }))))))))))))

unfoldable pub load_config :
    (List ℕ → List ℕ)
    → List (Flag × FlagValue)
    → List (List ℕ)
    → EnvOf
    → Result ConfigError ConfigInput
load_config to_lower_case values positionals env =
    and_then (parse_cli_args values positionals) (λ cli. load_config_of to_lower_case cli env)
