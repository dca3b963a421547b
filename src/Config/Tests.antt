-- ===== src/Config/Tests.antt =====
-- Runs of config.ts on a command line and an environment.
use zendesk_mcp_server.Base.{
  ℕ, ◌≤◌, ◌≡◌, refl, false, none, some, List, [], ◌∷◌, if◌then◌else◌, length, ◌==◌, number_key,
  text_key, ok,
}
use zendesk_mcp_server.Text.{codes}
use zendesk_mcp_server.OauthScopes.{list_key}
use zendesk_mcp_server.Sla.Thresholds.{default_sla_thresholds}
use zendesk_mcp_server.Base.Sets
use zendesk_mcp_server.Config
use zendesk_mcp_server.Config.{EnvOf, Flag}
use zendesk_mcp_server.Config.Settings
use zendesk_mcp_server.Config.Settings.{CliResult}
use zendesk_mcp_server.Config.Flags
use zendesk_mcp_server.Config.Flags.{FlagValue, text, parse_cli_args}
use zendesk_mcp_server.Config.Load.{ConfigInput}
use zendesk_mcp_server.Config.Refusals.{NoneBlank, parse_cli_args-NoneBlank}

abbrev flags : List (Flag × FlagValue)
flags =
    (Flag.brand_ids, text (codes "Acme, acme")) ∷ (Flag.sla_poll_seconds, text (codes "90")) ∷ []

abbrev positionals : List (List ℕ)
positionals = codes "shop" ∷ []

abbrev environment : EnvOf
environment name = if name == "MCP_NAMESPACES" then some (codes "all") else none

abbrev expected : ConfigInput
expected = record {
  subdomain = codes "shop";
  oauth_client_id = codes "shop_zendesk";
  brand_ids = some (codes "acme" ∷ []);
  log_level = codes "info";
  mode = codes "namespace";
  read_only = false;
  namespaces = some Config.namespace_options;
  tools = none;
  topology = none;
  promoted_articles = none;
  hc_resource_scheme = none;
  dev = false;
  print_tools = false;
  callback_port = none;
  transport_settings = record {
    transport = codes "stdio";
    host = codes "0.0.0.0";
    port = 3000;
    public_url = none;
    cors_origins = [];
  };
  oauth_settings = record {
    oauth_master_secret = none;
    oauth_master_secret_file = none;
    oauth_store = none;
    customization_store = none;
    oauth_trusted_clients = [];
    default_trusted_clients = none;
  };
  sla_settings = record {
    sla_thresholds = default_sla_thresholds;
    sla_push = none;
    sla_cache_ttl_seconds = none;
    sla_state_store = none;
    sla_user_preferences = none;
    sla_poll_seconds = some 90;
  };
}

abbrev parsed : CliResult
parsed = record (Flags.start_result (some (codes "shop"))) {
  brand_ids = some (codes "Acme, acme");
  sla_poll_seconds = some (codes "90");
}

accepted : parse_cli_args flags positionals ≡ ok parsed
unfolding parse_cli_args Flags.cli_of Flags.with_flags Flags.with_text Flags.port_value
    Flags.callback_port_value Flags.brand_ids_value Config.and_then
accepted = refl

parse_cli_args-NoneBlank_example : (length positionals ≤ 1) × NoneBlank flags
parse_cli_args-NoneBlank_example = parse_cli_args-NoneBlank flags positionals parsed accepted
