-- ===== src/Config.antt =====
-- config.ts: values of the command line and the environment. A text is its code points; the
-- environment is a function of the variable's name. A startup error is its reason, with the name of
-- the variable or flag that it names.
pub mod Flags
pub mod Lists
pub mod Names
pub mod Settings
pub mod Load
pub mod Checked
pub mod Refusals
mod Tests
use zendesk_mcp_server.Base.{
  ℕ, String, Bool, true, false, not, ◌&&◌, Option, none, some, List, [], ◌∷◌, map, ltb,
  if◌then◌else◌, length, keep, any, number_key, text_key, includes, Result, ok, err, unique,
}
use zendesk_mcp_server.Text.{codes, trim, split_on, is_digit, number_from, lower}
use zendesk_mcp_server.OauthScopes.{list_key}
use zendesk_mcp_server.Sla.Thresholds.{ThresholdError}

abbrev pub EnvOf : Type 0
EnvOf = String → Option (List ℕ)

-- the options of the command line, CLI_OPTIONS
pub data Flag : Type 0 where
  mode brand_ids namespace tool log_level hc_resource_scheme transport host port public_url : Flag
  cors_origin callback_port oauth_master_secret_file oauth_store customization_store : Flag
  oauth_trusted_client no_default_trusted_clients read_only no_topology : Flag
  no_promoted_articles dev print_tools sla_push no_sla_user_preferences : Flag
  sla_reply_thresholds sla_wait_thresholds sla_cache_ttl_seconds sla_state_store : Flag
  sla_poll_seconds : Flag

pub data ConfigError : Type 0 where
  invalid_port empty_variable empty_entry all_combined : String → ConfigError
  invalid_boolean invalid_seconds invalid_store : String → ConfigError
  invalid_threshold : String → ThresholdError → ConfigError
  out_of_range : String → ℕ → ℕ → ConfigError
  empty_flag : Flag → ConfigError
  too_many_positionals : ℕ → ConfigError

-- a step that may throw, and the rest of the function
unfoldable pub and_then {ℓ κ} :
    {A : Type ℓ} {B : Type κ}
    → Result ConfigError A
    → (A → Result ConfigError B)
    → Result ConfigError B
and_then (err e) rest = err e
and_then (ok a) rest = rest a

abbrev pub all_digits : List ℕ → Bool
all_digits [] = true
all_digits (c ∷ s) = is_digit c && all_digits s

-- the expression DIGITS_ONLY
unfoldable pub digits_only : List ℕ → Bool
digits_only [] = false
digits_only (c ∷ s) = is_digit c && all_digits s

unfoldable pub parse_port : List ℕ → String → Result ConfigError ℕ
parse_port raw label = if digits_only raw then ok (number_from 0 raw) else err (invalid_port label)

abbrev pub non_empty : String → Option (List ℕ) → Result ConfigError (Option (List ℕ))
non_empty name none = ok none
non_empty name (some []) = err (empty_variable name)
non_empty name (some (c ∷ s)) = ok (some (c ∷ s))

unfoldable pub read_non_empty_env : EnvOf → String → Result ConfigError (Option (List ℕ))
read_non_empty_env env name = non_empty name (env name)

abbrev pub port_of : String → Option (List ℕ) → Result ConfigError (Option ℕ)
port_of name none = ok none
port_of name (some raw) = and_then (parse_port raw name) (λ port. ok (some port))

unfoldable pub port_env : EnvOf → String → Result ConfigError (Option ℕ)
port_env env name = and_then (read_non_empty_env env name) (port_of name)

-- `a ?? b`, where `b` is computed only without `a`
abbrev pub or_else {ℓ} :
    {A : Type ℓ} → Option A → Result ConfigError (Option A) → Result ConfigError (Option A)
or_else (some a) other = ok (some a)
or_else none other = other

abbrev pub or_default {ℓ} : {A : Type ℓ} → A → Option A → A
or_default a none = a
or_default a (some b) = b

-- the flag, else the variable
unfoldable pub flag_or_env : Option (List ℕ) → EnvOf → String → Result ConfigError (Option (List ℕ))
flag_or_env flag env name = or_else flag (read_non_empty_env env name)

abbrev pub is_empty : List ℕ → Bool
is_empty [] = true
is_empty (c ∷ s) = false

unfoldable pub split_strict_list : List ℕ → String → Result ConfigError (List (List ℕ))
split_strict_list raw label =
    let entries = map trim (split_on b',' raw) in
    if any is_empty entries then err (empty_entry label) else ok entries

unfoldable pub split_list : Option (List ℕ) → List (List ℕ)
split_list raw = keep (λ entry. not (is_empty entry)) (map trim (split_on b',' (or_default [] raw)))

abbrev pub all_word : List ℕ
all_word = codes "all"

abbrev pub normalized_ids : List (List ℕ) → Result ConfigError (List (List ℕ))
normalized_ids ids =
    if ltb 1 (length ids) && includes ids all_word
    then err (all_combined "--brand-ids / ZENDESK_BRAND_IDS")
    else ok (unique ids)

-- `toLowerCase` of the platform, which follows Unicode, is a parameter
unfoldable pub parse_brand_ids :
    (List ℕ → List ℕ) → Option (List ℕ) → Result ConfigError (Option (List (List ℕ)))
parse_brand_ids to_lower_case none = ok none
parse_brand_ids to_lower_case (some raw) =
    and_then (split_strict_list raw "--brand-ids / ZENDESK_BRAND_IDS")
      (λ entries. and_then (normalized_ids (map to_lower_case entries)) (λ ids. ok (some ids)))

abbrev pub namespace_options : List (List ℕ)
namespace_options =
    codes "tickets"
    ∷ codes "help_center"
    ∷ codes "users"
    ∷ codes "requests"
    ∷ codes "preferences"
    ∷ []

abbrev pub expanded : List (List ℕ) → Result ConfigError (List (List ℕ))
expanded entries =
    if not (includes entries all_word)
    then ok entries
    else if ltb 1 (length entries)
    then err (all_combined "--namespace / MCP_NAMESPACES")
    else ok namespace_options

unfoldable pub expand_all_namespaces : List (List ℕ) → Result ConfigError (List (List ℕ))
expand_all_namespaces named = expanded (unique named)

abbrev pub namespaces_of : Option (List ℕ) → Result ConfigError (Option (List (List ℕ)))
namespaces_of none = ok none
namespaces_of (some raw) =
    and_then (split_strict_list raw "MCP_NAMESPACES")
      (λ entries. and_then (expand_all_namespaces entries) (λ names. ok (some names)))

unfoldable pub resolve_namespaces :
    Option (List (List ℕ)) → EnvOf → Result ConfigError (Option (List (List ℕ)))
resolve_namespaces (some values) env =
    and_then (expand_all_namespaces values) (λ names. ok (some names))
resolve_namespaces none env = and_then (read_non_empty_env env "MCP_NAMESPACES") namespaces_of

-- no letter outside ASCII has one of these words' letters as its lower case
abbrev pub boolean_word : List ℕ → Option Bool
boolean_word word =
    if includes (codes "true" ∷ codes "on" ∷ codes "1" ∷ []) word
    then some true
    else if includes (codes "false" ∷ codes "off" ∷ codes "0" ∷ []) word
    then some false
    else none

abbrev pub boolean_found : String → Option Bool → Result ConfigError (Option Bool)
boolean_found name none = err (invalid_boolean name)
boolean_found name (some b) = ok (some b)

abbrev pub boolean_of : String → Option (List ℕ) → Result ConfigError (Option Bool)
boolean_of name none = ok none
boolean_of name (some raw) = boolean_found name (boolean_word (map lower (trim raw)))

unfoldable pub boolean_env : EnvOf → String → Result ConfigError (Option Bool)
boolean_env env name = and_then (read_non_empty_env env name) (boolean_of name)
