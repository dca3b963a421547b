-- ===== src/AuthServer/Trusted.antt =====
-- auth/server/trusted-clients.ts: which clients skip the consent screen, and the application type
-- of a document. `parse` is what the platform's `URL` gives for a text: none where it cannot parse.
use zendesk_mcp_server.Base.{
  unique, ℕ, String, Bool, false, not, ◌&&◌, ◌||◌, Option, none, some, List, [], ◌∷◌, ◌++◌,
  if◌then◌else◌, any, ◌==◌, number_key, text_key, includes,
}
use zendesk_mcp_server.OauthScopes.{list_key}
use zendesk_mcp_server.Text.{codes, is_digit, split_on}

pub record Url : Type 0 where
  pub protocol : String
  pub hostname : List ℕ

abbrev pub default_trusted_clients : List String
default_trusted_clients =
    "https://claude.ai/oauth/mcp-oauth-client-metadata" ∷ "https://chatgpt.com/oauth/client.json"
    ∷ []

unfoldable pub trusted_client_set : List String → Bool → List String
trusted_client_set extra include_defaults =
    unique ((if include_defaults then default_trusted_clients else []) ++ extra)

-- `\d{1,3}` up to the next dot or the end, by the digits left to it
abbrev pub is_octet : List ℕ → Bool
is_octet [] = false
is_octet (a ∷ []) = is_digit a
is_octet (a ∷ b ∷ []) = is_digit a && is_digit b
is_octet (a ∷ b ∷ c ∷ []) = is_digit a && is_digit b && is_digit c
is_octet _ = false

abbrev pub loopback_parts : List (List ℕ) → Bool
loopback_parts (a ∷ b ∷ c ∷ d ∷ []) = (a == codes "127") && is_octet b && is_octet c && is_octet d
loopback_parts _ = false

-- the regular expression IPV4_LOOPBACK
unfoldable pub ipv4_loopback : List ℕ → Bool
ipv4_loopback s = loopback_parts (split_on b'.' s)

unfoldable pub is_loopback_host : List ℕ → Bool
is_loopback_host hostname =
    (hostname == codes "localhost") || (hostname == codes "[::1]") || ipv4_loopback hostname

pub record ConsentSkipRequest : Type 0 where
  pub client_id : String
  pub redirect_uri : String
  pub registered_redirect_uris : List String

-- What `inferNativeApplication` reads of a document: its `application_type`, and its `redirect_uris`
-- where they are an array, a text or another value each.
pub record ClientDocument : Type 0 where
  pub application_type : Option String
  pub redirect_uris : Option (List (Option String))

module _ (parse : String → Option Url) where
  abbrev pub url_eligible : Option Url → Bool
  url_eligible none = false
  url_eligible (some url) = (url.protocol == "https:") && not (is_loopback_host url.hostname)

  unfoldable pub is_skip_eligible_redirect : String → Bool
  is_skip_eligible_redirect uri = url_eligible (parse uri)

  unfoldable pub can_skip_consent : ConsentSkipRequest → List String → Bool
  can_skip_consent request trusted =
      includes trusted request.client_id
      && includes request.registered_redirect_uris request.redirect_uri
      && is_skip_eligible_redirect request.redirect_uri

  abbrev pub url_loopback_http : Option Url → Bool
  url_loopback_http none = false
  url_loopback_http (some url) = (url.protocol == "http:") && is_loopback_host url.hostname

  abbrev pub is_loopback_http : Option String → Bool
  is_loopback_http none = false
  is_loopback_http (some uri) = url_loopback_http (parse uri)

  abbrev pub all_loopback : Option (List (Option String)) → Bool
  all_loopback none = false
  all_loopback (some []) = false
  all_loopback (some (uri ∷ uris)) =
      is_loopback_http uri && not (any (λ u. not (is_loopback_http u)) uris)

  abbrev pub typed : ClientDocument → Option String → ClientDocument
  typed document (some t) = document
  typed document none =
      if all_loopback document.redirect_uris
      then record document { application_type = some "native" }
      else document

  unfoldable pub infer_native_application : ClientDocument → ClientDocument
  infer_native_application document = typed document document.application_type
