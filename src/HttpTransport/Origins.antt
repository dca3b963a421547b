-- ===== src/HttpTransport/Origins.antt =====
-- The origins that transports/http.ts answers (CORS), and its public address. `URL` is a parameter,
-- none where it throws. Headers that are not set are none.
use zendesk_mcp_server.Base.{
  String, ◌≡◌, ◌⊎◌, Bool, true, false, not, Option, none, some, List, [], ◌∷◌, if◌then◌else◌, ◌==◌,
  number_key, text_key, includes,
}
use Prim.Native.String

abbrev pub default_browser_mcp_client_origins : List String
default_browser_mcp_client_origins =
    "https://chatgpt.com" ∷ "https://chat.openai.com" ∷ "https://claude.ai"
    ∷ "https://gemini.google.com" ∷ "https://copilot.microsoft.com" ∷ "https://www.perplexity.ai"
    ∷ "https://chat.mistral.ai" ∷ "https://grok.com" ∷ []

abbrev pub localhost_hostnames : List String
localhost_hostnames = "localhost" ∷ "127.0.0.1" ∷ "[::1]" ∷ []

abbrev pub allowed_protocols : List String
allowed_protocols = "http:" ∷ "https:" ∷ []

pub record Url : Type 0 where
  pub protocol : String
  pub hostname : String
  pub port : String

abbrev pub default_port : String → String
default_port protocol = if protocol == "https:" then "443" else "80"

abbrev pub port_of : Url → String
port_of url = if url.port == "" then default_port url.protocol else url.port

abbrev pub joined : List String → String
joined [] = ""
joined (s ∷ parts) = String.◌++◌ s (joined parts)

abbrev pub rebuilt : Url → String
rebuilt url = joined (url.protocol ∷ "//" ∷ url.hostname ∷ ":" ∷ port_of url ∷ [])

-- the value of `find` where it is not empty
unfoldable pub find_entry : List String → String → Option String
find_entry [] origin = none
find_entry (entry ∷ entries) origin =
    let rest = find_entry entries origin in
    if entry == origin then (if entry == "" then none else some entry) else rest

abbrev pub loopback_origin : Option Url → Option String
loopback_origin none = none
loopback_origin (some url) =
    if not (includes allowed_protocols url.protocol)
    then none
    else if not (includes localhost_hostnames url.hostname)
    then none
    else some (rebuilt url)

pub record CorsHeaders : Type 0 where
  pub allow_origin : Option String
  pub allow_credentials : Bool
  pub expose_headers : Bool
  pub vary_origin : Bool
  pub allow_methods : Bool  -- with the allowed headers and the age

abbrev pub no_headers : CorsHeaders
no_headers = record {
  allow_origin = none;
  allow_credentials = false;
  expose_headers = false;
  vary_origin = false;
  allow_methods = false;
}

abbrev pub headers_for : Option String → CorsHeaders
headers_for none = no_headers
headers_for (some origin) = record {
  allow_origin = some origin;
  allow_credentials = true;
  expose_headers = true;
  vary_origin = true;
  allow_methods = false;
}

module _ (parse_url : String → Option Url) where
  abbrev pub or_loopback : String → Option String → Option String
  or_loopback origin none = loopback_origin (parse_url origin)
  or_loopback origin (some entry) = some entry

  abbrev pub or_extra : String → List String → Option String → Option String
  or_extra origin extra_origins none = or_loopback origin (find_entry extra_origins origin)
  or_extra origin extra_origins (some entry) = some entry

  unfoldable pub resolve_allowed_origin : String → List String → Option String
  resolve_allowed_origin origin extra_origins =
      or_extra origin extra_origins (find_entry default_browser_mcp_client_origins origin)

  abbrev pub cors_for : List String → String → CorsHeaders
  cors_for extra_origins origin =
      if origin == "" then no_headers else headers_for (resolve_allowed_origin origin extra_origins)

  -- the header `origin` of the request, none where it is no text
  unfoldable pub apply_cors_headers : Option String → List String → CorsHeaders
  apply_cors_headers none extra_origins = no_headers
  apply_cors_headers (some origin) extra_origins = cors_for extra_origins origin

  abbrev pub with_methods : CorsHeaders → Option String → CorsHeaders
  with_methods headers none = headers
  with_methods headers (some origin) = record headers { allow_methods = true }

  -- the answer 204; none where the request is no preflight
  unfoldable pub handle_cors_preflight : String → Option String → List String → Option CorsHeaders
  handle_cors_preflight method origin extra_origins =
      if not (method == "OPTIONS")
      then none
      else let headers = apply_cors_headers origin extra_origins in
        some (with_methods headers headers.allow_origin)

  -- an origin of a list, as it stands there, or a loopback address made of checked parts
  abbrev pub IsAllowed : String → List String → String → Type 0
  IsAllowed origin extra_origins allowed =
      ((allowed ≡ origin)
        × ((includes default_browser_mcp_client_origins allowed ≡ true)
            ⊎ (includes extra_origins allowed ≡ true)))
      ⊎ ((url : Url) × (parse_url origin ≡ some url)
          × (includes allowed_protocols url.protocol ≡ true)
          × (includes localhost_hostnames url.hostname ≡ true)
          × (allowed ≡ rebuilt url))
