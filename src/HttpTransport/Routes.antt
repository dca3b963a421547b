-- ===== src/HttpTransport/Routes.antt =====
-- The routes of transports/http.ts: what answers a request, up to the handlers. `isLegacyRequest` of
-- the SDK is a parameter; the response to an error that a handler throws is not followed.
use zendesk_mcp_server.Base.{
  ℕ, String, ◌≡◌, ap, ◌≢◌, inl, inr, Bool, true, false, not, ◌++◌, ◌&&◌, Option, none, some, List,
  [], ◌∷◌, arith, eq_iff, if◌then◌else◌, Bool-cases, ◌==◌, number_key, text_key, includes,
}
use mathlib.Core.Path.{subst}
use mathlib.Core.Option.{some_inj, none-ne-some}
use zendesk_mcp_server.Text.{codes}
use zendesk_mcp_server.Text.Decimal.{decimal}
use zendesk_mcp_server.OauthScopes.{list_key}
use zendesk_mcp_server.AuthServer.Revocation.{VerifiedAccessToken}
use zendesk_mcp_server.HttpTransport.{Surface, main_surface, admin_surface, AuthInfo, authenticate}
use zendesk_mcp_server.HttpTransport.Body.{
  BodyEvent, BodyResult, parsed, absent, too_large, not_json, unreadable, read_json_body,
}
use zendesk_mcp_server.HttpTransport.Origins.{Url, CorsHeaders, handle_cors_preflight}

pub record HttpRequest : Type 0 where
  pub method : String
  pub pathname : String
  pub origin : Option String
  pub authorization : Option (List ℕ)
  pub body : List BodyEvent

pub data Answer (Value : Type 0) : Type 0 where
  preflight : CorsHeaders → Answer Value
  starting resource_metadata admin_resource_metadata healthy : Answer Value
  unauthorized : Surface → Answer Value
  body_refused : (status : ℕ) → (rpc_code : ℕ) → Answer Value  -- the code without its minus sign
  body_pending : Answer Value
  to_modern to_legacy :
      (token : VerifiedAccessToken) → (surface : Surface) → (body : Option Value) → Answer Value
  to_authorization_server : Answer Value

abbrev pub protected_resource_paths : List String
protected_resource_paths =
    "/.well-known/oauth-protected-resource/mcp" ∷ "/.well-known/oauth-protected-resource" ∷ []

abbrev pub admin_protected_resource_path : String
admin_protected_resource_path = "/.well-known/oauth-protected-resource/mcp/admin"

abbrev pub path_of : Surface → String
path_of main_surface = "/mcp"
path_of admin_surface = "/mcp/admin"

abbrev pub wildcard_hosts : List (List ℕ)
wildcard_hosts = codes "0.0.0.0" ∷ codes "::" ∷ codes "*" ∷ []

-- `replace(/\/+$/, '')`
unfoldable pub drop_trailing_slashes : List ℕ → List ℕ
drop_trailing_slashes [] = []
drop_trailing_slashes (c ∷ s) = elim (drop_trailing_slashes s) [
  | [] ↦ if c == b'/' then [] else c ∷ []
  | d ∷ t ↦ c ∷ d ∷ t
]

abbrev pub host_and_port : List ℕ → ℕ → List ℕ
host_and_port host port = codes "http://" ++ host ++ codes ":" ++ decimal port

abbrev pub bound_url : List ℕ → ℕ → List ℕ × Bool
bound_url host port = (host_and_port host port, includes wildcard_hosts host)

-- the address, and whether the log warns of it
unfoldable pub resolve_public_url : Option (List ℕ) → List ℕ → ℕ → List ℕ × Bool
unfolding drop_trailing_slashes
resolve_public_url none host port = bound_url host port
resolve_public_url (some []) host port = bound_url host port
resolve_public_url (some (c ∷ url)) host port = (drop_trailing_slashes (c ∷ url), false)

abbrev pub tools_of : {Value : Type 0} → Answer Value → Option (VerifiedAccessToken × Surface)
tools_of (to_modern token surface body) = some (token, surface)
tools_of (to_legacy token surface body) = some (token, surface)
tools_of (preflight headers) = none
tools_of starting = none
tools_of resource_metadata = none
tools_of admin_resource_metadata = none
tools_of healthy = none
tools_of (unauthorized surface) = none
tools_of (body_refused status rpc_code) = none
tools_of body_pending = none
tools_of to_authorization_server = none

module _ (verify_access_token : List ℕ → Option VerifiedAccessToken) (can_parse : String → Bool)
    (verify_bearer_token : Option (List ℕ) → (List ℕ → Option AuthInfo) → String → Option AuthInfo)
    (resource : Surface → String) where
  -- what a request needs to reach the tools of a surface
  abbrev pub IsAdmitted : HttpRequest → VerifiedAccessToken → Surface → Type 0
  IsAdmitted request token surface =
      (request.pathname ≡ path_of surface)
      × (authenticate verify_access_token can_parse verify_bearer_token request.authorization
            (resource surface)
          ≡ some token)

same_pair :
    {a c : VerifiedAccessToken} {b d : Surface}
    → ◌≡◌ {A = Option (VerifiedAccessToken × Surface)} (some (a, b)) (some (c, d))
    → (a ≡ c) × (b ≡ d)
same_pair h =
    let e = some_inj.0 h in
    (
      ap (λ (p : VerifiedAccessToken × Surface). p.0) e,
      ap (λ (p : VerifiedAccessToken × Surface). p.1) e,
    )

module _ {Value : Type 0} (decode : List ℕ → Option Value) (max_body_bytes : ℕ)
    (parse_url : String → Option Url) (extra_origins : List String)
    (verify_access_token : List ℕ → Option VerifiedAccessToken) (can_parse : String → Bool)
    (verify_bearer_token : Option (List ℕ) → (List ℕ → Option AuthInfo) → String → Option AuthInfo)
    (resource : Surface → String) (is_legacy_request : HttpRequest → Value → Bool) where
  abbrev pub with_value : HttpRequest → VerifiedAccessToken → Surface → Value → Answer Value
  with_value request token surface value =
      if not (is_legacy_request request value)
      then to_modern token surface (some value)
      else to_legacy token surface (some value)

  abbrev pub with_body :
      HttpRequest → VerifiedAccessToken → Surface → Option (BodyResult Value) → Answer Value
  with_body request token surface none = body_pending
  with_body request token surface (some (parsed value)) = with_value request token surface value
  with_body request token surface (some absent) = to_legacy token surface none
  with_body request token surface (some too_large) = body_refused 413 32600
  with_body request token surface (some not_json) = body_refused 400 32700
  with_body request token surface (some unreadable) = body_refused 400 32600

  abbrev pub with_token : HttpRequest → Surface → Option VerifiedAccessToken → Answer Value
  with_token request surface none = unauthorized surface
  with_token request surface (some token) =
      if request.method == "POST"
      then with_body request token surface (read_json_body decode max_body_bytes request.body)
      else to_legacy token surface none

  unfoldable pub handle_mcp_request : HttpRequest → Surface → Answer Value
  handle_mcp_request request surface = with_token request surface (
      authenticate verify_access_token can_parse verify_bearer_token request.authorization
        (resource surface))

  unfoldable pub route : HttpRequest → Answer Value
  unfolding handle_mcp_request
  route request =
      let is_get = request.method == "GET" in
      if is_get && includes protected_resource_paths request.pathname
      then resource_metadata
      else if is_get && (request.pathname == admin_protected_resource_path)
      then admin_resource_metadata
      else if is_get && (request.pathname == "/healthz")
      then healthy
      else if request.pathname == path_of main_surface
      then handle_mcp_request request main_surface
      else if request.pathname == path_of admin_surface
      then handle_mcp_request request admin_surface
      else to_authorization_server

  abbrev pub after_preflight : Bool → HttpRequest → Option CorsHeaders → Answer Value
  after_preflight started request (some headers) = preflight headers
  after_preflight started request none = if not started then starting else route request

  -- `started`: the authorization server is there
  unfoldable pub request_listener : Bool → HttpRequest → Answer Value
  unfolding route
  request_listener started request =
      after_preflight started request
        (handle_cors_preflight parse_url request.method request.origin extra_origins)

  with_value-tools :
      (request : HttpRequest) (token t : VerifiedAccessToken) (surface reached : Surface)
      (value : Value)
      → tools_of (with_value request token surface value) ≡ some (t, reached)
      → (token ≡ t) × (surface ≡ reached)
  with_value-tools request token t surface reached value h =
      elim (Bool-cases (is_legacy_request request value)) [
        | inl legacy ↦ same_pair (rw legacy at h)
        | inr modern ↦ same_pair (rw modern at h)
      ]

  with_body-tools :
      (request : HttpRequest) (token t : VerifiedAccessToken) (surface reached : Surface)
      (result : Option (BodyResult Value))
      → tools_of (with_body request token surface result) ≡ some (t, reached)
      → (token ≡ t) × (surface ≡ reached)
  with_body-tools request token t surface reached none h = cc
  with_body-tools request token t surface reached (some (parsed value)) h =
      with_value-tools request token t surface reached value h
  with_body-tools request token t surface reached (some absent) h = same_pair h
  with_body-tools request token t surface reached (some too_large) h = cc
  with_body-tools request token t surface reached (some not_json) h = cc
  with_body-tools request token t surface reached (some unreadable) h = cc

  with_token-tools :
      (request : HttpRequest) (t : VerifiedAccessToken) (surface reached : Surface)
      (found : Option VerifiedAccessToken)
      → tools_of (with_token request surface found) ≡ some (t, reached)
      → (found ≡ some t) × (surface ≡ reached)
  with_token-tools request t surface reached none h = cc
  with_token-tools request t surface reached (some token) h =
      elim (Bool-cases (request.method == "POST")) [
        | inl post ↦
            let (e, f) =
              with_body-tools request token t surface reached
                (read_json_body decode max_body_bytes request.body) (rw post at h) in
            (ap some e, f)
        | inr other ↦ let (e, f) = same_pair (rw other at h) in (ap some e, f)
      ]

  handled-IsAdmitted :
      (request : HttpRequest) (surface reached : Surface) (token : VerifiedAccessToken)
      → request.pathname ≡ path_of surface
      → tools_of (handle_mcp_request request surface) ≡ some (token, reached)
      → IsAdmitted verify_access_token can_parse verify_bearer_token resource request token reached
  unfolding handle_mcp_request
  handled-IsAdmitted request surface reached token at h =
      let (e, f) = with_token-tools request token surface reached _ h in
      subst (IsAdmitted verify_access_token can_parse verify_bearer_token resource request token) f
        (at, e)

  routed-IsAdmitted :
      (request : HttpRequest) (reached : Surface) (token : VerifiedAccessToken)
      → tools_of (route request) ≡ some (token, reached)
      → IsAdmitted verify_access_token can_parse verify_bearer_token resource request token reached
  unfolding route
  routed-IsAdmitted request reached token h = ground (
    arith,
    h,
    eq_iff request.pathname "/mcp",
    eq_iff request.pathname "/mcp/admin",
    handled-IsAdmitted request main_surface reached token,
    handled-IsAdmitted request admin_surface reached token,
  )

  -- A request is handed to the servers of a surface, with a token, only where the authorization
  -- server is there, the request is no preflight, its path is the surface's own, and `authenticate`
  -- found that token in its header for that surface's resource.
  pub request_listener-IsAdmitted :
      (started : Bool) (request : HttpRequest) (token : VerifiedAccessToken) (surface : Surface)
      → tools_of (request_listener started request) ≡ some (token, surface)
      → (started ≡ true)
        × (request.method ≢ "OPTIONS")
        × IsAdmitted verify_access_token can_parse verify_bearer_token resource request token
            surface
  unfolding request_listener handle_cors_preflight
  request_listener-IsAdmitted started request token surface h =
      elim (Bool-cases (request.method == "OPTIONS")) [
        | inl options ↦ absurd (none-ne-some (token, surface) (rw options at h))
        | inr other ↦
            let no_options : request.method ≢ "OPTIONS" =
              λ e. cc (other, (eq_iff request.method "OPTIONS").1 e) in
            elim (Bool-cases started) [
              | inl there ↦ (
                there,
                no_options,
                routed-IsAdmitted request surface token (rw (other, there) at h),
              )
              | inr early ↦ absurd (none-ne-some (token, surface) (rw (other, early) at h))
            ]
      ]
