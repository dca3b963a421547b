-- ===== src/HttpTransport.antt =====
-- transports/http.ts: the HTTP transport. Surface and the reading of the bearer token here; the
-- children model the origins, the body of a request, the sessions of 2025 clients, the grants of
-- 2026 clients and the routes. The SDK is a parameter: its `verifyBearerToken` calls the verifier
-- that it is given and checks the resource and the expiry.
pub mod Sessions
pub mod Grants
pub mod Body
pub mod Origins
pub mod Routes
mod Tests
use zendesk_mcp_server.Base.{
  ℕ, String, ◌≡◌, ◌↔◌, Bool, true, false, not, Option, none, some, List, [], ◌∷◌, map, arith,
  if◌then◌else◌, ◌==◌, number_key, text_key,
}
use mathlib.Core.Option
use zendesk_mcp_server.AuthServer.Revocation.{VerifiedAccessToken}

-- `/mcp`, the Zendesk tools, and `/mcp/admin`, the back-office
pub data Surface : Type 0 where
  main_surface admin_surface : Surface

abbrev pub is_admin : Surface → Bool
is_admin main_surface = false
is_admin admin_surface = true

abbrev pub is_same_surface : Surface → Surface → Bool
is_same_surface main_surface surface = not (is_admin surface)
is_same_surface admin_surface surface = is_admin surface

pub is_same_surface_iff : (a b : Surface) → (is_same_surface a b ≡ true) ↔ (a ≡ b)
is_same_surface_iff main_surface main_surface = ground arith
is_same_surface_iff main_surface admin_surface = ground arith
is_same_surface_iff admin_surface main_surface = ground arith
is_same_surface_iff admin_surface admin_surface = ground arith

-- what the verifier hands to the SDK
pub record AuthInfo : Type 0 where
  pub token : List ℕ
  pub client_id : String
  pub expires_at : ℕ
  pub resource : Option String
  pub verified : VerifiedAccessToken

abbrev pub drop_spaces : List ℕ → List ℕ
drop_spaces [] = []
drop_spaces (c ∷ s) = let rest = drop_spaces s in if c == 32 then rest else c ∷ s

-- `replace` of the first run of spaces by one
abbrev pub one_space : List ℕ → List ℕ
one_space [] = []
one_space (c ∷ s) = let rest = one_space s in if c == 32 then 32 ∷ drop_spaces s else c ∷ rest

module _ (verify_access_token : List ℕ → Option VerifiedAccessToken) (can_parse : String → Bool)
    (verify_bearer_token : Option (List ℕ)
      → (List ℕ → Option AuthInfo)
      → String
      → Option AuthInfo) where
  abbrev pub resource_of : Option String → Option String
  resource_of none = none
  resource_of (some resource) = if can_parse resource then some resource else none

  abbrev pub auth_info : List ℕ → VerifiedAccessToken → AuthInfo
  auth_info bearer token = record {
    token = bearer;
    client_id = token.client_id;
    expires_at = token.expires_at;
    resource = resource_of token.resource;
    verified = token;
  }

  -- the verifier; none where it throws
  abbrev pub verifier : List ℕ → Option AuthInfo
  verifier bearer = Option.map (auth_info bearer) (verify_access_token bearer)

  unfoldable pub authenticate : Option (List ℕ) → String → Option VerifiedAccessToken
  authenticate header resource =
      Option.map (λ (info : AuthInfo). info.verified)
        (verify_bearer_token (Option.map one_space header) verifier resource)
