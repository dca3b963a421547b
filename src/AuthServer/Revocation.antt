-- ===== src/AuthServer/Revocation.antt =====
-- auth/server/authorization-server.ts: reading our access tokens, and refusing those of a revoked
-- grant. The token format (`jose`) is a parameter: the key id in a token's header, none where there
-- is no such header, and its claims under a key, none where it does not decrypt to JSON. `as_text`
-- is the built-in `String` of a claim.
pub mod Denial
use zendesk_mcp_server.Base.{
  ℕ, ◌*◌, String, Bool, true, false, not, Option, none, some, List, [], ◌∷◌, if◌then◌else◌, ◌==◌,
  number_key, text_key, includes,
}
use zendesk_mcp_server.Base.JsMap
use zendesk_mcp_server.Base.JsMap.{JsMap}
use zendesk_mcp_server.Text.{codes, split_on}
use zendesk_mcp_server.OauthScopes.{list_key}
use zendesk_mcp_server.AuthServer.ExpiringMap
use zendesk_mcp_server.AuthServer.ExpiringMap.{Pending}

abbrev pub access_token_ttl_s : ℕ
access_token_ttl_s = 3600

pub data ClaimValue : Type 0 where
  text_claim : String → ClaimValue
  number_claim : ℕ → ClaimValue
  absent_claim foreign_claim : ClaimValue

pub record AccessTokenClaims : Type 0 where
  pub iss : ClaimValue
  pub aud : ClaimValue
  pub exp : ClaimValue
  pub sub : ClaimValue
  pub client_id : ClaimValue
  pub scope : ClaimValue
  pub zd : ClaimValue
  pub gid : ClaimValue

pub record VerifiedAccessToken : Type 0 where
  pub zendesk_access_token : String
  pub grant_id : String
  pub client_id : String
  pub subject : String
  pub can_write : Bool
  pub expires_at : ℕ  -- in seconds
  pub resource : Option String

abbrev pub text_of : ClaimValue → Option String
text_of (text_claim t) = some t
text_of _ = none

abbrev pub number_of : ClaimValue → Option ℕ
number_of (number_claim n) = some n
number_of _ = none

-- `claims.scope.split(' ').includes('write')`
abbrev pub can_write_of : Option String → Bool
can_write_of none = false
can_write_of (some scope) = includes (split_on b' ' (codes scope)) (codes "write")

module _ (as_text : ClaimValue → String) where
  abbrev pub verified_claims :
      AccessTokenClaims → Option ℕ → Option String → Option String → Option VerifiedAccessToken
  verified_claims claims (some exp) (some zd) (some gid) = some (record {
    zendesk_access_token = zd;
    grant_id = gid;
    client_id = as_text claims.client_id;
    subject = as_text claims.sub;
    can_write = can_write_of (text_of claims.scope);
    expires_at = exp;
    resource = text_of claims.aud;
  })
  verified_claims claims _ _ _ = none

  abbrev pub is_issuer : String → Option String → Bool
  is_issuer issuer none = false
  is_issuer issuer (some iss) = iss == issuer

  unfoldable pub as_verified : AccessTokenClaims → String → Option VerifiedAccessToken
  as_verified claims issuer =
      if is_issuer issuer (text_of claims.iss)
      then verified_claims claims (number_of claims.exp) (text_of claims.zd) (text_of claims.gid)
      else none

  module _ {Key : Type 0} (kid_of : String → Option String)
      (decrypt : String → Key → Option AccessTokenClaims) where
    -- `ring.find`, by the key id
    unfoldable pub find_key : List (String × Key) → String → Option Key
    find_key [] kid = none
    find_key ((k, key) ∷ ring) kid = if k == kid then some key else find_key ring kid

    abbrev pub claims_under : String → Option Key → Option AccessTokenClaims
    claims_under bearer none = none
    claims_under bearer (some key) = decrypt bearer key

    abbrev pub claims_of : List (String × Key) → String → Option String → Option AccessTokenClaims
    claims_of ring bearer none = none
    claims_of ring bearer (some kid) = claims_under bearer (find_key ring kid)

    abbrev pub verified_of : String → Option AccessTokenClaims → Option VerifiedAccessToken
    verified_of issuer none = none
    verified_of issuer (some claims) = as_verified claims issuer

    unfoldable pub read_access_token :
        List (String × Key) → String → String → Option VerifiedAccessToken
    read_access_token ring issuer bearer =
        verified_of issuer (claims_of ring bearer (kid_of bearer))

    abbrev pub is_denied : Option Bool → Bool
    is_denied none = false
    is_denied (some denied) = denied

    abbrev pub unless_revoked :
        JsMap String (Pending Bool) → ℕ → Option VerifiedAccessToken → Option VerifiedAccessToken
    unless_revoked revoked now none = none
    unless_revoked revoked now (some v) =
        if not (is_denied (ExpiringMap.get revoked v.grant_id now)) then some v else none

    unfoldable pub verify_access_token :
        List (String × Key)
        → String
        → JsMap String (Pending Bool)
        → String
        → ℕ
        → Option VerifiedAccessToken
    verify_access_token ring issuer revoked bearer now =
        unless_revoked revoked now (read_access_token ring issuer bearer)

-- the denial of `revokeGrant` and of the provider's `grant.revoked`
unfoldable pub deny_grant : JsMap String (Pending Bool) → String → ℕ → JsMap String (Pending Bool)
deny_grant revoked grant_id now =
    ExpiringMap.set revoked grant_id true (access_token_ttl_s * 1000) now

unfoldable pub deny_grants :
    JsMap String (Pending Bool) → List (ℕ × String) → JsMap String (Pending Bool)
deny_grants revoked [] = revoked
deny_grants revoked ((now, grant_id) ∷ later) = deny_grants (deny_grant revoked grant_id now) later
