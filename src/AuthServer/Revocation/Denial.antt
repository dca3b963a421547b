-- ===== src/AuthServer/Revocation/Denial.antt =====
-- Revoked grants in auth/server/authorization-server.ts.
use zendesk_mcp_server.Base.{
  ℕ, ◌+◌, ◌*◌, ◌/◌, ◌≤◌, ◌<◌, String, ◌≡◌, refl, ◌∙◌, inl, inr, Bool, true, Option, none, some,
  List, [], ◌∷◌, arith, Bool-cases, ◌==◌, number_key, text_key, ==_iff, All,
}
use zendesk_mcp_server.Base.JsMap
use zendesk_mcp_server.Base.JsMap.{JsMap, get-put}
use zendesk_mcp_server.OauthScopes.{list_key}
use zendesk_mcp_server.AuthServer.ExpiringMap
use zendesk_mcp_server.AuthServer.ExpiringMap.{Pending, get-set}
use zendesk_mcp_server.AuthServer.Revocation.{
  access_token_ttl_s, ClaimValue, AccessTokenClaims, VerifiedAccessToken, read_access_token,
  unless_revoked, verify_access_token, deny_grant, deny_grants,
}

-- between two times
abbrev pub AreWithin : ℕ → ℕ → List (ℕ × String) → Type 0
AreWithin start end calls = All (λ call. (start ≤ call.0) × (call.0 ≤ end)) calls

-- The grant is denied for as long as from `start` on.
abbrev IsDenied : JsMap String (Pending Bool) → String → ℕ → Type 0
IsDenied revoked grant_id start =
    (e : Pending Bool) × (JsMap.get revoked grant_id ≡ some e)
    × (e.value ≡ true)
    × (start + access_token_ttl_s * 1000 ≤ e.expires_at)

deny_grant-IsDenied :
    (revoked : JsMap String (Pending Bool)) (grant_id : String) (now : ℕ)
    → IsDenied (deny_grant revoked grant_id now) grant_id now
unfolding deny_grant ExpiringMap.set
deny_grant-IsDenied revoked grant_id now =
    let denial : Pending Bool = record {
      value = true;
      expires_at = now + access_token_ttl_s * 1000;
    } in
    (
      denial,
      get-put (ExpiringMap.swept revoked now) grant_id grant_id denial
          ∙ rw ((==_iff grant_id grant_id).1 refl) refl,
      refl,
      omega arith,
    )

keep-IsDenied :
    (revoked : JsMap String (Pending Bool)) (grant_id other : String) (start now : ℕ)
    → start ≤ now
    → now < start + access_token_ttl_s * 1000
    → IsDenied revoked grant_id start
    → IsDenied (deny_grant revoked other now) grant_id start
unfolding deny_grant
keep-IsDenied revoked grant_id other start now ge lt (e, there, denied, lasts) =
    let found =
      get-set revoked grant_id other true (access_token_ttl_s * 1000) now e there (omega arith) in
    elim (Bool-cases (other == grant_id)) [
      | inl same ↦ (
        record { value = true; expires_at = now + access_token_ttl_s * 1000 },
        found ∙ rw same refl,
        refl,
        omega arith,
      )
      | inr not_same ↦ (e, found ∙ rw not_same refl, denied, lasts)
    ]

deny_grants-IsDenied :
    (later : List (ℕ × String)) (revoked : JsMap String (Pending Bool)) (grant_id : String)
    (start end : ℕ)
    → AreWithin start end later
    → end < start + access_token_ttl_s * 1000
    → IsDenied revoked grant_id start
    → IsDenied (deny_grants revoked later) grant_id start
unfolding deny_grants
deny_grants-IsDenied [] revoked grant_id start end order lt d = d
deny_grants-IsDenied ((now, other) ∷ later) revoked grant_id start end order lt d =
    deny_grants-IsDenied later (deny_grant revoked other now) grant_id start end order.1 lt
      (keep-IsDenied revoked grant_id other start now (order.0.0) (omega (arith, order.0.1)) d)

refused :
    (as_text : ClaimValue → String) {Key : Type 0} (kid_of : String → Option String)
    (decrypt : String → Key → Option AccessTokenClaims) (revoked : JsMap String (Pending Bool))
    (now : ℕ) (token : VerifiedAccessToken) (e : Pending Bool)
    → JsMap.get revoked token.grant_id ≡ some e
    → e.value ≡ true
    → now < e.expires_at
    → unless_revoked as_text kid_of decrypt revoked now (some token) ≡ none
unfolding ExpiringMap.get
refused as_text kid_of decrypt revoked now token e there denied live = rw there (ground arith)

-- After a grant is revoked, none of its access tokens is accepted again, whatever other grants are
-- revoked meanwhile: a token whose lifetime began no later than the revocation is refused until it
-- expires.
pub revoked_token_refused :
    (as_text : ClaimValue → String) {Key : Type 0} (kid_of : String → Option String)
    (decrypt : String → Key → Option AccessTokenClaims) (ring : List (String × Key))
    (issuer bearer : String) (revoked : JsMap String (Pending Bool)) (later : List (ℕ × String))
    (start now : ℕ) (token : VerifiedAccessToken)
    → read_access_token as_text kid_of decrypt ring issuer bearer ≡ some token
    → token.expires_at ≤ start / 1000 + access_token_ttl_s
    → now < token.expires_at * 1000
    → AreWithin start now later
    → verify_access_token as_text kid_of decrypt ring issuer
        (deny_grants (deny_grant revoked token.grant_id start) later)
        bearer
        now
      ≡ none
unfolding verify_access_token
revoked_token_refused as_text kid_of decrypt ring issuer bearer revoked later start now token reads
      minted live order =
    let soon : now < start + access_token_ttl_s * 1000 = omega arith in
    let (e, there, denied, lasts) =
      deny_grants-IsDenied later (deny_grant revoked token.grant_id start) token.grant_id start now
        order soon (deny_grant-IsDenied revoked token.grant_id start) in
    rw reads (refused as_text kid_of decrypt _ now token e there denied (omega arith))
