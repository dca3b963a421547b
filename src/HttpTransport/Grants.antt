-- ===== src/HttpTransport/Grants.antt =====
-- The grants of transports/http.ts: the 2026 requests over the registry of utils/grant-registry.ts.
-- An entry's number is the registry's. A request runs until `handle` returns; one that opens a
-- listen stream is not counted. An entry's listen feed, its pollers and its handler are not followed
-- here: they end when the registry closes the entry.
pub mod Steps
pub mod Entries
pub mod Taken
pub mod Tracked
pub mod Drained
pub mod Closed
use zendesk_mcp_server.Base.{
  ℕ, ◌+◌, ◌-◌, String, Bool, true, false, ◌&&◌, Option, none, some, [], ◌++◌, if◌then◌else◌, ◌==◌,
  number_key, text_key,
}
use Prim.Native.String
use zendesk_mcp_server.Base.JsMap
use zendesk_mcp_server.Base.JsMap.{JsMap}
use zendesk_mcp_server.AuthServer.Revocation.{VerifiedAccessToken}
use zendesk_mcp_server.GrantRegistry.{Registry, create_grant_registry, acquire, close}
use zendesk_mcp_server.HttpTransport.{Surface, main_surface, admin_surface}

pub record GrantEntry : Type 0 where
  pub key : String  -- of the surface and the grant that it was created for
  pub subject : String  -- of the token that it was created for
  pub zendesk_token : String
  pub revoked : Bool
  pub in_flight : ℕ

pub record Request : Type 0 where
  pub entry : ℕ
  pub key : String
  pub subject : String
  pub is_counted : Bool

pub record Grants : Type 0 where
  pub registry : Registry
  pub entries : JsMap ℕ GrantEntry
  pub requests : JsMap ℕ Request
  pub asked : ℕ

unfoldable pub no_grants : Grants
unfolding create_grant_registry
no_grants = record { registry = create_grant_registry; entries = []; requests = []; asked = 0 }

abbrev pub surface_name : Surface → String
surface_name main_surface = "main"
surface_name admin_surface = "admin"

-- `${surface}:${token.grantId}`
unfoldable pub grant_key : Surface → String → String
grant_key surface grant_id = String.◌++◌ (surface_name surface) (String.◌++◌ ":" grant_id)

abbrev pub one_if : Bool → ℕ
one_if true = 1
one_if false = 0

-- `createGrantEntry`
unfoldable pub create_grant_entry : String → VerifiedAccessToken → GrantEntry
create_grant_entry key token = record {
  key = key;
  subject = token.subject;
  zendesk_token = token.zendesk_access_token;
  revoked = false;
  in_flight = 0;
}

abbrev pub or_created : String → VerifiedAccessToken → Option GrantEntry → GrantEntry
or_created key token none = create_grant_entry key token
or_created key token (some entry) = entry

-- the token that the request brings, and the request counted in
abbrev pub taken_up : VerifiedAccessToken → Bool → GrantEntry → GrantEntry
taken_up token is_counted entry = record entry {
  zendesk_token = token.zendesk_access_token;
  in_flight = entry.in_flight + one_if is_counted;
}

abbrev pub with_entry :
    Grants → String → VerifiedAccessToken → Bool → Registry × Option ℕ → Grants × Option ℕ
with_entry s key token is_counted (registry, none) = (record s { registry = registry }, none)
with_entry s key token is_counted (registry, some e) = (
  record {
    registry = registry;
    entries =
        JsMap.put s.entries e
          (taken_up token is_counted (or_created key token (JsMap.get s.entries e)));
    requests =
        JsMap.put s.requests s.asked
          (record { entry = e; key = key; subject = token.subject; is_counted = is_counted });
    asked = s.asked + 1;
  },
  some s.asked,
)

-- `serveModern` up to the call of `handle`: the running request, none where it is refused
unfoldable pub serve_modern : Grants → VerifiedAccessToken → Surface → Bool → ℕ → Grants × Option ℕ
serve_modern s token surface is_counted now =
    let key = grant_key surface token.grant_id in
    with_entry s key token is_counted (acquire s.registry key token.subject now)

abbrev pub revoke_found : Grants → ℕ → Option GrantEntry → Grants
revoke_found s e none = s
revoke_found s e (some entry) = record s {
  entries = JsMap.put s.entries e (record entry { revoked = true });
}

-- `onUnauthorized` of an entry
unfoldable pub on_unauthorized : Grants → ℕ → Grants
on_unauthorized s e = revoke_found s e (JsMap.get s.entries e)

abbrev pub counted_out : Bool → GrantEntry → GrantEntry
counted_out is_counted entry = record entry { in_flight = entry.in_flight - one_if is_counted }

abbrev pub close_if_drained : Registry → String → ℕ → GrantEntry → Registry
close_if_drained registry key e entry =
    if entry.revoked && (entry.in_flight == 0) then close registry key (some e) else registry

abbrev pub finish_found : Grants → ℕ → Request → Option GrantEntry → Grants
finish_found s q request none = s
finish_found s q request (some entry) = record s {
  registry =
      close_if_drained s.registry request.key request.entry (counted_out request.is_counted entry);
  entries = JsMap.put s.entries request.entry (counted_out request.is_counted entry);
  requests = JsMap.delete s.requests q;
}

-- the `finally` of `serveModern`
unfoldable pub finish_modern : Grants → ℕ → Request → Grants
finish_modern s q request = finish_found s q request (JsMap.get s.entries request.entry)
