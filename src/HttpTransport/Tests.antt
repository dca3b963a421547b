-- ===== src/HttpTransport/Tests.antt =====
-- Tests of the HTTP transport.
use zendesk_mcp_server.Base.{
  ℕ, ◌≤◌, String, ◌≡◌, refl, ◌≢◌, Bool, true, false, Option, none, some, List, [], ◌∷◌, arith, leb,
  if◌then◌else◌, length, ◌==◌, number_key, text_key, Run, at_start, then_step,
}
use zendesk_mcp_server.Base.JsMap
use zendesk_mcp_server.Base.JsMap.{JsMap}
use zendesk_mcp_server.Text.{codes}
use zendesk_mcp_server.OauthScopes.{list_key}
use zendesk_mcp_server.AuthServer.Revocation.{VerifiedAccessToken}
use zendesk_mcp_server.GrantRegistry.{Slot, create_grant_registry, acquire}
use zendesk_mcp_server.GrantRegistry.Ownership.{closings}
use zendesk_mcp_server.HttpTransport.{Surface, main_surface, admin_surface, AuthInfo, authenticate}
use zendesk_mcp_server.HttpTransport.Sessions
use zendesk_mcp_server.HttpTransport.Sessions.{
  Session, Opened, Transport, no_sessions, auth_of, serve_legacy, session_initialized,
  sweep_session,
}
use zendesk_mcp_server.HttpTransport.Sessions.Owners.{Accepted, session_acts_for_owner}
use zendesk_mcp_server.HttpTransport.Grants.{
  GrantEntry, Request, Grants, no_grants, grant_key, create_grant_entry, serve_modern,
  on_unauthorized, finish_modern,
}
use zendesk_mcp_server.HttpTransport.Grants.Steps
use zendesk_mcp_server.HttpTransport.Grants.Entries.{running}
use zendesk_mcp_server.HttpTransport.Grants.Tracked.{request_acts_for_owner}
use zendesk_mcp_server.HttpTransport.Grants.Closed.{revoked_entry_closed}
use zendesk_mcp_server.HttpTransport.Body.{
  too_large, body_of, joined, sent, read_json_body, on_events, start_reading, read_json_body-sent,
  buffered_bounded,
}
use zendesk_mcp_server.HttpTransport.Origins.{
  Url, handle_cors_preflight, resolve_allowed_origin, find_entry,
}
use zendesk_mcp_server.HttpTransport.Routes.{
  HttpRequest, request_listener, tools_of, IsAdmitted, request_listener-IsAdmitted,
}

abbrev token_for : String → String → VerifiedAccessToken
token_for subject zendesk = record {
  zendesk_access_token = zendesk;
  grant_id = "g";
  client_id = "client";
  subject = subject;
  can_write = true;
  expires_at = 99;
  resource = none;
}

abbrev alice : VerifiedAccessToken
alice = token_for "alice" "zd1"

-- one bearer is good
abbrev verify : List ℕ → Option VerifiedAccessToken
verify bearer = if bearer == codes "a" then some alice else none

abbrev no_url : String → Bool
no_url resource = false

abbrev verify_bearer : Option (List ℕ) → (List ℕ → Option AuthInfo) → String → Option AuthInfo
verify_bearer none verifier resource = none
verify_bearer (some header) verifier resource = verifier header

abbrev resource : Surface → String
resource main_surface = "https://s.example/mcp"
resource admin_surface = "https://s.example/mcp/admin"

abbrev AliceAccepted : Surface → VerifiedAccessToken → Type 0
AliceAccepted = Accepted verify no_url verify_bearer resource

alice_accepted : AliceAccepted main_surface alice
unfolding authenticate
alice_accepted = (some (codes "a"), refl)

abbrev opened_server : Opened
opened_server = record {
  auth = auth_of alice;
  subject = "alice";
  surface = main_surface;
  can_write = true;
  session_id = none;
  answering = true;
  ended = false;
}

abbrev opened : Transport
opened = (serve_legacy false true no_sessions none alice main_surface 10).0

abbrev live : Transport
live = session_initialized opened 0 opened_server "s1" 10

abbrev alice_session : Session
alice_session = record {
  server = 0;
  subject = "alice";
  surface = main_surface;
  can_write = true;
  last_activity_at = 10;
}

opened_first : JsMap.get opened.servers 0 ≡ some opened_server
unfolding serve_legacy JsMap.get JsMap.put
opened_first = refl

no_ids :
    (m : ℕ) (other : Opened)
    → JsMap.get opened.servers m ≡ some other
    → other.session_id ≢ some "s1"
unfolding serve_legacy JsMap.get JsMap.put
no_ids m other there = ground (arith, there)

live-Run : Run (Sessions.Steps.Step AliceAccepted) no_sessions live
live-Run =
    then_step
      (then_step at_start
        (Sessions.Steps.served no_sessions false true none alice main_surface 10 alice_accepted))
      (Sessions.Steps.announced opened 0 opened_server "s1" 10 opened_first refl refl no_ids)

live_session : JsMap.get live.sessions "s1" ≡ some alice_session
unfolding serve_legacy session_initialized JsMap.get JsMap.put
live_session = refl

session_acts_for_owner_example :
    (server : Opened) × (token : VerifiedAccessToken) × (JsMap.get live.servers 0 ≡ some server)
    × (server.auth ≡ auth_of token)
    × AliceAccepted main_surface token
    × (token.subject ≡ "alice")
    × (true ≡ true → token.can_write ≡ true)
session_acts_for_owner_example =
    session_acts_for_owner verify no_url verify_bearer resource "s1" alice_session live-Run
      live_session

-- another user's token does not reach the session, and the sweep takes it when it is idle
other_user_opens :
    (serve_legacy false true live (some "s1") (token_for "bob" "zd2") main_surface 20).1
    ≡ Sessions.opening
unfolding serve_legacy session_initialized JsMap.get JsMap.put
other_user_opens = refl

swept_away : (sweep_session live 10 "s1").sessions ≡ []
unfolding sweep_session serve_legacy session_initialized JsMap.get JsMap.put JsMap.delete
swept_away = refl

abbrev asked : Grants
asked = (serve_modern no_grants alice main_surface true 10).0

abbrev alice_request : Request
alice_request = record { entry = 0; key = "main:g"; subject = "alice"; is_counted = true }

asked_first : JsMap.get asked.requests 0 ≡ some alice_request
unfolding serve_modern no_grants acquire grant_key JsMap.get JsMap.put
asked_first = refl

asked-Run : (at_rest : Bool) → Run (Steps.Step at_rest AliceAccepted) no_grants asked
asked-Run at_rest =
    then_step at_start (Steps.served no_grants alice main_surface true 10 alice_accepted)

request_acts_for_owner_example :
    (entry : GrantEntry) × (surface : Surface) × (token : VerifiedAccessToken) × (JsMap.get
        asked.entries 0
      ≡ some entry)
    × (entry.in_flight ≡ running asked.requests 0)
    × (entry.zendesk_token ≡ token.zendesk_access_token)
    × AliceAccepted surface token
    × (grant_key surface token.grant_id ≡ "main:g")
    × (token.subject ≡ "alice")
request_acts_for_owner_example =
    request_acts_for_owner verify no_url verify_bearer resource true 0 alice_request
      (asked-Run true) asked_first

abbrev refused : Grants
refused = on_unauthorized asked 0

abbrev drained : Grants
drained = finish_modern refused 0 alice_request

refused_first : JsMap.get refused.requests 0 ≡ some alice_request
unfolding on_unauthorized serve_modern no_grants acquire create_grant_registry grant_key JsMap.get
    JsMap.put
refused_first = refl

drained-Run : Run (Steps.Step false AliceAccepted) no_grants drained
drained-Run =
    then_step
      (then_step (asked-Run false)
        (Steps.refused_by_zendesk asked 0 alice_request asked_first refl))
      (Steps.finished refused 0 alice_request refused_first)

abbrev drained_entry : GrantEntry
drained_entry = record {
  key = "main:g";
  subject = "alice";
  zendesk_token = "zd1";
  revoked = true;
  in_flight = 0;
}

drained_at : JsMap.get drained.entries 0 ≡ some drained_entry
unfolding finish_modern on_unauthorized serve_modern no_grants acquire create_grant_registry
    create_grant_entry grant_key JsMap.get JsMap.put JsMap.delete
drained_at = refl

drained_idle : running drained.requests 0 ≡ 0
unfolding finish_modern on_unauthorized serve_modern no_grants acquire create_grant_registry
    grant_key JsMap.get JsMap.put JsMap.delete
drained_idle = refl

revoked_entry_closed_example :
    ((g : String) (slot : Slot) → JsMap.get drained.registry.slots g ≡ some slot → slot.entry ≢ 0)
    × (closings drained.registry.closed 0 ≡ 1)
revoked_entry_closed_example =
    revoked_entry_closed verify no_url verify_bearer resource 0 drained_entry drained-Run drained_at
      refl drained_idle

-- a refusal met by the polling of alerts, with no request running, leaves the slot
polled_refusal_lingers :
    length (on_unauthorized (finish_modern asked 0 alice_request) 0).registry.slots ≡ 1
unfolding finish_modern on_unauthorized serve_modern no_grants acquire create_grant_registry
    grant_key JsMap.get JsMap.put JsMap.delete create_grant_entry
polled_refusal_lingers = refl

abbrev decode_any : List ℕ → Option ℕ
decode_any raw = some (length raw)

abbrev pieces : List (List ℕ)
pieces = codes "{" ∷ codes "}" ∷ []

read_json_body-sent_example :
    read_json_body decode_any 4 (sent pieces)
    ≡ some
        (if leb (length (joined pieces)) 4 then body_of decode_any (joined pieces) else too_large)
read_json_body-sent_example = read_json_body-sent decode_any 4 pieces

buffered_bounded_example : length (on_events decode_any 1 start_reading (sent pieces)).chunks ≤ 1
buffered_bounded_example = buffered_bounded decode_any 1 (sent pieces)

abbrev one_url : String → Option Url
one_url origin =
    if origin == "http://localhost:6274"
    then some (record { protocol = "http:"; hostname = "localhost"; port = "6274" })
    else none

loopback_run :
    resolve_allowed_origin one_url "http://localhost:6274" [] ≡ some "http://localhost:6274"
unfolding resolve_allowed_origin find_entry
loopback_run = refl

abbrev get_mcp : HttpRequest
get_mcp = record {
  method = "GET";
  pathname = "/mcp";
  origin = none;
  authorization = some (codes "a");
  body = [];
}

abbrev always_legacy : HttpRequest → ℕ → Bool
always_legacy request value = true

get_mcp_reaches :
    tools_of (
      request_listener decode_any 4 one_url [] verify no_url verify_bearer resource always_legacy
        true get_mcp)
    ≡ some (alice, main_surface)
unfolding request_listener authenticate handle_cors_preflight
get_mcp_reaches = refl

request_listener-IsAdmitted_example :
    (◌≡◌ {A = Bool} true true)
    × (get_mcp.method ≢ "OPTIONS")
    × IsAdmitted verify no_url verify_bearer resource get_mcp alice main_surface
request_listener-IsAdmitted_example =
    request_listener-IsAdmitted decode_any 4 one_url [] verify no_url verify_bearer resource
      always_legacy true get_mcp alice main_surface get_mcp_reaches
