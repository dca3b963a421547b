-- ===== src/HttpTransport/Sessions.antt =====
-- The sessions of transports/http.ts. Each opened session has a server of its own, known by a number,
-- with the mutable cell `auth` that its tools read. The calls are cut at their waits: the SDK may
-- announce a new session while `handleRequest` runs, and closes the transport on a client's DELETE.
-- A transport that closed has ended its server, too; the server that no session holds is closed.
pub mod Steps
pub mod Owned
pub mod Owners
use zendesk_mcp_server.Base.{
  ℕ, ◌+◌, String, Bool, true, false, not, ◌&&◌, ◌||◌, Option, none, some, List, [], ◌∷◌, ltb,
  if◌then◌else◌, ◌==◌, number_key, text_key,
}
use zendesk_mcp_server.Base.JsMap
use zendesk_mcp_server.Base.JsMap.{JsMap}
use zendesk_mcp_server.AuthServer.Revocation.{VerifiedAccessToken}
use zendesk_mcp_server.HttpTransport.{Surface, is_same_surface}

pub record Auth : Type 0 where
  pub zendesk_token : String
  pub grant_id : String

pub record Session : Type 0 where
  pub server : ℕ
  pub subject : String
  pub surface : Surface
  pub can_write : Bool
  pub last_activity_at : ℕ

-- what `openSession` made: the cell, and what its callbacks keep of the call
pub record Opened : Type 0 where
  pub auth : Auth
  pub subject : String
  pub surface : Surface
  pub can_write : Bool
  pub session_id : Option String  -- the transport's
  pub answering : Bool  -- the first request is being answered
  pub ended : Bool

pub record Transport : Type 0 where
  pub sessions : JsMap String Session
  pub servers : JsMap ℕ Opened
  pub created : ℕ

abbrev pub no_sessions : Transport
no_sessions = record { sessions = []; servers = []; created = 0 }

abbrev pub auth_of : VerifiedAccessToken → Auth
auth_of token = record { zendesk_token = token.zendesk_access_token; grant_id = token.grant_id }

abbrev pub adopt : Transport → ℕ → Auth → Option Opened → JsMap ℕ Opened
adopt s n auth none = s.servers
adopt s n auth (some server) = JsMap.put s.servers n (record server { auth = auth })

abbrev pub dispatch_found :
    Transport → String → VerifiedAccessToken → Surface → ℕ → Option Session → Option Transport
dispatch_found s id token surface now none = none
dispatch_found s id token surface now (some session) =
    if not (session.subject == token.subject) || not (is_same_surface session.surface surface)
    then none
    else if session.can_write && not token.can_write
    then none
    else some (record s {
      sessions = JsMap.put s.sessions id (record session { last_activity_at = now });
      servers = adopt s session.server (auth_of token) (JsMap.get s.servers session.server);
    })

-- none for `false`; else the state in which the session's transport gets the request
unfoldable pub dispatch_to_session :
    Transport → String → VerifiedAccessToken → Surface → ℕ → Option Transport
dispatch_to_session s id token surface now =
    dispatch_found s id token surface now (JsMap.get s.sessions id)

-- `openSession` up to `handleRequest`; `read_only` is that of the configuration
unfoldable pub open_session : Bool → Transport → VerifiedAccessToken → Surface → Transport
open_session read_only s token surface = record s {
  servers = JsMap.put s.servers s.created (record {
    auth = auth_of token;
    subject = token.subject;
    surface = surface;
    can_write = not read_only && token.can_write;
    session_id = none;
    answering = true;
    ended = false;
  });
  created = s.created + 1;
}

pub data LegacyReply : Type 0 where
  handed opening no_active_session : LegacyReply

abbrev pub no_session :
    Bool → Bool → Transport → VerifiedAccessToken → Surface → Transport × LegacyReply
no_session read_only is_post s token surface =
    if not is_post
    then (s, no_active_session)
    else (open_session read_only s token surface, opening)

abbrev pub after_dispatch :
    Bool
    → Bool
    → Transport
    → VerifiedAccessToken
    → Surface
    → Option Transport
    → Transport × LegacyReply
after_dispatch read_only is_post s token surface none = no_session read_only is_post s token surface
after_dispatch read_only is_post s token surface (some s') = (s', handed)

abbrev pub serve_with_id :
    Bool
    → Bool
    → Transport
    → Option String
    → VerifiedAccessToken
    → Surface
    → ℕ
    → Transport × LegacyReply
serve_with_id read_only is_post s none token surface now =
    no_session read_only is_post s token surface
serve_with_id read_only is_post s (some id) token surface now =
    if id == ""
    then no_session read_only is_post s token surface
    else after_dispatch read_only is_post s token surface
        (dispatch_to_session s id token surface now)

-- `serveLegacy`, up to the call of the transport's `handleRequest`
unfoldable pub serve_legacy :
    Bool
    → Bool
    → Transport
    → Option String
    → VerifiedAccessToken
    → Surface
    → ℕ
    → Transport × LegacyReply
unfolding dispatch_to_session open_session
serve_legacy read_only is_post s session_id token surface now =
    serve_with_id read_only is_post s session_id token surface now

abbrev pub session_of : ℕ → ℕ → Opened → Session
session_of n now server = record {
  server = n;
  subject = server.subject;
  surface = server.surface;
  can_write = server.can_write;
  last_activity_at = now;
}

-- `onsessioninitialized`
unfoldable pub session_initialized : Transport → ℕ → Opened → String → ℕ → Transport
session_initialized s n server new_id now = record s {
  sessions = JsMap.put s.sessions new_id (session_of n now server);
  servers = JsMap.put s.servers n (record server { session_id = some new_id });
}

abbrev pub delete_own : JsMap String Session → Option String → JsMap String Session
delete_own sessions none = sessions
delete_own sessions (some id) = JsMap.delete sessions id

-- the transport's `onclose`; the SDK has ended the server
unfoldable pub transport_closed : Transport → ℕ → Opened → Transport
transport_closed s n server = record s {
  sessions = delete_own s.sessions server.session_id;
  servers = JsMap.put s.servers n (record server { ended = true });
}

abbrev pub close_unheld : Option String → Bool → Bool
close_unheld none ended = true
close_unheld (some id) ended = ended

-- `openSession` after `handleRequest`
unfoldable pub first_answered : Transport → ℕ → Opened → Transport
first_answered s n server = record s {
  servers =
      JsMap.put s.servers n
        (record server { answering = false; ended = close_unheld server.session_id server.ended });
}

-- `session.close`
abbrev pub close_server : Transport → ℕ → Option Opened → Transport
close_server s n none = s
close_server s n (some server) = transport_closed s n server

abbrev pub sweep_found : Transport → ℕ → String → Option Session → Transport
sweep_found s cutoff id none = s
sweep_found s cutoff id (some session) =
    if ltb cutoff session.last_activity_at
    then s
    else close_server (record s { sessions = JsMap.delete s.sessions id }) session.server
        (JsMap.get s.servers session.server)

-- one round of the loop of `sweepIdleSessions`
unfoldable pub sweep_session : Transport → ℕ → String → Transport
unfolding transport_closed
sweep_session s cutoff id = sweep_found s cutoff id (JsMap.get s.sessions id)

-- the calls of `session.close` in `close`
unfoldable pub close_each : Transport → List (String × Session) → Transport
unfolding transport_closed
close_each s [] = s
close_each s ((id, session) ∷ copy) =
    close_each (close_server s session.server (JsMap.get s.servers session.server)) copy

unfoldable pub close_sessions : Transport → Transport
unfolding close_each
close_sessions s = record (close_each s s.sessions) { sessions = [] }
