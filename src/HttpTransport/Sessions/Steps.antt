-- ===== src/HttpTransport/Sessions/Steps.antt =====
-- The calls on the sessions of transports/http.ts, in any order.
use zendesk_mcp_server.Base.{
  ℕ, String, ◌≡◌, ◌≢◌, Bool, true, Option, none, some, number_key, text_key,
}
use zendesk_mcp_server.Base.JsMap
use zendesk_mcp_server.Base.JsMap.{
  JsMap, get-put_cases, get-delete_kept, get-put_self, get-put_other,
}
use zendesk_mcp_server.AuthServer.Revocation.{VerifiedAccessToken}
use zendesk_mcp_server.HttpTransport.{Surface}
use zendesk_mcp_server.HttpTransport.Sessions.{
  Opened, Transport, serve_legacy, session_initialized, transport_closed, first_answered,
  sweep_session, close_sessions,
}

-- The calls on the sessions. The SDK announces at most one session for a server, while its first
-- request is answered, under an id that no other server has had (`randomUUID`).
pub data Step (Accepted : Surface → VerifiedAccessToken → Type 0)
    : Transport → Transport → Type 0 where
  served :
      (s : Transport) (read_only is_post : Bool) (id : Option String) (token : VerifiedAccessToken)
      (surface : Surface) (now : ℕ)
      → Accepted surface token
      → Step Accepted s (serve_legacy read_only is_post s id token surface now).0
  announced :
      (s : Transport) (n : ℕ) (server : Opened) (new_id : String) (now : ℕ)
      → JsMap.get s.servers n ≡ some server
      → server.session_id ≡ none
      → server.answering ≡ true
      → ((m : ℕ) (other : Opened)
          → JsMap.get s.servers m ≡ some other
          → other.session_id ≢ some new_id)
      → Step Accepted s (session_initialized s n server new_id now)
  closed :
      (s : Transport) (n : ℕ) (server : Opened)
      → JsMap.get s.servers n ≡ some server
      → Step Accepted s (transport_closed s n server)
  answered :
      (s : Transport) (n : ℕ) (server : Opened)
      → JsMap.get s.servers n ≡ some server
      → Step Accepted s (first_answered s n server)
  swept : (s : Transport) (cutoff : ℕ) (id : String) → Step Accepted s (sweep_session s cutoff id)
  stopped : (s : Transport) → Step Accepted s (close_sessions s)
