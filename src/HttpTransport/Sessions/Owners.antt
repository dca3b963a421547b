-- ===== src/HttpTransport/Sessions/Owners.antt =====
-- Whose tokens the tools of a session act with (transports/http.ts), under any order of the calls.
use zendesk_mcp_server.Base.{
  ℕ, String, ◌≡◌, refl, sym, ap, ◌∙◌, inl, inr, Bool, true, false, Option, none, some, List, [],
  ◌∷◌, arith, eq_iff, ltb, Bool-cases, Option-cases, ◌==◌, number_key, text_key, Run, Run-keeps,
}
use mathlib.Core.Option.{none-ne-some}
use mathlib.Core.Path.{subst}
use zendesk_mcp_server.Base.JsMap
use zendesk_mcp_server.Base.JsMap.{
  JsMap, get-put_cases, get-delete_kept, get-put_self, get-put_other,
}
use zendesk_mcp_server.AuthServer.Revocation.{VerifiedAccessToken}
use zendesk_mcp_server.HttpTransport.{Surface, is_same_surface_iff, AuthInfo, authenticate}
use zendesk_mcp_server.HttpTransport.Sessions.{
  Session, Opened, Transport, no_sessions, auth_of, adopt, dispatch_found, no_session, serve_legacy,
  session_of, session_initialized, delete_own, transport_closed, close_unheld, first_answered,
  close_server, sweep_found, sweep_session, close_each, close_sessions,
}
use zendesk_mcp_server.HttpTransport.Sessions.Steps.{
  Step, served, announced, closed, answered, swept, stopped,
}
use zendesk_mcp_server.HttpTransport.Sessions.Owned.{
  HasOwnToken, IsOwned, change_server, put_session, delete_session, opened-IsOwned,
}

module _ (Accepted : Surface → VerifiedAccessToken → Type 0) where
  dispatched-IsOwned :
      (s : Transport) (id : String) (token : VerifiedAccessToken) (surface : Surface) (now : ℕ)
      (session : Session) (t : Transport)
      → Accepted surface token
      → JsMap.get s.sessions id ≡ some session
      → dispatch_found s id token surface now (some session) ≡ some t
      → IsOwned Accepted s
      → IsOwned Accepted t
  dispatched-IsOwned s id token surface now session t accepted found done o =
      let (server, at, a, b, c) = o.held id session found in
      let moved = record s {
        sessions = JsMap.put s.sessions id (record session { last_activity_at = now });
        servers = adopt s session.server (auth_of token) (JsMap.get s.servers session.server);
      } in
      let checks : (session.subject ≡ token.subject)
          × (session.surface ≡ surface)
          × (session.can_write ≡ true → token.can_write ≡ true)
          × (t ≡ moved) =
        ground (
          arith,
          eq_iff session.subject token.subject,
          is_same_surface_iff session.surface surface,
          done,
        ) in
      let (e1, e2, write, e3) = checks in
      let new = record server { auth = auth_of token } in
      let own_token : HasOwnToken Accepted new = (
        token,
        subst (λ (x : Surface). Accepted x token) (sym (b ∙ e2)) accepted,
        sym (a ∙ e1),
        refl,
        λ (w : server.can_write ≡ true). write (sym c ∙ w),
      ) in
      let changed =
        change_server Accepted s session.server server new at refl refl refl own_token o in
      let kept =
        put_session Accepted (record s { servers = JsMap.put s.servers session.server new }) id
          (record session { last_activity_at = now }) (changed.held id session found) changed in
      let e4 : adopt s session.server (auth_of token) (JsMap.get s.servers session.server)
          ≡ JsMap.put s.servers session.server new =
        rw at in
      subst (IsOwned Accepted)
        (sym (
          e3
          ∙ ap
              (λ (x : JsMap ℕ Opened). record s {
                sessions = JsMap.put s.sessions id (record session { last_activity_at = now });
                servers = x;
              })
              e4))
        kept

  dispatch-IsOwned :
      (s : Transport) (id : String) (token : VerifiedAccessToken) (surface : Surface) (now : ℕ)
      (found : Option Session) (t : Transport)
      → Accepted surface token
      → JsMap.get s.sessions id ≡ found
      → dispatch_found s id token surface now found ≡ some t
      → IsOwned Accepted s
      → IsOwned Accepted t
  dispatch-IsOwned s id token surface now none t accepted found done o =
      absurd (none-ne-some t done)
  dispatch-IsOwned s id token surface now (some session) t accepted found done o =
      dispatched-IsOwned s id token surface now session t accepted found done o

  no_session-IsOwned :
      (read_only is_post : Bool) (s : Transport) (token : VerifiedAccessToken) (surface : Surface)
      → Accepted surface token
      → IsOwned Accepted s
      → IsOwned Accepted (no_session read_only is_post s token surface).0
  no_session-IsOwned read_only true s token surface accepted o =
      opened-IsOwned Accepted read_only s token surface accepted o
  no_session-IsOwned read_only false s token surface accepted o = o

  served-IsOwned :
      (read_only is_post : Bool) (s : Transport) (id : Option String) (token : VerifiedAccessToken)
      (surface : Surface) (now : ℕ)
      → Accepted surface token
      → IsOwned Accepted s
      → IsOwned Accepted (serve_legacy read_only is_post s id token surface now).0
  unfolding serve_legacy
  served-IsOwned read_only is_post s none token surface now accepted o =
      no_session-IsOwned read_only is_post s token surface accepted o
  served-IsOwned read_only is_post s (some id) token surface now accepted o =
      elim (Bool-cases (id == "")) [
        | inl blank ↦ rw blank (no_session-IsOwned read_only is_post s token surface accepted o)
        | inr given ↦
            rw given
              (elim (Option-cases
                (dispatch_found s id token surface now (JsMap.get s.sessions id))) [
                  | inl none_found ↦
                      rw none_found
                        (no_session-IsOwned read_only is_post s token surface accepted o)
                  | inr (t, done) ↦ rw done (
                      dispatch-IsOwned s id token surface now (JsMap.get s.sessions id) t accepted
                        refl done o)
                ])
      ]

  -- A change that leaves the cell as it is.
  mark_server :
      (s : Transport) (n : ℕ) (old : Opened) (session_id : Option String) (answering ended : Bool)
      → JsMap.get s.servers n ≡ some old
      → IsOwned Accepted s
      → IsOwned Accepted (record s {
        servers =
            JsMap.put s.servers n
              (record old { session_id = session_id; answering = answering; ended = ended });
      })
  mark_server s n old session_id answering ended found o =
      change_server Accepted s n old
        (record old { session_id = session_id; answering = answering; ended = ended }) found refl
        refl refl (o.own n old found) o

  initialized-IsOwned :
      (s : Transport) (n : ℕ) (server : Opened) (new_id : String) (now : ℕ)
      → JsMap.get s.servers n ≡ some server
      → IsOwned Accepted s
      → IsOwned Accepted (session_initialized s n server new_id now)
  unfolding session_initialized
  initialized-IsOwned s n server new_id now found o =
      let new = record server { session_id = some new_id } in
      put_session Accepted (record s { servers = JsMap.put s.servers n new }) new_id
        (session_of n now server) (new, get-put_self s.servers n new, refl, refl, refl)
        (mark_server s n server (some new_id) server.answering server.ended found o)

  delete_own-IsOwned :
      (s : Transport) (id : Option String)
      → IsOwned Accepted s
      → IsOwned Accepted (record s { sessions = delete_own s.sessions id })
  delete_own-IsOwned s none o = o
  delete_own-IsOwned s (some id) o = delete_session Accepted s id o

  closed-IsOwned :
      (s : Transport) (n : ℕ) (server : Opened)
      → JsMap.get s.servers n ≡ some server
      → IsOwned Accepted s
      → IsOwned Accepted (transport_closed s n server)
  unfolding transport_closed
  closed-IsOwned s n server found o =
      delete_own-IsOwned
        (record s { servers = JsMap.put s.servers n (record server { ended = true }) })
        server.session_id (mark_server s n server server.session_id server.answering true found o)

  close_server-IsOwned :
      (s : Transport) (n : ℕ)
      → IsOwned Accepted s
      → IsOwned Accepted (close_server s n (JsMap.get s.servers n))
  close_server-IsOwned s n o = elim (Option-cases (JsMap.get s.servers n)) [
    | inl e ↦ rw e o
    | inr (server, e) ↦ rw e (closed-IsOwned s n server e o)
  ]

  swept-IsOwned :
      (s : Transport) (cutoff : ℕ) (id : String) (found : Option Session)
      → IsOwned Accepted s
      → IsOwned Accepted (sweep_found s cutoff id found)
  swept-IsOwned s cutoff id none o = o
  swept-IsOwned s cutoff id (some session) o =
      elim (Bool-cases (ltb cutoff session.last_activity_at)) [
        | inl active ↦ rw active o
        | inr idle ↦ rw idle (
            close_server-IsOwned (record s { sessions = JsMap.delete s.sessions id }) session.server
              (delete_session Accepted s id o))
      ]

  close_each-IsOwned :
      (s : Transport) (copy : List (String × Session))
      → IsOwned Accepted s
      → IsOwned Accepted (close_each s copy)
  unfolding close_each
  close_each-IsOwned s [] o = o
  close_each-IsOwned s ((id, session) ∷ copy) o =
      close_each-IsOwned (close_server s session.server (JsMap.get s.servers session.server)) copy
        (close_server-IsOwned s session.server o)

  Step-IsOwned : (s t : Transport) → Step Accepted s t → IsOwned Accepted s → IsOwned Accepted t
  unfolding sweep_session close_sessions first_answered JsMap.get
  Step-IsOwned _ _ (served s read_only is_post id token surface now accepted) o =
      served-IsOwned read_only is_post s id token surface now accepted o
  Step-IsOwned _ _ (announced s n server new_id now found none_yet first fresh) o =
      initialized-IsOwned s n server new_id now found o
  Step-IsOwned _ _ (closed s n server found) o = closed-IsOwned s n server found o
  Step-IsOwned _ _ (answered s n server found) o =
      mark_server s n server server.session_id false (close_unheld server.session_id server.ended)
        found o
  Step-IsOwned _ _ (swept s cutoff id) o = swept-IsOwned s cutoff id (JsMap.get s.sessions id) o
  Step-IsOwned _ _ (stopped s) o =
      let all = close_each-IsOwned s s.sessions o in
      record {
        young = all.young;
        own = all.own;
        held = λ id session there. absurd (none-ne-some session there);
      }

  no_sessions-IsOwned : IsOwned Accepted no_sessions
  unfolding JsMap.get
  no_sessions-IsOwned = record {
    young = λ n server there. absurd (none-ne-some server there);
    own = λ n server there. absurd (none-ne-some server there);
    held = λ id session there. absurd (none-ne-some session there);
  }

module _ (verify_access_token : List ℕ → Option VerifiedAccessToken) (can_parse : String → Bool)
    (verify_bearer_token : Option (List ℕ) → (List ℕ → Option AuthInfo) → String → Option AuthInfo)
    (resource : Surface → String) where
  -- a token that some request presented on a surface, and `authenticate` let through
  abbrev pub Accepted : Surface → VerifiedAccessToken → Type 0
  Accepted surface token =
      (header : Option (List ℕ)) × (authenticate verify_access_token can_parse verify_bearer_token
          header (resource surface)
        ≡ some token)

  -- However requests, session announcements, closings and sweeps interleave, the cell that a live
  -- session's tools read holds the Zendesk token and the grant of one accepted access token, which
  -- was presented on the session's own surface by the session's own user, and which may write if the
  -- session serves write tools.
  pub session_acts_for_owner :
      {s : Transport} (id : String) (session : Session)
      → Run (Step Accepted) no_sessions s
      → JsMap.get s.sessions id ≡ some session
      → (server : Opened) × (token : VerifiedAccessToken) × (JsMap.get s.servers session.server
          ≡ some server)
        × (server.auth ≡ auth_of token)
        × Accepted session.surface token
        × (token.subject ≡ session.subject)
        × (session.can_write ≡ true → token.can_write ≡ true)
  session_acts_for_owner id session run found =
      let o =
        Run-keeps (IsOwned Accepted) (Step-IsOwned Accepted) (no_sessions-IsOwned Accepted) run in
      let (server, at, a, b, c) = o.held id session found in
      let (token, accepted, owner, cell, write) = o.own session.server server at in
      (
        server,
        token,
        at,
        cell,
        subst (λ (x : Surface). Accepted x token) b accepted,
        owner ∙ a,
        λ (w : session.can_write ≡ true). write (c ∙ w),
      )
