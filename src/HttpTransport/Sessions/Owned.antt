-- ===== src/HttpTransport/Sessions/Owned.antt =====
-- What the sessions of transports/http.ts and their servers keep: the owner and an owner's token.
use zendesk_mcp_server.Base.{
  ℕ, ◌<◌, String, ◌≡◌, refl, sym, ap, ◌∙◌, inl, inr, Bool, true, some, arith, nat_beq_iff,
  Bool-cases, ◌==◌, number_key, text_key,
}
use mathlib.Core.Option.{some_inj}
use mathlib.Core.Path.{subst}
use zendesk_mcp_server.Base.JsMap
use zendesk_mcp_server.Base.JsMap.{
  JsMap, get-put_cases, get-delete_kept, get-put_self, get-put_other,
}
use zendesk_mcp_server.AuthServer.Revocation.{VerifiedAccessToken}
use zendesk_mcp_server.HttpTransport.{Surface}
use zendesk_mcp_server.HttpTransport.Sessions.{Session, Opened, Transport, auth_of, open_session}

module _ (Accepted : Surface → VerifiedAccessToken → Type 0) where
  -- the cell of a server holds the tokens of a request that its owner made
  abbrev pub HasOwnToken : Opened → Type 0
  HasOwnToken server =
      (token : VerifiedAccessToken) × Accepted server.surface token
      × (token.subject ≡ server.subject)
      × (server.auth ≡ auth_of token)
      × (server.can_write ≡ true → token.can_write ≡ true)

  abbrev pub IsServerOf : JsMap ℕ Opened → Session → Type 0
  IsServerOf servers session =
      (server : Opened) × (JsMap.get servers session.server ≡ some server)
      × (server.subject ≡ session.subject)
      × (server.surface ≡ session.surface)
      × (server.can_write ≡ session.can_write)

  pub record IsOwned (s : Transport) : Type 0 where
    pub young : (n : ℕ) (server : Opened) → JsMap.get s.servers n ≡ some server → n < s.created
    pub own : (n : ℕ) (server : Opened) → JsMap.get s.servers n ≡ some server → HasOwnToken server
    pub held :
        (id : String) (session : Session)
        → JsMap.get s.sessions id ≡ some session
        → IsServerOf s.servers session

  -- A server changes its cell and its marks.
  pub change_server :
      (s : Transport) (n : ℕ) (old new : Opened)
      → JsMap.get s.servers n ≡ some old
      → new.subject ≡ old.subject
      → new.surface ≡ old.surface
      → new.can_write ≡ old.can_write
      → HasOwnToken new
      → IsOwned s
      → IsOwned (record s { servers = JsMap.put s.servers n new })
  change_server s n old new found e1 e2 e3 token o = record {
    young = λ m server there. elim (get-put_cases s.servers n m new server there) [
      | inl (same, now_new) ↦ rw (← same) (o.young n old found)
      | inr (other, before) ↦ o.young m server before
    ];
    own = λ m server there. elim (get-put_cases s.servers n m new server there) [
      | inl (same, now_new) ↦ subst HasOwnToken now_new token
      | inr (other, before) ↦ o.own m server before
    ];
    held = λ id session there.
        let (server, at, a, b, c) = o.held id session there in
        elim (Bool-cases (n == session.server)) [
          | inl same ↦
              let e : old ≡ server =
                some_inj.0 (sym found ∙ rw (← (nat_beq_iff n session.server).0 same) at at) in
              (
                new,
                rw (← (nat_beq_iff n session.server).0 same) (get-put_self s.servers n new),
                e1 ∙ ap (λ (x : Opened). x.subject) e ∙ a,
                e2 ∙ ap (λ (x : Opened). x.surface) e ∙ b,
                e3 ∙ ap (λ (x : Opened). x.can_write) e ∙ c,
              )
          | inr other ↦ (server, get-put_other s.servers n session.server new other ∙ at, a, b, c)
        ];
  }

  pub put_session :
      (s : Transport) (id : String) (session : Session)
      → IsServerOf s.servers session
      → IsOwned s
      → IsOwned (record s { sessions = JsMap.put s.sessions id session })
  put_session s id session server o = record {
    young = o.young;
    own = o.own;
    held = λ j found there. elim (get-put_cases s.sessions id j session found there) [
      | inl (same, now_new) ↦ subst (IsServerOf s.servers) now_new server
      | inr (other, before) ↦ o.held j found before
    ];
  }

  pub delete_session :
      (s : Transport) (id : String)
      → IsOwned s
      → IsOwned (record s { sessions = JsMap.delete s.sessions id })
  delete_session s id o = record {
    young = o.young;
    own = o.own;
    held = λ j found there. o.held j found (get-delete_kept s.sessions id j found there).1;
  }

  pub opened-IsOwned :
      (read_only : Bool) (s : Transport) (token : VerifiedAccessToken) (surface : Surface)
      → Accepted surface token
      → IsOwned s
      → IsOwned (open_session read_only s token surface)
  unfolding open_session
  opened-IsOwned read_only s token surface accepted o = record {
    young = λ m server there. elim (get-put_cases s.servers s.created m _ server there) [
      | inl (same, now_new) ↦ omega arith
      | inr (other, before) ↦ omega (arith, o.young m server before)
    ];
    own = λ m server there. elim (get-put_cases s.servers s.created m _ server there) [
      | inl (same, now_new) ↦ subst HasOwnToken now_new (token, accepted, refl, refl, ground arith)
      | inr (other, before) ↦ o.own m server before
    ];
    held = λ id session there.
        let (server, at, a, b, c) = o.held id session there in
        let young : session.server < s.created = o.young session.server server at in
        (server, get-put_other s.servers s.created session.server _ (ground arith) ∙ at, a, b, c);
  }
