-- ===== src/HttpTransport/Grants/Tracked.antt =====
-- Every call on the grants of transports/http.ts keeps its entries tracked.
use zendesk_mcp_server.Base.{
  ℕ, ◌<◌, String, ◌≡◌, refl, sym, ap, ◌∙◌, inl, inr, Bool, true, false, ◌&&◌, Option, some, List,
  arith, nat_beq_iff, Bool-cases, Option-cases, ◌==◌, number_key, text_key, Run, Run-keeps,
}
use mathlib.Core.Option.{some_inj, none-ne-some}
use mathlib.Core.Path.{subst}
use zendesk_mcp_server.Base.JsMap
use zendesk_mcp_server.Base.JsMap.{
  JsMap, IsKeyed, IsKeyed-delete, get-put_cases, get-delete_kept, get-put_self, get-put_other,
}
use zendesk_mcp_server.AuthServer.Revocation.{VerifiedAccessToken}
use zendesk_mcp_server.GrantRegistry.{Registry, acquire, sweep_one, close_all}
use zendesk_mcp_server.HttpTransport.{Surface, AuthInfo}
use zendesk_mcp_server.HttpTransport.Sessions.Owners.{Accepted}
use zendesk_mcp_server.HttpTransport.Grants.{
  GrantEntry, Request, Grants, no_grants, grant_key, serve_modern, on_unauthorized, counted_out,
  close_if_drained, finish_modern,
}
use zendesk_mcp_server.HttpTransport.Grants.Steps.{
  Step, served, refused_by_zendesk, refused_at_rest, finished, swept, stopped, IsWithin,
  IsWithin-refl, close-IsWithin, sweep_one-IsWithin, close_all-IsWithin,
}
use zendesk_mcp_server.HttpTransport.Grants.Entries.{
  running, running-delete, HasOwnToken, IsTracked, put-IsEntryOf, shrunk-IsTracked,
}
use zendesk_mcp_server.HttpTransport.Grants.Taken.{with_entry-IsTracked}

pub close_if_drained-IsWithin :
    (r : Registry) (key : String) (e : ℕ) (entry : GrantEntry)
    → IsWithin (close_if_drained r key e entry) r
close_if_drained-IsWithin r key e entry =
    elim (Bool-cases (entry.revoked && (entry.in_flight == 0))) [
      | inl drained ↦ rw drained (close-IsWithin r key (some e))
      | inr kept ↦ rw kept (IsWithin-refl r)
    ]

module _ (Accepted : Surface → VerifiedAccessToken → Type 0) where
  -- An entry's marks change, and requests end.
  marked-IsTracked :
      (s : Grants) (e : ℕ) (old : GrantEntry) (revoked : Bool) (in_flight : ℕ)
      (requests : JsMap ℕ Request)
      → JsMap.get s.entries e ≡ some old
      → IsKeyed requests
      → ((q : ℕ) (request : Request)
          → JsMap.get requests q ≡ some request
          → JsMap.get s.requests q ≡ some request)
      → in_flight ≡ running requests e
      → ((n : ℕ) → (e == n) ≡ false → running requests n ≡ running s.requests n)
      → IsTracked Accepted s
      → IsTracked Accepted (record s {
        entries = JsMap.put s.entries e (record old { revoked = revoked; in_flight = in_flight });
        requests = requests;
      })
  marked-IsTracked s e old revoked in_flight requests at keyed fewer here elsewhere t =
      let new = record old { revoked = revoked; in_flight = in_flight } in
      let same = λ (x : GrantEntry) (there : JsMap.get s.entries e ≡ some x).
        let eq : old ≡ x = some_inj.0 (sym at ∙ there) in
        let pair : (new.key ≡ x.key) × (new.subject ≡ x.subject) =
          (ap (λ (y : GrantEntry). y.key) eq, ap (λ (y : GrantEntry). y.subject) eq) in
        pair in
      record {
        keyed = keyed;
        past = λ q found there. t.past q found (fewer q found there);
        counted = λ n entry there. elim (get-put_cases s.entries e n new entry there) [
          | inl (at_e, now_new) ↦
              subst (λ (x : ℕ). entry.in_flight ≡ running requests x) at_e
                (ap (λ (x : GrantEntry). x.in_flight) (sym now_new) ∙ here)
          | inr (other, before) ↦ t.counted n entry before ∙ sym (elsewhere n other)
        ];
        unknown = λ n there. elim (Bool-cases (e == n)) [
          | inl at_e ↦ absurd (
              none-ne-some new (
                sym there
                ∙ subst (λ (x : ℕ). JsMap.get (JsMap.put s.entries e new) x ≡ some new)
                    ((nat_beq_iff e n).0 at_e) (get-put_self s.entries e new)))
          | inr other ↦
              elsewhere n other ∙ t.unknown n (sym (get-put_other s.entries e n new other) ∙ there)
        ];
        known = λ q found there.
            put-IsEntryOf Accepted s.entries e new found.entry found.key found.subject same
              (t.known q found (fewer q found there));
        slots = λ g slot there.
            put-IsEntryOf Accepted s.entries e new slot.entry g slot.subject same
              (t.slots g slot there);
        young = λ n entry there. elim (get-put_cases s.entries e n new entry there) [
          | inl (at_e, now_new) ↦ subst (λ (x : ℕ). x < s.registry.created) at_e (t.young e old at)
          | inr (other, before) ↦ t.young n entry before
        ];
        own = λ n entry there. elim (get-put_cases s.entries e n new entry there) [
          | inl (at_e, now_new) ↦ subst (HasOwnToken Accepted) now_new (t.own e old at)
          | inr (other, before) ↦ t.own n entry before
        ];
      }

  revoked-IsTracked :
      (s : Grants) (e : ℕ) → IsTracked Accepted s → IsTracked Accepted (on_unauthorized s e)
  unfolding on_unauthorized
  revoked-IsTracked s e t = elim (Option-cases (JsMap.get s.entries e)) [
    | inl none_yet ↦ rw none_yet t
    | inr (entry, at) ↦ rw at (
        marked-IsTracked s e entry true entry.in_flight s.requests at t.keyed
          (λ q request there. there) (t.counted e entry at) (λ n other. refl) t)
  ]

  finished-IsTracked :
      (s : Grants) (q : ℕ) (request : Request)
      → JsMap.get s.requests q ≡ some request
      → IsTracked Accepted s
      → IsTracked Accepted (finish_modern s q request)
  unfolding finish_modern
  finished-IsTracked s q request there t =
      let (entry, at, k, l) = t.known q request there in
      let new = counted_out request.is_counted entry in
      let requests = JsMap.delete s.requests q in
      let law = λ (n : ℕ). running-delete s.requests q request n t.keyed there in
      let here : new.in_flight ≡ running requests request.entry =
        ground (arith, law request.entry, t.counted request.entry entry at) in
      let kept =
        marked-IsTracked s request.entry entry entry.revoked new.in_flight requests at
          (IsKeyed-delete s.requests q t.keyed)
          (λ j found seen. (get-delete_kept s.requests q j found seen).1) here
          (λ n other. ground (arith, law n, other)) t in
      rw at (
        shrunk-IsTracked Accepted
          (record s { entries = JsMap.put s.entries request.entry new; requests = requests })
          (close_if_drained s.registry request.key request.entry new)
          (close_if_drained-IsWithin s.registry request.key request.entry new) kept)

  pub Step-IsTracked :
      {at_rest : Bool} (s t : Grants)
      → Step at_rest Accepted s t
      → IsTracked Accepted s
      → IsTracked Accepted t
  unfolding serve_modern
  Step-IsTracked _ _ (served s token surface is_counted now accepted) k =
      let key = grant_key surface token.grant_id in
      let r = acquire s.registry key token.subject now in
      with_entry-IsTracked Accepted s surface key token is_counted now r.0 r.1 accepted refl refl k
  Step-IsTracked _ _ (refused_by_zendesk s q request there counted) k =
      revoked-IsTracked s request.entry k
  Step-IsTracked _ _ (refused_at_rest s e at_rest) k = revoked-IsTracked s e k
  Step-IsTracked _ _ (finished s q request there) k = finished-IsTracked s q request there k
  Step-IsTracked _ _ (swept s idle now copied) k =
      shrunk-IsTracked Accepted s (sweep_one s.registry idle now copied)
        (sweep_one-IsWithin s.registry idle now copied) k
  Step-IsTracked _ _ (stopped s) k =
      shrunk-IsTracked Accepted s (close_all s.registry) (close_all-IsWithin s.registry) k

  pub no_grants-IsTracked : IsTracked Accepted no_grants
  unfolding no_grants JsMap.get
  no_grants-IsTracked = record {
    keyed = tt;
    past = λ q request there. absurd (none-ne-some request there);
    counted = λ e entry there. absurd (none-ne-some entry there);
    unknown = λ e there. refl;
    known = λ q request there. absurd (none-ne-some request there);
    slots = λ g slot there. absurd (none-ne-some slot there);
    young = λ e entry there. absurd (none-ne-some entry there);
    own = λ e entry there. absurd (none-ne-some entry there);
  }

module _ (verify_access_token : List ℕ → Option VerifiedAccessToken) (can_parse : String → Bool)
    (verify_bearer_token : Option (List ℕ) → (List ℕ → Option AuthInfo) → String → Option AuthInfo)
    (resource : Surface → String) where
  -- However requests, Zendesk's refusals, endings and sweeps interleave, a running request has an
  -- entry, the entry counts exactly the counted requests that run on it, and it holds the Zendesk
  -- token of an accepted access token of the request's own user and key (of surface and grant).
  pub request_acts_for_owner :
      {s : Grants} (at_rest : Bool) (q : ℕ) (request : Request)
      → Run
          (Step at_rest (Accepted verify_access_token can_parse verify_bearer_token resource))
          no_grants
          s
      → JsMap.get s.requests q ≡ some request
      → (entry : GrantEntry) × (surface : Surface) × (token : VerifiedAccessToken) × (JsMap.get
            s.entries request.entry
          ≡ some entry)
        × (entry.in_flight ≡ running s.requests request.entry)
        × (entry.zendesk_token ≡ token.zendesk_access_token)
        × Accepted verify_access_token can_parse verify_bearer_token resource surface token
        × (grant_key surface token.grant_id ≡ request.key)
        × (token.subject ≡ request.subject)
  request_acts_for_owner at_rest q request run found =
      let A = Accepted verify_access_token can_parse verify_bearer_token resource in
      let t =
        Run-keeps (IsTracked A) (Step-IsTracked A {at_rest = at_rest}) (no_grants-IsTracked A)
          run in
      let (entry, at, k, l) = t.known q request found in
      let (surface, token, accepted, key, owner, zd) = t.own request.entry entry at in
      (
        entry,
        surface,
        token,
        at,
        t.counted request.entry entry at,
        sym zd,
        accepted,
        key ∙ k,
        owner ∙ l,
      )
