-- ===== src/HttpTransport/Grants/Closed.antt =====
-- The entries of revoked grants, over the registry's own account of its closings.
use zendesk_mcp_server.Base.{
  ℕ, String, ◌≡◌, refl, sym, ◌∙◌, ◌≢◌, inl, inr, Bool, true, false, ◌&&◌, Option, none, some, List,
  [], ◌∷◌, arith, eq_iff, Bool-cases, Option-cases, ◌==◌, number_key, text_key, Run, at_start,
  then_step, Run-keeps,
}
use mathlib.Core.Path.{subst}
use zendesk_mcp_server.Base.JsMap
use zendesk_mcp_server.Base.JsMap.{JsMap, IsKeyed}
use zendesk_mcp_server.AuthServer.Revocation.{VerifiedAccessToken}
use zendesk_mcp_server.GrantRegistry.{Slot, Registry, create_grant_registry, acquire}
use zendesk_mcp_server.GrantRegistry.Ownership
use zendesk_mcp_server.GrantRegistry.Ownership.{
  held, closings, acquired, closed_one, closed_all, Run-IsOwned, create-IsOwned,
}
use zendesk_mcp_server.HttpTransport.{Surface, AuthInfo}
use zendesk_mcp_server.HttpTransport.Sessions.Owners.{Accepted}
use zendesk_mcp_server.HttpTransport.Grants.{
  GrantEntry, Grants, no_grants, grant_key, with_entry, serve_modern, on_unauthorized, counted_out,
  finish_modern,
}
use zendesk_mcp_server.HttpTransport.Grants.Steps.{
  Step, served, refused_by_zendesk, refused_at_rest, finished, swept, stopped,
}
use zendesk_mcp_server.HttpTransport.Grants.Entries.{running}
use zendesk_mcp_server.HttpTransport.Grants.Drained.{Run-IsDrained}

held-absent :
    (m : JsMap String Slot) (e : ℕ)
    → IsKeyed m
    → ((g : String) (slot : Slot) → JsMap.get m g ≡ some slot → slot.entry ≢ e)
    → held m e ≡ 0
unfolding JsMap.get
held-absent [] e keyed h = refl
held-absent ((j, slot) ∷ m) e (absent, keyed) h =
    let first : slot.entry ≢ e = h j slot (ground (arith, eq_iff j j)) in
    let rest : held m e ≡ 0 =
      held-absent m e keyed
        (λ g found there. h g found (ground (arith, eq_iff j g, absent, there))) in
    ground (arith, first, rest)

with_entry-registry :
    (s : Grants) (key : String) (token : VerifiedAccessToken) (is_counted : Bool)
    (found : Registry × Option ℕ)
    → (with_entry s key token is_counted found).0.registry ≡ found.0
with_entry-registry s key token is_counted (r, none) = refl
with_entry-registry s key token is_counted (r, some e) = refl

on_unauthorized-registry : (s : Grants) (e : ℕ) → (on_unauthorized s e).registry ≡ s.registry
unfolding on_unauthorized
on_unauthorized-registry s e = elim (Option-cases (JsMap.get s.entries e)) [
  | inl none_yet ↦ rw none_yet refl
  | inr (entry, at) ↦ rw at refl
]

module _ {at_rest : Bool} {Accepted : Surface → VerifiedAccessToken → Type 0} where
  Step-registry :
      (s u : Grants)
      → Step at_rest Accepted s u
      → Run Ownership.Step create_grant_registry s.registry
      → Run Ownership.Step create_grant_registry u.registry
  unfolding serve_modern finish_modern
  Step-registry _ _ (served s token surface is_counted now accepted) run =
      let key = grant_key surface token.grant_id in
      subst (λ (r : Registry). Run Ownership.Step create_grant_registry r)
        (sym
          (with_entry-registry s key token is_counted (acquire s.registry key token.subject now)))
        (then_step run (acquired s.registry key token.subject now))
  Step-registry _ _ (refused_by_zendesk s q request there counted) run =
      rw (on_unauthorized-registry s request.entry) run
  Step-registry _ _ (refused_at_rest s e at_rest) run = rw (on_unauthorized-registry s e) run
  Step-registry _ _ (finished s q request there) run =
      elim (Option-cases (JsMap.get s.entries request.entry)) [
        | inl none_yet ↦ rw none_yet run
        | inr (entry, at) ↦
            let new = counted_out request.is_counted entry in
            rw at (elim (Bool-cases (new.revoked && (new.in_flight == 0))) [
              | inl drained ↦
                  rw drained
                    (then_step run (closed_one s.registry request.key (some request.entry)))
              | inr kept ↦ rw kept run
            ])
      ]
  Step-registry _ _ (swept s idle now copied) run =
      then_step run (Ownership.swept s.registry idle now copied)
  Step-registry _ _ (stopped s) run = then_step run (closed_all s.registry)

  Run-registry :
      {s : Grants}
      → Run (Step at_rest Accepted) no_grants s
      → Run Ownership.Step create_grant_registry s.registry
  unfolding no_grants
  Run-registry =
      Run-keeps (λ s. Run Ownership.Step create_grant_registry s.registry) Step-registry at_start

module _ (verify_access_token : List ℕ → Option VerifiedAccessToken) (can_parse : String → Bool)
    (verify_bearer_token : Option (List ℕ) → (List ℕ → Option AuthInfo) → String → Option AuthInfo)
    (resource : Surface → String) where
  -- Where Zendesk refuses an entry's token only while a counted request of the entry runs, an entry
  -- so refused is closed by the time that no counted request runs on it, however requests, refusals,
  -- endings and sweeps interleave: no slot of the registry holds it, so no later request gets it, and
  -- it was closed exactly once.
  pub revoked_entry_closed :
      {s : Grants} (e : ℕ) (entry : GrantEntry)
      → Run
          (Step false (Accepted verify_access_token can_parse verify_bearer_token resource))
          no_grants
          s
      → JsMap.get s.entries e ≡ some entry
      → entry.revoked ≡ true
      → running s.requests e ≡ 0
      → ((g : String) (slot : Slot) → JsMap.get s.registry.slots g ≡ some slot → slot.entry ≢ e)
        × (closings s.registry.closed e ≡ 1)
  revoked_entry_closed {s} e entry run at revoked none_running =
      let A = Accepted verify_access_token can_parse verify_bearer_token resource in
      let (t, d) = Run-IsDrained A run in
      let free = d e entry at revoked (t.counted e entry at ∙ none_running) in
      let owned = Run-IsOwned create-IsOwned (Run-registry run) in
      let absent : held s.registry.slots e ≡ 0 = held-absent s.registry.slots e owned.keyed free in
      (free, ground (arith, owned.once e, absent, t.young e entry at))
