-- ===== src/HttpTransport/Grants/Drained.antt =====
-- When the entries of revoked grants close (transports/http.ts).
use zendesk_mcp_server.Base.{
  ℕ, String, ◌≡◌, refl, sym, ap, ◌∙◌, ◌≢◌, inl, inr, Bool, true, false, ◌&&◌, Option, none, some,
  arith, Option-cases, ◌==◌, number_key, text_key, Run, Run-keeps,
}
use mathlib.Core.Option.{some_inj, none-ne-some}
use mathlib.Core.Path.{subst}
use zendesk_mcp_server.Base.JsMap
use zendesk_mcp_server.Base.JsMap.{JsMap, get-put_cases}
use zendesk_mcp_server.AuthServer.Revocation.{VerifiedAccessToken}
use zendesk_mcp_server.GrantRegistry.{Slot, Registry, acquire, close, sweep_one, close_all}
use zendesk_mcp_server.HttpTransport.{Surface}
use zendesk_mcp_server.HttpTransport.Grants.{
  GrantEntry, Request, Grants, no_grants, grant_key, create_grant_entry, or_created, taken_up,
  with_entry, serve_modern, on_unauthorized, counted_out, finish_modern,
}
use zendesk_mcp_server.HttpTransport.Grants.Steps.{
  Step, served, refused_by_zendesk, refused_at_rest, finished, swept, stopped, IsWithin,
  sweep_one-IsWithin, close_all-IsWithin, close_closes, acquire_cases, acquire_refused,
}
use zendesk_mcp_server.HttpTransport.Grants.Entries.{running-delete, IsTracked}
use zendesk_mcp_server.HttpTransport.Grants.Tracked.{
  close_if_drained-IsWithin, Step-IsTracked, no_grants-IsTracked,
}

-- No slot holds a revoked entry whose counted requests have ended.
abbrev pub IsDrained : Grants → Type 0
IsDrained s =
    (e : ℕ) (entry : GrantEntry)
    → JsMap.get s.entries e ≡ some entry
    → entry.revoked ≡ true
    → entry.in_flight ≡ 0
    → (g : String) (slot : Slot) → JsMap.get s.registry.slots g ≡ some slot
    → slot.entry ≢ e

shrunk-IsDrained :
    (s : Grants) (r : Registry)
    → IsWithin r s.registry
    → IsDrained s
    → IsDrained (record s { registry = r })
shrunk-IsDrained s r within d =
    λ e entry at gone idle g slot there. d e entry at gone idle g slot (within.slot g slot there)

module _ (Accepted : Surface → VerifiedAccessToken → Type 0) where
  refused-IsDrained :
      (s : Grants) (q : ℕ) (request : Request)
      → JsMap.get s.requests q ≡ some request
      → request.is_counted ≡ true
      → IsTracked Accepted s
      → IsDrained s
      → IsDrained (on_unauthorized s request.entry)
  unfolding on_unauthorized
  refused-IsDrained s q request there counted t d =
      let (entry, at, k, l) = t.known q request there in
      let busy : entry.in_flight ≢ 0 = ground (
        arith,
        t.counted request.entry entry at,
        running-delete s.requests q request request.entry t.keyed there,
      ) in
      rw at (λ e found seen gone idle g slot place.
        elim (get-put_cases s.entries request.entry e (record entry { revoked = true }) found
          seen) [
            | inl (same, now_new) ↦
                absurd (busy (ap (λ (x : GrantEntry). x.in_flight) now_new ∙ idle))
            | inr (other, before) ↦ d e found before gone idle g slot place
          ])

  with_entry-IsDrained :
      (s : Grants) (key : String) (token : VerifiedAccessToken) (is_counted : Bool) (now : ℕ)
      (r : Registry) (found : Option ℕ)
      → acquire s.registry key token.subject now ≡ (r, found)
      → IsTracked Accepted s
      → IsDrained s
      → IsDrained (with_entry s key token is_counted (r, found)).0
  unfolding create_grant_entry
  with_entry-IsDrained s key token is_counted now r none got t d =
      subst (λ (x : Registry). IsDrained (record s { registry = x }))
        (sym (acquire_refused s.registry key token.subject now r got)) d
  with_entry-IsDrained s key token is_counted now r (some e) got t d =
      λ n entry at gone idle g slot place.
        let base = or_created key token (JsMap.get s.entries e) in
        elim (get-put_cases s.entries e n (taken_up token is_counted base) entry at) [
          | inl (same, now_new) ↦
              let gone' : base.revoked ≡ true = ap (λ (x : GrantEntry). x.revoked) now_new ∙ gone in
              let idle' : base.in_flight ≡ 0 =
                omega (arith, ap (λ (x : GrantEntry). x.in_flight) now_new, idle) in
              elim (acquire_cases s.registry key token.subject now e r got) [
                | inl (old_slot, old_at, a, b, c) ↦
                    let (old, there, ek, es) = t.slots key old_slot old_at in
                    let there' : JsMap.get s.entries e ≡ some old =
                      subst (λ (x : ℕ). JsMap.get s.entries x ≡ some old) a there in
                    absurd (
                      d e old there' (rw there' at gone') (rw there' at idle') key old_slot old_at
                        a)
                | inr (a, c) ↦ elim (Option-cases (JsMap.get s.entries e)) [
                  | inl none_yet ↦ let impossible : false ≡ true = (rw none_yet at gone') in cc
                  | inr (old, old_at) ↦ absurd (omega (arith, t.young e old old_at, a))
                ]
              ]
          | inr (other, before) ↦
              let elsewhere : e ≢ n = ground (arith, other) in
              elim (acquire_cases s.registry key token.subject now e r got) [
                | inl (old_slot, old_at, a, b, c) ↦
                    elim (get-put_cases s.registry.slots key g
                      (record old_slot { last_activity_at = now }) slot (rw c at place)) [
                        | inl (same, now_new) ↦ λ (at_n : slot.entry ≡ n).
                            elsewhere (sym a ∙ ap (λ (x : Slot). x.entry) now_new ∙ at_n)
                        | inr (away, old_place) ↦ d n entry before gone idle g slot old_place
                      ]
                | inr (a, c) ↦
                    elim (get-put_cases s.registry.slots key g
                      (record {
                        subject = token.subject;
                        entry = s.registry.created;
                        last_activity_at = now;
                      })
                      slot (rw c at place)) [
                        | inl (same, now_new) ↦ λ (at_n : slot.entry ≡ n).
                            elsewhere (a ∙ ap (λ (x : Slot). x.entry) now_new ∙ at_n)
                        | inr (away, old_place) ↦ d n entry before gone idle g slot old_place
                      ]
              ]
        ]

  finished-IsDrained :
      (s : Grants) (q : ℕ) (request : Request)
      → JsMap.get s.requests q ≡ some request
      → IsTracked Accepted s
      → IsDrained s
      → IsDrained (finish_modern s q request)
  unfolding finish_modern
  finished-IsDrained s q request there t d =
      let (entry, at, k, l) = t.known q request there in
      let new = counted_out request.is_counted entry in
      let within = close_if_drained-IsWithin s.registry request.key request.entry new in
      rw at (λ e found seen gone idle g slot place.
        let before_place : JsMap.get s.registry.slots g ≡ some slot = within.slot g slot place in
        elim (get-put_cases s.entries request.entry e new found seen) [
          | inl (same, now_new) ↦ λ (at_e : slot.entry ≡ e).
              let (entry', at', k', l') = t.slots g slot before_place in
              let home : entry' ≡ entry =
                some_inj.0 (sym at' ∙ ap (JsMap.get s.entries) (at_e ∙ sym same) ∙ at) in
              let g≡key : g ≡ request.key = sym k' ∙ ap (λ (x : GrantEntry). x.key) home ∙ k in
              let drained : (new.revoked && (new.in_flight == 0)) ≡ true = ground (
                arith,
                ap (λ (x : GrantEntry). x.revoked) now_new ∙ gone,
                ap (λ (x : GrantEntry). x.in_flight) now_new ∙ idle,
              ) in
              let place' : JsMap.get (close s.registry request.key (some request.entry)).slots
                    request.key
                  ≡ some slot =
                subst
                  (λ (x : String).
                    JsMap.get (close s.registry request.key (some request.entry)).slots x
                    ≡ some slot)
                  g≡key (rw drained at place) in
              close_closes s.registry request.key request.entry slot place' (at_e ∙ sym same)
          | inr (other, before) ↦ d e found before gone idle g slot before_place
        ])

  Step-IsDrained :
      (s u : Grants) → Step false Accepted s u → IsTracked Accepted s → IsDrained s → IsDrained u
  unfolding serve_modern
  Step-IsDrained _ _ (served s token surface is_counted now accepted) t d =
      let r = acquire s.registry (grant_key surface token.grant_id) token.subject now in
      with_entry-IsDrained s (grant_key surface token.grant_id) token is_counted now r.0 r.1 refl t
        d
  Step-IsDrained _ _ (refused_by_zendesk s q request there counted) t d =
      refused-IsDrained s q request there counted t d
  Step-IsDrained _ _ (refused_at_rest s e at_rest) t d =
      let impossible : false ≡ true = at_rest in cc
  Step-IsDrained _ _ (finished s q request there) t d = finished-IsDrained s q request there t d
  Step-IsDrained _ _ (swept s idle now copied) t d =
      shrunk-IsDrained s (sweep_one s.registry idle now copied)
        (sweep_one-IsWithin s.registry idle now copied) d
  Step-IsDrained _ _ (stopped s) t d =
      shrunk-IsDrained s (close_all s.registry) (close_all-IsWithin s.registry) d

  no_grants-IsDrained : IsDrained no_grants
  unfolding no_grants JsMap.get
  no_grants-IsDrained = λ e entry at gone idle g slot place. absurd (none-ne-some entry at)

  pub Run-IsDrained :
      {s : Grants} → Run (Step false Accepted) no_grants s → IsTracked Accepted s × IsDrained s
  Run-IsDrained =
      Run-keeps (λ s. IsTracked Accepted s × IsDrained s)
        (λ s u step (t, d). (Step-IsTracked Accepted s u step t, Step-IsDrained s u step t d))
        (no_grants-IsTracked Accepted, no_grants-IsDrained)
