-- ===== src/HttpTransport/Grants/Taken.antt =====
-- A request that transports/http.ts takes up on a grant's entry keeps the entries tracked.
use zendesk_mcp_server.Base.{
  ℕ, ◌≤◌, ◌<◌, String, ◌≡◌, refl, sym, ap, ◌∙◌, ◌⊎◌, inl, inr, Bool, Option, none, some, arith,
  nat_beq_iff, Bool-cases, Option-cases, ◌==◌, number_key, text_key,
}
use mathlib.Core.Option.{none-ne-some}
use mathlib.Core.Path.{subst}
use zendesk_mcp_server.Base.JsMap
use zendesk_mcp_server.Base.JsMap.{
  JsMap, IsKeyed, IsKeyed-put, get-put_cases, get-put_self, get-put_other, delete_absent,
}
use zendesk_mcp_server.AuthServer.Revocation.{VerifiedAccessToken}
use zendesk_mcp_server.GrantRegistry.{Slot, Registry, acquire}
use zendesk_mcp_server.HttpTransport.{Surface}
use zendesk_mcp_server.HttpTransport.Grants.{
  GrantEntry, Request, Grants, grant_key, create_grant_entry, or_created, taken_up, with_entry,
}
use zendesk_mcp_server.HttpTransport.Grants.Steps.{acquire_cases, acquire_refused}
use zendesk_mcp_server.HttpTransport.Grants.Entries.{
  running, running-put_fresh, HasOwnToken, IsEntryOf, IsTracked, put-IsEntryOf,
}

module _ (Accepted : Surface → VerifiedAccessToken → Type 0) where
  module _ (s : Grants) (t : IsTracked Accepted s) (key : String) (token : VerifiedAccessToken)
      (e : ℕ) where
    abbrev base : GrantEntry
    base = or_created key token (JsMap.get s.entries e)

    base_running : base.in_flight ≡ running s.requests e
    unfolding create_grant_entry
    base_running = elim (Option-cases (JsMap.get s.entries e)) [
      | inl none_yet ↦ rw none_yet (sym (t.unknown e none_yet))
      | inr (old, at) ↦ rw at (t.counted e old at)
    ]

    base_of :
        (old : GrantEntry)
        → JsMap.get s.entries e ≡ some old
        → (base.key ≡ old.key) × (base.subject ≡ old.subject)
    base_of old at = rw at (refl, refl)

    -- A request is taken up on an entry that `acquire` handed out.
    taken-IsTracked :
        (surface : Surface) (is_counted : Bool) (r : Registry)
        → Accepted surface token
        → grant_key surface token.grant_id ≡ key
        → base.key ≡ key
        → base.subject ≡ token.subject
        → s.registry.created ≤ r.created
        → e < r.created
        → ((g : String) (slot : Slot)
            → JsMap.get r.slots g ≡ some slot
            → (JsMap.get s.registry.slots g ≡ some slot)
              ⊎ ((g ≡ key) × (slot.entry ≡ e) × (slot.subject ≡ token.subject)))
        → IsTracked Accepted (with_entry s key token is_counted (r, some e)).0
    taken-IsTracked surface is_counted r accepted k bk bs more young slots =
        let new = taken_up token is_counted base in
        let request : Request = record {
          entry = e;
          key = key;
          subject = token.subject;
          is_counted = is_counted;
        } in
        let fresh : JsMap.get s.requests s.asked ≡ none =
          elim (Option-cases (JsMap.get s.requests s.asked)) [
            | inl none_yet ↦ none_yet
            | inr (old, at) ↦ absurd (omega (arith, t.past s.asked old at))
          ] in
        let law = λ (n : ℕ). running-put_fresh s.requests s.asked request n fresh in
        let here : new.in_flight ≡ running (JsMap.put s.requests s.asked request) e =
          ground (arith, law e, base_running) in
        record {
          keyed = IsKeyed-put s.requests s.asked request t.keyed;
          past = λ q found there. elim (get-put_cases s.requests s.asked q request found there) [
            | inl (same, now_new) ↦ omega arith
            | inr (other, before) ↦ omega (arith, t.past q found before)
          ];
          counted = λ n entry there. elim (get-put_cases s.entries e n new entry there) [
            | inl (same, now_new) ↦
                subst
                  (λ (x : ℕ). entry.in_flight ≡ running (JsMap.put s.requests s.asked request) x)
                  same (ap (λ (x : GrantEntry). x.in_flight) (sym now_new) ∙ here)
            | inr (other, before) ↦ ground (arith, law n, t.counted n entry before, other)
          ];
          unknown = λ n there. elim (Bool-cases (e == n)) [
            | inl same ↦ absurd (
                none-ne-some new (
                  sym there
                  ∙ subst (λ (x : ℕ). JsMap.get (JsMap.put s.entries e new) x ≡ some new)
                      ((nat_beq_iff e n).0 same) (get-put_self s.entries e new)))
            | inr other ↦
                let gone : running s.requests n ≡ 0 =
                  t.unknown n (sym (get-put_other s.entries e n new other) ∙ there) in
                ground (arith, law n, gone, other)
          ];
          known = λ q found there. elim (get-put_cases s.requests s.asked q request found there) [
            | inl (same, now_new) ↦
                subst
                  (λ (x : Request).
                    IsEntryOf Accepted (JsMap.put s.entries e new) x.entry x.key x.subject)
                  now_new (new, get-put_self s.entries e new, bk, bs)
            | inr (other, before) ↦
                put-IsEntryOf Accepted s.entries e new found.entry found.key found.subject base_of
                  (t.known q found before)
          ];
          slots = λ g slot there. elim (slots g slot there) [
            | inl before ↦
                put-IsEntryOf Accepted s.entries e new slot.entry g slot.subject base_of
                  (t.slots g slot before)
            | inr (a, b, c) ↦ (
              new,
              subst (λ (x : ℕ). JsMap.get (JsMap.put s.entries e new) x ≡ some new) (sym b)
                  (get-put_self s.entries e new),
              bk ∙ sym a,
              bs ∙ sym c,
            )
          ];
          young = λ n entry there. elim (get-put_cases s.entries e n new entry there) [
            | inl (same, now_new) ↦ rw (← same) young
            | inr (other, before) ↦ omega (arith, t.young n entry before)
          ];
          own = λ n entry there. elim (get-put_cases s.entries e n new entry there) [
            | inl (same, now_new) ↦
                subst (HasOwnToken Accepted) now_new
                  (surface, token, accepted, k ∙ sym bk, sym bs, refl)
            | inr (other, before) ↦ t.own n entry before
          ];
        }

  -- What `acquire` hands out is taken up.
  pub with_entry-IsTracked :
      (s : Grants) (surface : Surface) (key : String) (token : VerifiedAccessToken)
      (is_counted : Bool) (now : ℕ) (r : Registry) (found : Option ℕ)
      → Accepted surface token
      → grant_key surface token.grant_id ≡ key
      → acquire s.registry key token.subject now ≡ (r, found)
      → IsTracked Accepted s
      → IsTracked Accepted (with_entry s key token is_counted (r, found)).0
  unfolding create_grant_entry
  with_entry-IsTracked s surface key token is_counted now r none accepted k got t =
      subst (λ (x : Registry). IsTracked Accepted (record s { registry = x }))
        (sym (acquire_refused s.registry key token.subject now r got)) t
  with_entry-IsTracked s surface key token is_counted now r (some e) accepted k got t =
      elim (acquire_cases s.registry key token.subject now e r got) [
        | inl (slot, at, a, b, c) ↦
            let (entry, there, ek, es) = t.slots key slot at in
            let there' : JsMap.get s.entries e ≡ some entry =
              subst (λ (x : ℕ). JsMap.get s.entries x ≡ some entry) a there in
            taken-IsTracked s t key token e surface is_counted r accepted k (rw there' ek)
              (rw there' (es ∙ b)) (rw c (omega arith))
              (rw c (subst (λ (x : ℕ). x < s.registry.created) a (t.young slot.entry entry there)))
              (λ g found seen.
                elim (get-put_cases s.registry.slots key g (record slot { last_activity_at = now })
                  found (rw c at seen)) [
                    | inl (same, now_new) ↦ inr (
                      sym same,
                      ap (λ (x : Slot). x.entry) (sym now_new) ∙ a,
                      ap (λ (x : Slot). x.subject) (sym now_new) ∙ b,
                    )
                    | inr (other, before) ↦ inl before
                  ])
        | inr (a, c) ↦
            let none_yet : JsMap.get s.entries e ≡ none =
              elim (Option-cases (JsMap.get s.entries e)) [
                | inl h ↦ h
                | inr (old, at) ↦ absurd (omega (arith, t.young e old at, a))
              ] in
            taken-IsTracked s t key token e surface is_counted r accepted k (rw none_yet refl)
              (rw none_yet refl) (rw c (omega arith)) (rw c (omega (arith, a)))
              (λ g found seen.
                elim (get-put_cases s.registry.slots key g
                  (record {
                    subject = token.subject;
                    entry = s.registry.created;
                    last_activity_at = now;
                  })
                  found (rw c at seen)) [
                    | inl (same, now_new) ↦ inr (
                      sym same,
                      ap (λ (x : Slot). x.entry) (sym now_new) ∙ sym a,
                      ap (λ (x : Slot). x.subject) (sym now_new),
                    )
                    | inr (other, before) ↦ inl before
                  ])
      ]
