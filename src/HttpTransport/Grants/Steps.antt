-- ===== src/HttpTransport/Grants/Steps.antt =====
-- The calls on the grants of transports/http.ts, and what each keeps.
use zendesk_mcp_server.Base.{
  ℕ, ◌+◌, String, ◌≡◌, refl, sym, ◌∙◌, ◌≢◌, ◌⊎◌, inl, inr, Bool, true, ◌&&◌, Option, none, some,
  List, [], ◌∷◌, arith, eq_iff, Bool-cases, ◌==◌, number_key, text_key,
}
use mathlib.Core.Option.{none-ne-some}
use zendesk_mcp_server.Base.JsMap
use zendesk_mcp_server.Base.JsMap.{JsMap, get-delete_kept, get-delete}
use zendesk_mcp_server.AuthServer.Revocation.{VerifiedAccessToken}
use zendesk_mcp_server.GrantRegistry.{
  Slot, Registry, drop_slot, acquire, acquire_slot, close, close_slot, is_same_entry, sweep_one,
  sweep_slot, is_idle, close_each, close_all,
}
use zendesk_mcp_server.HttpTransport.{Surface}
use zendesk_mcp_server.HttpTransport.Grants.{
  Request, Grants, serve_modern, on_unauthorized, finish_modern,
}

-- `at_rest` says whether Zendesk may refuse an entry's token with no counted request of the entry
-- running, as the polling of alerts does. A sweep waits between its rounds, so each of them is a step.
pub data Step (at_rest : Bool) (Accepted : Surface → VerifiedAccessToken → Type 0)
    : Grants → Grants → Type 0 where
  served :
      (s : Grants) (token : VerifiedAccessToken) (surface : Surface) (is_counted : Bool) (now : ℕ)
      → Accepted surface token
      → Step at_rest Accepted s (serve_modern s token surface is_counted now).0
  refused_by_zendesk :
      (s : Grants) (q : ℕ) (request : Request)
      → JsMap.get s.requests q ≡ some request
      → request.is_counted ≡ true
      → Step at_rest Accepted s (on_unauthorized s request.entry)
  refused_at_rest :
      (s : Grants) (e : ℕ) → at_rest ≡ true → Step at_rest Accepted s (on_unauthorized s e)
  finished :
      (s : Grants) (q : ℕ) (request : Request)
      → JsMap.get s.requests q ≡ some request
      → Step at_rest Accepted s (finish_modern s q request)
  swept :
      (s : Grants) (idle now : ℕ) (copied : String × ℕ)
      → Step at_rest Accepted s (record s { registry = sweep_one s.registry idle now copied })
  stopped : (s : Grants) → Step at_rest Accepted s (record s { registry = close_all s.registry })

-- A registry whose slots all stood in another one, entries and owners the same.
pub record IsWithin (small large : Registry) : Type 0 where
  pub slot :
      (g : String) (found : Slot)
      → JsMap.get small.slots g ≡ some found
      → JsMap.get large.slots g ≡ some found
  pub created : small.created ≡ large.created

pub IsWithin-refl : (r : Registry) → IsWithin r r
IsWithin-refl r = record { slot = λ g found there. there; created = refl }

drop_slot-IsWithin : (r : Registry) (g : String) (slot : Slot) → IsWithin (drop_slot r g slot) r
unfolding drop_slot
drop_slot-IsWithin r g slot = record {
  slot = λ j found there. (get-delete_kept r.slots g j found there).1;
  created = refl;
}

close_slot-IsWithin :
    (r : Registry) (g : String) (e : Option ℕ) (found : Option Slot)
    → IsWithin (close_slot r g e found) r
close_slot-IsWithin r g e none = IsWithin-refl r
close_slot-IsWithin r g e (some slot) = elim (Bool-cases (is_same_entry e slot)) [
  | inl same ↦ rw same (drop_slot-IsWithin r g slot)
  | inr other ↦ rw other (IsWithin-refl r)
]

pub close-IsWithin : (r : Registry) (g : String) (e : Option ℕ) → IsWithin (close r g e) r
unfolding close
close-IsWithin r g e = close_slot-IsWithin r g e (JsMap.get r.slots g)

sweep_slot-IsWithin :
    (r : Registry) (idle now : ℕ) (g : String) (e : ℕ) (found : Option Slot)
    → IsWithin (sweep_slot r idle now g e found) r
sweep_slot-IsWithin r idle now g e none = IsWithin-refl r
sweep_slot-IsWithin r idle now g e (some slot) =
    elim (Bool-cases ((slot.entry == e) && is_idle idle now slot)) [
      | inl gone ↦ rw gone (drop_slot-IsWithin r g slot)
      | inr kept ↦ rw kept (IsWithin-refl r)
    ]

pub sweep_one-IsWithin :
    (r : Registry) (idle now : ℕ) (copied : String × ℕ) → IsWithin (sweep_one r idle now copied) r
unfolding sweep_one
sweep_one-IsWithin r idle now (g, e) = sweep_slot-IsWithin r idle now g e (JsMap.get r.slots g)

IsWithin-trans : (a b c : Registry) → IsWithin a b → IsWithin b c → IsWithin a c
IsWithin-trans a b c x y = record {
  slot = λ g found there. y.slot g found (x.slot g found there);
  created = x.created ∙ y.created;
}

close_each-IsWithin : (r : Registry) (copy : List (String × Slot)) → IsWithin (close_each r copy) r
unfolding close_each
close_each-IsWithin r [] = IsWithin-refl r
close_each-IsWithin r ((g, slot) ∷ copy) =
    IsWithin-trans (close_each (drop_slot r g slot) copy) (drop_slot r g slot) r
      (close_each-IsWithin (drop_slot r g slot) copy) (drop_slot-IsWithin r g slot)

pub close_all-IsWithin : (r : Registry) → IsWithin (close_all r) r
unfolding close_all
close_all-IsWithin r = close_each-IsWithin r r.slots

close_slot_closes :
    (r : Registry) (g : String) (e : ℕ) (found : Option Slot) (slot : Slot)
    → JsMap.get r.slots g ≡ found
    → JsMap.get (close_slot r g (some e) found).slots g ≡ some slot
    → slot.entry ≢ e
unfolding drop_slot
close_slot_closes r g e none slot at there = absurd (none-ne-some slot (sym at ∙ there))
close_slot_closes r g e (some old) slot at there =
    ground (arith, get-delete r.slots g g, eq_iff g g, at, there)

-- What a closing of an entry leaves at its key.
pub close_closes :
    (r : Registry) (g : String) (e : ℕ) (slot : Slot)
    → JsMap.get (close r g (some e)).slots g ≡ some slot
    → slot.entry ≢ e
unfolding close
close_closes r g e slot there = close_slot_closes r g e (JsMap.get r.slots g) slot refl there

abbrev pub old_registry : Registry → String → ℕ → Slot → Registry
old_registry r g now slot = record r {
  slots = JsMap.put r.slots g (record slot { last_activity_at = now });
}

abbrev pub new_registry : Registry → String → String → ℕ → Registry
new_registry r g subject now = record r {
  slots =
      JsMap.put r.slots g (record { subject = subject; entry = r.created; last_activity_at = now });
  created = r.created + 1;
}

-- What `acquire` hands out: the entry of the slot at the key, or a new one.
abbrev pub Handed : Registry → String → String → ℕ → ℕ → Registry → Type 0
Handed r g subject now e r' =
    ((slot : Slot) × (JsMap.get r.slots g ≡ some slot)
      × (slot.entry ≡ e)
      × (slot.subject ≡ subject)
      × (r' ≡ old_registry r g now slot))
    ⊎ ((e ≡ r.created) × (r' ≡ new_registry r g subject now))

acquire_slot_cases :
    (r : Registry) (g subject : String) (now e : ℕ) (found : Option Slot) (r' : Registry)
    → JsMap.get r.slots g ≡ found
    → acquire_slot r g subject now found ≡ (r', some e)
    → Handed r g subject now e r'
acquire_slot_cases r g subject now e none r' at h = inr (ground arith, ground arith)
acquire_slot_cases r g subject now e (some slot) r' at h =
    let parts : (slot.entry ≡ e) × (slot.subject ≡ subject) × (r' ≡ old_registry r g now slot) =
      ground (arith, eq_iff slot.subject subject, h) in
    inl (slot, at, parts.0, parts.1, parts.2)

pub acquire_cases :
    (r : Registry) (g subject : String) (now e : ℕ) (r' : Registry)
    → acquire r g subject now ≡ (r', some e)
    → Handed r g subject now e r'
unfolding acquire
acquire_cases r g subject now e r' h =
    acquire_slot_cases r g subject now e (JsMap.get r.slots g) r' refl h

acquire_slot_refused :
    (r : Registry) (g subject : String) (now : ℕ) (found : Option Slot) (r' : Registry)
    → acquire_slot r g subject now found ≡ (r', none)
    → r' ≡ r
acquire_slot_refused r g subject now none r' h = ground arith
acquire_slot_refused r g subject now (some slot) r' h = ground arith

pub acquire_refused :
    (r : Registry) (g subject : String) (now : ℕ) (r' : Registry)
    → acquire r g subject now ≡ (r', none)
    → r' ≡ r
unfolding acquire
acquire_refused r g subject now r' h =
    acquire_slot_refused r g subject now (JsMap.get r.slots g) r' h
