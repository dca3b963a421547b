-- ===== src/GrantRegistry/Handout.antt =====
-- The entries that `acquire` of utils/grant-registry.ts hands out, over the life of a registry.
use zendesk_mcp_server.Base.{
  Run, at_start, then_step, ℕ, ◌≤◌, ◌<◌, String, ◌≡◌, refl, sym, ◌∙◌, inl, inr, false, ◌&&◌, Option,
  none, some, List, [], ◌∷◌, arith, eq_iff, nat_beq_iff, Bool-cases, Option-cases, ◌==◌, number_key,
  text_key,
}
use zendesk_mcp_server.Base.JsMap
use zendesk_mcp_server.Base.JsMap.{JsMap, IsKeyed, get-put, get-delete}
use zendesk_mcp_server.GrantRegistry.{
  Slot, Registry, create_grant_registry, drop_slot, acquire_slot, acquire, close, close_slot,
  is_same_entry, is_idle, sweep_slot, sweep_one, close_each, close_all,
}
use zendesk_mcp_server.GrantRegistry.Ownership.{
  Step, held, held-delete, IsOwned, acquired, closed_one, swept, closed_all, Run-IsOwned,
  create-IsOwned,
}

-- Whoever holds an entry.
record IsBound (e : ℕ) (g subject : String) (r : Registry) : Type 0 where
  old : e < r.created
  at :
      (j : String) (slot : Slot)
      → JsMap.get r.slots j ≡ some slot
      → slot.entry ≡ e
      → (j ≡ g) × (slot.subject ≡ subject)

drop_slot-IsBound :
    (r : Registry) (e : ℕ) (g subject k : String) (dropped : Slot)
    → IsBound e g subject r
    → IsBound e g subject (drop_slot r k dropped)
unfolding drop_slot
drop_slot-IsBound r e g subject k dropped b = record {
  old = b.old;
  at = λ j slot found same. b.at j slot (ground (arith, get-delete r.slots k j)) same;
}

refreshed-IsBound :
    (r : Registry) (e : ℕ) (g subject k : String) (now : ℕ) (old : Slot)
    → JsMap.get r.slots k ≡ some old
    → IsBound e g subject r
    → IsBound e g subject
        (record r { slots = JsMap.put r.slots k (record old { last_activity_at = now }) })
refreshed-IsBound r e g subject k now old h b = record {
  old = b.old;
  at = λ j slot found same.
      let law = get-put r.slots k j (record old { last_activity_at = now }) in
      elim (Bool-cases (k == j)) [
        | inl equal ↦
            let e1 : k ≡ j = (eq_iff k j).0 equal in
            let e2 : some (record old { last_activity_at = now }) ≡ some slot =
              (rw (law, equal) at found) in
            let (place, owner) = b.at k old h (ground arith) in (rw (← e1) place, ground arith)
        | inr other ↦ b.at j slot (rw (law, other) at found) same
      ];
}

acquire_slot-IsBound :
    (r : Registry) (e : ℕ) (g subject k other : String) (now : ℕ) (found : Option Slot)
    → JsMap.get r.slots k ≡ found
    → IsBound e g subject r
    → IsBound e g subject (acquire_slot r k other now found).0
acquire_slot-IsBound r e g subject k other now none h b = record {
  old = omega (arith, b.old);
  at = λ j slot found same.
      b.at j slot
        (ground (
          arith,
          b.old,
          get-put r.slots k j
              (record { subject = other; entry = r.created; last_activity_at = now }),
        ))
        same;
}
acquire_slot-IsBound r e g subject k other now (some old) h b =
    elim (Bool-cases (old.subject == other)) [
      | inl allowed ↦ rw allowed (refreshed-IsBound r e g subject k now old h b)
      | inr refused ↦ rw refused b
    ]

close_each-IsBound :
    (r : Registry) (e : ℕ) (g subject : String) (m : List (String × Slot))
    → IsBound e g subject r
    → IsBound e g subject (close_each r m)
unfolding close_each
close_each-IsBound r e g subject [] b = b
close_each-IsBound r e g subject ((k, slot) ∷ m) b =
    close_each-IsBound (drop_slot r k slot) e g subject m (drop_slot-IsBound r e g subject k slot b)

close_slot-IsBound :
    (r : Registry) (e : ℕ) (g subject k : String) (entry : Option ℕ) (found : Option Slot)
    → IsBound e g subject r
    → IsBound e g subject (close_slot r k entry found)
close_slot-IsBound r e g subject k entry none b = b
close_slot-IsBound r e g subject k entry (some slot) b =
    elim (Bool-cases (is_same_entry entry slot)) [
      | inl same ↦ rw same (drop_slot-IsBound r e g subject k slot b)
      | inr other ↦ rw other b
    ]

sweep_slot-IsBound :
    (r : Registry) (e : ℕ) (g subject : String) (idle now : ℕ) (k : String) (entry : ℕ)
    (found : Option Slot)
    → IsBound e g subject r
    → IsBound e g subject (sweep_slot r idle now k entry found)
sweep_slot-IsBound r e g subject idle now k entry none b = b
sweep_slot-IsBound r e g subject idle now k entry (some slot) b =
    elim (Bool-cases ((slot.entry == entry) && is_idle idle now slot)) [
      | inl gone ↦ rw gone (drop_slot-IsBound r e g subject k slot b)
      | inr kept ↦ rw kept b
    ]

Step-IsBound :
    {r s : Registry} (e : ℕ) (g subject : String)
    → Step r s
    → IsBound e g subject r
    → IsBound e g subject s
unfolding acquire close sweep_one close_all
Step-IsBound e g subject (acquired r k other now) b =
    acquire_slot-IsBound r e g subject k other now (JsMap.get r.slots k) refl b
Step-IsBound e g subject (closed_one r k entry) b =
    close_slot-IsBound r e g subject k entry (JsMap.get r.slots k) b
Step-IsBound e g subject (swept r idle now (k, entry)) b =
    sweep_slot-IsBound r e g subject idle now k entry (JsMap.get r.slots k) b
Step-IsBound e g subject (closed_all r) b = close_each-IsBound r e g subject r.slots b

Run-IsBound :
    {r s : Registry} (e : ℕ) (g subject : String)
    → IsBound e g subject r
    → Run Step r s
    → IsBound e g subject s
Run-IsBound e g subject b at_start = b
Run-IsBound e g subject b (then_step reach step) =
    Step-IsBound e g subject step (Run-IsBound e g subject b reach)

-- A slot that holds an entry counts for it, and two slots count twice.
held-pos :
    (m : JsMap String Slot) (g : String) (slot : Slot)
    → JsMap.get m g ≡ some slot
    → 0 < held m slot.entry
unfolding JsMap.get
held-pos [] g slot h = cc
held-pos ((k, s) ∷ m) g slot h = ground (arith, held-pos m g slot)

held-two :
    (m : JsMap String Slot) (g j : String) (slot other : Slot)
    → IsKeyed m
    → (g == j) ≡ false
    → JsMap.get m g ≡ some slot
    → JsMap.get m j ≡ some other
    → other.entry ≡ slot.entry
    → 2 ≤ held m slot.entry
held-two m g j slot other keyed apart h k same = ground (
  arith,
  held-delete m g slot slot.entry keyed h,
  held-pos (JsMap.delete m g) j other (rw (get-delete m g j, apart) k),
  nat_beq_iff slot.entry slot.entry,
)

-- The slot that a call of `acquire` leaves for its grant.
acquired_slot :
    (r : Registry) (g subject : String) (now e : ℕ)
    → (acquire r g subject now).1 ≡ some e
    → (slot : Slot) × (JsMap.get (acquire r g subject now).0.slots g ≡ some slot)
      × (slot.entry ≡ e)
      × (slot.subject ≡ subject)
unfolding acquire
acquired_slot r g subject now e h = elim (Option-cases (JsMap.get r.slots g)) [
  | inl missing ↦
      let slot : Slot = record { subject = subject; entry = r.created; last_activity_at = now } in
      (slot, ground (arith, get-put r.slots g g slot, eq_iff g g), ground arith, refl)
  | inr (old, there) ↦
      let slot : Slot = record old { last_activity_at = now } in
      (
        slot,
        ground (arith, get-put r.slots g g slot, eq_iff g g),
        ground arith,
        ground (arith, eq_iff old.subject subject),
      )
]

IsBound-of_slot :
    (r : Registry) (g : String) (slot : Slot)
    → IsOwned r
    → JsMap.get r.slots g ≡ some slot
    → IsBound slot.entry g slot.subject r
IsBound-of_slot r g slot o h =
    let lt : slot.entry < r.created =
      ground (arith, o.once slot.entry, held-pos r.slots g slot h) in
    record {
      old = lt;
      at = λ j other found same. elim (Bool-cases (g == j)) [
        | inl equal ↦
            let e1 : g ≡ j = (eq_iff g j).0 equal in
            let e2 : some slot ≡ some other = sym h ∙ (rw (← e1) at found) in (sym e1, ground arith)
        | inr apart ↦ absurd (
            ground (
              arith,
              held-two r.slots g j slot other o.keyed apart h found same,
              o.once slot.entry,
            ))
      ];
    }

-- An entry serves one grant and one subject for good: if two calls of `acquire`, with any calls
-- between them, return the same entry, they were made for the same grant and the same subject.
pub entry_of_one_subject :
    {r s : Registry} (g g' subject subject' : String) (now now' e : ℕ)
    → Run Step create_grant_registry r
    → (acquire r g subject now).1 ≡ some e
    → Run Step (acquire r g subject now).0 s
    → (acquire s g' subject' now').1 ≡ some e
    → (g' ≡ g) × (subject' ≡ subject)
entry_of_one_subject {r} {s} g g' subject subject' now now' e before first between second =
    let (slot, there, entry, owner) = acquired_slot r g subject now e first in
    let (slot', there', entry', owner') = acquired_slot s g' subject' now' e second in
    let owned = Run-IsOwned create-IsOwned (then_step before (acquired r g subject now)) in
    let bound = IsBound-of_slot (acquire r g subject now).0 g slot owned there in
    let kept =
      Run-IsBound slot.entry g slot.subject bound
        (then_step between (acquired s g' subject' now')) in
    let (same_grant, same_subject) = kept.at g' slot' there' (cc) in (same_grant, cc)
