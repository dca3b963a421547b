-- ===== src/GrantRegistry/Ownership.antt =====
-- The slots and the closings of utils/grant-registry.ts, under any order of calls.
use zendesk_mcp_server.Base.{
  Run, Run-keeps, ℕ, ◌+◌, ◌<◌, String, ◌≡◌, refl, inl, inr, Bool, true, false, ◌&&◌, Option, none,
  some, List, [], ◌∷◌, arith, eq_iff, ltb, Bool-cases, ◌==◌, number_key, text_key,
}
use zendesk_mcp_server.Base.JsMap
use zendesk_mcp_server.Base.JsMap.{JsMap, IsKeyed, IsKeyed-put, IsKeyed-delete, delete_absent}
use zendesk_mcp_server.GrantRegistry.{
  Slot, Registry, create_grant_registry, drop_slot, acquire_slot, acquire, close, close_slot,
  is_same_entry, is_idle, sweep_slot, sweep_one, close_each, close_all,
}

abbrev pub bit : Bool → ℕ
bit true = 1
bit false = 0

-- how many slots hold an entry, and how often it was closed
abbrev pub held : JsMap String Slot → ℕ → ℕ
held [] e = 0
held ((g, slot) ∷ m) e = bit (slot.entry == e) + held m e

abbrev pub closings : List ℕ → ℕ → ℕ
closings [] e = 0
closings (c ∷ cs) e = bit (c == e) + closings cs e

pub record IsOwned (r : Registry) : Type 0 where
  pub keyed : IsKeyed r.slots
  pub once : (e : ℕ) → held r.slots e + closings r.closed e ≡ bit (ltb e r.created)

held-put_fresh :
    (m : JsMap String Slot) (g : String) (slot : Slot) (e : ℕ)
    → JsMap.get m g ≡ none
    → held (JsMap.put m g slot) e ≡ held m e + bit (slot.entry == e)
unfolding JsMap.put JsMap.get
held-put_fresh [] g slot e h = omega arith
held-put_fresh ((j, s) ∷ m) g slot e h = ground (arith, held-put_fresh m g slot e)

held-put_same :
    (m : JsMap String Slot) (g : String) (slot : Slot) (now e : ℕ)
    → JsMap.get m g ≡ some slot
    → held (JsMap.put m g (record slot { last_activity_at = now })) e ≡ held m e
unfolding JsMap.put JsMap.get
held-put_same [] g slot now e h = cc
held-put_same ((j, s) ∷ m) g slot now e h = ground (arith, held-put_same m g slot now e)

pub held-delete :
    (m : JsMap String Slot) (g : String) (slot : Slot) (e : ℕ)
    → IsKeyed m
    → JsMap.get m g ≡ some slot
    → held (JsMap.delete m g) e + bit (slot.entry == e) ≡ held m e
unfolding JsMap.get JsMap.delete
held-delete [] g slot e keyed h = cc
held-delete ((j, s) ∷ m) g slot e keyed h =
    ground (arith, held-delete m g slot e keyed.1, delete_absent m g, eq_iff j g)

drop_slot-IsOwned :
    (r : Registry) (g : String) (slot : Slot)
    → JsMap.get r.slots g ≡ some slot
    → IsOwned r
    → IsOwned (drop_slot r g slot)
unfolding drop_slot
drop_slot-IsOwned r g slot h o = record {
  keyed = IsKeyed-delete r.slots g o.keyed;
  once = λ e. omega (arith, held-delete r.slots g slot e o.keyed h, o.once e);
}

acquire_slot-IsOwned :
    (r : Registry) (g subject : String) (now : ℕ) (found : Option Slot)
    → JsMap.get r.slots g ≡ found
    → IsOwned r
    → IsOwned (acquire_slot r g subject now found).0
acquire_slot-IsOwned r g subject now none h o = record {
  keyed = IsKeyed-put r.slots g _ o.keyed;
  once = λ e. ground (
    arith,
    o.once e,
    held-put_fresh r.slots g
        (record { subject = subject; entry = r.created; last_activity_at = now }) e h,
  );
}
acquire_slot-IsOwned r g subject now (some slot) h o = elim (Bool-cases (slot.subject == subject)) [
  | inl same ↦ rw same (record {
    keyed = IsKeyed-put r.slots g _ o.keyed;
    once = λ e. omega (arith, held-put_same r.slots g slot now e h, o.once e);
  })
  | inr other ↦ rw other o
]

acquire-IsOwned :
    (r : Registry) (g subject : String) (now : ℕ) → IsOwned r → IsOwned (acquire r g subject now).0
unfolding acquire
acquire-IsOwned r g subject now o =
    acquire_slot-IsOwned r g subject now (JsMap.get r.slots g) refl o

close_slot-IsOwned :
    (r : Registry) (g : String) (entry : Option ℕ) (found : Option Slot)
    → JsMap.get r.slots g ≡ found
    → IsOwned r
    → IsOwned (close_slot r g entry found)
close_slot-IsOwned r g entry none h o = o
close_slot-IsOwned r g entry (some slot) h o = elim (Bool-cases (is_same_entry entry slot)) [
  | inl same ↦ rw same (drop_slot-IsOwned r g slot h o)
  | inr other ↦ rw other o
]

close-IsOwned :
    (r : Registry) (g : String) (entry : Option ℕ) → IsOwned r → IsOwned (close r g entry)
unfolding close
close-IsOwned r g entry o = close_slot-IsOwned r g entry (JsMap.get r.slots g) refl o

sweep_slot-IsOwned :
    (r : Registry) (idle now : ℕ) (g : String) (entry : ℕ) (found : Option Slot)
    → JsMap.get r.slots g ≡ found
    → IsOwned r
    → IsOwned (sweep_slot r idle now g entry found)
sweep_slot-IsOwned r idle now g entry none h o = o
sweep_slot-IsOwned r idle now g entry (some slot) h o =
    elim (Bool-cases ((slot.entry == entry) && is_idle idle now slot)) [
      | inl gone ↦ rw gone (drop_slot-IsOwned r g slot h o)
      | inr kept ↦ rw kept o
    ]

sweep_one-IsOwned :
    (r : Registry) (idle now : ℕ) (s : String × ℕ) → IsOwned r → IsOwned (sweep_one r idle now s)
unfolding sweep_one
sweep_one-IsOwned r idle now (g, entry) o =
    sweep_slot-IsOwned r idle now g entry (JsMap.get r.slots g) refl o

-- Closing every slot of the map drops them from the front.
delete-front :
    (g : String) (slot : Slot) (m : JsMap String Slot)
    → JsMap.get m g ≡ none
    → JsMap.delete ((g, slot) ∷ m) g ≡ m
unfolding JsMap.delete
delete-front g slot m h = ground (arith, delete_absent m g h, eq_iff g g)

get-front :
    (g : String) (slot : Slot) (m : JsMap String Slot) → JsMap.get ((g, slot) ∷ m) g ≡ some slot
unfolding JsMap.get
get-front g slot m = ground (arith, eq_iff g g)

close_each-IsOwned :
    (r : Registry) (m : JsMap String Slot)
    → r.slots ≡ m
    → IsOwned r
    → IsOwned (close_each r m) × ((close_each r m).slots ≡ [])
unfolding close_each
close_each-IsOwned r [] h o = (o, h)
close_each-IsOwned r ((g, slot) ∷ m) h o =
    let there : JsMap.get r.slots g ≡ some slot = rw h (get-front g slot m) in
    let keyed : IsKeyed ((g, slot) ∷ m) = rw h at o.keyed in
    let left : JsMap.delete r.slots g ≡ m = rw h (delete-front g slot m keyed.0) in
    close_each-IsOwned (drop_slot r g slot) m (unfold drop_slot in left)
      (drop_slot-IsOwned r g slot there o)

created-close_each : (r : Registry) (m : JsMap String Slot) → (close_each r m).created ≡ r.created
unfolding close_each drop_slot
created-close_each r [] = refl
created-close_each r ((g, slot) ∷ m) = created-close_each (drop_slot r g slot) m

-- The calls on a registry. A sweep walks a copy of the slots and waits between two of them, so
-- each of its rounds is a step of its own, with any slot and time.
pub data Step : Registry → Registry → Type 0 where
  acquired :
      (r : Registry) (grant_id subject : String) (now : ℕ)
      → Step r (acquire r grant_id subject now).0
  closed_one :
      (r : Registry) (grant_id : String) (entry : Option ℕ) → Step r (close r grant_id entry)
  swept : (r : Registry) (idle now : ℕ) (s : String × ℕ) → Step r (sweep_one r idle now s)
  closed_all : (r : Registry) → Step r (close_all r)

pub Step-IsOwned : {r s : Registry} → Step r s → IsOwned r → IsOwned s
unfolding close_all
Step-IsOwned (acquired r g subject now) o = acquire-IsOwned r g subject now o
Step-IsOwned (closed_one r g entry) o = close-IsOwned r g entry o
Step-IsOwned (swept r idle now s) o = sweep_one-IsOwned r idle now s o
Step-IsOwned (closed_all r) o = (close_each-IsOwned r r.slots refl o).0

pub Run-IsOwned : {r s : Registry} → IsOwned r → Run Step r s → IsOwned s
Run-IsOwned = Run-keeps IsOwned (λ r s step. Step-IsOwned step)

pub create-IsOwned : IsOwned create_grant_registry
unfolding create_grant_registry
create-IsOwned = record { keyed = tt; once = λ e. ground arith }

-- After any calls on a new registry, every entry created so far either sits in exactly one slot
-- and was never closed, or sits in no slot and was closed exactly once.
pub entries_owned_once :
    {r : Registry} (e : ℕ)
    → Run Step create_grant_registry r
    → e < r.created
    → held r.slots e + closings r.closed e ≡ 1
entries_owned_once e reach lt = ground (arith, (Run-IsOwned create-IsOwned reach).once e)

-- After `closeAll` on any reachable registry no slot is left, and every entry created so far was
-- closed exactly once.
pub close_all_closes :
    {r : Registry} (e : ℕ)
    → Run Step create_grant_registry r
    → e < r.created
    → ((close_all r).slots ≡ []) × (closings (close_all r).closed e ≡ 1)
unfolding close_all
close_all_closes {r} e reach lt =
    let (owned, empty) = close_each-IsOwned r r.slots refl (Run-IsOwned create-IsOwned reach) in
    (empty, ground (arith, owned.once e, created-close_each r r.slots))
