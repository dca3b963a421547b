-- ===== src/GrantRegistry/Sweeping.antt =====
-- The sweep of utils/grant-registry.ts, where nothing comes between its rounds.
use zendesk_mcp_server.Base.{
  Run, ℕ, String, ◌≡◌, refl, Bool, true, false, ◌&&◌, Option, none, some, [], ◌∷◌, arith, eq_iff,
  if◌then◌else◌, ◌==◌, number_key, text_key,
}
use zendesk_mcp_server.Base.JsMap
use zendesk_mcp_server.Base.JsMap.{JsMap, IsKeyed, get-delete}
use zendesk_mcp_server.GrantRegistry.{
  Slot, Registry, create_grant_registry, is_idle, sweep_one, sweep_from, copy_slots, sweep,
}
use zendesk_mcp_server.GrantRegistry.Ownership.{Step, Run-IsOwned, create-IsOwned}

abbrev survivor : ℕ → ℕ → Option Slot → Option Slot
survivor idle now none = none
survivor idle now (some slot) = if is_idle idle now slot then none else some slot

abbrev swept_slot : ℕ → ℕ → ℕ → Option Slot → Option Slot
swept_slot idle now entry none = none
swept_slot idle now entry (some slot) =
    if (slot.entry == entry) && is_idle idle now slot then none else some slot

get-sweep_one :
    (r : Registry) (idle now : ℕ) (g : String) (entry : ℕ) (j : String)
    → JsMap.get (sweep_one r idle now (g, entry)).slots j
      ≡ (if g == j then swept_slot idle now entry (JsMap.get r.slots j) else JsMap.get r.slots j)
unfolding sweep_one
get-sweep_one r idle now g entry j = ground (arith, get-delete r.slots g j, eq_iff g j)

has_slot : Option Slot → Bool
has_slot none = false
has_slot (some slot) = true

sweep_from-get :
    (m : JsMap String Slot) (r : Registry) (idle now : ℕ) (j : String)
    → IsKeyed m
    → ((k : String) → has_slot (JsMap.get m k) ≡ true → JsMap.get r.slots k ≡ JsMap.get m k)
    → JsMap.get (sweep_from r idle now (copy_slots m)).slots j ≡ (
        if has_slot (JsMap.get m j) then survivor idle now (JsMap.get m j) else JsMap.get r.slots j)
unfolding sweep_from has_slot JsMap.get
sweep_from-get [] r idle now j keyed same = refl
sweep_from-get ((g, slot) ∷ m) r idle now j keyed same =
    let r' = sweep_one r idle now (g, slot.entry) in
    ground (
      arith,
      same g,
      same j,
      eq_iff g g,
      eq_iff g j,
      get-sweep_one r idle now g slot.entry j,
      sweep_from-get m r' idle now j keyed.1 (λ k there.
          ground (arith, same k, keyed.0, eq_iff g k, get-sweep_one r idle now g slot.entry k)),
    )

-- On a reachable registry, a sweep that nothing comes between closes exactly the slots idle for at
-- least the timeout: afterwards a grant has its old slot if that was used since, and else none.
get-sweep :
    {r : Registry} (idle now : ℕ) (g : String)
    → Run Step create_grant_registry r
    → JsMap.get (sweep r idle now).slots g ≡ survivor idle now (JsMap.get r.slots g)
unfolding sweep has_slot
get-sweep {r} idle now g reach = ground (
  arith,
  sweep_from-get r.slots r idle now g (Run-IsOwned create-IsOwned reach).keyed (λ k there. refl),
)
