-- ===== src/GrantRegistry.antt =====
-- utils/grant-registry.ts: what the HTTP transport keeps per OAuth grant.
-- `create` returns an object that no other call returned: the number of entries created so far.
-- Each slot has an entry of its own, so the entry also stands for the slot where the code compares
-- slots. A close is logged when it is called; what it returns, and its errors, change no slot.
pub mod Ownership
pub mod Sweeping
pub mod Handout
mod Tests
use zendesk_mcp_server.Base.{
  ℕ, ◌+◌, String, Bool, true, not, ◌&&◌, Option, none, some, List, [], ◌∷◌, leb, if◌then◌else◌,
  length, ◌==◌, number_key, text_key,
}
use zendesk_mcp_server.Base.JsMap
use zendesk_mcp_server.Base.JsMap.{JsMap}

pub record Slot : Type 0 where
  pub subject : String
  pub entry : ℕ
  pub last_activity_at : ℕ

pub record Registry : Type 0 where
  pub slots : JsMap String Slot
  pub created : ℕ
  pub closed : List ℕ

unfoldable pub create_grant_registry : Registry
create_grant_registry = record { slots = []; created = 0; closed = [] }

-- the part of `drop` before its wait
unfoldable pub drop_slot : Registry → String → Slot → Registry
drop_slot r grant_id slot = record r {
  slots = JsMap.delete r.slots grant_id;
  closed = slot.entry ∷ r.closed;
}

abbrev pub acquire_slot : Registry → String → String → ℕ → Option Slot → Registry × Option ℕ
acquire_slot r grant_id subject now none = (
  record r {
    slots =
        JsMap.put r.slots grant_id
          (record { subject = subject; entry = r.created; last_activity_at = now });
    created = r.created + 1;
  },
  some r.created,
)
acquire_slot r grant_id subject now (some slot) =
    if not (slot.subject == subject) then (r, none) else (
      record r { slots = JsMap.put r.slots grant_id (record slot { last_activity_at = now }) },
      some slot.entry,
    )

unfoldable pub acquire : Registry → String → String → ℕ → Registry × Option ℕ
acquire r grant_id subject now = acquire_slot r grant_id subject now (JsMap.get r.slots grant_id)

abbrev pub is_same_entry : Option ℕ → Slot → Bool
is_same_entry none slot = true
is_same_entry (some entry) slot = slot.entry == entry

abbrev pub close_slot : Registry → String → Option ℕ → Option Slot → Registry
close_slot r grant_id entry none = r
close_slot r grant_id entry (some slot) =
    if is_same_entry entry slot then drop_slot r grant_id slot else r

unfoldable pub close : Registry → String → Option ℕ → Registry
unfolding drop_slot
close r grant_id entry = close_slot r grant_id entry (JsMap.get r.slots grant_id)

-- `slot.lastActivityAt <= now() - idleTimeoutMs`
abbrev pub is_idle : ℕ → ℕ → Slot → Bool
is_idle idle_timeout_ms now slot = leb (slot.last_activity_at + idle_timeout_ms) now

abbrev pub sweep_slot : Registry → ℕ → ℕ → String → ℕ → Option Slot → Registry
sweep_slot r idle_timeout_ms now grant_id entry none = r
sweep_slot r idle_timeout_ms now grant_id entry (some slot) =
    if (slot.entry == entry) && is_idle idle_timeout_ms now slot
    then drop_slot r grant_id slot
    else r

-- one round of the loop of `sweep`, for a slot of the copy that it walks
unfoldable pub sweep_one : Registry → ℕ → ℕ → String × ℕ → Registry
unfolding drop_slot
sweep_one r idle_timeout_ms now (grant_id, entry) =
    sweep_slot r idle_timeout_ms now grant_id entry (JsMap.get r.slots grant_id)

unfoldable pub sweep_from : Registry → ℕ → ℕ → List (String × ℕ) → Registry
unfolding sweep_one
sweep_from r idle_timeout_ms now [] = r
sweep_from r idle_timeout_ms now (s ∷ copy) =
    sweep_from (sweep_one r idle_timeout_ms now s) idle_timeout_ms now copy

-- `[...slots]`
abbrev pub copy_slots : JsMap String Slot → List (String × ℕ)
copy_slots [] = []
copy_slots ((grant_id, slot) ∷ slots) = (grant_id, slot.entry) ∷ copy_slots slots

-- a sweep that no other call comes between
unfoldable pub sweep : Registry → ℕ → ℕ → Registry
unfolding sweep_from
sweep r idle_timeout_ms now = sweep_from r idle_timeout_ms now (copy_slots r.slots)

unfoldable pub close_each : Registry → List (String × Slot) → Registry
unfolding drop_slot
close_each r [] = r
close_each r ((grant_id, slot) ∷ copy) = close_each (drop_slot r grant_id slot) copy

unfoldable pub close_all : Registry → Registry
unfolding close_each
close_all r = close_each r r.slots

abbrev pub size : Registry → ℕ
size r = length r.slots
