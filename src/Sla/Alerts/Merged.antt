-- ===== src/Sla/Alerts/Merged.antt =====
-- `mergeSnapshots` of utils/sla-alerts.ts, against the tickets of all snapshots in a row.
use zendesk_mcp_server.Base.{
  ℕ, ◌+◌, ◌≤◌, ◌≡◌, refl, ◌∙◌, inl, inr, Bool, true, false, Option, none, some, List, [], ◌∷◌, ◌++◌,
  arith, if◌then◌else◌, Bool-cases, ◌==◌, number_key, text_key, ==_iff, All,
}
use zendesk_mcp_server.Base.JsMap
use zendesk_mcp_server.Base.JsMap.{JsMap, IsKeyed, IsKeyed-put, get-put}
use zendesk_mcp_server.Sla.Alerts.{
  AlertTicket, ScopeSnapshot, add_ticket, add_tickets, add_snapshots, values, merge_snapshots,
}

abbrev pub find_ticket : ℕ → List AlertTicket → Option AlertTicket
find_ticket id [] = none
find_ticket id (t ∷ tickets) = if t.id == id then some t else find_ticket id tickets

abbrev pub first_of : Option AlertTicket → Option AlertTicket → Option AlertTicket
first_of none other = other
first_of (some t) other = some t

abbrev pub bit : Bool → ℕ
bit true = 1
bit false = 0

abbrev pub times : ℕ → List AlertTicket → ℕ
times id [] = 0
times id (t ∷ tickets) = bit (t.id == id) + times id tickets

abbrev pub tickets_of : List ScopeSnapshot → List AlertTicket
tickets_of [] = []
tickets_of (s ∷ snapshots) = s.tickets ++ tickets_of snapshots

-- A map that holds each ticket at its id, once.
abbrev IsById : JsMap ℕ AlertTicket → Type 0
IsById m = IsKeyed m × All (λ (e : ℕ × AlertTicket). e.0 ≡ e.1.id) m

All-put :
    (m : JsMap ℕ AlertTicket) (t : AlertTicket)
    → All (λ (e : ℕ × AlertTicket). e.0 ≡ e.1.id) m
    → All (λ (e : ℕ × AlertTicket). e.0 ≡ e.1.id) (JsMap.put m t.id t)
unfolding JsMap.put
All-put [] t h = (refl, tt)
All-put ((k, v) ∷ m) t h = elim (Bool-cases (k == t.id)) [
  | inl same ↦ rw same ((==_iff k t.id).0 same, h.1)
  | inr other ↦ rw other (h.0, All-put m t h.1)
]

add_ticket-get :
    (m : JsMap ℕ AlertTicket) (t : AlertTicket) (id : ℕ)
    → JsMap.get (add_ticket m t (JsMap.get m t.id)) id
      ≡ first_of (JsMap.get m id) (find_ticket id (t ∷ []))
add_ticket-get m t id = ground (arith, get-put m t.id id t, ==_iff t.id id)

add_ticket-IsById :
    (m : JsMap ℕ AlertTicket) (t : AlertTicket) (found : Option AlertTicket)
    → IsById m
    → IsById (add_ticket m t found)
add_ticket-IsById m t none h = (IsKeyed-put m t.id t h.0, All-put m t h.1)
add_ticket-IsById m t (some old) h = h

add_tickets-IsById :
    (tickets : List AlertTicket) (m : JsMap ℕ AlertTicket) (id : ℕ)
    → IsById m
    → IsById (add_tickets m tickets)
      × (JsMap.get (add_tickets m tickets) id ≡ first_of (JsMap.get m id) (find_ticket id tickets))
unfolding add_tickets
add_tickets-IsById [] m id h = (h, ground arith)
add_tickets-IsById (t ∷ tickets) m id h =
    let (kept, got) =
      add_tickets-IsById tickets (add_ticket m t (JsMap.get m t.id)) id
        (add_ticket-IsById m t (JsMap.get m t.id) h) in
    (kept, got ∙ ground (arith, add_ticket-get m t id))

find_ticket-append :
    (id : ℕ) (xs ys : List AlertTicket)
    → find_ticket id (xs ++ ys) ≡ first_of (find_ticket id xs) (find_ticket id ys)
find_ticket-append id [] ys = refl
find_ticket-append id (x ∷ xs) ys = ground (arith, find_ticket-append id xs ys)

add_snapshots-IsById :
    (snapshots : List ScopeSnapshot) (m : JsMap ℕ AlertTicket) (id : ℕ)
    → IsById m
    → IsById (add_snapshots m snapshots)
      × (JsMap.get (add_snapshots m snapshots) id
          ≡ first_of (JsMap.get m id) (find_ticket id (tickets_of snapshots)))
unfolding add_snapshots
add_snapshots-IsById [] m id h = (h, ground arith)
add_snapshots-IsById (s ∷ snapshots) m id h =
    let (kept, got) = add_tickets-IsById s.tickets m id h in
    let (all, found) = add_snapshots-IsById snapshots (add_tickets m s.tickets) id kept in
    (all, found ∙ ground (arith, got, find_ticket-append id s.tickets (tickets_of snapshots)))

is_found : Option AlertTicket → ℕ
is_found none = 0
is_found (some t) = 1

values-IsById :
    (m : JsMap ℕ AlertTicket) (id : ℕ)
    → IsById m
    → (find_ticket id (values m) ≡ JsMap.get m id)
      × (times id (values m) ≡ is_found (JsMap.get m id))
unfolding JsMap.get is_found
values-IsById [] id h = (refl, refl)
values-IsById ((k, v) ∷ m) id h =
    let (found, once) = values-IsById m id (h.0.1, h.1.1) in
    (ground (arith, h.1.0), ground (arith, h.1.0, h.0.0, ==_iff k id))

-- A merged snapshot holds every ticket of the snapshots once: for each id it has the first ticket
-- with that id, if there is one, and no second ticket with it.
pub merge_snapshots_once :
    (snapshots : List ScopeSnapshot) (id : ℕ)
    → (find_ticket id (merge_snapshots snapshots).tickets ≡ find_ticket id (tickets_of snapshots))
      × (times id (merge_snapshots snapshots).tickets ≤ 1)
unfolding merge_snapshots is_found
merge_snapshots_once snapshots id =
    let (by_id, got) = add_snapshots-IsById snapshots [] id (tt, tt) in
    let (found, once) = values-IsById (add_snapshots [] snapshots) id by_id in
    (found ∙ (unfold JsMap.get in got), ground (arith, once))
