-- ===== src/Sla/Scope.antt =====
-- utils/sla-scope.ts: the tickets that an SLA alert check reads. `get` of the Zendesk client is a
-- parameter at each of its three uses: it gives a page, or fails with the error that the check throws.
-- Each read also returns how many requests it made.
pub mod Pages
use zendesk_mcp_server.Base.{
  unique, ℕ, zero, suc, ◌+◌, ◌-◌, String, Bool, true, false, ◌&&◌, Option, none, some, List, [],
  ◌∷◌, ◌++◌, map, ltb, if◌then◌else◌, length, take, ◌==◌, number_key, text_key, Result, ok, err,
}
use mathlib.Core.Option
use zendesk_mcp_server.Text.{codes, trim}
use zendesk_mcp_server.Text.Decimal.{decimal}
use zendesk_mcp_server.Sla.Urgency.{ZendeskSlaLiveMetric}
use zendesk_mcp_server.Sla.Alerts.{AlertTicket, ScopeSnapshot, merge_snapshots}

pub data NamedScope : Type 0 where
  mine my_groups all : NamedScope

pub data SlaScope : Type 0 where
  scope : NamedScope → SlaScope
  view : ℕ → SlaScope
  query : List ℕ → SlaScope

pub record ZendeskTicket : Type 0 where
  pub id : ℕ
  pub subject : String
  pub status : String
  pub priority : Option String
  pub policy_metrics : Option (List ZendeskSlaLiveMetric)

abbrev pub metrics_of : Option (List ZendeskSlaLiveMetric) → List ZendeskSlaLiveMetric
metrics_of none = []
metrics_of (some metrics) = metrics

unfoldable pub to_alert_ticket : ZendeskTicket → AlertTicket
to_alert_ticket ticket = record {
  id = ticket.id;
  subject = ticket.subject;
  status = ticket.status;
  priority = ticket.priority;
  metrics = metrics_of ticket.policy_metrics;
}

abbrev pub max_scope_pages : ℕ
max_scope_pages = 5

abbrev pub max_scope_groups : ℕ
max_scope_groups = 10

abbrev pub scope_query : NamedScope → List ℕ
scope_query mine = codes "assignee:me status<solved"
scope_query _ = codes "status<solved"

unfoldable pub group_query : ℕ → List ℕ
group_query group_id = codes "group:" ++ (decimal group_id ++ codes " status<solved")

abbrev pub scope_word : NamedScope → List ℕ
scope_word mine = codes "mine"
scope_word my_groups = codes "my_groups"
scope_word all = codes "all"

unfoldable pub scope_key : SlaScope → List ℕ
scope_key (scope named) = codes "scope:" ++ scope_word named
scope_key (view view_id) = codes "view:" ++ decimal view_id
scope_key (query q) = codes "query:" ++ trim q

abbrev pub named_label : NamedScope → List ℕ
named_label mine = codes "your assigned unsolved tickets"
named_label my_groups = codes "your groups' unsolved tickets"
named_label all = codes "all unsolved tickets"

unfoldable pub scope_label : SlaScope → List ℕ
scope_label (scope named) = named_label named
scope_label (view view_id) = codes "view " ++ decimal view_id
scope_label (query q) = codes "the tickets matching \"" ++ (trim q ++ codes "\"")

-- A page: its tickets, the count that Zendesk gives, and whether `next_page` is set.
pub record OffsetPage : Type 0 where
  pub tickets : List ZendeskTicket
  pub count : Option ℕ
  pub next_page : Bool

pub record MembershipsPage : Type 0 where
  pub group_ids : List ℕ
  pub has_more : Bool
  pub after_cursor : Option String

abbrev pub or_total : Option ℕ → Option ℕ → Option ℕ
or_total (some count) total = some count
or_total none total = total

abbrev pub is_filled : List ZendeskTicket → Bool
is_filled [] = false
is_filled (t ∷ tickets) = true

-- the result of the loop: the tickets in order, the total, and whether it ended with more to read
pub record Walk : Type 0 where
  pub tickets : List ZendeskTicket
  pub total : Option ℕ
  pub more : Bool

abbrev pub page_more : OffsetPage → Bool
page_more response = response.next_page && is_filled response.tickets

abbrev pub or_zero : Option ℕ → ℕ
or_zero none = 0
or_zero (some n) = n

abbrev pub snapshot_of : Walk → ScopeSnapshot
snapshot_of walk = record {
  tickets = map to_alert_ticket walk.tickets;
  truncated = walk.more;
  unread = if walk.more then or_zero walk.total - length walk.tickets else 0;
}

abbrev pub next_cursor : MembershipsPage → Option String
next_cursor response = if response.has_more then response.after_cursor else none

-- an absent or empty cursor ends the loop
abbrev pub real_cursor : Option String → Option String
real_cursor none = none
real_cursor (some cursor) = if cursor == "" then none else some cursor

module _ {E : Type 0} where
  abbrev pub put_before : List ZendeskTicket → ℕ × Result E Walk → ℕ × Result E Walk
  put_before tickets (requests, err e) = (requests + 1, err e)
  put_before tickets (requests, ok walk) =
      (requests + 1, ok (record walk { tickets = tickets ++ walk.tickets }))

  -- one round of the loop, with the rounds after it as a function of the total
  abbrev pub after_page :
      (Option ℕ → ℕ × Result E Walk) → Option ℕ → Result E OffsetPage → ℕ × Result E Walk
  after_page next total (err e) = (1, err e)
  after_page next total (ok response) =
      let rest = next (or_total response.count total) in
      if page_more response then put_before response.tickets rest else (
        1,
        ok (record {
          tickets = response.tickets;
          total = or_total response.count total;
          more = false;
        }),
      )

  -- the loop, by the pages left under the cap
  unfoldable pub walk_pages : (ℕ → Result E OffsetPage) → ℕ → ℕ → Option ℕ → ℕ × Result E Walk
  walk_pages fetch_page zero page total =
      (0, ok (record { tickets = []; total = total; more = true }))
  walk_pages fetch_page (suc left) page total =
      after_page (walk_pages fetch_page left (page + 1)) total (fetch_page page)

  abbrev pub snapshot_read : ℕ × Result E Walk → ℕ × Result E ScopeSnapshot
  snapshot_read (requests, err e) = (requests, err e)
  snapshot_read (requests, ok walk) = (requests, ok (snapshot_of walk))

  unfoldable pub read_pages : (ℕ → Result E OffsetPage) → ℕ × Result E ScopeSnapshot
  read_pages fetch_page = snapshot_read (walk_pages fetch_page max_scope_pages 1 none)

  abbrev pub with_ids : List ℕ → ℕ × Result E (List ℕ) → ℕ × Result E (List ℕ)
  with_ids ids (requests, err e) = (requests + 1, err e)
  with_ids ids (requests, ok rest) = (requests + 1, ok (ids ++ rest))

  abbrev pub after_memberships :
      (Option String → Option (ℕ × Result E (List ℕ)))
      → Result E MembershipsPage
      → Option (ℕ × Result E (List ℕ))
  after_memberships next (err e) = some (1, err e)
  after_memberships next (ok response) = elim (real_cursor (next_cursor response)) [
    | none ↦ some (1, ok response.group_ids)
    | some cursor ↦ Option.map (with_ids response.group_ids) (next (some cursor))
  ]

  -- the `do` loop of `readGroupIds`, on fuel
  unfoldable pub walk_memberships :
      (Option String → Result E MembershipsPage)
      → ℕ
      → Option String
      → Option (ℕ × Result E (List ℕ))
  walk_memberships memberships zero cursor = none
  walk_memberships memberships (suc fuel) cursor =
      after_memberships (walk_memberships memberships fuel) (memberships cursor)

  abbrev pub unique_ids : ℕ × Result E (List ℕ) → ℕ × Result E (List ℕ)
  unique_ids (requests, err e) = (requests, err e)
  unique_ids (requests, ok ids) = (requests, ok (unique ids))

  unfoldable pub read_group_ids :
      (Option String → Result E MembershipsPage) → ℕ → Option (ℕ × Result E (List ℕ))
  read_group_ids memberships fuel = Option.map unique_ids (walk_memberships memberships fuel none)

  abbrev pub and_snapshot :
      ℕ × Result E ScopeSnapshot
      → ℕ × Result E (List ScopeSnapshot)
      → ℕ × Result E (List ScopeSnapshot)
  and_snapshot (requests, err e) rest = (requests, err e)
  and_snapshot (requests, ok snapshot) (more, err e) = (requests + more, err e)
  and_snapshot (requests, ok snapshot) (more, ok snapshots) =
      (requests + more, ok (snapshot ∷ snapshots))

  -- the loop over the groups: the first failure ends it
  unfoldable pub read_groups :
      (List ℕ → ℕ → Result E OffsetPage) → List ℕ → ℕ × Result E (List ScopeSnapshot)
  read_groups search [] = (0, ok [])
  read_groups search (id ∷ ids) =
      and_snapshot (read_pages (search (codes "type:ticket " ++ group_query id)))
        (read_groups search ids)

  abbrev pub merged : List ℕ → ℕ × Result E (List ScopeSnapshot) → ℕ × Result E ScopeSnapshot
  merged group_ids (requests, err e) = (requests, err e)
  merged group_ids (requests, ok snapshots) = (
    requests,
    ok (
        merge_snapshots (
          if ltb max_scope_groups (length group_ids)
          then snapshots ++ (record { tickets = []; truncated = true; unread = 0 } ∷ [])
          else snapshots)),
  )

  abbrev pub count_before : ℕ → ℕ × Result E ScopeSnapshot → ℕ × Result E ScopeSnapshot
  count_before requests (more, result) = (requests + more, result)

  abbrev pub groups_found :
      (List ℕ → ℕ → Result E OffsetPage) → ℕ × Result E (List ℕ) → ℕ × Result E ScopeSnapshot
  groups_found search (requests, err e) = (requests, err e)
  groups_found search (requests, ok group_ids) =
      count_before requests
        (merged group_ids (read_groups search (take max_scope_groups group_ids)))

  abbrev pub fetch_groups :
      (List ℕ → ℕ → Result E OffsetPage)
      → (ℕ → Option String → Result E MembershipsPage)
      → Result E ℕ
      → ℕ
      → Option (ℕ × Result E ScopeSnapshot)
  fetch_groups search memberships (err e) fuel = some (0, err e)
  fetch_groups search memberships (ok user) fuel =
      Option.map (groups_found search) (read_group_ids (memberships user) fuel)

  -- the search of a query and a page, the listing of a view and a page, and the memberships of a
  -- user from a cursor; the fuel is for the pages of memberships
  unfoldable pub fetch_scope :
      (List ℕ → ℕ → Result E OffsetPage)
      → (ℕ → ℕ → Result E OffsetPage)
      → (ℕ → Option String → Result E MembershipsPage)
      → Result E ℕ
      → ℕ
      → SlaScope
      → Option (ℕ × Result E ScopeSnapshot)
  fetch_scope search listing memberships user fuel (view view_id) =
      some (read_pages (listing view_id))
  fetch_scope search listing memberships user fuel (query q) =
      some (read_pages (search (codes "type:ticket " ++ trim q)))
  fetch_scope search listing memberships user fuel (scope my_groups) =
      fetch_groups search memberships user fuel
  fetch_scope search listing memberships user fuel (scope named) =
      some (read_pages (search (codes "type:ticket " ++ scope_query named)))
