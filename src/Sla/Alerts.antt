-- ===== src/Sla/Alerts.antt =====
-- utils/sla-alerts.ts: tickets from several fetches merged, and the alerts selected from them. The
-- report's text is left out. `sort` is insertion, which gives what any stable sort gives on an order.
pub mod Merged
use zendesk_mcp_server.Base.{
  ℕ, ◌+◌, String, Bool, true, Option, none, some, List, [], ◌∷◌, ◌++◌, ltb, if◌then◌else◌, keep,
  any, ◌==◌, number_key, text_key,
}
use zendesk_mcp_server.Base.Int.{ℤ, ltb_ℤ, leb_ℤ, beq_ℤ}
use zendesk_mcp_server.Base.JsMap
use zendesk_mcp_server.Base.JsMap.{JsMap}
use zendesk_mcp_server.Sla.Thresholds.{SlaThresholds}
use zendesk_mcp_server.Sla.Urgency.{
  breached, level_index, ZendeskSlaLiveMetric, MetricUrgency, classify_metric,
}

pub record AlertTicket : Type 0 where
  pub id : ℕ
  pub subject : String
  pub status : String
  pub priority : Option String
  pub metrics : List ZendeskSlaLiveMetric

pub record ScopeSnapshot : Type 0 where
  pub tickets : List AlertTicket
  pub truncated : Bool
  pub unread : ℕ

-- `if (!byId.has(ticket.id)) byId.set(ticket.id, ticket)`
abbrev pub add_ticket : JsMap ℕ AlertTicket → AlertTicket → Option AlertTicket → JsMap ℕ AlertTicket
add_ticket by_id ticket (some old) = by_id
add_ticket by_id ticket none = JsMap.put by_id ticket.id ticket

unfoldable pub add_tickets : JsMap ℕ AlertTicket → List AlertTicket → JsMap ℕ AlertTicket
add_tickets by_id [] = by_id
add_tickets by_id (t ∷ tickets) = add_tickets (add_ticket by_id t (JsMap.get by_id t.id)) tickets

unfoldable pub add_snapshots : JsMap ℕ AlertTicket → List ScopeSnapshot → JsMap ℕ AlertTicket
unfolding add_tickets
add_snapshots by_id [] = by_id
add_snapshots by_id (s ∷ snapshots) = add_snapshots (add_tickets by_id s.tickets) snapshots

abbrev pub values {ℓ} : {V : Type ℓ} → JsMap ℕ V → List V
values [] = []
values ((k, v) ∷ m) = v ∷ values m

abbrev pub sum_unread : List ScopeSnapshot → ℕ
sum_unread [] = 0
sum_unread (s ∷ snapshots) = s.unread + sum_unread snapshots

unfoldable pub merge_snapshots : List ScopeSnapshot → ScopeSnapshot
unfolding add_snapshots
merge_snapshots snapshots = record {
  tickets = values (add_snapshots [] snapshots);
  truncated = any (λ (s : ScopeSnapshot). s.truncated) snapshots;
  unread = sum_unread snapshots;
}

pub record Alert : Type 0 where
  pub ticket : AlertTicket
  pub urgency : MetricUrgency

pub record AlertFilter : Type 0 where
  pub within_minutes : Option ℤ
  pub include_breached : Bool

abbrev pub is_within : Option ℤ → ℤ → Bool
is_within none minutes_left = true
is_within (some within) minutes_left = leb_ℤ minutes_left within

abbrev pub is_selected : AlertFilter → Alert → Bool
is_selected filter alert =
    if level_index alert.urgency.level == level_index breached
    then filter.include_breached
    else is_within filter.within_minutes alert.urgency.minutes_left

abbrev pub with_alert : AlertTicket → Option MetricUrgency → List Alert → List Alert
with_alert ticket none alerts = alerts
with_alert ticket (some urgency) alerts = record { ticket = ticket; urgency = urgency } ∷ alerts

module _ (date_parse : String → Option ℤ) where
  -- the two `flatMap`s
  unfoldable pub alerts_of :
      AlertTicket → List ZendeskSlaLiveMetric → SlaThresholds → ℕ → List Alert
  alerts_of ticket [] thresholds now = []
  alerts_of ticket (m ∷ metrics) thresholds now =
      with_alert ticket (classify_metric date_parse m thresholds now)
        (alerts_of ticket metrics thresholds now)

  unfoldable pub all_alerts : List AlertTicket → SlaThresholds → ℕ → List Alert
  unfolding alerts_of
  all_alerts [] thresholds now = []
  all_alerts (t ∷ tickets) thresholds now =
      alerts_of t t.metrics thresholds now ++ all_alerts tickets thresholds now

  -- a difference of dates that is 0 or NaN leaves the ids to decide
  abbrev pub is_sooner : Option ℤ → Option ℤ → Bool → Bool
  is_sooner (some a) (some b) by_id = if beq_ℤ a b then by_id else ltb_ℤ a b
  is_sooner _ _ by_id = by_id

  -- the comparison of the sort is negative
  unfoldable pub comes_before : Alert → Alert → Bool
  comes_before a b =
      if level_index a.urgency.level == level_index b.urgency.level
      then is_sooner (date_parse a.urgency.breach_at) (date_parse b.urgency.breach_at)
          (ltb a.ticket.id b.ticket.id)
      else ltb (level_index a.urgency.level) (level_index b.urgency.level)

  unfoldable pub insert_alert : Alert → List Alert → List Alert
  unfolding comes_before
  insert_alert a [] = a ∷ []
  insert_alert a (b ∷ alerts) =
      let rest = insert_alert a alerts in if comes_before b a then b ∷ rest else a ∷ b ∷ alerts

  unfoldable pub sort_alerts : List Alert → List Alert
  unfolding insert_alert
  sort_alerts [] = []
  sort_alerts (a ∷ alerts) = insert_alert a (sort_alerts alerts)

  unfoldable pub select_alerts : List AlertTicket → SlaThresholds → ℕ → AlertFilter → List Alert
  unfolding all_alerts sort_alerts
  select_alerts tickets thresholds now filter =
      sort_alerts (keep (is_selected filter) (all_alerts tickets thresholds now))
