-- ===== src/Sla/Tests.antt =====
-- Runs of the SLA modules: texts of durations, a change of preferences, two metrics of a ticket.
use zendesk_mcp_server.Base.{
  ℕ, ◌≤◌, String, ◌≡◌, refl, ◌⊎◌, true, false, not, Option, none, some, List, [], ◌∷◌, map, arith,
  if◌then◌else◌, ◌==◌, number_key, text_key, All, In, ok, Run, at_start, then_step, take,
}
use zendesk_mcp_server.Base.Int.{ℤ, pos, negsuc, ◌+ℤ◌, ◌-ℤ◌}
use zendesk_mcp_server.Sla.Alerts.{
  AlertTicket, ScopeSnapshot, merge_snapshots, Alert, select_alerts,
}
use zendesk_mcp_server.Base.JsMap
use zendesk_mcp_server.Sla.Poller.{
  Poller, create_alert_poller, subscribe, checked, is_empty, Step, subscribed, check_answered,
  timer_exact,
}
use zendesk_mcp_server.Text.{codes}
use zendesk_mcp_server.Sla.Durations.{parse_duration, format_minutes}
use zendesk_mcp_server.Sla.Durations.RoundTrip.{parse-format}
use zendesk_mcp_server.Sla.Thresholds.{
  wait, default_sla_thresholds, parse_threshold_pair, family_of, AreOrdered,
}
use zendesk_mcp_server.Sla.Preferences.{
  SlaPreferences, SlaPreferenceChange, effective_thresholds, or_no_preferences,
  apply_preference_change,
}
use zendesk_mcp_server.Sla.Preferences.Ordered.{
  PreferencesOrdered, Untouched, apply_preference_change-AreOrdered,
}
use zendesk_mcp_server.Sla.Urgency.{
  critical_level, level_index, ZendeskSlaLiveMetric, MetricUrgency, has_running_stage,
  round_minutes, level_of, classify_metric, ticket_urgency,
}
use zendesk_mcp_server.Sla.Urgency.Classified.{classify_metric_escalates}
use zendesk_mcp_server.Sla.Urgency.Worst.{IsWorst, Classifies, ticket_urgency-IsWorst}
use zendesk_mcp_server.Sla.Scope.{ZendeskTicket, to_alert_ticket, read_pages}
use zendesk_mcp_server.Sla.Scope.Pages.{concat, served, read_pages-served}

format_run : format_minutes (pos 1500) ≡ codes "1d1h"
unfolding format_minutes
format_run = refl

parse_run : (parse_duration (codes " 1W2h") ≡ some 10200) × (parse_duration (codes "1h1d") ≡ none)
unfolding parse_duration
parse_run = (refl, refl)

-- two spellings of one duration
two_spellings : (parse_duration (codes "60m") ≡ some 60) × (parse_duration (codes "1h") ≡ some 60)
unfolding parse_duration
two_spellings = (refl, refl)

parse-format_example : parse_duration (format_minutes (negsuc 1499)) ≡ some 1500
parse-format_example = parse-format (negsuc 1499)

pair_read : parse_threshold_pair (codes "4h, 30m") ≡ ok (record { warning = 240; critical = 30 })
unfolding parse_threshold_pair
pair_read = refl

defaults-AreOrdered : AreOrdered default_sla_thresholds
defaults-AreOrdered = record { of_reply = omega arith; of_wait = omega arith }

abbrev earlier : SlaPreferences
earlier = record {
  reply_set = none;
  wait_set = some (record { warning = 900; critical = 600 });
  introduced = some true;
}

abbrev change : SlaPreferenceChange
change = record {
  reply_warning = some (codes "2h");
  reply_critical = none;
  wait_warning = none;
  wait_critical = none;
  reset = none;
}

abbrev later : SlaPreferences
later = record earlier { reply_set = some (record { warning = 120; critical = 60 }) }

change_accepted : apply_preference_change default_sla_thresholds (some earlier) change ≡ ok later
unfolding apply_preference_change
change_accepted = refl

earlier-PreferencesOrdered : PreferencesOrdered (or_no_preferences (some earlier))
earlier-PreferencesOrdered = (tt, omega arith)

apply_preference_change-AreOrdered_example :
    PreferencesOrdered later × AreOrdered (effective_thresholds default_sla_thresholds (some later))
apply_preference_change-AreOrdered_example =
    apply_preference_change-AreOrdered default_sla_thresholds (some earlier) change later
      defaults-AreOrdered earlier-PreferencesOrdered change_accepted

wait-Untouched : Untouched change wait
wait-Untouched = record { no_warning = refl; no_critical = refl; no_reset = refl }

-- the texts of these runs are hours
abbrev date_parse : String → Option ℤ
date_parse text =
    if text == "one"
    then some (pos 3600000)
    else if text == "ten"
    then some (pos 36000000)
    else none

abbrev first_reply : ZendeskSlaLiveMetric
first_reply = record { metric = "first_reply_time"; stage = some "active"; breach_at = some "one" }

abbrev resolution : ZendeskSlaLiveMetric
resolution = record { metric = "total_resolution_time"; stage = none; breach_at = some "ten" }

abbrev reply_urgency : MetricUrgency
reply_urgency = record {
  metric = "first_reply_time";
  level = critical_level;
  breach_at = "one";
  minutes_left = pos 60;
}

first_reply_classified :
    classify_metric date_parse first_reply default_sla_thresholds 0 ≡ some reply_urgency
unfolding classify_metric has_running_stage round_minutes level_of family_of ◌+ℤ◌ ◌-ℤ◌
first_reply_classified = refl

classify_metric_escalates_example :
    (u : MetricUrgency) × (classify_metric date_parse first_reply default_sla_thresholds 3700000
      ≡ some u)
    × (level_index u.level ≤ 1)
classify_metric_escalates_example =
    classify_metric_escalates date_parse first_reply default_sla_thresholds 0 3700000 reply_urgency
      (omega arith) first_reply_classified

ticket_urgency-IsWorst_example :
    (All
        (λ m. classify_metric date_parse m default_sla_thresholds 0 ≡ none)
        (resolution ∷ first_reply ∷ [])
      × (ticket_urgency date_parse (some (resolution ∷ first_reply ∷ [])) default_sla_thresholds 0
          ≡ none))
    ⊎ ((u : MetricUrgency) × (ticket_urgency date_parse
            (some (resolution ∷ first_reply ∷ []))
            default_sla_thresholds
            0
          ≡ some u)
        × IsWorst date_parse default_sla_thresholds 0 u (resolution ∷ first_reply ∷ [])
        × ((m : ZendeskSlaLiveMetric) × In m (resolution ∷ first_reply ∷ [])
            × Classifies date_parse default_sla_thresholds 0 m u))
ticket_urgency-IsWorst_example =
    ticket_urgency-IsWorst date_parse default_sla_thresholds 0 (resolution ∷ first_reply ∷ [])

abbrev polled : Poller
polled = checked (subscribe create_alert_poller "u") "u" "1:a"

polled-Run : Run Step create_alert_poller polled
polled-Run =
    then_step (then_step at_start (subscribed create_alert_poller "u")) (check_answered _ "u" "1:a")

-- the first check notifies nobody, the second one that differs does
first_quiet : (polled.log ≡ []) × ((checked polled "u" "2:b").log ≡ "u" ∷ [])
unfolding create_alert_poller subscribe checked JsMap.get JsMap.put
first_quiet = (refl, refl)

timer_exact_example : (polled.timer ≡ not (is_empty polled.fingerprints)) × (polled.polling ≤ 1)
timer_exact_example = timer_exact polled-Run

abbrev ticket : ℕ → List ZendeskSlaLiveMetric → AlertTicket
ticket id metrics = record {
  id = id;
  subject = "help";
  status = "open";
  priority = none;
  metrics = metrics;
}

abbrev snapshot : List AlertTicket → ScopeSnapshot
snapshot tickets = record { tickets = tickets; truncated = false; unread = 0 }

-- ticket 4 is in two snapshots
abbrev snapshots : List ScopeSnapshot
snapshots =
    snapshot (ticket 9 (resolution ∷ []) ∷ ticket 4 (first_reply ∷ []) ∷ [])
    ∷ snapshot (ticket 4 [] ∷ [])
    ∷ []

-- the reply is critical, the resolution a warning, which comes after it
alerted :
    map
      (λ (a : Alert). a.ticket.id)
      (select_alerts date_parse
        (merge_snapshots snapshots).tickets
        default_sla_thresholds
        0
        (record { within_minutes = none; include_breached = true }))
    ≡ 4 ∷ 9 ∷ []
unfolding select_alerts merge_snapshots classify_metric has_running_stage round_minutes level_of
    family_of ◌+ℤ◌ ◌-ℤ◌ JsMap.get JsMap.put
alerted = refl

abbrev zendesk_ticket : ℕ → ZendeskTicket
zendesk_ticket id = record {
  id = id;
  subject = "help";
  status = "open";
  priority = none;
  policy_metrics = none;
}

-- a view of six pages, each of one ticket: the last is left unread
abbrev six_pages : List (List ZendeskTicket)
six_pages =
    (zendesk_ticket 1 ∷ [])
    ∷ (zendesk_ticket 2 ∷ [])
    ∷ (zendesk_ticket 3 ∷ [])
    ∷ (zendesk_ticket 4 ∷ [])
    ∷ (zendesk_ticket 5 ∷ [])
    ∷ (zendesk_ticket 6 ∷ [])
    ∷ []

read_pages-served_example : read_pages {E = String} (served 6 six_pages) ≡ (
  5,
  ok (record {
    tickets = map to_alert_ticket (concat (take 5 six_pages));
    truncated = true;
    unread = 1;
  }),
)
read_pages-served_example =
    read_pages-served {E = String} six_pages (refl, (refl, (refl, (refl, (refl, (refl, tt))))))
