-- ===== src/Sla/Urgency.antt =====
-- utils/sla-urgency.ts, and the test for a running deadline of utils/formatting.ts. `Date.parse`
-- is a parameter: `none` is NaN.
pub mod Classified
pub mod Worst
use zendesk_mcp_server.Base.{
  ℕ, ◌/◌, String, Bool, true, false, not, Option, none, some, List, [], ◌∷◌, ltb, if◌then◌else◌,
  ◌==◌, number_key, text_key, includes,
}
use zendesk_mcp_server.Base.Int.{ℤ, pos, negsuc, ◌+ℤ◌, ◌-ℤ◌, ltb_ℤ, leb_ℤ}
use zendesk_mcp_server.Sla.Thresholds.{SlaThreshold, SlaThresholds, family_of, threshold_of}

pub data UrgencyLevel : Type 0 where
  breached critical_level warning_level : UrgencyLevel

-- the index in `URGENCY_LEVELS`
abbrev pub level_index : UrgencyLevel → ℕ
level_index breached = 0
level_index critical_level = 1
level_index warning_level = 2

pub record ZendeskSlaLiveMetric : Type 0 where
  pub metric : String
  pub stage : Option String
  pub breach_at : Option String

pub record MetricUrgency : Type 0 where
  pub metric : String
  pub level : UrgencyLevel
  pub breach_at : String
  pub minutes_left : ℤ

abbrev pub stages_without_live_deadline : List String
stages_without_live_deadline = "paused" ∷ "achieved" ∷ "fulfilled" ∷ []

-- `hasRunningStage`
unfoldable pub has_running_stage : Option String → Bool
has_running_stage none = true
has_running_stage (some stage) = not (includes stages_without_live_deadline stage)

abbrev pub minute_ms : ℕ
minute_ms = 60000

-- the quotient rounded towards minus infinity
abbrev pub floor_div : ℤ → ℕ → ℤ
floor_div (pos n) d = pos (n / d)
floor_div (negsuc n) d = negsuc (n / d)

-- `Math.round(x / 60000)`: half a minute is added, and the sum rounded down
unfoldable pub round_minutes : ℤ → ℤ
round_minutes ms = floor_div (ms +ℤ pos 30000) minute_ms

unfoldable pub level_of : SlaThreshold → ℤ → Option UrgencyLevel
level_of t minutes_left =
    if ltb_ℤ minutes_left (pos 0)
    then some breached
    else if leb_ℤ minutes_left (pos t.critical)
    then some critical_level
    else if leb_ℤ minutes_left (pos t.warning)
    then some warning_level
    else none

abbrev pub urgency_at :
    ZendeskSlaLiveMetric → String → ℤ → Option UrgencyLevel → Option MetricUrgency
urgency_at m due minutes_left none = none
urgency_at m due minutes_left (some level) =
    some (record { metric = m.metric; level = level; breach_at = due; minutes_left = minutes_left })

module _ (date_parse : String → Option ℤ) where
  abbrev pub classify_at :
      ZendeskSlaLiveMetric → SlaThresholds → ℕ → String → Option ℤ → Option MetricUrgency
  classify_at m thresholds now due none = none
  classify_at m thresholds now due (some at) =
      let minutes_left = round_minutes (at -ℤ pos now) in
      urgency_at m due minutes_left
        (level_of (threshold_of thresholds (family_of m.metric)) minutes_left)

  -- `hasPendingDeadline` is the running stage and a `breach_at` that is a text
  abbrev pub classify_due :
      ZendeskSlaLiveMetric → SlaThresholds → ℕ → Option String → Option MetricUrgency
  classify_due m thresholds now none = none
  classify_due m thresholds now (some due) =
      if not (has_running_stage m.stage)
      then none
      else classify_at m thresholds now due (date_parse due)

  unfoldable pub classify_metric : ZendeskSlaLiveMetric → SlaThresholds → ℕ → Option MetricUrgency
  classify_metric m thresholds now = classify_due m thresholds now m.breach_at

  -- a comparison with NaN is false
  abbrev pub is_sooner : Option ℤ → Option ℤ → Bool
  is_sooner (some a) (some b) = ltb_ℤ a b
  is_sooner _ _ = false

  -- `compareUrgency(a, b) < 0`
  unfoldable pub is_more_urgent : MetricUrgency → MetricUrgency → Bool
  is_more_urgent a b =
      if level_index a.level == level_index b.level
      then is_sooner (date_parse a.breach_at) (date_parse b.breach_at)
      else ltb (level_index a.level) (level_index b.level)

  abbrev pub worse_of : Option MetricUrgency → Option MetricUrgency → Option MetricUrgency
  worse_of worst none = worst
  worse_of none (some u) = some u
  worse_of (some worst) (some u) = if is_more_urgent u worst then some u else some worst

  -- the loop over the metrics
  unfoldable pub worst_from :
      Option MetricUrgency → List ZendeskSlaLiveMetric → SlaThresholds → ℕ → Option MetricUrgency
  worst_from worst [] thresholds now = worst
  worst_from worst (m ∷ metrics) thresholds now =
      worst_from (worse_of worst (classify_metric m thresholds now)) metrics thresholds now

  -- a ticket without SLA data has no metrics
  unfoldable pub ticket_urgency :
      Option (List ZendeskSlaLiveMetric) → SlaThresholds → ℕ → Option MetricUrgency
  unfolding worst_from
  ticket_urgency none thresholds now = worst_from none [] thresholds now
  ticket_urgency (some metrics) thresholds now = worst_from none metrics thresholds now
