-- ===== src/Sla/Urgency/Classified.antt =====
-- `classifyMetric` of utils/sla-urgency.ts, at one time and as time goes by.
use zendesk_mcp_server.Base.{
  ℕ, ◌≤◌, String, ◌≡◌, ◌∙◌, ◌↔◌, inl, inr, true, Option, none, some, arith, Bool-cases,
  Option-cases, number_key, text_key,
}
use zendesk_mcp_server.Base.Int.{ℤ, pos, negsuc, ◌+ℤ◌, ◌-ℤ◌, ◌≤ℤ◌, ◌<ℤ◌, ltb_ℤ, leb_ℤ, int_laws}
use zendesk_mcp_server.Sla.Thresholds.{SlaThreshold, SlaThresholds, family_of, threshold_of}
use zendesk_mcp_server.Sla.Urgency.{
  UrgencyLevel, breached, critical_level, warning_level, level_index, ZendeskSlaLiveMetric,
  MetricUrgency, has_running_stage, floor_div, minute_ms, round_minutes, level_of, urgency_at,
  classify_metric,
}

floor_div_mono : (a b : ℤ) → a ≤ℤ b → floor_div a minute_ms ≤ℤ floor_div b minute_ms
floor_div_mono (pos a) (pos b) h = omega arith
floor_div_mono (pos a) (negsuc b) h = omega arith
floor_div_mono (negsuc a) (pos b) h = omega arith
floor_div_mono (negsuc a) (negsuc b) h = omega arith

round_minutes_mono : (a b : ℤ) → a ≤ℤ b → round_minutes a ≤ℤ round_minutes b
unfolding round_minutes
round_minutes_mono a b h = floor_div_mono (a +ℤ pos 30000) (b +ℤ pos 30000) (omega int_laws)

level_of_mono :
    (t : SlaThreshold) (later earlier : ℤ) (level : UrgencyLevel)
    → later ≤ℤ earlier
    → level_of t earlier ≡ some level
    → (level' : UrgencyLevel) × (level_of t later ≡ some level')
      × (level_index level' ≤ level_index level)
unfolding level_of
level_of_mono t later earlier level h e = elim (Bool-cases (ltb_ℤ later (pos 0))) [
  | inl gone ↦ (breached, rw gone, omega arith)
  | inr coming ↦ elim (Bool-cases (leb_ℤ later (pos t.critical))) [
    | inl close ↦ (critical_level, rw (coming, close), ground arith)
    | inr far ↦ (warning_level, ground arith, ground arith)
  ]
]

urgency_at-some :
    (m : ZendeskSlaLiveMetric) (due : String) (left : ℤ) (o : Option UrgencyLevel)
    (u : MetricUrgency)
    → urgency_at m due left o ≡ some u
    → (o ≡ some u.level) × (u.minutes_left ≡ left) × (u.breach_at ≡ due) × (u.metric ≡ m.metric)
urgency_at-some m due left none u h = cc
urgency_at-some m due left (some level) u h = ground arith

module _ (date_parse : String → Option ℤ) where
  -- What a classified metric is made of.
  classified :
      (m : ZendeskSlaLiveMetric) (thresholds : SlaThresholds) (now : ℕ) (u : MetricUrgency)
      → classify_metric date_parse m thresholds now ≡ some u
      → (due : String) × (m.breach_at ≡ some due)
        × (has_running_stage m.stage ≡ true)
        × (at : ℤ) × (date_parse due ≡ some at)
        × (u.minutes_left ≡ round_minutes (at -ℤ pos now))
        × (u.breach_at ≡ due)
        × (u.metric ≡ m.metric)
        × (level_of (threshold_of thresholds (family_of m.metric)) u.minutes_left ≡ some u.level)
  unfolding classify_metric
  classified m thresholds now u h = elim (Option-cases m.breach_at) [
    | inl missing ↦ absurd (ground arith)
    | inr (due, there) ↦ elim (Bool-cases (has_running_stage m.stage)) [
      | inl running ↦ elim (Option-cases (date_parse due)) [
        | inl unreadable ↦ absurd (ground arith)
        | inr (at, read) ↦
            let left = round_minutes (at -ℤ pos now) in
            let (level, minutes, quoted, named) =
              urgency_at-some m due left
                (level_of (threshold_of thresholds (family_of m.metric)) left) u
                (rw (there, running, read) at h) in
            (due, there, running, at, read, minutes, quoted, named, rw minutes level)
      ]
      | inr idle ↦ absurd (ground arith)
    ]
  ]

  -- What a running metric with a readable deadline is classified as.
  classify_running :
      (m : ZendeskSlaLiveMetric) (thresholds : SlaThresholds) (now : ℕ) (due : String) (at : ℤ)
      → m.breach_at ≡ some due
      → has_running_stage m.stage ≡ true
      → date_parse due ≡ some at
      → classify_metric date_parse m thresholds now
        ≡ urgency_at m due (round_minutes (at -ℤ pos now)) (
            level_of (threshold_of thresholds (family_of m.metric)) (round_minutes (at -ℤ pos now)))
  unfolding classify_metric
  classify_running m thresholds now due at there running read = rw (there, running, read)

  level_of_cases :
      (t : SlaThreshold) (left : ℤ) (level : UrgencyLevel)
      → level_of t left ≡ some level
      → ((level ≡ breached) ↔ (left <ℤ pos 0))
        × ((level ≡ critical_level) → left ≤ℤ pos t.critical)
        × ((level ≡ warning_level) → (pos t.critical <ℤ left) × (left ≤ℤ pos t.warning))
  unfolding level_of
  level_of_cases t left level h = (ground arith, ground arith, ground arith)

  -- Every classified metric is running and has a readable deadline, quoted as sent; the minutes
  -- left are rounded from it. It is BREACHED exactly if those are negative (so not for half a minute
  -- past the deadline, which rounds to none), CRITICAL only within
  -- the critical threshold of its family, and WARNING only beyond that one and within the warning.
  pub classify_metric_sound :
      (m : ZendeskSlaLiveMetric) (thresholds : SlaThresholds) (now : ℕ) (u : MetricUrgency)
      → classify_metric date_parse m thresholds now ≡ some u
      → (has_running_stage m.stage ≡ true)
        × (m.breach_at ≡ some u.breach_at)
        × (at : ℤ) × (date_parse u.breach_at ≡ some at)
        × (u.minutes_left ≡ round_minutes (at -ℤ pos now))
        × ((u.level ≡ breached) ↔ (u.minutes_left <ℤ pos 0))
        × ((u.level ≡ critical_level)
            → u.minutes_left ≤ℤ pos (threshold_of thresholds (family_of m.metric)).critical)
        × ((u.level ≡ warning_level)
            → (pos (threshold_of thresholds (family_of m.metric)).critical <ℤ u.minutes_left)
              × (u.minutes_left ≤ℤ pos (threshold_of thresholds (family_of m.metric)).warning))
  classify_metric_sound m thresholds now u h =
      let (due, there, running, at, read, minutes, quoted, named, level) =
        classified m thresholds now u h in
      let (b, c, w) =
        level_of_cases (threshold_of thresholds (family_of m.metric)) u.minutes_left u.level
          level in
      (running, rw quoted there, at, rw quoted read, minutes, b, c, w)

  -- As time goes by, a metric that calls for attention keeps calling, at the same level or a more
  -- urgent one.
  pub classify_metric_escalates :
      (m : ZendeskSlaLiveMetric) (thresholds : SlaThresholds) (now later : ℕ) (u : MetricUrgency)
      → now ≤ later
      → classify_metric date_parse m thresholds now ≡ some u
      → (u' : MetricUrgency) × (classify_metric date_parse m thresholds later ≡ some u')
        × (level_index u'.level ≤ level_index u.level)
  classify_metric_escalates m thresholds now later u h e =
      let (due, there, running, at, read, minutes, quoted, named, level) =
        classified m thresholds now u e in
      let t = threshold_of thresholds (family_of m.metric) in
      let left = round_minutes (at -ℤ pos later) in
      let less : left ≤ℤ round_minutes (at -ℤ pos now) =
        round_minutes_mono (at -ℤ pos later) (at -ℤ pos now) (omega int_laws) in
      let (level', is_level, le) =
        level_of_mono t left (round_minutes (at -ℤ pos now)) u.level less (rw minutes at level) in
      (
        record { metric = m.metric; level = level'; breach_at = due; minutes_left = left },
        classify_running m thresholds later due at there running read ∙ rw is_level,
        le,
      )
