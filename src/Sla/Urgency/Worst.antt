-- ===== src/Sla/Urgency/Worst.antt =====
-- `ticketUrgency` of utils/sla-urgency.ts.
use zendesk_mcp_server.Base.{
  ℕ, String, ◌≡◌, refl, ◌⊎◌, inl, inr, true, false, Option, none, some, List, [], ◌∷◌, arith,
  Bool-cases, Option-cases, number_key, text_key, All, In,
}
use zendesk_mcp_server.Base.Int.{ℤ}
use zendesk_mcp_server.Sla.Thresholds.{SlaThresholds}
use zendesk_mcp_server.Sla.Urgency.{
  ZendeskSlaLiveMetric, MetricUrgency, classify_metric, is_more_urgent, worst_from, ticket_urgency,
}
use zendesk_mcp_server.Sla.Urgency.Classified.{classify_metric_sound}

module _ (date_parse : String → Option ℤ) where
  abbrev Readable : MetricUrgency → Type 0
  Readable u = (at : ℤ) × (date_parse u.breach_at ≡ some at)

  -- Urgency is a strict weak order on readable deadlines.
  not_more_urgent_trans :
      (v w u : MetricUrgency) (a b c : ℤ)
      → date_parse v.breach_at ≡ some a
      → date_parse w.breach_at ≡ some b
      → date_parse u.breach_at ≡ some c
      → is_more_urgent date_parse v w ≡ false
      → is_more_urgent date_parse w u ≡ false
      → is_more_urgent date_parse v u ≡ false
  unfolding is_more_urgent
  not_more_urgent_trans v w u a b c pv pw pu h k = ground arith

  not_more_urgent_self : (u : MetricUrgency) → is_more_urgent date_parse u u ≡ false
  unfolding is_more_urgent
  not_more_urgent_self u = ground arith

  not_more_urgent_asym :
      (u w : MetricUrgency) (a b : ℤ)
      → date_parse u.breach_at ≡ some a
      → date_parse w.breach_at ≡ some b
      → is_more_urgent date_parse u w ≡ true
      → is_more_urgent date_parse w u ≡ false
  unfolding is_more_urgent
  not_more_urgent_asym u w a b pu pw h = ground arith

  module _ (thresholds : SlaThresholds) (now : ℕ) where
    abbrev pub Classifies : ZendeskSlaLiveMetric → MetricUrgency → Type 0
    Classifies m u = classify_metric date_parse m thresholds now ≡ some u

    -- No urgency of the list is more urgent than `u`.
    abbrev pub IsWorst : MetricUrgency → List ZendeskSlaLiveMetric → Type 0
    IsWorst u =
        All (λ m. (v : MetricUrgency) → Classifies m v → is_more_urgent date_parse v u ≡ false)

    readable : (m : ZendeskSlaLiveMetric) (u : MetricUrgency) → Classifies m u → Readable u
    readable m u h =
        let (_, _, at, read, _, _, _, _) = classify_metric_sound date_parse m thresholds now u h in
        (at, read)

    worst_from-some :
        (worst : MetricUrgency) (metrics : List ZendeskSlaLiveMetric) (a : ℤ)
        → date_parse worst.breach_at ≡ some a
        → (u : MetricUrgency) × (worst_from date_parse (some worst) metrics thresholds now ≡ some u)
          × IsWorst u metrics
          × (is_more_urgent date_parse worst u ≡ false)
          × (Readable u)
          × ((u ≡ worst) ⊎ ((m : ZendeskSlaLiveMetric) × In m metrics × Classifies m u))
    unfolding worst_from
    worst_from-some worst [] a read =
        (worst, refl, tt, not_more_urgent_self worst, (a, read), inl refl)
    worst_from-some worst (m ∷ metrics) a read =
        elim (Option-cases (classify_metric date_parse m thresholds now)) [
          | inl calm ↦
              let (u, found, all, first, at, origin) = worst_from-some worst metrics a read in
              (
                u,
                rw calm found,
                ((λ v h. cc calm), all),
                first,
                at,
                elim origin [ inl e ↦ inl e | inr (n, member, c) ↦ inr (n, inr member, c) ],
              )
          | inr (v, here) ↦ elim (Bool-cases (is_more_urgent date_parse v worst)) [
            | inl more ↦
                let (b, read') = readable m v here in
                let (u, found, all, first, (c, at), origin) = worst_from-some v metrics b read' in
                (
                  u,
                  rw (here, more) found,
                  ((λ v' h. let e : v ≡ v' = ground arith in rw (← e) first), all),
                  not_more_urgent_trans worst v u a b c read read' at
                      (not_more_urgent_asym v worst b a read' read more) first,
                  (c, at),
                  elim origin [
                    | inl e ↦ inr (m, inl refl, rw e here)
                    | inr (n, member, k) ↦ inr (n, inr member, k)
                  ],
                )
            | inr less ↦
                let (b, read') = readable m v here in
                let (u, found, all, first, (c, at), origin) =
                  worst_from-some worst metrics a read in
                (
                  u,
                  rw (here, less) found,
                  (
                    (λ v' h.
                        let e : v ≡ v' = ground arith in
                        rw (← e) (not_more_urgent_trans v worst u b a c read' read at less first)),
                    all,
                  ),
                  first,
                  (c, at),
                  elim origin [ inl e ↦ inl e | inr (n, member, k) ↦ inr (n, inr member, k) ],
                )
          ]
        ]

    worst_from-none :
        (metrics : List ZendeskSlaLiveMetric)
        → (All (λ m. classify_metric date_parse m thresholds now ≡ none) metrics
            × (worst_from date_parse none metrics thresholds now ≡ none))
          ⊎ ((u : MetricUrgency) × (worst_from date_parse none metrics thresholds now ≡ some u)
              × IsWorst u metrics
              × ((m : ZendeskSlaLiveMetric) × In m metrics × Classifies m u))
    unfolding worst_from
    worst_from-none [] = inl (tt, refl)
    worst_from-none (m ∷ metrics) =
        elim (Option-cases (classify_metric date_parse m thresholds now)) [
          | inl calm ↦ elim (worst_from-none metrics) [
            | inl (all, none_found) ↦ inl ((calm, all), rw calm none_found)
            | inr (u, found, all, (n, member, k)) ↦
                inr (u, rw calm found, ((λ v h. cc calm), all), (n, inr member, k))
          ]
          | inr (v, here) ↦
              let (b, read) = readable m v here in
              let (u, found, all, first, at, origin) = worst_from-some v metrics b read in
              inr (
                u,
                rw here found,
                ((λ v' h. let e : v ≡ v' = ground arith in rw (← e) first), all),
                elim origin [
                  | inl e ↦ (m, inl refl, rw e here)
                  | inr (n, member, k) ↦ (n, inr member, k)
                ],
              )
        ]

    -- A ticket has no urgency exactly where none of its metrics calls for attention. Otherwise its
    -- urgency is that of one of its metrics, and none of them is more urgent.
    pub ticket_urgency-IsWorst :
        (metrics : List ZendeskSlaLiveMetric)
        → (All (λ m. classify_metric date_parse m thresholds now ≡ none) metrics
            × (ticket_urgency date_parse (some metrics) thresholds now ≡ none))
          ⊎ ((u : MetricUrgency) × (ticket_urgency date_parse (some metrics) thresholds now
                ≡ some u)
              × IsWorst u metrics
              × ((m : ZendeskSlaLiveMetric) × In m metrics × Classifies m u))
    unfolding ticket_urgency
    ticket_urgency-IsWorst metrics = worst_from-none metrics
