-- ===== src/Sla/Thresholds.antt =====
-- utils/sla-thresholds.ts: the two families of metrics and their alert thresholds. A refusal is
-- the reason, without its text.
use zendesk_mcp_server.Base.{
  ℕ, ◌*◌, ◌≤◌, String, ◌≡◌, inl, inr, Option, none, some, List, [], ◌∷◌, map, arith, ltb,
  if◌then◌else◌, Option-cases, ◌==◌, number_key, text_key, includes, Result, ok, err,
}
use zendesk_mcp_server.Text.{trim}
use zendesk_mcp_server.Sla.Durations.{parse_duration}

pub data SlaFamily : Type 0 where
  reply wait : SlaFamily

abbrev pub reply_metrics : List String
reply_metrics = "first_reply_time" ∷ "next_reply_time" ∷ []

unfoldable pub family_of : String → SlaFamily
family_of metric = if includes reply_metrics metric then reply else wait

pub record SlaThreshold : Type 0 where
  pub warning : ℕ
  pub critical : ℕ

pub record SlaThresholds : Type 0 where
  pub reply_family : SlaThreshold
  pub wait_family : SlaThreshold

abbrev pub threshold_of : SlaThresholds → SlaFamily → SlaThreshold
threshold_of t reply = t.reply_family
threshold_of t wait = t.wait_family

abbrev pub default_sla_thresholds : SlaThresholds
default_sla_thresholds = record {
  reply_family = record { warning = 4 * 60; critical = 60 };
  wait_family = record { warning = 2 * 24 * 60; critical = 8 * 60 };
}

pub data ThresholdError : Type 0 where
  not_a_duration : List ℕ → ThresholdError
  critical_longer : ThresholdError
  not_a_pair : ThresholdError

abbrev pub threshold_from :
    List ℕ → List ℕ → Option ℕ → Option ℕ → Result ThresholdError SlaThreshold
threshold_from warning critical none c = err (not_a_duration warning)
threshold_from warning critical (some w) none = err (not_a_duration critical)
threshold_from warning critical (some w) (some c) =
    if ltb w c then err critical_longer else ok (record { warning = w; critical = c })

unfoldable pub to_threshold : List ℕ → List ℕ → Result ThresholdError SlaThreshold
unfolding parse_duration
to_threshold warning critical =
    threshold_from warning critical (parse_duration warning) (parse_duration critical)

-- `raw.split(',')`: the pieces, at least one
unfoldable pub split_comma : List ℕ → List (List ℕ)
split_comma [] = [] ∷ []
split_comma (c ∷ s) =
    let rest = split_comma s in
    if c == b','
    then [] ∷ rest
    else elim rest [ [] ↦ (c ∷ []) ∷ [] | piece ∷ pieces ↦ (c ∷ piece) ∷ pieces ]

abbrev pub threshold_of_parts : List (List ℕ) → Result ThresholdError SlaThreshold
threshold_of_parts ((a ∷ warning) ∷ (b ∷ critical) ∷ []) = to_threshold (a ∷ warning) (b ∷ critical)
threshold_of_parts _ = err not_a_pair

unfoldable pub parse_threshold_pair : List ℕ → Result ThresholdError SlaThreshold
unfolding to_threshold split_comma trim
parse_threshold_pair raw = threshold_of_parts (map trim (split_comma raw))

-- A CRITICAL window is never wider than its WARNING window.
abbrev pub IsOrdered : SlaThreshold → Type 0
IsOrdered t = t.critical ≤ t.warning

pub record AreOrdered (t : SlaThresholds) : Type 0 where
  pub of_reply : IsOrdered t.reply_family
  pub of_wait : IsOrdered t.wait_family

pub to_threshold-IsOrdered :
    (warning critical : List ℕ) (t : SlaThreshold)
    → to_threshold warning critical ≡ ok t
    → IsOrdered t
      × (parse_duration warning ≡ some t.warning)
      × (parse_duration critical ≡ some t.critical)
unfolding to_threshold
to_threshold-IsOrdered warning critical t h = elim (Option-cases (parse_duration warning)) [
  | inl no_warning ↦ absurd (ground arith)
  | inr (w, has_warning) ↦ elim (Option-cases (parse_duration critical)) [
    | inl no_critical ↦ absurd (ground arith)
    | inr (c, has_critical) ↦
        let e : threshold_from warning critical (some w) (some c) ≡ ok t =
          (rw (has_warning, has_critical) at h) in
        (ground arith, ground arith, ground arith)
  ]
]

threshold_of_parts-IsOrdered :
    (parts : List (List ℕ)) (t : SlaThreshold) → threshold_of_parts parts ≡ ok t → IsOrdered t
threshold_of_parts-IsOrdered [] t h = cc
threshold_of_parts-IsOrdered ([] ∷ []) t h = cc
threshold_of_parts-IsOrdered ([] ∷ b ∷ rest) t h = cc
threshold_of_parts-IsOrdered ((a ∷ s) ∷ []) t h = cc
threshold_of_parts-IsOrdered ((a ∷ s) ∷ [] ∷ rest) t h = cc
threshold_of_parts-IsOrdered ((a ∷ s) ∷ (b ∷ u) ∷ []) t h =
    (to_threshold-IsOrdered (a ∷ s) (b ∷ u) t h).0
threshold_of_parts-IsOrdered ((a ∷ s) ∷ (b ∷ u) ∷ c ∷ rest) t h = cc

-- Every pair that an admin variable may set has a critical window no wider than its warning one.
pub parse_threshold_pair-IsOrdered :
    (raw : List ℕ) (t : SlaThreshold) → parse_threshold_pair raw ≡ ok t → IsOrdered t
unfolding parse_threshold_pair
parse_threshold_pair-IsOrdered raw t h =
    threshold_of_parts-IsOrdered (map trim (split_comma raw)) t h
