-- ===== src/Sla/Preferences.antt =====
-- utils/sla-preferences.ts: a user's thresholds, and a change to them. A refusal is the reason,
-- without its text.
pub mod Ordered
use zendesk_mcp_server.Base.{
  ℕ, Bool, true, false, not, ◌&&◌, ◌||◌, Option, none, some, List, ltb, if◌then◌else◌, number_key,
  text_key, Result, ok, err,
}
use zendesk_mcp_server.Sla.Durations.{parse_duration}
use zendesk_mcp_server.Sla.Thresholds.{SlaFamily, reply, wait, SlaThreshold, SlaThresholds}

pub record SlaPreferences : Type 0 where
  pub reply_set : Option SlaThreshold
  pub wait_set : Option SlaThreshold
  pub introduced : Option Bool

abbrev pub no_preferences : SlaPreferences
no_preferences = record { reply_set = none; wait_set = none; introduced = none }

-- `prefs?.[family]`
abbrev pub set_of : Option SlaPreferences → SlaFamily → Option SlaThreshold
set_of none family = none
set_of (some prefs) reply = prefs.reply_set
set_of (some prefs) wait = prefs.wait_set

abbrev pub or_else : Option SlaThreshold → SlaThreshold → SlaThreshold
or_else none t = t
or_else (some s) t = s

unfoldable pub effective_thresholds : SlaThresholds → Option SlaPreferences → SlaThresholds
effective_thresholds admin prefs = record {
  reply_family = or_else (set_of prefs reply) admin.reply_family;
  wait_family = or_else (set_of prefs wait) admin.wait_family;
}

pub data Reset : Type 0 where
  reset_family : SlaFamily → Reset
  reset_all : Reset

pub record SlaPreferenceChange : Type 0 where
  pub reply_warning : Option (List ℕ)
  pub reply_critical : Option (List ℕ)
  pub wait_warning : Option (List ℕ)
  pub wait_critical : Option (List ℕ)
  pub reset : Option Reset

abbrev pub warning_of : SlaPreferenceChange → SlaFamily → Option (List ℕ)
warning_of change reply = change.reply_warning
warning_of change wait = change.wait_warning

abbrev pub critical_of : SlaPreferenceChange → SlaFamily → Option (List ℕ)
critical_of change reply = change.reply_critical
critical_of change wait = change.wait_critical

abbrev pub is_absent {ℓ} : {A : Type ℓ} → Option A → Bool
is_absent none = true
is_absent (some a) = false

unfoldable pub is_empty_change : SlaPreferenceChange → Bool
is_empty_change change =
    is_absent change.reply_warning
    && is_absent change.reply_critical
    && is_absent change.wait_warning
    && is_absent change.wait_critical
    && is_absent change.reset

pub data ChangeError : Type 0 where
  unreadable : List ℕ → ChangeError
  reset_and_set : SlaFamily → ChangeError
  critical_longer : SlaFamily → ChangeError

pub data FamilyOutcome : Type 0 where
  kept reset_to_default : FamilyOutcome
  set_to : SlaThreshold → FamilyOutcome

-- a field of a change: absent, the minutes that it gives, or its text where that is no duration
pub data Reading : Type 0 where
  absent : Reading
  minutes : ℕ → Reading
  bad : List ℕ → Reading

abbrev pub reading_from : List ℕ → Option ℕ → Reading
reading_from raw none = bad raw
reading_from raw (some n) = minutes n

unfoldable pub read_duration : Option (List ℕ) → Reading
unfolding parse_duration
read_duration none = absent
read_duration (some raw) = reading_from raw (parse_duration raw)

abbrev pub family_beq : SlaFamily → SlaFamily → Bool
family_beq reply reply = true
family_beq wait wait = true
family_beq _ _ = false

abbrev pub is_reset : SlaFamily → Option Reset → Bool
is_reset family none = false
is_reset family (some (reset_family f)) = family_beq f family
is_reset family (some reset_all) = true

abbrev pub is_given : Reading → Bool
is_given absent = false
is_given _ = true

abbrev pub minutes_or : Reading → ℕ → ℕ
minutes_or (minutes n) current = n
minutes_or _ current = current

abbrev pub new_threshold : SlaFamily → ℕ → ℕ → Result ChangeError FamilyOutcome
new_threshold family warning critical =
    if ltb warning critical
    then err (critical_longer family)
    else ok (set_to (record { warning = warning; critical = critical }))

abbrev pub change_from :
    SlaFamily → SlaThreshold → Option Reset → Reading → Reading → Result ChangeError FamilyOutcome
change_from family current reset (bad raw) critical = err (unreadable raw)
change_from family current reset absent (bad raw) = err (unreadable raw)
change_from family current reset (minutes w) (bad raw) = err (unreadable raw)
change_from family current reset warning critical =
    let given = is_given warning || is_given critical in
    if is_reset family reset
    then if given then err (reset_and_set family) else ok reset_to_default
    else if not given
    then ok kept
    else new_threshold family (minutes_or warning current.warning)
        (minutes_or critical current.critical)

unfoldable pub change_family :
    SlaFamily → SlaThreshold → SlaPreferenceChange → Result ChangeError FamilyOutcome
unfolding read_duration
change_family family current change =
    change_from family current change.reset (read_duration (warning_of change family))
      (read_duration (critical_of change family))

abbrev pub write_family : SlaFamily → Option SlaThreshold → SlaPreferences → SlaPreferences
write_family reply t prefs = record prefs { reply_set = t }
write_family wait t prefs = record prefs { wait_set = t }

abbrev pub apply_outcome :
    SlaFamily
    → SlaPreferences
    → Result ChangeError FamilyOutcome
    → Result ChangeError SlaPreferences
apply_outcome family next (err e) = err e
apply_outcome family next (ok kept) = ok next
apply_outcome family next (ok reset_to_default) = ok (write_family family none next)
apply_outcome family next (ok (set_to t)) = ok (write_family family (some t) next)

abbrev pub then_family :
    Result ChangeError SlaPreferences
    → (SlaPreferences → Result ChangeError SlaPreferences)
    → Result ChangeError SlaPreferences
then_family (err e) more = err e
then_family (ok next) more = more next

abbrev pub or_no_preferences : Option SlaPreferences → SlaPreferences
or_no_preferences none = no_preferences
or_no_preferences (some prefs) = prefs

abbrev pub start_from : Option Reset → Option SlaPreferences → SlaPreferences
start_from (some reset_all) prefs = no_preferences
start_from (some (reset_family f)) prefs = or_no_preferences prefs
start_from none prefs = or_no_preferences prefs

-- the loop over the two families
unfoldable pub apply_preference_change :
    SlaThresholds → Option SlaPreferences → SlaPreferenceChange → Result ChangeError SlaPreferences
unfolding effective_thresholds change_family
apply_preference_change admin prefs change =
    let current = effective_thresholds admin prefs in
    then_family
      (apply_outcome reply (start_from change.reset prefs)
        (change_family reply current.reply_family change))
      (λ next. apply_outcome wait next (change_family wait current.wait_family change))
