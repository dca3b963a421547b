-- ===== src/Sla/Preferences/Ordered.antt =====
-- `applyPreferenceChange` of utils/sla-preferences.ts: what is stored after an accepted change.
use zendesk_mcp_server.Base.{
  ℕ, ◌≡◌, refl, ◌∙◌, ◌≢◌, ◌⊎◌, inl, inr, false, Option, none, some, arith, ltb, Bool-cases,
  number_key, text_key, Result, ok, err,
}
use zendesk_mcp_server.Sla.Thresholds.{
  SlaFamily, reply, wait, SlaThreshold, SlaThresholds, IsOrdered, AreOrdered,
}
use zendesk_mcp_server.Sla.Preferences.{
  SlaPreferences, set_of, effective_thresholds, Reset, reset_family, reset_all, SlaPreferenceChange,
  warning_of, critical_of, ChangeError, FamilyOutcome, kept, reset_to_default, set_to, Reading,
  absent, minutes, bad, read_duration, is_reset, new_threshold, change_from, change_family,
  apply_outcome, then_family, or_no_preferences, start_from, apply_preference_change,
}

-- A stored threshold is ordered, where there is one.
abbrev pub SetOrdered : Option SlaThreshold → Type 0
SetOrdered none = Unit
SetOrdered (some t) = IsOrdered t

abbrev pub PreferencesOrdered : SlaPreferences → Type 0
PreferencesOrdered prefs = SetOrdered prefs.reply_set × SetOrdered prefs.wait_set

abbrev OutcomeOrdered : Result ChangeError FamilyOutcome → Type 0
OutcomeOrdered (ok (set_to t)) = IsOrdered t
OutcomeOrdered _ = Unit

new_threshold-ordered : (family : SlaFamily) (w c : ℕ) → OutcomeOrdered (new_threshold family w c)
new_threshold-ordered family w c = elim (Bool-cases (ltb w c)) [
  | inl wider ↦ rw wider tt
  | inr fine ↦ rw fine (ground arith)
]

change_from-ordered :
    (family : SlaFamily) (current : SlaThreshold) (reset : Option Reset) (w c : Reading)
    → OutcomeOrdered (change_from family current reset w c)
change_from-ordered family current reset (bad raw) c = tt
change_from-ordered family current reset absent (bad raw) = tt
change_from-ordered family current reset (minutes w) (bad raw) = tt
change_from-ordered family current reset absent absent = elim (Bool-cases (is_reset family reset)) [
  | inl yes_reset ↦ rw yes_reset tt
  | inr no_reset ↦ rw no_reset tt
]
change_from-ordered family current reset absent (minutes c) =
    elim (Bool-cases (is_reset family reset)) [
      | inl yes_reset ↦ rw yes_reset tt
      | inr no_reset ↦ rw no_reset (new_threshold-ordered family current.warning c)
    ]
change_from-ordered family current reset (minutes w) absent =
    elim (Bool-cases (is_reset family reset)) [
      | inl yes_reset ↦ rw yes_reset tt
      | inr no_reset ↦ rw no_reset (new_threshold-ordered family w current.critical)
    ]
change_from-ordered family current reset (minutes w) (minutes c) =
    elim (Bool-cases (is_reset family reset)) [
      | inl yes_reset ↦ rw yes_reset tt
      | inr no_reset ↦ rw no_reset (new_threshold-ordered family w c)
    ]

apply_outcome-ordered :
    (family : SlaFamily) (start next : SlaPreferences) (o : Result ChangeError FamilyOutcome)
    → OutcomeOrdered o
    → PreferencesOrdered start
    → apply_outcome family start o ≡ ok next
    → PreferencesOrdered next
apply_outcome-ordered family start next (err e) o h eq = cc
apply_outcome-ordered family start next (ok kept) o h eq = ground arith
apply_outcome-ordered reply start next (ok reset_to_default) o h eq = ground arith
apply_outcome-ordered wait start next (ok reset_to_default) o h eq = ground arith
apply_outcome-ordered reply start next (ok (set_to t)) o h eq = ground arith
apply_outcome-ordered wait start next (ok (set_to t)) o h eq = ground arith

start_from-ordered :
    (reset : Option Reset) (prefs : Option SlaPreferences)
    → PreferencesOrdered (or_no_preferences prefs)
    → PreferencesOrdered (start_from reset prefs)
start_from-ordered none prefs h = h
start_from-ordered (some (reset_family f)) prefs h = h
start_from-ordered (some reset_all) prefs h = (tt, tt)

then_family-ok :
    (first : Result ChangeError SlaPreferences)
    (more : SlaPreferences → Result ChangeError SlaPreferences) (next : SlaPreferences)
    → then_family first more ≡ ok next
    → (middle : SlaPreferences) × (first ≡ ok middle) × (more middle ≡ ok next)
then_family-ok (err e) more next h = cc
then_family-ok (ok middle) more next h = (middle, refl, h)

effective-ordered :
    (admin : SlaThresholds) (prefs : SlaPreferences)
    → AreOrdered admin
    → PreferencesOrdered prefs
    → AreOrdered (effective_thresholds admin (some prefs))
unfolding effective_thresholds
effective-ordered admin prefs a p = ground arith

-- From ordered server defaults and ordered stored preferences, an accepted change stores ordered
-- preferences: the thresholds then in force never have a critical window wider than the warning.
pub apply_preference_change-AreOrdered :
    (admin : SlaThresholds) (prefs : Option SlaPreferences) (change : SlaPreferenceChange)
    (next : SlaPreferences)
    → AreOrdered admin
    → PreferencesOrdered (or_no_preferences prefs)
    → apply_preference_change admin prefs change ≡ ok next
    → PreferencesOrdered next × AreOrdered (effective_thresholds admin (some next))
unfolding apply_preference_change
apply_preference_change-AreOrdered admin prefs change next a p h =
    let start = start_from change.reset prefs in
    let first = change_family reply (effective_thresholds admin prefs).reply_family change in
    let second = change_family wait (effective_thresholds admin prefs).wait_family change in
    let (middle, one, two) =
      then_family-ok (apply_outcome reply start first) (λ m. apply_outcome wait m second) next h in
    let ordered =
      apply_outcome-ordered wait middle next second (change_from-ordered wait _ change.reset _ _)
        (apply_outcome-ordered reply start middle first
          (change_from-ordered reply _ change.reset _ _) (start_from-ordered change.reset prefs p)
          one)
        two in
    (ordered, effective-ordered admin next a ordered)

SlaFamily-discrete : Discrete SlaFamily
SlaFamily-discrete = hlevel

-- A family that a change leaves alone: no half of it is given, and it is not reset.
pub record Untouched (change : SlaPreferenceChange) (family : SlaFamily) : Type 0 where
  pub no_warning : warning_of change family ≡ none
  pub no_critical : critical_of change family ≡ none
  pub no_reset : is_reset family change.reset ≡ false

change_family-kept :
    (family : SlaFamily) (current : SlaThreshold) (change : SlaPreferenceChange)
    → Untouched change family
    → change_family family current change ≡ ok kept
unfolding change_family
change_family-kept family current change u =
    rw (u.no_warning, u.no_critical) (unfold read_duration in rw u.no_reset)

start_from-untouched :
    (reset : Option Reset) (prefs : Option SlaPreferences) (family : SlaFamily)
    → is_reset family reset ≡ false
    → set_of (some (start_from reset prefs)) family ≡ set_of prefs family
start_from-untouched (some reset_all) prefs family h = cc
start_from-untouched (some (reset_family f)) none reply h = refl
start_from-untouched (some (reset_family f)) none wait h = refl
start_from-untouched (some (reset_family f)) (some prefs) family h = refl
start_from-untouched none none reply h = refl
start_from-untouched none none wait h = refl
start_from-untouched none (some prefs) family h = refl

apply_outcome-other :
    (family other : SlaFamily) (start next : SlaPreferences) (o : Result ChangeError FamilyOutcome)
    → (family ≢ other) ⊎ (o ≡ ok kept)
    → apply_outcome family start o ≡ ok next
    → set_of (some next) other ≡ set_of (some start) other
apply_outcome-other family other start next (err e) apart h = cc
apply_outcome-other family other start next (ok kept) apart h = ground arith
apply_outcome-other reply reply start next (ok reset_to_default) (inl apart) h = absurd (apart refl)
apply_outcome-other reply wait start next (ok reset_to_default) (inl apart) h = ground arith
apply_outcome-other wait reply start next (ok reset_to_default) (inl apart) h = ground arith
apply_outcome-other wait wait start next (ok reset_to_default) (inl apart) h = absurd (apart refl)
apply_outcome-other family other start next (ok reset_to_default) (inr same) h = cc
apply_outcome-other reply reply start next (ok (set_to t)) (inl apart) h = absurd (apart refl)
apply_outcome-other reply wait start next (ok (set_to t)) (inl apart) h = ground arith
apply_outcome-other wait reply start next (ok (set_to t)) (inl apart) h = ground arith
apply_outcome-other wait wait start next (ok (set_to t)) (inl apart) h = absurd (apart refl)
apply_outcome-other family other start next (ok (set_to t)) (inr same) h = cc

-- An accepted change leaves what is stored for a family alone, if it gives neither half of that
-- family's thresholds and does not reset it.
pub apply_preference_change-Untouched :
    (admin : SlaThresholds) (prefs : Option SlaPreferences) (change : SlaPreferenceChange)
    (next : SlaPreferences) (family : SlaFamily)
    → Untouched change family
    → apply_preference_change admin prefs change ≡ ok next
    → set_of (some next) family ≡ set_of prefs family
unfolding apply_preference_change
apply_preference_change-Untouched admin prefs change next family u h =
    let start = start_from change.reset prefs in
    let current = effective_thresholds admin prefs in
    let first = change_family reply current.reply_family change in
    let second = change_family wait current.wait_family change in
    let (middle, one, two) =
      then_family-ok (apply_outcome reply start first) (λ m. apply_outcome wait m second) next h in
    let reply_part : (reply ≢ family) ⊎ (first ≡ ok kept) =
      apart_or_kept reply current.reply_family in
    let wait_part : (wait ≢ family) ⊎ (second ≡ ok kept) = apart_or_kept wait current.wait_family in
    apply_outcome-other wait family middle next second wait_part two
    ∙ apply_outcome-other reply family start middle first reply_part one
    ∙ start_from-untouched change.reset prefs family u.no_reset
  where
    apart_or_kept :
        (f : SlaFamily) (t : SlaThreshold) → (f ≢ family) ⊎ (change_family f t change ≡ ok kept)
    apart_or_kept f t = elim (SlaFamily-discrete f family) [
      | yes same ↦ inr (change_family-kept f t change (rw same u))
      | no other ↦ inl other
    ]
