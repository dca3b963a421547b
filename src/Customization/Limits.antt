-- ===== src/Customization/Limits.antt =====
-- What holds of the customizations of customization/model.ts once an accepted edit is applied.
use zendesk_mcp_server.Base.{
  ℕ, ◌+◌, ◌≤◌, ◌≡◌, refl, inl, inr, Bool, true, false, not, Option, none, some, List, [], ◌∷◌,
  arith, leb, leb→le, Option-cases, length, number_key, text_key, ==_iff, Result, ok,
}
use zendesk_mcp_server.Base.JsMap
use zendesk_mcp_server.Base.JsMap.{JsMap, IsKeyed}
use zendesk_mcp_server.Text.{trim}
use zendesk_mcp_server.OauthScopes.{list_key}
use zendesk_mcp_server.Customization.{
  instruction_max_chars, instructions_total_max_chars, skill_entry_file, is_skill_path,
  Customizations, or_text,
}
use zendesk_mcp_server.Customization.Planning.{
  CustomizationError, FileChange, PromptDraft, edit_instructions, edit_prompt, edit_skill, require,
  is_in, is_filled, fits, others_length, instructions_total, plan_instructions, plan_prompt, sizes,
  plan_skill, plan_edit,
}

others_length_absent :
    (m : JsMap (List ℕ) (List ℕ)) (scope : List ℕ)
    → JsMap.get m scope ≡ none
    → others_length m scope ≡ sizes m
unfolding others_length JsMap.get
others_length_absent [] scope h = refl
others_length_absent ((s, text) ∷ m) scope h = ground (arith, others_length_absent m scope)

sizes-put :
    (m : JsMap (List ℕ) (List ℕ)) (scope text : List ℕ)
    → IsKeyed m
    → sizes (JsMap.put m scope text) ≡ others_length m scope + length text
unfolding others_length JsMap.put
sizes-put [] scope text keyed = omega arith
sizes-put ((s, old) ∷ m) scope text keyed =
    ground
      (arith, sizes-put m scope text keyed.1, others_length_absent m scope, keyed.0, ==_iff s scope)

require-ok :
    {A : Type 0} (holds : Bool) (e : CustomizationError) (next : Result CustomizationError A)
    (a : A)
    → require holds e next ≡ ok a
    → (holds ≡ true) × (next ≡ ok a)
require-ok true e next a h = (refl, h)
require-ok false e next a h = cc

is_in-absent :
    {V : Type 0} (m : JsMap (List ℕ) V) (k : List ℕ) → not (is_in m k) ≡ true → JsMap.get m k ≡ none
is_in-absent m k h = elim (Option-cases (JsMap.get m k)) [
  | inl missing ↦ missing
  | inr (v, there) ↦ absurd (ground arith)
]

module _ (json_parse : List ℕ → Option (List ℕ)) (json_stringify : List ℕ → List ℕ) where
  -- Where no scope stands twice, an accepted text for the instructions of a scope is at most 4000
  -- characters long, trimmed, and with it in place all instructions together are at most 12000.
  pub plan_edit_bounded :
      (current : Customizations) (scope text : List ℕ) (changes : List FileChange)
      → IsKeyed current.instructions
      → plan_edit json_parse json_stringify current (edit_instructions scope (some text))
        ≡ ok changes
      → (length (trim text) ≤ 4000)
        × (sizes (JsMap.put current.instructions scope (trim text)) ≤ 12000)
  unfolding plan_edit plan_instructions instructions_total
  plan_edit_bounded current scope text changes keyed h =
      let (_, one) = require-ok (is_filled (trim text)) _ _ changes h in
      let (short, two) = require-ok (fits (trim text) instruction_max_chars) _ _ changes one in
      let (total, _) =
        require-ok
          (leb (others_length current.instructions scope + length (trim text))
            instructions_total_max_chars)
          _ _ changes two in
      (
        leb→le _ _ short,
        rw (sizes-put current.instructions scope (trim text) keyed) (leb→le _ _ total),
      )

  -- Prompts and skills share one name space: an accepted prompt text takes no name of a skill, and
  -- an accepted skill file no name of a prompt.
  pub plan_edit_disjoint :
      (current : Customizations) (name : List ℕ) (changes : List FileChange)
      → ((prompt : PromptDraft)
          → plan_edit json_parse json_stringify current (edit_prompt name (some prompt))
            ≡ ok changes
          → JsMap.get current.skills name ≡ none)
        × ((path : Option (List ℕ)) (text : List ℕ)
            → plan_edit json_parse json_stringify current (edit_skill name path (some text))
              ≡ ok changes
            → JsMap.get current.prompts name ≡ none)
  unfolding plan_edit plan_prompt plan_skill
  plan_edit_disjoint current name changes = (
    λ prompt h.
        let (_, one) = require-ok _ _ _ changes h in
        let (free, _) = require-ok (not (is_in current.skills name)) _ _ changes one in
        is_in-absent current.skills name free,
    λ path text h.
        let (_, one) = require-ok _ _ _ changes h in
        let (_, two) = require-ok (is_skill_path (or_text path skill_entry_file)) _ _ changes one in
        let (free, _) = require-ok (not (is_in current.prompts name)) _ _ changes two in
        is_in-absent current.prompts name free,
  )
