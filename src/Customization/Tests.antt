-- ===== src/Customization/Tests.antt =====
-- Runs of customization/model.ts: a frontmatter block, and edits that are accepted and refused.
use zendesk_mcp_server.Base.{
  ℕ, ◌≤◌, ◌≡◌, refl, true, false, Option, none, some, List, [], ◌∷◌, ◌++◌, length, number_key,
  text_key, ok, err,
}
use zendesk_mcp_server.Base.JsMap
use zendesk_mcp_server.Base.JsMap.{JsMap, IsKeyed}
use zendesk_mcp_server.Text.{codes, trim}
use zendesk_mcp_server.OauthScopes.{list_key}
use zendesk_mcp_server.Customization.{is_name, Customizations, parse_frontmatter}
use zendesk_mcp_server.Customization.Planning.{
  skill_has_name, FileChange, PromptDraft, edit_instructions, edit_prompt, sizes, plan_edit,
}
use zendesk_mcp_server.Customization.Limits.{plan_edit_bounded}
use zendesk_mcp_server.Customization.Parsing.{parse_customizations}

abbrev no_json : List ℕ → Option (List ℕ)
no_json text = none

abbrev quoted : List ℕ → List ℕ
quoted text = 34 ∷ text ++ 34 ∷ []

names_read : (is_name (codes "draft-reply") ≡ true) × (is_name (codes "draft--reply") ≡ false)
unfolding is_name
names_read = (refl, refl)

block_read :
    parse_frontmatter no_json
      (codes "---" ++ 10 ∷ codes "name: 'it''s'" ++ 13 ∷ 10 ∷ codes "---" ++ 10 ∷ codes "body")
    ≡ ((codes "name", codes "it's") ∷ [], codes "body")
unfolding parse_frontmatter JsMap.put
block_read = refl

abbrev current : Customizations
current = record {
  instructions = (codes "global", codes "Be brief.") ∷ [];
  prompts = [];
  skills = (codes "lexicon", record { description = codes "Words"; files = [] }) ∷ [];
}

abbrev edited : List FileChange
edited =
    record {
      path = codes "instructions/tickets.md";
      content = some (codes "Quote ids." ++ 10 ∷ []);
    }
    ∷ []

accepted :
    plan_edit no_json quoted current
      (edit_instructions (codes "tickets") (some (codes " Quote ids. ")))
    ≡ ok edited
unfolding plan_edit
accepted = refl

abbrev draft : PromptDraft
draft = record { title = none; description = codes "Drafts"; text = codes "Draft a reply." }

refused :
    plan_edit no_json quoted current (edit_prompt (codes "lexicon") (some draft))
    ≡ err skill_has_name
unfolding plan_edit JsMap.get
refused = refl

current-IsKeyed : IsKeyed current.instructions
unfolding JsMap.get
current-IsKeyed = (refl, tt)

plan_edit_bounded_example :
    (length (trim (codes " Quote ids. ")) ≤ 4000)
    × (sizes (JsMap.put current.instructions (codes "tickets") (trim (codes " Quote ids. ")))
        ≤ 12000)
plan_edit_bounded_example =
    plan_edit_bounded no_json quoted current (codes "tickets") (codes " Quote ids. ") edited
      current-IsKeyed accepted

abbrev drafted : List FileChange
drafted =
    record {
      path = codes "prompts/reply.md";
      content = some (
          codes "---"
          ++ 10 ∷ codes "description: "
          ++ quoted (codes "Drafts")
          ++ 10 ∷ codes "---"
          ++ 10 ∷ 10 ∷ codes "Draft a reply."
          ++ 10 ∷ []);
    }
    ∷ []

prompt_accepted :
    plan_edit no_json quoted current (edit_prompt (codes "reply") (some draft)) ≡ ok drafted
unfolding plan_edit JsMap.get
prompt_accepted = refl

-- a prompt is read, a skill without its entry file and a file of no kind are ignored
tree_read :
    (parse_customizations no_json (
      (
        codes "prompts/reply.md",
        codes "---" ++ 10 ∷ codes "description: D" ++ 10 ∷ codes "---" ++ 10 ∷ codes "T",
      )
      ∷ (codes "skills/lexicon/words.md", codes "w")
      ∷ (codes "README.md", codes "r")
      ∷ [])).1
    ≡ codes "README.md" ∷ codes "skills/lexicon/words.md" ∷ []
unfolding parse_customizations JsMap.get JsMap.put
tree_read = refl
