-- ===== src/Customization/Planning.antt =====
-- `planEdit` of customization/model.ts: the file changes of an edit, or the first rule it breaks.
use zendesk_mcp_server.Base.{
  ℕ, ◌+◌, String, Bool, true, false, not, ◌&&◌, Option, none, some, List, [], ◌∷◌, ◌++◌, leb,
  if◌then◌else◌, length, ◌==◌, number_key, text_key, includes, Result, ok, err,
}
use zendesk_mcp_server.Base.JsMap
use zendesk_mcp_server.Base.JsMap.{JsMap}
use zendesk_mcp_server.Text.{codes, trim}
use zendesk_mcp_server.OauthScopes.{list_key}
use zendesk_mcp_server.Customization.{
  instruction_max_chars, instructions_total_max_chars, prompt_max_chars, skill_file_max_chars,
  skill_max_files, skill_total_max_chars, name_max, skill_entry_file, is_name, is_skill_path,
  SkillEntry, Customizations, or_text, parse_frontmatter,
}

pub data CustomizationError : Type 0 where
  no_instructions no_prompt no_skill no_file : CustomizationError
  empty_instructions empty_prompt no_description : CustomizationError
  too_long : ℕ → ℕ → CustomizationError
  total_too_long too_many_files skill_too_long : ℕ → CustomizationError
  invalid_name invalid_path : CustomizationError
  skill_has_name prompt_has_name : CustomizationError
  entry_name_differs entry_without_description entry_without_body entry_first : CustomizationError

-- `content: null` deletes
pub record FileChange : Type 0 where
  pub path : List ℕ
  pub content : Option (List ℕ)

pub record PromptDraft : Type 0 where
  pub title : Option (List ℕ)
  pub description : List ℕ
  pub text : List ℕ

pub data CustomizationEdit : Type 0 where
  edit_instructions : (scope : List ℕ) → (text : Option (List ℕ)) → CustomizationEdit
  edit_prompt : (name : List ℕ) → (prompt : Option PromptDraft) → CustomizationEdit
  edit_skill :
      (name : List ℕ) → (path : Option (List ℕ)) → (text : Option (List ℕ)) → CustomizationEdit

-- a failed check throws, and what follows is not reached
abbrev pub require {ℓ} :
    {A : Type ℓ}
    → Bool
    → CustomizationError
    → Result CustomizationError A
    → Result CustomizationError A
require holds e next = if holds then next else err e

abbrev pub is_in {ℓ} : {V : Type ℓ} → JsMap (List ℕ) V → List ℕ → Bool
is_in m k = elim (JsMap.get m k) [ none ↦ false | some v ↦ true ]

abbrev pub is_filled : List ℕ → Bool
is_filled [] = false
is_filled (c ∷ s) = true

abbrev pub fits : List ℕ → ℕ → Bool
fits text max = leb (length text) max

abbrev pub markdown_file : String → List ℕ → List ℕ
markdown_file folder name = codes folder ++ name ++ codes ".md"

-- `filter` and `reduce` over the entries
unfoldable pub others_length : JsMap (List ℕ) (List ℕ) → List ℕ → ℕ
others_length [] scope = 0
others_length ((s, text) ∷ entries) scope =
    let rest = others_length entries scope in if s == scope then rest else length text + rest

unfoldable pub instructions_total : Customizations → List ℕ → List ℕ → ℕ
unfolding others_length
instructions_total current scope text = others_length current.instructions scope + length text

unfoldable pub plan_instructions :
    Customizations → List ℕ → Option (List ℕ) → Result CustomizationError (List FileChange)
unfolding instructions_total trim
plan_instructions current scope none =
    require (is_in current.instructions scope) no_instructions
      (ok (record { path = markdown_file "instructions/" scope; content = none } ∷ []))
plan_instructions current scope (some text) =
    let trimmed = trim text in
    let total = instructions_total current scope trimmed in
    require (is_filled trimmed) empty_instructions (
      require (fits trimmed instruction_max_chars) (too_long (length trimmed) instruction_max_chars)
        (require (leb total instructions_total_max_chars) (total_too_long total) (
          ok (
            record {
              path = markdown_file "instructions/" scope;
              content = some (trimmed ++ 10 ∷ []);
            }
            ∷ []))))

abbrev pub is_valid_name : List ℕ → Bool
is_valid_name name = fits name name_max && is_name name

module _ (json_stringify : List ℕ → List ℕ) where
  abbrev pub title_line : List ℕ → List ℕ
  title_line [] = []
  title_line (c ∷ title) = codes "title: " ++ json_stringify (c ∷ title) ++ 10 ∷ []

  abbrev pub prompt_file : List ℕ → List ℕ → List ℕ → List ℕ
  prompt_file title description text =
      codes "---"
      ++ 10 ∷ title_line title
      ++ codes "description: "
      ++ json_stringify description
      ++ 10 ∷ codes "---"
      ++ 10 ∷ 10 ∷ text
      ++ 10 ∷ []

  unfoldable pub plan_prompt :
      Customizations → List ℕ → Option PromptDraft → Result CustomizationError (List FileChange)
  unfolding is_name trim
  plan_prompt current name none = require (is_valid_name name) invalid_name (
      require (is_in current.prompts name) no_prompt
        (ok (record { path = markdown_file "prompts/" name; content = none } ∷ [])))
  plan_prompt current name (some prompt) =
      let description = trim prompt.description in
      let text = trim prompt.text in
      require (is_valid_name name) invalid_name (
        require (not (is_in current.skills name)) skill_has_name (
          require (is_filled description && not (includes description 10)) no_description (
            require (is_filled text) empty_prompt (
              require (fits text prompt_max_chars) (too_long (length text) prompt_max_chars) (
                ok (
                  record {
                    path = markdown_file "prompts/" name;
                    content = some (prompt_file (trim (or_text prompt.title [])) description text);
                  }
                  ∷ []))))))

abbrev pub block_indicators : List (List ℕ)
block_indicators = codes ">" ∷ codes "|" ∷ codes ">-" ∷ codes "|-" ∷ []

abbrev pub skill_folder : List ℕ → List ℕ
skill_folder name = codes "skills/" ++ name ++ codes "/"

abbrev pub is_text : Option (List ℕ) → List ℕ → Bool
is_text none s = false
is_text (some t) s = t == s

abbrev pub files_of : Option SkillEntry → JsMap (List ℕ) (List ℕ)
files_of none = []
files_of (some skill) = skill.files

abbrev pub is_there {ℓ} : {A : Type ℓ} → Option A → Bool
is_there none = false
is_there (some a) = true

abbrev pub sizes : JsMap (List ℕ) (List ℕ) → ℕ
sizes [] = 0
sizes ((path, text) ∷ files) = length text + sizes files

abbrev pub deletions : List ℕ → JsMap (List ℕ) (List ℕ) → List FileChange
deletions name [] = []
deletions name ((path, text) ∷ files) =
    record { path = skill_folder name ++ path; content = none } ∷ deletions name files

module _ (json_parse : List ℕ → Option (List ℕ)) where
  unfoldable pub check_skill_entry {ℓ} :
      {A : Type ℓ} → List ℕ → List ℕ → Result CustomizationError A → Result CustomizationError A
  unfolding parse_frontmatter trim
  check_skill_entry name text next =
      let fields = (parse_frontmatter json_parse text).0 in
      let body = (parse_frontmatter json_parse text).1 in
      let description = or_text (JsMap.get fields (codes "description")) [] in
      require (is_text (JsMap.get fields (codes "name")) name) entry_name_differs (
        require (is_filled description && not (includes block_indicators description))
          entry_without_description (require (is_filled (trim body)) entry_without_body next))

  -- the deletion of a skill or of one of its files
  abbrev pub plan_removal :
      List ℕ → Option SkillEntry → List ℕ → Result CustomizationError (List FileChange)
  plan_removal name skill file = require (is_there skill) no_skill (
      if file == skill_entry_file
      then ok (deletions name (files_of skill))
      else require (is_in (files_of skill) file) no_file
          (ok (record { path = skill_folder name ++ file; content = none } ∷ [])))

  abbrev pub plan_write :
      List ℕ → Option SkillEntry → List ℕ → List ℕ → Result CustomizationError (List FileChange)
  plan_write name skill file text =
      let files = JsMap.put (files_of skill) file text in
      require (fits text skill_file_max_chars) (too_long (length text) skill_file_max_chars) (
        require (leb (length files) skill_max_files) (too_many_files (length files)) (
          require (leb (sizes files) skill_total_max_chars) (skill_too_long (sizes files))
            (ok (record { path = skill_folder name ++ file; content = some text } ∷ []))))

  abbrev pub plan_skill_file :
      Customizations
      → List ℕ
      → List ℕ
      → Option (List ℕ)
      → Result CustomizationError (List FileChange)
  plan_skill_file current name file none = plan_removal name (JsMap.get current.skills name) file
  plan_skill_file current name file (some text) =
      let skill = JsMap.get current.skills name in
      require (not (is_in current.prompts name)) prompt_has_name (
        if file == skill_entry_file
        then check_skill_entry name text (plan_write name skill file text)
        else require (is_there skill) entry_first (plan_write name skill file text))

  unfoldable pub plan_skill :
      Customizations
      → List ℕ
      → Option (List ℕ)
      → Option (List ℕ)
      → Result CustomizationError (List FileChange)
  unfolding is_name is_skill_path check_skill_entry
  plan_skill current name path text =
      let file = or_text path skill_entry_file in
      require (is_valid_name name) invalid_name
        (require (is_skill_path file) invalid_path (plan_skill_file current name file text))

  unfoldable pub plan_edit :
      (List ℕ → List ℕ)
      → Customizations
      → CustomizationEdit
      → Result CustomizationError (List FileChange)
  unfolding plan_instructions plan_prompt plan_skill
  plan_edit json_stringify current (edit_instructions scope text) =
      plan_instructions current scope text
  plan_edit json_stringify current (edit_prompt name prompt) =
      plan_prompt json_stringify current name prompt
  plan_edit json_stringify current (edit_skill name path text) = plan_skill current name path text
