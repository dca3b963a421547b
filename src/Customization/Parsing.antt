-- ===== src/Customization/Parsing.antt =====
-- `parseCustomizations` of customization/model.ts: the stored files as entries. What no entry
-- explains is listed as ignored.
use zendesk_mcp_server.Base.{
  ℕ, not, ◌||◌, Option, none, some, List, [], ◌∷◌, ◌++◌, if◌then◌else◌, ◌==◌, number_key, text_key,
  includes,
}
use mathlib.Core.Option
use zendesk_mcp_server.Base.JsMap
use zendesk_mcp_server.Base.JsMap.{JsMap}
use zendesk_mcp_server.Text.{codes, trim, split_on}
use zendesk_mcp_server.OauthScopes.{list_key}
use zendesk_mcp_server.Customization.{
  skill_entry_file, is_name, PromptEntry, SkillEntry, Customizations, or_text, parse_frontmatter,
}
use zendesk_mcp_server.Customization.Planning.{is_in, is_filled}

abbrev pub instruction_scopes : List (List ℕ)
instruction_scopes =
    codes "global"
    ∷ codes "tickets"
    ∷ codes "help_center"
    ∷ codes "users"
    ∷ codes "requests"
    ∷ codes "preferences"
    ∷ []

abbrev pub markdown : List ℕ
markdown = codes ".md"

-- the name before its ending `.md`, if it has that
unfoldable pub before_markdown : List ℕ → Option (List ℕ)
before_markdown [] = none
before_markdown (c ∷ s) =
    let rest = Option.map (λ t. c ∷ t) (before_markdown s) in
    if (c ∷ s) == markdown then some [] else rest

unfoldable pub instruction_scope_of : List ℕ → Option (List ℕ)
unfolding before_markdown
instruction_scope_of name =
    let scope = or_text (before_markdown name) [] in
    if includes instruction_scopes scope then some scope else none

-- the entries so far, with the files of the skills by name
pub record Parsed : Type 0 where
  pub instructions : JsMap (List ℕ) (List ℕ)
  pub prompts : JsMap (List ℕ) PromptEntry
  pub skill_files : JsMap (List ℕ) (JsMap (List ℕ) (List ℕ))
  pub ignored : List (List ℕ)

abbrev pub take_instructions : Parsed → List ℕ → Option (List ℕ) → Option Parsed
take_instructions p text none = none
take_instructions p text (some scope) =
    if is_filled (trim text)
    then some (record p { instructions = JsMap.put p.instructions scope (trim text) })
    else none

abbrev pub files_so_far : Option (JsMap (List ℕ) (List ℕ)) → JsMap (List ℕ) (List ℕ)
files_so_far none = []
files_so_far (some files) = files

-- `join('/')`
abbrev pub join_path : List (List ℕ) → List ℕ
join_path [] = []
join_path (segment ∷ []) = segment
join_path (segment ∷ next ∷ path) = segment ++ b'/' ∷ join_path (next ∷ path)

abbrev pub take_skill : Parsed → List ℕ → List (List ℕ) → List ℕ → Option Parsed
take_skill p name [] text = none
take_skill p name (segment ∷ rest) text =
    if is_name name
    then some (record p {
      skill_files = JsMap.put p.skill_files name (
          JsMap.put (files_so_far (JsMap.get p.skill_files name)) (join_path (segment ∷ rest))
            text);
    })
    else none

abbrev pub take_prompt : Parsed → List ℕ → Option PromptEntry → Option Parsed
take_prompt p name none = none
take_prompt p name (some prompt) = some (record p { prompts = JsMap.put p.prompts name prompt })

abbrev pub or_ignored : Parsed → List ℕ → Option Parsed → Parsed
or_ignored p path (some q) = q
or_ignored p path none = record p { ignored = p.ignored ++ path ∷ [] }

abbrev pub skill_paths : List ℕ → JsMap (List ℕ) (List ℕ) → List (List ℕ)
skill_paths name [] = []
skill_paths name ((file, text) ∷ files) =
    (codes "skills/" ++ name ++ b'/' ∷ file) ∷ skill_paths name files

module _ (json_parse : List ℕ → Option (List ℕ)) where
  abbrev pub prompt_with : List ℕ → JsMap (List ℕ) (List ℕ) → List ℕ → List ℕ → Option PromptEntry
  prompt_with name fields body [] = none
  prompt_with name fields body (c ∷ description) =
      if is_name name
      then some (record {
        title = JsMap.get fields (codes "title");
        description = c ∷ description;
        text = trim body;
      })
      else none

  unfoldable pub parse_prompt : List ℕ → List ℕ → Option PromptEntry
  unfolding before_markdown parse_frontmatter is_name trim
  parse_prompt name text =
      let fields = (parse_frontmatter json_parse text).0 in
      prompt_with (or_text (before_markdown name) []) fields (parse_frontmatter json_parse text).1
        (or_text (JsMap.get fields (codes "description")) [])

  -- the taker of a path's kind; only skills have files in folders
  abbrev pub take_file : Parsed → List ℕ → List ℕ → List (List ℕ) → List ℕ → Option Parsed
  take_file p kind name rest text =
      if kind == codes "skills" then take_skill p name rest text else elim rest [
        | segment ∷ more ↦ none
        | [] ↦
            if kind == codes "instructions"
            then take_instructions p text (instruction_scope_of name)
            else if kind == codes "prompts"
            then take_prompt p (or_text (before_markdown name) []) (parse_prompt name text)
            else none
      ]

  abbrev pub take_path : Parsed → List (List ℕ) → List ℕ → Option Parsed
  take_path p [] text = none
  take_path p (kind ∷ []) text = take_file p kind [] [] text
  take_path p (kind ∷ name ∷ rest) text = take_file p kind name rest text

  -- the loop over the stored files
  unfoldable pub take_files : Parsed → JsMap (List ℕ) (List ℕ) → Parsed
  unfolding instruction_scope_of parse_prompt is_name split_on trim
  take_files p [] = p
  take_files p ((path, text) ∷ files) =
      take_files (or_ignored p path (take_path p (split_on b'/' path) text)) files

  abbrev pub entry_description : Option (List ℕ) → List ℕ
  entry_description none = []
  entry_description (some []) = []
  entry_description (some (c ∷ entry)) =
      or_text (JsMap.get (parse_frontmatter json_parse (c ∷ entry)).0 (codes "description")) []

  -- the loop over the skills: the entries, and the paths of the skills that are not served
  unfoldable pub serve_skills :
      JsMap (List ℕ) PromptEntry
      → JsMap (List ℕ) (JsMap (List ℕ) (List ℕ))
      → JsMap (List ℕ) SkillEntry × List (List ℕ)
      → JsMap (List ℕ) SkillEntry × List (List ℕ)
  unfolding parse_frontmatter
  serve_skills prompts [] (skills, ignored) = (skills, ignored)
  serve_skills prompts ((name, files) ∷ more) (skills, ignored) =
      let description = entry_description (JsMap.get files skill_entry_file) in
      serve_skills prompts more (
        if not (is_filled description) || is_in prompts name
        then (skills, ignored ++ skill_paths name files)
        else (JsMap.put skills name (record { description = description; files = files }), ignored))

  abbrev pub customizations_of :
      Parsed → JsMap (List ℕ) SkillEntry × List (List ℕ) → Customizations × List (List ℕ)
  customizations_of p (skills, ignored) =
      (record { instructions = p.instructions; prompts = p.prompts; skills = skills }, ignored)

  -- the entries, and the ignored paths
  unfoldable pub parse_customizations : JsMap (List ℕ) (List ℕ) → Customizations × List (List ℕ)
  unfolding take_files serve_skills
  parse_customizations files =
      let p =
        take_files (record { instructions = []; prompts = []; skill_files = []; ignored = [] })
          files in
      customizations_of p (serve_skills p.prompts p.skill_files ([], p.ignored))
