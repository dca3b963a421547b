-- ===== src/Customization.antt =====
-- customization/model.ts: the limits of the stored customizations, the frontmatter of a file, and the
-- file changes that an edit plans. Texts are their UTF-16 code units; `JSON.parse` on a text and
-- `JSON.stringify` are parameters. Authors are left out, a refusal is the rule without its text.
pub mod Planning
pub mod Limits
pub mod Parsing
mod Tests
use zendesk_mcp_server.Base.{
  ℕ, Bool, true, false, ◌&&◌, ◌||◌, Option, none, some, List, [], ◌∷◌, map, leb, if◌then◌else◌,
  length, ◌==◌, number_key, text_key,
}
use mathlib.Core.Option
use zendesk_mcp_server.Base.JsMap
use zendesk_mcp_server.Base.JsMap.{JsMap}
use zendesk_mcp_server.Text.{codes, trim, add_to_first, split_on}
use zendesk_mcp_server.OauthScopes.{list_key}

abbrev pub instruction_max_chars : ℕ
instruction_max_chars = 4000

abbrev pub instructions_total_max_chars : ℕ
instructions_total_max_chars = 12000

abbrev pub prompt_max_chars : ℕ
prompt_max_chars = 32000

abbrev pub skill_file_max_chars : ℕ
skill_file_max_chars = 64000

abbrev pub skill_max_files : ℕ
skill_max_files = 32

abbrev pub skill_total_max_chars : ℕ
skill_total_max_chars = 256000

abbrev pub name_max : ℕ
name_max = 64

abbrev pub path_max_depth : ℕ
path_max_depth = 4

abbrev pub skill_entry_file : List ℕ
skill_entry_file = codes "SKILL.md"

abbrev pub is_lower_or_digit : ℕ → Bool
is_lower_or_digit c = leb b'a' c && leb c b'z' || leb b'0' c && leb c b'9'

-- the expression `NAME`, after a letter or digit or not
unfoldable pub is_name_from : Bool → List ℕ → Bool
is_name_from after_character [] = after_character
is_name_from after_character (c ∷ s) =
    let inside = is_name_from true s in
    let after_hyphen = is_name_from false s in
    if is_lower_or_digit c
    then inside
    else if (c == b'-') && after_character
    then after_hyphen
    else false

unfoldable pub is_name : List ℕ → Bool
unfolding is_name_from
is_name s = is_name_from false s

abbrev pub is_word : ℕ → Bool
is_word c = is_lower_or_digit c || leb b'A' c && leb c b'Z' || (c == b'_')

abbrev pub all_in_path : List ℕ → Bool
all_in_path [] = true
all_in_path (c ∷ s) = (is_word c || (c == b'.') || (c == b'-')) && all_in_path s

-- the expression `PATH_SEGMENT`
abbrev pub is_path_segment : List ℕ → Bool
is_path_segment [] = false
is_path_segment (c ∷ s) = is_word c && all_in_path s

abbrev pub every {ℓ} : {A : Type ℓ} → (A → Bool) → List A → Bool
every p [] = true
every p (a ∷ s) = p a && every p s

unfoldable pub is_skill_path : List ℕ → Bool
unfolding split_on
is_skill_path path =
    leb (length (split_on b'/' path)) path_max_depth && every is_path_segment (split_on b'/' path)

pub record PromptEntry : Type 0 where
  pub title : Option (List ℕ)
  pub description : List ℕ
  pub text : List ℕ

pub record SkillEntry : Type 0 where
  pub description : List ℕ
  pub files : JsMap (List ℕ) (List ℕ)

pub record Customizations : Type 0 where
  pub instructions : JsMap (List ℕ) (List ℕ)
  pub prompts : JsMap (List ℕ) PromptEntry
  pub skills : JsMap (List ℕ) SkillEntry

abbrev pub strip_prefix : List ℕ → List ℕ → Option (List ℕ)
strip_prefix [] s = some s
strip_prefix (c ∷ prefix) [] = none
strip_prefix (c ∷ prefix) (d ∷ s) = if c == d then strip_prefix prefix s else none

abbrev pub or_else {ℓ} : {A : Type ℓ} → Option A → Option A → Option A
or_else none b = b
or_else (some a) b = some a

abbrev pub or_text : Option (List ℕ) → List ℕ → List ℕ
or_text none s = s
or_text (some t) s = t

-- `\r?\n`
abbrev pub strip_newline : List ℕ → Option (List ℕ)
strip_newline s = or_else (strip_prefix (13 ∷ 10 ∷ []) s) (strip_prefix (10 ∷ []) s)

abbrev pub then_strip : List ℕ → Option (List ℕ) → Option (List ℕ)
then_strip prefix none = none
then_strip prefix (some s) = strip_prefix prefix s

abbrev pub dashes : List ℕ
dashes = codes "---"

abbrev pub more_block : ℕ → Option (List ℕ × List ℕ) → Option (List ℕ × List ℕ)
more_block c none = none
more_block c (some (block, rest)) = some (c ∷ block, rest)

-- the shortest block before `\r?\n---`, and what follows the dashes
unfoldable pub close_block : List ℕ → Option (List ℕ × List ℕ)
close_block [] = none
close_block (c ∷ s) =
    let longer = more_block c (close_block s) in
    elim (then_strip dashes (strip_newline (c ∷ s))) [ some rest ↦ some ([], rest) | none ↦ longer ]

-- `\r?\n?`
abbrev pub drop_newline : List ℕ → List ℕ
drop_newline s =
    let t = or_text (strip_prefix (13 ∷ []) s) s in or_text (strip_prefix (10 ∷ []) t) t

abbrev pub then_newline : Option (List ℕ) → Option (List ℕ)
then_newline none = none
then_newline (some s) = strip_newline s

abbrev pub then_block : Option (List ℕ) → Option (List ℕ × List ℕ)
then_block none = none
then_block (some s) = close_block s

abbrev pub without_newline : Option (List ℕ × List ℕ) → Option (List ℕ × List ℕ)
without_newline none = none
without_newline (some (block, rest)) = some (block, drop_newline rest)

-- the expression `FRONTMATTER`: the block, and the text after the match
unfoldable pub match_frontmatter : List ℕ → Option (List ℕ × List ℕ)
unfolding close_block
match_frontmatter text = without_newline (then_block (then_newline (strip_prefix dashes text)))

-- `split(/\r?\n/)`: a line ends before a return that a line feed follows
unfoldable pub split_lines : List ℕ → List (List ℕ)
split_lines [] = [] ∷ []
split_lines (c ∷ s) =
    let rest = split_lines s in
    if c == 10
    then [] ∷ rest
    else if c == 13
    then elim s [ [] ↦ add_to_first c rest | d ∷ t ↦ if d == 10 then rest else add_to_first c rest ]
    else add_to_first c rest

-- the text before the first colon and the text after it
unfoldable pub at_colon : List ℕ → Option (List ℕ × List ℕ)
at_colon [] = none
at_colon (c ∷ s) = let rest = more_block c (at_colon s) in if c == b':' then some ([], s) else rest

abbrev pub first_is : ℕ → List ℕ → Bool
first_is c [] = false
first_is c (d ∷ s) = d == c

-- the inside of a single-quoted value, which has no line terminator; none where it is not one
unfoldable pub in_quotes : List ℕ → Option (List ℕ)
in_quotes [] = none
in_quotes (c ∷ s) =
    let inside = in_quotes s in
    elim s [
      | [] ↦ if c == 39 then some [] else none
      | d ∷ t ↦
          if (c == 10) || (c == 13) || (c == 0x2028) || (c == 0x2029)
          then none
          else Option.map (λ u. c ∷ u) inside
    ]

-- `replaceAll("''", "'")`
unfoldable pub undouble : List ℕ → List ℕ
undouble [] = []
undouble (c ∷ []) = c ∷ []
undouble (c ∷ d ∷ s) =
    let pair = undouble s in
    let next = undouble (d ∷ s) in if (c == 39) && (d == 39) then 39 ∷ pair else c ∷ next

abbrev pub single_quoted : List ℕ → Option (List ℕ)
single_quoted [] = none
single_quoted (c ∷ s) = if c == 39 then Option.map undouble (in_quotes s) else none

module _ (json_parse : List ℕ → Option (List ℕ)) where
  unfoldable pub unquote : List ℕ → List ℕ
  unfolding in_quotes undouble
  unquote value =
      if first_is 34 value
      then or_text (json_parse value) value
      else or_text (single_quoted value) value

  abbrev pub with_field :
      List ℕ → Option (List ℕ × List ℕ) → JsMap (List ℕ) (List ℕ) → JsMap (List ℕ) (List ℕ)
  with_field line none fields = fields
  with_field line (some ([], value)) fields = fields
  with_field line (some (c ∷ key, value)) fields =
      if first_is 32 line then fields else JsMap.put fields (trim (c ∷ key)) (unquote (trim value))

  unfoldable pub fields_from : JsMap (List ℕ) (List ℕ) → List (List ℕ) → JsMap (List ℕ) (List ℕ)
  unfolding at_colon unquote trim
  fields_from fields [] = fields
  fields_from fields (line ∷ lines) = fields_from (with_field line (at_colon line) fields) lines

  abbrev pub frontmatter_of : List ℕ → Option (List ℕ × List ℕ) → JsMap (List ℕ) (List ℕ) × List ℕ
  frontmatter_of text none = ([], text)
  frontmatter_of text (some (block, body)) = (fields_from [] (split_lines block), body)

  unfoldable pub parse_frontmatter : List ℕ → JsMap (List ℕ) (List ℕ) × List ℕ
  unfolding match_frontmatter fields_from split_lines
  parse_frontmatter text = frontmatter_of text (match_frontmatter text)
