-- ===== src/ArticleSections.antt =====
-- utils/article-sections.ts: the sections of an article's body, and the edit of one of them. HTML and
-- texts are code points. `cheerio` is a parameter: `parse` gives the top-level nodes of a fragment,
-- `text_of` its text. A node
-- has level 1, 2 or 3 for h1, h2 or h3, and 0 otherwise; `outer` is its HTML. The tag of a heading is
-- given by its level. The expression that finds a leading heading is a parameter too.
pub mod Edited
mod Tests
use zendesk_mcp_server.Base.{
  ℕ, suc, ◌+◌, Bool, true, false, not, ◌&&◌, ◌||◌, Option, none, some, List, [], ◌∷◌, ◌++◌, map,
  ltb, if◌then◌else◌, length, get_elem?, drop, keep, ◌==◌, number_key, text_key,
}
use mathlib.Core.Option
use zendesk_mcp_server.Text.{codes, is_space, trim, trim_start}
use zendesk_mcp_server.OauthScopes.{list_key}

pub record Node : Type 0 where
  pub level : ℕ
  pub text : List ℕ
  pub outer : List ℕ

pub record Section : Type 0 where
  pub index : ℕ
  pub heading : List ℕ
  pub heading_html : List ℕ
  pub level : ℕ
  pub html : List ℕ
  pub word_count : ℕ

-- the words of a trimmed text, split at runs of white space; `inside` a word or not
unfoldable pub words_from : Bool → List ℕ → ℕ
words_from inside [] = 0
words_from inside (c ∷ s) =
    let rest = words_from (not (is_space c)) s in
    if not (is_space c) && not inside then suc rest else rest

unfoldable pub count_words : List ℕ → ℕ
count_words text = words_from false (trim text)

abbrev pub joined : List Node → List ℕ
joined [] = []
joined (n ∷ nodes) = n.outer ++ joined nodes

-- A heading and the nodes under it.
pub record Group : Type 0 where
  pub heading : Node
  pub content : List Node

abbrev pub before_node : Node → List Node × List Group → List Node × List Group
before_node n (first, groups) =
    if n.level == 0
    then (n ∷ first, groups)
    else ([], record { heading = n; content = first } ∷ groups)

-- the loop over the children, from its end: the nodes before the first heading, and the groups
unfoldable pub grouped : List Node → List Node × List Group
grouped [] = ([], [])
grouped (n ∷ nodes) = before_node n (grouped nodes)

abbrev pub is_blank : List ℕ → Bool
is_blank [] = true
is_blank (c ∷ s) = false

-- the `map` and `join`
abbrev pub replaced : ℕ → List ℕ → ℕ → List Section → List ℕ
replaced target new_html i [] = []
replaced target new_html i (s ∷ sections) =
    (s.heading_html ++ (if i == target then new_html else s.html))
    ++ replaced target new_html (i + 1) sections

-- a match of the expression: its length, the level of the heading and the HTML inside it
pub record LeadingHeading : Type 0 where
  pub size : ℕ
  pub level : ℕ
  pub inner : List ℕ

pub record StrippedHeading : Type 0 where
  pub level : ℕ
  pub text : List ℕ

-- each run of white space as one space
abbrev pub squeezed : Bool → List ℕ → List ℕ
squeezed inside [] = []
squeezed inside (c ∷ s) =
    let rest = squeezed (is_space c) s in
    if is_space c then (if inside then rest else 32 ∷ rest) else c ∷ rest

abbrev pub normalize_text : List ℕ → List ℕ
normalize_text text = squeezed false (trim text)

pub data IntroLoss : Type 0 where
  emptied : IntroLoss
  heading_led : IntroLoss

abbrev intro_loss_at : List Section → Option IntroLoss
intro_loss_at [] = some emptied
intro_loss_at (first ∷ sections) = if ltb 0 first.level then some heading_led else none

abbrev intro_loss : Option Section → List Section → Option IntroLoss
intro_loss none content_sections = none
intro_loss (some target) content_sections =
    if target.level == 0 then intro_loss_at content_sections else none

pub record SectionUpdate : Type 0 where
  pub body : List ℕ
  pub stripped : Option StrippedHeading
  pub content_headings : ℕ
  pub intro_lost : Option IntroLoss
  pub sections_before : ℕ

module _ (text_of : List ℕ → List ℕ) where
  abbrev pub intro_section : List Node → List Section
  intro_section [] = []
  intro_section (n ∷ nodes) =
      record {
        index = 0;
        heading = codes "intro";
        heading_html = [];
        level = 0;
        html = joined (n ∷ nodes);
        word_count = count_words (text_of (joined (n ∷ nodes)));
      }
      ∷ []

  abbrev group_section : ℕ → Group → Section
  group_section index group = record {
    index = index;
    heading = trim group.heading.text;
    heading_html = group.heading.outer;
    level = group.heading.level;
    html = joined group.content;
    word_count = count_words (text_of (joined group.content));
  }

  abbrev pub group_sections : ℕ → List Group → List Section
  group_sections index [] = []
  group_sections index (group ∷ groups) =
      group_section index group ∷ group_sections (index + 1) groups

  abbrev pub sections_of : List Node × List Group → List Section
  sections_of (intro, groups) =
      intro_section intro ++ group_sections (length (intro_section intro)) groups

  module _ (parse : List ℕ → List Node) where
    unfoldable pub parse_sections : List ℕ → List Section
    parse_sections html = if is_blank (trim html) then [] else sections_of (grouped (parse html))

    -- none where it throws; an index is not negative
    unfoldable pub replace_section_content : List ℕ → ℕ → List ℕ → Option (List ℕ)
    replace_section_content html section_index new_html =
        if ltb section_index (length (parse_sections html))
        then some (replaced section_index new_html 0 (parse_sections html))
        else none

    module _ (leading_heading : List ℕ → Option LeadingHeading) where
      abbrev pub strip_found :
          List ℕ → Section → Option LeadingHeading → List ℕ × Option StrippedHeading
      strip_found html target none = (html, none)
      strip_found html target (some m) =
          if not (m.level == target.level)
            || not (normalize_text (text_of m.inner) == normalize_text target.heading)
          then (html, none)
          else (
            trim_start (drop m.size html),
            some (record { level = target.level; text = normalize_text (text_of m.inner) }),
          )

      unfoldable pub strip_leading_duplicate_heading :
          List ℕ → Section → List ℕ × Option StrippedHeading
      strip_leading_duplicate_heading html target = strip_found html target (leading_heading html)

      abbrev pub content_for : Option Section → List ℕ → List ℕ × Option StrippedHeading
      content_for none new_html = (new_html, none)
      content_for (some target) new_html = strip_leading_duplicate_heading new_html target

      abbrev pub update_of :
          List ℕ → Option Section → List ℕ × Option StrippedHeading → List ℕ → SectionUpdate
      update_of html target (content, stripped) body = record {
        body = body;
        stripped = stripped;
        content_headings = length (keep (λ (s : Section). ltb 0 s.level) (parse_sections content));
        intro_lost = intro_loss target (parse_sections content);
        sections_before = length (parse_sections html);
      }

      abbrev pub update_with :
          List ℕ → ℕ → Option Section → List ℕ × Option StrippedHeading → Option SectionUpdate
      update_with html section_index target content =
          Option.map (update_of html target content)
            (replace_section_content html section_index content.0)

      -- none where `replace_section_content` throws
      unfoldable pub apply_section_update : List ℕ → ℕ → List ℕ → Option SectionUpdate
      apply_section_update html section_index new_html =
          let target = get_elem? (parse_sections html) section_index in
          update_with html section_index target (content_for target new_html)
