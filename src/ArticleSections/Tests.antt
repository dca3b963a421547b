-- ===== src/ArticleSections/Tests.antt =====
-- Tests of the sections of an article.
use zendesk_mcp_server.Base.{
  ℕ, ◌≡◌, refl, Option, none, some, List, [], ◌∷◌, map, if◌then◌else◌, ◌==◌, number_key, text_key,
}
use mathlib.Core.Option
use zendesk_mcp_server.ArticleSections.{
  Node, Section, grouped, LeadingHeading, SectionUpdate, parse_sections, replace_section_content,
  strip_leading_duplicate_heading, apply_section_update,
}
use zendesk_mcp_server.Text.{codes, trim, trim_start}

-- one node for each character; `H` is a heading
abbrev char_node : ℕ → Node
char_node c = record { level = if c == 72 then 2 else 0; text = c ∷ []; outer = c ∷ [] }

abbrev char_nodes : List ℕ → List Node
char_nodes = map char_node

abbrev plain : List ℕ → List ℕ
plain s = s

abbrev body : List ℕ
body = codes "abHcdHe"

abbrev middle : Section
middle = record {
  index = 1;
  heading = codes "H";
  heading_html = codes "H";
  level = 2;
  html = codes "cd";
  word_count = 1;
}

edited_run : replace_section_content plain char_nodes body 1 (codes "xyz") ≡ some (codes "abHxyzHe")
unfolding replace_section_content parse_sections grouped trim
edited_run = refl

out_of_range_run : replace_section_content plain char_nodes body 3 (codes "xyz") ≡ none
unfolding replace_section_content parse_sections grouped trim
out_of_range_run = refl

blank_run : parse_sections plain char_nodes (codes "  ") ≡ []
unfolding parse_sections trim
blank_run = refl

-- `H` and one character are a heading with that text
abbrev char_heading : List ℕ → Option LeadingHeading
char_heading [] = none
char_heading (c ∷ []) = none
char_heading (c ∷ d ∷ s) =
    if c == 72 then some (record { size = 2; level = 2; inner = d ∷ [] }) else none

abbrev echoed : List ℕ
echoed = codes "HH xyz"

updated_run :
    Option.map
      (λ (u : SectionUpdate). u.body)
      (apply_section_update plain char_nodes char_heading body 1 echoed)
    ≡ some (codes "abHxyzHe")
unfolding apply_section_update strip_leading_duplicate_heading replace_section_content
    parse_sections grouped trim trim_start
updated_run = refl
