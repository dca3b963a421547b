-- ===== src/ArticleSections/Edited.antt =====
-- utils/article-sections.ts: the edit of a section leaves the rest of the body as it is serialised.
use zendesk_mcp_server.Base.{
  drop, ◌⊎◌, ℕ, ◌+◌, ◌≡◌, Option, some, List, [], ◌∷◌, ◌++◌, number_key, text_key,
}
use zendesk_mcp_server.ArticleSections.{
  Node, Section, Group, joined, replaced, LeadingHeading, normalize_text,
}
use zendesk_mcp_server.OauthScopes.{list_key}
use zendesk_mcp_server.Text.{trim_start}

-- the HTML of a section with its heading
abbrev source : Section → List ℕ
source s = s.heading_html ++ s.html

abbrev sources : List Section → List ℕ
sources [] = []
sources (s ∷ sections) = source s ++ sources sections

module _ (text_of : List ℕ → List ℕ) (parse : List ℕ → List Node) where
  -- what stands before and after a section, and the body with new HTML in its place
  record Place (sections : List Section) (s : Section) (k : ℕ) : Type 0 where
    before : List ℕ
    after : List ℕ
    whole : sources sections ≡ before ++ (source s ++ after)
    edited :
        (i : ℕ) (new_html : List ℕ)
        → replaced (k + i) new_html i sections ≡ before ++ ((s.heading_html ++ new_html) ++ after)

abbrev groups_html : List Group → List ℕ
groups_html [] = []
groups_html (g ∷ groups) = (g.heading.outer ++ joined g.content) ++ groups_html groups

abbrev grouped_html : List Node × List Group → List ℕ
grouped_html (first, groups) = joined first ++ groups_html groups

module _ (text_of : List ℕ → List ℕ) (parse : List ℕ → List Node) where
  -- A heading of the level and, its spaces aside, of the text of the section's own.
  abbrev pub IsEcho : Section → LeadingHeading → Type 0
  IsEcho s m = (m.level ≡ s.level) × (normalize_text (text_of m.inner) ≡ normalize_text s.heading)

  -- What is left of new HTML, given the heading that it starts with, without the echo of the
  -- section's heading.
  abbrev pub IsLessEcho : Option LeadingHeading → Section → List ℕ → List ℕ → Type 0
  IsLessEcho first s new_html content =
      ((m : LeadingHeading) × (first ≡ some m)
        × IsEcho s m
        × (content ≡ trim_start (drop m.size new_html)))
      ⊎ (((m : LeadingHeading) → first ≡ some m → ¬ IsEcho s m) × (content ≡ new_html))
