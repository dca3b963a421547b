-- ===== src/Config/Lists.antt =====
-- The lists that config.ts accepts: brand ids and namespaces.
use zendesk_mcp_server.Base.{
  ◌==◌, ℕ, String, ◌≡◌, refl, sym, ap, ◌∙◌, inl, inr, true, false, ◌&&◌, some, List, [], ◌∷◌, map,
  arith, ltb, Bool-cases, length, any, number_key, text_key, includes, Result, ok, err,
}
use mathlib.Core.Path.{subst}
use zendesk_mcp_server.Base.Sets.{unique, IsUnique, unique-IsUnique, includes-unique}
use zendesk_mcp_server.Text.{trim, split_on}
use zendesk_mcp_server.OauthScopes.{list_key}
use zendesk_mcp_server.Config.{
  ConfigError, and_then, is_empty, split_strict_list, all_word, normalized_ids, parse_brand_ids,
}

-- What threw nothing returned a value, and the rest went on with it.
pub and_then_ok :
    {A : Type 0} {B : Type 0} (r : Result ConfigError A) (f : A → Result ConfigError B) (b : B)
    → and_then r f ≡ ok b
    → (a : A) × (r ≡ ok a) × (f a ≡ ok b)
unfolding and_then
and_then_ok (err e) f b h = absurd (cc)
and_then_ok (ok a) f b h = (a, refl, h)

-- What holds of the value that is returned, where one is.
abbrev pub Gives : {B : Type 0} → (B → Type 0) → Result ConfigError B → Type 0
Gives {B} P r = (b : B) → r ≡ ok b → P b

pub returned : {B : Type 0} (P : B → Type 0) (a : B) → P a → Gives P (ok a)
returned P a p b h = subst P (cc (h)) p

pub and_then-Gives :
    {A : Type 0} {B : Type 0} (P : B → Type 0) (r : Result ConfigError A)
    (f : A → Result ConfigError B)
    → ((a : A) → r ≡ ok a → Gives P (f a))
    → Gives P (and_then r f)
unfolding and_then
and_then-Gives P (err e) f rest b h = absurd (cc)
and_then-Gives P (ok a) f rest b h = rest a refl b h

-- the entries of a list, as the code compares them
abbrev pub entries_of : (List ℕ → List ℕ) → List ℕ → List (List ℕ)
entries_of to_lower_case raw = map to_lower_case (map trim (split_on b',' raw))

pub record AreBrands (to_lower_case : List ℕ → List ℕ) (raw : List ℕ) (ids : List (List ℕ))
    : Type 0 where
  pub each_once : IsUnique ids
  pub same : (id : List ℕ) → includes ids id ≡ includes (entries_of to_lower_case raw) id
  pub no_blank : includes ids [] ≡ false
  pub all_alone : includes ids all_word ≡ true → length ids ≡ 1

-- No text but the empty one is empty in lower case.
abbrev pub KeepsText : (List ℕ → List ℕ) → Type 0
KeepsText to_lower_case = (c : ℕ) (s : List ℕ) → is_empty (to_lower_case (c ∷ s)) ≡ false

filled_differs : (t : List ℕ) → is_empty t ≡ false → (t == []) ≡ false
filled_differs [] h = cc
filled_differs (c ∷ s) h = refl

lower_blank :
    (to_lower_case : List ℕ → List ℕ) (entries : List (List ℕ))
    → KeepsText to_lower_case
    → any is_empty entries ≡ false
    → includes (map to_lower_case entries) [] ≡ false
lower_blank to_lower_case [] keeps h = refl
lower_blank to_lower_case ([] ∷ entries) keeps h = cc
lower_blank to_lower_case ((c ∷ s) ∷ entries) keeps h =
    rw (filled_differs (to_lower_case (c ∷ s)) (keeps c s))
      (lower_blank to_lower_case entries keeps h)

alone :
    (ids : List (List ℕ)) (word : List ℕ)
    → ltb 1 (length ids) ≡ false
    → includes ids word ≡ true
    → length (unique ids) ≡ 1
unfolding unique
alone [] word small has = absurd (cc)
alone (id ∷ []) word small has = refl
alone (id ∷ other ∷ ids) word small has = absurd (ground arith)

pub strict_entries :
    (raw : List ℕ) (label : String) (entries : List (List ℕ))
    → split_strict_list raw label ≡ ok entries
    → (map trim (split_on b',' raw) ≡ entries) × (any is_empty entries ≡ false)
unfolding split_strict_list
strict_entries raw label entries h =
    elim (Bool-cases (any is_empty (map trim (split_on b',' raw)))) [
      | inl blank ↦ absurd (ground arith)
      | inr filled ↦
          let same : map trim (split_on b',' raw) ≡ entries = ground arith in
          (same, rw (sym same) filled)
    ]

normalized :
    (entries ids : List (List ℕ))
    → normalized_ids entries ≡ ok ids
    → (unique entries ≡ ids) × ((ltb 1 (length entries) && includes entries all_word) ≡ false)
normalized entries ids h = elim (Bool-cases (ltb 1 (length entries) && includes entries all_word)) [
  | inl both ↦ absurd (ground arith)
  | inr fine ↦ (ground arith, fine)
]

module _ (to_lower_case : List ℕ → List ℕ) (keeps : KeepsText to_lower_case) where
  unique-AreBrands :
      (raw : List ℕ)
      → any is_empty (map trim (split_on b',' raw)) ≡ false
      → (ltb 1 (length (entries_of to_lower_case raw))
          && includes (entries_of to_lower_case raw) all_word)
        ≡ false
      → AreBrands to_lower_case raw (unique (entries_of to_lower_case raw))
  unique-AreBrands raw filled fine =
      let entries = entries_of to_lower_case raw in
      record {
        each_once = unique-IsUnique entries;
        same = λ id. includes-unique entries id;
        no_blank =
            includes-unique entries []
            ∙ lower_blank to_lower_case (map trim (split_on b',' raw)) keeps filled;
        all_alone = λ has.
            let there = sym (includes-unique entries all_word) ∙ has in
            alone entries all_word (ground arith) there;
      }

  -- The brand ids that are accepted: each entry of the list, in lower case, once, none of them
  -- blank, and `all` only by itself.
  pub parse_brand_ids-AreBrands :
      (raw : List ℕ) (ids : List (List ℕ))
      → parse_brand_ids to_lower_case (some raw) ≡ ok (some ids)
      → AreBrands to_lower_case raw ids
  unfolding parse_brand_ids
  parse_brand_ids-AreBrands raw ids h =
      let (entries, split, next) =
        and_then_ok (split_strict_list raw "--brand-ids / ZENDESK_BRAND_IDS") _ (some ids) h in
      let (found, unified, last) =
        and_then_ok (normalized_ids (map to_lower_case entries)) _ (some ids) next in
      let (same, filled) = strict_entries raw "--brand-ids / ZENDESK_BRAND_IDS" entries split in
      let (uniq, fine) = normalized (map to_lower_case entries) found unified in
      let whole : unique (entries_of to_lower_case raw) ≡ ids =
        ap (λ (e : List (List ℕ)). unique (map to_lower_case e)) same ∙ (uniq ∙ cc (last)) in
      subst (AreBrands to_lower_case raw) whole (
        unique-AreBrands raw (rw same filled) (
          subst
            (λ (e : List (List ℕ)).
              (ltb 1 (length (map to_lower_case e)) && includes (map to_lower_case e) all_word)
              ≡ false)
            (sym same) fine))
