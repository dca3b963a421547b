-- ===== src/Config/Names.antt =====
-- The namespaces that config.ts accepts.
use zendesk_mcp_server.Base.{
  String, ℕ, ◌≡◌, refl, sym, ◌∙◌, ◌⊎◌, inl, inr, true, false, Option, none, some, List, [], ◌∷◌,
  arith, ltb, map, Bool-cases, length, any, ==_iff, number_key, text_key, includes, ok,
}
use mathlib.Core.Path.{subst}
use zendesk_mcp_server.Base.Sets.{unique, IsUnique, unique-IsUnique, includes-unique}
use zendesk_mcp_server.Text.{trim, split_on}
use zendesk_mcp_server.OauthScopes.{list_key}
use zendesk_mcp_server.Config.{
  EnvOf, non_empty, is_empty, split_strict_list, all_word, namespace_options, expand_all_namespaces,
  namespaces_of, resolve_namespaces, read_non_empty_env,
}
use zendesk_mcp_server.Config.Lists.{and_then_ok, strict_entries}

-- The namespaces of some entries: all of them for `all`, which stands alone, and otherwise those
-- named, each once.
abbrev pub AreNames : List (List ℕ) → List (List ℕ) → Type 0
AreNames entries names =
    ((includes entries all_word ≡ true)
      × ((n : List ℕ) → includes entries n ≡ true → n ≡ all_word)
      × (names ≡ namespace_options))
    ⊎ ((includes entries all_word ≡ false)
        × IsUnique names
        × ((n : List ℕ) → includes names n ≡ includes entries n))

-- The entries that the operator named: those of the flag, or of the variable where there is no flag.
abbrev pub AreNamed : Option (List (List ℕ)) → EnvOf → List (List ℕ) → Type 0
AreNamed flag env entries =
    (flag ≡ some entries)
    ⊎ ((flag ≡ none)
        × (raw : List ℕ) × (env "MCP_NAMESPACES" ≡ some raw)
        × (map trim (split_on b',' raw) ≡ entries)
        × (any is_empty entries ≡ false))

only_one :
    (entries : List (List ℕ)) (word n : List ℕ)
    → ltb 1 (length entries) ≡ false
    → includes entries word ≡ true
    → includes entries n ≡ true
    → n ≡ word
only_one [] word n small has h = absurd (cc)
only_one (e ∷ []) word n small has h =
    let first : e ≡ word = (==_iff e word).0 (ground arith) in
    let same : e ≡ n = (==_iff e n).0 (ground arith) in sym same ∙ first
only_one (e ∷ d ∷ entries) word n small has h = absurd (ground arith)

expand-AreNames :
    (entries names : List (List ℕ))
    → expand_all_namespaces entries ≡ ok names
    → AreNames entries names
unfolding expand_all_namespaces
expand-AreNames entries names h =
    let members = includes-unique entries in
    elim (Bool-cases (includes (unique entries) all_word)) [
      | inr without ↦
          let same : unique entries ≡ names = ground arith in
          inr (
            sym (members all_word) ∙ without,
            subst IsUnique same (unique-IsUnique entries),
            subst (λ (l : List (List ℕ)). (n : List ℕ) → includes l n ≡ includes entries n) same
                members,
          )
      | inl with_all ↦ elim (Bool-cases (ltb 1 (length (unique entries)))) [
        | inl several ↦ absurd (ground arith)
        | inr one ↦ inl (
          sym (members all_word) ∙ with_all,
          λ n there. only_one (unique entries) all_word n one with_all (members n ∙ there),
          ground arith,
        )
      ]
    ]

pub read_known :
    (o : Option (List ℕ)) (name : String) (raw : List ℕ)
    → non_empty name o ≡ ok (some raw)
    → o ≡ some raw
read_known none name raw h = absurd (cc)
read_known (some []) name raw h = absurd (cc)
read_known (some (c ∷ s)) name raw h = cc

-- The namespaces that are accepted are those that the operator named, in the flag or the variable.
pub resolve_namespaces-AreNames :
    (values : Option (List (List ℕ))) (env : EnvOf) (names : List (List ℕ))
    → resolve_namespaces values env ≡ ok (some names)
    → (entries : List (List ℕ)) × AreNamed values env entries × AreNames entries names
unfolding resolve_namespaces read_non_empty_env
resolve_namespaces-AreNames (some values) env names h =
    let (found, expands, last) = and_then_ok (expand_all_namespaces values) _ (some names) h in
    (values, inl refl, subst (AreNames values) (cc (last)) (expand-AreNames values found expands))
resolve_namespaces-AreNames none env names h =
    let (o, reads, next) = and_then_ok (read_non_empty_env env "MCP_NAMESPACES") _ (some names) h in
    read_names o reads next
  where
    read_names :
        (o : Option (List ℕ))
        → non_empty "MCP_NAMESPACES" (env "MCP_NAMESPACES") ≡ ok o
        → namespaces_of o ≡ ok (some names)
        → (entries : List (List ℕ)) × AreNamed none env entries × AreNames entries names
    read_names none reads next = absurd (cc)
    read_names (some raw) reads next =
        let (entries, split, expanding) =
          and_then_ok (split_strict_list raw "MCP_NAMESPACES") _ (some names) next in
        let (found, expands, last) =
          and_then_ok (expand_all_namespaces entries) _ (some names) expanding in
        let (same, filled) = strict_entries raw "MCP_NAMESPACES" entries split in
        (
          entries,
          inr (
            refl,
            raw,
            read_known (env "MCP_NAMESPACES") "MCP_NAMESPACES" raw reads,
            same,
            filled,
          ),
          subst (AreNames entries) (cc (last)) (expand-AreNames entries found expands),
        )
