-- ===== src/AuthServer/ConsentKey.antt =====
-- The key that auth/server/interactions.ts remembers a consent under, with the comparison of
-- utils/compare.ts. The order `<` of texts is a parameter, and so is the hash: of a context, the
-- SHA-256 of its JSON.
use zendesk_mcp_server.Base.{
  String, Bool, not, ◌&&◌, inl, inr, List, [], ◌∷◌, if◌then◌else◌, Bool-cases,
}
use mathlib.Core.List.{Perm}
use mathlib.Core.List.Perm

-- What `consentMemoryKey` hashes, as one text.
pub record ConsentContext : Type 0 where
  pub account_id : String
  pub client_id : String
  pub redirect_uris : List String  -- in order

-- `compareCodeUnits(a, b) > 0`
abbrev pub is_greater : (String → String → Bool) → String → String → Bool
is_greater less a b = less b a && not (less a b)

unfoldable pub insert_uri : (String → String → Bool) → String → List String → List String
insert_uri less uri [] = uri ∷ []
insert_uri less uri (u ∷ uris) =
    let rest = insert_uri less uri uris in
    if is_greater less uri u then u ∷ rest else uri ∷ u ∷ uris

-- `[...redirectUris].sort(compareCodeUnits)`
unfoldable pub sort_uris : (String → String → Bool) → List String → List String
unfolding insert_uri
sort_uris less [] = []
sort_uris less (uri ∷ uris) = insert_uri less uri (sort_uris less uris)

abbrev pub consent_context :
    (String → String → Bool) → String → String → List String → ConsentContext
consent_context less account_id client_id redirect_uris = record {
  account_id = account_id;
  client_id = client_id;
  redirect_uris = sort_uris less redirect_uris;
}

unfoldable pub consent_memory_key :
    (String → String → Bool) → (ConsentContext → String) → String → String → List String → String
unfolding sort_uris
consent_memory_key less digest account_id client_id redirect_uris =
    digest (consent_context less account_id client_id redirect_uris)

insert_uri-Perm :
    (less : String → String → Bool) (uri : String) (uris : List String)
    → Perm (insert_uri less uri uris) (uri ∷ uris)
unfolding insert_uri
insert_uri-Perm less uri [] = Perm.refl (uri ∷ [])
insert_uri-Perm less uri (u ∷ uris) = elim (Bool-cases (is_greater less uri u)) [
  | inl after ↦
      rw after (Perm.trans (Perm.cons u (insert_uri-Perm less uri uris)) (Perm.swap uri u uris))
  | inr here ↦ rw here (Perm.refl (uri ∷ u ∷ uris))
]

pub sort_uris-Perm :
    (less : String → String → Bool) (uris : List String) → Perm (sort_uris less uris) uris
unfolding sort_uris
sort_uris-Perm less [] = Perm.refl []
sort_uris-Perm less (uri ∷ uris) =
    Perm.trans (insert_uri-Perm less uri (sort_uris less uris))
      (Perm.cons uri (sort_uris-Perm less uris))
