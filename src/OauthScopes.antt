-- ===== src/OauthScopes.antt =====
-- auth/oauth-scopes.ts: the scope to request, and whether a grant covers it. A scope is a text as
-- its code points.
pub mod Coverage
mod Tests
use zendesk_mcp_server.Base.{
  ℕ, ◌≡◌, ◌↔◌, Bool, true, false, ◌&&◌, Option, none, some, List, [], ◌∷◌, arith, if◌then◌else◌,
  keep, JsKey, ◌==◌, number_key, text_key, includes,
}
use zendesk_mcp_server.Text.{codes, is_space}

abbrev pub list_beq : List ℕ → List ℕ → Bool
list_beq [] [] = true
list_beq (a ∷ s) (b ∷ t) = (a == b) && list_beq s t
list_beq _ _ = false

pub list_beq_iff : (s t : List ℕ) → (list_beq s t ≡ true) ↔ (s ≡ t)
list_beq_iff [] [] = ground arith
list_beq_iff (a ∷ s) [] = ground arith
list_beq_iff [] (b ∷ t) = ground arith
list_beq_iff (a ∷ s) (b ∷ t) = ground (arith, list_beq_iff s t)

instance abbrev pub list_key : JsKey (List ℕ)
list_key = record { same = list_beq; same_iff = list_beq_iff }

abbrev pub read_scope : List ℕ
read_scope = codes "read"

abbrev pub read_write_scope : List ℕ
read_write_scope = codes "read write"

abbrev pub start_token : ℕ → List (List ℕ) → List (List ℕ)
start_token c [] = (c ∷ []) ∷ []
start_token c (piece ∷ pieces) = (c ∷ piece) ∷ pieces

-- `scope.split(/\s/)`; the pieces that a run of spaces leaves empty are filtered out below
unfoldable pub split_space : List ℕ → List (List ℕ)
unfolding is_space
split_space [] = [] ∷ []
split_space (c ∷ s) =
    let rest = split_space s in if is_space c then [] ∷ rest else start_token c rest

abbrev pub is_filled : List ℕ → Bool
is_filled [] = false
is_filled (c ∷ s) = true

unfoldable pub scope_tokens : List ℕ → List (List ℕ)
unfolding split_space
scope_tokens scope = keep is_filled (split_space scope)

unfoldable pub requested_scope : Bool → List ℕ
requested_scope read_only = if read_only then read_scope else read_write_scope

unfoldable pub supported_scopes : Bool → List (List ℕ)
unfolding scope_tokens requested_scope
supported_scopes read_only = scope_tokens (requested_scope read_only)

abbrev pub every_held : List (List ℕ) → List (List ℕ) → Bool
every_held held [] = true
every_held held (token ∷ tokens) = includes held token && every_held held tokens

-- an absent scope counts as `read write`
unfoldable pub grant_covers : Option (List ℕ) → List ℕ → Bool
unfolding scope_tokens
grant_covers none requested = true
grant_covers (some granted) requested = every_held (scope_tokens granted) (scope_tokens requested)
