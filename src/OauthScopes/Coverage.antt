-- ===== src/OauthScopes/Coverage.antt =====
-- `grantCovers` of auth/oauth-scopes.ts, against inclusion of scope tokens.
use zendesk_mcp_server.Base.{
  ℕ, ◌≡◌, refl, ◌↔◌, inl, inr, true, some, List, [], ◌∷◌, arith, Bool-cases, ◌==◌, number_key,
  text_key, ==_iff, includes, All, In,
}
use zendesk_mcp_server.OauthScopes.{list_key, scope_tokens, every_held, grant_covers}

includes-In : (held : List (List ℕ)) (t : List ℕ) → includes held t ≡ true → In t held
includes-In [] t h = cc
includes-In (x ∷ held) t h = elim (Bool-cases (x == t)) [
  | inl same ↦ inl ((==_iff x t).0 same)
  | inr other ↦ inr (includes-In held t (rw other at h))
]

In-includes : (held : List (List ℕ)) (t : List ℕ) → In t held → includes held t ≡ true
In-includes (x ∷ held) t (inl same) = rw ((==_iff x t).1 same)
In-includes (x ∷ held) t (inr later) = elim (Bool-cases (x == t)) [
  | inl same ↦ rw same
  | inr other ↦ rw other (In-includes held t later)
]
In-includes [] t h = absurd h

pub every_held_iff :
    (held tokens : List (List ℕ)) → (every_held held tokens ≡ true) ↔ All (λ t. In t held) tokens
every_held_iff held [] = (λ h. tt, λ h. refl)
every_held_iff held (t ∷ tokens) = (
  λ h. elim (Bool-cases (includes held t)) [
    | inl here ↦ (includes-In held t here, (every_held_iff held tokens).0 (rw here at h))
    | inr missing ↦ absurd (ground arith)
  ],
  λ h. rw (In-includes held t h.0) ((every_held_iff held tokens).1 h.1),
)

-- A recorded grant covers a request exactly if every token of the request is a token of the grant.
pub grant_covers_iff :
    (granted requested : List ℕ)
    → (grant_covers (some granted) requested ≡ true)
      ↔ All (λ t. In t (scope_tokens granted)) (scope_tokens requested)
unfolding grant_covers
grant_covers_iff granted requested = every_held_iff (scope_tokens granted) (scope_tokens requested)

In-every :
    (held tokens : List (List ℕ)) (t : List ℕ)
    → All (λ u. In u held) tokens
    → In t tokens
    → In t held
In-every held (u ∷ tokens) t h (inl same) = rw (← same) h.0
In-every held (u ∷ tokens) t h (inr later) = In-every held tokens t h.1 later
In-every held [] t h m = absurd m

All-trans :
    (held middle tokens : List (List ℕ))
    → All (λ t. In t held) middle
    → All (λ t. In t middle) tokens
    → All (λ t. In t held) tokens
All-trans held middle [] h k = tt
All-trans held middle (t ∷ tokens) h k =
    (In-every held middle t h k.0, All-trans held middle tokens h k.1)

-- Coverage is transitive: a grant that covers what a second scope holds covers all that it covers.
pub grant_covers_trans :
    (granted middle requested : List ℕ)
    → grant_covers (some granted) middle ≡ true
    → grant_covers (some middle) requested ≡ true
    → grant_covers (some granted) requested ≡ true
grant_covers_trans granted middle requested h k = (grant_covers_iff granted requested).1 (
    All-trans (scope_tokens granted) (scope_tokens middle) (scope_tokens requested)
      ((grant_covers_iff granted middle).0 h) ((grant_covers_iff middle requested).0 k))
