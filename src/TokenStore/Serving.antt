-- ===== src/TokenStore/Serving.antt =====
-- Which token a call of auth/token-store.ts is served at once, and what a refresh makes of it.
use zendesk_mcp_server.Base.{
  ℕ, ◌+◌, ◌<◌, String, ◌≡◌, refl, inl, inr, true, false, none, some, List, [], ◌∷◌, arith,
  Option-cases, number_key, text_key,
}
use zendesk_mcp_server.TokenStore.{
  PersistedToken, Refresh, Store, TokenResponse, served, is_truthy, token_without_prompt, refreshed,
  finish_refresh, scheduled_refresh,
}

-- A call that is served at once, without waiting for a refresh, is given the token in memory, leaves
-- it as it is, and that token does not come within a minute of its expiry, if that is known.
served_at_once :
    (s : Store) (now : ℕ) (access : String)
    → (token_without_prompt s now).1 ≡ served access
    → ((token_without_prompt s now).0 ≡ s)
      × (t : PersistedToken) × (s.token ≡ some t)
      × (t.access_token ≡ access)
      × ((e : ℕ) → t.expires_at ≡ some e → now + 60000 < e)
unfolding token_without_prompt
served_at_once s now access h = elim (Option-cases s.token) [
  | inl missing ↦ absurd (ground arith)
  | inr (t, there) ↦ (ground arith, t, there, ground arith, λ e known. ground arith)
]

-- A background refresh that starts and fails loses nothing: the token and the file are as
-- before it, and the way is free for another refresh.
pub scheduled_refresh_failure :
    (s : Store) (t : PersistedToken) (now : ℕ)
    → s.token ≡ some t
    → is_truthy t.refresh_token ≡ true
    → s.refreshing ≡ false
    → (job : Refresh) × ((scheduled_refresh s s.token).refreshes ≡ job ∷ s.refreshes)
      × ((finish_refresh (scheduled_refresh s s.token) [] (job ∷ s.refreshes) now none).token
          ≡ some t)
      × ((finish_refresh (scheduled_refresh s s.token) [] (job ∷ s.refreshes) now none).disk
          ≡ s.disk)
      × ((finish_refresh (scheduled_refresh s s.token) [] (job ∷ s.refreshes) now none).refreshing
          ≡ false)
unfolding scheduled_refresh finish_refresh
scheduled_refresh_failure s t now there held idle =
    let job : Refresh = record { current = t; drop_on_failure = false } in
    (job, ground arith, ground arith, ground arith, refl)

-- A refresh whose answer leaves out the expiry is trusted: from then on, whatever the time, a call
-- is served the new access token, until something else changes the token.
pub refreshed_without_expiry_served :
    (s : Store) (before : List Refresh) (job : Refresh) (after : List Refresh) (now later : ℕ)
    (result : TokenResponse)
    → result.expires_in ≡ none
    → (token_without_prompt (finish_refresh s before (job ∷ after) now (some result)) later).1
      ≡ served result.access_token
unfolding token_without_prompt finish_refresh
refreshed_without_expiry_served s before job after now later result h = ground arith

-- A refresh that succeeds keeps the refresh token and the scope that it started from where the
-- answer leaves them out, and takes those of the answer otherwise.
pub refresh_keeps_omitted :
    (s : Store) (before : List Refresh) (job : Refresh) (after : List Refresh) (now : ℕ)
    (result : TokenResponse)
    → (t : PersistedToken) × ((finish_refresh s before (job ∷ after) now (some result)).token
        ≡ some t)
      × (t.access_token ≡ result.access_token)
      × (result.refresh_token ≡ none → t.refresh_token ≡ job.current.refresh_token)
      × ((r : String) → result.refresh_token ≡ some r → t.refresh_token ≡ some r)
      × (result.scope ≡ none → t.scope ≡ job.current.scope)
unfolding finish_refresh
refresh_keeps_omitted s before job after now result = (
  refreshed s now job result,
  refl,
  refl,
  λ h. ground arith,
  λ r h. ground arith,
  λ h. ground arith,
)
