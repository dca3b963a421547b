-- ===== src/TokenStore/Invalidated.antt =====
-- auth/token-store.ts after `invalidate`: whom a run of calls, ticks and answers still serves.
use zendesk_mcp_server.Base.{
  Run, at_start, then_step, ℕ, String, ◌≡◌, inl, inr, Bool, true, false, ◌||◌, none, some, arith,
  Bool-cases, Option-cases, number_key, text_key,
}
use zendesk_mcp_server.TokenStore.{
  PersistedToken, Store, served, token_without_prompt, finish_refresh, scheduled_refresh, prompt,
  flow_listening, flow_not_started, flow_settled, invalidate, serve_token, refresh_if_possible,
}
use zendesk_mcp_server.TokenStore.Single.{
  Step, asked, prompted, ticked, finished, listening, not_started, settled, installed, invalidated,
}

-- A refresh or a browser sign-in that succeeds, or a token given to `setToken`.
abbrev pub is_grant : {s t : Store} → Step s t → Bool
is_grant (asked s now) = false
is_grant (prompted s) = false
is_grant (ticked s) = false
is_grant (finished s before job after now none shape) = false
is_grant (finished s before job after now (some result) shape) = true
is_grant (listening s url) = false
is_grant (not_started s running) = false
is_grant (settled s now none running) = false
is_grant (settled s now (some result) running) = true
is_grant (installed s access refresh) = true
is_grant (invalidated s) = false

abbrev pub any_grant : {s t : Store} → Run Step s t → Bool
any_grant at_start = false
any_grant (then_step run step) = is_grant step || any_grant run

-- The token in memory, if there is one, counts as expired.
abbrev IsExpired : Store → Type 0
IsExpired s = (t : PersistedToken) → s.token ≡ some t → t.expires_at ≡ some 0

invalidate-IsExpired : (s : Store) → IsExpired (invalidate s)
unfolding invalidate
invalidate-IsExpired s t h = elim (Option-cases s.token) [
  | inl missing ↦ ground arith
  | inr (old, there) ↦ ground arith
]

Step-IsExpired : {s t : Store} (step : Step s t) → is_grant step ≡ false → IsExpired s → IsExpired t
unfolding token_without_prompt serve_token refresh_if_possible prompt scheduled_refresh
    finish_refresh flow_listening flow_not_started flow_settled
Step-IsExpired (asked s now) q e t h = ground (arith, e t)
Step-IsExpired (prompted s) q e t h = ground (arith, e t)
Step-IsExpired (ticked s) q e t h = ground (arith, e t)
Step-IsExpired (finished s before job after now none shape) q e t h = ground (arith, e t)
Step-IsExpired (finished s before job after now (some result) shape) q e t h = ground arith
Step-IsExpired (listening s url) q e t h = e t h
Step-IsExpired (not_started s running) q e t h = e t h
Step-IsExpired (settled s now none running) q e t h = e t h
Step-IsExpired (settled s now (some result) running) q e t h = ground arith
Step-IsExpired (installed s access refresh) q e t h = ground arith
Step-IsExpired (invalidated s) q e t h = invalidate-IsExpired s t h

Run-IsExpired :
    {s t : Store} (run : Run Step s t) → any_grant run ≡ false → IsExpired s → IsExpired t
Run-IsExpired at_start q e = e
Run-IsExpired (then_step run step) q e =
    Step-IsExpired step (ground arith) (Run-IsExpired run (ground arith) e)

expired_not_served :
    (s : Store) (now : ℕ) (access : String)
    → IsExpired s
    → (token_without_prompt s now).1 ≡ served access
    → ⊥
unfolding token_without_prompt
expired_not_served s now access e h = elim (Option-cases s.token) [
  | inl missing ↦ ground arith
  | inr (t, there) ↦ let old : t.expires_at ≡ some 0 = e t there in ground arith
]

-- After `invalidate`, whatever calls, timer ticks and answers follow in whatever order, and whatever
-- the time: a call is served a token at once only if a refresh or a browser sign-in has succeeded
-- since, or a token was given to `setToken`.
pub invalidated_not_served :
    (s : Store) {t : Store} (run : Run Step (invalidate s) t) (now : ℕ) (access : String)
    → (token_without_prompt t now).1 ≡ served access
    → any_grant run ≡ true
invalidated_not_served s {t} run now access h = elim (Bool-cases (any_grant run)) [
  | inl granted ↦ granted
  | inr quiet ↦
      absurd (expired_not_served t now access (Run-IsExpired run quiet (invalidate-IsExpired s)) h)
]
