-- ===== src/TokenStore/Tests.antt =====
-- Runs of auth/token-store.ts: a stored token that expires, its refresh, and a browser flow.
use zendesk_mcp_server.Base.{
  Run, at_start, then_step, ◌≤◌, ◌≡◌, refl, true, false, [], ◌∷◌, none, some, length, number_key,
  text_key,
}
use zendesk_mcp_server.Text.{codes}
use zendesk_mcp_server.OauthScopes.{requested_scope, grant_covers}
use zendesk_mcp_server.TokenStore.{
  PersistedToken, Refresh, Store, TokenResponse, served, create_token_store, token_without_prompt,
  invalidate, finish_refresh, awaits_refresh,
}
use zendesk_mcp_server.TokenStore.Single.{
  Step, asked, finished, one_refresh_in_flight, token_on_disk,
}
use zendesk_mcp_server.TokenStore.Invalidated.{any_grant, invalidated_not_served}

abbrev stored : PersistedToken
stored = record {
  access_token = "a";
  refresh_token = some "r";
  expires_at = some 100000;
  scope = some (codes "read write");
}

abbrev started : Store
started = create_token_store false true (some stored)

abbrev answer : TokenResponse
answer = record { access_token = "b"; refresh_token = none; expires_in = none; scope = none }

seeded_with : started.token ≡ some stored
unfolding create_token_store requested_scope grant_covers
seeded_with = refl

early : (token_without_prompt started 39999).1 ≡ served "a"
unfolding create_token_store requested_scope grant_covers token_without_prompt
early = refl

-- two calls within a minute of the expiry: the second waits for the refresh of the first
abbrev refreshing : Store
refreshing = (token_without_prompt (token_without_prompt started 40000).0 40001).0

refreshing-Run : Run Step started refreshing
refreshing-Run = then_step (then_step at_start (asked started 40000)) (asked _ 40001)

in_flight : length refreshing.refreshes ≡ 1
unfolding create_token_store requested_scope grant_covers token_without_prompt
in_flight = refl

one_refresh_in_flight_example : length refreshing.refreshes ≤ 1
one_refresh_in_flight_example = one_refresh_in_flight false true (some stored) refreshing-Run

-- invalidated while a refresh runs: a call waits, and is served once that refresh has succeeded
abbrev revoked : Store
revoked = invalidate refreshing

abbrev job : Refresh
job = record { current = stored; drop_on_failure = true }

abbrev renewed : Store
renewed = finish_refresh revoked [] (job ∷ []) 50000 (some answer)

still_in_flight : revoked.refreshes ≡ job ∷ []
unfolding create_token_store requested_scope grant_covers token_without_prompt invalidate
still_in_flight = refl

answered_after : (token_without_prompt renewed 50001).1 ≡ served "b"
unfolding create_token_store requested_scope grant_covers token_without_prompt invalidate
    finish_refresh
answered_after = refl

abbrev renewed_Run : Run Step revoked renewed
renewed_Run = then_step at_start (finished revoked [] job [] 50000 (some answer) still_in_flight)

invalidated_early : (token_without_prompt revoked 0).1 ≡ awaits_refresh
unfolding create_token_store requested_scope grant_covers token_without_prompt invalidate
invalidated_early = refl

invalidated_not_served_example : any_grant renewed_Run ≡ true
invalidated_not_served_example =
    invalidated_not_served refreshing renewed_Run 50001 "b" answered_after

abbrev refreshed_store : Store
refreshed_store = finish_refresh refreshing [] (job ∷ []) 41000 (some answer)

job_in_flight : refreshing.refreshes ≡ job ∷ []
unfolding create_token_store requested_scope grant_covers token_without_prompt
job_in_flight = refl

refreshed_store-Run : Run Step started refreshed_store
refreshed_store-Run =
    then_step refreshing-Run (finished refreshing [] job [] 41000 (some answer) job_in_flight)

abbrev new_token : PersistedToken
new_token = record {
  access_token = "b";
  refresh_token = some "r";
  expires_at = none;
  scope = some (codes "read write");
}

new_in_memory : refreshed_store.token ≡ some new_token
unfolding create_token_store requested_scope grant_covers token_without_prompt finish_refresh
new_in_memory = refl

token_on_disk_example : refreshed_store.disk ≡ some new_token
token_on_disk_example =
    token_on_disk false (some stored) new_token refreshed_store-Run new_in_memory
