-- ===== src/TokenStore.antt =====
-- auth/token-store.ts: the Zendesk token of a stdio session, as a state machine. A function that
-- waits is cut at its waits: each piece runs whole, and the pieces of several calls interleave.
-- The network and the clock enter as arguments. What `saveToken` and `clearToken` do to the file
-- (auth/token-persistence.ts) is the field `disk`; they swallow an error, which `writable` models.
pub mod Single
pub mod Serving
pub mod Invalidated
mod Tests
use zendesk_mcp_server.Base.{
  ℕ, ◌+◌, ◌-◌, ◌*◌, String, Bool, true, false, not, ◌&&◌, Option, none, some, List, [], ◌∷◌, ◌++◌,
  leb, if◌then◌else◌, ◌==◌, number_key, text_key,
}
use zendesk_mcp_server.OauthScopes.{list_key, requested_scope, grant_covers}

pub record PersistedToken : Type 0 where
  pub access_token : String
  pub refresh_token : Option String
  pub expires_at : Option ℕ
  pub scope : Option (List ℕ)

-- A refresh in flight: the token that it started from, and whether a failure drops the token.
pub record Refresh : Type 0 where
  pub current : PersistedToken
  pub drop_on_failure : Bool

pub record Store : Type 0 where
  pub token : Option PersistedToken
  pub disk : Option PersistedToken
  pub writable : Bool
  pub requested : List ℕ
  pub authorize_url : Option String
  pub starting : Bool
  pub refreshing : Bool
  pub probed_unknown_expiry : Bool
  pub refreshes : List Refresh  -- those in flight
  pub flows : ℕ  -- browser flows in flight

-- What the authorization server answers.
pub record TokenResponse : Type 0 where
  pub access_token : String
  pub refresh_token : Option String
  pub expires_in : Option ℕ
  pub scope : Option (List ℕ)

abbrev pub expiry_skew_ms : ℕ
expiry_skew_ms = 60000

abbrev pub expiry_from : ℕ → Option ℕ → Option ℕ
expiry_from now none = none
expiry_from now (some seconds) = some (now + seconds * 1000)

-- an absent or empty text is false
abbrev pub is_truthy : Option String → Bool
is_truthy none = false
is_truthy (some s) = not (s == "")

abbrev pub is_some {ℓ} : {A : Type ℓ} → Option A → Bool
is_some none = false
is_some (some a) = true

-- `a ?? b` and `a || b`
abbrev pub or_kept : Option String → Option String → Option String
or_kept none kept = kept
or_kept (some s) kept = some s

abbrev pub or_scope : Option (List ℕ) → Option (List ℕ) → Option (List ℕ)
or_scope none kept = kept
or_scope (some []) kept = kept
or_scope (some (c ∷ s)) kept = some (c ∷ s)

abbrev pub seeded : List ℕ → Option PersistedToken → Option PersistedToken
seeded requested none = none
seeded requested (some t) = if grant_covers t.scope requested then some t else none

-- the start of `createTokenStore`, with what `loadToken` read
unfoldable pub create_token_store : Bool → Bool → Option PersistedToken → Store
create_token_store read_only writable loaded = record {
  token = seeded (requested_scope read_only) loaded;
  disk = loaded;
  writable = writable;
  requested = requested_scope read_only;
  authorize_url = none;
  starting = false;
  refreshing = false;
  probed_unknown_expiry = false;
  refreshes = [];
  flows = 0;
}

abbrev pub install : Store → PersistedToken → Store
install s t = record s { token = some t; disk = if s.writable then some t else s.disk }

abbrev pub drop_token : Store → Store
drop_token s = record s { token = none; disk = if s.writable then none else s.disk }

unfoldable pub set_token : Store → String → Option String → Store
set_token s access refresh =
    install (record s { probed_unknown_expiry = false })
      (record {
        access_token = access;
        refresh_token = refresh;
        expires_at = none;
        scope = some s.requested;
      })

-- `Date.now() >= expiresAt - skew`
abbrev pub needs_refresh_at : ℕ → Bool → Option String → Option ℕ → Bool
needs_refresh_at now probed refresh (some expires_at) = leb expires_at (now + expiry_skew_ms)
needs_refresh_at now probed refresh none = is_some refresh && not probed

unfoldable pub needs_refresh : Store → ℕ → PersistedToken → Bool
needs_refresh s now t = needs_refresh_at now s.probed_unknown_expiry t.refresh_token t.expires_at

-- `tryRefresh` up to its wait for the network
abbrev pub start_refresh : Store → PersistedToken → Bool → Store
start_refresh s current drop_on_failure = record s {
  refreshing = true;
  refreshes = record { current = current; drop_on_failure = drop_on_failure } ∷ s.refreshes;
}

-- `refreshIfPossible`: nothing to refresh with, or wait for the refresh in flight
pub data Served : Type 0 where
  served : String → Served
  awaits_refresh : Served
  nothing : Served

unfoldable pub refresh_if_possible : Store → Option PersistedToken → Store × Served
refresh_if_possible s none = (s, nothing)
refresh_if_possible s (some current) =
    if not (is_truthy current.refresh_token)
    then (s, nothing)
    else if s.refreshing
    then (s, awaits_refresh)
    else (start_refresh s current true, awaits_refresh)

unfoldable pub serve_token : Store → ℕ → Option PersistedToken → Store × Served
unfolding needs_refresh refresh_if_possible
serve_token s now none = refresh_if_possible s none
serve_token s now (some t) =
    if not (needs_refresh s now t)
    then (s, served t.access_token)
    else refresh_if_possible s (some t)

-- `tokenWithoutPrompt` after its first wait
unfoldable pub token_without_prompt : Store → ℕ → Store × Served
unfolding serve_token
token_without_prompt s now = serve_token s now s.token

abbrev pub refreshed : Store → ℕ → Refresh → TokenResponse → PersistedToken
refreshed s now job result = record {
  access_token = result.access_token;
  refresh_token = or_kept result.refresh_token job.current.refresh_token;
  expires_at = expiry_from now result.expires_in;
  scope = or_scope result.scope job.current.scope;
}

abbrev pub end_refresh : Store → Refresh → ℕ → Option TokenResponse → Store
end_refresh s job now (some result) =
    install (record s { probed_unknown_expiry = true }) (refreshed s now job result)
end_refresh s job now none = if job.drop_on_failure then drop_token s else s

-- the rest of `tryRefresh` for the refresh at a place of those in flight, with the answer or, on
-- a failure, none; and the `finally` of its caller
unfoldable pub finish_refresh :
    Store → List Refresh → List Refresh → ℕ → Option TokenResponse → Store
finish_refresh s before [] now result = s
finish_refresh s before (job ∷ after) now result = record (end_refresh s job now result) {
  refreshing = false;
  refreshes = before ++ after;
}

-- the timer of the background refresh
unfoldable pub scheduled_refresh : Store → Option PersistedToken → Store
scheduled_refresh s none = s
scheduled_refresh s (some t) =
    if is_truthy t.refresh_token && not s.refreshing then start_refresh s t false else s

-- `getToken` where no token could be served: one browser flow at a time
unfoldable pub prompt : Store → Store
prompt s = if s.starting then s else record s { starting = true; flows = s.flows + 1 }

-- the callback server of the flow listens, or failed to
unfoldable pub flow_listening : Store → String → Store
flow_listening s url = record s { authorize_url = some url }

unfoldable pub flow_not_started : Store → Store
flow_not_started s = record s { starting = false; flows = s.flows - 1 }

abbrev pub minted : Store → ℕ → TokenResponse → PersistedToken
minted s now result = record {
  access_token = result.access_token;
  refresh_token = result.refresh_token;
  expires_at = expiry_from now result.expires_in;
  scope = or_scope result.scope (some s.requested);
}

abbrev pub flow_result : Store → ℕ → Option TokenResponse → Store
flow_result s now none = s
flow_result s now (some result) =
    install (record s { probed_unknown_expiry = true }) (minted s now result)

-- the flow ended, with a grant or without
unfoldable pub flow_settled : Store → ℕ → Option TokenResponse → Store
flow_settled s now result = record (flow_result s now result) {
  starting = false;
  authorize_url = none;
  flows = s.flows - 1;
}

abbrev pub invalidate_token : Store → Option PersistedToken → Store
invalidate_token s none = drop_token s
invalidate_token s (some t) =
    if is_truthy t.refresh_token then install s (record t { expires_at = some 0 }) else drop_token s

unfoldable pub invalidate : Store → Store
invalidate s = invalidate_token s s.token
