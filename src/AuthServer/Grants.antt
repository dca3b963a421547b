-- ===== src/AuthServer/Grants.antt =====
-- auth/server/zendesk-grant.ts, with `toTokenSet` of auth/server/upstream.ts: the Zendesk tokens of
-- each grant. `accessToken` and `remove` run under the key lock, one job each, and are cut at their
-- waits: the lock's turn, the record store, Zendesk. `save` runs without the lock. Zendesk's
-- answers, the clock and the expiry of a record (`lapsed`) come from outside.
pub mod Serial
pub mod Removal
use zendesk_mcp_server.Base.{
  ℕ, ◌+◌, ◌*◌, ◌<◌, String, ◌≡◌, Bool, true, false, not, ◌||◌, Option, none, some, leb,
  if◌then◌else◌, ◌==◌, number_key, text_key, Result, ok, err,
}
use zendesk_mcp_server.Base.JsMap
use zendesk_mcp_server.Base.JsMap.{JsMap}
use zendesk_mcp_server.AuthServer.KeyLock.{
  waiting, running, settled, KeyLock, update, create_key_lock, with_lock, is_due, begin_job,
  settle_job, clean_up,
}

pub record ZendeskTokenSet : Type 0 where
  pub access_token : String
  pub refresh_token : Option String
  pub expires_at : Option ℕ
  pub scope : Option String

pub record TokenResult : Type 0 where
  pub access_token : String
  pub refresh_token : Option String
  pub expires_in : Option ℕ
  pub scope : Option String

-- a failed token request: the status of Zendesk's answer, where it gave one
pub data UpstreamError : Type 0 where
  upstream_auth_error : Option ℕ → UpstreamError
  other_error : UpstreamError

pub data GrantError : Type 0 where
  grant_unavailable : GrantError
  rethrown : UpstreamError → GrantError

abbrev pub zendesk_refresh_margin_ms : ℕ
zendesk_refresh_margin_ms = 5 * 60 * 1000

abbrev pub or_previous : Option String → Option String → Option String
or_previous none previous = previous
or_previous (some token) previous = some token

abbrev pub expiry_from : ℕ → Option ℕ → Option ℕ
expiry_from now none = none
expiry_from now (some seconds) = some (now + seconds * 1000)

unfoldable pub to_token_set : TokenResult → Option String → ℕ → ZendeskTokenSet
to_token_set result previous now = record {
  access_token = result.access_token;
  refresh_token = or_previous result.refresh_token previous;
  expires_at = expiry_from now result.expires_in;
  scope = result.scope;
}

abbrev pub is_refusal : UpstreamError → Bool
is_refusal (upstream_auth_error (some status)) = (status == 400) || (status == 401)
is_refusal _ = false

abbrev pub expires_within : ℕ → ℕ → Option ℕ → Bool
expires_within now margin none = false
expires_within now margin (some expires_at) = leb expires_at (now + margin)

unfoldable pub needs_refresh : ZendeskTokenSet → ℕ → ℕ → Bool
needs_refresh tokens now margin = expires_within now margin tokens.expires_at

-- What `accessToken` does with the record it read.
pub data Decision : Type 0 where
  answer : Result GrantError String → Decision
  refresh_with : String → Decision

abbrev pub refresh_from : Option String → Decision
refresh_from none = answer (err grant_unavailable)
refresh_from (some token) =
    if token == "" then answer (err grant_unavailable) else refresh_with token

unfoldable pub decide_access : Option ZendeskTokenSet → ℕ → ℕ → Decision
decide_access none now margin = answer (err grant_unavailable)
decide_access (some tokens) now margin =
    if not (needs_refresh tokens now margin)
    then answer (ok tokens.access_token)
    else refresh_from tokens.refresh_token

-- Where a job stands: in the queue, waiting for the record, for Zendesk, for the write of the fresh
-- tokens or of the removal, or done.
pub data Work : Type 0 where
  access_queued removal_queued : Work
  reading : Work
  refreshing : String → Work
  storing : ZendeskTokenSet → Work
  dropping removing : Work
  answered : Result GrantError String → Work
  removed : Work

pub record Grants : Type 0 where
  pub lock : KeyLock
  pub work : ℕ → Work
  pub records : JsMap String ZendeskTokenSet
  pub margin : ℕ

unfoldable pub create_zendesk_grants : ℕ → JsMap String ZendeskTokenSet → Grants
create_zendesk_grants margin records = record {
  lock = create_key_lock;
  work = λ i. removed;
  records = records;
  margin = margin;
}

unfoldable pub save : Grants → String → ZendeskTokenSet → Grants
save g grant_id tokens = record g { records = JsMap.put g.records grant_id tokens }

abbrev pub enqueue : Grants → String → Work → Grants
enqueue g grant_id work = record g {
  lock = with_lock g.lock grant_id;
  work = update g.work g.lock.count work;
}

unfoldable pub access_token : Grants → String → Grants
access_token g grant_id = enqueue g grant_id access_queued

unfoldable pub remove : Grants → String → Grants
remove g grant_id = enqueue g grant_id removal_queued

abbrev pub begun : Work → Work
begun access_queued = reading
begun removal_queued = removing
begun work = work

-- the turn of a job comes
unfoldable pub begin : Grants → ℕ → Grants
begin g i = record g { lock = begin_job g.lock i; work = update g.work i (begun (g.work i)) }

abbrev pub finish : Grants → ℕ → Work → Grants
finish g i work = record g { lock = settle_job g.lock i; work = update g.work i work }

abbrev pub decided : Grants → ℕ → Decision → Grants
decided g i (answer result) = finish g i (answered result)
decided g i (refresh_with token) = record g { work = update g.work i (refreshing token) }

-- the record arrives
unfoldable pub read_record : Grants → ℕ → ℕ → Grants
read_record g i now =
    decided g i (decide_access (JsMap.get g.records (g.lock.jobs i).key) now g.margin)

-- Zendesk answers the refresh
unfoldable pub refreshed : Grants → ℕ → Result UpstreamError ZendeskTokenSet → Grants
refreshed g i (ok fresh) = record g { work = update g.work i (storing fresh) }
refreshed g i (err e) =
    if not (is_refusal e)
    then finish g i (answered (err (rethrown e)))
    else record g { work = update g.work i dropping }

-- the write of the fresh tokens, of the refused grant's removal, and of `remove`
abbrev pub written : Grants → ℕ → String → Work → Grants
written g i grant_id (storing fresh) =
    finish (record g { records = JsMap.put g.records grant_id fresh }) i
      (answered (ok fresh.access_token))
written g i grant_id dropping =
    finish (record g { records = JsMap.delete g.records grant_id }) i
      (answered (err grant_unavailable))
written g i grant_id removing =
    finish (record g { records = JsMap.delete g.records grant_id }) i removed
written g i grant_id work = g

unfoldable pub write_done : Grants → ℕ → Grants
write_done g i = written g i (g.lock.jobs i).key (g.work i)

-- a record's time is over
unfoldable pub lapse : Grants → String → Grants
lapse g grant_id = record g { records = JsMap.delete g.records grant_id }

-- One piece of a call, in the order that the lock and the waits allow.
pub data Step : Grants → Grants → Type 0 where
  saved :
      (g : Grants) (grant_id : String) (tokens : ZendeskTokenSet) → Step g (save g grant_id tokens)
  lapsed : (g : Grants) (grant_id : String) → Step g (lapse g grant_id)
  asked : (g : Grants) (grant_id : String) → Step g (access_token g grant_id)
  removal_asked : (g : Grants) (grant_id : String) → Step g (remove g grant_id)
  began :
      (g : Grants) (i : ℕ)
      → i < g.lock.count
      → (g.lock.jobs i).status ≡ waiting
      → is_due g.lock (g.lock.jobs i).after ≡ true
      → Step g (begin g i)
  read :
      (g : Grants) (i now : ℕ)
      → i < g.lock.count
      → g.work i ≡ reading
      → Step g (read_record g i now)
  replied :
      (g : Grants) (i : ℕ) (token : String) (reply : Result UpstreamError ZendeskTokenSet)
      → i < g.lock.count
      → g.work i ≡ refreshing token
      → Step g (refreshed g i reply)
  wrote :
      (g : Grants) (i : ℕ)
      → i < g.lock.count
      → (g.lock.jobs i).status ≡ running
      → Step g (write_done g i)
  cleaned :
      (g : Grants) (i : ℕ)
      → i < g.lock.count
      → (g.lock.jobs i).status ≡ settled
      → Step g (record g { lock = clean_up g.lock i })
