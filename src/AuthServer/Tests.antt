-- ===== src/AuthServer/Tests.antt =====
-- Runs of the authorization server (auth/server/): calls that queue for one key, a file store that is
-- opened again, a grant that is refreshed and removed, a sign-in, a revoked token, and a
-- record sealed under one secret and read under others.
use zendesk_mcp_server.Base.{
  ◌⊎◌, inl, inr, sym, ap, In, not, ◌&&◌, count_by, ℕ, zero, suc, Bool, if◌then◌else◌, ◌==◌, ◌+◌,
  ◌≤◌, String, ◌≡◌, refl, true, false, Option, none, some, List, [], ◌∷◌, arith, length, number_key,
  text_key, ok, Run, at_start, then_step,
}
use zendesk_mcp_server.Base.Int.{pos, ◌+ℤ◌}
use zendesk_mcp_server.Base.JsMap
use zendesk_mcp_server.Base.JsMap.{JsMap}
use zendesk_mcp_server.Text.{split_on}
use zendesk_mcp_server.AuthServer.KeyLock
use zendesk_mcp_server.AuthServer.KeyLock.{KeyLock, settled, create_key_lock, with_lock, begin_job}
use zendesk_mcp_server.AuthServer.KeyLock.Turns.{HasTurn, one_at_a_time, never_stuck}
use zendesk_mcp_server.AuthServer.FileStore
use zendesk_mcp_server.AuthServer.FileStore.{
  FileStore, absent, is_directory, missing, create_file_store, set_entry, load,
}
use zendesk_mcp_server.AuthServer.FileStore.Restarts.{
  Call, set_call, delete_call, restart, run_file, run_memory, restarts_unseen,
}
use zendesk_mcp_server.AuthServer.Grants
use zendesk_mcp_server.AuthServer.Grants.{
  ZendeskTokenSet, Grants, create_zendesk_grants, access_token, remove, begin, write_done,
}
use zendesk_mcp_server.AuthServer.Grants.Serial.{is_active, one_call_per_grant}
use zendesk_mcp_server.AuthServer.ExpiringMap
use zendesk_mcp_server.AuthServer.Trusted.{Url}
use zendesk_mcp_server.AuthServer.SignIn
use zendesk_mcp_server.AuthServer.ConsentKey.{ConsentContext}
use zendesk_mcp_server.AuthServer.SignIn.{
  SignIn, Details, Login, Exchange, Received, Grant, context_of, key_of, login_prompt,
  consent_prompt, signed_in, create_sign_in, show_interaction, complete_upstream_login,
  upstream_answered, confirm,
}
use zendesk_mcp_server.AuthServer.ExpiringMap.{tally}
use zendesk_mcp_server.AuthServer.SignIn.Counted.{login_of}
use mathlib.Core.List.{Perm}
use Prim.Native.String.{◌++◌ as ◌<>◌}
use zendesk_mcp_server.AuthServer.SignIn.Once.{one_grant_per_login}
use zendesk_mcp_server.AuthServer.SignIn.Consent.{GoesOffMachine, granted_with_consent}
use zendesk_mcp_server.AuthServer.Revocation.{
  ClaimValue, text_claim, number_claim, AccessTokenClaims, VerifiedAccessToken, as_verified,
  find_key, read_access_token, verify_access_token, deny_grant, deny_grants,
}
use zendesk_mcp_server.AuthServer.Revocation.Denial.{revoked_token_refused}
use zendesk_mcp_server.AuthServer.Grants.Removal.{removed_stays_gone}
use Prim.Native.Char.{code, Char}
use zendesk_mcp_server.AuthServer.Sealed
use zendesk_mcp_server.AuthServer.Sealed.{KeyRing}

-- two calls for one key, the first of them running
abbrev two_queued : KeyLock
two_queued = with_lock (with_lock create_key_lock "g") "g"

abbrev first_runs : KeyLock
first_runs = begin_job two_queued 0

two_queued-Run : Run KeyLock.Step create_key_lock two_queued
two_queued-Run = then_step (then_step at_start (KeyLock.called _ "g")) (KeyLock.called _ "g")

first_runs-Run : Run KeyLock.Step create_key_lock first_runs
unfolding create_key_lock with_lock JsMap.get JsMap.put
first_runs-Run = then_step two_queued-Run (KeyLock.began two_queued 0 (omega arith) refl refl)

both_end-Run : Run KeyLock.Step create_key_lock (begin_job (KeyLock.settle_job first_runs 0) 1)
unfolding create_key_lock with_lock begin_job KeyLock.settle_job JsMap.get JsMap.put
both_end-Run =
    then_step (then_step first_runs-Run (KeyLock.ended first_runs 0 (omega arith) refl))
      (KeyLock.began _ 1 (omega arith) refl refl)

one_at_a_time_example : ((begin_job (KeyLock.settle_job first_runs 0) 1).jobs 0).status ≡ settled
unfolding create_key_lock with_lock begin_job KeyLock.settle_job JsMap.get JsMap.put
one_at_a_time_example = one_at_a_time 0 1 both_end-Run (omega arith) (omega arith) refl refl

never_stuck_example : HasTurn first_runs 1
unfolding create_key_lock with_lock begin_job JsMap.get JsMap.put
never_stuck_example = never_stuck 1 first_runs-Run (omega arith) refl

abbrev new_store : FileStore
new_store = record { entries = []; file = absent }

created : create_file_store (missing ∷ is_directory ∷ []) true absent 5 ≡ ok new_store
unfolding create_file_store FileStore.assert_writable load
created = refl

abbrev calls : List (ℕ × Call)
calls =
    (10, set_call "a" "1" (some (pos 90)))
    ∷ (20, set_call "b" "2" none)
    ∷ (30, restart)
    ∷ (40, delete_call "b")
    ∷ (50, restart)
    ∷ []

restarts_unseen_example :
    FileStore.get (run_file new_store calls).entries "a" 99
    ≡ FileStore.get (run_memory [] calls) "a" 99
restarts_unseen_example =
    restarts_unseen (missing ∷ is_directory ∷ []) true absent 5 99 new_store calls "a" tt created
      (ground arith)

kept_till_99 : FileStore.get (run_file new_store calls).entries "a" 99 ≡ some "1"
unfolding run_file FileStore.get FileStore.set FileStore.delete FileStore.persist set_entry load
    FileStore.live_entries FileStore.load_entries JsMap.get JsMap.put JsMap.delete ◌+ℤ◌
kept_till_99 = refl

abbrev old_tokens : ZendeskTokenSet
old_tokens = record {
  access_token = "a";
  refresh_token = some "r";
  expires_at = some 1000;
  scope = some "read";
}

-- an access call begins; a removal waits behind it
abbrev grants_start : Grants
grants_start = create_zendesk_grants 300000 (("g", old_tokens) ∷ [])

abbrev asked_for : Grants
asked_for = begin (remove (access_token grants_start "g") "g") 0

asked_for-Run : Run Grants.Step grants_start asked_for
unfolding create_zendesk_grants access_token remove create_key_lock with_lock JsMap.get JsMap.put
asked_for-Run =
    then_step (then_step (then_step at_start (Grants.asked _ "g")) (Grants.removal_asked _ "g"))
      (Grants.began _ 0 (omega arith) refl refl)

one_call_per_grant_example : is_active (asked_for.work 1) ≡ false
unfolding create_zendesk_grants access_token remove begin begin_job create_key_lock with_lock
    JsMap.get JsMap.put
one_call_per_grant_example =
    one_call_per_grant 300000 (("g", old_tokens) ∷ []) 0 1 asked_for-Run (omega arith) (omega arith)
      (λ h. omega arith) refl refl

abbrev removal_begun : Grants
removal_begun = begin (remove grants_start "g") 0

removal_begun-Run : Run Grants.Step grants_start removal_begun
unfolding create_zendesk_grants remove create_key_lock with_lock JsMap.get JsMap.put
removal_begun-Run =
    then_step (then_step at_start (Grants.removal_asked _ "g"))
      (Grants.began _ 0 (omega arith) refl refl)

-- after the removal, a call for the same grant
removed_stays_gone_example :
    JsMap.get (access_token (write_done removal_begun 0) "g").records "g" ≡ none
unfolding create_zendesk_grants remove begin begin_job create_key_lock with_lock JsMap.get JsMap.put
removed_stays_gone_example =
    removed_stays_gone 300000 (("g", old_tokens) ∷ []) 0 removal_begun-Run (omega arith) refl
      (then_step at_start (Grants.asked _ "g", refl))

-- a sign-in: to Zendesk, back with a code, signed in, and consent given on the screen
abbrev no_url : String → Option Url
no_url uri = none

abbrev text_before : String → String → Bool
text_before a b = (a == "a") && not (b == "a")

-- the texts of a context one after the other
abbrev joined_uris : List String → String
joined_uris [] = ""
joined_uris (uri ∷ uris) = uri <> ("," <> joined_uris uris)

abbrev joined_context : ConsentContext → String
joined_context c = c.account_id <> (" " <> (c.client_id <> (" " <> joined_uris c.redirect_uris)))

abbrev login : Details
login = record {
  prompt = login_prompt;
  account_id = "";
  client_id = "c";
  redirect_uri = "https://c.example/cb";
  redirect_uris = "https://c.example/cb" ∷ [];
  resources = [];
}

abbrev consent : Details
consent = record login { prompt = consent_prompt; account_id = "zendesk:7" }

abbrev sent : SignIn
sent = (show_interaction no_url text_before joined_context [] (create_sign_in []) "u" "v" login 0).0

abbrev back : SignIn
back = (complete_upstream_login sent "u" (some "code") login 1).0

abbrev back_exchange : Exchange
back_exchange = record { login = record { uid = "u"; code_verifier = "v" }; details = login }

abbrev known : SignIn
known =
    (upstream_answered "" back [] (back_exchange ∷ [])
      (signed_in old_tokens (record { id = "7"; role = none })) 2).0

abbrev granted : SignIn
granted = (confirm no_url text_before joined_context known consent 3).0

granted-Run : Run (SignIn.Step no_url text_before joined_context [] "") (create_sign_in []) granted
unfolding create_sign_in show_interaction SignIn.start_upstream_login complete_upstream_login
    ExpiringMap.set ExpiringMap.take ExpiringMap.get ExpiringMap.swept JsMap.get JsMap.put
granted-Run =
    then_step
      (then_step
        (then_step (then_step at_start (SignIn.shown _ "u" "v" login 0))
          (SignIn.returned sent "u" (some "code") login 1))
        (SignIn.exchanged back [] back_exchange []
          (signed_in old_tokens (record { id = "7"; role = none })) 2 refl))
      (SignIn.agreed known consent 3)

one_granted : length granted.grants ≡ 1
unfolding create_sign_in show_interaction SignIn.start_upstream_login complete_upstream_login
    upstream_answered confirm ExpiringMap.set ExpiringMap.take ExpiringMap.get ExpiringMap.swept
    JsMap.get JsMap.put JsMap.delete
one_granted = refl

-- the login "u" with the verifier "v", and the token set of access token "a"
abbrev is_sent_login : Login → Bool
is_sent_login l = (l.uid == "u") && (l.code_verifier == "v")

abbrev is_old : ZendeskTokenSet → Bool
is_old t = t.access_token == "a"

one_grant_per_login_example :
    (tally (λ uid v. is_sent_login (login_of uid v)) granted.verifiers
        + count_by is_sent_login granted.exchanges
      ≤ count_by is_sent_login granted.started)
    × (count_by (λ (e : Exchange). is_sent_login e.login) granted.exchanging
          + count_by (λ (r : Received). is_sent_login r.login) granted.received
        ≤ count_by is_sent_login granted.exchanges)
    × (tally (λ key t. is_old t) granted.upstream_tokens
          + count_by (λ (g : Grant). is_old g.tokens) granted.grants
        ≤ count_by (λ (r : Received). is_old r.tokens) granted.received)
one_grant_per_login_example =
    one_grant_per_login no_url text_before joined_context [] "" [] is_sent_login is_old granted-Run

abbrev consented : Grant
consented = record { details = consent; tokens = old_tokens }

consented_granted : In consented granted.grants
unfolding create_sign_in show_interaction SignIn.start_upstream_login complete_upstream_login
    upstream_answered confirm ExpiringMap.set ExpiringMap.take ExpiringMap.get ExpiringMap.swept
    JsMap.get JsMap.put JsMap.delete
consented_granted = inl refl

no_collision :
    (given : Details)
    → In given granted.confirmed
    → joined_context (context_of text_before given)
      ≡ joined_context (context_of text_before consent)
    → context_of text_before given ≡ context_of text_before consent
unfolding create_sign_in show_interaction SignIn.start_upstream_login complete_upstream_login
    upstream_answered confirm ExpiringMap.set ExpiringMap.take ExpiringMap.get ExpiringMap.swept
    JsMap.get JsMap.put JsMap.delete
no_collision given (inl same) h = ap (context_of text_before) (sym same)
no_collision given (inr other) h = absurd other

granted_with_consent_example :
    GoesOffMachine no_url [] consent
    ⊎ (((given : Details) × In given granted.confirmed
          × (given.account_id ≡ consent.account_id)
          × (given.client_id ≡ consent.client_id)
          × Perm given.redirect_uris consent.redirect_uris)
        ⊎ ((expires : ℕ) × (JsMap.get [] (key_of no_url text_before joined_context consent)
              ≡ some expires)))
granted_with_consent_example =
    granted_with_consent no_url text_before joined_context [] [] "" consented granted-Run
      consented_granted no_collision

-- a token of grant "g", and a revocation of it a minute after it was issued
abbrev claims : AccessTokenClaims
claims = record {
  iss = text_claim "https://s.example";
  aud = text_claim "https://s.example/mcp";
  exp = number_claim 3600;
  sub = text_claim "zendesk:7";
  client_id = text_claim "c";
  scope = text_claim "read";
  zd = text_claim "a";
  gid = text_claim "g";
}

abbrev as_text : ClaimValue → String
as_text (text_claim t) = t
as_text _ = ""

abbrev token : VerifiedAccessToken
token = record {
  zendesk_access_token = "a";
  grant_id = "g";
  client_id = "c";
  subject = "zendesk:7";
  can_write = false;
  expires_at = 3600;
  resource = some "https://s.example/mcp";
}

abbrev ring : List (String × String)
ring = ("k", "s") ∷ []

abbrev reads_as : Option VerifiedAccessToken
reads_as =
    read_access_token as_text (λ bearer. some "k") (λ bearer key. some claims) ring
      "https://s.example" "bearer"

reads : reads_as ≡ some token
unfolding read_access_token find_key as_verified split_on
reads = refl

revoked_token_refused_example :
    verify_access_token as_text
      (λ bearer. some "k")
      (λ bearer key. some claims)
      ring
      "https://s.example"
      (deny_grants (deny_grant [] "g" 60000) ((70000, "h") ∷ []))
      "bearer"
      80000
    ≡ none
revoked_token_refused_example =
    revoked_token_refused as_text (λ bearer. some "k") (λ bearer key. some claims) ring
      "https://s.example" "bearer" [] ((70000, "h") ∷ []) 60000 80000 token reads (omega arith)
      (omega arith) (ground arith)

-- a header in the clear: the expiry in unary, a colon, the key id; before it the value
abbrev mark : Bool → Char
mark true = "t"
mark false = "f"

abbrev after_digits : ℕ → String → String
after_digits zero kid = String.◌∷◌ ":" kid
after_digits (suc n) kid = String.◌∷◌ "1" (after_digits n kid)

abbrev written_header : Option ℕ → String → String
written_header none kid = String.◌∷◌ ":" kid
written_header (some n) kid = String.◌∷◌ "1" (after_digits n kid)

abbrev plain : String → String → Option ℕ → Bool → String
plain key kid expires_at v = String.◌∷◌ (mark v) (written_header expires_at kid)

abbrev one_more : Option (String × Option ℕ) → Option (String × Option ℕ)
one_more none = none
one_more (some (kid, none)) = some (kid, some 0)
one_more (some (kid, some n)) = some (kid, some (suc n))

abbrev header_of : String → Option (String × Option ℕ)
header_of String.[] = none
header_of (String.◌∷◌ c s) =
    let rest = header_of s in if code c == b':' then some (s, none) else one_more rest

abbrev plain_header : String → Option (String × Option ℕ)
plain_header String.[] = none
plain_header (String.◌∷◌ c s) = header_of s

abbrev plain_value : String → String → Option Bool
plain_value key String.[] = none
plain_value key (String.◌∷◌ c s) = some (code c == b't')

abbrev old_ring : KeyRing String
old_ring = record { newest = record { kid = "a"; key = "A" }; older = [] }

abbrev both_ring : KeyRing String
both_ring = record {
  newest = record { kid = "b"; key = "B" };
  older = record { kid = "a"; key = "A" } ∷ [];
}

abbrev new_ring : KeyRing String
new_ring = record { newest = record { kid = "b"; key = "B" }; older = [] }

abbrev hashed : String → String
hashed id = id

abbrev moved : JsMap String FileStore.StoredEntry × Option Bool
moved =
    Sealed.get hashed plain plain_header plain_value "Client"
      (Sealed.set hashed plain plain_header plain_value "Client" [] old_ring "c" true none 1)
      both_ring "c" 2
