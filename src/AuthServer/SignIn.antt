-- ===== src/AuthServer/SignIn.antt =====
-- auth/server/interactions.ts: the login and consent steps of a sign-in. Each step is cut at its
-- waits. oidc-provider (the interaction and its client), the PKCE verifier, Zendesk's answers, the
-- clock, the order `<` of texts and the hash that `consentMemoryKey` takes of the text of its context
-- come from outside. `started`, `exchanges`, `received`,
-- `confirmed` and `grants` log the logins sent to Zendesk, the exchanges of a code that began, the
-- tokens that these got, the consents given, and the grants created.
pub mod Counted
pub mod Once
pub mod Consent
use zendesk_mcp_server.Base.{
  ℕ, ◌+◌, ◌*◌, String, ◌≡◌, Bool, true, false, not, ◌&&◌, ◌||◌, Option, none, some, List, [], ◌∷◌,
  ◌++◌, ltb, if◌then◌else◌, ◌==◌, number_key, text_key, includes,
}
use Prim.Native.String.{◌++◌ as ◌<>◌}
use zendesk_mcp_server.Base.JsMap
use zendesk_mcp_server.Base.JsMap.{JsMap}
use zendesk_mcp_server.AuthServer.ExpiringMap
use zendesk_mcp_server.AuthServer.ExpiringMap.{Pending}
use zendesk_mcp_server.AuthServer.ConsentKey.{ConsentContext, consent_context, consent_memory_key}
use zendesk_mcp_server.AuthServer.Trusted.{Url, ConsentSkipRequest, can_skip_consent}
use zendesk_mcp_server.AuthServer.Grants.{ZendeskTokenSet}

pub data Prompt : Type 0 where
  login_prompt consent_prompt other_prompt : Prompt

-- What a step reads of the interaction and of its client.
pub record Details : Type 0 where
  pub prompt : Prompt
  pub account_id : String
  pub client_id : String
  pub redirect_uri : String
  pub redirect_uris : List String  -- of the client, empty where there is none
  pub resources : List String

pub record ZendeskIdentity : Type 0 where
  pub id : String  -- as `String` writes it
  pub role : Option String

-- A login: the interaction and the PKCE verifier that it was sent to Zendesk with.
pub record Login : Type 0 where
  pub uid : String
  pub code_verifier : String

-- An exchange of a code in flight, and the tokens that one got.
pub record Exchange : Type 0 where
  pub login : Login
  pub details : Details

pub record Received : Type 0 where
  pub login : Login
  pub tokens : ZendeskTokenSet

pub record Grant : Type 0 where
  pub details : Details
  pub tokens : ZendeskTokenSet

-- How a step ends.
pub data Reply : Type 0 where
  to_zendesk : String → Reply
  awaits_zendesk : Reply
  denied : String → Reply
  logged_in : String → Reply
  approved : Grant → Reply
  consent_page : Reply
  error_page : ℕ → Reply
  thrown : Reply

pub data LoginAnswer : Type 0 where
  signed_in : ZendeskTokenSet → ZendeskIdentity → LoginAnswer
  upstream_failed : String → LoginAnswer
  failed : LoginAnswer

pub record SignIn : Type 0 where
  pub verifiers : JsMap String (Pending String)
  pub exchanging : List Exchange
  pub upstream_tokens : JsMap String (Pending ZendeskTokenSet)
  pub consent_memory : JsMap String ℕ  -- when a remembered consent lapses, in milliseconds
  pub started : List Login
  pub exchanges : List Login
  pub received : List Received
  pub confirmed : List Details
  pub grants : List Grant

abbrev pub pending_ttl_ms : ℕ
pending_ttl_ms = 10 * 60 * 1000

abbrev pub consent_memory_ttl_s : ℕ
consent_memory_ttl_s = 90 * 86400

abbrev pub zendesk_admin_role : String
zendesk_admin_role = "admin"

abbrev pub expired_message : String
expired_message = "The Zendesk sign-in expired. Try again."

abbrev pub cancelled_message : String
cancelled_message = "The Zendesk sign-in was cancelled or refused."

abbrev pub admin_only_message : String
admin_only_message =
    "This connector is reserved for Zendesk administrators, and your Zendesk role is not admin."

unfoldable pub create_sign_in : JsMap String ℕ → SignIn
create_sign_in memory = record {
  verifiers = [];
  exchanging = [];
  upstream_tokens = [];
  consent_memory = memory;
  started = [];
  exchanges = [];
  received = [];
  confirmed = [];
  grants = [];
}

unfoldable pub start_upstream_login : SignIn → String → String → ℕ → SignIn × Reply
start_upstream_login s uid verifier now = (
  record s {
    verifiers = ExpiringMap.set s.verifiers uid verifier pending_ttl_ms now;
    started = record { uid = uid; code_verifier = verifier } ∷ s.started;
  },
  to_zendesk verifier,
)

abbrev pub pending_key : String → String → String
pending_key account_id client_id = account_id <> ("|" <> client_id)

-- `approve` after the pending tokens were taken
abbrev pub approve_with : SignIn → Details → Option ZendeskTokenSet → SignIn × Reply
approve_with s details none = (s, denied expired_message)
approve_with s details (some tokens) =
    let grant : Grant = record { details = details; tokens = tokens } in
    (record s { grants = grant ∷ s.grants }, approved grant)

abbrev pub take_tokens : SignIn → Details → ℕ → SignIn × Option ZendeskTokenSet
take_tokens s details now =
    let taken =
      ExpiringMap.take s.upstream_tokens (pending_key details.account_id details.client_id) now in
    (record s { upstream_tokens = taken.0 }, taken.1)

unfoldable pub take_and_approve : SignIn → Details → ℕ → SignIn × Reply
take_and_approve s details now =
    let taken = take_tokens s details now in approve_with taken.0 details taken.1

abbrev pub is_absent_or_empty : Option String → Bool
is_absent_or_empty none = true
is_absent_or_empty (some t) = t == ""

abbrev pub exchange_code :
    SignIn → String → Option String → Option String → Details → SignIn × Reply
exchange_code s uid none code details = (s, denied cancelled_message)
exchange_code s uid (some verifier) code details =
    if (verifier == "") || is_absent_or_empty code
    then (s, denied cancelled_message)
    else let login : Login = record { uid = uid; code_verifier = verifier } in
      (
        record s {
          exchanging = record { login = login; details = details } ∷ s.exchanging;
          exchanges = login ∷ s.exchanges;
        },
        awaits_zendesk,
      )

-- `completeUpstreamLogin` up to the exchange of the code
unfoldable pub complete_upstream_login :
    SignIn → String → Option String → Details → ℕ → SignIn × Reply
complete_upstream_login s uid code details now =
    let taken = ExpiringMap.take s.verifiers uid now in
    exchange_code (record s { verifiers = taken.0 }) uid taken.1 code details

abbrev pub has_role : Option String → String → Bool
has_role none role = false
has_role (some r) role = r == role

-- the rest of it, for the exchange at a place of those in flight
abbrev pub got_tokens : SignIn → Login → ZendeskTokenSet → SignIn
got_tokens s login tokens = record s {
  received = record { login = login; tokens = tokens } ∷ s.received;
}

abbrev pub answered : String → SignIn → Exchange → LoginAnswer → ℕ → SignIn × Reply
answered admin_resource s e (upstream_failed message) now = (s, denied message)
answered admin_resource s e failed now = (s, thrown)
answered admin_resource s e (signed_in tokens identity) now =
    if includes e.details.resources admin_resource
      && not (has_role identity.role zendesk_admin_role)
    then (got_tokens s e.login tokens, denied admin_only_message)
    else let account_id = "zendesk:" <> identity.id in
      (
        record (got_tokens s e.login tokens) {
          upstream_tokens =
              ExpiringMap.set s.upstream_tokens (pending_key account_id e.details.client_id) tokens
                pending_ttl_ms now;
        },
        logged_in account_id,
      )

unfoldable pub upstream_answered :
    String → SignIn → List Exchange → List Exchange → LoginAnswer → ℕ → SignIn × Reply
upstream_answered admin_resource s before [] answer now = (s, thrown)
upstream_answered admin_resource s before (e ∷ after) answer now =
    answered admin_resource (record s { exchanging = before ++ after }) e answer now

abbrev pub context_of : (String → String → Bool) → Details → ConsentContext
context_of less details =
    consent_context less details.account_id details.client_id details.redirect_uris

module _ (parse : String → Option Url) (less : String → String → Bool)
    (digest : ConsentContext → String) where
  abbrev pub key_of : Details → String
  key_of details =
      consent_memory_key less digest details.account_id details.client_id details.redirect_uris

  abbrev pub is_before : ℕ → Option ℕ → Bool
  is_before now none = false
  is_before now (some expires) = ltb now expires

  unfoldable pub is_remembered : SignIn → Details → ℕ → Bool
  is_remembered s details now = is_before now (JsMap.get s.consent_memory (key_of details))

  abbrev pub skip_request : Details → ConsentSkipRequest
  skip_request details = record {
    client_id = details.client_id;
    redirect_uri = details.redirect_uri;
    registered_redirect_uris = details.redirect_uris;
  }

  unfoldable pub show_consent : List String → SignIn → Details → ℕ → SignIn × Reply
  show_consent trusted s details now =
      if can_skip_consent parse (skip_request details) trusted || is_remembered s details now
      then take_and_approve s details now
      else (s, consent_page)

  abbrev pub show_prompt :
      Prompt → List String → SignIn → String → String → Details → ℕ → SignIn × Reply
  show_prompt login_prompt trusted s uid verifier details now =
      start_upstream_login s uid verifier now
  show_prompt consent_prompt trusted s uid verifier details now = show_consent trusted s details now
  show_prompt other_prompt trusted s uid verifier details now = show_consent trusted s details now

  unfoldable pub show_interaction :
      List String → SignIn → String → String → Details → ℕ → SignIn × Reply
  show_interaction trusted s uid verifier details now =
      show_prompt details.prompt trusted s uid verifier details now

  abbrev pub remember : SignIn → Details → ℕ → SignIn
  remember s details now = record s {
    consent_memory =
        JsMap.put s.consent_memory (key_of details) (now + consent_memory_ttl_s * 1000);
    confirmed = details ∷ s.confirmed;
  }

  abbrev pub confirm_with : SignIn → Details → ℕ → Option ZendeskTokenSet → SignIn × Reply
  confirm_with s details now none = (s, denied expired_message)
  confirm_with s details now (some tokens) =
      approve_with (remember s details now) details (some tokens)

  abbrev pub confirm_prompt : Prompt → SignIn → Details → ℕ → SignIn × Reply
  confirm_prompt login_prompt s details now = (s, error_page 400)
  confirm_prompt other_prompt s details now = (s, error_page 400)
  confirm_prompt consent_prompt s details now =
      let taken = take_tokens s details now in confirm_with taken.0 details now taken.1

  unfoldable pub confirm : SignIn → Details → ℕ → SignIn × Reply
  confirm s details now = confirm_prompt details.prompt s details now

  -- One piece of a step, for some trusted clients and back-office address.
  pub data Step (trusted : List String) (admin_resource : String) : SignIn → SignIn → Type 0 where
    shown :
        (s : SignIn) (uid verifier : String) (details : Details) (now : ℕ)
        → Step trusted admin_resource s (show_interaction trusted s uid verifier details now).0
    returned :
        (s : SignIn) (uid : String) (code : Option String) (details : Details) (now : ℕ)
        → Step trusted admin_resource s (complete_upstream_login s uid code details now).0
    exchanged :
        (s : SignIn) (before : List Exchange) (e : Exchange) (after : List Exchange)
        (answer : LoginAnswer) (now : ℕ)
        → s.exchanging ≡ before ++ (e ∷ after)
        → Step trusted admin_resource s
            (upstream_answered admin_resource s before (e ∷ after) answer now).0
    agreed :
        (s : SignIn) (details : Details) (now : ℕ)
        → Step trusted admin_resource s (confirm s details now).0
    forgotten :
        (s : SignIn) (key : String)
        → Step trusted admin_resource s
            (record s { consent_memory = JsMap.delete s.consent_memory key })
