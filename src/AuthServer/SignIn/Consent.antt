-- ===== src/AuthServer/SignIn/Consent.antt =====
-- Who consented to a grant of auth/server/interactions.ts.
use zendesk_mcp_server.Base.{
  Bool, ℕ, ◌+◌, ◌*◌, String, ◌≡◌, refl, ap, ◌⊎◌, inl, inr, true, false, not, ◌&&◌, ◌||◌, Option,
  none, some, List, [], ◌∷◌, arith, eq_iff, if◌then◌else◌, Bool-cases, Option-cases, ◌==◌,
  number_key, text_key, includes, All, In, Run, Run-keeps,
}
use mathlib.Core.List.{Perm}
use mathlib.Core.List.Perm
use zendesk_mcp_server.Base.JsMap
use zendesk_mcp_server.Base.JsMap.{JsMap, get-put, get-delete}
use zendesk_mcp_server.AuthServer.ExpiringMap
use zendesk_mcp_server.AuthServer.Trusted.{
  Url, can_skip_consent, url_eligible, is_skip_eligible_redirect, is_loopback_host,
}
use zendesk_mcp_server.AuthServer.Grants.{ZendeskTokenSet}
use zendesk_mcp_server.AuthServer.ConsentKey.{ConsentContext, consent_memory_key, sort_uris-Perm}
use zendesk_mcp_server.AuthServer.SignIn.{
  Prompt, login_prompt, consent_prompt, other_prompt, Details, Grant, LoginAnswer, signed_in,
  upstream_failed, failed, SignIn, exchange_code, Exchange, context_of, consent_memory_ttl_s,
  create_sign_in, start_upstream_login, approve_with, take_tokens, take_and_approve,
  is_absent_or_empty, complete_upstream_login, has_role, answered, upstream_answered, key_of,
  is_before, is_remembered, skip_request, show_consent, show_prompt, show_interaction, remember,
  confirm_with, confirm_prompt, confirm, Step, shown, returned, exchanged, agreed, forgotten,
}

-- A trusted client at an HTTPS address of its own that is not on the user's machine.
abbrev pub GoesOffMachine : (String → Option Url) → List String → Details → Type 0
GoesOffMachine parse trusted details =
    In details.client_id trusted
    × In details.redirect_uri details.redirect_uris
    × (url : Url) × (parse details.redirect_uri ≡ some url)
    × (url.protocol ≡ "https:")
    × (is_loopback_host url.hostname ≡ false)

includes-In : (xs : List String) (x : String) → includes xs x ≡ true → In x xs
includes-In [] x h = cc
includes-In (y ∷ ys) x h = ground (arith, includes-In ys x, eq_iff y x)

abbrev no_tokens : ZendeskTokenSet
no_tokens = record { access_token = ""; refresh_token = none; expires_at = none; scope = none }

module _ (parse : String → Option Url) (less : String → String → Bool)
    (digest : ConsentContext → String) (kept : JsMap String ℕ) (trusted : List String) where
  skip-GoesOffMachine :
      (details : Details)
      → can_skip_consent parse (skip_request parse less digest details) trusted ≡ true
      → GoesOffMachine parse trusted details
  unfolding can_skip_consent is_skip_eligible_redirect
  skip-GoesOffMachine details h =
      let listed : includes trusted details.client_id ≡ true = ground arith in
      let own : includes details.redirect_uris details.redirect_uri ≡ true = ground arith in
      let eligible : url_eligible parse (parse details.redirect_uri) ≡ true = ground arith in
      let (url, parsed, https, off) = eligible_url (parse details.redirect_uri) eligible in
      (
        includes-In trusted details.client_id listed,
        includes-In details.redirect_uris details.redirect_uri own,
        url,
        parsed,
        https,
        off,
      )
    where
      eligible_url :
          (o : Option Url)
          → url_eligible parse o ≡ true
          → (url : Url) × (o ≡ some url)
            × (url.protocol ≡ "https:")
            × (is_loopback_host url.hostname ≡ false)
      eligible_url none h = absurd (cc)
      eligible_url (some url) h =
          (url, refl, ground (arith, eq_iff url.protocol "https:"), ground arith)

  -- the user allowed it since the start, or before it and the consent was kept
  abbrev IsAllowed : List Details → String → Type 0
  IsAllowed confirmed key =
      ((given : Details) × In given confirmed × (key_of parse less digest given ≡ key))
      ⊎ ((expires : ℕ) × (JsMap.get kept key ≡ some expires))

  abbrev IsConsented : List Details → Grant → Type 0
  IsConsented confirmed grant =
      GoesOffMachine parse trusted grant.details
      ⊎ IsAllowed confirmed (key_of parse less digest grant.details)

  record AreConsented (s : SignIn) : Type 0 where
    memory :
        (key : String) (expires : ℕ)
        → JsMap.get s.consent_memory key ≡ some expires
        → IsAllowed s.confirmed key
    grants : All (IsConsented s.confirmed) s.grants

  add_consent-IsAllowed :
      (confirmed : List Details) (given : Details) (key : String)
      → IsAllowed confirmed key
      → IsAllowed (given ∷ confirmed) key
  add_consent-IsAllowed confirmed given key (inl (d, there, same)) = inl (d, inr there, same)
  add_consent-IsAllowed confirmed given key (inr before) = inr before

  add_consent :
      (confirmed : List Details) (given : Details) (grants : List Grant)
      → All (IsConsented confirmed) grants
      → All (IsConsented (given ∷ confirmed)) grants
  add_consent confirmed given [] h = tt
  add_consent confirmed given (g ∷ grants) h = (
    elim h.0 [
      | inl safe ↦ inl safe
      | inr allowed ↦ inr (add_consent-IsAllowed confirmed given _ allowed)
    ],
    add_consent confirmed given grants h.1,
  )

  approve-AreConsented :
      (s : SignIn) (details : Details) (o : Option ZendeskTokenSet)
      → IsConsented s.confirmed (record { details = details; tokens = no_tokens })
      → AreConsented s
      → AreConsented (approve_with s details o).0
  approve-AreConsented s details none c h = h
  approve-AreConsented s details (some tokens) c h = record {
    memory = h.memory;
    grants = (c, h.grants);
  }

  skip-IsConsented :
      (s : SignIn) (details : Details) (now : ℕ)
      → AreConsented s
      → (can_skip_consent parse (skip_request parse less digest details) trusted
          || is_remembered parse less digest s details now)
        ≡ true
      → IsConsented s.confirmed (record { details = details; tokens = no_tokens })
  unfolding is_remembered
  skip-IsConsented s details now h skip =
      elim (Bool-cases (can_skip_consent parse (skip_request parse less digest details) trusted)) [
        | inl safe ↦ inl (skip-GoesOffMachine details safe)
        | inr other ↦
            elim (Option-cases (JsMap.get s.consent_memory (key_of parse less digest details))) [
              | inl missing ↦ absurd (ground (arith, ap (is_before parse less digest now) missing))
              | inr (expires, there) ↦ inr (h.memory _ expires there)
            ]
      ]

  show-AreConsented :
      (s : SignIn) (details : Details) (now : ℕ)
      → AreConsented s
      → AreConsented (show_consent parse less digest trusted s details now).0
  unfolding show_consent take_and_approve
  show-AreConsented s details now h =
      elim (Bool-cases (
        can_skip_consent parse (skip_request parse less digest details) trusted
        || is_remembered parse less digest s details now)) [
          | inl skip ↦ rw skip (
              approve-AreConsented (take_tokens s details now).0 details
                (take_tokens s details now).1 (skip-IsConsented s details now h skip)
                (record { memory = h.memory; grants = h.grants }))
          | inr ask ↦ rw ask h
        ]

  prompt-AreConsented :
      (p : Prompt) (s : SignIn) (uid verifier : String) (details : Details) (now : ℕ)
      → AreConsented s
      → AreConsented (show_prompt parse less digest p trusted s uid verifier details now).0
  unfolding start_upstream_login
  prompt-AreConsented login_prompt s uid verifier details now h = record {
    memory = h.memory;
    grants = h.grants;
  }
  prompt-AreConsented consent_prompt s uid verifier details now h =
      show-AreConsented s details now h
  prompt-AreConsented other_prompt s uid verifier details now h = show-AreConsented s details now h

  exchange_code-AreConsented :
      (s : SignIn) (uid : String) (taken code : Option String) (details : Details)
      → AreConsented s
      → AreConsented (exchange_code s uid taken code details).0
  exchange_code-AreConsented s uid none code details h = h
  exchange_code-AreConsented s uid (some verifier) code details h =
      elim (Bool-cases ((verifier == "") || is_absent_or_empty code)) [
        | inl cancelled ↦ rw cancelled h
        | inr complete ↦ rw complete (record { memory = h.memory; grants = h.grants })
      ]

  answered-AreConsented :
      (admin_resource : String) (s : SignIn) (e : Exchange) (answer : LoginAnswer) (now : ℕ)
      → AreConsented s
      → AreConsented (answered admin_resource s e answer now).0
  answered-AreConsented admin_resource s e (upstream_failed message) now h = h
  answered-AreConsented admin_resource s e failed now h = h
  answered-AreConsented admin_resource s e (signed_in tokens identity) now h =
      elim (Bool-cases
        (includes e.details.resources admin_resource && not (has_role identity.role "admin"))) [
          | inl refused ↦ rw refused (record { memory = h.memory; grants = h.grants })
          | inr allowed ↦ rw allowed (record { memory = h.memory; grants = h.grants })
        ]

  remembered_key :
      (s : SignIn) (details : Details) (now : ℕ) (key : String) (expires : ℕ)
      → AreConsented s
      → JsMap.get (remember parse less digest s details now).consent_memory key ≡ (
          if key_of parse less digest details == key
          then some (now + consent_memory_ttl_s * 1000)
          else JsMap.get s.consent_memory key)
      → JsMap.get (remember parse less digest s details now).consent_memory key ≡ some expires
      → IsAllowed (details ∷ s.confirmed) key
  remembered_key s details now key expires h found there =
      elim (Bool-cases (key_of parse less digest details == key)) [
        | inl own ↦ inl (details, inl refl, (eq_iff (key_of parse less digest details) key).0 own)
        | inr other ↦
            add_consent-IsAllowed s.confirmed details key
              (h.memory key expires (ground (arith, found, there, other)))
      ]

  remember-AreConsented :
      (s : SignIn) (details : Details) (now : ℕ)
      → AreConsented s
      → AreConsented (remember parse less digest s details now)
  remember-AreConsented s details now h = record {
    memory = λ key expires there.
        remembered_key s details now key expires h
          (get-put s.consent_memory (key_of parse less digest details) key
            (now + consent_memory_ttl_s * 1000))
          there;
    grants = add_consent s.confirmed details s.grants h.grants;
  }

  confirm_with-AreConsented :
      (s : SignIn) (details : Details) (now : ℕ) (o : Option ZendeskTokenSet)
      → AreConsented s
      → AreConsented (confirm_with parse less digest s details now o).0
  confirm_with-AreConsented s details now none h = h
  confirm_with-AreConsented s details now (some tokens) h =
      approve-AreConsented _ details (some tokens) (inr (inl (details, inl refl, refl)))
        (remember-AreConsented s details now h)

  confirm-AreConsented :
      (p : Prompt) (s : SignIn) (details : Details) (now : ℕ)
      → AreConsented s
      → AreConsented (confirm_prompt parse less digest p s details now).0
  confirm-AreConsented login_prompt s details now h = h
  confirm-AreConsented other_prompt s details now h = h
  confirm-AreConsented consent_prompt s details now h =
      confirm_with-AreConsented (take_tokens s details now).0 details now
        (take_tokens s details now).1 (record { memory = h.memory; grants = h.grants })

  Step-AreConsented :
      {admin_resource : String} {s t : SignIn}
      → Step parse less digest trusted admin_resource s t
      → AreConsented s
      → AreConsented t
  unfolding show_interaction confirm complete_upstream_login upstream_answered
  Step-AreConsented (shown s uid verifier details now) h =
      prompt-AreConsented details.prompt s uid verifier details now h
  Step-AreConsented (returned s uid code details now) h =
      exchange_code-AreConsented _ uid (ExpiringMap.take s.verifiers uid now).1 code details
        (record { memory = h.memory; grants = h.grants })
  Step-AreConsented {admin_resource} (exchanged s before e after answer now shape) h =
      answered-AreConsented admin_resource _ e answer now
        (record { memory = h.memory; grants = h.grants })
  Step-AreConsented (agreed s details now) h = confirm-AreConsented details.prompt s details now h
  Step-AreConsented (forgotten s key) h = record {
    memory = λ k expires there.
        h.memory k expires (ground (arith, there, get-delete s.consent_memory key k));
    grants = h.grants;
  }

  grants-IsConsented :
      (admin_resource : String) {s : SignIn}
      → Run (Step parse less digest trusted admin_resource) (create_sign_in kept) s
      → All (IsConsented s.confirmed) s.grants
  grants-IsConsented admin_resource run =
      let start : AreConsented (create_sign_in kept) =
        unfold create_sign_in in
        record { memory = λ key expires there. inr (expires, there); grants = tt } in
      (Run-keeps AreConsented (λ a b step. Step-AreConsented step) start run).grants

  grant-IsConsented :
      (confirmed : List Details) (grants : List Grant) (grant : Grant)
      → All (IsConsented confirmed) grants
      → In grant grants
      → IsConsented confirmed grant
  grant-IsConsented confirmed [] grant h m = absurd m
  grant-IsConsented confirmed (g ∷ grants) grant h (inl same) = rw (← same) h.0
  grant-IsConsented confirmed (g ∷ grants) grant h (inr m) =
      grant-IsConsented confirmed grants grant h.1 m

  -- No grant without consent. Whatever requests come in and however they interleave, each grant that
  -- was created is for a trusted client at an HTTPS redirect address that its own document lists and
  -- that is not the user's machine; or on the consent screen a user allowed the same client for the
  -- same account with the same redirect addresses, in whatever order; or the store kept, from before the
  -- start, a consent under the key of that account, client and addresses. The condition is that the
  -- hash does not collide: it tells the grant's account, client and addresses apart from those of the
  -- consents that were given.
  pub granted_with_consent :
      (admin_resource : String) {s : SignIn} (grant : Grant)
      → Run (Step parse less digest trusted admin_resource) (create_sign_in kept) s
      → In grant s.grants
      → ((given : Details)
          → In given s.confirmed
          → digest (context_of less given) ≡ digest (context_of less grant.details)
          → context_of less given ≡ context_of less grant.details)
      → GoesOffMachine parse trusted grant.details
        ⊎ (((given : Details) × In given s.confirmed
              × (given.account_id ≡ grant.details.account_id)
              × (given.client_id ≡ grant.details.client_id)
              × Perm given.redirect_uris grant.details.redirect_uris)
            ⊎ ((expires : ℕ) × (JsMap.get kept (key_of parse less digest grant.details)
                  ≡ some expires)))
  unfolding consent_memory_key
  granted_with_consent admin_resource {s} grant run there apart =
      elim (grant-IsConsented s.confirmed s.grants grant (grants-IsConsented admin_resource run)
        there) [
          | inl safe ↦ inl safe
          | inr (inr before) ↦ inr (inr before)
          | inr (inl (given, member, same)) ↦
              let context : context_of less given ≡ context_of less grant.details =
                apart given member same in
              inr (
                inl (
                  given,
                  member,
                  ap (λ (c : ConsentContext). c.account_id) context,
                  ap (λ (c : ConsentContext). c.client_id) context,
                  Perm.trans (Perm.symm (sort_uris-Perm less given.redirect_uris)) (
                      rw (ap (λ (c : ConsentContext). c.redirect_uris) context)
                        (sort_uris-Perm less grant.details.redirect_uris)),
                ))
        ]
