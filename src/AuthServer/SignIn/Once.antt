-- ===== src/AuthServer/SignIn/Once.antt =====
-- A sign-in of auth/server/interactions.ts is used once.
use zendesk_mcp_server.Base.{
  ℕ, ◌+◌, ◌≤◌, String, ◌≡◌, inl, inr, Bool, ◌||◌, Option, none, some, List, arith, if◌then◌else◌,
  Bool-cases, count_by, number_key, text_key, Run, Run-keeps,
}
use zendesk_mcp_server.Base.JsMap.{JsMap}
use zendesk_mcp_server.AuthServer.ExpiringMap.{tally}
use zendesk_mcp_server.AuthServer.Trusted.{Url, can_skip_consent}
use zendesk_mcp_server.AuthServer.Grants.{ZendeskTokenSet}
use zendesk_mcp_server.AuthServer.ConsentKey.{ConsentContext}
use zendesk_mcp_server.AuthServer.SignIn.{
  Prompt, login_prompt, consent_prompt, other_prompt, Details, Login, Exchange, Received, Grant,
  SignIn, create_sign_in, take_tokens, is_remembered, skip_request, show_consent, show_prompt,
  show_interaction, remember, confirm_with, confirm_prompt, confirm, Step, shown, returned,
  exchanged, agreed, forgotten,
}
use zendesk_mcp_server.AuthServer.SignIn.Counted.{
  login_of, IsOnce, start-IsOnce, returned-IsOnce, exchanged-IsOnce, approve_with-IsOnce,
  taken_room, take_tokens-IsOnce, approve-IsOnce,
}

module _ (parse : String → Option Url) (less : String → String → Bool)
    (digest : ConsentContext → String) where
  show-IsOnce :
      (trusted : List String) (s : SignIn) (details : Details) (now : ℕ)
      → IsOnce s
      → IsOnce (show_consent parse less digest trusted s details now).0
  unfolding show_consent
  show-IsOnce trusted s details now h =
      elim (Bool-cases (
        can_skip_consent parse (skip_request parse less digest details) trusted
        || is_remembered parse less digest s details now)) [
          | inl skip ↦ rw skip (approve-IsOnce s details now h)
          | inr ask ↦ rw ask h
        ]

  prompt-IsOnce :
      (q : Prompt) (trusted : List String) (s : SignIn) (uid verifier : String) (details : Details)
      (now : ℕ)
      → IsOnce s
      → IsOnce (show_prompt parse less digest q trusted s uid verifier details now).0
  prompt-IsOnce login_prompt trusted s uid verifier details now h =
      start-IsOnce s uid verifier now h
  prompt-IsOnce consent_prompt trusted s uid verifier details now h =
      show-IsOnce trusted s details now h
  prompt-IsOnce other_prompt trusted s uid verifier details now h =
      show-IsOnce trusted s details now h

  confirm_with-IsOnce :
      (s : SignIn) (details : Details) (now : ℕ) (o : Option ZendeskTokenSet)
      → ((t : ZendeskTokenSet)
          → o ≡ some t
          → (q : ZendeskTokenSet → Bool)
          → tally (λ key u. q u) s.upstream_tokens
              + (if q t then 1 else 0)
              + count_by (λ (g : Grant). q g.tokens) s.grants
            ≤ count_by (λ (r : Received). q r.tokens) s.received)
      → IsOnce s
      → IsOnce (confirm_with parse less digest s details now o).0
  confirm_with-IsOnce s details now none room h = h
  confirm_with-IsOnce s details now (some tokens) room h =
      approve_with-IsOnce (remember parse less digest s details now) details (some tokens) room
        (record { sent = h.sent; ended = h.ended; granted = h.granted })

  confirm-IsOnce :
      (q : Prompt) (s : SignIn) (details : Details) (now : ℕ)
      → IsOnce s
      → IsOnce (confirm_prompt parse less digest q s details now).0
  confirm-IsOnce login_prompt s details now h = h
  confirm-IsOnce other_prompt s details now h = h
  confirm-IsOnce consent_prompt s details now h =
      confirm_with-IsOnce (take_tokens s details now).0 details now (take_tokens s details now).1
        (taken_room s details now h) (take_tokens-IsOnce s details now h)

  Step-IsOnce :
      {trusted : List String} {admin_resource : String} {s t : SignIn}
      → Step parse less digest trusted admin_resource s t
      → IsOnce s
      → IsOnce t
  unfolding show_interaction confirm
  Step-IsOnce {trusted} (shown s uid verifier details now) h =
      prompt-IsOnce details.prompt trusted s uid verifier details now h
  Step-IsOnce (returned s uid code details now) h = returned-IsOnce s uid code details now h
  Step-IsOnce {trusted} {admin_resource} (exchanged s before e after answer now shape) h =
      exchanged-IsOnce admin_resource s before e after answer now shape h
  Step-IsOnce (agreed s details now) h = confirm-IsOnce details.prompt s details now h
  Step-IsOnce (forgotten s key) h = record { sent = h.sent; ended = h.ended; granted = h.granted }

  -- Each login sent to Zendesk is exchanged at most once, and what it got serves for at most one
  -- grant, whatever requests come in and however they interleave. Counted with any test `p` of
  -- logins and any test `q` of token sets, so one by one: the logins that still wait and the
  -- exchanges that began are no more than the logins sent; the exchanges in flight and those that
  -- got tokens are no more than the exchanges that began; the token sets that wait for consent
  -- and the grants are no more than the token sets that exchanges got.
  pub one_grant_per_login :
      (trusted : List String) (admin_resource : String) (memory : JsMap String ℕ) {s : SignIn}
      (p : Login → Bool) (q : ZendeskTokenSet → Bool)
      → Run (Step parse less digest trusted admin_resource) (create_sign_in memory) s
      → (tally (λ uid v. p (login_of uid v)) s.verifiers + count_by p s.exchanges
          ≤ count_by p s.started)
        × (count_by (λ (e : Exchange). p e.login) s.exchanging
              + count_by (λ (r : Received). p r.login) s.received
            ≤ count_by p s.exchanges)
        × (tally (λ key t. q t) s.upstream_tokens + count_by (λ (g : Grant). q g.tokens) s.grants
            ≤ count_by (λ (r : Received). q r.tokens) s.received)
  one_grant_per_login trusted admin_resource memory {s} p q run =
      let start : IsOnce (create_sign_in memory) =
        unfold create_sign_in in
        record { sent = λ p. omega arith; ended = λ p. omega arith; granted = λ q. omega arith } in
      let once : IsOnce s = Run-keeps IsOnce (λ a b step. Step-IsOnce step) start run in
      (once.sent p, once.ended p, once.granted q)
