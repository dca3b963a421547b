-- ===== src/AuthServer/SignIn/Counted.antt =====
-- What the pieces of a sign-in of auth/server/interactions.ts use up, login by login.
use zendesk_mcp_server.Base.{
  ℕ, ◌+◌, ◌≤◌, String, ◌≡◌, refl, inl, inr, Bool, not, ◌&&◌, ◌||◌, Option, none, some, List, ◌∷◌,
  ◌++◌, arith, if◌then◌else◌, Bool-cases, count_by, count_by-append, ◌==◌, number_key, text_key,
  includes,
}
use Prim.Native.String.{◌++◌ as ◌<>◌}
use zendesk_mcp_server.AuthServer.ExpiringMap
use zendesk_mcp_server.AuthServer.ExpiringMap.{tally, tally-set, tally-take_le, tally-take}
use zendesk_mcp_server.AuthServer.Grants.{ZendeskTokenSet}
use zendesk_mcp_server.AuthServer.SignIn.{
  Details, Login, Exchange, Received, Grant, LoginAnswer, signed_in, upstream_failed, failed,
  SignIn, pending_ttl_ms, start_upstream_login, pending_key, take_tokens, approve_with,
  take_and_approve, is_absent_or_empty, exchange_code, complete_upstream_login, has_role, answered,
  upstream_answered,
}

-- the entry of a login in the map of verifiers
abbrev pub login_of : String → String → Login
login_of uid verifier = record { uid = uid; code_verifier = verifier }

-- Login by login and token set by token set: what comes after is no more than what came before.
pub record IsOnce (s : SignIn) : Type 0 where
  pub sent :
      (p : Login → Bool)
      → tally (λ uid v. p (login_of uid v)) s.verifiers + count_by p s.exchanges
        ≤ count_by p s.started
  pub ended :
      (p : Login → Bool)
      → count_by (λ (e : Exchange). p e.login) s.exchanging
          + count_by (λ (r : Received). p r.login) s.received
        ≤ count_by p s.exchanges
  pub granted :
      (q : ZendeskTokenSet → Bool)
      → tally (λ key t. q t) s.upstream_tokens + count_by (λ (g : Grant). q g.tokens) s.grants
        ≤ count_by (λ (r : Received). q r.tokens) s.received

pub start-IsOnce :
    (s : SignIn) (uid verifier : String) (now : ℕ)
    → IsOnce s
    → IsOnce (start_upstream_login s uid verifier now).0
unfolding start_upstream_login
start-IsOnce s uid verifier now h = record {
  sent = λ p. omega (
    arith,
    h.sent p,
    tally-set (λ u v. p (login_of u v)) s.verifiers uid verifier pending_ttl_ms now,
  );
  ended = h.ended;
  granted = h.granted;
}

-- What is taken from the map of verifiers is exchanged once.
exchange_code-IsOnce :
    (s : SignIn) (uid : String) (taken code : Option String) (details : Details)
    → ((v : String)
        → taken ≡ some v
        → (p : Login → Bool)
        → tally (λ u w. p (login_of u w)) s.verifiers
            + (if p (login_of uid v) then 1 else 0)
            + count_by p s.exchanges
          ≤ count_by p s.started)
    → IsOnce s
    → IsOnce (exchange_code s uid taken code details).0
exchange_code-IsOnce s uid none code details room h = h
exchange_code-IsOnce s uid (some verifier) code details room h =
    elim (Bool-cases ((verifier == "") || is_absent_or_empty code)) [
      | inl cancelled ↦ rw cancelled h
      | inr complete ↦ rw complete (record {
        sent = λ p. omega (arith, room verifier refl p);
        ended = λ p. omega (arith, h.ended p);
        granted = h.granted;
      })
    ]

pub returned-IsOnce :
    (s : SignIn) (uid : String) (code : Option String) (details : Details) (now : ℕ)
    → IsOnce s
    → IsOnce (complete_upstream_login s uid code details now).0
unfolding complete_upstream_login
returned-IsOnce s uid code details now h =
    exchange_code-IsOnce _ uid (ExpiringMap.take s.verifiers uid now).1 code details
      (λ v there p.
        omega (arith, h.sent p, tally-take (λ u w. p (login_of u w)) s.verifiers uid now v there))
      (record {
        sent = λ p.
            omega (arith, h.sent p, tally-take_le (λ u w. p (login_of u w)) s.verifiers uid now);
        ended = h.ended;
        granted = h.granted;
      })

-- An exchange that ended has left those in flight, and what it got counts for it.
answered-IsOnce :
    (admin_resource : String) (s : SignIn) (e : Exchange) (answer : LoginAnswer) (now : ℕ)
    → ((p : Login → Bool)
        → (if p e.login then 1 else 0)
            + (count_by (λ (d : Exchange). p d.login) s.exchanging
                + count_by (λ (r : Received). p r.login) s.received)
          ≤ count_by p s.exchanges)
    → IsOnce s
    → IsOnce (answered admin_resource s e answer now).0
answered-IsOnce admin_resource s e (upstream_failed message) now room h = h
answered-IsOnce admin_resource s e failed now room h = h
answered-IsOnce admin_resource s e (signed_in tokens identity) now room h =
    elim (Bool-cases
      (includes e.details.resources admin_resource && not (has_role identity.role "admin"))) [
        | inl refused ↦ rw refused (record {
          sent = h.sent;
          ended = λ p. omega (arith, room p);
          granted = λ q. omega (arith, h.granted q);
        })
        | inr allowed ↦ rw allowed (record {
          sent = h.sent;
          ended = λ p. omega (arith, room p);
          granted = λ q. omega (
            arith,
            h.granted q,
            tally-set (λ key t. q t) s.upstream_tokens
                (pending_key ("zendesk:" <> identity.id) e.details.client_id) tokens pending_ttl_ms
                now,
          );
        })
      ]

pub exchanged-IsOnce :
    (admin_resource : String) (s : SignIn) (before : List Exchange) (e : Exchange)
    (after : List Exchange) (answer : LoginAnswer) (now : ℕ)
    → s.exchanging ≡ before ++ (e ∷ after)
    → IsOnce s
    → IsOnce (upstream_answered admin_resource s before (e ∷ after) answer now).0
unfolding upstream_answered
exchanged-IsOnce admin_resource s before e after answer now shape h =
    let room : (p : Login → Bool)
        → (if p e.login then 1 else 0)
            + (count_by (λ (d : Exchange). p d.login) (before ++ after)
                + count_by (λ (r : Received). p r.login) s.received)
          ≤ count_by p s.exchanges =
      λ p.
        let of_login : Exchange → Bool = λ d. p d.login in
        omega (
          arith,
          rw shape at (h.ended p),
          count_by-append of_login before (e ∷ after),
          count_by-append of_login before after,
        ) in
    answered-IsOnce admin_resource (record s { exchanging = before ++ after }) e answer now room
      (record { sent = h.sent; ended = λ p. omega (arith, room p); granted = h.granted })

-- Taken tokens are those of one grant.
pub approve_with-IsOnce :
    (s : SignIn) (details : Details) (o : Option ZendeskTokenSet)
    → ((t : ZendeskTokenSet)
        → o ≡ some t
        → (q : ZendeskTokenSet → Bool)
        → tally (λ key u. q u) s.upstream_tokens
            + (if q t then 1 else 0)
            + count_by (λ (g : Grant). q g.tokens) s.grants
          ≤ count_by (λ (r : Received). q r.tokens) s.received)
    → IsOnce s
    → IsOnce (approve_with s details o).0
approve_with-IsOnce s details none room h = h
approve_with-IsOnce s details (some tokens) room h = record {
  sent = h.sent;
  ended = h.ended;
  granted = λ q. omega (arith, room tokens refl q);
}

pub taken_room :
    (s : SignIn) (details : Details) (now : ℕ)
    → IsOnce s
    → (t : ZendeskTokenSet) → (take_tokens s details now).1 ≡ some t
    → (q : ZendeskTokenSet → Bool)
    → tally (λ key u. q u) (take_tokens s details now).0.upstream_tokens
        + (if q t then 1 else 0)
        + count_by (λ (g : Grant). q g.tokens) s.grants
      ≤ count_by (λ (r : Received). q r.tokens) s.received
taken_room s details now h t there q = omega (
  arith,
  h.granted q,
  tally-take (λ key u. q u) s.upstream_tokens (pending_key details.account_id details.client_id) now
      t there,
)

pub take_tokens-IsOnce :
    (s : SignIn) (details : Details) (now : ℕ) → IsOnce s → IsOnce (take_tokens s details now).0
take_tokens-IsOnce s details now h = record {
  sent = h.sent;
  ended = h.ended;
  granted = λ q. omega (
    arith,
    h.granted q,
    tally-take_le (λ key u. q u) s.upstream_tokens
        (pending_key details.account_id details.client_id) now,
  );
}

pub approve-IsOnce :
    (s : SignIn) (details : Details) (now : ℕ)
    → IsOnce s
    → IsOnce (take_and_approve s details now).0
unfolding take_and_approve
approve-IsOnce s details now h =
    approve_with-IsOnce (take_tokens s details now).0 details (take_tokens s details now).1
      (taken_room s details now h) (take_tokens-IsOnce s details now h)
