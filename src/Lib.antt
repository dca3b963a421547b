-- ===== src/Lib.antt =====
-- Verification of the Zendesk MCP server (TypeScript, src/): a server that offers Zendesk tickets and
-- help centre articles as tools. The modules below model its own logic; the protocol SDK, the HTTP
-- client, the clock, the random numbers and the file system enter as arguments.
--
-- ArticleOrder (src/utils/article-order.ts): arrangeDesiredOrder puts one article before, after, at
--   the top or at the bottom; computePositionWrites gives the position writes; isPlacedAsRequested
--   checks the section that Zendesk returns. Positions are integers, errors are values.
-- Retry (src/client/retry.ts): errorCode, classifyNetworkError, computeBackoffMs, parseRetryAfter,
--   retryDelayFor and the loop of fetchWithRetry, over a function that gives the outcome of each
--   try. The loop runs on fuel, as many rounds as MAX_ATTEMPTS; the chain of causes on 5 levels, the
--   bound of the code.
-- ListenFeed (src/utils/listen-feed.ts): streams, listener counts and sinks as one record; what the
--   sinks are told is a log, in which an attach stands too.
-- GrantRegistry (src/utils/grant-registry.ts): the slots of the HTTP transport. A sweep waits between
--   its rounds, so each round is a step that other calls come between.
-- Sla (src/utils/durations.ts, sla-thresholds.ts, sla-preferences.ts, sla-urgency.ts): durations as
--   text, thresholds per family, a user's changes to them, the urgency of a metric and of a ticket.
--   Date.parse is a parameter of the urgency modules.
-- OauthScopes (src/auth/oauth-scopes.ts): requested scopes and grantCovers.
-- TokenStore (src/auth/token-store.ts, token-persistence.ts): the token of a stdio session as a state
--   machine, cut at the waits of its functions. It takes the scopes from OauthScopes. Single,
--   Invalidated and Serving hold the proofs.
-- StateStore (src/utils/state-store.ts): the memory store and the disk store, a refinement between
--   them for calls that run one after the other. The name of a key's file is a parameter.
-- Shutdown (src/utils/shutdown.ts), Sla.Poller (src/utils/sla-poller.ts): state machines, cut at waits.
-- Pagination (src/utils/pagination.ts): page parameters and resuming.
-- Routing (src/routing/registry.ts, print.ts): filtering, grouping and listing of the tools.
-- Customization (src/customization/model.ts): frontmatter, the planning of edits and the
--   reading of the stored files. JSON is a parameter.
-- Sla.Alerts (src/utils/sla-alerts.ts): merged fetches and the selection of alerts.
-- Sla.Scope (src/utils/sla-scope.ts): the tickets of a scope, page by page and group by group; the
--   loop over group memberships has no bound in the code and runs on fuel.
-- AuthServer (src/auth/server/): KeyLock (createKeyLock of store.ts) orders calls by key; Grants
--   (zendesk-grant.ts) keeps the Zendesk tokens of each grant and runs its calls under that lock;
--   FileStore (file-store.ts), with Sealed (the collections of store.ts) over it; ExpiringMap
--   (expiring-map.ts), which SignIn (interactions.ts) and Revocation (authorization-server.ts) keep
--   their pending state in; Trusted (trusted-clients.ts) says who skips the consent screen of
--   SignIn, and ConsentKey under which key a consent is remembered. Steps are cut at the waits of
--   the code.
-- Config (src/config.ts, src/utils/env.ts): Flags reads the command line, Settings and Config the
--   environment behind it, Load joins them in the order of loadConfig; Lists, Names, Checked and
--   Refusals hold the proofs. toLowerCase is a parameter of the reading of brand ids. A flag wins
--   over its variable; some settings read the variable all the same.
-- ArticleSections (src/utils/article-sections.ts): the sections of an article's body and the update
--   of one of them; Edited holds the proof. The HTML parser is a parameter.
-- HttpTransport (src/transports/http.ts): Routes decides what answers a request, over Origins (CORS)
--   and Body; Sessions keeps the sessions of 2025 clients, each with a server of its own, and Grants
--   the entries of 2026 clients over GrantRegistry. Both are step relations, cut at the waits of the
--   code; the access tokens are those of AuthServer.Revocation. The SDK is a parameter.
-- Base holds the shared tests, lists, integers, keys and maps; Text holds code points and digits.
--
-- Not modelled: the texts that are rendered, the handlers of the tools and the SDK's
-- wiring (server.ts, tools/, transports/stdio.ts), the provider that auth/server/ configures, its
-- encryption and key derivation, the browser sign-in: mostly calls of code that is not of this
-- repository. Numbers are exact: the rounding from 2 ^ 53 on is not modelled.
pub mod Base
pub mod Text
pub mod ArticleOrder
pub mod Retry
pub mod ListenFeed
pub mod GrantRegistry
pub mod Sla
pub mod OauthScopes
pub mod TokenStore
pub mod StateStore
pub mod Shutdown
pub mod Pagination
pub mod Routing
pub mod Customization
pub mod AuthServer
pub mod Config
pub mod ArticleSections
pub mod HttpTransport
