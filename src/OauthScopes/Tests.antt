-- ===== src/OauthScopes/Tests.antt =====
-- Runs of auth/oauth-scopes.ts.
use zendesk_mcp_server.Base.{◌≡◌, refl, true, false, some, number_key, text_key}
use zendesk_mcp_server.Text.{codes}
use zendesk_mcp_server.OauthScopes.{grant_covers}

covered : grant_covers (some (codes "write  read")) (codes "read write") ≡ true
unfolding grant_covers
covered = refl

not_covered : grant_covers (some (codes "read")) (codes "read write") ≡ false
unfolding grant_covers
not_covered = refl
