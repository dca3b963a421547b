-- ===== src/Retry/Tests.antt =====
-- Runs of client/retry.ts: a POST that is rate limited twice, and a GET that fails.
use zendesk_mcp_server.Base.{
  ℕ, zero, suc, ◌≡◌, refl, ◌≢◌, Option, none, some, List, [], ◌∷◌, arith, length, number_key,
  text_key,
}
use zendesk_mcp_server.Base.Int.{ℤ}
use zendesk_mcp_server.Text.{codes}
use zendesk_mcp_server.Retry.{
  get, post, no_object, object, Random, IsRandom, Response, Outcome, responded, threw, Try,
  returned, fetch_with_retry,
}
use zendesk_mcp_server.Retry.Loop.{NotApplied, replayed-NotApplied}

abbrev half : Random
half = record { k = 1; d = 2 }

abbrev no_date : List ℕ → Option ℤ
no_date text = none

abbrev limited : Response
limited = record { status = 429; retry_after = some (codes " 2 ") }

-- 429 with `Retry-After: 2`, a connection that is refused, then the answer
abbrev outcomes : ℕ → Outcome
outcomes (suc zero) = responded limited
outcomes (suc (suc zero)) = threw (object none (object (some "ECONNREFUSED") no_object))
outcomes _ = responded (record { status = 201; retry_after = none })

abbrev tries : ℕ → Try
tries n = record { outcome = outcomes n; now = 0; random = half }

post_run :
    fetch_with_retry no_date tries post
    ≡ (returned 3 (record { status = 201; retry_after = none }), 2000 ∷ 375 ∷ [])
unfolding fetch_with_retry
post_run = refl

posted : length (fetch_with_retry no_date tries post).1 ≡ 2
unfolding fetch_with_retry
posted = refl

post_not_get : post ≢ get
post_not_get h = cc

replayed-NotApplied_example : NotApplied (outcomes 2)
replayed-NotApplied_example =
    replayed-NotApplied no_date tries post 2 post_not_get (omega arith) (omega (arith, posted))

half-IsRandom : (t : ℕ) → IsRandom (tries t).random
half-IsRandom t = omega arith
