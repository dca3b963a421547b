-- ===== src/Retry/Loop.antt =====
-- The retry loop `fetchWithRetry` of client/retry.ts.
use zendesk_mcp_server.Base.{
  ℕ, zero, suc, ◌+◌, ◌≤◌, ◌<◌, ◌≡◌, ◌≢◌, inl, inr, Option, none, some, List, [], arith, Bool-cases,
  Option-cases, length, ◌==◌, number_key, text_key, All,
}
use zendesk_mcp_server.Base.Int.{ℤ}
use zendesk_mcp_server.Retry.{
  HttpMethod, get, pre_send, max_retry_after_ms, classify_network_error, IsRandom, Outcome,
  responded, threw, Try, after_wait, retry_delay_for, wait_after, ended, fetch_from,
  fetch_with_retry,
}
use zendesk_mcp_server.Retry.Delays.{compute_backoff_ms-le}

-- An outcome that proves that Zendesk applied nothing: refused for the rate limit, or never sent.
abbrev pub NotApplied : Outcome → Type 0
NotApplied (responded response) = response.status ≡ 429
NotApplied (threw cause) = classify_network_error cause ≡ pre_send

module _ (date_parse : List ℕ → Option ℤ) (attempt : ℕ → Try) (method : HttpMethod) where
  wait_after-NotApplied :
      (tries : ℕ) (o : Outcome) {d : ℕ}
      → method ≢ get
      → wait_after date_parse attempt method tries o ≡ some d
      → NotApplied o
  unfolding wait_after retry_delay_for
  wait_after-NotApplied tries (responded response) w h = ground arith
  wait_after-NotApplied tries (threw cause) w h = ground arith

  wait_after-le :
      (tries : ℕ) (o : Outcome) {d : ℕ}
      → IsRandom (attempt tries).random
      → wait_after date_parse attempt method tries o ≡ some d
      → d ≤ max_retry_after_ms
  unfolding wait_after retry_delay_for
  wait_after-le tries (responded response) r h =
      ground (arith, compute_backoff_ms-le tries (attempt tries).random r)
  wait_after-le tries (threw cause) r h =
      ground (arith, compute_backoff_ms-le tries (attempt tries).random r)

  fetch_from_stop :
      (fuel tries : ℕ)
      → wait_after date_parse attempt method tries (attempt tries).outcome ≡ none
      → fetch_from date_parse attempt method (suc fuel) tries
        ≡ (ended date_parse attempt method tries (attempt tries).outcome, [])
  unfolding fetch_from
  fetch_from_stop fuel tries stop = rw (stop, fetch_from)

  fetch_from_go :
      (fuel tries : ℕ) {d : ℕ}
      → wait_after date_parse attempt method tries (attempt tries).outcome ≡ some d
      → fetch_from date_parse attempt method (suc fuel) tries
        ≡ after_wait d (fetch_from date_parse attempt method fuel (suc tries))
  unfolding fetch_from
  fetch_from_go fuel tries go = rw (go, fetch_from)

  fetch_from-NotApplied :
      (fuel tries t : ℕ)
      → method ≢ get
      → tries ≤ t
      → t < tries + length (fetch_from date_parse attempt method fuel tries).1
      → NotApplied (attempt t).outcome
  unfolding fetch_from
  fetch_from-NotApplied zero tries t w le lt = absurd (omega arith)
  fetch_from-NotApplied (suc fuel) tries t w le lt =
      elim (Option-cases (wait_after date_parse attempt method tries (attempt tries).outcome)) [
        | inl stop ↦ absurd (omega (arith, rw (fetch_from_stop fuel tries stop) at lt))
        | inr (d, go) ↦ elim (Bool-cases (t == tries)) [
          | inl same ↦
              let eq : t ≡ tries = ground arith in
              rw eq (wait_after-NotApplied tries (attempt tries).outcome w go)
          | inr later ↦
              fetch_from-NotApplied fuel (suc tries) t w (ground arith)
                (omega (arith, rw (fetch_from_go fuel tries go) at lt))
        ]
      ]

  fetch_from-delays :
      (fuel tries : ℕ)
      → ((t : ℕ) → IsRandom (attempt t).random)
      → All (λ d. d ≤ max_retry_after_ms) (fetch_from date_parse attempt method fuel tries).1
  unfolding fetch_from
  fetch_from-delays zero tries r = tt
  fetch_from-delays (suc fuel) tries r =
      elim (Option-cases (wait_after date_parse attempt method tries (attempt tries).outcome)) [
        | inl stop ↦ rw (fetch_from_stop fuel tries stop) tt
        | inr (d, go) ↦ rw (fetch_from_go fuel tries go) (
          wait_after-le tries (attempt tries).outcome (r tries) go,
          fetch_from-delays fuel (suc tries) r,
        )
      ]

  -- A request other than GET is sent again only after tries that provably applied nothing: every
  -- try before the last was answered 429, or failed before it reached Zendesk.
  pub replayed-NotApplied :
      (t : ℕ)
      → method ≢ get
      → 1 ≤ t
      → t < 1 + length (fetch_with_retry date_parse attempt method).1
      → NotApplied (attempt t).outcome
  unfolding fetch_with_retry
  replayed-NotApplied t = fetch_from-NotApplied 3 1 t

  -- Whatever the server sends, no wait between two tries is longer than five seconds.
  pub delays_bounded :
      ((t : ℕ) → IsRandom (attempt t).random)
      → All (λ d. d ≤ 5000) (fetch_with_retry date_parse attempt method).1
  unfolding fetch_with_retry
  delays_bounded = fetch_from-delays 3 1
