-- ===== src/Retry/Delays.antt =====
-- The waits that `computeBackoffMs` of client/retry.ts gives.
use zendesk_mcp_server.Base.{ℕ, ◌+◌, ◌-◌, ◌*◌, ◌/◌, ◌^◌, ◌≤◌, ◌<◌, arith, number_key, text_key}
use native.Mathlib.Nat.{div-lt_iff_lt-mul, lt_of_mul-lt-mul_right}
use zendesk_mcp_server.Retry.{
  Random, IsRandom, min_ℕ, base_delay_ms, max_delay_ms, backoff_window, jittered,
  compute_backoff_ms,
}

-- The numerator stays below the next multiple of the denominator.
jitter_room : (w k d : ℕ) → k < d → w * d + w * k + d < (w + 1) * (2 * d)
jitter_room w k d h = grind arith

pub jittered-le : (window : ℕ) (r : Random) → IsRandom r → jittered window r ≤ window
unfolding jittered
jittered-le w r h =
    let pos_d : 0 < 2 * r.d = omega arith in
    omega (arith, (div-lt_iff_lt-mul pos_d).1 (jitter_room w r.k r.d h))

half_room : (w k d q : ℕ) → 0 < d → w * d + w * k + d < q * (2 * d) → w + 1 < 2 * q
half_room w k d q h lt = lt_of_mul-lt-mul_right d (omega arith)

pub window-le-jittered : (window : ℕ) (r : Random) → IsRandom r → window ≤ 2 * jittered window r
unfolding jittered
window-le-jittered w r h =
    let pos_d : 0 < 2 * r.d = omega arith in
    let q = (w * r.d + w * r.k + r.d) / (2 * r.d) in
    let lt : q < q + 1 = omega arith in
    omega (arith, half_room w r.k r.d (q + 1) (omega arith) ((div-lt_iff_lt-mul pos_d).0 lt))

-- With `Math.random()` below 1, a wait is at most the window of its try and at least half of it.
-- The window is 250 ms doubled with each try, at most 4 s.
pub compute_backoff_ms_bounds :
    (attempt : ℕ) (random : Random)
    → IsRandom random
    → (compute_backoff_ms attempt random ≤ min_ℕ (base_delay_ms * 2 ^ (attempt - 1)) max_delay_ms)
      × (min_ℕ (base_delay_ms * 2 ^ (attempt - 1)) max_delay_ms
          ≤ 2 * compute_backoff_ms attempt random)
unfolding compute_backoff_ms
compute_backoff_ms_bounds attempt random h = (
  jittered-le (backoff_window attempt) random h,
  window-le-jittered (backoff_window attempt) random h,
)

pub compute_backoff_ms-le :
    (attempt : ℕ) (random : Random)
    → IsRandom random
    → compute_backoff_ms attempt random ≤ max_delay_ms
compute_backoff_ms-le attempt random h =
    let le : min_ℕ (base_delay_ms * 2 ^ (attempt - 1)) max_delay_ms ≤ max_delay_ms = ground arith in
    omega (arith, le, (compute_backoff_ms_bounds attempt random h).0)
