-- ===== src/Retry.antt =====
-- client/retry.ts: which failures are replayed, how long each wait is, and the loop itself.
-- Fractions are exact: `Math.random()` is `k / d` with `k < d`. `Date.parse` is a parameter, the
-- attempts are the function that gives the outcome of each try.
pub mod Delays
pub mod Loop
mod Tests
use zendesk_mcp_server.Base.{
  ℕ, zero, suc, ◌+◌, ◌-◌, ◌*◌, ◌/◌, ◌^◌, ◌<◌, String, Bool, true, false, not, ◌&&◌, ◌||◌, Option,
  none, some, List, [], ◌∷◌, ltb, leb, if◌then◌else◌, ◌==◌, number_key, text_key, includes,
}
use zendesk_mcp_server.Base.Int.{ℤ, pos, pos_part, ◌-ℤ◌}
use zendesk_mcp_server.Text.{trim, is_digit, number_from}

pub data HttpMethod : Type 0 where
  get post put delete : HttpMethod

pub data NetworkPhase : Type 0 where
  pre_send unknown : NetworkPhase

pub data Replayed : Type 0 where
  any_phase : Replayed
  only : NetworkPhase → Replayed

pub record RetryPolicy : Type 0 where
  pub network : Replayed
  pub server_errors : Bool

abbrev pub policies : HttpMethod → RetryPolicy
policies get = record { network = any_phase; server_errors = true }
policies delete = record { network = only pre_send; server_errors = false }
policies post = record { network = only pre_send; server_errors = false }
policies put = record { network = only pre_send; server_errors = false }

abbrev pub max_attempts : ℕ
max_attempts = 3

abbrev pub base_delay_ms : ℕ
base_delay_ms = 250

abbrev pub max_delay_ms : ℕ
max_delay_ms = 4000

abbrev pub max_retry_after_ms : ℕ
max_retry_after_ms = 5000

-- A thrown value: an object with its `code`, if that is a string, and its `cause`; or no object.
pub data Thrown : Type 0 where
  no_object : Thrown
  object : (code : Option String) → (cause : Thrown) → Thrown

abbrev pub pre_send_codes : List String
pre_send_codes = "ENOTFOUND" ∷ "EAI_AGAIN" ∷ "ECONNREFUSED" ∷ "UND_ERR_CONNECT_TIMEOUT" ∷ []

-- the loop of `errorCode`, by the levels left
unfoldable pub error_code_from : ℕ → Thrown → Option String
error_code_from zero current = none
error_code_from (suc levels) no_object = none
error_code_from (suc levels) (object (some code) cause) = some code
error_code_from (suc levels) (object none cause) = error_code_from levels cause

unfoldable pub error_code : Thrown → Option String
unfolding error_code_from
error_code err = error_code_from 5 err

abbrev pub is_pre_send_code : Option String → Bool
is_pre_send_code none = false
is_pre_send_code (some code) = includes pre_send_codes code

unfoldable pub classify_network_error : Thrown → NetworkPhase
unfolding error_code
classify_network_error err = if is_pre_send_code (error_code err) then pre_send else unknown

-- What the message of a failed write says of its effect.
pub data Note : Type 0 where
  may_have_applied never_sent : Note

abbrev pub phase_note : NetworkPhase → Note
phase_note pre_send = never_sent
phase_note unknown = may_have_applied

unfoldable pub network_error_note : HttpMethod → Thrown → Option Note
network_error_note get cause = none
network_error_note post cause = some (phase_note (classify_network_error cause))
network_error_note put cause = some (phase_note (classify_network_error cause))
network_error_note delete cause = some (phase_note (classify_network_error cause))

-- `k / d` is the value of `Math.random()`
pub record Random : Type 0 where
  pub k : ℕ
  pub d : ℕ

abbrev pub IsRandom : Random → Type 0
IsRandom r = r.k < r.d

abbrev pub min_ℕ : ℕ → ℕ → ℕ
min_ℕ a b = if leb a b then a else b

unfoldable pub backoff_window : ℕ → ℕ
backoff_window attempt = min_ℕ (base_delay_ms * 2 ^ (attempt - 1)) max_delay_ms

-- `Math.round(w / 2 + w * random / 2)`, over the common denominator `2 * d`
unfoldable pub jittered : ℕ → Random → ℕ
jittered window r = (window * r.d + window * r.k + r.d) / (2 * r.d)

unfoldable pub compute_backoff_ms : ℕ → Random → ℕ
unfolding backoff_window jittered
compute_backoff_ms attempt random = jittered (backoff_window attempt) random

abbrev pub all_digits : List ℕ → Bool
all_digits [] = true
all_digits (c ∷ s) = is_digit c && all_digits s

abbrev pub is_delay_seconds : List ℕ → Bool
is_delay_seconds [] = false
is_delay_seconds (c ∷ s) = all_digits (c ∷ s)

abbrev pub starts_with_letter : List ℕ → Bool
starts_with_letter [] = false
starts_with_letter (c ∷ s) = leb b'A' c && leb c b'Z' || leb b'a' c && leb c b'z'

-- `Math.max(0, date - now)`
abbrev pub until_date : ℕ → Option ℤ → Option ℕ
until_date now none = none
until_date now (some date) = some (pos_part (date -ℤ pos now))

module _ (date_parse : List ℕ → Option ℤ) where
  abbrev pub parse_value : List ℕ → ℕ → Option ℕ
  parse_value value now =
      if is_delay_seconds value
      then some (number_from 0 value * 1000)
      else if not (starts_with_letter value)
      then none
      else until_date now (date_parse value)

  unfoldable pub parse_retry_after : Option (List ℕ) → ℕ → Option ℕ
  unfolding trim is_digit number_from ◌-ℤ◌
  parse_retry_after none now = none
  parse_retry_after (some header) now = parse_value (trim header) now

pub record Response : Type 0 where
  pub status : ℕ
  pub retry_after : Option (List ℕ)

abbrev pub is_replayable : Response → RetryPolicy → Bool
is_replayable response policy =
    (response.status == 429) || leb 500 response.status && policy.server_errors

abbrev pub capped_delay : ℕ → Random → Option ℕ → Option ℕ
capped_delay attempt random none = some (compute_backoff_ms attempt random)
capped_delay attempt random (some retry_after) =
    if ltb max_retry_after_ms retry_after then none else some retry_after

-- What one try meets: its outcome, the clock, and the random number of its wait.
pub data Outcome : Type 0 where
  responded : Response → Outcome
  threw : Thrown → Outcome

pub record Try : Type 0 where
  pub outcome : Outcome
  pub now : ℕ
  pub random : Random

-- The result of the call, with the number of the try that gave it, and the waits before it.
pub data Fetched : Type 0 where
  returned : (tries : ℕ) → Response → Fetched
  network_error : (tries : ℕ) → Thrown → Fetched
  no_fuel : Fetched

abbrev pub phase_beq : NetworkPhase → NetworkPhase → Bool
phase_beq pre_send pre_send = true
phase_beq unknown unknown = true
phase_beq _ _ = false

abbrev pub is_replayed : Replayed → NetworkPhase → Bool
is_replayed any_phase phase = true
is_replayed (only allowed) phase = phase_beq phase allowed

abbrev pub after_wait : ℕ → Fetched × List ℕ → Fetched × List ℕ
after_wait delay (result, sleeps) = (result, delay ∷ sleeps)

module _ (date_parse : List ℕ → Option ℤ) where
  unfoldable pub retry_delay_for : Response → RetryPolicy → ℕ → Random → ℕ → Option ℕ
  unfolding parse_retry_after
  retry_delay_for response policy attempt random now =
      if not (is_replayable response policy)
      then none
      else capped_delay attempt random (parse_retry_after date_parse response.retry_after now)

  module _ (attempt : ℕ → Try) (method : HttpMethod) where
    -- the wait after a try, or `none` where the call ends with it
    unfoldable pub wait_after : ℕ → Outcome → Option ℕ
    wait_after tries (threw err) =
        if leb max_attempts tries
          || not (is_replayed (policies method).network (classify_network_error err))
        then none
        else some (compute_backoff_ms tries (attempt tries).random)
    wait_after tries (responded response) =
        if leb max_attempts tries
        then none
        else retry_delay_for response (policies method) tries (attempt tries).random
            (attempt tries).now

    abbrev pub ended : ℕ → Outcome → Fetched
    ended tries (threw err) = network_error tries err
    ended tries (responded response) = returned tries response

    -- the loop, which a try without a wait leaves
    unfoldable pub fetch_from : ℕ → ℕ → Fetched × List ℕ
    fetch_from zero tries = (no_fuel, [])
    fetch_from (suc fuel) tries = elim (wait_after tries (attempt tries).outcome) [
      | none ↦ (ended tries (attempt tries).outcome, [])
      | some delay ↦ after_wait delay (fetch_from fuel (suc tries))
    ]

    unfoldable pub fetch_with_retry : Fetched × List ℕ
    unfolding fetch_from wait_after retry_delay_for classify_network_error compute_backoff_ms
    fetch_with_retry = fetch_from max_attempts 1
