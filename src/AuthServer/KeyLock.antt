-- ===== src/AuthServer/KeyLock.antt =====
-- `createKeyLock` of auth/server/store.ts: calls for one key run one after the other. A call is a job
-- with its number; `after` is the tail that its promise was chained to. A promise callback runs at
-- any time after what it waits for, so the starts, ends and cleanups are steps of their own.
pub mod Chained
pub mod Turns
use zendesk_mcp_server.Base.{
  ℕ, ◌+◌, ◌<◌, String, ◌≡◌, Bool, true, false, Option, none, some, [], if◌then◌else◌, ◌==◌,
  number_key, text_key,
}
use zendesk_mcp_server.Base.JsMap
use zendesk_mcp_server.Base.JsMap.{JsMap}

pub data Status : Type 0 where
  waiting running settled : Status

pub record Job : Type 0 where
  pub key : String
  pub after : Option ℕ
  pub status : Status

pub record KeyLock : Type 0 where
  pub jobs : ℕ → Job
  pub count : ℕ
  pub tails : JsMap String ℕ

abbrev pub update {ℓ} : {A : Type ℓ} → (ℕ → A) → ℕ → A → ℕ → A
update f i a j = if i == j then a else f j

abbrev pub no_job : Job
no_job = record { key = ""; after = none; status = settled }

unfoldable pub create_key_lock : KeyLock
create_key_lock = record { jobs = λ i. no_job; count = 0; tails = [] }

-- the call itself: chain to the tail of the key, and become it
unfoldable pub with_lock : KeyLock → String → KeyLock
with_lock l key = record {
  jobs =
      update l.jobs l.count (record { key = key; after = JsMap.get l.tails key; status = waiting });
  count = l.count + 1;
  tails = JsMap.put l.tails key l.count;
}

abbrev pub is_settled : Status → Bool
is_settled settled = true
is_settled _ = false

-- `Promise.resolve()` where the key has no tail
abbrev pub is_due : KeyLock → Option ℕ → Bool
is_due l none = true
is_due l (some p) = is_settled (l.jobs p).status

abbrev pub with_status : KeyLock → ℕ → Status → KeyLock
with_status l i status = record l { jobs = update l.jobs i (record (l.jobs i) { status = status }) }

unfoldable pub begin_job : KeyLock → ℕ → KeyLock
begin_job l i = with_status l i running

-- the function ended, with a result or an error: the next call runs either way
unfoldable pub settle_job : KeyLock → ℕ → KeyLock
settle_job l i = with_status l i settled

abbrev pub drop_tail : KeyLock → String → ℕ → Option ℕ → KeyLock
drop_tail l key i none = l
drop_tail l key i (some t) = if t == i then record l { tails = JsMap.delete l.tails key } else l

-- the cleanup behind a settled tail
unfoldable pub clean_up : KeyLock → ℕ → KeyLock
clean_up l i = drop_tail l (l.jobs i).key i (JsMap.get l.tails (l.jobs i).key)

pub data Step : KeyLock → KeyLock → Type 0 where
  called : (l : KeyLock) (key : String) → Step l (with_lock l key)
  began :
      (l : KeyLock) (i : ℕ)
      → i < l.count
      → (l.jobs i).status ≡ waiting
      → is_due l (l.jobs i).after ≡ true
      → Step l (begin_job l i)
  ended :
      (l : KeyLock) (i : ℕ) → i < l.count → (l.jobs i).status ≡ running → Step l (settle_job l i)
  cleaned :
      (l : KeyLock) (i : ℕ) → i < l.count → (l.jobs i).status ≡ settled → Step l (clean_up l i)
