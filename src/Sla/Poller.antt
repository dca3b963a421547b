-- ===== src/Sla/Poller.antt =====
-- utils/sla-poller.ts: subscribed URIs with their last fingerprint, the timer and the polling round,
-- cut where a check or a notification is waited for. `polling` counts the rounds that run, `log`
-- holds the URIs notified; a failed check or notification changes nothing.
use zendesk_mcp_server.Base.{
  ℕ, ◌+◌, ◌-◌, ◌≤◌, ◌<◌, String, ◌≡◌, refl, Bool, true, false, not, Option, none, some, List, [],
  ◌∷◌, arith, if◌then◌else◌, ◌==◌, number_key, text_key, Run, Run-keeps,
}
use zendesk_mcp_server.Base.JsMap
use zendesk_mcp_server.Base.JsMap.{JsMap}

pub record Poller : Type 0 where
  pub fingerprints : JsMap String (Option String)
  pub timer : Bool
  pub running : Bool
  pub polling : ℕ
  pub log : List String

unfoldable pub create_alert_poller : Poller
create_alert_poller = record {
  fingerprints = [];
  timer = false;
  running = false;
  polling = 0;
  log = [];
}

abbrev pub is_known {ℓ} : {A : Type ℓ} → Option A → Bool
is_known none = false
is_known (some a) = true

-- the first check of the URI is then in flight
unfoldable pub subscribe : Poller → String → Poller
subscribe p uri =
    if is_known (JsMap.get p.fingerprints uri)
    then p
    else record p { fingerprints = JsMap.put p.fingerprints uri none; timer = true }

abbrev pub is_empty {ℓ} : {A : Type ℓ} → List A → Bool
is_empty [] = true
is_empty (a ∷ s) = false

unfoldable pub unsubscribe : Poller → String → Poller
unsubscribe p uri =
    let left = JsMap.delete p.fingerprints uri in
    record p { fingerprints = left; timer = if is_empty left then false else p.timer }

unfoldable pub stop : Poller → Poller
stop p = record p { fingerprints = []; timer = false }

abbrev pub has_changed : Option (Option String) → String → Bool
has_changed (some (some previous)) next = not (previous == next)
has_changed _ next = false

-- the end of `refresh`: record, while still subscribed
unfoldable pub record_fingerprint : Poller → String → String → Poller
record_fingerprint p uri next =
    if is_known (JsMap.get p.fingerprints uri)
    then record p { fingerprints = JsMap.put p.fingerprints uri (some next) }
    else p

-- `refresh` from the answer of its check: a changed fingerprint is notified, and waits for that;
-- another is recorded at once
unfoldable pub checked : Poller → String → String → Poller
unfolding record_fingerprint
checked p uri next =
    if has_changed (JsMap.get p.fingerprints uri) next
    then record p { log = uri ∷ p.log }
    else record_fingerprint p uri next

unfoldable pub begin_tick : Poller → Poller
begin_tick p = if p.running then p else record p { running = true; polling = p.polling + 1 }

unfoldable pub end_tick : Poller → Poller
end_tick p = record p { running = false; polling = p.polling - 1 }

pub data Step : Poller → Poller → Type 0 where
  subscribed : (p : Poller) (uri : String) → Step p (subscribe p uri)
  unsubscribed : (p : Poller) (uri : String) → Step p (unsubscribe p uri)
  stopped : (p : Poller) → Step p (stop p)
  check_answered : (p : Poller) (uri next : String) → Step p (checked p uri next)
  notified : (p : Poller) (uri next : String) → Step p (record_fingerprint p uri next)
  tick_begun : (p : Poller) → Step p (begin_tick p)
  tick_ended : (p : Poller) → 0 < p.polling → Step p (end_tick p)

abbrev pub bit : Bool → ℕ
bit true = 1
bit false = 0

pub record IsTimed (p : Poller) : Type 0 where
  pub timed : p.timer ≡ not (is_empty p.fingerprints)
  pub one_round : p.polling ≡ bit p.running

put_filled :
    (m : JsMap String (Option String)) (k : String) (v : Option String)
    → is_empty (JsMap.put m k v) ≡ false
unfolding JsMap.put
put_filled [] k v = refl
put_filled ((j, w) ∷ m) k v = ground arith

known_filled :
    (m : JsMap String (Option String)) (k : String)
    → is_known (JsMap.get m k) ≡ true
    → is_empty m ≡ false
unfolding JsMap.get
known_filled [] k h = cc
known_filled ((j, w) ∷ m) k h = refl

delete_empty :
    (m : JsMap String (Option String)) (k : String)
    → is_empty m ≡ true
    → is_empty (JsMap.delete m k) ≡ true
unfolding JsMap.delete
delete_empty [] k h = refl
delete_empty (e ∷ m) k h = cc

record_fingerprint-IsTimed :
    (p : Poller) (uri next : String) → IsTimed p → IsTimed (record_fingerprint p uri next)
unfolding record_fingerprint
record_fingerprint-IsTimed p uri next t =
    ground (arith, put_filled p.fingerprints uri (some next), known_filled p.fingerprints uri)

Step-IsTimed : {p q : Poller} → Step p q → IsTimed p → IsTimed q
unfolding subscribe unsubscribe stop checked begin_tick end_tick
Step-IsTimed (subscribed p uri) t = ground (arith, put_filled p.fingerprints uri none)
Step-IsTimed (unsubscribed p uri) t = ground (arith, delete_empty p.fingerprints uri)
Step-IsTimed (stopped p) t = ground arith
Step-IsTimed (check_answered p uri next) t = ground (arith, record_fingerprint-IsTimed p uri next t)
Step-IsTimed (notified p uri next) t = record_fingerprint-IsTimed p uri next t
Step-IsTimed (tick_begun p) t = ground arith
Step-IsTimed (tick_ended p some_round) t = ground arith

create-IsTimed : IsTimed create_alert_poller
unfolding create_alert_poller
create-IsTimed = ground arith

-- After any calls, answers and ticks on a new poller, the timer runs exactly while some URI is
-- subscribed to, and at most one polling round runs.
pub timer_exact :
    {p : Poller}
    → Run Step create_alert_poller p
    → (p.timer ≡ not (is_empty p.fingerprints)) × (p.polling ≤ 1)
timer_exact r =
    let t = Run-keeps IsTimed (λ p q step. Step-IsTimed step) create-IsTimed r in
    (t.timed, ground arith)
