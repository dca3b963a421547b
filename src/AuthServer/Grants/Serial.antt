-- ===== src/AuthServer/Grants/Serial.antt =====
-- The calls for one grant of auth/server/zendesk-grant.ts under the key lock.
use zendesk_mcp_server.Base.{
  ℕ, ◌<◌, String, ◌≡◌, refl, sym, ◌≢◌, inl, inr, Bool, true, false, Option, none, some, arith,
  Bool-cases, number_key, text_key, Result, ok, err, Run, Run-keeps,
}
use zendesk_mcp_server.Base.JsMap
use zendesk_mcp_server.AuthServer.KeyLock.{
  Status, waiting, running, settled, KeyLock, create_key_lock, with_lock, is_due, begin_job,
  settle_job, clean_up,
}
use zendesk_mcp_server.AuthServer.KeyLock
use zendesk_mcp_server.AuthServer.KeyLock.Chained.{IsChained, Step-IsChained, create-IsChained}
use zendesk_mcp_server.AuthServer.Grants.{
  ZendeskTokenSet, Grants, Work, access_queued, removal_queued, reading, refreshing, storing,
  dropping, removing, answered, removed, Decision, answer, refresh_with, create_zendesk_grants,
  save, enqueue, access_token, remove, begin, finish, decided, decide_access, read_record,
  refreshed, is_refusal, written, write_done, lapse, Step, saved, lapsed, asked, removal_asked,
  began, read, replied, wrote, cleaned,
}

-- past the queue and not done
abbrev pub is_active : Work → Bool
is_active access_queued = false
is_active removal_queued = false
is_active (answered result) = false
is_active removed = false
is_active _ = true

pub record IsSerial (g : Grants) : Type 0 where
  pub chained : IsChained g.lock
  pub active :
      (i : ℕ) → i < g.lock.count → is_active (g.work i) ≡ true → (g.lock.jobs i).status ≡ running

create-IsSerial :
    (margin : ℕ) (records : JsMap.JsMap String ZendeskTokenSet)
    → IsSerial (create_zendesk_grants margin records)
unfolding create_zendesk_grants create_key_lock
create-IsSerial margin records = record {
  chained = create-IsChained;
  active = λ i lt h. absurd (omega arith);
}

enqueue-IsSerial :
    (g : Grants) (grant_id : String) (work : Work)
    → is_active work ≡ false
    → IsSerial g
    → IsSerial (enqueue g grant_id work)
enqueue-IsSerial g grant_id work idle s = record {
  chained = Step-IsChained (KeyLock.called g.lock grant_id) s.chained;
  active = λ i lt h. unfold with_lock in ground (arith, s.active i);
}

begin-IsSerial :
    (g : Grants) (i : ℕ)
    → i < g.lock.count
    → (g.lock.jobs i).status ≡ waiting
    → is_due g.lock (g.lock.jobs i).after ≡ true
    → IsSerial g
    → IsSerial (begin g i)
unfolding begin
begin-IsSerial g i made waits due s = record {
  chained = Step-IsChained (KeyLock.began g.lock i made waits due) s.chained;
  active = λ j lt h. unfold begin_job in ground (arith, s.active j);
}

-- a job that goes on, and one that is done
work-IsSerial :
    (g : Grants) (i : ℕ) (work : Work)
    → is_active (g.work i) ≡ true
    → IsSerial g
    → IsSerial (record g { work = KeyLock.update g.work i work })
work-IsSerial g i work busy s = record {
  chained = s.chained;
  active = λ j lt h. ground (arith, s.active j);
}

finish-IsSerial :
    (g : Grants) (i : ℕ) (work : Work)
    → i < g.lock.count
    → (g.lock.jobs i).status ≡ running
    → is_active work ≡ false
    → IsSerial g
    → IsSerial (finish g i work)
finish-IsSerial g i work made runs idle s = record {
  chained = Step-IsChained (KeyLock.ended g.lock i made runs) s.chained;
  active = λ j lt h. unfold settle_job in ground (arith, s.active j);
}

records-IsSerial :
    (g : Grants) (records : JsMap.JsMap String ZendeskTokenSet)
    → IsSerial g
    → IsSerial (record g { records = records })
records-IsSerial g records s = record { chained = s.chained; active = s.active }

decided-IsSerial :
    (g : Grants) (i : ℕ) (d : Decision)
    → i < g.lock.count
    → is_active (g.work i) ≡ true
    → IsSerial g
    → IsSerial (decided g i d)
decided-IsSerial g i (answer result) made busy s =
    finish-IsSerial g i (answered result) made (s.active i made busy) refl s
decided-IsSerial g i (refresh_with token) made busy s = work-IsSerial g i (refreshing token) busy s

refreshed-IsSerial :
    (g : Grants) (i : ℕ) (reply : Result _ ZendeskTokenSet)
    → i < g.lock.count
    → is_active (g.work i) ≡ true
    → IsSerial g
    → IsSerial (refreshed g i reply)
unfolding refreshed
refreshed-IsSerial g i (ok fresh) made busy s = work-IsSerial g i (storing fresh) busy s
refreshed-IsSerial g i (err e) made busy s = elim (Bool-cases (is_refusal e)) [
  | inl refused ↦ rw refused (work-IsSerial g i dropping busy s)
  | inr outage ↦ rw outage (finish-IsSerial g i _ made (s.active i made busy) refl s)
]

written-IsSerial :
    (g : Grants) (i : ℕ) (grant_id : String) (work : Work)
    → i < g.lock.count
    → (g.lock.jobs i).status ≡ running
    → IsSerial g
    → IsSerial (written g i grant_id work)
written-IsSerial g i grant_id (storing fresh) made runs s =
    finish-IsSerial _ i _ made runs refl (records-IsSerial g _ s)
written-IsSerial g i grant_id dropping made runs s =
    finish-IsSerial _ i _ made runs refl (records-IsSerial g _ s)
written-IsSerial g i grant_id removing made runs s =
    finish-IsSerial _ i _ made runs refl (records-IsSerial g _ s)
written-IsSerial g i grant_id access_queued made runs s = s
written-IsSerial g i grant_id removal_queued made runs s = s
written-IsSerial g i grant_id reading made runs s = s
written-IsSerial g i grant_id (refreshing token) made runs s = s
written-IsSerial g i grant_id (answered result) made runs s = s
written-IsSerial g i grant_id removed made runs s = s

drop_tail-jobs :
    (l : KeyLock) (key : String) (i : ℕ) (o : Option ℕ)
    → (KeyLock.drop_tail l key i o).jobs ≡ l.jobs
drop_tail-jobs l key i none = refl
drop_tail-jobs l key i (some t) = ground arith

drop_tail-count :
    (l : KeyLock) (key : String) (i : ℕ) (o : Option ℕ)
    → (KeyLock.drop_tail l key i o).count ≡ l.count
drop_tail-count l key i none = refl
drop_tail-count l key i (some t) = ground arith

pub clean_up-jobs : (l : KeyLock) (i : ℕ) → (clean_up l i).jobs ≡ l.jobs
unfolding clean_up
clean_up-jobs l i = drop_tail-jobs l (l.jobs i).key i (JsMap.get l.tails (l.jobs i).key)

pub clean_up-count : (l : KeyLock) (i : ℕ) → (clean_up l i).count ≡ l.count
unfolding clean_up
clean_up-count l i = drop_tail-count l (l.jobs i).key i (JsMap.get l.tails (l.jobs i).key)

clean-IsSerial :
    (g : Grants) (i : ℕ)
    → i < g.lock.count
    → (g.lock.jobs i).status ≡ settled
    → IsSerial g
    → IsSerial (record g { lock = clean_up g.lock i })
clean-IsSerial g i made done s = record {
  chained = Step-IsChained (KeyLock.cleaned g.lock i made done) s.chained;
  active = λ j lt h.
      rw (clean_up-jobs g.lock i) (s.active j (ground (arith, clean_up-count g.lock i)) h);
}

pub Step-IsSerial : {g h : Grants} → Step g h → IsSerial g → IsSerial h
unfolding save lapse access_token remove read_record write_done
Step-IsSerial (saved g grant_id tokens) s = records-IsSerial g _ s
Step-IsSerial (lapsed g grant_id) s = records-IsSerial g _ s
Step-IsSerial (asked g grant_id) s = enqueue-IsSerial g grant_id access_queued refl s
Step-IsSerial (removal_asked g grant_id) s = enqueue-IsSerial g grant_id removal_queued refl s
Step-IsSerial (began g i made waits due) s = begin-IsSerial g i made waits due s
Step-IsSerial (read g i now made reads) s =
    decided-IsSerial g i (decide_access (JsMap.get g.records (g.lock.jobs i).key) now g.margin) made
      (rw reads refl) s
Step-IsSerial (replied g i token reply made waits) s =
    refreshed-IsSerial g i reply made (rw waits refl) s
Step-IsSerial (wrote g i made runs) s =
    written-IsSerial g i (g.lock.jobs i).key (g.work i) made runs s
Step-IsSerial (cleaned g i made done) s = clean-IsSerial g i made done s

pub Run-IsSerial :
    (margin : ℕ) (records : JsMap.JsMap String ZendeskTokenSet) {g : Grants}
    → Run Step (create_zendesk_grants margin records) g
    → IsSerial g
Run-IsSerial margin records run =
    Run-keeps IsSerial (λ a b step. Step-IsSerial step) (create-IsSerial margin records) run

both_run : {s : Status} → s ≡ settled → s ≡ running → ⊥
both_run h r = cc

pub active_alone :
    (g : Grants) (i j : ℕ)
    → IsSerial g
    → i < g.lock.count
    → j < g.lock.count
    → (g.lock.jobs i).key ≡ (g.lock.jobs j).key
    → is_active (g.work i) ≡ true
    → is_active (g.work j) ≡ true
    → i ≡ j
active_alone g i j s made made' same busy busy' =
    let runs = s.active i made busy in
    let runs' = s.active j made' busy' in
    let not_before : i < j → ⊥ =
      λ lt. both_run (s.chained.in_turn i j (lt, made', same) (λ h. cc)) runs in
    let not_after : j < i → ⊥ =
      λ lt. both_run (s.chained.in_turn j i (lt, made, sym same) (λ h. cc)) runs' in
    ground (arith, not_before, not_after)

-- Of the calls for one grant, at most one is past the queue and not done, whatever interleaves: no
-- two refreshes of a grant are in flight, which would spend the same refresh token, and no removal
-- runs beside a refresh.
pub one_call_per_grant :
    (margin : ℕ) (records : JsMap.JsMap String ZendeskTokenSet) {g : Grants} (i j : ℕ)
    → Run Step (create_zendesk_grants margin records) g
    → i < g.lock.count
    → j < g.lock.count
    → i ≢ j
    → (g.lock.jobs i).key ≡ (g.lock.jobs j).key
    → is_active (g.work i) ≡ true
    → is_active (g.work j) ≡ false
one_call_per_grant margin records {g} i j run made made' apart same busy =
    elim (Bool-cases (is_active (g.work j))) [
      | inl busy' ↦
          absurd (
            apart (active_alone g i j (Run-IsSerial margin records run) made made' same busy busy'))
      | inr idle ↦ idle
    ]
