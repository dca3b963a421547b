-- ===== src/AuthServer/Grants/Removal.antt =====
-- What `remove` of auth/server/zendesk-grant.ts leaves behind.
use zendesk_mcp_server.Base.{
  ℕ, ◌<◌, String, ◌≡◌, refl, sym, ap, inl, inr, Bool, true, false, none, arith, eq_iff, nat_beq_iff,
  Bool-cases, ◌==◌, number_key, text_key, Result, ok, err, Run, Run-keeps,
}
use zendesk_mcp_server.Base.JsMap
use zendesk_mcp_server.Base.JsMap.{JsMap, get-put, get-delete}
use zendesk_mcp_server.AuthServer.KeyLock
use zendesk_mcp_server.AuthServer.KeyLock.{
  KeyLock, create_key_lock, with_lock, begin_job, settle_job, clean_up,
}
use zendesk_mcp_server.AuthServer.Grants.{
  ZendeskTokenSet, UpstreamError, Grants, Work, access_queued, removal_queued, reading, refreshing,
  storing, dropping, removing, answered, removed, Decision, answer, refresh_with,
  create_zendesk_grants, save, enqueue, access_token, remove, begin, begun, finish, decided,
  decide_access, read_record, refreshed, is_refusal, written, write_done, lapse, Step, saved,
  lapsed, asked, removal_asked, began, read, replied, wrote, cleaned,
}
use zendesk_mcp_server.AuthServer.Grants.Serial.{
  is_active, IsSerial, Run-IsSerial, active_alone, clean_up-jobs, clean_up-count,
}

-- A step that saves tokens for the grant from outside.
abbrev pub saves_for : {g h : Grants} → String → Step g h → Bool
saves_for k (saved g grant_id tokens) = grant_id == k
saves_for k _ = false

abbrev pub StepWithoutSave : String → Grants → Grants → Type 0
StepWithoutSave k g h = (step : Step g h) × (saves_for k step ≡ false)

-- a refresh in flight, or its tokens on the way to the store
abbrev refreshes : Work → Bool
refreshes (refreshing token) = true
refreshes (storing fresh) = true
refreshes _ = false

record IsGone (k : String) (g : Grants) : Type 0 where
  absent : JsMap.get g.records k ≡ none
  quiet : (i : ℕ) → i < g.lock.count → (g.lock.jobs i).key ≡ k → refreshes (g.work i) ≡ false

enqueue-IsGone :
    (k : String) (g : Grants) (grant_id : String) (work : Work)
    → refreshes work ≡ false
    → IsGone k g
    → IsGone k (enqueue g grant_id work)
enqueue-IsGone k g grant_id work idle s = record {
  absent = s.absent;
  quiet = λ i lt own. unfold with_lock in ground (arith, s.quiet i);
}

begun-quiet : (w : Work) → refreshes w ≡ false → refreshes (begun w) ≡ false
begun-quiet access_queued h = refl
begun-quiet removal_queued h = refl
begun-quiet reading h = refl
begun-quiet (refreshing token) h = h
begun-quiet (storing fresh) h = h
begun-quiet dropping h = refl
begun-quiet removing h = refl
begun-quiet (answered result) h = refl
begun-quiet removed h = refl

begin-IsGone : (k : String) (g : Grants) (i : ℕ) → IsGone k g → IsGone k (begin g i)
unfolding begin
begin-IsGone k g i s = record {
  absent = s.absent;
  quiet = λ j lt own. unfold begin_job in ground (arith, s.quiet j, begun-quiet (g.work i));
}

finish-IsGone :
    (k : String) (g : Grants) (i : ℕ) (work : Work)
    → refreshes work ≡ false
    → IsGone k g
    → IsGone k (finish g i work)
finish-IsGone k g i work idle s = record {
  absent = s.absent;
  quiet = λ j lt own. unfold settle_job in ground (arith, s.quiet j);
}

-- a job of another grant, or one that does not refresh, goes on
work-IsGone :
    (k : String) (g : Grants) (i : ℕ) (work : Work)
    → ((g.lock.jobs i).key ≡ k → refreshes work ≡ false)
    → IsGone k g
    → IsGone k (record g { work = KeyLock.update g.work i work })
work-IsGone k g i work idle s = record {
  absent = s.absent;
  quiet = λ j lt own.
      ground (arith, s.quiet j, nat_beq_iff i j, ap (λ n. (g.lock.jobs n).key) {x = i} {y = j});
}

records-IsGone :
    (k : String) (g : Grants) (records : JsMap String ZendeskTokenSet)
    → JsMap.get records k ≡ none
    → IsGone k g
    → IsGone k (record g { records = records })
records-IsGone k g records none_there s = record { absent = none_there; quiet = s.quiet }

put_absent :
    (k : String) (g : Grants) (grant_id : String) (tokens : ZendeskTokenSet)
    → (grant_id ≡ k → ⊥)
    → IsGone k g
    → JsMap.get (JsMap.put g.records grant_id tokens) k ≡ none
put_absent k g grant_id tokens other s =
    ground (arith, get-put g.records grant_id k tokens, eq_iff grant_id k, s.absent)

deleted_absent :
    (k : String) (g : Grants) (grant_id : String)
    → IsGone k g
    → JsMap.get (JsMap.delete g.records grant_id) k ≡ none
deleted_absent k g grant_id s = ground (arith, get-delete g.records grant_id k, s.absent)

decided-IsGone :
    (k : String) (g : Grants) (i : ℕ) (d : Decision)
    → ((g.lock.jobs i).key ≡ k → ⊥)
    → IsGone k g
    → IsGone k (decided g i d)
decided-IsGone k g i (answer result) other s = finish-IsGone k g i (answered result) refl s
decided-IsGone k g i (refresh_with token) other s =
    work-IsGone k g i (refreshing token) (λ own. absurd (other own)) s

-- A call that finds no record answers that the grant is unavailable.
read-IsGone : (k : String) (g : Grants) (i now : ℕ) → IsGone k g → IsGone k (read_record g i now)
unfolding read_record decide_access
read-IsGone k g i now s = elim (Bool-cases ((g.lock.jobs i).key == k)) [
  | inl own ↦
      let missing : JsMap.get g.records (g.lock.jobs i).key ≡ none =
        rw ((eq_iff (g.lock.jobs i).key k).0 own) s.absent in
      rw missing (finish-IsGone k g i (answered (err _)) refl s)
  | inr other ↦ decided-IsGone k g i _ (λ own. ground (arith, eq_iff (g.lock.jobs i).key k)) s
]

refreshed-IsGone :
    (k : String) (g : Grants) (i : ℕ) (token : String)
    (reply : Result UpstreamError ZendeskTokenSet)
    → i < g.lock.count
    → g.work i ≡ refreshing token
    → IsGone k g
    → IsGone k (refreshed g i reply)
unfolding refreshed
refreshed-IsGone k g i token (ok fresh) made waits s =
    work-IsGone k g i (storing fresh) (λ own. absurd (cc (ap refreshes waits, s.quiet i made own)))
      s
refreshed-IsGone k g i token (err e) made waits s = elim (Bool-cases (is_refusal e)) [
  | inl refused ↦ rw refused (work-IsGone k g i dropping (λ own. refl) s)
  | inr outage ↦ rw outage (finish-IsGone k g i _ refl s)
]

written-IsGone :
    (k : String) (g : Grants) (i : ℕ) (grant_id : String) (work : Work)
    → (grant_id ≡ k → refreshes work ≡ false)
    → IsGone k g
    → IsGone k (written g i grant_id work)
written-IsGone k g i grant_id (storing fresh) idle s =
    finish-IsGone k _ i _ refl
      (records-IsGone k g _ (put_absent k g grant_id fresh (λ own. absurd (cc (idle own))) s) s)
written-IsGone k g i grant_id dropping idle s =
    finish-IsGone k _ i _ refl (records-IsGone k g _ (deleted_absent k g grant_id s) s)
written-IsGone k g i grant_id removing idle s =
    finish-IsGone k _ i _ refl (records-IsGone k g _ (deleted_absent k g grant_id s) s)
written-IsGone k g i grant_id access_queued idle s = s
written-IsGone k g i grant_id removal_queued idle s = s
written-IsGone k g i grant_id reading idle s = s
written-IsGone k g i grant_id (refreshing token) idle s = s
written-IsGone k g i grant_id (answered result) idle s = s
written-IsGone k g i grant_id removed idle s = s

clean-IsGone :
    (k : String) (g : Grants) (i : ℕ)
    → IsGone k g
    → IsGone k (record g { lock = clean_up g.lock i })
clean-IsGone k g i s = record {
  absent = s.absent;
  quiet = λ j lt own.
      s.quiet j (ground (arith, clean_up-count g.lock i)) (rw (sym (clean_up-jobs g.lock i)) own);
}

Step-IsGone : (k : String) {g h : Grants} → StepWithoutSave k g h → IsGone k g → IsGone k h
unfolding save lapse access_token remove write_done
Step-IsGone k (saved g grant_id tokens, other) s =
    records-IsGone k g _
      (put_absent k g grant_id tokens (λ own. ground (arith, eq_iff grant_id k)) s) s
Step-IsGone k (lapsed g grant_id, other) s = records-IsGone k g _ (deleted_absent k g grant_id s) s
Step-IsGone k (asked g grant_id, other) s = enqueue-IsGone k g grant_id access_queued refl s
Step-IsGone k (removal_asked g grant_id, other) s =
    enqueue-IsGone k g grant_id removal_queued refl s
Step-IsGone k (began g i made waits due, other) s = begin-IsGone k g i s
Step-IsGone k (read g i now made reads, other) s = read-IsGone k g i now s
Step-IsGone k (replied g i token reply made waits, other) s =
    refreshed-IsGone k g i token reply made waits s
Step-IsGone k (wrote g i made runs, other) s =
    written-IsGone k g i (g.lock.jobs i).key (g.work i) (s.quiet i made) s
Step-IsGone k (cleaned g i made done, other) s = clean-IsGone k g i s

refreshes-is_active : (w : Work) → refreshes w ≡ true → is_active w ≡ true
refreshes-is_active (refreshing token) h = refl
refreshes-is_active (storing fresh) h = refl
refreshes-is_active access_queued h = cc
refreshes-is_active removal_queued h = cc
refreshes-is_active reading h = refl
refreshes-is_active dropping h = refl
refreshes-is_active removing h = refl
refreshes-is_active (answered result) h = cc
refreshes-is_active removed h = cc

removing_alone :
    (g : Grants) (i j : ℕ)
    → IsSerial g
    → i < g.lock.count
    → g.work i ≡ removing
    → j < g.lock.count
    → (g.lock.jobs j).key ≡ (g.lock.jobs i).key
    → refreshes (KeyLock.update g.work i removed j) ≡ false
removing_alone g i j s made runs made' same = elim (Bool-cases (refreshes (g.work j))) [
  | inl busy ↦
      let one =
        active_alone g i j s made made' (sym same) (rw runs refl)
          (refreshes-is_active (g.work j) busy) in
      ground arith
  | inr idle ↦ ground arith
]

-- While the removal runs, no other call for the grant does.
removal-IsGone :
    (g : Grants) (i : ℕ)
    → IsSerial g
    → i < g.lock.count
    → g.work i ≡ removing
    → IsGone (g.lock.jobs i).key (write_done g i)
unfolding write_done settle_job
removal-IsGone g i s made runs = rw runs (record {
  absent = ground (
    arith,
    get-delete g.records (g.lock.jobs i).key (g.lock.jobs i).key,
    eq_iff (g.lock.jobs i).key (g.lock.jobs i).key,
  );
  quiet = λ j lt own. removing_alone g i j s made runs lt (ground arith);
})

-- After `remove` of a grant has ended, no tokens of the grant are stored until a `save` for it: no
-- refresh, running or queued before the removal or asked for after it, writes them back.
pub removed_stays_gone :
    (margin : ℕ) (records : JsMap String ZendeskTokenSet) {g h : Grants} (i : ℕ)
    → Run Step (create_zendesk_grants margin records) g
    → i < g.lock.count
    → g.work i ≡ removing
    → Run (StepWithoutSave (g.lock.jobs i).key) (write_done g i) h
    → JsMap.get h.records (g.lock.jobs i).key ≡ none
removed_stays_gone margin records {g} i run made runs later =
    (Run-keeps (IsGone (g.lock.jobs i).key) (λ a b step. Step-IsGone (g.lock.jobs i).key step)
      (removal-IsGone g i (Run-IsSerial margin records run) made runs) later).absent
