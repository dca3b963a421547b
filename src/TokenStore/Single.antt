-- ===== src/TokenStore/Single.antt =====
-- The calls, timer ticks and answers of auth/token-store.ts as steps that interleave.
use zendesk_mcp_server.Base.{
  Run, at_start, then_step, Run-keeps, ℕ, suc, ◌+◌, ◌≤◌, ◌<◌, String, ◌≡◌, refl, sym, ap, ◌∙◌, ◌⊎◌,
  inl, inr, Bool, true, false, Option, none, some, List, ◌∷◌, ◌++◌, arith, Bool-cases, length,
  length-append, number_key, text_key,
}
use zendesk_mcp_server.TokenStore.{
  PersistedToken, Refresh, Store, TokenResponse, create_token_store, set_token, needs_refresh,
  refresh_if_possible, serve_token, token_without_prompt, end_refresh, finish_refresh,
  scheduled_refresh, prompt, flow_listening, flow_not_started, flow_settled, invalidate,
}

abbrev pub bit : Bool → ℕ
bit true = 1
bit false = 0

pub record IsSingle (s : Store) : Type 0 where
  pub one_refresh : length s.refreshes ≡ bit s.refreshing
  pub one_flow : s.flows ≡ bit s.starting
  pub mirrored : s.writable ≡ true → (s.token ≡ none) ⊎ (s.token ≡ s.disk)

-- A piece of a call, a tick of the timer, or an answer. A refresh in flight ends once, and a flow
-- ends only while one is in flight.
pub data Step : Store → Store → Type 0 where
  asked : (s : Store) (now : ℕ) → Step s (token_without_prompt s now).0
  prompted : (s : Store) → Step s (prompt s)
  ticked : (s : Store) → Step s (scheduled_refresh s s.token)
  finished :
      (s : Store) (before : List Refresh) (job : Refresh) (after : List Refresh) (now : ℕ)
      (result : Option TokenResponse)
      → s.refreshes ≡ before ++ (job ∷ after)
      → Step s (finish_refresh s before (job ∷ after) now result)
  listening : (s : Store) (url : String) → Step s (flow_listening s url)
  not_started : (s : Store) → 0 < s.flows → Step s (flow_not_started s)
  settled :
      (s : Store) (now : ℕ) (result : Option TokenResponse)
      → 0 < s.flows
      → Step s (flow_settled s now result)
  installed :
      (s : Store) (access : String) (refresh : Option String) → Step s (set_token s access refresh)
  invalidated : (s : Store) → Step s (invalidate s)

refresh_if_possible-IsSingle :
    (s : Store) (o : Option PersistedToken) → IsSingle s → IsSingle (refresh_if_possible s o).0
unfolding refresh_if_possible
refresh_if_possible-IsSingle s none i = i
refresh_if_possible-IsSingle s (some t) i = ground arith

serve_token-IsSingle :
    (s : Store) (now : ℕ) (o : Option PersistedToken)
    → IsSingle s
    → IsSingle (serve_token s now o).0
unfolding serve_token
serve_token-IsSingle s now none i = refresh_if_possible-IsSingle s none i
serve_token-IsSingle s now (some t) i = elim (Bool-cases (needs_refresh s now t)) [
  | inl stale ↦ rw stale (refresh_if_possible-IsSingle s (some t) i)
  | inr fresh ↦ rw fresh i
]

end_refresh-kept :
    (s : Store) (job : Refresh) (now : ℕ) (result : Option TokenResponse)
    → IsSingle s
    → let t = end_refresh s job now result in
      (t.flows ≡ s.flows)
      × (t.starting ≡ s.starting)
      × (t.writable ≡ true → (t.token ≡ none) ⊎ (t.token ≡ t.disk))
end_refresh-kept s job now none i = (ground arith, ground arith, ground arith)
end_refresh-kept s job now (some result) i = (refl, refl, ground arith)

-- The refresh that ends was the only one.
finish_refresh-IsSingle :
    (s : Store) (before : List Refresh) (job : Refresh) (after : List Refresh) (now : ℕ)
    (result : Option TokenResponse)
    → s.refreshes ≡ before ++ (job ∷ after)
    → IsSingle s
    → IsSingle (finish_refresh s before (job ∷ after) now result)
unfolding finish_refresh
finish_refresh-IsSingle s before job after now result shape i =
    let (flows, starting, mirrored) = end_refresh-kept s job now result i in
    let two : length s.refreshes ≡ length before + suc (length after) =
      rw shape (length-append before (job ∷ after)) in
    record {
      one_refresh = ground (arith, i.one_refresh, two, length-append before after);
      one_flow = flows ∙ i.one_flow ∙ ap bit (sym starting);
      mirrored = mirrored;
    }

Step-IsSingle : {s t : Store} → Step s t → IsSingle s → IsSingle t
unfolding token_without_prompt prompt scheduled_refresh flow_listening flow_not_started flow_settled
    set_token invalidate
Step-IsSingle (asked s now) i = serve_token-IsSingle s now s.token i
Step-IsSingle (prompted s) i = ground arith
Step-IsSingle (ticked s) i = ground arith
Step-IsSingle (finished s before job after now result shape) i =
    finish_refresh-IsSingle s before job after now result shape i
Step-IsSingle (listening s url) i = ground arith
Step-IsSingle (not_started s running) i = ground arith
Step-IsSingle (settled s now none running) i = ground arith
Step-IsSingle (settled s now (some result) running) i = ground arith
Step-IsSingle (installed s access refresh) i = ground arith
Step-IsSingle (invalidated s) i = ground arith

Run-IsSingle : {s t : Store} → IsSingle s → Run Step s t → IsSingle t
Run-IsSingle = Run-keeps IsSingle (λ s t step. Step-IsSingle step)

create-IsSingle :
    (read_only writable : Bool) (loaded : Option PersistedToken)
    → IsSingle (create_token_store read_only writable loaded)
unfolding create_token_store
create-IsSingle read_only writable none = ground arith
create-IsSingle read_only writable (some t) = ground arith

-- Whatever calls, timer ticks and answers interleave, at most one refresh is in flight: two would
-- each use up the refresh token of the other.
pub one_refresh_in_flight :
    (read_only writable : Bool) (loaded : Option PersistedToken) {s : Store}
    → Run Step (create_token_store read_only writable loaded) s
    → length s.refreshes ≤ 1
one_refresh_in_flight read_only writable loaded r =
    ground (arith, (Run-IsSingle (create-IsSingle read_only writable loaded) r).one_refresh)

-- At most one browser flow is in flight.
pub one_flow_in_flight :
    (read_only writable : Bool) (loaded : Option PersistedToken) {s : Store}
    → Run Step (create_token_store read_only writable loaded) s
    → s.flows ≤ 1
one_flow_in_flight read_only writable loaded r =
    ground (arith, (Run-IsSingle (create-IsSingle read_only writable loaded) r).one_flow)

writable_kept : {s t : Store} → Step s t → t.writable ≡ s.writable
unfolding token_without_prompt serve_token prompt scheduled_refresh finish_refresh flow_listening
    flow_not_started flow_settled set_token invalidate
writable_kept (asked s now) = ground arith
writable_kept (prompted s) = ground arith
writable_kept (ticked s) = ground arith
writable_kept (finished s before job after now none shape) = ground arith
writable_kept (finished s before job after now (some result) shape) = refl
writable_kept (listening s url) = refl
writable_kept (not_started s running) = refl
writable_kept (settled s now none running) = refl
writable_kept (settled s now (some result) running) = refl
writable_kept (installed s access refresh) = refl
writable_kept (invalidated s) = ground arith

Run-writable : {s t : Store} → Run Step s t → t.writable ≡ s.writable
Run-writable at_start = refl
Run-writable (then_step r step) = writable_kept step ∙ Run-writable r

-- While the token file can be written, a token in memory is also in the file, so that a restart
-- finds it.
pub token_on_disk :
    (read_only : Bool) (loaded : Option PersistedToken) {s : Store} (t : PersistedToken)
    → Run Step (create_token_store read_only true loaded) s
    → s.token ≡ some t
    → s.disk ≡ some t
unfolding create_token_store
token_on_disk read_only loaded t r h =
    ground
      (arith, (Run-IsSingle (create-IsSingle read_only true loaded) r).mirrored, Run-writable r)
