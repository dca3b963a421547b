-- ===== src/AuthServer/FileStore/Restarts.antt =====
-- Restarts of the file store of auth/server/file-store.ts.
use zendesk_mcp_server.Base.{
  ℕ, ◌≤◌, String, ◌≡◌, refl, sym, ap, ◌∙◌, inl, inr, Bool, true, Option, none, some, List, [], ◌∷◌,
  arith, Bool-cases, Option-cases, ◌==◌, number_key, text_key, Result, ok, err,
}
use mathlib.Core.Path.{subst}
use zendesk_mcp_server.Base.Int.{ℤ}
use zendesk_mcp_server.Base.JsMap
use zendesk_mcp_server.Base.JsMap.{
  JsMap, get-put, get-delete, IsKeyed, IsKeyed-put, IsKeyed-delete, delete_absent,
}
use zendesk_mcp_server.AuthServer.FileStore.{
  FileStore, StoredEntry, stored_until, FileValue, File, absent, unreadable, corrupt, not_object,
  object_file, StoreError, live_value, get, set_entry, load_entries, load, persist, set, delete,
  PathStatus, assert_writable, create_file_store, open_checked,
}
use zendesk_mcp_server.AuthServer.FileStore.Saving.{
  loaded_value, get-load_entries, IsKeyed-load_entries, get-live_entries, IsKeyed-live_entries,
  load-later, load-save,
}

-- The calls, each with its time; a restart reads the file again.
pub data Call : Type 0 where
  set_call : String → String → Option ℤ → Call
  delete_call : String → Call
  restart : Call

abbrev pub restarted : FileStore → Result StoreError (JsMap String StoredEntry) → FileStore
restarted s (ok entries) = record s { entries = entries }
restarted s (err e) = record s { entries = [] }

abbrev pub file_call : FileStore → ℕ → Call → FileStore
file_call s now (set_call key value ttl_ms) = (set s key value ttl_ms now true).0
file_call s now (delete_call key) = (delete s key now true).0
file_call s now restart = restarted s (load s.file now)

-- a store that is never restarted
abbrev pub memory_call : JsMap String StoredEntry → ℕ → Call → JsMap String StoredEntry
memory_call m now (set_call key value ttl_ms) = set_entry m key value ttl_ms now
memory_call m now (delete_call key) = JsMap.delete m key
memory_call m now restart = m

unfoldable pub run_file : FileStore → List (ℕ × Call) → FileStore
run_file s [] = s
run_file s ((now, call) ∷ calls) = run_file (file_call s now call) calls

unfoldable pub run_memory : JsMap String StoredEntry → List (ℕ × Call) → JsMap String StoredEntry
run_memory m [] = m
run_memory m ((now, call) ∷ calls) = run_memory (memory_call m now call) calls

-- The clock does not go back, and `end` is no earlier than any call.
abbrev pub InOrder : ℕ → List (ℕ × Call) → ℕ → Type 0
InOrder now [] end = now ≤ end
InOrder now ((at, call) ∷ calls) end = (now ≤ at) × InOrder at calls end

abbrev contents : File → JsMap String FileValue
contents (object_file values) = values
contents _ = []

record IsSaved (s : FileStore) (m : JsMap String StoredEntry) (now : ℕ) : Type 0 where
  keyed : IsKeyed s.entries
  keyed_file : IsKeyed (contents s.file)
  loads : (b : ℕ) → load s.file b ≡ ok (load_entries (contents s.file) b)
  on_disk :
      (k : String) (b t : ℕ)
      → b ≤ t
      → now ≤ t
      → live_value (loaded_value (JsMap.get (contents s.file) k) b) t ≡ get s.entries k t
  agrees : (k : String) (t : ℕ) → now ≤ t → get s.entries k t ≡ get m k t

get_same :
    (m n : JsMap String StoredEntry) (k : String) (t : ℕ)
    → JsMap.get m k ≡ JsMap.get n k
    → get m k t ≡ get n k t
unfolding get
get_same m n k t h = ap (λ o. live_value o t) h

persist-IsSaved :
    (file : File) (entries m : JsMap String StoredEntry) (now : ℕ)
    → IsKeyed entries
    → ((k : String) (t : ℕ) → now ≤ t → get entries k t ≡ get m k t)
    → IsSaved (persist (record { entries = entries; file = file }) now true).0 m now
unfolding persist load get
persist-IsSaved file entries m now keyed agrees = record {
  keyed = keyed;
  keyed_file = IsKeyed-live_entries entries now keyed;
  loads = λ b. refl;
  on_disk = λ k b t later after.
      rw (get-live_entries entries now k keyed)
        (load-save (JsMap.get entries k) now b t after later);
  agrees = agrees;
}

later-IsSaved :
    (s : FileStore) (m : JsMap String StoredEntry) (a b : ℕ) → a ≤ b → IsSaved s m a → IsSaved s m b
later-IsSaved s m a b le i = record {
  keyed = i.keyed;
  keyed_file = i.keyed_file;
  loads = i.loads;
  on_disk = λ k c t later after. i.on_disk k c t later (omega arith);
  agrees = λ k t after. i.agrees k t (omega arith);
}

set-IsSaved :
    (s : FileStore) (m : JsMap String StoredEntry) (now : ℕ) (key value : String) (ttl : Option ℤ)
    → IsSaved s m now
    → IsSaved (set s key value ttl now true).0 (set_entry m key value ttl now) now
unfolding set set_entry get
set-IsSaved s m now key value ttl i =
    let put_same : (k : String) (t : ℕ)
        → now ≤ t
        → get (set_entry s.entries key value ttl now) k t
          ≡ get (set_entry m key value ttl now) k t =
      λ k t after. elim (Bool-cases (key == k)) [
        | inl own ↦
            rw
              (
                get-put s.entries key k (record { v = value; exp = stored_until now ttl }),
                get-put m key k (record { v = value; exp = stored_until now ttl }),
                own,
              )
              refl
        | inr other ↦
            rw
              (
                get-put s.entries key k (record { v = value; exp = stored_until now ttl }),
                get-put m key k (record { v = value; exp = stored_until now ttl }),
                other,
              )
              (i.agrees k t after)
      ] in
    persist-IsSaved s.file _ _ now (IsKeyed-put s.entries key _ i.keyed)
      (λ k t after. put_same k t after)

delete-IsSaved :
    (s : FileStore) (m : JsMap String StoredEntry) (now : ℕ) (key : String)
    → IsSaved s m now
    → IsSaved (delete s key now true).0 (JsMap.delete m key) now
unfolding delete get
delete-IsSaved s m now key i =
    let cut_same : (k : String) (t : ℕ)
        → now ≤ t
        → get (JsMap.delete s.entries key) k t ≡ get (JsMap.delete m key) k t =
      λ k t after. elim (Bool-cases (key == k)) [
        | inl own ↦ rw (get-delete s.entries key k, get-delete m key k, own) refl
        | inr other ↦
            rw (get-delete s.entries key k, get-delete m key k, other) (i.agrees k t after)
      ] in
    elim (Option-cases (JsMap.get s.entries key)) [
      | inl gone ↦ rw gone (record {
        keyed = i.keyed;
        keyed_file = i.keyed_file;
        loads = i.loads;
        on_disk = i.on_disk;
        agrees = λ k t after. rw (sym (delete_absent s.entries key gone)) (cut_same k t after);
      })
      | inr (e, there) ↦
          rw there (persist-IsSaved s.file _ _ now (IsKeyed-delete s.entries key i.keyed) cut_same)
    ]

restart-IsSaved :
    (s : FileStore) (m : JsMap String StoredEntry) (now : ℕ)
    → IsSaved s m now
    → IsSaved (restarted s (load s.file now)) m now
unfolding get
restart-IsSaved s m now i = rw (i.loads now) (record {
  keyed = IsKeyed-load_entries (contents s.file) now i.keyed_file;
  keyed_file = i.keyed_file;
  loads = i.loads;
  on_disk = λ k b t later after.
      rw (get-load_entries (contents s.file) now k i.keyed_file)
        (load-later (JsMap.get (contents s.file) k) b now t later after);
  agrees = λ k t after.
      rw (get-load_entries (contents s.file) now k i.keyed_file)
        (i.on_disk k now t after after ∙ i.agrees k t after);
})

call-IsSaved :
    (s : FileStore) (m : JsMap String StoredEntry) (now : ℕ) (call : Call)
    → IsSaved s m now
    → IsSaved (file_call s now call) (memory_call m now call) now
call-IsSaved s m now (set_call key value ttl) i = set-IsSaved s m now key value ttl i
call-IsSaved s m now (delete_call key) i = delete-IsSaved s m now key i
call-IsSaved s m now restart i = restart-IsSaved s m now i

run-same :
    (calls : List (ℕ × Call)) (s : FileStore) (m : JsMap String StoredEntry) (start end : ℕ)
    (key : String)
    → InOrder start calls end
    → IsSaved s m start
    → get (run_file s calls).entries key end ≡ get (run_memory m calls) key end
unfolding run_file run_memory
run-same [] s m start end key order i = i.agrees key end order
run-same ((now, call) ∷ calls) s m start end key order i =
    run-same calls (file_call s now call) (memory_call m now call) now end key order.1
      (call-IsSaved s m now call (later-IsSaved s m start now order.0 i))

loaded-IsSaved :
    (file : File) (now : ℕ)
    → IsKeyed (contents file)
    → ((b : ℕ) → load file b ≡ ok (load_entries (contents file) b))
    → IsSaved
        (record { entries = load_entries (contents file) now; file = file })
        (load_entries (contents file) now)
        now
unfolding get
loaded-IsSaved file now keyed loads = record {
  keyed = IsKeyed-load_entries (contents file) now keyed;
  keyed_file = keyed;
  loads = loads;
  on_disk = λ k b t later after.
      rw (get-load_entries (contents file) now k keyed)
        (load-later (JsMap.get (contents file) k) b now t later after);
  agrees = λ k t after. refl;
}

opened-IsSaved :
    (fault : Option StoreError) (file : File) (now : ℕ) (s : FileStore)
    → IsKeyed (contents file)
    → open_checked fault file now ≡ ok s
    → IsSaved s s.entries now
unfolding load load_entries
opened-IsSaved (some e) file now s keyed made = absurd (cc)
opened-IsSaved none absent now s keyed made =
    subst (λ x. IsSaved x x.entries now) (cc) (loaded-IsSaved absent now keyed (λ b. refl))
opened-IsSaved none unreadable now s keyed made = absurd (cc)
opened-IsSaved none corrupt now s keyed made = absurd (cc)
opened-IsSaved none not_object now s keyed made = absurd (cc)
opened-IsSaved none (object_file values) now s keyed made =
    subst (λ x. IsSaved x x.entries now) (cc)
      (loaded-IsSaved (object_file values) now keyed (λ b. refl))

created-IsSaved :
    (dirs : List PathStatus) (accessible : Bool) (file : File) (now : ℕ) (s : FileStore)
    → IsKeyed (contents file)
    → create_file_store dirs accessible file now ≡ ok s
    → IsSaved s s.entries now
unfolding create_file_store
created-IsSaved dirs accessible file now s keyed made =
    opened-IsSaved (assert_writable dirs accessible) file now s keyed made

-- Restarts change nothing that the store returns: where every write reaches the disk and the clock
-- does not go back, after any sequence of `set` and `delete` calls with restarts anywhere in it,
-- every key reads as in a store in memory with the same calls and no restart, expiry included.
-- The file that the store was created over may hold anything that it accepts, each key once.
pub restarts_unseen :
    (dirs : List PathStatus) (accessible : Bool) (file : File) (start end : ℕ) (s : FileStore)
    (calls : List (ℕ × Call)) (key : String)
    → IsKeyed (contents file)
    → create_file_store dirs accessible file start ≡ ok s
    → InOrder start calls end
    → get (run_file s calls).entries key end ≡ get (run_memory s.entries calls) key end
restarts_unseen dirs accessible file start end s calls key keyed made order =
    run-same calls s s.entries start end key order
      (created-IsSaved dirs accessible file start s keyed made)
