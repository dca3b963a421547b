-- ===== src/StateStore/Refined.antt =====
-- The disk store of utils/state-store.ts against its memory store, over any sequence of calls.
use zendesk_mcp_server.Base.{
  In, ℕ, String, ◌≡◌, refl, ap, ◌∙◌, inl, inr, true, false, Option, none, some, List, [], ◌∷◌,
  arith, eq_iff, Bool-cases, ◌==◌, number_key, text_key,
}
use zendesk_mcp_server.Base.JsMap
use zendesk_mcp_server.Base.JsMap.{JsMap, IsKeyed, get-put, get-delete, IsKeyed-put, IsKeyed-delete}
use zendesk_mcp_server.StateStore.{
  Entry, to_entry, live_value, memory_get, memory_set, memory_delete, memory_sweep, Disk, acquired,
  no_directory, own_entry, disk_get, disk_set, disk_delete, acquire_lock, sweep_locked, disk_sweep,
}
use zendesk_mcp_server.StateStore.Sweeping.{
  survivor, get-memory_sweep, IsKeyed-memory_sweep, survivor_file, get-sweep_files,
  IsKeyed-sweep_files,
}

-- The calls that change a store.
pub data Call (V : Type 0) : Type 0 where
  set_call : (key : String) → (value : V) → (ttl_ms : Option ℕ) → Call V
  delete_call : (key : String) → Call V
  sweep_call : Call V

module _ {V : Type 0} where
  unfoldable pub call_memory : JsMap String (Entry V) → ℕ → Call V → JsMap String (Entry V)
  unfolding memory_set memory_delete memory_sweep
  call_memory m now (set_call key value ttl_ms) = memory_set m key value now ttl_ms
  call_memory m now (delete_call key) = memory_delete m key
  call_memory m now sweep_call = memory_sweep m now

  unfoldable pub run_memory : JsMap String (Entry V) → List (ℕ × Call V) → JsMap String (Entry V)
  unfolding call_memory
  run_memory m [] = m
  run_memory m ((now, call) ∷ calls) = run_memory (call_memory m now call) calls

  abbrev pub empty_disk : Disk V
  empty_disk = record { present = false; files = []; temps = []; lock = none }

-- the keys that calls set or delete
abbrev pub call_keys : {V : Type 0} → List (ℕ × Call V) → List String
call_keys [] = []
call_keys ((now, set_call key value ttl_ms) ∷ calls) = key ∷ call_keys calls
call_keys ((now, delete_call key) ∷ calls) = key ∷ call_keys calls
call_keys ((now, sweep_call) ∷ calls) = call_keys calls

-- No two of some keys share a file.
abbrev pub AreApart : (String → String) → List String → Type 0
AreApart file_of keys = (j k : String) → In j keys → In k keys → file_of j ≡ file_of k → j ≡ k

file_of-same :
    (file_of : String → String) (keys : List String)
    → AreApart file_of keys
    → (j k : String) → In j keys
    → In k keys
    → (file_of j == file_of k) ≡ (j == k)
file_of-same file_of keys apart j k mine other =
    ground (arith, eq_iff j k, eq_iff (file_of j) (file_of k), apart j k mine other)

module _ {V : Type 0} (file_of : String → String) where
  unfoldable pub call_disk : Disk V → ℕ → Call V → Disk V
  unfolding disk_set disk_delete disk_sweep
  call_disk d now (set_call key value ttl_ms) = disk_set file_of d key value now ttl_ms
  call_disk d now (delete_call key) = disk_delete file_of d key
  call_disk d now sweep_call = (disk_sweep d now).0

  unfoldable pub run_disk : Disk V → List (ℕ × Call V) → Disk V
  unfolding call_disk
  run_disk d [] = d
  run_disk d ((now, call) ∷ calls) = run_disk (call_disk d now call) calls

module _ {V : Type 0} (file_of : String → String) (keys : List String) where
  -- The disk holds the entries of the memory store, each in the file of its key, for
  -- some keys.
  record Represents (d : Disk V) (m : JsMap String (Entry V)) : Type 0 where
    keyed_disk : IsKeyed d.files
    keyed_memory : IsKeyed m
    unlocked : d.lock ≡ none
    absent : d.present ≡ false → d.files ≡ []
    same :
        (key : String)
        → In key keys
        → own_entry file_of key (JsMap.get d.files (file_of key)) ≡ JsMap.get m key

  own_entry-survivor :
      (key : String) (file : Option (Option (Entry V))) (at : ℕ)
      → own_entry file_of key (survivor_file file at) ≡ survivor (own_entry file_of key file) at
  own_entry-survivor key none at = refl
  own_entry-survivor key (some none) at = refl
  own_entry-survivor key (some (some entry)) at = ground arith

  module _ (apart : AreApart file_of keys) where
    set-Represents :
        (d : Disk V) (m : JsMap String (Entry V)) (key : String) (value : V) (now : ℕ)
        (ttl_ms : Option ℕ)
        → In key keys
        → Represents d m
        → Represents (disk_set file_of d key value now ttl_ms) (memory_set m key value now ttl_ms)
    unfolding disk_set memory_set
    set-Represents d m key value now ttl_ms mine r = record {
      keyed_disk = IsKeyed-put d.files (file_of key) _ r.keyed_disk;
      keyed_memory = IsKeyed-put m key _ r.keyed_memory;
      unlocked = r.unlocked;
      absent = λ h. cc;
      same = λ k of_keys. ground (
        arith,
        r.same k of_keys,
        file_of-same file_of keys apart key k mine of_keys,
        eq_iff key k,
        get-put d.files (file_of key) (file_of k) (some (to_entry key value now ttl_ms)),
        get-put m key k (to_entry key value now ttl_ms),
      );
    }

    delete-Represents :
        (d : Disk V) (m : JsMap String (Entry V)) (key : String)
        → In key keys
        → Represents d m
        → Represents (disk_delete file_of d key) (memory_delete m key)
    unfolding disk_delete memory_delete JsMap.delete
    delete-Represents d m key mine r = record {
      keyed_disk = IsKeyed-delete d.files (file_of key) r.keyed_disk;
      keyed_memory = IsKeyed-delete m key r.keyed_memory;
      unlocked = r.unlocked;
      absent = λ h. rw (r.absent h);
      same = λ k of_keys. ground (
        arith,
        r.same k of_keys,
        file_of-same file_of keys apart key k mine of_keys,
        get-delete d.files (file_of key) (file_of k),
        get-delete m key k,
      );
    }

    swept-Represents :
        (d : Disk V) (m : JsMap String (Entry V)) (now : ℕ)
        → d.present ≡ true
        → Represents d m
        → Represents (sweep_locked d now acquired).0 (memory_sweep m now)
    swept-Represents d m now there r = record {
      keyed_disk = IsKeyed-sweep_files d.files now r.keyed_disk;
      keyed_memory = IsKeyed-memory_sweep m now r.keyed_memory;
      unlocked = refl;
      absent = λ h. cc;
      same = λ k of_keys.
          rw
            (
              get-sweep_files d.files now (file_of k) r.keyed_disk,
              get-memory_sweep m now k r.keyed_memory,
              ← r.same k of_keys,
            )
            (own_entry-survivor k (JsMap.get d.files (file_of k)) now);
    }

    none_stored :
        (d : Disk V) (m : JsMap String (Entry V))
        → d.files ≡ []
        → Represents d m
        → (k : String) → In k keys
        → JsMap.get m k ≡ none
    unfolding JsMap.get
    none_stored d m none_there r k of_keys = cc (r.same k of_keys, none_there)

    lock_free :
        (d : Disk V) (now : ℕ) → d.present ≡ true → d.lock ≡ none → acquire_lock d now ≡ acquired
    unfolding acquire_lock
    lock_free d now there free = ground arith

    lock_absent : (d : Disk V) (now : ℕ) → d.present ≡ false → acquire_lock d now ≡ no_directory
    unfolding acquire_lock
    lock_absent d now missing = ground arith

    sweep-Represents :
        (d : Disk V) (m : JsMap String (Entry V)) (now : ℕ)
        → Represents d m
        → Represents (disk_sweep d now).0 (memory_sweep m now)
    unfolding disk_sweep
    sweep-Represents d m now r = elim (Bool-cases d.present) [
      | inl there ↦ rw (lock_free d now there r.unlocked) (swept-Represents d m now there r)
      | inr missing ↦ rw (lock_absent d now missing) (record {
        keyed_disk = r.keyed_disk;
        keyed_memory = IsKeyed-memory_sweep m now r.keyed_memory;
        unlocked = r.unlocked;
        absent = r.absent;
        same = λ k of_keys.
            let gone = none_stored d m (r.absent missing) r k of_keys in
            rw (get-memory_sweep m now k r.keyed_memory, gone) (r.same k of_keys ∙ gone);
      })
    ]

    run-Represents :
        (calls : List (ℕ × Call V)) (d : Disk V) (m : JsMap String (Entry V))
        → ((k : String) → In k (call_keys calls) → In k keys)
        → Represents d m
        → Represents (run_disk file_of d calls) (run_memory m calls)
    unfolding run_disk run_memory
    run-Represents [] d m mine r = r
    run-Represents ((now, set_call key value ttl_ms) ∷ calls) d m mine r =
        run-Represents calls _ _ (λ k there. mine k (inr there))
          (set-Represents d m key value now ttl_ms (mine key (inl refl)) r)
    run-Represents ((now, delete_call key) ∷ calls) d m mine r =
        run-Represents calls _ _ (λ k there. mine k (inr there))
          (delete-Represents d m key (mine key (inl refl)) r)
    run-Represents ((now, sweep_call) ∷ calls) d m mine r =
        run-Represents calls _ _ mine (sweep-Represents d m now r)

-- Where no two of the keys of some calls and of the key read share a file, the disk store keeps what
-- the memory store promises: after any sequence of `set`, `delete` and `sweep` calls on empty stores,
-- each at its time and after the one before it has ended, both return the same for that key at
-- every time.
pub disk_get-run :
    {V : Type 0} (file_of : String → String) (calls : List (ℕ × Call V)) (key : String) (now : ℕ)
    → AreApart file_of (key ∷ call_keys calls)
    → disk_get file_of (run_disk file_of empty_disk calls) key now
      ≡ memory_get (run_memory [] calls) key now
unfolding disk_get memory_get
disk_get-run {V} file_of calls key now apart =
    let empty : Represents {V = V} file_of (key ∷ call_keys calls) empty_disk [] = record {
      keyed_disk = tt;
      keyed_memory = tt;
      unlocked = refl;
      absent = λ h. refl;
      same = λ k of_keys. unfold JsMap.get in refl;
    } in
    ap (λ o. live_value o now)
      ((run-Represents file_of (key ∷ call_keys calls) apart calls empty_disk []
          (λ k there. inr there) empty).same
        key (inl refl))
