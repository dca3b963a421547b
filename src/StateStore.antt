-- ===== src/StateStore.antt =====
-- utils/state-store.ts: the state kept per user, in memory and on disk. An operation runs whole,
-- one after the other, in one process; `sweep_reads` and `sweep_removes` are the two pieces of
-- `sweepFile`, between which the source waits. The name of a key's file is a parameter.
-- A file that is not an entry is `none`; a temporary file is its time of writing; the lock is
-- the time in it, where that can be read.
pub mod Sweeping
pub mod Refined
mod Tests
use zendesk_mcp_server.Base.{
  ℕ, ◌+◌, ◌*◌, String, Bool, true, false, not, Option, none, some, List, [], ◌∷◌, ltb,
  if◌then◌else◌, keep, ◌==◌, number_key, text_key,
}
use zendesk_mcp_server.Base.JsMap
use zendesk_mcp_server.Base.JsMap.{JsMap}

pub record Entry (V : Type 0) : Type 0 where
  pub key : String
  pub value : V
  pub expires_at : Option ℕ

abbrev pub is_live_at : Option ℕ → ℕ → Bool
is_live_at none now = true
is_live_at (some expires_at) now = ltb now expires_at

abbrev pub expiry : ℕ → Option ℕ → Option ℕ
expiry now none = none
expiry now (some ttl_ms) = some (now + ttl_ms)

abbrev pub lock_stale_ms : ℕ
lock_stale_ms = 2 * 60000

abbrev pub temp_stale_ms : ℕ
temp_stale_ms = 5 * 60000

module _ {V : Type 0} where
  abbrev pub is_live : Entry V → ℕ → Bool
  is_live entry now = is_live_at entry.expires_at now

  abbrev pub to_entry : String → V → ℕ → Option ℕ → Entry V
  to_entry key value now ttl_ms = record {
    key = key;
    value = value;
    expires_at = expiry now ttl_ms;
  }

  abbrev pub live_value : Option (Entry V) → ℕ → Option V
  live_value none now = none
  live_value (some entry) now = if is_live entry now then some entry.value else none

  unfoldable pub memory_get : JsMap String (Entry V) → String → ℕ → Option V
  memory_get entries key now = live_value (JsMap.get entries key) now

  unfoldable pub memory_set :
      JsMap String (Entry V) → String → V → ℕ → Option ℕ → JsMap String (Entry V)
  memory_set entries key value now ttl_ms = JsMap.put entries key (to_entry key value now ttl_ms)

  unfoldable pub memory_delete : JsMap String (Entry V) → String → JsMap String (Entry V)
  memory_delete entries key = JsMap.delete entries key

  -- the loop of `sweep`: a `Map` holds a key once, so a deletion drops the entry that is visited
  unfoldable pub memory_sweep : JsMap String (Entry V) → ℕ → JsMap String (Entry V)
  memory_sweep [] at = []
  memory_sweep ((key, entry) ∷ entries) at =
      let rest = memory_sweep entries at in
      if not (is_live entry at) then rest else (key, entry) ∷ rest

pub record Disk (V : Type 0) : Type 0 where
  pub present : Bool
  pub files : JsMap String (Option (Entry V))
  pub temps : List ℕ
  pub lock : Option (Option ℕ)

-- Who holds the lock after `acquireLock`.
pub data Acquired : Type 0 where
  acquired held_elsewhere no_directory : Acquired

abbrev pub is_held : Option ℕ → ℕ → Bool
is_held none now = false
is_held (some at) now = ltb now (at + lock_stale_ms)

abbrev pub lock_outcome : Option (Option ℕ) → ℕ → Acquired
lock_outcome none now = acquired
lock_outcome (some content) now = if is_held content now then held_elsewhere else acquired

module _ {V : Type 0} (file_of : String → String) where
  -- a missing file, and a file that is not an entry, are a miss
  abbrev pub own_entry : String → Option (Option (Entry V)) → Option (Entry V)
  own_entry key (some (some entry)) = if entry.key == key then some entry else none
  own_entry key _ = none

  unfoldable pub disk_get : Disk V → String → ℕ → Option V
  disk_get disk key now = live_value (own_entry key (JsMap.get disk.files (file_of key))) now

  -- the temporary file is renamed at once, so none is left
  unfoldable pub disk_set : Disk V → String → V → ℕ → Option ℕ → Disk V
  disk_set disk key value now ttl_ms = record disk {
    present = true;
    files = JsMap.put disk.files (file_of key) (some (to_entry key value now ttl_ms));
  }

  unfoldable pub disk_delete : Disk V → String → Disk V
  disk_delete disk key = record disk { files = JsMap.delete disk.files (file_of key) }

module _ {V : Type 0} where
  unfoldable pub acquire_lock : Disk V → ℕ → Acquired
  acquire_lock disk now = if disk.present then lock_outcome disk.lock now else no_directory

  abbrev pub is_expired : Option (Entry V) → ℕ → Bool
  is_expired none at = false
  is_expired (some entry) at = not (is_live entry at)

  abbrev is_expired_file : Option (Option (Entry V)) → ℕ → Bool
  is_expired_file none at = false
  is_expired_file (some file) at = is_expired file at

  -- `sweepFile` waits between reading an entry file and removing it: a `set` may come between
  abbrev pub sweep_reads : Disk V → String → ℕ → Bool
  sweep_reads disk name at = is_expired_file (JsMap.get disk.files name) at

  abbrev pub sweep_removes : Disk V → String → Disk V
  sweep_removes disk name = record disk { files = JsMap.delete disk.files name }

  -- `sweepFile` over the entry files, in a sweep that no other call comes between
  unfoldable pub sweep_files : JsMap String (Option (Entry V)) → ℕ → JsMap String (Option (Entry V))
  sweep_files [] at = []
  sweep_files ((name, file) ∷ files) at =
      let rest = sweep_files files at in if is_expired file at then rest else (name, file) ∷ rest

  abbrev pub sweep_locked : Disk V → ℕ → Acquired → Disk V × Bool
  sweep_locked disk now held_elsewhere = (disk, false)
  sweep_locked disk now no_directory = (disk, true)
  sweep_locked disk now acquired = (
    record disk {
      files = sweep_files disk.files now;
      temps = keep (λ written. not (ltb (written + temp_stale_ms) now)) disk.temps;
      lock = none;
    },
    true,
  )

  unfoldable pub disk_sweep : Disk V → ℕ → Disk V × Bool
  unfolding acquire_lock sweep_files
  disk_sweep disk now = sweep_locked disk now (acquire_lock disk now)
