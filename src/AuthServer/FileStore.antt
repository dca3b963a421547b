-- ===== src/AuthServer/FileStore.antt =====
-- auth/server/file-store.ts: the memory store over a `Map`, and the file store that writes it to one
-- JSON file on every change. The clock is the argument `now`; the file is its content after
-- `JSON.parse`, which `persist` replaces whole by a rename, and `disk_ok` says whether it could.
pub mod Saving
pub mod Restarts
use zendesk_mcp_server.Base.{
  ℕ, String, Bool, true, false, Option, none, some, List, [], ◌∷◌, if◌then◌else◌, number_key,
  text_key, Result, ok, err,
}
use zendesk_mcp_server.Base.Int.{ℤ, pos, ◌+ℤ◌, ltb_ℤ}
use zendesk_mcp_server.Base.JsMap
use zendesk_mcp_server.Base.JsMap.{JsMap}

pub record StoredEntry : Type 0 where
  pub v : String
  pub exp : Option ℤ

-- what a field of the file's object holds: an entry, or a value that is none
pub data FileValue : Type 0 where
  entry_value : StoredEntry → FileValue
  foreign_value : FileValue

-- The file: not there, not readable, not JSON, JSON but no object, or an object.
pub data File : Type 0 where
  absent unreadable corrupt not_object : File
  object_file : JsMap String FileValue → File

pub data StoreError : Type 0 where
  cannot_read cannot_parse not_an_object cannot_write : StoreError

pub record FileStore : Type 0 where
  pub entries : JsMap String StoredEntry
  pub file : File

abbrev pub expires_after : Option ℤ → ℕ → Bool
expires_after none now = true
expires_after (some exp) now = ltb_ℤ (pos now) exp

abbrev pub is_live : StoredEntry → ℕ → Bool
is_live e now = expires_after e.exp now

abbrev pub live_value : Option StoredEntry → ℕ → Option String
live_value none now = none
live_value (some e) now = if is_live e now then some e.v else none

unfoldable pub get : JsMap String StoredEntry → String → ℕ → Option String
get entries key now = live_value (JsMap.get entries key) now

abbrev pub stored_until : ℕ → Option ℤ → Option ℤ
stored_until now none = none
stored_until now (some ttl_ms) = some (pos now +ℤ ttl_ms)

-- the `entries.set` of `set`
unfoldable pub set_entry :
    JsMap String StoredEntry → String → String → Option ℤ → ℕ → JsMap String StoredEntry
set_entry entries key value ttl_ms now =
    JsMap.put entries key (record { v = value; exp = stored_until now ttl_ms })

unfoldable pub load_entries : JsMap String FileValue → ℕ → JsMap String StoredEntry
load_entries [] now = []
load_entries ((k, foreign_value) ∷ values) now = load_entries values now
load_entries ((k, entry_value e) ∷ values) now =
    let rest = load_entries values now in if is_live e now then (k, e) ∷ rest else rest

unfoldable pub load : File → ℕ → Result StoreError (JsMap String StoredEntry)
load absent now = ok []
load unreadable now = err cannot_read
load corrupt now = err cannot_parse
load not_object now = err not_an_object
load (object_file values) now = ok (load_entries values now)

-- the live entries, as the object that is written
unfoldable pub live_entries : JsMap String StoredEntry → ℕ → JsMap String FileValue
live_entries [] now = []
live_entries ((k, e) ∷ entries) now =
    let rest = live_entries entries now in if is_live e now then (k, entry_value e) ∷ rest else rest

-- `onChange` of the file store, and the error that it throws; where the write fails the old file stays
unfoldable pub persist : FileStore → ℕ → Bool → FileStore × Option StoreError
persist s now true = (record s { file = object_file (live_entries s.entries now) }, none)
persist s now false = (s, some cannot_write)

unfoldable pub set :
    FileStore → String → String → Option ℤ → ℕ → Bool → FileStore × Option StoreError
set s key value ttl_ms now disk_ok =
    persist (record s { entries = set_entry s.entries key value ttl_ms now }) now disk_ok

-- nothing is written where the key was not there
abbrev pub delete_found :
    FileStore → String → ℕ → Bool → Option StoredEntry → FileStore × Option StoreError
delete_found s key now disk_ok none = (s, none)
delete_found s key now disk_ok (some e) =
    persist (record s { entries = JsMap.delete s.entries key }) now disk_ok

unfoldable pub delete : FileStore → String → ℕ → Bool → FileStore × Option StoreError
delete s key now disk_ok = delete_found s key now disk_ok (JsMap.get s.entries key)

-- What `statSync` says of a directory: there, something else, not there, or another error.
pub data PathStatus : Type 0 where
  is_directory other_kind missing failing : PathStatus

-- `assertWritable`: the file's directory and its parents, nearest first, and `accessSync` of the
-- one that the climb stops at
unfoldable pub assert_writable : List PathStatus → Bool → Option StoreError
assert_writable [] accessible = some cannot_write
assert_writable (is_directory ∷ parents) accessible = if accessible then none else some cannot_write
assert_writable (other_kind ∷ parents) accessible = some cannot_write
assert_writable (failing ∷ parents) accessible = some cannot_write
assert_writable (missing ∷ parents) accessible = assert_writable parents accessible

abbrev pub opened :
    File → Result StoreError (JsMap String StoredEntry) → Result StoreError FileStore
opened file (err e) = err e
opened file (ok entries) = ok (record { entries = entries; file = file })

abbrev pub open_checked : Option StoreError → File → ℕ → Result StoreError FileStore
open_checked (some e) file now = err e
open_checked none file now = opened file (load file now)

unfoldable pub create_file_store : List PathStatus → Bool → File → ℕ → Result StoreError FileStore
create_file_store dirs accessible file now = open_checked (assert_writable dirs accessible) file now
