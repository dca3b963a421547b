-- ===== src/StateStore/Tests.antt =====
-- Runs of utils/state-store.ts: an entry that expires, on both stores.
use zendesk_mcp_server.Base.{
  ℕ, String, ◌≡◌, refl, true, none, some, List, [], ◌∷◌, number_key, text_key,
}
use zendesk_mcp_server.Base.JsMap
use zendesk_mcp_server.Base.JsMap.{JsMap, IsKeyed}
use zendesk_mcp_server.StateStore.{
  Entry, Disk, disk_set, sweep_reads, sweep_removes, memory_get, disk_get,
}
use zendesk_mcp_server.StateStore.Refined.{
  AreApart, call_keys, Call, set_call, delete_call, sweep_call, run_memory, run_disk, empty_disk,
  disk_get-run,
}

abbrev calls : List (ℕ × Call ℕ)
calls =
    (0, set_call "a" 1 (some 50))
    ∷ (10, set_call "b" 2 none)
    ∷ (60, sweep_call)
    ∷ (70, delete_call "c")
    ∷ []

abbrev stored : JsMap String (Entry ℕ)
stored =
    ("a", record { key = "a"; value = 1; expires_at = some 50 })
    ∷ ("b", record { key = "b"; value = 2; expires_at = none })
    ∷ []

kept_and_gone :
    (memory_get (run_memory [] calls) "b" 80 ≡ some 2)
    × (memory_get (run_memory [] calls) "a" 40 ≡ none)
unfolding memory_get run_memory JsMap.get JsMap.put JsMap.delete
kept_and_gone = (refl, refl)

stored-IsKeyed : IsKeyed stored
unfolding JsMap.get
stored-IsKeyed = (refl, (refl, tt))

abbrev file_of : String → String
file_of key = key

file_of-AreApart : AreApart file_of ("b" ∷ call_keys calls)
file_of-AreApart j k mine other h = h

disk_get-run_example :
    disk_get file_of (run_disk file_of empty_disk calls) "b" 80
    ≡ memory_get (run_memory [] calls) "b" 80
disk_get-run_example = disk_get-run file_of calls "b" 80 file_of-AreApart

-- A `set` between the reading of an expired entry by a sweep and its removal: the new entry is lost.
abbrev expired_disk : Disk ℕ
expired_disk = disk_set file_of empty_disk "a" 1 0 (some 50)

found_expired : sweep_reads expired_disk "a" 60 ≡ true
unfolding disk_set JsMap.get JsMap.put
found_expired = refl

set_lost :
    disk_get file_of (sweep_removes (disk_set file_of expired_disk "a" 2 61 none) "a") "a" 70 ≡ none
unfolding disk_get disk_set JsMap.get JsMap.put JsMap.delete
set_lost = refl
