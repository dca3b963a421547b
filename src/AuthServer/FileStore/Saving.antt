-- ===== src/AuthServer/FileStore/Saving.antt =====
-- What a write and a load of the file keep of the file store of auth/server/file-store.ts.
use zendesk_mcp_server.Base.{
  ℕ, ◌≤◌, String, ◌≡◌, refl, true, Option, none, some, [], ◌∷◌, arith, eq_iff, if◌then◌else◌,
  number_key, text_key,
}
use zendesk_mcp_server.Base.Int.{ℤ, pos, negsuc}
use zendesk_mcp_server.Base.JsMap
use zendesk_mcp_server.Base.JsMap.{JsMap, IsKeyed}
use zendesk_mcp_server.AuthServer.FileStore.{
  StoredEntry, FileValue, entry_value, foreign_value, expires_after, is_live, live_value,
  load_entries, live_entries,
}

abbrev pub loaded_value : Option FileValue → ℕ → Option StoredEntry
loaded_value none now = none
loaded_value (some foreign_value) now = none
loaded_value (some (entry_value e)) now = if is_live e now then some e else none

abbrev pub saved_value : Option StoredEntry → ℕ → Option FileValue
saved_value none now = none
saved_value (some e) now = if is_live e now then some (entry_value e) else none

load_entries_absent :
    (values : JsMap String FileValue) (now : ℕ) (k : String)
    → JsMap.get values k ≡ none
    → JsMap.get (load_entries values now) k ≡ none
unfolding load_entries JsMap.get
load_entries_absent [] now k h = refl
load_entries_absent ((j, foreign_value) ∷ values) now k h =
    ground (arith, load_entries_absent values now k)
load_entries_absent ((j, entry_value e) ∷ values) now k h =
    ground (arith, load_entries_absent values now k)

pub get-load_entries :
    (values : JsMap String FileValue) (now : ℕ) (k : String)
    → IsKeyed values
    → JsMap.get (load_entries values now) k ≡ loaded_value (JsMap.get values k) now
unfolding load_entries JsMap.get
get-load_entries [] now k h = refl
get-load_entries ((j, foreign_value) ∷ values) now k h =
    ground (arith, get-load_entries values now k h.1, eq_iff j k)
get-load_entries ((j, entry_value e) ∷ values) now k h =
    ground
      (arith, get-load_entries values now k h.1, load_entries_absent values now j h.0, eq_iff j k)

pub IsKeyed-load_entries :
    (values : JsMap String FileValue) (now : ℕ) → IsKeyed values → IsKeyed (load_entries values now)
unfolding load_entries
IsKeyed-load_entries [] now h = tt
IsKeyed-load_entries ((j, foreign_value) ∷ values) now h = IsKeyed-load_entries values now h.1
IsKeyed-load_entries ((j, entry_value e) ∷ values) now h =
    ground (arith, IsKeyed-load_entries values now h.1, load_entries_absent values now j h.0)

live_entries_absent :
    (entries : JsMap String StoredEntry) (now : ℕ) (k : String)
    → JsMap.get entries k ≡ none
    → JsMap.get (live_entries entries now) k ≡ none
unfolding live_entries JsMap.get
live_entries_absent [] now k h = refl
live_entries_absent ((j, e) ∷ entries) now k h = ground (arith, live_entries_absent entries now k)

pub get-live_entries :
    (entries : JsMap String StoredEntry) (now : ℕ) (k : String)
    → IsKeyed entries
    → JsMap.get (live_entries entries now) k ≡ saved_value (JsMap.get entries k) now
unfolding live_entries JsMap.get
get-live_entries [] now k h = refl
get-live_entries ((j, e) ∷ entries) now k h =
    ground
      (arith, get-live_entries entries now k h.1, live_entries_absent entries now j h.0, eq_iff j k)

pub IsKeyed-live_entries :
    (entries : JsMap String StoredEntry) (now : ℕ)
    → IsKeyed entries
    → IsKeyed (live_entries entries now)
unfolding live_entries
IsKeyed-live_entries [] now h = tt
IsKeyed-live_entries ((j, e) ∷ entries) now h =
    ground (arith, IsKeyed-live_entries entries now h.1, live_entries_absent entries now j h.0)

expires_later :
    (exp : Option ℤ) (a t : ℕ) → a ≤ t → expires_after exp t ≡ true → expires_after exp a ≡ true
expires_later none a t h live = refl
expires_later (some (pos n)) a t h live = ground arith
expires_later (some (negsuc n)) a t h live = ground arith

-- An entry that is live later is live now.
pub load-later :
    (o : Option FileValue) (a b t : ℕ)
    → a ≤ t
    → b ≤ t
    → live_value (loaded_value o a) t ≡ live_value (loaded_value o b) t
load-later none a b t ha hb = refl
load-later (some foreign_value) a b t ha hb = refl
load-later (some (entry_value e)) a b t ha hb =
    ground (arith, expires_later e.exp a t ha, expires_later e.exp b t hb)

pub load-save :
    (o : Option StoredEntry) (a b t : ℕ)
    → a ≤ t
    → b ≤ t
    → live_value (loaded_value (saved_value o a) b) t ≡ live_value o t
load-save none a b t ha hb = refl
load-save (some e) a b t ha hb =
    ground (arith, expires_later e.exp a t ha, expires_later e.exp b t hb)
