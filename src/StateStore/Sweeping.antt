-- ===== src/StateStore/Sweeping.antt =====
-- What a sweep of utils/state-store.ts leaves of the entries.
use zendesk_mcp_server.Base.{
  ℕ, ◌≤◌, String, ◌≡◌, refl, Option, none, some, [], ◌∷◌, arith, eq_iff, if◌then◌else◌, number_key,
  text_key,
}
use zendesk_mcp_server.Base.JsMap
use zendesk_mcp_server.Base.JsMap.{JsMap, IsKeyed}
use zendesk_mcp_server.StateStore.{
  Entry, is_live, live_value, memory_get, memory_sweep, is_expired, sweep_files,
}

module _ {V : Type 0} where
  abbrev pub survivor : Option (Entry V) → ℕ → Option (Entry V)
  survivor none at = none
  survivor (some entry) at = if is_live entry at then some entry else none

  pub get-memory_sweep :
      (entries : JsMap String (Entry V)) (at : ℕ) (k : String)
      → IsKeyed entries
      → JsMap.get (memory_sweep entries at) k ≡ survivor (JsMap.get entries k) at
  unfolding memory_sweep JsMap.get
  get-memory_sweep [] at k keyed = refl
  get-memory_sweep ((j, entry) ∷ entries) at k keyed =
      ground (arith, get-memory_sweep entries at k keyed.1, keyed.0, eq_iff j k)

  pub IsKeyed-memory_sweep :
      (entries : JsMap String (Entry V)) (at : ℕ)
      → IsKeyed entries
      → IsKeyed (memory_sweep entries at)
  unfolding memory_sweep
  IsKeyed-memory_sweep [] at keyed = tt
  IsKeyed-memory_sweep ((j, entry) ∷ entries) at keyed = ground (
    arith,
    IsKeyed-memory_sweep entries at keyed.1,
    get-memory_sweep entries at j keyed.1,
    keyed.0,
  )

  -- What an expired entry leaves is no value, now or later.
  pub live_value-survivor :
      (o : Option (Entry V)) (at now : ℕ)
      → at ≤ now
      → live_value (survivor o at) now ≡ live_value o now
  live_value-survivor none at now le = refl
  live_value-survivor (some entry) at now le = ground arith

  -- On a memory store, whose map holds a key once, a sweep is never seen: from its time on, every
  -- key reads as it would without it.
  pub memory_get-sweep :
      (entries : JsMap String (Entry V)) (at now : ℕ) (key : String)
      → IsKeyed entries
      → at ≤ now
      → memory_get (memory_sweep entries at) key now ≡ memory_get entries key now
  unfolding memory_get
  memory_get-sweep entries at now key keyed le =
      rw (get-memory_sweep entries at key keyed)
        (live_value-survivor (JsMap.get entries key) at now le)

  abbrev pub survivor_file : Option (Option (Entry V)) → ℕ → Option (Option (Entry V))
  survivor_file none at = none
  survivor_file (some file) at = if is_expired file at then none else some file

  pub get-sweep_files :
      (files : JsMap String (Option (Entry V))) (at : ℕ) (k : String)
      → IsKeyed files
      → JsMap.get (sweep_files files at) k ≡ survivor_file (JsMap.get files k) at
  unfolding sweep_files JsMap.get
  get-sweep_files [] at k keyed = refl
  get-sweep_files ((j, file) ∷ files) at k keyed =
      ground (arith, get-sweep_files files at k keyed.1, keyed.0, eq_iff j k)

  pub IsKeyed-sweep_files :
      (files : JsMap String (Option (Entry V))) (at : ℕ)
      → IsKeyed files
      → IsKeyed (sweep_files files at)
  unfolding sweep_files
  IsKeyed-sweep_files [] at keyed = tt
  IsKeyed-sweep_files ((j, file) ∷ files) at keyed =
      ground
        (arith, IsKeyed-sweep_files files at keyed.1, get-sweep_files files at j keyed.1, keyed.0)
