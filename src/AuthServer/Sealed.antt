-- ===== src/AuthServer/Sealed.antt =====
-- The sealed collections of auth/server/store.ts, over the memory store of file-store.ts. The
-- encryption (`jose`) and the hash of an id are parameters: `encrypt` takes the key, the header's key
-- id and expiry, and the value; `header` and `decrypt` are none where the library throws.
pub mod Rotation
use zendesk_mcp_server.Base.{
  ℕ, zero, suc, ◌+◌, ◌*◌, String, Bool, not, Option, none, some, List, [], ◌∷◌, if◌then◌else◌, ◌==◌,
  number_key, text_key,
}
use zendesk_mcp_server.Base.Int.{ℤ, pos, ◌-ℤ◌}
use Prim.Native.String.{◌++◌ as ◌<>◌}
use zendesk_mcp_server.Base.JsMap
use zendesk_mcp_server.Base.JsMap.{JsMap}
use zendesk_mcp_server.AuthServer.FileStore
use zendesk_mcp_server.AuthServer.FileStore.{StoredEntry, set_entry}

pub record KeySet (Key : Type 0) : Type 0 where
  pub kid : String
  pub key : Key

-- Newest first.
pub record KeyRing (Key : Type 0) : Type 0 where
  pub newest : KeySet Key
  pub older : List (KeySet Key)

abbrev pub find_from : {Key : Type 0} → List (KeySet Key) → String → Option Key
find_from [] kid = none
find_from (set ∷ sets) kid = if set.kid == kid then some set.key else find_from sets kid

-- `ring.find`
unfoldable pub find_key : {Key : Type 0} → KeyRing Key → String → Option Key
find_key ring kid = find_from (ring.newest ∷ ring.older) kid

pub record SealedRecord (T : Type 0) : Type 0 where
  pub value : T
  pub current : Bool
  pub expires_at : Option ℕ

abbrev pub expiry_of : ℕ → Option ℕ → Option ℕ
expiry_of now none = none
expiry_of now (some zero) = none
expiry_of now (some (suc ttl)) = some (now + suc ttl * 1000)

-- the lifetime that is left, or none
abbrev pub time_left : ℕ → Option ℕ → Option ℤ
time_left now none = none
time_left now (some expires_at) = some (pos expires_at -ℤ pos now)

abbrev pub ttl_ms : Option ℕ → Option ℤ
ttl_ms none = none
ttl_ms (some zero) = none
ttl_ms (some (suc ttl)) = some (pos (suc ttl * 1000))

module _ {T Key : Type 0} (hash_id : String → String)
    (encrypt : Key → String → Option ℕ → T → String) (header : String → Option (String × Option ℕ))
    (decrypt : Key → String → Option T) (name : String) where
  unfoldable pub seal : KeyRing Key → T → Option ℕ → String
  seal ring value expires_at = encrypt ring.newest.key ring.newest.kid expires_at value

  abbrev pub decrypted : Bool → Option ℕ → Option T → Option (SealedRecord T)
  decrypted current expires_at none = none
  decrypted current expires_at (some value) =
      some (record { value = value; current = current; expires_at = expires_at })

  abbrev pub under_key :
      KeyRing Key → String → String → Option ℕ → Option Key → Option (SealedRecord T)
  under_key ring sealed kid expires_at none = none
  under_key ring sealed kid expires_at (some key) =
      decrypted (ring.newest.kid == kid) expires_at (decrypt key sealed)

  abbrev pub under_header :
      KeyRing Key → String → Option (String × Option ℕ) → Option (SealedRecord T)
  under_header ring sealed none = none
  under_header ring sealed (some (kid, expires_at)) =
      under_key ring sealed kid expires_at (find_key ring kid)

  -- `open`: what throws in `unseal` counts as absent
  unfoldable pub open_sealed : KeyRing Key → String → Option (SealedRecord T)
  open_sealed ring sealed = under_header ring sealed (header sealed)

  abbrev pub key_of : String → String
  key_of id = name <> (":" <> hash_id id)

  abbrev pub opened :
      JsMap String StoredEntry
      → KeyRing Key
      → String
      → ℕ
      → Option (SealedRecord T)
      → JsMap String StoredEntry × Option T
  opened store ring id now none = (store, none)
  opened store ring id now (some r) =
      if not r.current
      then (
        set_entry store (key_of id) (seal ring r.value r.expires_at) (time_left now r.expires_at)
            now,
        some r.value,
      )
      else (store, some r.value)

  abbrev pub found :
      JsMap String StoredEntry
      → KeyRing Key
      → String
      → ℕ
      → Option String
      → JsMap String StoredEntry × Option T
  found store ring id now none = (store, none)
  found store ring id now (some sealed) = opened store ring id now (open_sealed ring sealed)

  unfoldable pub get :
      JsMap String StoredEntry → KeyRing Key → String → ℕ → JsMap String StoredEntry × Option T
  get store ring id now = found store ring id now (FileStore.get store (key_of id) now)

  unfoldable pub set :
      JsMap String StoredEntry → KeyRing Key → String → T → Option ℕ → ℕ → JsMap String StoredEntry
  set store ring id value ttl_seconds now =
      set_entry store (key_of id) (seal ring value (expiry_of now ttl_seconds)) (ttl_ms ttl_seconds)
        now

  unfoldable pub delete : JsMap String StoredEntry → String → JsMap String StoredEntry
  delete store id = JsMap.delete store (key_of id)
