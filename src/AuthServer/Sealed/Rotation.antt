-- ===== src/AuthServer/Sealed/Rotation.antt =====
-- A change of the master secret under the sealed collections of auth/server/store.ts.
use zendesk_mcp_server.Base.{
  ℕ, String, ◌≡◌, Option, none, some, if◌then◌else◌, number_key, text_key,
}
use zendesk_mcp_server.Base.Int.{ℤ, pos}
use zendesk_mcp_server.Base.JsMap
use zendesk_mcp_server.Base.JsMap.{JsMap}
use zendesk_mcp_server.AuthServer.FileStore
use zendesk_mcp_server.AuthServer.FileStore.{StoredEntry, expires_after}
use zendesk_mcp_server.AuthServer.Sealed.{KeyRing, seal, under_key, key_of}
use zendesk_mcp_server.AuthServer.Sealed

abbrev pub exp_ms : Option ℕ → Option ℤ
exp_ms none = none
exp_ms (some expires_at) = some (pos expires_at)

-- a value that lasts until then
abbrev pub until : {T : Type 0} → T → Option ℕ → ℕ → Option T
until v expires_at now = if expires_after (exp_ms expires_at) now then some v else none

module _ {T Key : Type 0} (hash_id : String → String)
    (encrypt : Key → String → Option ℕ → T → String) (header : String → Option (String × Option ℕ))
    (decrypt : Key → String → Option T)
    (header_kept : (key : Key) (kid : String) (exp : Option ℕ) (v : T)
      → header (encrypt key kid exp v) ≡ some (kid, exp))
    (decrypted_back : (key : Key) (kid : String) (exp : Option ℕ) (v : T)
      → decrypt key (encrypt key kid exp v) ≡ some v)
    (name : String) where
  -- The store holds the value under an id, sealed with the newest key of the ring.
  Holds : JsMap String StoredEntry → String → KeyRing Key → T → Option ℕ → Type 0
  Holds m id ring v e =
      JsMap.get m (key_of hash_id encrypt header decrypt name id)
      ≡ some (record { v = seal hash_id encrypt header decrypt name ring v e; exp = exp_ms e })
