-- ===== src/AuthServer/ExpiringMap.antt =====
-- auth/server/expiring-map.ts: a map whose entries lapse. The clock is the argument `now`.
use zendesk_mcp_server.Base.{
  Bool, Bool-cases, ℕ, length, ◌+◌, ◌≤◌, ◌<◌, String, ◌≡◌, refl, ap, inl, inr, Option, none, some,
  [], ◌∷◌, arith, eq_iff, ltb, leb, if◌then◌else◌, Option-cases, ◌==◌, number_key, text_key,
}
use zendesk_mcp_server.Base.JsMap
use zendesk_mcp_server.Base.JsMap.{JsMap, get-put}

pub record Pending (T : Type 0) : Type 0 where
  pub value : T
  pub expires_at : ℕ

module _ {T : Type 0} where
  abbrev pub live_value : Option (Pending T) → ℕ → Option T
  live_value none now = none
  live_value (some e) now = if ltb now e.expires_at then some e.value else none

  unfoldable pub get : JsMap String (Pending T) → String → ℕ → Option T
  get entries key now = live_value (JsMap.get entries key) now

  -- the loop of `set`
  unfoldable pub swept : JsMap String (Pending T) → ℕ → JsMap String (Pending T)
  swept [] now = []
  swept ((k, e) ∷ entries) now =
      let rest = swept entries now in if leb e.expires_at now then rest else (k, e) ∷ rest

  unfoldable pub set : JsMap String (Pending T) → String → T → ℕ → ℕ → JsMap String (Pending T)
  set entries key value ttl_ms now =
      JsMap.put (swept entries now) key (record { value = value; expires_at = now + ttl_ms })

  unfoldable pub take : JsMap String (Pending T) → String → ℕ → JsMap String (Pending T) × Option T
  take entries key now = (JsMap.delete entries key, get entries key now)

  abbrev size : JsMap String (Pending T) → ℕ
  size entries = length entries

  -- how many entries pass a test of their key and value
  abbrev pub tally : (String → T → Bool) → JsMap String (Pending T) → ℕ
  tally p [] = 0
  tally p ((k, e) ∷ entries) = (if p k e.value then 1 else 0) + tally p entries

  tally-swept :
      (p : String → T → Bool) (entries : JsMap String (Pending T)) (now : ℕ)
      → tally p (swept entries now) ≤ tally p entries
  unfolding swept
  tally-swept p [] now = omega arith
  tally-swept p ((k, e) ∷ entries) now = ground (arith, tally-swept p entries now)

  tally-put :
      (p : String → T → Bool) (entries : JsMap String (Pending T)) (key : String) (e : Pending T)
      → tally p (JsMap.put entries key e) ≤ tally p entries + (if p key e.value then 1 else 0)
  unfolding JsMap.put
  tally-put p [] key e = omega arith
  tally-put p ((k, d) ∷ entries) key e = ground (arith, tally-put p entries key e, eq_iff k key)

  pub tally-set :
      (p : String → T → Bool) (entries : JsMap String (Pending T)) (key : String) (value : T)
      (ttl_ms now : ℕ)
      → tally p (set entries key value ttl_ms now)
        ≤ tally p entries + (if p key value then 1 else 0)
  unfolding set
  tally-set p entries key value ttl_ms now = ground (
    arith,
    tally-swept p entries now,
    tally-put p (swept entries now) key (record { value = value; expires_at = now + ttl_ms }),
  )

  tally-delete_le :
      (p : String → T → Bool) (entries : JsMap String (Pending T)) (key : String)
      → tally p (JsMap.delete entries key) ≤ tally p entries
  unfolding JsMap.delete
  tally-delete_le p [] key = omega arith
  tally-delete_le p ((k, d) ∷ entries) key = ground (arith, tally-delete_le p entries key)

  tally-delete :
      (p : String → T → Bool) (entries : JsMap String (Pending T)) (key : String) (e : Pending T)
      → JsMap.get entries key ≡ some e
      → tally p (JsMap.delete entries key) + (if p key e.value then 1 else 0) ≤ tally p entries
  unfolding JsMap.delete JsMap.get
  tally-delete p [] key e h = absurd (cc)
  tally-delete p ((k, d) ∷ entries) key e h = elim (Bool-cases (k == key)) [
    | inl own ↦
        let found : some d ≡ some e = rw own at h in
        let same_entry : d ≡ e = cc in
        let same_key : k ≡ key = (eq_iff k key).0 own in
        rw own (rw (← same_key, ← same_entry) (omega (arith, tally-delete_le p entries k)))
    | inr other ↦ ground (arith, tally-delete p entries key e, other)
  ]

  pub tally-take_le :
      (p : String → T → Bool) (entries : JsMap String (Pending T)) (key : String) (now : ℕ)
      → tally p (take entries key now).0 ≤ tally p entries
  unfolding take
  tally-take_le p entries key now = tally-delete_le p entries key

  -- Taking a value takes it off the map.
  pub tally-take :
      (p : String → T → Bool) (entries : JsMap String (Pending T)) (key : String) (now : ℕ)
      (value : T)
      → (take entries key now).1 ≡ some value
      → tally p (take entries key now).0 + (if p key value then 1 else 0) ≤ tally p entries
  unfolding take get
  tally-take p entries key now value h = elim (Option-cases (JsMap.get entries key)) [
    | inl missing ↦ absurd (cc (ap (λ o. live_value o now) missing, h))
    | inr (e, there) ↦
        let live : live_value (some e) now ≡ some value = rw there at h in
        let same : e.value ≡ value = ground arith in
        rw (← same) (tally-delete p entries key e there)
  ]

  get-swept :
      (entries : JsMap String (Pending T)) (key : String) (e : Pending T) (now : ℕ)
      → JsMap.get entries key ≡ some e
      → now < e.expires_at
      → JsMap.get (swept entries now) key ≡ some e
  unfolding swept JsMap.get
  get-swept [] key e now h live = h
  get-swept ((k, d) ∷ entries) key e now h live =
      ground (arith, get-swept entries key e now, eq_iff k key)

  -- Setting another key keeps a live entry, setting its own replaces it.
  pub get-set :
      (entries : JsMap String (Pending T)) (key other : String) (value : T) (ttl_ms now : ℕ)
      (e : Pending T)
      → JsMap.get entries key ≡ some e
      → now < e.expires_at
      → JsMap.get (set entries other value ttl_ms now) key ≡ (
          if other == key
          then some (record { value = value; expires_at = now + ttl_ms })
          else some e)
  unfolding set
  get-set entries key other value ttl_ms now e h live =
      rw
        (
          get-put (swept entries now) other key
              (record { value = value; expires_at = now + ttl_ms }),
          get-swept entries key e now h live,
        )
        refl
