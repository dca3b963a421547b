-- ===== src/ListenFeed/Counts.antt =====
-- The listener counts of utils/listen-feed.ts while streams open and close.
use zendesk_mcp_server.Base.{
  ℕ, zero, suc, ◌+◌, ◌-◌, String, ◌≡◌, refl, Bool, true, false, not, Option, none, some, List, [],
  ◌∷◌, arith, eq_iff, if◌then◌else◌, keep, ◌==◌, number_key, text_key, includes,
}
use zendesk_mcp_server.Base.JsMap
use zendesk_mcp_server.Base.JsMap.{JsMap, IsKeyed, get-put, get-delete, delete_absent}
use zendesk_mcp_server.ListenFeed.{Feed, count, unique, unlisten, unlisten_all, listen, listen_all}

abbrev pub bit : Bool → ℕ
bit true = 1
bit false = 0

-- occurrences of a URI in a list
abbrev pub times : List String → String → ℕ
times [] u = 0
times (v ∷ uris) u = bit (v == u) + times uris u

-- the number of open streams that hold a URI
abbrev pub holders : JsMap String (List String) → String → ℕ
holders [] u = 0
holders ((k, uris) ∷ m) u = bit (includes uris u) + holders m u

-- A URI without listeners has no entry.
abbrev pub counted : ℕ → Option ℕ
counted zero = none
counted (suc n) = some (suc n)

abbrev pub Exact : Feed → (String → ℕ) → Type 0
Exact f base = (u : String) → JsMap.get f.listeners u ≡ counted (base u)

Exact-listen :
    (f : Feed) (base : String → ℕ) (uri : String)
    → Exact f base
    → Exact (listen f uri) (λ u. base u + bit (uri == u))
unfolding listen
Exact-listen f base uri h u =
    ground (arith, h u, h uri, get-put f.listeners uri u (count f uri + 1), eq_iff uri u)

Exact-unlisten :
    (f : Feed) (base : String → ℕ) (uri : String)
    → Exact f (λ u. base u + bit (uri == u))
    → Exact (unlisten f uri) base
unfolding unlisten
Exact-unlisten f base uri h u = ground (
  arith,
  h u,
  h uri,
  get-put f.listeners uri u (count f uri - 1),
  get-delete f.listeners uri u,
  eq_iff uri u,
  eq_iff uri uri,
)

pub Exact-cong :
    (f : Feed) (base other : String → ℕ)
    → ((u : String) → base u ≡ other u)
    → Exact f base
    → Exact f other
Exact-cong f base other same h u = rw (← same u) (h u)

pub Exact-listen_all :
    (f : Feed) (base : String → ℕ) (uris : List String)
    → Exact f base
    → Exact (listen_all f uris) (λ u. base u + times uris u)
unfolding listen_all
Exact-listen_all f base [] h = Exact-cong f base _ (λ u. omega arith) h
Exact-listen_all f base (uri ∷ uris) h =
    Exact-cong (listen_all f (uri ∷ uris)) _ _ (λ u. omega arith)
      (Exact-listen_all (listen f uri) _ uris (Exact-listen f base uri h))

pub Exact-unlisten_all :
    (f : Feed) (base : String → ℕ) (uris : List String)
    → Exact f (λ u. base u + times uris u)
    → Exact (unlisten_all f uris) base
unfolding unlisten_all
Exact-unlisten_all f base [] h = Exact-cong f _ base (λ u. omega arith) h
Exact-unlisten_all f base (uri ∷ uris) h =
    Exact-unlisten_all (unlisten f uri) base uris
      (Exact-unlisten f _ uri (Exact-cong f _ _ (λ u. omega arith) h))

pub streams-listen_all : (f : Feed) (uris : List String) → (listen_all f uris).streams ≡ f.streams
unfolding listen_all listen
streams-listen_all f [] = refl
streams-listen_all f (uri ∷ uris) = ground (arith, streams-listen_all (listen f uri) uris)

pub streams-unlisten_all :
    (f : Feed) (uris : List String) → (unlisten_all f uris).streams ≡ f.streams
unfolding unlisten_all unlisten
streams-unlisten_all f [] = refl
streams-unlisten_all f (uri ∷ uris) = ground (arith, streams-unlisten_all (unlisten f uri) uris)

-- A list without a second occurrence of anything.
abbrev pub IsDistinct : List String → Type 0
IsDistinct uris = (u : String) → times uris u ≡ bit (includes uris u)

times-keep :
    (v u : String) (uris : List String)
    → times (keep (λ w. not (v == w)) uris) u ≡ (if v == u then 0 else times uris u)
times-keep v u [] = ground arith
times-keep v u (w ∷ uris) = ground (arith, times-keep v u uris, eq_iff v w, eq_iff w u, eq_iff v u)

bit-includes-unique :
    (uris : List String) (u : String) → times (unique uris) u ≡ bit (includes uris u)
unfolding unique
bit-includes-unique [] u = refl
bit-includes-unique (v ∷ uris) u =
    ground (arith, times-keep v u (unique uris), bit-includes-unique uris u, eq_iff v u)

times-zero : (uris : List String) (u : String) → times uris u ≡ 0 → includes uris u ≡ false
times-zero [] u h = refl
times-zero (v ∷ uris) u h = ground (arith, times-zero uris u)

times-pos : (uris : List String) (u : String) → includes uris u ≡ false → times uris u ≡ 0
times-pos [] u h = refl
times-pos (v ∷ uris) u h = ground (arith, times-pos uris u)

pub includes-unique : (uris : List String) (u : String) → includes (unique uris) u ≡ includes uris u
includes-unique uris u =
    ground
      (arith, bit-includes-unique uris u, times-zero (unique uris) u, times-pos (unique uris) u)

pub unique-IsDistinct : (uris : List String) → IsDistinct (unique uris)
unique-IsDistinct uris u = rw (includes-unique uris u) (bit-includes-unique uris u)

pub holders-put :
    (m : JsMap String (List String)) (k : String) (uris : List String) (u : String)
    → JsMap.get m k ≡ none
    → holders (JsMap.put m k uris) u ≡ holders m u + bit (includes uris u)
unfolding JsMap.put JsMap.get
holders-put [] k uris u h = omega arith
holders-put ((j, v) ∷ m) k uris u h = ground (arith, holders-put m k uris u)

pub holders-delete :
    (m : JsMap String (List String)) (k : String) (uris : List String) (u : String)
    → IsKeyed m
    → JsMap.get m k ≡ some uris
    → holders (JsMap.delete m k) u + bit (includes uris u) ≡ holders m u
unfolding JsMap.get JsMap.delete
holders-delete [] k uris u keyed h = cc
holders-delete ((j, v) ∷ m) k uris u keyed h =
    ground (arith, holders-delete m k uris u keyed.1, delete_absent m k, eq_iff j k)
