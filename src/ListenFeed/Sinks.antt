-- ===== src/ListenFeed/Sinks.antt =====
-- What each sink of utils/listen-feed.ts takes to be listened to: its last notice about a URI since
-- it last attached decides.
use zendesk_mcp_server.Base.{
  ℕ, ◌+◌, ◌-◌, String, ◌≡◌, refl, inl, inr, Bool, true, false, not, ◌&&◌, ◌||◌, Option, none, some,
  List, [], ◌∷◌, ◌++◌, arith, eq_iff, if◌then◌else◌, Bool-cases, keep, ◌==◌, number_key, text_key,
  includes,
}
use zendesk_mcp_server.Base.JsMap
use zendesk_mcp_server.Base.JsMap.{JsMap, get-put, get-delete}
use zendesk_mcp_server.ListenFeed.{
  Change, add, remove, SinkEvent, joined, notified, Feed, tell_all, told, count, unlisten,
  unlisten_all, listen, listen_all, keys, tell_each, attach, detach,
}

abbrev pub is_add : Change → Bool
is_add add = true
is_add remove = false

abbrev pub view_from : Bool → List SinkEvent → ℕ → String → Bool
view_from held [] s u = held
view_from held (joined sink ∷ ns) s u = view_from (if sink == s then false else held) ns s u
view_from held (notified n ∷ ns) s u =
    view_from (if (n.sink == s) && (n.uri == u) then is_add n.change else held) ns s u

-- Whether a sink takes a URI to be listened to.
abbrev pub view : Feed → ℕ → String → Bool
view f s u = view_from false f.log s u

abbrev pub has_value {ℓ} : {A : Type ℓ} → Option A → Bool
has_value none = false
has_value (some a) = true

pub view_from-append :
    (held : Bool) (xs ys : List SinkEvent) (s : ℕ) (u : String)
    → view_from held (xs ++ ys) s u ≡ view_from (view_from held xs s u) ys s u
view_from-append held [] ys s u = refl
view_from-append held (joined sink ∷ xs) ys s u =
    view_from-append (if sink == s then false else held) xs ys s u
view_from-append held (notified n ∷ xs) ys s u =
    view_from-append (if (n.sink == s) && (n.uri == u) then is_add n.change else held) xs ys s u

view-tell_all :
    (held : Bool) (sinks : List ℕ) (c : Change) (uri : String) (s : ℕ) (u : String)
    → view_from held (tell_all sinks c uri) s u
      ≡ (if includes sinks s && (uri == u) then is_add c else held)
view-tell_all held [] c uri s u = refl
view-tell_all held (t ∷ sinks) c uri s u =
    ground
      (arith, view-tell_all (if (t == s) && (uri == u) then is_add c else held) sinks c uri s u)

pub view-tell_each :
    (held : Bool) (sink : ℕ) (uris : List String) (s : ℕ) (u : String)
    → view_from held (tell_each sink uris) s u
      ≡ (if (sink == s) && includes uris u then true else held)
view-tell_each held sink [] s u = ground arith
view-tell_each held sink (v ∷ uris) s u =
    ground (arith, view-tell_each (if (sink == s) && (v == u) then true else held) sink uris s u)

view-told :
    (f : Feed) (c : Change) (uri : String) (s : ℕ) (u : String)
    → view (told f c uri) s u ≡ (if includes f.sinks s && (uri == u) then is_add c else view f s u)
view-told f c uri s u =
    rw (view_from-append false f.log (tell_all f.sinks c uri) s u)
      (view-tell_all (view f s u) f.sinks c uri s u)

-- Every attached sink knows exactly the URIs that have listeners.
abbrev pub Seen : Feed → Type 0
Seen f =
    (s : ℕ)
    → includes f.sinks s ≡ true
    → (u : String) → view f s u ≡ has_value (JsMap.get f.listeners u)

sinks-listen : (f : Feed) (uri : String) → (listen f uri).sinks ≡ f.sinks
unfolding listen
sinks-listen f uri = ground arith

sinks-unlisten : (f : Feed) (uri : String) → (unlisten f uri).sinks ≡ f.sinks
unfolding unlisten
sinks-unlisten f uri = ground arith

Seen-listen : (f : Feed) (uri : String) → Seen f → Seen (listen f uri)
unfolding listen
Seen-listen f uri h s member u =
    let g = record f { listeners = JsMap.put f.listeners uri (count f uri + 1) } in
    let member' : includes f.sinks s ≡ true = rw (sinks-listen f uri) at member in
    ground (
      arith,
      h s member' u,
      view-told g add uri s u,
      get-put f.listeners uri u (count f uri + 1),
      eq_iff uri u,
    )

Seen-unlisten : (f : Feed) (uri : String) → Seen f → Seen (unlisten f uri)
unfolding unlisten
Seen-unlisten f uri h s member u =
    let g = record f { listeners = JsMap.delete f.listeners uri } in
    let member' : includes f.sinks s ≡ true = rw (sinks-unlisten f uri) at member in
    ground (
      arith,
      h s member' u,
      view-told g remove uri s u,
      get-put f.listeners uri u (count f uri - 1),
      get-delete f.listeners uri u,
      eq_iff uri u,
    )

pub Seen-listen_all : (f : Feed) (uris : List String) → Seen f → Seen (listen_all f uris)
unfolding listen_all
Seen-listen_all f [] h = h
Seen-listen_all f (uri ∷ uris) h = Seen-listen_all (listen f uri) uris (Seen-listen f uri h)

pub Seen-unlisten_all : (f : Feed) (uris : List String) → Seen f → Seen (unlisten_all f uris)
unfolding unlisten_all
Seen-unlisten_all f [] h = h
Seen-unlisten_all f (uri ∷ uris) h = Seen-unlisten_all (unlisten f uri) uris (Seen-unlisten f uri h)

includes-keys : (m : JsMap String ℕ) (u : String) → includes (keys m) u ≡ has_value (JsMap.get m u)
unfolding JsMap.get
includes-keys [] u = refl
includes-keys ((k, n) ∷ m) u = ground (arith, includes-keys m u)

includes-append :
    (xs ys : List ℕ) (s : ℕ) → includes (xs ++ ys) s ≡ (includes xs s || includes ys s)
includes-append [] ys s = refl
includes-append (x ∷ xs) ys s = ground (arith, includes-append xs ys s)

includes-keep :
    (sink : ℕ) (xs : List ℕ) (s : ℕ)
    → includes (keep (λ t. not (t == sink)) xs) s ≡ true
    → includes xs s ≡ true
includes-keep sink [] s h = h
includes-keep sink (x ∷ xs) s h = ground (arith, includes-keep sink xs s)

pub Seen-attach : (f : Feed) (sink : ℕ) → Seen f → Seen (attach f sink)
unfolding attach
Seen-attach f sink h s member u =
    rw
      (
        view_from-append false f.log (joined sink ∷ tell_each sink (keys f.listeners)) s u,
        view-tell_each (if sink == s then false else view f s u) sink (keys f.listeners) s u,
        includes-keys f.listeners u,
      )
      (elim (Bool-cases (sink == s)) [
        | inl same ↦ rw same (ground arith)
        | inr other ↦ rw other (h s (ground (arith, includes-append f.sinks (sink ∷ []) s)) u)
      ])

pub Seen-detach : (f : Feed) (sink : ℕ) → Seen f → Seen (detach f sink)
unfolding detach
Seen-detach f sink h s member u = h s (includes-keep sink f.sinks s member) u
