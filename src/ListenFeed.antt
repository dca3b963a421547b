-- ===== src/ListenFeed.antt =====
-- utils/listen-feed.ts: the URIs listened to over all open streams, told to the attached sinks.
-- A sink is its number; a notification is an entry of the log, as is an attach, from which on what a
-- sink was told counts. What a sink does with it, and whether it throws, changes nothing in the feed.
pub mod Counts
pub mod Sinks
pub mod Invariant
mod Tests
use zendesk_mcp_server.Base.{
  ℕ, ◌+◌, ◌-◌, String, not, Option, none, some, List, [], ◌∷◌, ◌++◌, ltb, if◌then◌else◌, keep, ◌==◌,
  number_key, text_key, includes,
}
use zendesk_mcp_server.Base.JsMap
use zendesk_mcp_server.Base.JsMap.{JsMap}

pub data Change : Type 0 where
  add remove : Change

pub record Notice : Type 0 where
  pub sink : ℕ
  pub change : Change
  pub uri : String

-- What happens to the sinks, in order.
pub data SinkEvent : Type 0 where
  joined : ℕ → SinkEvent
  notified : Notice → SinkEvent

pub record Feed : Type 0 where
  pub streams : JsMap String (List String)
  pub listeners : JsMap String ℕ
  pub sinks : List ℕ
  pub log : List SinkEvent

unfoldable pub create_listen_feed : Feed
create_listen_feed = record { streams = []; listeners = []; sinks = []; log = [] }

-- `for (const sink of sinks) tell(sink, change, uri)`
abbrev pub tell_all : List ℕ → Change → String → List SinkEvent
tell_all [] change uri = []
tell_all (s ∷ sinks) change uri =
    notified (record { sink = s; change = change; uri = uri }) ∷ tell_all sinks change uri

abbrev pub told : Feed → Change → String → Feed
told f change uri = record f { log = f.log ++ tell_all f.sinks change uri }

-- `listeners.get(uri) ?? 0`
abbrev pub count_or_zero : Option ℕ → ℕ
count_or_zero none = 0
count_or_zero (some n) = n

abbrev pub count : Feed → String → ℕ
count f uri = count_or_zero (JsMap.get f.listeners uri)

-- `new Set(uris)`, in the order of first occurrence
unfoldable pub unique : List String → List String
unique [] = []
unique (u ∷ uris) = u ∷ keep (λ v. not (u == v)) (unique uris)

-- one round of the loop of `close`; the count is an integer that the test `count > 0` guards
unfoldable pub unlisten : Feed → String → Feed
unlisten f uri =
    if ltb 1 (count f uri)
    then record f { listeners = JsMap.put f.listeners uri (count f uri - 1) }
    else told (record f { listeners = JsMap.delete f.listeners uri }) remove uri

unfoldable pub unlisten_all : Feed → List String → Feed
unfolding unlisten
unlisten_all f [] = f
unlisten_all f (uri ∷ uris) = unlisten_all (unlisten f uri) uris

abbrev pub close_stream : Feed → String → Option (List String) → Feed
close_stream f key none = f
close_stream f key (some uris) =
    unlisten_all (record f { streams = JsMap.delete f.streams key }) uris

unfoldable pub close : Feed → String → Feed
unfolding unlisten_all
close f key = close_stream f key (JsMap.get f.streams key)

-- one round of the loop of `open`
unfoldable pub listen : Feed → String → Feed
listen f uri =
    let g = record f { listeners = JsMap.put f.listeners uri (count f uri + 1) } in
    if count f uri + 1 == 1 then told g add uri else g

unfoldable pub listen_all : Feed → List String → Feed
unfolding listen
listen_all f [] = f
listen_all f (uri ∷ uris) = listen_all (listen f uri) uris

abbrev pub open_stream : Feed → String → List String → Option (List String) → Feed
open_stream f key uris (some _) = f
open_stream f key uris none =
    listen_all (record f { streams = JsMap.put f.streams key (unique uris) }) (unique uris)

unfoldable pub open_key : Feed → String → List String → Feed
unfolding listen_all unique
open_key f key uris = open_stream f key uris (JsMap.get f.streams key)

abbrev pub keys {ℓ} : {V : Type ℓ} → JsMap String V → List String
keys [] = []
keys ((k, v) ∷ m) = k ∷ keys m

unfoldable pub close_keys : Feed → List String → Feed
unfolding close
close_keys f [] = f
close_keys f (k ∷ ks) = close_keys (close f k) ks

unfoldable pub close_all : Feed → Feed
unfolding close_keys
close_all f = close_keys f (keys f.streams)

abbrev pub tell_each : ℕ → List String → List SinkEvent
tell_each sink [] = []
tell_each sink (uri ∷ uris) =
    notified (record { sink = sink; change = add; uri = uri }) ∷ tell_each sink uris

-- `sinks.add(sink)`, then every URI listened to now
unfoldable pub attach : Feed → ℕ → Feed
attach f sink =
    let g = record f { sinks = if includes f.sinks sink then f.sinks else f.sinks ++ sink ∷ [] } in
    record g { log = f.log ++ joined sink ∷ tell_each sink (keys f.listeners) }

-- the function that `attach` returns
unfoldable pub detach : Feed → ℕ → Feed
detach f sink = record f { sinks = keep (λ s. not (s == sink)) f.sinks }
