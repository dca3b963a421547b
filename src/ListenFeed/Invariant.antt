-- ===== src/ListenFeed/Invariant.antt =====
-- utils/listen-feed.ts between two calls, whatever calls its owner makes.
use zendesk_mcp_server.Base.{
  Run, Run-keeps, ℕ, zero, suc, String, ◌≡◌, refl, sym, inl, inr, true, none, some, List, [], ◌∷◌,
  arith, ltb, Bool-cases, Option-cases, ◌==◌, number_key, text_key, includes,
}
use zendesk_mcp_server.Base.JsMap
use zendesk_mcp_server.Base.JsMap.{JsMap, IsKeyed, IsKeyed-put, IsKeyed-delete, get-put, get-delete}
use zendesk_mcp_server.ListenFeed.{
  Feed, create_listen_feed, unique, unlisten_all, close, close_stream, listen_all, open_key,
  open_stream, keys, close_keys, close_all, attach, detach,
}
use zendesk_mcp_server.ListenFeed.Counts.{
  holders, counted, Exact, Exact-cong, Exact-listen_all, Exact-unlisten_all, streams-listen_all,
  streams-unlisten_all, IsDistinct, unique-IsDistinct, holders-put, holders-delete,
}
use zendesk_mcp_server.ListenFeed.Sinks.{
  view, has_value, Seen, Seen-listen_all, Seen-unlisten_all, Seen-attach, Seen-detach,
}

pub record IsConsistent (f : Feed) : Type 0 where
  pub keyed : IsKeyed f.streams
  pub distinct :
      (k : String) (uris : List String) → JsMap.get f.streams k ≡ some uris → IsDistinct uris
  pub exact : Exact f (holders f.streams)
  pub seen : Seen f

create-IsConsistent : IsConsistent create_listen_feed
unfolding create_listen_feed JsMap.get
create-IsConsistent = record {
  keyed = tt;
  distinct = λ k uris h. cc;
  exact = λ u. refl;
  seen = λ s member u. refl;
}

open_fresh :
    (f : Feed) (key : String) (uris : List String)
    → JsMap.get f.streams key ≡ none
    → IsConsistent f
    → IsConsistent (open_stream f key uris none)
open_fresh f key uris fresh c =
    let g = record f { streams = JsMap.put f.streams key (unique uris) } in
    let same = streams-listen_all g (unique uris) in
    record {
      keyed = rw same (IsKeyed-put f.streams key (unique uris) c.keyed);
      distinct = λ k us h. elim (Bool-cases (key == k)) [
        | inl same_key ↦
            let found : some (unique uris) ≡ some us =
              (rw (get-put f.streams key k (unique uris), same_key) at (rw same at h)) in
            let e : unique uris ≡ us = cc in rw (← e) (unique-IsDistinct uris)
        | inr other ↦
            c.distinct k us (rw (get-put f.streams key k (unique uris), other) at (rw same at h))
      ];
      exact =
          Exact-cong (listen_all g (unique uris)) _ _
            (λ u.
              rw same
                (rw (holders-put f.streams key (unique uris) u fresh, unique-IsDistinct uris u)))
            (Exact-listen_all g (holders f.streams) (unique uris) c.exact);
      seen = Seen-listen_all g (unique uris) c.seen;
    }

pub open_key-IsConsistent :
    (f : Feed) (key : String) (uris : List String)
    → IsConsistent f
    → IsConsistent (open_key f key uris)
unfolding open_key
open_key-IsConsistent f key uris c = elim (Option-cases (JsMap.get f.streams key)) [
  | inl fresh ↦ rw fresh (open_fresh f key uris fresh c)
  | inr (old, there) ↦ rw there c
]

close_open :
    (f : Feed) (key : String) (uris : List String)
    → JsMap.get f.streams key ≡ some uris
    → IsConsistent f
    → IsConsistent (close_stream f key (some uris))
close_open f key uris there c =
    let g = record f { streams = JsMap.delete f.streams key } in
    let same = streams-unlisten_all g uris in
    record {
      keyed = rw same (IsKeyed-delete f.streams key c.keyed);
      distinct = λ k us h. elim (Bool-cases (key == k)) [
        | inl same_key ↦
            let gone : none ≡ some us =
              (rw (get-delete f.streams key k, same_key) at (rw same at h)) in
            cc
        | inr other ↦ c.distinct k us (rw (get-delete f.streams key k, other) at (rw same at h))
      ];
      exact =
          Exact-cong (unlisten_all g uris) _ _ (λ u. rw same)
            (Exact-unlisten_all g (holders (JsMap.delete f.streams key)) uris (
              Exact-cong g _ _
                (λ u.
                  rw (c.distinct key uris there u)
                    (sym (holders-delete f.streams key uris u c.keyed there)))
                c.exact));
      seen = Seen-unlisten_all g uris c.seen;
    }

pub close-IsConsistent : (f : Feed) (key : String) → IsConsistent f → IsConsistent (close f key)
unfolding close
close-IsConsistent f key c = elim (Option-cases (JsMap.get f.streams key)) [
  | inl missing ↦ rw missing c
  | inr (uris, there) ↦ rw there (close_open f key uris there c)
]

close_keys-IsConsistent :
    (f : Feed) (ks : List String) → IsConsistent f → IsConsistent (close_keys f ks)
unfolding close_keys
close_keys-IsConsistent f [] c = c
close_keys-IsConsistent f (k ∷ ks) c =
    close_keys-IsConsistent (close f k) ks (close-IsConsistent f k c)

-- The calls that the owner of a feed can make.
pub data Step : Feed → Feed → Type 0 where
  opened : (f : Feed) (key : String) (uris : List String) → Step f (open_key f key uris)
  closed : (f : Feed) (key : String) → Step f (close f key)
  closed_all : (f : Feed) → Step f (close_all f)
  attached : (f : Feed) (sink : ℕ) → Step f (attach f sink)
  detached : (f : Feed) (sink : ℕ) → Step f (detach f sink)

Step-IsConsistent : {f g : Feed} → Step f g → IsConsistent f → IsConsistent g
unfolding close_all attach detach
Step-IsConsistent (opened f key uris) c = open_key-IsConsistent f key uris c
Step-IsConsistent (closed f key) c = close-IsConsistent f key c
Step-IsConsistent (closed_all f) c = close_keys-IsConsistent f (keys f.streams) c
Step-IsConsistent (attached f sink) c = record {
  keyed = c.keyed;
  distinct = c.distinct;
  exact = c.exact;
  seen = Seen-attach f sink c.seen;
}
Step-IsConsistent (detached f sink) c = record {
  keyed = c.keyed;
  distinct = c.distinct;
  exact = c.exact;
  seen = Seen-detach f sink c.seen;
}

pub Run-IsConsistent : {f g : Feed} → IsConsistent f → Run Step f g → IsConsistent g
Run-IsConsistent = Run-keeps IsConsistent (λ f g step. Step-IsConsistent step)

-- After any calls on a new feed, a URI has as many listeners as there are open streams that hold
-- it, and no entry where there is none.
pub listeners_exact :
    {f : Feed}
    → Run Step create_listen_feed f
    → (u : String) → JsMap.get f.listeners u ≡ counted (holders f.streams u)
listeners_exact r u = (Run-IsConsistent create-IsConsistent r).exact u

has_value-counted : (n : ℕ) → has_value (counted n) ≡ ltb 0 n
has_value-counted zero = refl
has_value-counted (suc n) = ground arith

-- After any calls on a new feed, for every attached sink and every URI: among the notices to the sink
-- since its last attach there is one about the URI, and the last of them is an addition, if and only
-- if some open stream holds the URI.
pub sinks_informed :
    {f : Feed} (s : ℕ) (u : String)
    → Run Step create_listen_feed f
    → includes f.sinks s ≡ true
    → view f s u ≡ ltb 0 (holders f.streams u)
sinks_informed s u r member =
    let c = Run-IsConsistent create-IsConsistent r in
    rw (c.seen s member u, c.exact u) (has_value-counted _)
