-- ===== src/ListenFeed/Tests.antt =====
-- Runs of utils/listen-feed.ts: two streams that share a URI, and a sink.
use zendesk_mcp_server.Base.{
  Run, at_start, then_step, ◌≡◌, refl, true, [], ◌∷◌, ltb, number_key, text_key, includes,
}
use zendesk_mcp_server.Base.JsMap
use zendesk_mcp_server.Base.JsMap.{JsMap}
use zendesk_mcp_server.ListenFeed.{Feed, create_listen_feed, open_key, close, attach, detach}
use zendesk_mcp_server.ListenFeed.Counts.{holders, counted}
use zendesk_mcp_server.ListenFeed.Sinks.{view}
use zendesk_mcp_server.ListenFeed.Invariant.{
  Step, opened, closed, attached, detached, listeners_exact, sinks_informed,
}

abbrev sink_attached : Feed
sink_attached = attach create_listen_feed 7

abbrev both_open : Feed
both_open = open_key (open_key sink_attached "a" ("x" ∷ "y" ∷ "x" ∷ [])) "b" ("y" ∷ [])

abbrev one_closed : Feed
one_closed = close both_open "a"

one_closed-Run : Run Step create_listen_feed one_closed
one_closed-Run =
    then_step
      (then_step (then_step (then_step at_start (attached create_listen_feed 7)) (opened _ "a" _))
        (opened _ "b" _))
      (closed both_open "a")

-- `y` is still listened to, `x` no more
one_closed_holders : (holders one_closed.streams "y" ≡ 1) × (holders one_closed.streams "x" ≡ 0)
unfolding create_listen_feed attach open_key close JsMap.get JsMap.put JsMap.delete
one_closed_holders = (refl, refl)

-- the sink is away while the last stream closes, and attaches again: it takes nothing to be listened to
abbrev back : Feed
back = attach (close (detach one_closed 7) "b") 7

back-Run : Run Step create_listen_feed back
back-Run =
    then_step
      (then_step (then_step one_closed-Run (detached one_closed 7))
        (closed (detach one_closed 7) "b"))
      (attached (close (detach one_closed 7) "b") 7)

back_kept : includes back.sinks 7 ≡ true
unfolding create_listen_feed attach open_key close JsMap.get JsMap.put JsMap.delete detach
back_kept = refl

sinks_informed_example : view back 7 "y" ≡ ltb 0 (holders back.streams "y")
sinks_informed_example = sinks_informed 7 "y" back-Run back_kept

listeners_exact_example :
    JsMap.get one_closed.listeners "y" ≡ counted (holders one_closed.streams "y")
listeners_exact_example = listeners_exact one_closed-Run "y"
