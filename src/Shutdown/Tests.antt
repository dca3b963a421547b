-- ===== src/Shutdown/Tests.antt =====
-- Runs of utils/shutdown.ts: a signal, the end of stdin, a cleanup that hangs and then ends.
use zendesk_mcp_server.Base.{◌≤◌, ◌≡◌, refl, true, number_key, text_key, Run, at_start, then_step}
use zendesk_mcp_server.Shutdown.{
  Shutdown, install_shutdown, begin_shutdown, watchdog_fires, finish_shutdown, Step, triggered,
  timed_out, cleaned, shutdown_once,
}

abbrev signalled : Shutdown
signalled = begin_shutdown (begin_shutdown install_shutdown)

abbrev over : Shutdown
over = finish_shutdown (watchdog_fires signalled)

armed : signalled.watchdog ≡ true
unfolding install_shutdown begin_shutdown
armed = refl

busy : (watchdog_fires signalled).cleaning ≡ true
unfolding install_shutdown begin_shutdown watchdog_fires
busy = refl

over-Run : Run Step install_shutdown over
over-Run =
    then_step
      (then_step (then_step (then_step at_start (triggered install_shutdown)) (triggered _))
        (timed_out signalled armed))
      (cleaned (watchdog_fires signalled) busy)

shutdown_once_example :
    (over.exits ≤ 1)
    × (over.cleanups ≤ 1)
    × (over.exits ≤ over.cleanups)
    × (over.started ≡ true → over.exits ≡ 0 → over.watchdog ≡ true)
shutdown_once_example = shutdown_once over-Run
