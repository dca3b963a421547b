-- ===== src/Shutdown.antt =====
-- utils/shutdown.ts: the one shutdown path of the process, cut where it waits for the cleanup. The
-- counts of cleanups and exits are kept beside the two flags of the code; signals, the end of stdin
-- and the timer are steps. Logging is left out.
mod Tests
use zendesk_mcp_server.Base.{
  ℕ, ◌+◌, ◌≤◌, ◌≡◌, Bool, true, false, arith, if◌then◌else◌, number_key, text_key, Run, Run-keeps,
}

pub record Shutdown : Type 0 where
  pub started : Bool
  pub exited : Bool
  pub watchdog : Bool
  pub cleaning : Bool
  pub cleanups : ℕ
  pub exits : ℕ

unfoldable pub install_shutdown : Shutdown
install_shutdown = record {
  started = false;
  exited = false;
  watchdog = false;
  cleaning = false;
  cleanups = 0;
  exits = 0;
}

unfoldable pub exit_once : Shutdown → Shutdown
exit_once s = if s.exited then s else record s { exited = true; exits = s.exits + 1 }

-- `shutdown` up to its wait for the cleanup
unfoldable pub begin_shutdown : Shutdown → Shutdown
begin_shutdown s =
    if s.started
    then s
    else record s { started = true; watchdog = true; cleaning = true; cleanups = s.cleanups + 1 }

-- the timer runs out
unfoldable pub watchdog_fires : Shutdown → Shutdown
unfolding exit_once
watchdog_fires s = exit_once (record s { watchdog = false })

-- the cleanup ended, with an error or without
unfoldable pub finish_shutdown : Shutdown → Shutdown
unfolding exit_once
finish_shutdown s = exit_once (record s { watchdog = false; cleaning = false })

pub data Step : Shutdown → Shutdown → Type 0 where
  triggered : (s : Shutdown) → Step s (begin_shutdown s)
  timed_out : (s : Shutdown) → s.watchdog ≡ true → Step s (watchdog_fires s)
  cleaned : (s : Shutdown) → s.cleaning ≡ true → Step s (finish_shutdown s)

abbrev pub bit : Bool → ℕ
bit true = 1
bit false = 0

pub record IsOrderly (s : Shutdown) : Type 0 where
  pub exit_count : s.exits ≡ bit s.exited
  pub cleanup_count : s.cleanups ≡ bit s.started
  pub guarded : s.started ≡ true → s.exited ≡ false → s.watchdog ≡ true
  pub exit_started : s.exited ≡ true → s.started ≡ true
  pub watched : s.watchdog ≡ true → s.started ≡ true
  pub cleans : s.cleaning ≡ true → s.started ≡ true

Step-IsOrderly : {s t : Shutdown} → Step s t → IsOrderly s → IsOrderly t
unfolding begin_shutdown watchdog_fires finish_shutdown exit_once
Step-IsOrderly (triggered s) o = ground arith
Step-IsOrderly (timed_out s armed) o = ground arith
Step-IsOrderly (cleaned s busy) o = ground arith

create-IsOrderly : IsOrderly install_shutdown
unfolding install_shutdown
create-IsOrderly = ground arith

-- However signals, the end of stdin, the timer and the end of the cleanup interleave, the process
-- exits once at most and cleans up once at most, exits only after a shutdown has begun, and from
-- then on the watchdog is armed until it has exited.
pub shutdown_once :
    {s : Shutdown}
    → Run Step install_shutdown s
    → (s.exits ≤ 1)
      × (s.cleanups ≤ 1)
      × (s.exits ≤ s.cleanups)
      × (s.started ≡ true → s.exits ≡ 0 → s.watchdog ≡ true)
shutdown_once r =
    let o = Run-keeps IsOrderly (λ s t step. Step-IsOrderly step) create-IsOrderly r in
    (ground arith, ground arith, ground arith, ground arith)
