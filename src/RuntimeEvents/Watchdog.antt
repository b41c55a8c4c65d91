-- ===== src/RuntimeEvents/Watchdog.antt =====
-- ConfigureWatchdog, KickWatchdog, and the watchdog's thread by its rounds.
use ps5x_windows.Base.{
  ℕ, ◌+◌, ◌-◌, ◌%◌, ◌^◌, Option, none, some, Bool, true, false, leb, List, [], ◌∷◌, if◌then◌else◌,
}
use ps5x_windows.RuntimeEvents.State.{
  watchdog_warning, watchdog_timeout, custom_payload, WatchdogConfig, EventState,
}
use ps5x_windows.RuntimeEvents.Publish.{publish}

unfoldable pub configure_watchdog : WatchdogConfig → ℕ → EventState → EventState
configure_watchdog cfg now s =
    let t = record s { watchdog = record s.watchdog { cfg = cfg; running = false } } in
    if cfg.enabled
    then record t { watchdog = record t.watchdog { last_kick_us = now; running = true } }
    else t

unfoldable pub kick_watchdog : ℕ → EventState → EventState
kick_watchdog now s = record s { watchdog = record s.watchdog { last_kick_us = now } }

unfoldable pub is_watchdog_armed : EventState → Bool
is_watchdog_armed s = s.watchdog.running

-- A round of the thread behind its sleep, with the time that it reads and the time of its event:
-- whether the thread goes on, and the state.
unfoldable pub watch_round : (now again : ℕ) → EventState → Option (Bool × EventState)
watch_round now again s =
    let elapsed = (now + 2 ^ 64 - s.watchdog.last_kick_us) % 2 ^ 64 in
    let timeout =
      publish watchdog_timeout (custom_payload "watchdog" "guest timeout") 0 0 again s in
    let warning =
      publish watchdog_warning (custom_payload "watchdog" "guest unresponsive") 0 0 again s in
    if s.watchdog.running
    then if leb s.watchdog.cfg.timeout_us elapsed
      then elim timeout [ none ↦ none | some t ↦ some (false, t) ]
      else if leb s.watchdog.cfg.warning_us elapsed
      then elim warning [ none ↦ none | some t ↦ some (true, t) ]
      else some (true, s)
    else some (false, s)

-- The thread for the times of its rounds, in which nobody else calls: whether it goes on.
unfoldable pub watch : List (ℕ × ℕ) → EventState → Option (Bool × EventState)
watch [] s = some (true, s)
watch ((now, again) ∷ rs) s = elim (watch_round now again s) [
  | none ↦ none
  | some (goes_on, t) ↦ let rest = watch rs t in if goes_on then rest else some (false, t)
]
