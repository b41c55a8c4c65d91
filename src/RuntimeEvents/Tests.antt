-- ===== src/RuntimeEvents/Tests.antt =====
-- The theorems at concrete states.
use ps5x_windows.Base.{
  ℕ, ◌≤◌, ◌%◌, ◌^◌, ◌≡◌, refl, none, some, List, [], ◌∷◌, ◌++◌, true, false, length, arith,
}
use ps5x_windows.RuntimeEvents.State.{
  thread_spawned, custom, watchdog_timeout, monostate, RuntimeEvent, calls_client, EventState, init,
  get_recent,
}
use ps5x_windows.RuntimeEvents.Watchdog.{is_watchdog_armed, watch}
use ps5x_windows.RuntimeEvents.History.{
  Call, publishes, marks, subscribes, kicks, last, history, calls, get_recent-history,
}
use ps5x_windows.RuntimeEvents.Unanswered.{watch-timeout}

abbrev quiet : EventState
quiet = record {
  ring = [];
  capacity = 2;
  total_count = 0;
  next_id = 1;
  handlers = [];
  next_handler_id = 1;
  timeline = [];
  watchdog = record {
    cfg = record { warning_us = 10; timeout_us = 50; enabled = true };
    last_kick_us = 100;
    running = true;
  };
  profile_begin_times = [];
  cat_counts = λ i. 0;
  delivered = [];
}

abbrev busy_calls : List Call
busy_calls =
    subscribes (calls_client 7) none
    ∷ publishes custom monostate 0 0 5
    ∷ marks "frame" 6 7
    ∷ kicks 8
    ∷ publishes thread_spawned monostate 1 2 9
    ∷ []

get_recent-history_example :
    (t : EventState) × (calls busy_calls (init 2 quiet) ≡ some t)
    × (t.ring ≡ last 2 (history busy_calls))
    × (t.total_count ≡ length (history busy_calls) % 2 ^ 64)
    × ((n : ℕ) → n ≤ 2 → get_recent n t ≡ last n (history busy_calls))
get_recent-history_example = get_recent-history 2 quiet busy_calls (omega arith)

watch-timeout_example :
    (t : EventState) × (rest : List RuntimeEvent) × (e : RuntimeEvent) × (watch
        (((120, 121) ∷ []) ++ ((150, 151) ∷ []))
        quiet
      ≡ some (false, t))
    × (t.ring ≡ rest ++ (e ∷ []))
    × (e.type ≡ watchdog_timeout)
    × (is_watchdog_armed t ≡ true)
watch-timeout_example =
    watch-timeout quiet ((120, 121) ∷ []) 150 151 (omega arith) refl (omega arith) (omega arith)
      (omega arith)
