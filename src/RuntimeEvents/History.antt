-- ===== src/RuntimeEvents/History.antt =====
-- The ring against the history of the published events.
use ps5x_windows.Base.{
  ℕ, suc, zero, ◌+◌, ◌-◌, ◌%◌, ◌^◌, ◌≤◌, ◌<◌, ◌≡◌, refl, sym, ap, ◌∙◌, Option, none, some, List, [],
  ◌∷◌, ◌++◌, String, leb, length, drop, length-append, length-drop, drop-drop, drop_within, arith,
  Bool-cases, inl, inr, leb→le,
}
use ps5x_windows.RuntimeEvents.State.{
  EventType, profile_mark, EventPayload, monostate, profile_payload, RuntimeEvent, EventHandlerFn,
  WatchdogConfig, EventState, init, shutdown, reset, subscribe, unsubscribe, get_recent,
}
use ps5x_windows.RuntimeEvents.Publish.{
  pop_front, push_ring, make_event, on_timeline, append_timeline, announce, publish,
  publish_profile_mark,
}
use ps5x_windows.RuntimeEvents.Watchdog.{configure_watchdog, kick_watchdog}

pub data Call : Type 0 where
  publishes : (type : EventType) (payload : EventPayload) (pid tid now : ℕ) → Call
  marks : (label : String) (now again : ℕ) → Call
  subscribes : (fn : EventHandlerFn) (filter : Option EventType) → Call
  unsubscribes : (id : ℕ) → Call
  configures : (cfg : WatchdogConfig) (now : ℕ) → Call
  kicks : (now : ℕ) → Call
  resets : Call
  shuts_down : Call

unfoldable pub call : Call → EventState → Option EventState
call (publishes type payload pid tid now) s = publish type payload pid tid now s
call (marks label now again) s = publish_profile_mark label now again s
call (subscribes fn filter) s = some (subscribe fn filter s).1
call (unsubscribes id) s = some (unsubscribe id s)
call (configures cfg now) s = some (configure_watchdog cfg now s)
call (kicks now) s = some (kick_watchdog now s)
call resets s = some (reset s)
call shuts_down s = some (shutdown s)

unfoldable pub calls : List Call → EventState → Option EventState
calls [] s = some s
calls (c ∷ cs) s = elim (call c s) [ none ↦ none | some t ↦ calls cs t ]

abbrev pub next : ℕ → ℕ
next n = (n + 1) % 2 ^ 64

-- The last `n` entries of a list.
abbrev pub last : ℕ → List RuntimeEvent → List RuntimeEvent
last n es = drop (length es - n) es

-- What a bus promises, without a ring: the identifier that is next and every event since the last
-- Reset, the oldest first.
unfoldable pub record_call : Call → ℕ × List RuntimeEvent → ℕ × List RuntimeEvent
record_call (publishes type payload pid tid now) (n, es) = (
  next n,
  es
      ++ (record {
        id = n;
        type = type;
        timestamp_us = now;
        pid = pid;
        tid = tid;
        payload = payload;
      }
          ∷ []),
)
record_call (marks label now again) (n, es) = (
  next (next n),
  es
      ++ (record {
        id = n;
        type = profile_mark;
        timestamp_us = now;
        pid = 0;
        tid = 0;
        payload = profile_payload label 0;
      }
          ∷ []),
)
record_call (subscribes fn filter) a = a
record_call (unsubscribes id) a = a
record_call (configures cfg now) a = a
record_call (kicks now) a = a
record_call resets a = (1, [])
record_call shuts_down a = a

unfoldable pub record_calls : List Call → ℕ × List RuntimeEvent → ℕ × List RuntimeEvent
record_calls [] a = a
record_calls (c ∷ cs) a = record_calls cs (record_call c a)

unfoldable pub history : List Call → List RuntimeEvent
history cs = (record_calls cs (1, [])).1

pop_front-drop :
    (k : ℕ) (es : List RuntimeEvent)
    → k < length es
    → pop_front (drop k es) ≡ some (drop (suc k) es)
unfolding pop_front
pop_front-drop k [] h = absurd (omega arith)
pop_front-drop zero (e ∷ es) h = refl
pop_front-drop (suc k) (e ∷ es) h = pop_front-drop k es (omega arith)

last-last : (n bound : ℕ) (es : List RuntimeEvent) → n ≤ bound → last n (last bound es) ≡ last n es
last-last n bound es h =
    let size = length-drop (length es - bound) es in
    drop-drop (length (last bound es) - n) (length es - bound) (length es - n) es
      (ground (arith, size))

-- A push on the last entries gives the last entries of the longer history.
push_ring-last :
    (bound : ℕ) (e : RuntimeEvent) (es : List RuntimeEvent)
    → 0 < bound
    → push_ring bound e (last bound es) ≡ some (last bound (es ++ (e ∷ [])))
unfolding push_ring
push_ring-last bound e es pos =
    let size = length-drop (length es - bound) es in
    let longer = length-append es (e ∷ []) in
    let k = length es - bound in
    elim (Bool-cases (leb bound (length (last bound es)))) [
      | inl full ↦
          let le = leb→le bound (length (last bound es)) full in
          let popped = pop_front-drop k es (ground (arith, size, le)) in
          let start : length (es ++ (e ∷ [])) - bound ≡ suc k = ground (arith, size, longer, le) in
          rw (full, push_ring, popped, start)
            (ap some (sym (drop_within (suc k) es (e ∷ []) (ground (arith, size, le)))))
      | inr room ↦
          let few : length es < bound = ground (arith, size) in
          let whole : k ≡ 0 = omega arith in
          let start : length (es ++ (e ∷ [])) - bound ≡ 0 = omega (arith, longer) in
          rw (room, push_ring, start, whole) refl
    ]

-- A state that keeps the end of a history.
abbrev Keeps : ℕ → ℕ × List RuntimeEvent → EventState → Type 0
Keeps bound a s =
    (s.capacity ≡ bound)
    × (s.next_id ≡ a.0)
    × (s.ring ≡ last bound a.1)
    × (s.total_count ≡ length a.1 % 2 ^ 64)

announce-Keeps :
    (bound : ℕ) (a : ℕ × List RuntimeEvent) (e : RuntimeEvent) (s : EventState)
    → Keeps bound a s
    → Keeps bound a (announce e s)
unfolding announce append_timeline
announce-Keeps bound a e s k = elim (Bool-cases (on_timeline e.type)) [
  | inl shown ↦ rw shown k
  | inr hidden ↦ rw hidden k
]

publish-Keeps :
    (bound : ℕ) (a : ℕ × List RuntimeEvent) (s : EventState) (type : EventType)
    (payload : EventPayload) (pid tid now : ℕ)
    → 0 < bound
    → Keeps bound a s
    → (t : EventState) × (publish type payload pid tid now s ≡ some t)
      × Keeps bound (record_call (publishes type payload pid tid now) a) t
unfolding make_event record_call publish
publish-Keeps bound (n, es) s type payload pid tid now pos k =
    let e : RuntimeEvent = record {
      id = s.next_id;
      type = type;
      timestamp_us = now;
      pid = pid;
      tid = tid;
      payload = payload;
    } in
    let pushed : push_ring s.capacity e s.ring ≡ some (last bound (es ++ (e ∷ []))) =
      rw (k.0, k.2) (push_ring-last bound e es pos) in
    let u = record s {
      next_id = next s.next_id;
      total_count = next s.total_count;
      ring = last bound (es ++ (e ∷ []));
    } in
    let counted : next s.total_count ≡ length (es ++ (e ∷ [])) % 2 ^ 64 =
      omega (arith, k.3, length-append es (e ∷ [])) in
    (
      announce e u,
      rw (publish, pushed) refl,
      announce-Keeps bound (record_call (publishes type payload pid tid now) (n, es)) e u
          (k.0, ap next k.1, rw (sym k.1) refl, rw (sym k.1) counted),
    )

last_nothing : (n : ℕ) → [] ≡ last n []
last_nothing n = let none_left : 0 ≡ 0 - n = omega arith in ap (λ k. drop k []) none_left

call-Keeps :
    (bound : ℕ) (a : ℕ × List RuntimeEvent) (s : EventState) (c : Call)
    → 0 < bound
    → Keeps bound a s
    → (t : EventState) × (call c s ≡ some t) × Keeps bound (record_call c a) t
unfolding call record_call subscribe unsubscribe configure_watchdog kick_watchdog reset shutdown
    publish_profile_mark make_event append_timeline
call-Keeps bound a s (publishes type payload pid tid now) pos k =
    publish-Keeps bound a s type payload pid tid now pos k
call-Keeps bound a s (marks label now again) pos k =
    let (t, e, v) = publish-Keeps bound a s profile_mark (profile_payload label 0) 0 0 now pos k in
    let (extra, u) = make_event profile_mark monostate 0 0 again t in
    (append_timeline extra label u, rw (e, publish_profile_mark) refl, (v.0, ap next v.1, v.2, v.3))
call-Keeps bound a s (subscribes fn filter) pos k = (_, refl, k)
call-Keeps bound a s (unsubscribes id) pos k = (_, refl, k)
call-Keeps bound a s (configures cfg now) pos k = elim (Bool-cases cfg.enabled) [
  | inl on ↦ (_, refl, rw on k)
  | inr off ↦ (_, refl, rw off k)
]
call-Keeps bound a s (kicks now) pos k = (_, refl, k)
call-Keeps bound a s resets pos k = (_, refl, (k.0, refl, last_nothing bound, refl))
call-Keeps bound a s shuts_down pos k = (_, refl, k)

calls-Keeps :
    (bound : ℕ) (a : ℕ × List RuntimeEvent) (s : EventState) (cs : List Call)
    → 0 < bound
    → Keeps bound a s
    → (t : EventState) × (calls cs s ≡ some t) × Keeps bound (record_calls cs a) t
unfolding calls record_calls
calls-Keeps bound a s [] pos k = (s, refl, k)
calls-Keeps bound a s (c ∷ cs) pos k =
    let (t, e, v) = call-Keeps bound a s c pos k in
    let (u, f, w) = calls-Keeps bound (record_call c a) t cs pos v in (u, rw (e, calls) f, w)

get_recent-last : (n : ℕ) (s : EventState) → get_recent n s ≡ last n s.ring
unfolding get_recent
get_recent-last n s = ap (λ k. drop k s.ring) (ground arith)

-- After Init with a capacity that is not 0 and any calls of Publish, PublishProfileMark,
-- Subscribe, Unsubscribe, Reset, Shutdown and of the watchdog's settings, none of which fails: the
-- ring is the last events, as many as the capacity, of the history of events since the last Reset,
-- the count is the length of that history (modulo 2 ^ 64), and GetRecent of up to the capacity
-- gives the last events of the history.
pub get_recent-history :
    (bound : ℕ) (s : EventState) (cs : List Call)
    → 0 < bound
    → (t : EventState) × (calls cs (init bound s) ≡ some t)
      × (t.ring ≡ last bound (history cs))
      × (t.total_count ≡ length (history cs) % 2 ^ 64)
      × ((n : ℕ) → n ≤ bound → get_recent n t ≡ last n (history cs))
unfolding init history
get_recent-history bound s cs pos =
    let (t, e, k) =
      calls-Keeps bound (1, []) (init bound s) cs pos (refl, refl, last_nothing bound, refl) in
    (t, e, k.2, k.3, λ n h. get_recent-last n t ∙ rw k.2 (last-last n bound (history cs) h))
