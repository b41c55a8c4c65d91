-- ===== src/RuntimeEvents/Unanswered.antt =====
-- The watchdog when the guest does not answer.
use ps5x_windows.Base.{
  ℕ, ◌+◌, ◌-◌, ◌%◌, ◌^◌, ◌≤◌, ◌<◌, ◌≡◌, refl, ap, ◌∙◌, some, List, [], ◌∷◌, ◌++◌, true, false, leb,
  length, arith, Bool-cases, inl, inr, leb→le,
}
use ps5x_windows.RuntimeEvents.State.{
  EventType, watchdog_timeout, watchdog_warning, EventPayload, custom_payload, RuntimeEvent,
  EventState,
}
use ps5x_windows.RuntimeEvents.Publish.{
  pop_front, push_ring, make_event, on_timeline, append_timeline, announce, publish,
}
use ps5x_windows.RuntimeEvents.Watchdog.{is_watchdog_armed, watch_round, watch}

push_ring_lem :
    (bound : ℕ) (e : RuntimeEvent) (es : List RuntimeEvent)
    → 0 < bound
    → (rest : List RuntimeEvent) × (push_ring bound e es ≡ some (rest ++ (e ∷ [])))
unfolding push_ring pop_front
push_ring_lem bound e [] pos = elim (Bool-cases (leb bound 0)) [
  | inl full ↦ absurd (omega (arith, leb→le bound 0 full))
  | inr room ↦ ([], rw (room, push_ring) refl)
]
push_ring_lem bound e (x ∷ xs) pos = elim (Bool-cases (leb bound (length (x ∷ xs)))) [
  | inl full ↦ (xs, rw (full, push_ring) refl)
  | inr room ↦ (x ∷ xs, rw (room, push_ring) refl)
]

-- What a publication of an event with the type does to the ring, and what it leaves alone.
abbrev pub Published : EventType → EventState → EventState → Type 0
Published type s t =
    (t.capacity ≡ s.capacity)
    × (t.watchdog ≡ s.watchdog)
    × (rest : List RuntimeEvent) × (e : RuntimeEvent) × (t.ring ≡ rest ++ (e ∷ []))
    × (e.type ≡ type)

pub publish_lem :
    (type : EventType) (payload : EventPayload) (pid tid now : ℕ) (s : EventState)
    → 0 < s.capacity
    → (t : EventState) × (publish type payload pid tid now s ≡ some t) × Published type s t
unfolding publish make_event announce append_timeline
publish_lem type payload pid tid now s pos =
    let (e, u) = make_event type payload pid tid now s in
    let (rest, pushed) = push_ring_lem s.capacity e s.ring pos in
    let t = record u { total_count = (u.total_count + 1) % 2 ^ 64; ring = rest ++ (e ∷ []) } in
    (
      announce e t,
      rw (publish, pushed) refl,
      elim (Bool-cases (on_timeline type)) [
        | inl shown ↦ rw shown (refl, refl, rest, e, refl, refl)
        | inr hidden ↦ rw hidden (refl, refl, rest, e, refl, refl)
      ],
    )

abbrev elapsed_us : ℕ → EventState → ℕ
elapsed_us now s = (now + 2 ^ 64 - s.watchdog.last_kick_us) % 2 ^ 64

watch_last :
    (now again : ℕ) (rs : List (ℕ × ℕ)) (s t : EventState)
    → watch_round now again s ≡ some (false, t)
    → watch ((now, again) ∷ rs) s ≡ some (false, t)
unfolding watch
watch_last now again rs s t e = rw (e, watch) refl

watch_on :
    (now again : ℕ) (rs : List (ℕ × ℕ)) (s t : EventState)
    → watch_round now again s ≡ some (true, t)
    → watch ((now, again) ∷ rs) s ≡ watch rs t
unfolding watch
watch_on now again rs s t e = rw (e, watch) refl

-- The three outcomes of a round of a watchdog that runs.
watch_round-over :
    (now again : ℕ) (s t : EventState)
    → s.watchdog.running ≡ true
    → leb s.watchdog.cfg.timeout_us (elapsed_us now s) ≡ true
    → publish watchdog_timeout (custom_payload "watchdog" "guest timeout") 0 0 again s ≡ some t
    → watch_round now again s ≡ some (false, t)
unfolding watch_round
watch_round-over now again s t armed over done = simp (armed, over, done)

watch_round-idle :
    (now again : ℕ) (s t : EventState)
    → s.watchdog.running ≡ true
    → leb s.watchdog.cfg.timeout_us (elapsed_us now s) ≡ false
    → leb s.watchdog.cfg.warning_us (elapsed_us now s) ≡ true
    → publish watchdog_warning (custom_payload "watchdog" "guest unresponsive") 0 0 again s ≡ some t
    → watch_round now again s ≡ some (true, t)
unfolding watch_round
watch_round-idle now again s t armed soon idle done = simp (armed, soon, idle, done)

watch_round-busy :
    (now again : ℕ) (s : EventState)
    → s.watchdog.running ≡ true
    → leb s.watchdog.cfg.timeout_us (elapsed_us now s) ≡ false
    → leb s.watchdog.cfg.warning_us (elapsed_us now s) ≡ false
    → watch_round now again s ≡ some (true, s)
unfolding watch_round
watch_round-busy now again s armed soon busy = simp (armed, soon, busy)

-- A running watchdog over a ring that has room for an event, which is not kicked: however many
-- rounds its thread makes first, at the latest in a round that reads a time at or past the timeout
-- its thread ends with a WatchdogTimeout as the newest event in the ring; IsWatchdogArmed still
-- answers true.
pub watch-timeout :
    (s : EventState) (rounds : List (ℕ × ℕ)) (now again : ℕ)
    → 0 < s.capacity
    → s.watchdog.running ≡ true
    → s.watchdog.last_kick_us ≤ now
    → now < 2 ^ 64
    → s.watchdog.cfg.timeout_us ≤ now - s.watchdog.last_kick_us
    → (t : EventState) × (rest : List RuntimeEvent) × (e : RuntimeEvent) × (watch
          (rounds ++ ((now, again) ∷ []))
          s
        ≡ some (false, t))
      × (t.ring ≡ rest ++ (e ∷ []))
      × (e.type ≡ watchdog_timeout)
      × (is_watchdog_armed t ≡ true)
unfolding is_watchdog_armed
watch-timeout s [] now again pos armed after small late =
    let (t, done, (capacity, same, rest, e, ring, type)) =
      publish_lem watchdog_timeout (custom_payload "watchdog" "guest timeout") 0 0 again s pos in
    let over : leb s.watchdog.cfg.timeout_us (elapsed_us now s) ≡ true = ground arith in
    (
      t,
      rest,
      e,
      watch_last now again [] s t (watch_round-over now again s t armed over done),
      ring,
      type,
      ap (λ w. w.running) same ∙ armed,
    )
watch-timeout s ((at, stamp) ∷ rounds) now again pos armed after small late =
    let more = rounds ++ ((now, again) ∷ []) in
    elim (Bool-cases (leb s.watchdog.cfg.timeout_us (elapsed_us at s))) [
      | inl over ↦
          let (t, done, (capacity, same, rest, e, ring, type)) =
            publish_lem watchdog_timeout (custom_payload "watchdog" "guest timeout") 0 0 stamp s
              pos in
          (
            t,
            rest,
            e,
            watch_last at stamp more s t (watch_round-over at stamp s t armed over done),
            ring,
            type,
            ap (λ w. w.running) same ∙ armed,
          )
      | inr soon ↦ elim (Bool-cases (leb s.watchdog.cfg.warning_us (elapsed_us at s))) [
        | inl idle ↦
            let (t, done, (capacity, same, before, w, ends, warns)) =
              publish_lem watchdog_warning (custom_payload "watchdog" "guest unresponsive") 0 0
                stamp s pos in
            let (u, rest, e, found, ring, type, still) =
              watch-timeout t rounds now again (rw capacity pos) (rw same armed) (rw same after)
                small (rw same late) in
            (
              u,
              rest,
              e,
              watch_on at stamp more s t (watch_round-idle at stamp s t armed soon idle done)
                  ∙ found,
              ring,
              type,
              still,
            )
        | inr busy ↦
            let (u, rest, e, found, ring, type, still) =
              watch-timeout s rounds now again pos armed after small late in
            (
              u,
              rest,
              e,
              watch_on at stamp more s s (watch_round-busy at stamp s armed soon busy) ∙ found,
              ring,
              type,
              still,
            )
      ]
    ]
