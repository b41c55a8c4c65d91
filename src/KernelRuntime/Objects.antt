-- ===== src/KernelRuntime/Objects.antt =====
-- Threads, mutexes, semaphores, events, timers and thread-local keys. A wait is modelled as of its
-- end: where its condition does not hold then, it has timed out. A wait without a timeout whose
-- condition never holds has no end and is no such call.
use ps5x_windows.Base.{
  ℕ, ◌+◌, ◌-◌, ◌%◌, ◌^◌, min, Option, none, some, Bool, true, false, String, ◌==◌, ltb, ◌&&◌,
  if◌then◌else◌, lookup, insert, erase,
}
use ps5x_windows.KernelRuntime.Handles.{
  ThreadState, created, running, stopped, dead, KThread, a_thread, a_mutex, a_semaphore, an_event,
  a_timer, KernelState, alloc, object_of, as_thread, as_semaphore, as_event, as_timer, set_object,
}

-- CreateThread; `stack_base` is what the host's allocation gives, 0 if it fails.
unfoldable pub create_thread :
    (name : String)
    → (priority affinity_mask stack_size stack_base : ℕ) → KernelState
    → ℕ × KernelState
create_thread name priority affinity_mask stack_size stack_base = alloc (
    a_thread (record {
      name = name;
      priority = priority;
      affinity_mask = affinity_mask;
      stack_base = stack_base;
      stack_size = (if stack_size == 0 then 262144 else stack_size);
      start_time = 0;
      exit_code = 0;
      state = created;
      os_thread = false;
    }))

unfoldable pub is_created : ThreadState → Bool
is_created created = true
is_created running = false
is_created stopped = false
is_created dead = false

unfoldable pub is_dead : ThreadState → Bool
is_dead created = false
is_dead running = false
is_dead stopped = false
is_dead dead = true

unfoldable pub start_thread : ℕ → (now : ℕ) → KernelState → Bool × KernelState
start_thread h now s = elim (as_thread (object_of h s)) [
  | none ↦ (false, s)
  | some (o, t) ↦
      let u : KThread = record t { state = running; start_time = now; os_thread = true } in
      if is_created t.state then (true, set_object o (a_thread u) s) else (false, s)
]

-- The end of a thread's function, with its code.
unfoldable pub thread_returns : (object code : ℕ) → KernelState → KernelState
thread_returns o code s =
    elim (as_thread (elim (lookup o s.objects) [ none ↦ none | some k ↦ some (o, k) ])) [
      | none ↦ s
      | some (p, t) ↦ set_object o (a_thread (record t { exit_code = code; state = dead })) s
    ]

unfoldable pub stop_thread : ℕ → KernelState → Bool × KernelState
stop_thread h s = elim (as_thread (object_of h s)) [
  | none ↦ (false, s)
  | some (o, t) ↦
      (true, set_object o (a_thread (record t { state = stopped; os_thread = false })) s)
]

-- JoinThread as of the end of its wait: whether the thread is dead, and its exit code.
unfoldable pub join_thread : ℕ → KernelState → (Bool × Option ℕ) × KernelState
join_thread h s = elim (as_thread (object_of h s)) [
  | none ↦ ((false, none), s)
  | some (o, t) ↦
      let joined : KThread = record t {
        os_thread = (if is_dead t.state then false else t.os_thread);
      } in
      ((is_dead t.state, some t.exit_code), set_object o (a_thread joined) s)
]

unfoldable pub set_thread_priority : ℕ → ℕ → KernelState → Bool × KernelState
set_thread_priority h priority s = elim (as_thread (object_of h s)) [
  | none ↦ (false, s)
  | some (o, t) ↦ (true, set_object o (a_thread (record t { priority = priority })) s)
]

unfoldable pub set_thread_affinity : ℕ → ℕ → KernelState → Bool × KernelState
set_thread_affinity h mask s = elim (as_thread (object_of h s)) [
  | none ↦ (false, s)
  | some (o, t) ↦ (true, set_object o (a_thread (record t { affinity_mask = mask })) s)
]

unfoldable pub create_mutex : (recursive shared : Bool) → String → KernelState → ℕ × KernelState
create_mutex recursive shared name =
    alloc (a_mutex (record { name = name; recursive = recursive; shared = shared }))

unfoldable pub create_semaphore :
    (initial_value max_value : ℕ) → String → KernelState → ℕ × KernelState
create_semaphore initial_value max_value name =
    alloc (a_semaphore (record { name = name; max_value = max_value; value = initial_value }))

unfoldable pub wait_semaphore : ℕ → KernelState → Bool × KernelState
wait_semaphore h s = elim (as_semaphore (object_of h s)) [
  | none ↦ (false, s)
  | some (o, k) ↦
      if ltb 0 k.value
      then (true, set_object o (a_semaphore (record k { value = k.value - 1 })) s)
      else (false, s)
]

-- The sum is taken in int32_t before the cut: `none` where it overflows, which has no defined
-- behaviour.
unfoldable pub signal_semaphore : ℕ → (count : ℕ) → KernelState → Option (Bool × KernelState)
signal_semaphore h count s = elim (as_semaphore (object_of h s)) [
  | none ↦ some (false, s)
  | some (o, k) ↦
      let raised = record k { value = min (k.value + count) k.max_value } in
      if ltb (k.value + count) (2 ^ 31)
      then some (true, set_object o (a_semaphore raised) s)
      else none
]

-- -1 is none.
unfoldable pub get_semaphore_value : ℕ → KernelState → Option ℕ
get_semaphore_value h s = elim (as_semaphore (object_of h s)) [
  | none ↦ none
  | some (o, k) ↦ some k.value
]

unfoldable pub create_event :
    (auto_reset initial_set : Bool) → String → KernelState → ℕ × KernelState
create_event auto_reset initial_set name =
    alloc (an_event (record { name = name; auto_reset = auto_reset; set = initial_set }))

unfoldable pub set_event : ℕ → KernelState → Bool × KernelState
set_event h s = elim (as_event (object_of h s)) [
  | none ↦ (false, s)
  | some (o, k) ↦ (true, set_object o (an_event (record k { set = true })) s)
]

unfoldable pub clear_event : ℕ → KernelState → Bool × KernelState
clear_event h s = elim (as_event (object_of h s)) [
  | none ↦ (false, s)
  | some (o, k) ↦ (true, set_object o (an_event (record k { set = false })) s)
]

unfoldable pub wait_event : ℕ → KernelState → Bool × KernelState
wait_event h s = elim (as_event (object_of h s)) [
  | none ↦ (false, s)
  | some (o, k) ↦
      if k.set && k.auto_reset
      then (k.set, set_object o (an_event (record k { set = false })) s)
      else (k.set, s)
]

unfoldable pub start_timer : ℕ → KernelState → Bool × KernelState
start_timer h s = elim (as_timer (object_of h s)) [
  | none ↦ (false, s)
  | some (o, t) ↦
      if t.running
      then (true, s)
      else (true, set_object o (a_timer (record t { running = true })) s)
]

unfoldable pub create_timer :
    (period_us : ℕ) → (auto_start : Bool) → String → KernelState → ℕ × KernelState
create_timer period_us auto_start name s =
    let (h, t) =
      alloc (a_timer (record { name = name; period_us = period_us; running = false })) s in
    (h, if auto_start then (start_timer h t).1 else t)

-- StopTimer and CancelTimer.
unfoldable pub stop_timer : ℕ → KernelState → Bool × KernelState
stop_timer h s = elim (as_timer (object_of h s)) [
  | none ↦ (false, s)
  | some (o, t) ↦ (true, set_object o (a_timer (record t { running = false })) s)
]

unfoldable pub tls_alloc : KernelState → ℕ × KernelState
tls_alloc s = (
  s.next_tls_key,
  record s {
    next_tls_key = (s.next_tls_key + 1) % 2 ^ 32;
    tls_keys = insert s.next_tls_key true s.tls_keys;
  },
)

unfoldable pub tls_free : ℕ → KernelState → Bool × KernelState
tls_free key s = elim (lookup key s.tls_keys) [
  | none ↦ (false, s)
  | some used ↦ (true, record s { tls_keys = erase key s.tls_keys })
]
