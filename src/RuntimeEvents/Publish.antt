-- ===== src/RuntimeEvents/Publish.antt =====
-- Publish and the calls on top of it. `now` is what NowUs reads. A `none` is C++ without defined
-- behaviour: the front of an empty deque popped.
use text.Mathlib.Text.{◌==◌ as str_eq}
use Prim.Native.String.{◌++◌ as join}
use ps5x_windows.Base.{
  ℕ, ◌+◌, ◌-◌, ◌%◌, ◌^◌, Option, none, some, List, [], ◌∷◌, ◌++◌, Bool, true, String, ◌==◌, leb,
  if◌then◌else◌, ◌||◌, length, update,
}
use ps5x_windows.RuntimeEvents.State.{
  EventType, process_started, process_exited, process_faulted, thread_spawned, module_loaded,
  frame_begin, frame_end, shader_compiled, syscall_return, watchdog_warning, watchdog_timeout,
  profile_mark, profile_begin, profile_end, custom, type_code, event_type_name, EventPayload,
  monostate, process_exited_payload, process_faulted_payload, thread_payload, syscall_payload,
  frame_payload, profile_payload, custom_payload, RuntimeEvent, EventCategory, thread, gpu, audio,
  filesystem, scheduler, category_code, categorise, EventHandlerFn, calls_client, calls_in_category,
  HandlerEntry, EventState,
}

-- The function of a handler: the client's, or the wrapper of SubscribeCategory.
unfoldable pub call_handler :
    EventHandlerFn → RuntimeEvent → List (ℕ × RuntimeEvent) → List (ℕ × RuntimeEvent)
call_handler (calls_client client) e done = (client, e) ∷ done
call_handler (calls_in_category cat client) e done =
    if category_code (categorise e.type) == category_code cat then (client, e) ∷ done else done

unfoldable pub passes : Option EventType → EventType → Bool
passes none type = true
passes (some wanted) type = type_code wanted == type_code type

unfoldable pub dispatch_to_handlers :
    RuntimeEvent → List HandlerEntry → List (ℕ × RuntimeEvent) → List (ℕ × RuntimeEvent)
dispatch_to_handlers e [] done = done
dispatch_to_handlers e (h ∷ hs) done =
    dispatch_to_handlers e hs (if passes h.filter e.type then call_handler h.fn e done else done)

unfoldable pub append_timeline : RuntimeEvent → String → EventState → EventState
append_timeline e label s = record s {
  timeline =
      s.timeline
      ++ (record { timestamp_us = e.timestamp_us; type = e.type; label = label; duration_us = 0 }
          ∷ []);
}

unfoldable pub make_event :
    EventType → EventPayload → (pid tid now : ℕ) → EventState → RuntimeEvent × EventState
make_event type payload pid tid now s = (
  record {
    id = s.next_id;
    type = type;
    timestamp_us = now;
    pid = pid;
    tid = tid;
    payload = payload;
  },
  record s { next_id = (s.next_id + 1) % 2 ^ 64 },
)

unfoldable pub pop_front : List RuntimeEvent → Option (List RuntimeEvent)
pop_front [] = none
pop_front (e ∷ es) = some es

-- The new ring; `none` for a capacity of 0.
unfoldable pub push_ring : ℕ → RuntimeEvent → List RuntimeEvent → Option (List RuntimeEvent)
push_ring capacity e ring =
    elim (if leb capacity (length ring) then pop_front ring else some ring) [
      | none ↦ none
      | some rest ↦ some (rest ++ (e ∷ []))
    ]

-- The cases of the switch that append to the timeline.
unfoldable pub on_timeline : EventType → Bool
on_timeline type =
    let code = type_code type in
    code == type_code frame_begin
    || code == type_code frame_end
    || code == type_code module_loaded
    || code == type_code process_started
    || code == type_code process_exited
    || code == type_code shader_compiled
    || code == type_code watchdog_warning
    || code == type_code watchdog_timeout
    || code == type_code profile_mark
    || code == type_code profile_end

-- Publish behind the push: the timeline and the handlers.
unfoldable pub announce : RuntimeEvent → EventState → EventState
announce e s =
    let t = if on_timeline e.type then append_timeline e (event_type_name e.type) s else s in
    record t { delivered = dispatch_to_handlers e t.handlers t.delivered }

unfoldable pub publish :
    EventType → EventPayload → (pid tid now : ℕ) → EventState → Option EventState
publish type payload pid tid now s =
    let (e, t) = make_event type payload pid tid now s in
    elim (push_ring t.capacity e t.ring) [
      | none ↦ none
      | some ring ↦
          some (announce e (record t { total_count = (t.total_count + 1) % 2 ^ 64; ring = ring }))
    ]

unfoldable pub publish_process_exit : ℕ → String → ℕ → EventState → Option EventState
publish_process_exit exit_code reason =
    publish process_exited (process_exited_payload exit_code reason) 0 0

unfoldable pub publish_fault : ℕ → String → ℕ → EventState → Option EventState
publish_fault fault_addr desc =
    publish process_faulted (process_faulted_payload fault_addr desc) 0 0

unfoldable pub publish_syscall : ℕ → String → ℕ → ℕ → EventState → Option EventState
publish_syscall sysno name result = publish syscall_return (syscall_payload sysno name result) 0 0

unfoldable pub publish_frame : ℕ → ℕ → ℕ → ℕ → EventState → Option EventState
publish_frame frame_idx gpu_ms cpu_ms =
    publish frame_end (frame_payload frame_idx gpu_ms cpu_ms) 0 0

unfoldable pub publish_custom : String → String → ℕ → EventState → Option EventState
publish_custom tag text = publish custom (custom_payload tag text) 0 0

-- The second event of PublishProfileMark goes to the timeline alone; NowUs is read twice.
unfoldable pub publish_profile_mark : String → (now again : ℕ) → EventState → Option EventState
publish_profile_mark label now again s =
    elim (publish profile_mark (profile_payload label 0) 0 0 now s) [
      | none ↦ none
      | some t ↦
          let (e, u) = make_event profile_mark monostate 0 0 again t in
          some (append_timeline e label u)
    ]

-- The table of begin times by label.
unfoldable pub find_begin : String → List (String × ℕ) → Option ℕ
find_begin label [] = none
find_begin label ((name, at) ∷ m) = if str_eq name label then some at else find_begin label m

unfoldable pub erase_begin : String → List (String × ℕ) → List (String × ℕ)
erase_begin label [] = []
erase_begin label ((name, at) ∷ m) =
    let rest = erase_begin label m in if str_eq name label then rest else (name, at) ∷ rest

unfoldable pub publish_profile_begin : String → (now again : ℕ) → EventState → Option EventState
publish_profile_begin label now again s =
    let times = (label, now) ∷ erase_begin label s.profile_begin_times in
    publish profile_begin (profile_payload label 0) 0 0 again
      (record s { profile_begin_times = times })

-- The duration that PublishProfileEnd reports, and the table of begin times that it leaves.
unfoldable pub measure : String → (duration now : ℕ) → List (String × ℕ) → ℕ × List (String × ℕ)
measure label duration now times = elim (find_begin label times) [
  | none ↦ (duration, times)
  | some start ↦
      if duration == 0
      then ((now + 2 ^ 64 - start) % 2 ^ 64, erase_begin label times)
      else (duration, times)
]

unfoldable pub publish_profile_end :
    String → (duration now again : ℕ) → EventState → Option EventState
publish_profile_end label duration now again s =
    let (dur, times) = measure label duration now s.profile_begin_times in
    publish profile_end (profile_payload label dur) 0 0 again
      (record s { profile_begin_times = times })

-- A counter of a category, which counts after the event is published.
unfoldable pub count_category : EventCategory → Option EventState → Option EventState
count_category cat none = none
count_category cat (some s) =
    let i = category_code cat in
    some (record s { cat_counts = update s.cat_counts i ((s.cat_counts i + 1) % 2 ^ 64) })

unfoldable pub publish_thread : EventType → ℕ → String → ℕ → ℕ → EventState → Option EventState
publish_thread type tid name code now s =
    count_category thread (publish type (thread_payload tid name code) 0 tid now s)

unfoldable pub publish_gpu_event : EventType → ℕ → ℕ → ℕ → ℕ → EventState → Option EventState
publish_gpu_event type frame_index gpu_ms cpu_ms now s =
    count_category gpu (publish type (frame_payload frame_index gpu_ms cpu_ms) 0 0 now s)

unfoldable pub publish_audio_event : String → String → ℕ → EventState → Option EventState
publish_audio_event tag detail now s =
    count_category audio (publish custom (custom_payload (join "audio:" tag) detail) 0 0 now s)

unfoldable pub publish_filesystem_event : String → Bool → ℕ → EventState → Option EventState
publish_filesystem_event path success now s =
    let text = join path (if success then ":ok" else ":fail") in
    count_category filesystem (publish custom (custom_payload "fs" text) 0 0 now s)

unfoldable pub publish_scheduler_event : ℕ → String → ℕ → EventState → Option EventState
publish_scheduler_event tid detail now s =
    count_category scheduler (publish thread_spawned (thread_payload tid detail 0) 0 tid now s)
