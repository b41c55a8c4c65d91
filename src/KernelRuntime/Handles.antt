-- ===== src/KernelRuntime/Handles.antt =====
-- The kernel objects and the table of handles.
use ps5x_windows.Base.{
  ℕ, ◌+◌, ◌%◌, ◌^◌, Option, none, some, List, [], ◌∷◌, Bool, true, false, String, lookup, insert,
  erase,
}

pub data KObjectType : Type 0 where
  unknown_type : KObjectType
  thread_type : KObjectType
  mutex_type : KObjectType
  semaphore_type : KObjectType
  event_type : KObjectType
  timer_type : KObjectType

-- Sleeping and Waiting, which no code sets, are left out.
pub data ThreadState : Type 0 where
  created : ThreadState
  running : ThreadState
  stopped : ThreadState
  dead : ThreadState

-- KThread with its ThreadAttr and ThreadInfo. `os_thread` says whether its std::thread is joinable;
-- an exit code is its bit pattern.
pub record KThread : Type 0 where
  pub name : String
  pub priority : ℕ
  pub affinity_mask : ℕ
  pub stack_base : ℕ
  pub stack_size : ℕ
  pub start_time : ℕ
  pub exit_code : ℕ
  pub state : ThreadState
  pub os_thread : Bool

pub record KMutex : Type 0 where
  pub name : String
  pub recursive : Bool
  pub shared : Bool

-- Values and counts from 0 up; a sum past int32_t has no defined behaviour in the code.
pub record KSemaphore : Type 0 where
  pub name : String
  pub max_value : ℕ
  pub value : ℕ

pub record KEvent : Type 0 where
  pub name : String
  pub auto_reset : Bool
  pub set : Bool

pub record KTimer : Type 0 where
  pub name : String
  pub period_us : ℕ
  pub running : Bool

pub data KObject : Type 0 where
  a_thread : KThread → KObject
  a_mutex : KMutex → KObject
  a_semaphore : KSemaphore → KObject
  an_event : KEvent → KObject
  a_timer : KTimer → KObject

-- KernelState. A handle leads to the number of an object, which several handles may share; a
-- shared_ptr that is made gets the next number.
pub record KernelState : Type 0 where
  pub objects : List (ℕ × KObject)
  pub next_object : ℕ
  pub handles : List (ℕ × ℕ)
  -- An int32_t as its bit pattern: fetch_add wraps.
  pub next_handle : ℕ
  pub tls_keys : List (ℕ × Bool)
  pub next_tls_key : ℕ

unfoldable pub init : KernelState → KernelState
init s = record s { handles = []; tls_keys = []; next_handle = 1; next_tls_key = 0 }

-- Reset stops the timers that the table holds.
unfoldable pub stop_timer_object : ℕ → List (ℕ × KObject) → List (ℕ × KObject)
stop_timer_object o objects = elim (lookup o objects) [
  | none ↦ objects
  | some (a_timer t) ↦ insert o (a_timer (record t { running = false })) objects
  | some (a_thread t) ↦ objects
  | some (a_mutex t) ↦ objects
  | some (a_semaphore t) ↦ objects
  | some (an_event t) ↦ objects
]

unfoldable pub stop_timers : List (ℕ × ℕ) → List (ℕ × KObject) → List (ℕ × KObject)
stop_timers [] objects = objects
stop_timers ((h, o) ∷ hs) objects = stop_timers hs (stop_timer_object o objects)

unfoldable pub reset : KernelState → KernelState
reset s = record s { objects = stop_timers s.handles s.objects; handles = []; tls_keys = [] }

unfoldable pub alloc : KObject → KernelState → ℕ × KernelState
alloc k s = (
  s.next_handle,
  record s {
    objects = insert s.next_object k s.objects;
    next_object = s.next_object + 1;
    handles = insert s.next_handle s.next_object s.handles;
    next_handle = (s.next_handle + 1) % 2 ^ 32;
  },
)

unfoldable pub type_of : KObject → KObjectType
type_of (a_thread t) = thread_type
type_of (a_mutex t) = mutex_type
type_of (a_semaphore t) = semaphore_type
type_of (an_event t) = event_type
type_of (a_timer t) = timer_type

-- The object of a handle, with its number.
unfoldable pub object_of : ℕ → KernelState → Option (ℕ × KObject)
object_of h s = elim (lookup h s.handles) [
  | none ↦ none
  | some o ↦ elim (lookup o s.objects) [ none ↦ none | some k ↦ some (o, k) ]
]

unfoldable pub get_handle_type : ℕ → KernelState → KObjectType
get_handle_type h s = elim (object_of h s) [ none ↦ unknown_type | some (o, k) ↦ type_of k ]

-- CloseHandle: Free.
unfoldable pub close_handle : ℕ → KernelState → Bool × KernelState
close_handle h s = elim (lookup h s.handles) [
  | none ↦ (false, s)
  | some o ↦ (true, record s { handles = erase h s.handles })
]

unfoldable pub duplicate_handle : ℕ → KernelState → Option ℕ × KernelState
duplicate_handle src s = elim (lookup src s.handles) [
  | none ↦ (none, s)
  | some o ↦ (
    some s.next_handle,
    record s {
      handles = insert s.next_handle o s.handles;
      next_handle = (s.next_handle + 1) % 2 ^ 32;
    },
  )
]

-- Get, by the type that is expected.
unfoldable pub as_thread : Option (ℕ × KObject) → Option (ℕ × KThread)
as_thread none = none
as_thread (some (o, a_thread t)) = some (o, t)
as_thread (some (o, a_mutex t)) = none
as_thread (some (o, a_semaphore t)) = none
as_thread (some (o, an_event t)) = none
as_thread (some (o, a_timer t)) = none

unfoldable pub as_semaphore : Option (ℕ × KObject) → Option (ℕ × KSemaphore)
as_semaphore none = none
as_semaphore (some (o, a_thread t)) = none
as_semaphore (some (o, a_mutex t)) = none
as_semaphore (some (o, a_semaphore t)) = some (o, t)
as_semaphore (some (o, an_event t)) = none
as_semaphore (some (o, a_timer t)) = none

unfoldable pub as_event : Option (ℕ × KObject) → Option (ℕ × KEvent)
as_event none = none
as_event (some (o, a_thread t)) = none
as_event (some (o, a_mutex t)) = none
as_event (some (o, a_semaphore t)) = none
as_event (some (o, an_event t)) = some (o, t)
as_event (some (o, a_timer t)) = none

unfoldable pub as_timer : Option (ℕ × KObject) → Option (ℕ × KTimer)
as_timer none = none
as_timer (some (o, a_thread t)) = none
as_timer (some (o, a_mutex t)) = none
as_timer (some (o, a_semaphore t)) = none
as_timer (some (o, an_event t)) = none
as_timer (some (o, a_timer t)) = some (o, t)

abbrev pub set_object : ℕ → KObject → KernelState → KernelState
set_object o k s = record s { objects = insert o k s.objects }
