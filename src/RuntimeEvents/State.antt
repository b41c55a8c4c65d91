-- ===== src/RuntimeEvents/State.antt =====
-- The events, the state of the bus, Init, Shutdown, Reset, the subscriptions and the queries.
use ps5x_windows.Base.{
  ℕ, ◌+◌, ◌-◌, ◌%◌, ◌^◌, Option, none, List, [], ◌∷◌, ◌++◌, Bool, false, String, ltb, leb, ◌==◌,
  if◌then◌else◌, length, drop,
}

pub data EventType : Type 0 where
  process_created : EventType
  process_started : EventType
  process_exited : EventType
  process_faulted : EventType
  thread_spawned : EventType
  thread_exited : EventType
  thread_faulted : EventType
  module_loaded : EventType
  module_unloaded : EventType
  symbol_resolved : EventType
  symbol_missing : EventType
  page_fault : EventType
  memory_prot_violation : EventType
  memory_leak : EventType
  frame_begin : EventType
  frame_end : EventType
  swapchain_resize : EventType
  shader_compiled : EventType
  syscall_enter : EventType
  syscall_return : EventType
  syscall_unknown : EventType
  watchdog_warning : EventType
  watchdog_timeout : EventType
  profile_mark : EventType
  profile_begin : EventType
  profile_end : EventType
  custom : EventType

-- The values of the enumeration.
unfoldable pub type_code : EventType → ℕ
type_code process_created = 0
type_code process_started = 1
type_code process_exited = 2
type_code process_faulted = 3
type_code thread_spawned = 10
type_code thread_exited = 11
type_code thread_faulted = 12
type_code module_loaded = 20
type_code module_unloaded = 21
type_code symbol_resolved = 22
type_code symbol_missing = 23
type_code page_fault = 30
type_code memory_prot_violation = 31
type_code memory_leak = 32
type_code frame_begin = 40
type_code frame_end = 41
type_code swapchain_resize = 42
type_code shader_compiled = 43
type_code syscall_enter = 50
type_code syscall_return = 51
type_code syscall_unknown = 52
type_code watchdog_warning = 60
type_code watchdog_timeout = 61
type_code profile_mark = 70
type_code profile_begin = 71
type_code profile_end = 72
type_code custom = 255

unfoldable pub event_type_name : EventType → String
event_type_name process_created = "ProcessCreated"
event_type_name process_started = "ProcessStarted"
event_type_name process_exited = "ProcessExited"
event_type_name process_faulted = "ProcessFaulted"
event_type_name thread_spawned = "ThreadSpawned"
event_type_name thread_exited = "ThreadExited"
event_type_name thread_faulted = "ThreadFaulted"
event_type_name module_loaded = "ModuleLoaded"
event_type_name module_unloaded = "ModuleUnloaded"
event_type_name symbol_resolved = "SymbolResolved"
event_type_name symbol_missing = "SymbolMissing"
event_type_name page_fault = "PageFault"
event_type_name memory_prot_violation = "MemoryProtViolation"
event_type_name memory_leak = "MemoryLeak"
event_type_name frame_begin = "FrameBegin"
event_type_name frame_end = "FrameEnd"
event_type_name swapchain_resize = "SwapchainResize"
event_type_name shader_compiled = "ShaderCompiled"
event_type_name syscall_enter = "SyscallEnter"
event_type_name syscall_return = "SyscallReturn"
event_type_name syscall_unknown = "SyscallUnknown"
event_type_name watchdog_warning = "WatchdogWarning"
event_type_name watchdog_timeout = "WatchdogTimeout"
event_type_name profile_mark = "ProfileMark"
event_type_name profile_begin = "ProfileBegin"
event_type_name profile_end = "ProfileEnd"
event_type_name custom = "Custom"

-- A double is its bit pattern, a negative int its value below 2 ^ 32 or 2 ^ 64.
pub data EventPayload : Type 0 where
  monostate : EventPayload
  process_exited_payload : (exit_code : ℕ) (reason : String) → EventPayload
  process_faulted_payload : (fault_addr : ℕ) (description : String) → EventPayload
  thread_payload : (thread_id : ℕ) (name : String) (exit_code : ℕ) → EventPayload
  module_payload : (module_id : ℕ) (name : String) (base : ℕ) → EventPayload
  symbol_payload : (name : String) (address module_id : ℕ) → EventPayload
  page_fault_payload : (address : ℕ) (is_write is_exec : Bool) → EventPayload
  syscall_payload : (sysno : ℕ) (name : String) (result : ℕ) → EventPayload
  frame_payload : (frame_index gpu_ms cpu_ms : ℕ) → EventPayload
  profile_payload : (label : String) (duration_us : ℕ) → EventPayload
  custom_payload : (tag text : String) → EventPayload

pub record RuntimeEvent : Type 0 where
  pub id : ℕ
  pub type : EventType
  pub timestamp_us : ℕ
  pub pid : ℕ
  pub tid : ℕ
  pub payload : EventPayload

pub data EventCategory : Type 0 where
  lifecycle : EventCategory
  thread : EventCategory
  modules : EventCategory
  memory : EventCategory
  gpu : EventCategory
  audio : EventCategory
  filesystem : EventCategory
  scheduler : EventCategory
  syscall : EventCategory
  profile : EventCategory
  other : EventCategory

unfoldable pub category_code : EventCategory → ℕ
category_code lifecycle = 0
category_code thread = 1
category_code modules = 2
category_code memory = 3
category_code gpu = 4
category_code audio = 5
category_code filesystem = 6
category_code scheduler = 7
category_code syscall = 8
category_code profile = 9
category_code other = 10

unfoldable pub categorise : EventType → EventCategory
categorise process_created = lifecycle
categorise process_started = lifecycle
categorise process_exited = lifecycle
categorise process_faulted = lifecycle
categorise thread_spawned = thread
categorise thread_exited = thread
categorise thread_faulted = thread
categorise module_loaded = modules
categorise module_unloaded = modules
categorise symbol_resolved = modules
categorise symbol_missing = modules
categorise page_fault = memory
categorise memory_prot_violation = memory
categorise memory_leak = memory
categorise frame_begin = gpu
categorise frame_end = gpu
categorise swapchain_resize = gpu
categorise shader_compiled = gpu
categorise syscall_enter = syscall
categorise syscall_return = syscall
categorise syscall_unknown = syscall
categorise watchdog_warning = lifecycle
categorise watchdog_timeout = lifecycle
categorise profile_mark = profile
categorise profile_begin = profile
categorise profile_end = profile
categorise custom = other

-- A client's function is a number; SubscribeCategory wraps one in a test of the category.
pub data EventHandlerFn : Type 0 where
  calls_client : ℕ → EventHandlerFn
  calls_in_category : EventCategory → ℕ → EventHandlerFn

pub record HandlerEntry : Type 0 where
  pub id : ℕ
  pub fn : EventHandlerFn
  pub filter : Option EventType

pub record WatchdogConfig : Type 0 where
  pub warning_us : ℕ
  pub timeout_us : ℕ
  pub enabled : Bool

pub record WatchdogState : Type 0 where
  pub cfg : WatchdogConfig
  pub last_kick_us : ℕ
  pub running : Bool

pub record TimelineEntry : Type 0 where
  pub timestamp_us : ℕ
  pub type : EventType
  pub label : String
  pub duration_us : ℕ

-- EventState with the counters of the categories; `ring` has the front of the deque first.
-- `delivered` has the calls of clients' functions that were made, the last first.
pub record EventState : Type 0 where
  pub ring : List RuntimeEvent
  pub capacity : ℕ
  pub total_count : ℕ
  pub next_id : ℕ
  pub handlers : List HandlerEntry
  pub next_handler_id : ℕ
  pub timeline : List TimelineEntry
  pub watchdog : WatchdogState
  pub profile_begin_times : List (String × ℕ)
  pub cat_counts : ℕ → ℕ
  pub delivered : List (ℕ × RuntimeEvent)

unfoldable pub init : ℕ → EventState → EventState
init ring_capacity s = record s {
  ring = [];
  capacity = ring_capacity;
  total_count = 0;
  next_id = 1;
  handlers = [];
  timeline = [];
}

unfoldable pub shutdown : EventState → EventState
shutdown s = record s { watchdog = record s.watchdog { running = false }; handlers = [] }

unfoldable pub reset : EventState → EventState
reset s = record s { ring = []; timeline = []; total_count = 0; next_id = 1 }

unfoldable pub subscribe : EventHandlerFn → Option EventType → EventState → ℕ × EventState
subscribe fn filter s =
    let id = s.next_handler_id in
    let h : HandlerEntry = record { id = id; fn = fn; filter = filter } in
    (id, record s { next_handler_id = (id + 1) % 2 ^ 32; handlers = s.handlers ++ (h ∷ []) })

unfoldable pub subscribe_category : EventCategory → ℕ → EventState → ℕ × EventState
subscribe_category cat client = subscribe (calls_in_category cat client) none

unfoldable pub remove_handler : ℕ → List HandlerEntry → List HandlerEntry
remove_handler id [] = []
remove_handler id (h ∷ hs) =
    let rest = remove_handler id hs in if h.id == id then rest else h ∷ rest

unfoldable pub unsubscribe : ℕ → EventState → EventState
unsubscribe id s = record s { handlers = remove_handler id s.handlers }

unfoldable pub get_recent : ℕ → EventState → List RuntimeEvent
get_recent n s =
    let start = if ltb n (length s.ring) then length s.ring - n else 0 in drop start s.ring

-- The search of GetByType in the reversed ring, which puts what it finds in front of `out`: the
-- code appends and reverses in the end.
unfoldable pub collect : EventType → ℕ → List RuntimeEvent → List RuntimeEvent → List RuntimeEvent
collect type max_count [] out = out
collect type max_count (e ∷ es) out =
    if ltb (length out) max_count
    then collect type max_count es (if type_code e.type == type_code type then e ∷ out else out)
    else out

unfoldable pub reverse : List RuntimeEvent → List RuntimeEvent
reverse [] = []
reverse (e ∷ es) = reverse es ++ (e ∷ [])

unfoldable pub get_by_type : EventType → ℕ → EventState → List RuntimeEvent
get_by_type type max_count s = collect type max_count (reverse s.ring) []

unfoldable pub get_category_count : EventCategory → EventState → ℕ
get_category_count cat s = let idx = category_code cat in if leb 11 idx then 0 else s.cat_counts idx
