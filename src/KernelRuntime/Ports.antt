-- ===== src/KernelRuntime/Ports.antt =====
-- Names in a namespace, wait queues and IPC ports.
use text.Mathlib.Text.{◌==◌ as str_eq}
use ps5x_windows.Base.{
  ℕ, ◌+◌, ◌-◌, ◌%◌, ◌^◌, Option, none, some, List, [], ◌∷◌, ◌++◌, Bool, true, false, String,
  if◌then◌else◌, ltb, ◌==◌, take, lookup, insert, erase,
}

-- Tables by a name, in which a name stands once.
unfoldable pub find_name : String → List (String × ℕ) → Option ℕ
find_name name [] = none
find_name name ((n, v) ∷ m) = if str_eq n name then some v else find_name name m

unfoldable pub erase_name : String → List (String × ℕ) → List (String × ℕ)
erase_name name [] = []
erase_name name ((n, v) ∷ m) =
    let rest = erase_name name m in if str_eq n name then rest else (n, v) ∷ rest

unfoldable pub set_name : String → ℕ → List (String × ℕ) → List (String × ℕ)
set_name name v m = (name, v) ∷ erase_name name m

-- The NameRegistry: namespace to name to handle.
unfoldable pub names_of : ℕ → List (ℕ × List (String × ℕ)) → List (String × ℕ)
names_of ns table = elim (lookup ns table) [ none ↦ [] | some names ↦ names ]

unfoldable pub register_name :
    String → (handle ns : ℕ) → List (ℕ × List (String × ℕ)) → List (ℕ × List (String × ℕ))
register_name name handle ns table = insert ns (set_name name handle (names_of ns table)) table

unfoldable pub lookup_name : String → (ns : ℕ) → List (ℕ × List (String × ℕ)) → Option ℕ
lookup_name name ns table = find_name name (names_of ns table)

unfoldable pub unregister_name :
    String → (ns : ℕ) → List (ℕ × List (String × ℕ)) → Bool × List (ℕ × List (String × ℕ))
unregister_name name ns table = elim (lookup ns table) [
  | none ↦ (false, table)
  | some names ↦ elim (find_name name names) [
    | none ↦ (false, table)
    | some h ↦ (true, insert ns (erase_name name names) table)
  ]
]

-- IpcEntry; `queue` has the front of the deque first.
pub record IpcEntry : Type 0 where
  pub name : String
  pub queue : List (List ℕ)
  pub server : Bool

-- The ports of P6State with its wait queues, of which the count of waiters is kept. A handle and a
-- name lead to the number of an entry.
pub record P6State : Type 0 where
  pub wqs : List (ℕ × ℕ)
  pub next_wq : ℕ
  pub entries : List (ℕ × IpcEntry)
  pub next_entry : ℕ
  pub ipc_by_name : List (String × ℕ)
  pub ipc_by_handle : List (ℕ × ℕ)
  pub next_ipc : ℕ

-- `nextWq++` and `nextIpc++` are int32_t: `none` where they overflow, which has no defined behaviour.
unfoldable pub create_wait_queue : P6State → Option (ℕ × P6State)
create_wait_queue s =
    if ltb s.next_wq (2 ^ 31 - 1)
    then some (s.next_wq, record s { next_wq = s.next_wq + 1; wqs = insert s.next_wq 0 s.wqs })
    else none

-- WaitOnQueue up to its wait, and WakeAll with the number that it reports.
unfoldable pub enter_wait : ℕ → P6State → Bool × P6State
enter_wait h s = elim (lookup h s.wqs) [
  | none ↦ (false, s)
  | some waiters ↦ (true, record s { wqs = insert h ((waiters + 1) % 2 ^ 32) s.wqs })
]

unfoldable pub wake_all : ℕ → P6State → ℕ
wake_all h s = elim (lookup h s.wqs) [ none ↦ 0 | some waiters ↦ waiters ]

unfoldable pub destroy_wait_queue : ℕ → P6State → Bool × P6State
destroy_wait_queue h s = elim (lookup h s.wqs) [
  | none ↦ (false, s)
  | some waiters ↦ (true, record s { wqs = erase h s.wqs })
]

unfoldable pub create_ipc_port : String → P6State → Option (ℕ × P6State)
create_ipc_port name s =
    let e : IpcEntry = record { name = name; queue = []; server = true } in
    let t = record s {
      entries = insert s.next_entry e s.entries;
      next_entry = s.next_entry + 1;
      ipc_by_name = set_name name s.next_entry s.ipc_by_name;
      ipc_by_handle = insert s.next_ipc s.next_entry s.ipc_by_handle;
      next_ipc = s.next_ipc + 1;
    } in
    if ltb s.next_ipc (2 ^ 31 - 1) then some (s.next_ipc, t) else none

unfoldable pub connect_ipc_port : String → P6State → Option (Option ℕ × P6State)
connect_ipc_port name s = elim (find_name name s.ipc_by_name) [
  | none ↦ some (none, s)
  | some o ↦
      let t = record s {
        ipc_by_handle = insert s.next_ipc o s.ipc_by_handle;
        next_ipc = s.next_ipc + 1;
      } in
      if ltb s.next_ipc (2 ^ 31 - 1) then some (some s.next_ipc, t) else none
]

-- The entry of a handle, with its number.
unfoldable pub entry_of : ℕ → P6State → Option (ℕ × IpcEntry)
entry_of h s = elim (lookup h s.ipc_by_handle) [
  | none ↦ none
  | some o ↦ elim (lookup o s.entries) [ none ↦ none | some e ↦ some (o, e) ]
]

unfoldable pub close_ipc_port : ℕ → P6State → Bool × P6State
close_ipc_port h s = elim (entry_of h s) [
  | none ↦ (false, s)
  | some (o, e) ↦
      let names = if e.server then erase_name e.name s.ipc_by_name else s.ipc_by_name in
      (true, record s { ipc_by_name = names; ipc_by_handle = erase h s.ipc_by_handle })
]

unfoldable pub ipc_send : ℕ → List ℕ → P6State → Bool × P6State
ipc_send h message s = elim (entry_of h s) [
  | none ↦ (false, s)
  | some (o, e) ↦
      let f = record e { queue = e.queue ++ (message ∷ []) } in
      (true, record s { entries = insert o f s.entries })
]

-- How IpcRecv ends: with the bytes that it copies, with -1, or, where no message comes and the
-- timeout is UINT64_MAX, not at all.
pub data Reception : Type 0 where
  received : (bytes : List ℕ) → Reception
  failed : Reception
  waits_on : Reception

unfoldable pub without_message : (timeout_us : ℕ) → Reception
without_message timeout_us = if timeout_us == 2 ^ 64 - 1 then waits_on else failed

-- The queue is as of the end of the wait: an empty one means that no message came in time.
unfoldable pub take_message : (buf_size timeout_us o : ℕ) → IpcEntry → P6State → Reception × P6State
take_message buf_size timeout_us o e s = elim e.queue [
  | [] ↦ (without_message timeout_us, s)
  | m ∷ ms ↦ (
    received (take buf_size m),
    record s { entries = insert o (record e { queue = ms }) s.entries },
  )
]

unfoldable pub ipc_recv : ℕ → (buf_size timeout_us : ℕ) → P6State → Reception × P6State
ipc_recv h buf_size timeout_us s = elim (entry_of h s) [
  | none ↦ (failed, s)
  | some (o, e) ↦ take_message buf_size timeout_us o e s
]
