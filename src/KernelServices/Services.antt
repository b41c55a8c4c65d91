-- ===== src/KernelServices/Services.antt =====
-- The services on handles. A handle is the number given; a failed creation is `none`.
use text.Mathlib.Text.{◌==◌ as str_eq}
use ps5x_windows.Base.{
  ℕ, ◌+◌, ◌-◌, ◌%◌, ◌^◌, Option, none, some, List, [], ◌∷◌, Bool, true, false, String, ltb, ◌==◌,
  if◌then◌else◌, length, lookup, insert, erase,
}
use ps5x_windows.Memory.State.{prot_read, prot_write, system}
use ps5x_windows.Memory.Virtual.{map, unmap}
use ps5x_windows.KernelServices.State.{ShmEntry, MqEntry, SvcState}
use ps5x_windows.KernelServices.Queue.{queue_send, queue_recv}

-- CreateShm; `answer` is what mmap answers to Memory::Map. The size is stored as it was asked.
unfoldable pub create_shm : SvcState → String → ℕ → Option ℕ → Option ℕ × SvcState
create_shm s name size answer =
    let (base, m) = map s.memory size (prot_read + prot_write) system name answer in
    let h = s.next_shm in
    let e : ShmEntry = record { name = name; size = size; mem_base = base; ref_count = 1 } in
    if base == 0
    then (none, record s { memory = m })
    else (some h, record s { memory = m; next_shm = h + 1; shms = insert h e s.shms })

-- The first entry with the name. The table's order is the host library's.
unfoldable pub find_shm : String → List (ℕ × ShmEntry) → Option ℕ
find_shm name [] = none
find_shm name ((h, e) ∷ es) = if str_eq e.name name then some h else find_shm name es

abbrev pub with_refs : ShmEntry → ℕ → ShmEntry
with_refs e n = record e { ref_count = n }

-- A uint32_t count up and down.
abbrev pub count_up : ℕ → ℕ
count_up n = (n + 1) % 2 ^ 32

abbrev pub count_down : ℕ → ℕ
count_down n = (n + 2 ^ 32 - 1) % 2 ^ 32

-- OpenShm for the handle that was found.
unfoldable pub retain : SvcState → ℕ → Option ℕ × SvcState
retain s h = elim (lookup h s.shms) [
  | none ↦ (none, s)
  | some e ↦ (some h, record s { shms = insert h (with_refs e (count_up e.ref_count)) s.shms })
]

unfoldable pub open_shm : SvcState → String → Option ℕ × SvcState
open_shm s name = elim (find_shm name s.shms) [ none ↦ (none, s) | some h ↦ retain s h ]

-- CloseShm, and UnmapShm; munmap answers `answer`, and its failure is not looked at.
unfoldable pub close_shm : SvcState → ℕ → Bool → Bool × SvcState
close_shm s h answer = elim (lookup h s.shms) [
  | none ↦ (false, s)
  | some e ↦
      let n = count_down e.ref_count in
      (
        true,
        if n == 0
            then record s { memory = (unmap s.memory e.mem_base answer).1; shms = erase h s.shms }
            else record s { shms = insert h (with_refs e n) s.shms },
      )
]

unfoldable pub create_mq : SvcState → String → (max_messages max_msg_size : ℕ) → ℕ × SvcState
create_mq s name max_messages max_msg_size =
    let h = s.next_mq in
    let q : MqEntry = record {
      max_messages = max_messages;
      max_msg_size = max_msg_size;
      name = name;
      msgs = [];
    } in
    (h, record s { next_mq = h + 1; mqs = insert h q s.mqs })

unfoldable pub close_mq : SvcState → ℕ → Bool × SvcState
close_mq s h = elim (lookup h s.mqs) [
  | none ↦ (false, s)
  | some q ↦ (true, record s { mqs = erase h s.mqs })
]

-- SendMsg as of the end of its wait: with no room then, the wait has timed out.
unfoldable pub send_msg : SvcState → ℕ → List ℕ → ℕ → Bool × SvcState
send_msg s h payload priority = elim (lookup h s.mqs) [
  | none ↦ (false, s)
  | some q ↦
      if ltb (length q.msgs) q.max_messages
      then (true, record s { mqs = insert h (queue_send q payload priority) s.mqs })
      else (false, s)
]

-- RecvMsg, likewise.
unfoldable pub recv_msg : SvcState → ℕ → ℕ → Option (List ℕ × ℕ) × SvcState
recv_msg s h buf_size = elim (lookup h s.mqs) [
  | none ↦ (none, s)
  | some q ↦ elim (queue_recv q buf_size) [
    | none ↦ (none, s)
    | some (got, r) ↦ (some got, record s { mqs = insert h r s.mqs })
  ]
]

unfoldable pub mq_depth : SvcState → ℕ → ℕ
mq_depth s h = elim (lookup h s.mqs) [ none ↦ 0 | some q ↦ length q.msgs % 2 ^ 32 ]

-- Locks and condition variables: their handles.
unfoldable pub create_rw_lock : SvcState → String → ℕ × SvcState
create_rw_lock s name =
    (s.next_rw, record s { next_rw = s.next_rw + 1; rws = insert s.next_rw name s.rws })

unfoldable pub destroy_rw_lock : SvcState → ℕ → Bool × SvcState
destroy_rw_lock s h = elim (lookup h s.rws) [
  | none ↦ (false, s)
  | some name ↦ (true, record s { rws = erase h s.rws })
]

unfoldable pub create_cond_var : SvcState → String → ℕ × SvcState
create_cond_var s name =
    (s.next_cv, record s { next_cv = s.next_cv + 1; cvs = insert s.next_cv name s.cvs })

unfoldable pub destroy_cond_var : SvcState → ℕ → Bool × SvcState
destroy_cond_var s h = elim (lookup h s.cvs) [
  | none ↦ (false, s)
  | some name ↦ (true, record s { cvs = erase h s.cvs })
]
