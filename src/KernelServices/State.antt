-- ===== src/KernelServices/State.antt =====
-- ShmEntry, MsgEntry, MqEntry and SvcState; Init and Shutdown.
use ps5x_windows.Base.{ℕ, true, List, [], ◌∷◌, String, ◌==◌, if◌then◌else◌}
use ps5x_windows.Memory.State.{MemState}
use ps5x_windows.Memory.Virtual.{unmap}

-- ShmDesc with memBase, which is its hostPtr; the handle is the key in the table.
pub record ShmEntry : Type 0 where
  pub name : String
  pub size : ℕ
  pub mem_base : ℕ
  pub ref_count : ℕ

pub record MsgEntry : Type 0 where
  pub payload : List ℕ
  pub priority : ℕ

-- MqEntry with its MqAttr; `msgs` has the front of the deque first.
pub record MqEntry : Type 0 where
  pub max_messages : ℕ
  pub max_msg_size : ℕ
  pub name : String
  pub msgs : List MsgEntry

-- SvcState with the memory manager that it calls. A lock and a condition variable are their names:
-- what else they have is the host's.
pub record SvcState : Type 0 where
  pub shms : List (ℕ × ShmEntry)
  pub mqs : List (ℕ × MqEntry)
  pub rws : List (ℕ × String)
  pub cvs : List (ℕ × String)
  pub next_shm : ℕ
  pub next_mq : ℕ
  pub next_rw : ℕ
  pub next_cv : ℕ
  pub memory : MemState

unfoldable pub init : SvcState → SvcState
init s = record s {
  shms = [];
  mqs = [];
  rws = [];
  cvs = [];
  next_shm = 1;
  next_mq = 1;
  next_rw = 1;
  next_cv = 1;
}

-- Unmap of every shared memory; each munmap succeeds here.
unfoldable pub unmap_all : List (ℕ × ShmEntry) → MemState → MemState
unmap_all [] m = m
unmap_all ((h, e) ∷ es) m =
    unmap_all es (if e.mem_base == 0 then m else (unmap m e.mem_base true).1)

unfoldable pub shutdown : SvcState → SvcState
shutdown s = record s {
  shms = [];
  mqs = [];
  rws = [];
  cvs = [];
  memory = unmap_all s.shms s.memory;
}
