-- ===== src/Cpu/Breakpoints.antt =====
-- Lifecycle, context access and breakpoints of the interpreter.
pub mod Laws
use ps5x_windows.Base.{
  ℕ, ◌+◌, ◌-◌, ◌%◌, ◌^◌, Bool, true, false, ◌&&◌, Option, none, some, List, [], ◌∷◌, ◌++◌, ◌==◌,
  if◌then◌else◌, String, lookup, insert, erase, length, take, min,
}
use ps5x_windows.Cpu.State.{
  CpuState, CpuContext, CallFrame, InterpreterStats, BpEntry, rsp, set_reg, set_rip,
}

-- CpuContext{}.
abbrev pub zero_context : CpuContext
zero_context = record { gpr = λ r. 0; rip = 0; rflags = 0; cs = 0x33; ss = 0x2b }

abbrev pub zero_stats : InterpreterStats
zero_stats = record {
  instructions_executed = 0;
  syscalls_dispatched = 0;
  faults = 0;
  breakpoints_hit = 0;
  unimplemented = 0;
}

-- Init: the breakpoint counter goes on.
unfoldable pub init : CpuState → CpuState
init s = record s {
  ctx = zero_context;
  call_stack = [];
  breakpoints = [];
  bp_by_addr = [];
  stats = zero_stats;
  running = false;
  paused = false;
  initialised = true;
}

unfoldable pub shutdown : CpuState → CpuState
shutdown s = record s { running = false; initialised = false; insn_cb = false }

unfoldable pub reset : CpuState → CpuState
unfolding init shutdown
reset s = init (shutdown s)

unfoldable pub set_context : CpuState → CpuContext → CpuState
set_context s c = record s { ctx = c }

unfoldable pub set_rsp : CpuState → ℕ → CpuState
set_rsp s v = set_reg s rsp v

-- Pause, Resume and Stop.
unfoldable pub pause : CpuState → CpuState
pause s = record s { paused = true }

unfoldable pub resume : CpuState → CpuState
resume s = record s { paused = false }

unfoldable pub stop : CpuState → CpuState
stop s = record s { running = false }

unfoldable pub reset_stats : CpuState → CpuState
reset_stats s = record s { stats = zero_stats }

-- The newest frames, at most `max_depth`; here they come newest first.
unfoldable pub get_call_stack : CpuState → ℕ → List CallFrame
get_call_stack s max_depth = take (min (length s.call_stack % 2 ^ 32) max_depth) s.call_stack

-- `nextBpId++` of a uint32_t.
unfoldable pub add_breakpoint : CpuState → ℕ → String → ℕ × CpuState
add_breakpoint s a l =
    let id = s.next_bp_id in
    (
      id,
      record s {
        next_bp_id = (id + 1) % 2 ^ 32;
        breakpoints = s.breakpoints ++ record { id = id; addr = a; label = l; active = true } ∷ [];
        bp_by_addr = insert a id s.bp_by_addr;
      },
    )

-- std::find_if over the entries' ids.
abbrev pub find_bp : ℕ → List BpEntry → Option BpEntry
find_bp id [] = none
find_bp id (b ∷ bs) = if b.id == id then some b else find_bp id bs

-- `erase(it)`: the first entry with the id goes.
abbrev pub drop_bp : ℕ → List BpEntry → List BpEntry
drop_bp id [] = []
drop_bp id (b ∷ bs) = if b.id == id then bs else b ∷ drop_bp id bs

unfoldable pub remove_breakpoint : CpuState → ℕ → Bool × CpuState
remove_breakpoint s id = elim (find_bp id s.breakpoints) [
  | none ↦ (false, s)
  | some b ↦ (
    true,
    record s { bp_by_addr = erase b.addr s.bp_by_addr; breakpoints = drop_bp id s.breakpoints },
  )
]

unfoldable pub clear_breakpoints : CpuState → CpuState
clear_breakpoints s = record s { breakpoints = []; bp_by_addr = [] }

abbrev pub is_some {ℓ} : {A : Type ℓ} → Option A → Bool
is_some none = false
is_some (some a) = true

unfoldable pub is_breakpoint : CpuState → ℕ → Bool
is_breakpoint s a = is_some (lookup a s.bp_by_addr)
