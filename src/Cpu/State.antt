-- ===== src/Cpu/State.antt =====
-- The interpreter's state: CpuContext, CallFrame, InterpreterStats, BpEntry and CpuState.
use ps5x_windows.Base.{ℕ, ◌+◌, Bool, List, String, update}

-- The register numbers that Cpu.cpp names.
abbrev pub rax : ℕ
rax = 0

abbrev pub rcx : ℕ
rcx = 1

abbrev pub rdx : ℕ
rdx = 2

abbrev pub rsp : ℕ
rsp = 4

abbrev pub rbp : ℕ
rbp = 5

-- `gpr` maps a register number (0 to 15) to its value. The XMM array, which no code reads or
-- writes, is left out.
pub record CpuContext : Type 0 where
  pub gpr : ℕ → ℕ
  pub rip : ℕ
  pub rflags : ℕ
  pub cs : ℕ
  pub ss : ℕ

pub record CallFrame : Type 0 where
  pub return_addr : ℕ
  pub frame_base : ℕ
  pub symbol : String

pub record InterpreterStats : Type 0 where
  pub instructions_executed : ℕ
  pub syscalls_dispatched : ℕ
  pub faults : ℕ
  pub breakpoints_hit : ℕ
  pub unimplemented : ℕ

pub record BpEntry : Type 0 where
  pub id : ℕ
  pub addr : ℕ
  pub label : String
  pub active : Bool

-- The four values that a call of the instruction callback passes.
pub record InsnEvent : Type 0 where
  pub rip : ℕ
  pub opcode : ℕ
  pub rex_w : Bool
  pub length : ℕ

-- `memory` is the guest's memory, a byte for each address. `call_stack` has its newest frame
-- first. `insn_cb` says whether a callback is set; `insn_log` is the calls made, newest first.
pub record CpuState : Type 0 where
  pub ctx : CpuContext
  pub running : Bool
  pub paused : Bool
  pub initialised : Bool
  pub breakpoints : List BpEntry
  pub bp_by_addr : List (ℕ × ℕ)
  pub next_bp_id : ℕ
  pub call_stack : List CallFrame
  pub insn_cb : Bool
  pub insn_log : List InsnEvent
  pub stats : InterpreterStats
  pub memory : ℕ → ℕ

pub data StepResult : Type 0 where
  ok breakpoint syscall fault halt unimplemented exit : StepResult

abbrev pub reg : CpuState → ℕ → ℕ
reg s r = s.ctx.gpr r

abbrev pub set_reg : CpuState → ℕ → ℕ → CpuState
set_reg s r v = record s { ctx = record (s.ctx) { gpr = update s.ctx.gpr r v } }

abbrev pub set_rip : CpuState → ℕ → CpuState
set_rip s v = record s { ctx = record (s.ctx) { rip = v } }

abbrev pub set_rflags : CpuState → ℕ → CpuState
set_rflags s v = record s { ctx = record (s.ctx) { rflags = v } }

abbrev pub set_memory : CpuState → (ℕ → ℕ) → CpuState
set_memory s m = record s { memory = m }

-- ++st.stats.x for the counters of 64 bits.
abbrev pub count_fault : CpuState → CpuState
count_fault s = record s { stats = record (s.stats) { faults = s.stats.faults + 1 } }

abbrev pub count_unimplemented : CpuState → CpuState
count_unimplemented s = record s {
  stats = record (s.stats) { unimplemented = s.stats.unimplemented + 1 };
}

abbrev pub count_breakpoint : CpuState → CpuState
count_breakpoint s = record s {
  stats = record (s.stats) { breakpoints_hit = s.stats.breakpoints_hit + 1 };
}

abbrev pub count_syscall : CpuState → CpuState
count_syscall s = record s {
  stats = record (s.stats) { syscalls_dispatched = s.stats.syscalls_dispatched + 1 };
}

abbrev pub count_executed : CpuState → CpuState
count_executed s = record s {
  stats = record (s.stats) { instructions_executed = s.stats.instructions_executed + 1 };
}
