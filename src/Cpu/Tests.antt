-- ===== src/Cpu/Tests.antt =====
-- The interpreter's theorems at concrete states.
use ps5x_windows.Base.{
  ℕ, ◌+◌, ◌-◌, ◌*◌, ◌%◌, ◌^◌, ◌≤◌, ◌<◌, ◌≡◌, refl, true, false, not, [], ◌∷◌, ◌==◌, arith,
  if◌then◌else◌,
}
use ps5x_windows.Cpu.Word.{add64, sext32}
use ps5x_windows.Cpu.State.{CpuState, BpEntry, breakpoint, reg, rsp, rax, rdx}
use ps5x_windows.Cpu.Flags.{parity}
use ps5x_windows.Cpu.Guest.{Guest, guest_read, le_read}
use ps5x_windows.Cpu.Fetch.{
  Insn, breaks, advance, take_prefixes, buffer_size, code_byte, decode_prefixes, is_prefix,
  opcode_reg, prefetch, imm32,
}
use ps5x_windows.Cpu.Mul.{mul128u, mul128u_portable}
use ps5x_windows.Cpu.Mul.Portable.{mul128u_portable_exact}
use ps5x_windows.Cpu.Exec.Alu.{alu_cmp}
use ps5x_windows.Cpu.Exec.Move.{exec_push, exec_pop, exec_nop}
use ps5x_windows.Cpu.Exec.Control.{exec_call, exec_ret}
use ps5x_windows.Cpu.Exec.Group.{exec_div}
use ps5x_windows.Cpu.Exec.Group.Laws.{exec_div_lem}
use ps5x_windows.Cpu.Compare.{Decides, alu_cmp-Decides}
use ps5x_windows.Cpu.Stack.{exec_pop-exec_push, exec_pop-rsp, exec_ret-exec_call}
use ps5x_windows.Cpu.Step.{continues, ended, exec_op, op_of, run, run_loop, after_step, execute_one}
use ps5x_windows.Cpu.Bounds.{fetched, decode_prefixes_ends, code_buffer_suffices}
use ps5x_windows.Cpu.Loop.{EndsWell, run-EndsWell, run-add_breakpoint}
use ps5x_windows.Cpu.Breakpoints.{
  zero_context, zero_stats, add_breakpoint, remove_breakpoint, is_breakpoint,
}
use ps5x_windows.Cpu.Breakpoints.Laws.{remove_breakpoint-add_breakpoint}
use ps5x_windows.Cpu.Tables.{
  ones, is_even, parity-even, contains, is_unknown, implemented_opcodes, implemented_opcodes_exact,
}

abbrev open_guest : Guest
open_guest = record { readable = λ a n. true; writable = λ a n m. (true, m) }

abbrev older : BpEntry
older = record { id = 1; addr = 0x1000; label = "older"; active = true }

abbrev newer : BpEntry
newer = record { id = 2; addr = 0x1000; label = "newer"; active = true }

-- RIP = 0x1000, RSP = 0x8000, RCX = 42; a NOP stands at every address.
abbrev machine : CpuState
machine = record {
  ctx = record (zero_context) {
    gpr = λ r. if r == 4 then 0x8000 else if r == 1 then 42 else 0;
    rip = 0x1000;
  };
  running = false;
  paused = false;
  initialised = true;
  breakpoints = [];
  bp_by_addr = [];
  next_bp_id = 1;
  call_stack = [];
  insn_cb = false;
  insn_log = [];
  stats = zero_stats;
  memory = λ a. 0x90;
}

abbrev stopped_twice : CpuState
stopped_twice = record machine {
  breakpoints = older ∷ newer ∷ [];
  bp_by_addr = (0x1000, 2) ∷ [];
  next_bp_id = 3;
}

-- An instruction without prefixes, with zeros behind its opcode.
abbrev plain : ℕ → Insn
plain op = record {
  code = λ i. 0;
  opcode = op;
  rex_w = false;
  rex_r = false;
  rex_b = false;
  off = 1;
}

alu_cmp-Decides_example : Decides (alu_cmp 0 5 (2 ^ 64 - 1)).0 5 (2 ^ 64 - 1)
alu_cmp-Decides_example = alu_cmp-Decides 0 5 (2 ^ 64 - 1) (omega arith) (omega arith)

mul128u_portable_exact_example :
    mul128u_portable (2 ^ 64 - 1) (2 ^ 63 + 5) ≡ mul128u (2 ^ 64 - 1) (2 ^ 63 + 5)
mul128u_portable_exact_example =
    mul128u_portable_exact (2 ^ 64 - 1) (2 ^ 63 + 5) (omega arith) (omega arith)

-- PUSH RCX and POP RDX.
exec_pop-exec_push_example :
    (t : CpuState) × (u : CpuState) × (exec_push open_guest (plain 0x51) machine ≡ breaks t 1)
    × (exec_pop open_guest (plain 0x5A) t ≡ breaks u 1)
    × (reg u (opcode_reg (plain 0x5A)) ≡ reg machine (opcode_reg (plain 0x51)))
    × (reg u rsp ≡ reg machine rsp)
unfolding opcode_reg
exec_pop-exec_push_example =
    exec_pop-exec_push open_guest (plain 0x51) (plain 0x5A) machine
      (record { probe = refl; read = refl }) (omega arith) (omega arith) (λ e. omega (arith, e))

-- POP RSP: the word 0x9090909090909090 is popped.
exec_pop-rsp_example :
    (u : CpuState) × (exec_pop open_guest (plain 0x5C) machine ≡ breaks u 1)
    × (reg u rsp ≡ add64 0x9090909090909090 8)
unfolding opcode_reg guest_read le_read
exec_pop-rsp_example = exec_pop-rsp open_guest (plain 0x5C) machine 0x9090909090909090 refl refl

exec_ret-exec_call_example :
    (t : CpuState) × (u : CpuState) × (exec_call open_guest (plain 0xE8) machine ≡ breaks t 5)
    × (t.ctx.rip ≡ add64 (add64 machine.ctx.rip 5) (sext32 (imm32 (plain 0xE8) 1)))
    × (exec_ret open_guest (plain 0xC3) t ≡ breaks u 2)
    × (u.ctx.rip ≡ add64 machine.ctx.rip 5)
    × (reg u rsp ≡ reg machine rsp)
    × (u.call_stack ≡ machine.call_stack)
exec_ret-exec_call_example =
    exec_ret-exec_call open_guest (plain 0xE8) (plain 0xC3) machine
      (record { probe = refl; read = refl }) (omega arith)

decode_prefixes_ends_example :
    let code = code_byte machine.memory 0x1000 (prefetch open_guest 0x1000) in
    let i = decode_prefixes code in
    (is_prefix i.opcode ≡ false) × (i.opcode ≡ code (i.off - 1)) × (1 ≤ i.off) × (i.off ≤ 33)
decode_prefixes_ends_example = decode_prefixes_ends open_guest machine.memory 0x1000

-- The NOP at rip.
nop_runs :
    exec_op open_guest
      (op_of (fetched open_guest machine).opcode)
      (fetched open_guest machine)
      machine
    ≡ breaks (advance machine 1) 1
unfolding exec_op op_of exec_nop decode_prefixes code_byte prefetch take_prefixes is_prefix
nop_runs = refl

code_buffer_suffices_example : (1 ≤ 41) × (1 < buffer_size)
code_buffer_suffices_example =
    code_buffer_suffices open_guest machine (advance machine 1) 1 nop_runs

-- A run that ends: a NOP is executed at 0xFFF, and the breakpoints at 0x1000 stop the next round.
abbrev just_before : CpuState
just_before = record stopped_twice { ctx = record (machine.ctx) { rip = 0xFFF } }

nop_then_breakpoint :
    (u : CpuState) × (run open_guest (continues ∷ continues ∷ []) just_before ≡ ended breakpoint u)
unfolding run run_loop execute_one after_step exec_op op_of exec_nop decode_prefixes code_byte
    prefetch take_prefixes is_prefix add64
nop_then_breakpoint = (_, refl)

run-EndsWell_example : EndsWell (run open_guest (continues ∷ continues ∷ []) just_before)
run-EndsWell_example = run-EndsWell open_guest (continues ∷ continues ∷ []) just_before

run-add_breakpoint_example :
    (u : CpuState) × (run open_guest
        (continues ∷ continues ∷ [])
        (add_breakpoint machine 0x1000 "main").1
      ≡ ended breakpoint u)
    × (u.ctx ≡ machine.ctx)
    × (u.memory ≡ machine.memory)
    × (u.call_stack ≡ machine.call_stack)
    × (u.running ≡ false)
unfolding prefetch
run-add_breakpoint_example =
    run-add_breakpoint open_guest machine "main" (continues ∷ []) (λ e. omega (arith, e))
      (λ e. omega (arith, e))

remove_breakpoint-add_breakpoint_example :
    let (id, t) = add_breakpoint stopped_twice 0x2000 "new" in
    (u : CpuState) × (remove_breakpoint t id ≡ (true, u))
    × (u.breakpoints ≡ stopped_twice.breakpoints)
    × ((x : ℕ) → is_breakpoint u x ≡ is_breakpoint stopped_twice x)
unfolding is_breakpoint
remove_breakpoint-add_breakpoint_example =
    remove_breakpoint-add_breakpoint stopped_twice 0x2000 "new" refl refl

exec_div_lem_example :
    (t : CpuState) × (exec_div machine 7 2 ≡ breaks t 2)
    × (reg machine rax ≡ reg t rax * 7 + reg t rdx)
    × (reg t rdx < 7)
exec_div_lem_example = exec_div_lem machine 7 2 (λ e. omega (arith, e))

parity-even_example : parity 0x103 ≡ is_even (ones 8 (0x103 % 256))
parity-even_example = parity-even 0x103

implemented_opcodes_exact_example :
    contains 0xC3 implemented_opcodes ≡ not (is_unknown (op_of 0xC3))
implemented_opcodes_exact_example = implemented_opcodes_exact 0xC3 (omega arith)
