-- ===== src/Cpu/Step.antt =====
-- ExecuteOne, Step and Run.
use Prim.Native.Nat.{bit_and, bit_or, bit_xor}
use ps5x_windows.Base.{
  ℕ, ◌%◌, ◌^◌, true, false, ◌&&◌, ◌||◌, Option, none, some, List, [], ◌∷◌, leb, ◌==◌, if◌then◌else◌,
  lookup, ◌⊎◌, inl, inr,
}
use ps5x_windows.Cpu.Word.{add64}
use ps5x_windows.Cpu.State.{
  CpuState, InsnEvent, StepResult, ok, breakpoint, fault, halt, unimplemented, set_rip,
  count_breakpoint, count_executed, count_unimplemented,
}
use ps5x_windows.Cpu.Guest.{Guest}
use ps5x_windows.Cpu.Fetch.{
  Insn, Outcome, breaks, returns, traps, advance, prefetch, code_byte, decode_prefixes,
}
use ps5x_windows.Cpu.Exec.Alu.{
  alu_sub, alu_cmp, alu_logic, alu_test, exec_alu_imm8, exec_alu_imm32, exec_reg_rm, exec_rm_reg,
  exec_add, exec_test_rax,
}
use ps5x_windows.Cpu.Exec.Move.{
  exec_nop, exec_lahf, exec_sahf, exec_push, exec_pop, exec_xchg, exec_mov_imm, exec_mov_store,
  exec_mov_load, exec_lea, exec_mov_imm32,
}
use ps5x_windows.Cpu.Exec.Control.{
  exec_jmp8, exec_jmp32, exec_jcc8, exec_call, exec_ret, exec_ret_imm, exec_int,
}
use ps5x_windows.Cpu.Exec.Group.{exec_shift, exec_group_ff, exec_group_f7, exec_imul_imm}
use ps5x_windows.Cpu.Exec.TwoByte.{exec_two_byte}

-- The case labels of the switch.
pub data Op : Type 0 where
  nop lahf sahf push pop xchg mov_imm alu_imm8 alu_imm32 add or_rm and_rm sub xor_rm test : Op
  test_rax mov_store mov_load jmp8 jmp32 jcc8 call ret ret_imm int two_byte hlt cmp_rm cmp : Op
  lea mov_imm32 shift group_ff group_f7 imul_imm unknown : Op

unfoldable pub op_of : ℕ → Op
op_of c =
    if c == 0x90
    then nop
    else if c == 0x9F
    then lahf
    else if c == 0x9E
    then sahf
    else if leb 0x50 c && leb c 0x57
    then push
    else if leb 0x58 c && leb c 0x5F
    then pop
    else if leb 0x91 c && leb c 0x97
    then xchg
    else if leb 0xB8 c && leb c 0xBF
    then mov_imm
    else if c == 0x83
    then alu_imm8
    else if c == 0x81
    then alu_imm32
    else if c == 0x03
    then add
    else if c == 0x0B
    then or_rm
    else if c == 0x23
    then and_rm
    else if c == 0x2B
    then sub
    else if c == 0x33
    then xor_rm
    else if c == 0x85
    then test
    else if c == 0xA9
    then test_rax
    else if c == 0x89
    then mov_store
    else if c == 0x8B
    then mov_load
    else if c == 0xEB
    then jmp8
    else if c == 0xE9
    then jmp32
    else if leb 0x70 c && leb c 0x7F
    then jcc8
    else if c == 0xE8
    then call
    else if c == 0xC3
    then ret
    else if c == 0xC2
    then ret_imm
    else if c == 0xCD
    then int
    else if c == 0x0F
    then two_byte
    else if c == 0xF4
    then hlt
    else if c == 0x39
    then cmp_rm
    else if c == 0x3B
    then cmp
    else if c == 0x8D
    then lea
    else if c == 0xC7
    then mov_imm32
    else if c == 0xC1 || c == 0xD3
    then shift
    else if c == 0xFF
    then group_ff
    else if c == 0xF7
    then group_f7
    else if c == 0x69
    then imul_imm
    else unknown

unfoldable pub exec_op : Guest → Op → Insn → CpuState → Outcome
exec_op g nop i s = exec_nop i s
exec_op g lahf i s = exec_lahf i s
exec_op g sahf i s = exec_sahf i s
exec_op g push i s = exec_push g i s
exec_op g pop i s = exec_pop g i s
exec_op g xchg i s = exec_xchg i s
exec_op g mov_imm i s = exec_mov_imm i s
exec_op g alu_imm8 i s = exec_alu_imm8 i s
exec_op g alu_imm32 i s = exec_alu_imm32 i s
exec_op g add i s = exec_add g i s
exec_op g or_rm i s = exec_reg_rm (alu_logic bit_or) i s
exec_op g and_rm i s = exec_reg_rm (alu_logic bit_and) i s
exec_op g sub i s = exec_reg_rm alu_sub i s
exec_op g xor_rm i s = exec_reg_rm (alu_logic bit_xor) i s
exec_op g test i s = exec_rm_reg alu_test i s
exec_op g test_rax i s = exec_test_rax i s
exec_op g mov_store i s = exec_mov_store g i s
exec_op g mov_load i s = exec_mov_load g i s
exec_op g jmp8 i s = exec_jmp8 i s
exec_op g jmp32 i s = exec_jmp32 i s
exec_op g jcc8 i s = exec_jcc8 i s
exec_op g call i s = exec_call g i s
exec_op g ret i s = exec_ret g i s
exec_op g ret_imm i s = exec_ret_imm g i s
exec_op g int i s = exec_int i s
exec_op g two_byte i s = exec_two_byte i s
exec_op g hlt i s = returns halt (advance s i.off)
exec_op g cmp_rm i s = exec_rm_reg alu_cmp i s
exec_op g cmp i s = exec_reg_rm alu_cmp i s
exec_op g lea i s = exec_lea i s
exec_op g mov_imm32 i s = exec_mov_imm32 i s
exec_op g shift i s = exec_shift i s
exec_op g group_ff i s = exec_group_ff g i s
exec_op g group_f7 i s = exec_group_f7 i s
exec_op g imul_imm i s = exec_imul_imm i s
exec_op g unknown i s = returns unimplemented (count_unimplemented s)

-- The callback's call, if one is set.
unfoldable pub notify : CpuState → InsnEvent → CpuState
notify s e = if s.insn_cb then record s { insn_log = e ∷ s.insn_log } else s

-- What follows the switch. `none` is undefined behaviour.
unfoldable pub finish : Insn → ℕ → Outcome → Option (StepResult × CpuState)
unfolding notify
finish i saved_rip (breaks s off) = some (
  ok,
  notify (count_executed s)
      (record { rip = saved_rip; opcode = i.opcode; rex_w = i.rex_w; length = off % 2 ^ 8 }),
)
finish i saved_rip (returns r s) = some (r, s)
finish i saved_rip traps = none

unfoldable pub execute_insn : Guest → Insn → CpuState → Option (StepResult × CpuState)
unfolding op_of exec_op finish
execute_insn g i s = finish i s.ctx.rip (exec_op g (op_of i.opcode) i s)

unfoldable pub execute_one : Guest → CpuState → Option (StepResult × CpuState)
unfolding code_byte decode_prefixes execute_insn
execute_one g s =
    let n = prefetch g s.ctx.rip in
    let i = decode_prefixes (code_byte s.memory s.ctx.rip n) in
    if s.ctx.rip == 0
    then some (fault, s)
    else if n == 0
    then some (fault, s)
    else elim (lookup s.ctx.rip s.bp_by_addr) [
      | some id ↦ some (breakpoint, count_breakpoint s)
      | none ↦ execute_insn g i s
    ]

-- What other threads do to `running` before a round of Run: nothing, or a Stop. Pause and Resume
-- only delay a round.
pub data Control : Type 0 where
  continues stops : Control

abbrev apply_control : Control → CpuState → CpuState
apply_control continues s = s
apply_control stops s = record s { running = false }

abbrev pub stopped : CpuState → CpuState
stopped s = record s { running = false }

pub data RunEnd : Type 0 where
  ended : StepResult → CpuState → RunEnd
  host_trap still_running : RunEnd

-- What a round does with the result of ExecuteOne: an end, or the state of the next round.
unfoldable pub after_step : Option (StepResult × CpuState) → RunEnd ⊎ CpuState
unfolding add64
after_step none = inl host_trap
after_step (some (ok, s)) = inr s
after_step (some (unimplemented, s)) = inr (set_rip s (add64 s.ctx.rip 1))
after_step (some (r, s)) = inl (ended r (stopped s))

abbrev pub continue_with : RunEnd ⊎ CpuState → (CpuState → RunEnd) → RunEnd
continue_with (inl e) k = e
continue_with (inr t) k = k t

-- The loop of Run. Each entry of the schedule is one round; the loop may outlast it.
unfoldable pub run_loop : Guest → List Control → CpuState → RunEnd
run_loop g [] s = still_running
run_loop g (c ∷ cs) s =
    let t = apply_control c s in
    elim t.running [
      | false ↦ ended ok (stopped t)
      | true ↦ continue_with (after_step (execute_one g t)) (run_loop g cs)
    ]

unfoldable pub run : Guest → List Control → CpuState → RunEnd
unfolding run_loop
run g cs s = run_loop g cs (record s { running = true; paused = false })
