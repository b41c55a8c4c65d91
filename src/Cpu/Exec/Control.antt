-- ===== src/Cpu/Exec/Control.antt =====
-- Jumps, calls, returns and interrupts (Cpu.cpp, cases 0x70 to 0x7F, 0xC2, 0xC3, 0xCD, 0xE8, 0xE9,
-- 0xEB).
use ps5x_windows.Base.{
  ℕ, ◌+◌, ◌%◌, Bool, not, xor, ◌&&◌, ◌||◌, none, some, List, [], ◌∷◌, ◌==◌, if◌then◌else◌,
}
use ps5x_windows.Cpu.Word.{add64, sext8, sext32}
use ps5x_windows.Cpu.State.{
  CpuState, CallFrame, rsp, rbp, reg, set_reg, set_rip, count_fault, count_breakpoint,
  count_syscall, fault, breakpoint, syscall, unimplemented,
}
use ps5x_windows.Cpu.Flags.{flag, cf_mask, pf_mask, zf_mask, sf_mask, of_mask}
use ps5x_windows.Cpu.Guest.{Guest, guest_read}
use ps5x_windows.Cpu.Fetch.{Insn, Outcome, breaks, returns, advance, imm16, imm32}
use ps5x_windows.Cpu.Exec.Move.{push_word}

-- The condition codes: `cc` is the low half of the opcode, `f` RFLAGS.
unfoldable pub cond_taken : ℕ → ℕ → Bool
unfolding flag
cond_taken cc f =
    let cf = flag f cf_mask in
    let zf = flag f zf_mask in
    let sf = flag f sf_mask in
    let of = flag f of_mask in
    let pf = flag f pf_mask in
    if cc == 0x0
    then of
    else if cc == 0x1
    then not of
    else if cc == 0x2
    then cf
    else if cc == 0x3
    then not cf
    else if cc == 0x4
    then zf
    else if cc == 0x5
    then not zf
    else if cc == 0x6
    then cf || zf
    else if cc == 0x7
    then not cf && not zf
    else if cc == 0x8
    then sf
    else if cc == 0x9
    then not sf
    else if cc == 0xA
    then pf
    else if cc == 0xB
    then not pf
    else if cc == 0xC
    then xor sf of
    else if cc == 0xD
    then not (xor sf of)
    else if cc == 0xE
    then zf || xor sf of
    else not zf && not (xor sf of)

unfoldable pub jump : CpuState → ℕ → CpuState
unfolding add64
jump s rel = set_rip s (add64 s.ctx.rip rel)

-- 0xEB: JMP rel8.
unfoldable pub exec_jmp8 : Insn → CpuState → Outcome
unfolding jump sext8
exec_jmp8 i s = let off = i.off + 1 in breaks (jump (advance s off) (sext8 (i.code i.off))) off

-- 0xE9: JMP rel32.
unfoldable pub exec_jmp32 : Insn → CpuState → Outcome
unfolding jump sext32
exec_jmp32 i s = let off = i.off + 4 in breaks (jump (advance s off) (sext32 (imm32 i i.off))) off

-- 0x70 to 0x7F: Jcc rel8.
unfoldable pub exec_jcc8 : Insn → CpuState → Outcome
unfolding jump sext8 cond_taken
exec_jcc8 i s0 =
    let off = i.off + 1 in
    let s = advance s0 off in
    let rel = sext8 (i.code i.off) in
    breaks (if cond_taken (i.opcode % 16) s.ctx.rflags then jump s rel else s) off

unfoldable pub push_frame : CpuState → CallFrame → CpuState
push_frame s f = record s { call_stack = f ∷ s.call_stack }

abbrev drop_frame : List CallFrame → List CallFrame
drop_frame [] = []
drop_frame (f ∷ fs) = fs

-- `if (!st.callStack.empty()) st.callStack.pop_back()`.
unfoldable pub pop_frame : CpuState → CpuState
pop_frame s = record s { call_stack = drop_frame s.call_stack }

-- 0xE8: CALL rel32.
unfoldable pub exec_call : Guest → Insn → CpuState → Outcome
unfolding push_frame jump sext32
exec_call g i s0 =
    let off = i.off + 4 in
    let s = advance s0 off in
    let (done, t) = push_word g s s.ctx.rip in
    let frame : CallFrame = record {
      return_addr = t.ctx.rip;
      frame_base = reg t rbp;
      symbol = "";
    } in
    if done
    then breaks (jump (push_frame t frame) (sext32 (imm32 i i.off))) off
    else returns fault (count_fault t)

-- The common part of the returns: `extra` bytes are dropped from the stack.
unfoldable pub return_to : Guest → CpuState → ℕ → ℕ → Outcome
unfolding pop_frame add64
return_to g s extra off = elim (guest_read 8 g s (reg s rsp)) [
  | none ↦ returns fault (count_fault s)
  | some a ↦ breaks (pop_frame (set_rip (set_reg s rsp (add64 (reg s rsp) (8 + extra))) a)) off
]

-- 0xC3: RET.
unfoldable pub exec_ret : Guest → Insn → CpuState → Outcome
unfolding return_to
exec_ret g i s = return_to g s 0 (i.off + 1)

-- 0xC2: RET imm16.
unfoldable pub exec_ret_imm : Guest → Insn → CpuState → Outcome
unfolding return_to
exec_ret_imm g i s = return_to g s (imm16 i i.off) (i.off + 3)

-- 0xCD: INT imm8.
unfoldable pub exec_int : Insn → CpuState → Outcome
exec_int i s0 =
    let vec = i.code i.off in
    let s = advance s0 (i.off + 1) in
    if vec == 3
    then returns breakpoint (count_breakpoint s)
    else if vec == 0x80
    then returns syscall (count_syscall s)
    else returns unimplemented s
