-- ===== src/Cpu/Exec/TwoByte.antt =====
-- The opcodes behind 0x0F (Cpu.cpp, case 0x0F).
use ps5x_windows.Base.{
  ℕ, ◌+◌, ◌%◌, ◌^◌, Bool, false, not, xor, ◌&&◌, ◌||◌, leb, ◌==◌, if◌then◌else◌,
}
use ps5x_windows.Cpu.Word.{sext8, sext16, sext32}
use ps5x_windows.Cpu.State.{
  CpuState, reg, set_reg, count_syscall, count_unimplemented, syscall, unimplemented,
}
use ps5x_windows.Cpu.Flags.{flag, cf_mask, zf_mask, sf_mask, of_mask}
use ps5x_windows.Cpu.Fetch.{
  Insn, Outcome, breaks, returns, advance, modrm_reg, modrm_rm, modrm_mod, imm32,
}
use ps5x_windows.Cpu.Exec.Control.{cond_taken, jump}
use ps5x_windows.Cpu.Exec.Group.{imul_into}

-- The conditions of CMOVcc; those on the parity (0xA, 0xB) fall to the default.
unfoldable pub cmov_taken : ℕ → ℕ → Bool
unfolding flag
cmov_taken cc f =
    let cf = flag f cf_mask in
    let zf = flag f zf_mask in
    let sf = flag f sf_mask in
    let of = flag f of_mask in
    if cc == 0x0
    then of
    else if cc == 0x1
    then not of
    else if cc == 0x2
    then cf
    else if cc == 0x3
    then not cf
    else if cc == 0x4
    then zf
    else if cc == 0x5
    then not zf
    else if cc == 0x6
    then cf || zf
    else if cc == 0x7
    then not cf && not zf
    else if cc == 0x8
    then sf
    else if cc == 0x9
    then not sf
    else if cc == 0xC
    then xor sf of
    else if cc == 0xD
    then not (xor sf of)
    else if cc == 0xE
    then zf || xor sf of
    else if cc == 0xF
    then not zf && not (xor sf of)
    else false

-- 0F 80 to 0F 8F: Jcc rel32. `off` is behind the second opcode byte from here on.
unfoldable pub exec_jcc32 : Insn → CpuState → ℕ → ℕ → Outcome
unfolding cond_taken jump sext32
exec_jcc32 i s0 op2 off0 =
    let off = off0 + 4 in
    let s = advance s0 off in
    let rel = sext32 (imm32 i off0) in
    breaks (if cond_taken (op2 % 16) s.ctx.rflags then jump s rel else s) off

-- An instruction with a ModRM byte that writes `f` of the r/m register to `reg`.
with_registers : Insn → CpuState → ℕ → (CpuState → ℕ → ℕ → CpuState) → Outcome
unfolding modrm_reg modrm_rm
with_registers i s0 off0 f =
    let modrm = i.code off0 in
    let off = off0 + 1 in
    let s = advance s0 off in
    if modrm_mod modrm == 3
    then breaks (f s (modrm_reg i modrm) (modrm_rm i modrm)) off
    else breaks s off

cmov : ℕ → CpuState → ℕ → ℕ → CpuState
unfolding cmov_taken
cmov op2 s r rm = if cmov_taken (op2 % 16) s.ctx.rflags then set_reg s r (reg s rm) else s

movzx : ℕ → CpuState → ℕ → ℕ → CpuState
movzx op2 s r rm = set_reg s r (if op2 == 0xB6 then reg s rm % 2 ^ 8 else reg s rm % 2 ^ 16)

movsx : ℕ → CpuState → ℕ → ℕ → CpuState
unfolding sext8 sext16
movsx op2 s r rm =
    set_reg s r (if op2 == 0xBE then sext8 (reg s rm % 2 ^ 8) else sext16 (reg s rm % 2 ^ 16))

imul : CpuState → ℕ → ℕ → CpuState
unfolding imul_into
imul s r rm = imul_into s r (reg s r) (reg s rm)

unfoldable pub exec_two_byte : Insn → CpuState → Outcome
unfolding exec_jcc32 with_registers cmov movzx movsx imul
exec_two_byte i s =
    let op2 = i.code i.off in
    let off = i.off + 1 in
    if op2 == 0x05
    then returns syscall (count_syscall (advance s off))
    else if leb 0x80 op2 && leb op2 0x8F
    then exec_jcc32 i s op2 off
    else if leb 0x40 op2 && leb op2 0x4F
    then with_registers i s off (cmov op2)
    else if op2 == 0xB6 || op2 == 0xB7
    then with_registers i s off (movzx op2)
    else if op2 == 0xBE || op2 == 0xBF
    then with_registers i s off (movsx op2)
    else if op2 == 0xAF
    then with_registers i s off imul
    else returns unimplemented (count_unimplemented s)
