-- ===== src/Cpu/Exec/Alu.antt =====
-- Arithmetic and logic between registers and immediates (Cpu.cpp, cases 0x83 to 0xA9, 0x39, 0x3B).
use Prim.Native.Nat.{bit_and, bit_or, bit_xor}
use ps5x_windows.Base.{ℕ, ◌+◌, ◌-◌, true, false, Option, none, some, ◌==◌, if◌then◌else◌}
use ps5x_windows.Cpu.Word.{add64, sub64, sext8, sext32}
use ps5x_windows.Cpu.State.{
  CpuState, rax, reg, set_reg, set_rip, set_rflags, count_fault, count_unimplemented, fault,
  unimplemented,
}
use ps5x_windows.Cpu.Flags.{update_flags_logic, update_flags_arith}
use ps5x_windows.Cpu.Guest.{Guest, guest_read}
use ps5x_windows.Cpu.Fetch.{
  Insn, Outcome, breaks, returns, advance, modrm_reg, modrm_rm, modrm_mod, modrm_ext, imm32,
}

-- RFLAGS and the value to store after an operation on `a` and `b`.
unfoldable pub alu_add : ℕ → ℕ → ℕ → ℕ × Option ℕ
alu_add f a b = let r = add64 a b in (update_flags_arith f a b r false 64, some r)

unfoldable pub alu_sub : ℕ → ℕ → ℕ → ℕ × Option ℕ
alu_sub f a b = let r = sub64 a b in (update_flags_arith f a b r true 64, some r)

unfoldable pub alu_cmp : ℕ → ℕ → ℕ → ℕ × Option ℕ
alu_cmp f a b = let r = sub64 a b in (update_flags_arith f a b r true 64, none)

unfoldable pub alu_logic : (ℕ → ℕ → ℕ) → ℕ → ℕ → ℕ → ℕ × Option ℕ
alu_logic op f a b = let r = op a b in (update_flags_logic f r 64, some r)

-- TEST: the flags of `a & b` alone.
unfoldable pub alu_test : ℕ → ℕ → ℕ → ℕ × Option ℕ
alu_test f a b = (update_flags_logic f (bit_and a b) 64, none)

-- The inner switch of the cases 0x83 and 0x81, by the extension of the opcode.
unfoldable pub alu_group : ℕ → Option (ℕ → ℕ → ℕ → ℕ × Option ℕ)
alu_group ext =
    if ext == 0
    then some alu_add
    else if ext == 1
    then some (alu_logic bit_or)
    else if ext == 4
    then some (alu_logic bit_and)
    else if ext == 5
    then some alu_sub
    else if ext == 6
    then some (alu_logic bit_xor)
    else if ext == 7
    then some alu_cmp
    else none

-- Flags first, then the destination register, if there is one.
unfoldable pub store : CpuState → ℕ → ℕ × Option ℕ → CpuState
store s r (f, none) = set_rflags s f
store s r (f, some v) = set_reg (set_rflags s f) r v

unfoldable pub apply_alu : (ℕ → ℕ → ℕ → ℕ × Option ℕ) → CpuState → ℕ → ℕ → ℕ → CpuState
unfolding store
apply_alu op s r a b = store s r (op s.ctx.rflags a b)

run_group : Option (ℕ → ℕ → ℕ → ℕ × Option ℕ) → CpuState → ℕ → ℕ → ℕ → Outcome
unfolding apply_alu
run_group none s rm b off = returns unimplemented (count_unimplemented s)
run_group (some op) s rm b off = breaks (apply_alu op s rm (reg s rm) b) off

-- 0x83: r/m64, imm8. The mod field of ModRM is not looked at.
unfoldable pub exec_alu_imm8 : Insn → CpuState → Outcome
unfolding run_group alu_group modrm_rm sext8
exec_alu_imm8 i s0 =
    let modrm = i.code i.off in
    let off = i.off + 2 in
    let s = advance s0 off in
    run_group (alu_group (modrm_ext modrm)) s (modrm_rm i modrm) (sext8 (i.code (i.off + 1))) off

-- 0x81: r/m64, imm32. A memory operand is passed over.
unfoldable pub exec_alu_imm32 : Insn → CpuState → Outcome
unfolding run_group alu_group modrm_rm sext32
exec_alu_imm32 i s0 =
    let modrm = i.code i.off in
    let off = i.off + 5 in
    let s = advance s0 off in
    if modrm_mod modrm == 3
    then run_group (alu_group (modrm_ext modrm)) s (modrm_rm i modrm) (sext32 (imm32 i (i.off + 1)))
        off
    else breaks s off

-- 0x0B, 0x23, 0x2B, 0x33, 0x3B: r64, r/m64, for a register operand.
unfoldable pub exec_reg_rm : (ℕ → ℕ → ℕ → ℕ × Option ℕ) → Insn → CpuState → Outcome
unfolding apply_alu modrm_reg modrm_rm
exec_reg_rm op i s0 =
    let modrm = i.code i.off in
    let off = i.off + 1 in
    let s = advance s0 off in
    let r = modrm_reg i modrm in
    if modrm_mod modrm == 3
    then breaks (apply_alu op s r (reg s r) (reg s (modrm_rm i modrm))) off
    else breaks s off

-- 0x85, 0x39: r/m64, r64, for a register operand; the first operand is the r/m.
unfoldable pub exec_rm_reg : (ℕ → ℕ → ℕ → ℕ × Option ℕ) → Insn → CpuState → Outcome
unfolding apply_alu modrm_reg modrm_rm
exec_rm_reg op i s0 =
    let modrm = i.code i.off in
    let off = i.off + 1 in
    let s = advance s0 off in
    let rm = modrm_rm i modrm in
    if modrm_mod modrm == 3
    then breaks (apply_alu op s rm (reg s rm) (reg s (modrm_reg i modrm))) off
    else breaks s off

-- The memory operand of 0x03: its displacement is read at off - 1, where the ModRM byte stands.
add_memory : Guest → Insn → CpuState → ℕ → ℕ → ℕ → Outcome
unfolding apply_alu sext8 add64
add_memory g i s r rm off =
    let short = modrm_mod (i.code i.off) == 1 in
    let disp = if short then sext8 (i.code (off - 1)) else 0 in
    let t = if short then set_rip s (add64 s.ctx.rip 1) else s in
    elim (guest_read 8 g t (add64 (reg t rm) disp)) [
      | none ↦ returns fault (count_fault t)
      | some b ↦ breaks (apply_alu alu_add t r (reg t r) b) off
    ]

-- 0x03: ADD r64, r/m64.
unfoldable pub exec_add : Guest → Insn → CpuState → Outcome
unfolding add_memory modrm_reg modrm_rm
exec_add g i s0 =
    let modrm = i.code i.off in
    let off = i.off + 1 in
    let s = advance s0 off in
    let r = modrm_reg i modrm in
    let rm = modrm_rm i modrm in
    if modrm_mod modrm == 3
    then breaks (apply_alu alu_add s r (reg s r) (reg s rm)) off
    else add_memory g i s r rm off

-- 0xA9: TEST rAX, imm32.
unfoldable pub exec_test_rax : Insn → CpuState → Outcome
unfolding sext32
exec_test_rax i s0 =
    let off = i.off + 4 in
    let s = advance s0 off in
    let r = bit_and (reg s rax) (sext32 (imm32 i i.off)) in
    breaks (set_rflags s (update_flags_logic s.ctx.rflags r (if i.rex_w then 64 else 32))) off
