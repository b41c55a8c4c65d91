-- ===== src/Cpu/Exec/Group.antt =====
-- The opcode groups 0xC1, 0xD3 (shifts), 0xFF, 0xF7 and the three-operand IMUL 0x69 of Cpu.cpp.
pub mod Laws
use ps5x_windows.Base.{
  ℕ, ◌+◌, ◌-◌, ◌*◌, ◌/◌, ◌%◌, ◌^◌, Bool, true, false, not, ◌&&◌, ltb, ◌==◌, if◌then◌else◌,
}
use ps5x_windows.Cpu.Word.{add64, sub64, not64, word_mod, word_max, is_negative, sext32}
use ps5x_windows.Cpu.State.{
  CpuState, CallFrame, rax, rcx, rdx, reg, set_reg, set_rip, set_rflags, count_fault,
  count_unimplemented, fault, unimplemented,
}
use ps5x_windows.Cpu.Flags.{
  set_flag, test_bit, update_flags_logic, cf_mask, zf_mask, sf_mask, of_mask,
}
use ps5x_windows.Cpu.Mul.{mul128u, mul128s, imul_overflows}
use ps5x_windows.Cpu.Guest.{Guest}
use ps5x_windows.Cpu.Fetch.{
  Insn, Outcome, breaks, returns, traps, advance, modrm_reg, modrm_rm, modrm_mod, modrm_ext, imm32,
}
use ps5x_windows.Cpu.Exec.Move.{push_word}
use ps5x_windows.Cpu.Exec.Control.{push_frame}

-- `v >> count` of an int64_t pattern.
unfoldable pub sar : ℕ → ℕ → ℕ
sar v count = if is_negative v then word_max - (word_max - v) / 2 ^ count else v / 2 ^ count

-- Each shift gives the carry and the result, for a count below 64.
unfoldable pub shift_left : ℕ → ℕ → Bool × ℕ
unfolding test_bit
shift_left v count = (ltb 0 count && test_bit v (64 - count), v * 2 ^ count % word_mod)

unfoldable pub shift_right : ℕ → ℕ → Bool × ℕ
unfolding test_bit
shift_right v count = (ltb 0 count && test_bit v (count - 1), v / 2 ^ count)

unfoldable pub shift_arith : ℕ → ℕ → Bool × ℕ
unfolding test_bit sar
shift_arith v count = (ltb 0 count && test_bit (sar v (count - 1)) 0, sar v count)

-- CF is set, then UpdateFlagsLogic is called, then the register is written.
unfoldable pub apply_shift : Bool × ℕ → CpuState → ℕ → CpuState
unfolding set_flag update_flags_logic
apply_shift (carry, r) s rm =
    let f = set_flag s.ctx.rflags cf_mask carry in
    set_reg (set_rflags s (update_flags_logic f r 64)) rm r

unfoldable pub exec_shift_by : Insn → CpuState → ℕ → ℕ → ℕ → Outcome
unfolding apply_shift shift_left shift_right shift_arith modrm_rm
exec_shift_by i s0 modrm count off =
    let s = advance s0 off in
    let rm = modrm_rm i modrm in
    let ext = modrm_ext modrm in
    if modrm_mod modrm == 3
    then (if ext == 4
        then breaks (apply_shift (shift_left (reg s rm) count) s rm) off
        else if ext == 5
        then breaks (apply_shift (shift_right (reg s rm) count) s rm) off
        else if ext == 7
        then breaks (apply_shift (shift_arith (reg s rm) count) s rm) off
        else returns unimplemented (count_unimplemented s))
    else breaks s off

-- 0xC1 with an immediate count, 0xD3 with CL.
unfoldable pub exec_shift : Insn → CpuState → Outcome
unfolding exec_shift_by
exec_shift i s =
    if i.opcode == 0xC1
    then exec_shift_by i s (i.code i.off) (i.code (i.off + 1) % 64) (i.off + 2)
    else exec_shift_by i s (i.code i.off) (reg s rcx % 2 ^ 8 % 64) (i.off + 1)

-- 0xFF /0 and /1. DEC leaves OF alone.
unfoldable pub inc_flags : ℕ → ℕ → ℕ
unfolding set_flag test_bit add64
inc_flags f v =
    let r = add64 v 1 in
    set_flag (set_flag (set_flag f zf_mask (r == 0)) sf_mask (test_bit r 63)) of_mask
      (v == word_max / 2)

unfoldable pub dec_flags : ℕ → ℕ → ℕ
unfolding set_flag test_bit sub64
dec_flags f v = let r = sub64 v 1 in set_flag (set_flag f zf_mask (r == 0)) sf_mask (test_bit r 63)

-- 0xFF /2: CALL r64. The frame's base stays 0.
unfoldable pub call_register : Guest → CpuState → ℕ → ℕ → Outcome
unfolding push_frame
call_register g s rm off =
    let target = reg s rm in
    let (done, t) = push_word g s s.ctx.rip in
    let frame : CallFrame = record { return_addr = t.ctx.rip; frame_base = 0; symbol = "" } in
    if done then breaks (set_rip (push_frame t frame) target) off else returns fault (count_fault t)

unfoldable pub exec_group_ff : Guest → Insn → CpuState → Outcome
unfolding inc_flags dec_flags call_register modrm_rm
exec_group_ff g i s0 =
    let modrm = i.code i.off in
    let off = i.off + 1 in
    let s = advance s0 off in
    let rm = modrm_rm i modrm in
    let ext = modrm_ext modrm in
    let v = reg s rm in
    if modrm_mod modrm == 3
    then (if ext == 0
        then breaks (set_reg (set_rflags s (inc_flags s.ctx.rflags v)) rm (add64 v 1)) off
        else if ext == 1
        then breaks (set_reg (set_rflags s (dec_flags s.ctx.rflags v)) rm (sub64 v 1)) off
        else if ext == 2
        then call_register g s rm off
        else if ext == 4
        then breaks (set_rip s v) off
        else breaks s off)
    else breaks s off

unfoldable pub neg_flags : ℕ → ℕ → ℕ
unfolding set_flag test_bit sub64
neg_flags f v =
    let r = sub64 0 v in
    set_flag (set_flag (set_flag f cf_mask (not (v == 0))) zf_mask (r == 0)) sf_mask (test_bit r 63)

-- RDX:RAX and CF = OF after MUL and IMUL.
unfoldable pub store_product : CpuState → ℕ × ℕ → Bool → CpuState
unfolding set_flag
store_product s (hi, lo) wide =
    let f = set_flag (set_flag s.ctx.rflags cf_mask wide) of_mask wide in
    set_rflags (set_reg (set_reg s rax lo) rdx hi) f

-- The magnitude of an int64_t, and the pattern of minus a magnitude.
abbrev pub abs64 : ℕ → ℕ
abs64 v = if is_negative v then word_mod - v else v

abbrev with_sign : Bool → ℕ → ℕ
with_sign neg v = if neg then sub64 0 v else v

abbrev differ : Bool → Bool → Bool
differ a b = if a then not b else b

-- DIV: RAX alone is the dividend.
unfoldable pub exec_div : CpuState → ℕ → ℕ → Outcome
exec_div s denom off =
    if denom == 0
    then returns fault (count_fault s)
    else breaks (set_reg (set_reg s rax (reg s rax / denom)) rdx (reg s rax % denom)) off

-- IDIV: `num / denom` and `num % denom` of int64_t, which is undefined for -2 ^ 63 and -1.
unfoldable pub exec_idiv : CpuState → ℕ → ℕ → Outcome
unfolding sub64
exec_idiv s denom off =
    let num = reg s rax in
    if denom == 0
    then returns fault (count_fault s)
    else if num == 2 ^ 63 && denom == word_max
    then traps
    else let q = abs64 num / abs64 denom in
      let r = abs64 num % abs64 denom in
      let t = set_reg s rax (with_sign (differ (is_negative num) (is_negative denom)) q) in
      breaks (set_reg t rdx (with_sign (is_negative num) r)) off

unfoldable pub exec_group_f7 : Insn → CpuState → Outcome
unfolding neg_flags store_product exec_div exec_idiv imul_overflows modrm_rm not64
exec_group_f7 i s0 =
    let modrm = i.code i.off in
    let off = i.off + 1 in
    let s = advance s0 off in
    let rm = modrm_rm i modrm in
    let ext = modrm_ext modrm in
    let v = reg s rm in
    let u = mul128u (reg s rax) v in
    let p = mul128s (reg s rax) v in
    if modrm_mod modrm == 3
    then (if ext == 2
        then breaks (set_reg s rm (not64 v)) off
        else if ext == 3
        then breaks (set_reg (set_rflags s (neg_flags s.ctx.rflags v)) rm (sub64 0 v)) off
        else if ext == 4
        then breaks (store_product s u (not (u.0 == 0))) off
        else if ext == 5
        then breaks (store_product s p (imul_overflows p.0 p.1)) off
        else if ext == 6
        then exec_div s v off
        else if ext == 7
        then exec_idiv s v off
        else breaks s off)
    else breaks s off

-- IMUL into one register, with CF = OF = overflow.
unfoldable pub imul_into : CpuState → ℕ → ℕ → ℕ → CpuState
unfolding imul_overflows set_flag
imul_into s r a b =
    let p = mul128s a b in
    let wide = imul_overflows p.0 p.1 in
    let f = set_flag (set_flag s.ctx.rflags cf_mask wide) of_mask wide in
    set_rflags (set_reg s r p.1) f

-- 0x69: IMUL r64, r/m64, imm32.
unfoldable pub exec_imul_imm : Insn → CpuState → Outcome
unfolding imul_into modrm_reg modrm_rm sext32
exec_imul_imm i s0 =
    let modrm = i.code i.off in
    let off = i.off + 5 in
    let s = advance s0 off in
    let b = sext32 (imm32 i (i.off + 1)) in
    if modrm_mod modrm == 3
    then breaks (imul_into s (modrm_reg i modrm) (reg s (modrm_rm i modrm)) b) off
    else breaks s off
