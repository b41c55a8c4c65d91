-- ===== src/Cpu/Exec/Move.antt =====
-- Moves, the stack, LAHF and SAHF (Cpu.cpp, cases 0x50 to 0x5F, 0x89, 0x8B, 0x8D, 0x91 to 0x9F,
-- 0xB8, 0xC7).
use Prim.Native.Nat.{bit_and, bit_or}
use ps5x_windows.Base.{ℕ, ◌+◌, ◌*◌, ◌/◌, ◌%◌, ◌^◌, Bool, none, some, ◌==◌, if◌then◌else◌}
use ps5x_windows.Cpu.Word.{add64, sub64, not64, sext8, sext32}
use ps5x_windows.Cpu.State.{
  CpuState, rax, rsp, reg, set_reg, set_rip, set_rflags, count_fault, fault,
}
use ps5x_windows.Cpu.Flags.{cf_mask, pf_mask, af_mask, zf_mask, sf_mask}
use ps5x_windows.Cpu.Guest.{Guest, guest_read, guest_write}
use ps5x_windows.Cpu.Fetch.{
  Insn, Outcome, breaks, returns, advance, modrm_reg, modrm_rm, modrm_mod, modrm_ext, opcode_reg,
  imm32, imm64,
}

-- 0x90: NOP.
unfoldable pub exec_nop : Insn → CpuState → Outcome
exec_nop i s = breaks (advance s i.off) i.off

-- 0x9F: LAHF.
unfoldable pub exec_lahf : Insn → CpuState → Outcome
unfolding not64
exec_lahf i s =
    let ah = bit_or (s.ctx.rflags % 2 ^ 8) 2 in
    let v = bit_or (bit_and (reg s rax) (not64 0xFF00)) (ah * 2 ^ 8) in
    breaks (advance (set_reg s rax v) i.off) i.off

abbrev pub sahf_mask : ℕ
sahf_mask = bit_or cf_mask (bit_or pf_mask (bit_or af_mask (bit_or zf_mask sf_mask)))

-- 0x9E: SAHF.
unfoldable pub exec_sahf : Insn → CpuState → Outcome
unfolding not64
exec_sahf i s =
    let ah = reg s rax / 2 ^ 8 % 2 ^ 8 in
    let f = bit_or (bit_and s.ctx.rflags (not64 sahf_mask)) (bit_and ah sahf_mask) in
    breaks (advance (set_rflags s f) i.off) i.off

-- A push of `v`: `none` is a fault, which leaves RSP as it was.
unfoldable pub push_word : Guest → CpuState → ℕ → Bool × CpuState
unfolding guest_write sub64
push_word g s v =
    let sp = sub64 (reg s rsp) 8 in
    let (done, t) = guest_write 8 g s sp v in (done, if done then set_reg t rsp sp else t)

-- 0x50 to 0x57: PUSH r64.
unfoldable pub exec_push : Guest → Insn → CpuState → Outcome
unfolding opcode_reg
exec_push g i s =
    let (done, t) = push_word g s (reg s (opcode_reg i)) in
    if done then breaks (advance t i.off) i.off else returns fault (count_fault t)

-- 0x58 to 0x5F: POP r64. RSP grows after the register is written.
unfoldable pub exec_pop : Guest → Insn → CpuState → Outcome
unfolding opcode_reg
exec_pop g i s = elim (guest_read 8 g s (reg s rsp)) [
  | none ↦ returns fault (count_fault s)
  | some v ↦
      let t = set_reg s (opcode_reg i) v in
      breaks (advance (set_reg t rsp (add64 (reg t rsp) 8)) i.off) i.off
]

-- 0x91 to 0x97: XCHG r64, RAX.
unfoldable pub exec_xchg : Insn → CpuState → Outcome
unfolding opcode_reg
exec_xchg i s =
    let r = opcode_reg i in
    breaks (advance (set_reg (set_reg s rax (reg s r)) r (reg s rax)) i.off) i.off

-- 0xB8 to 0xBF: MOV r64, imm64, or the zero-extended imm32.
unfoldable pub exec_mov_imm : Insn → CpuState → Outcome
unfolding opcode_reg
exec_mov_imm i s =
    let off = i.off + (if i.rex_w then 8 else 4) in
    let v = if i.rex_w then imm64 i i.off else imm32 i i.off in
    breaks (advance (set_reg s (opcode_reg i) v) off) off

-- The displacement behind a ModRM byte with `mod` 1 or 2, the bytes that it takes, and the
-- increment of rip for them. `off` is the offset behind the ModRM byte.
unfoldable pub displacement : Insn → ℕ → ℕ → ℕ × ℕ
unfolding sext8 sext32
displacement i mode off =
    if mode == 1
    then (sext8 (i.code off), 1)
    else if mode == 2
    then (sext32 (imm32 i off), 4)
    else (0, 0)

-- 0x89 to a memory operand: 8 bytes with REX.W, else the low 4.
store_memory : Guest → Insn → CpuState → ℕ → ℕ → ℕ → Outcome
unfolding displacement
store_memory g i s r rm mode =
    let (disp, n) = displacement i mode (i.off + 1) in
    let off = i.off + 1 + n in
    let t = set_rip s (add64 s.ctx.rip n) in
    let ea = add64 (reg t rm) disp in
    let (done, u) =
      if i.rex_w then guest_write 8 g t ea (reg t r) else guest_write 4 g t ea (reg t r % 2 ^ 32) in
    if done then breaks u off else returns fault (count_fault u)

-- 0x89: MOV r/m64, r64.
unfoldable pub exec_mov_store : Guest → Insn → CpuState → Outcome
unfolding store_memory modrm_reg modrm_rm
exec_mov_store g i s0 =
    let modrm = i.code i.off in
    let off = i.off + 1 in
    let s = advance s0 off in
    let r = modrm_reg i modrm in
    let rm = modrm_rm i modrm in
    if modrm_mod modrm == 3
    then breaks (set_reg s rm (reg s r)) off
    else store_memory g i s r rm (modrm_mod modrm)

load_memory : Guest → Insn → CpuState → ℕ → ℕ → ℕ → Outcome
unfolding displacement
load_memory g i s r rm mode =
    let (disp, n) = displacement i mode (i.off + 1) in
    let off = i.off + 1 + n in
    let t = set_rip s (add64 s.ctx.rip n) in
    let ea = add64 (reg t rm) disp in
    elim (guest_read (if i.rex_w then 8 else 4) g t ea) [
      | none ↦ returns fault (count_fault t)
      | some v ↦ breaks (set_reg t r v) off
    ]

-- 0x8B: MOV r64, r/m64.
unfoldable pub exec_mov_load : Guest → Insn → CpuState → Outcome
unfolding load_memory modrm_reg modrm_rm
exec_mov_load g i s0 =
    let modrm = i.code i.off in
    let off = i.off + 1 in
    let s = advance s0 off in
    let r = modrm_reg i modrm in
    let rm = modrm_rm i modrm in
    if modrm_mod modrm == 3
    then breaks (set_reg s r (reg s rm)) off
    else load_memory g i s r rm (modrm_mod modrm)

-- 0x8D: LEA r64, m.
unfoldable pub exec_lea : Insn → CpuState → Outcome
unfolding displacement modrm_reg modrm_rm
exec_lea i s0 =
    let modrm = i.code i.off in
    let s = advance s0 (i.off + 1) in
    let (disp, n) = displacement i (modrm_mod modrm) (i.off + 1) in
    let t = set_rip s (add64 s.ctx.rip n) in
    breaks (set_reg t (modrm_reg i modrm) (add64 (reg t (modrm_rm i modrm)) disp)) (i.off + 1 + n)

-- 0xC7: MOV r/m64, imm32.
unfoldable pub exec_mov_imm32 : Insn → CpuState → Outcome
unfolding modrm_rm sext32
exec_mov_imm32 i s0 =
    let modrm = i.code i.off in
    let imm = imm32 i (i.off + 1) in
    let off = i.off + 5 in
    let s = advance s0 off in
    if modrm_ext modrm == 0
    then (if modrm_mod modrm == 3
        then breaks (set_reg s (modrm_rm i modrm) (if i.rex_w then sext32 imm else imm)) off
        else breaks s off)
    else breaks s off
