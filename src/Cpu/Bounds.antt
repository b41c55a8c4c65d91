-- ===== src/Cpu/Bounds.antt =====
-- How far into the code buffer an instruction reads.
use ps5x_windows.Base.{
  ℕ, zero, suc, ◌+◌, ◌-◌, ◌≤◌, ◌<◌, ◌≡◌, refl, sym, ap, ◌∙◌, true, false, inl, inr, Bool-cases,
  arith,
}
use ps5x_windows.Cpu.State.{CpuState}
use ps5x_windows.Cpu.Guest.{Guest}
use ps5x_windows.Cpu.Fetch.{
  Prefix, Insn, breaks, is_prefix, take_prefix, take_prefixes, first_prefix, decode_prefixes,
  buffer_size, prefetch, copy_bytes, code_byte,
}
use ps5x_windows.Cpu.Exec.Alu.{
  exec_alu_imm8, exec_alu_imm32, exec_reg_rm, exec_rm_reg, exec_add, exec_test_rax,
}
use ps5x_windows.Cpu.Exec.Move.{
  exec_nop, exec_lahf, exec_sahf, exec_push, exec_pop, exec_xchg, exec_mov_imm, exec_mov_store,
  exec_mov_load, exec_lea, exec_mov_imm32,
}
use ps5x_windows.Cpu.Exec.Control.{
  exec_jmp8, exec_jmp32, exec_jcc8, exec_call, exec_ret, exec_ret_imm, exec_int,
}
use ps5x_windows.Cpu.Exec.Group.{exec_shift, exec_group_ff, exec_group_f7, exec_imul_imm}
use ps5x_windows.Cpu.Exec.TwoByte.{exec_two_byte}
use ps5x_windows.Cpu.Step.{Op, op_of, exec_op}

-- The bytes past the 32 that are fetched hold HLT.
abbrev pub IsPadded : (ℕ → ℕ) → Type 0
IsPadded code = (i : ℕ) → 32 ≤ i → code i ≡ 0xF4

-- The copying loop copies at most the bytes it was asked for.
copy_bytes-le : (g : Guest) (rip k i : ℕ) → copy_bytes g rip k i ≤ i + k
unfolding copy_bytes
copy_bytes-le g rip zero i = omega arith
copy_bytes-le g rip (suc k) i = ground (arith, copy_bytes-le g rip k (suc i))

prefetch-le : (g : Guest) (rip : ℕ) → prefetch g rip ≤ 32
unfolding prefetch
prefetch-le g rip = ground (arith, copy_bytes-le g rip 32 0)

code_byte-IsPadded :
    (g : Guest) (memory : ℕ → ℕ) (rip : ℕ) → IsPadded (code_byte memory rip (prefetch g rip))
unfolding code_byte
code_byte-IsPadded g memory rip i h = ground (arith, prefetch-le g rip)

-- Between two rounds of the prefix loop.
record Reads (code : ℕ → ℕ) (p : Prefix) : Type 0 where
  at_byte : p.byte ≡ code (p.off - 1)
  started : 1 ≤ p.off
  within : p.off ≤ 33

take_prefix_moves :
    (code : ℕ → ℕ) (p : Prefix)
    → ((take_prefix code p).off ≡ suc p.off) × ((take_prefix code p).byte ≡ code p.off)
unfolding take_prefix
take_prefix_moves code p = ground arith

-- The padding is no prefix.
prefix_fetched :
    (code : ℕ → ℕ) (p : Prefix)
    → IsPadded code
    → Reads code p
    → is_prefix p.byte ≡ true
    → p.off ≤ 32
unfolding is_prefix
prefix_fetched code p pad r h = ground (arith, pad (p.off - 1))

take_prefix-Reads :
    (code : ℕ → ℕ) (p : Prefix)
    → IsPadded code
    → Reads code p
    → is_prefix p.byte ≡ true
    → Reads code (take_prefix code p)
take_prefix-Reads code p pad r h =
    let (off, byte) = take_prefix_moves code p in
    let e : (take_prefix code p).off - 1 ≡ p.off = omega arith in
    record {
      at_byte = byte ∙ ap code (sym e);
      started = omega arith;
      within = omega (arith, prefix_fetched code p pad r h);
    }

abbrev pub EndsPrefixes : (ℕ → ℕ) → Prefix → Type 0
EndsPrefixes code p =
    (is_prefix p.byte ≡ false) × (p.byte ≡ code (p.off - 1)) × (1 ≤ p.off) × (p.off ≤ 33)

take_prefixes-EndsPrefixes :
    (fuel : ℕ) (code : ℕ → ℕ) (p : Prefix)
    → IsPadded code
    → Reads code p
    → 33 < fuel + p.off
    → EndsPrefixes code (take_prefixes fuel code p)
unfolding take_prefixes
take_prefixes-EndsPrefixes zero code p pad r h = absurd (omega (arith, r.within))
take_prefixes-EndsPrefixes (suc fuel) code p pad r h = elim (Bool-cases (is_prefix p.byte)) [
  | inl more ↦ rw more (
      take_prefixes-EndsPrefixes fuel code (take_prefix code p) pad
        (take_prefix-Reads code p pad r more) (omega (arith, take_prefix_moves code p)))
  | inr done ↦ rw done (done, r.at_byte, r.started, r.within)
]

-- The prefix loop of any fetched instruction ends by its own test within the 48 bytes: the opcode
-- is no prefix, it is the byte before `off`, and `off` is at most 33.
pub decode_prefixes_ends :
    (g : Guest) (memory : ℕ → ℕ) (rip : ℕ)
    → let code = code_byte memory rip (prefetch g rip) in
      let i = decode_prefixes code in
      (is_prefix i.opcode ≡ false) × (i.opcode ≡ code (i.off - 1)) × (1 ≤ i.off) × (i.off ≤ 33)
unfolding decode_prefixes
decode_prefixes_ends g memory rip =
    let code = code_byte memory rip (prefetch g rip) in
    take_prefixes-EndsPrefixes buffer_size code (first_prefix code)
      (code_byte-IsPadded g memory rip)
      (record { at_byte = refl; started = omega arith; within = omega arith }) (omega arith)

-- An instruction that completes takes at most 8 bytes behind its opcode.
operands_bounded :
    (g : Guest) (o : Op) (i : Insn) (s t : CpuState) (m : ℕ)
    → exec_op g o i s ≡ breaks t m
    → m ≤ i.off + 8
unfolding exec_op exec_nop exec_lahf exec_sahf exec_push exec_pop exec_xchg exec_mov_imm
    exec_mov_store exec_mov_load exec_lea exec_mov_imm32 exec_alu_imm8 exec_alu_imm32 exec_reg_rm
    exec_rm_reg exec_add exec_test_rax exec_jmp8 exec_jmp32 exec_jcc8 exec_call exec_ret
    exec_ret_imm exec_int exec_shift exec_group_ff exec_group_f7 exec_imul_imm exec_two_byte
operands_bounded g Op.nop i s t m h = ground arith
operands_bounded g o i s t m h = ground arith

-- The instruction that stands at rip, behind its prefixes.
abbrev pub fetched : Guest → CpuState → Insn
fetched g s = decode_prefixes (code_byte s.memory s.ctx.rip (prefetch g s.ctx.rip))

-- Whatever stands at rip, an instruction that completes counts at most 41 bytes of the 48 of the
-- code buffer as its own.
pub code_buffer_suffices :
    (g : Guest) (s t : CpuState) (m : ℕ)
    → exec_op g (op_of (fetched g s).opcode) (fetched g s) s ≡ breaks t m
    → (m ≤ 41) × (m < buffer_size)
code_buffer_suffices g s t m h =
    let b = operands_bounded g (op_of (fetched g s).opcode) (fetched g s) s t m h in
    let ends = decode_prefixes_ends g s.memory s.ctx.rip in
    (omega (arith, b, ends), omega (arith, b, ends))
