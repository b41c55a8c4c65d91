-- ===== src/Cpu/Fetch.antt =====
-- The first part of ExecuteOne: the code buffer, the breakpoint check and the prefix bytes.
use ps5x_windows.Base.{
  ℕ, zero, suc, ◌+◌, ◌-◌, ◌/◌, ◌%◌, min, Bool, true, false, ◌&&◌, ◌||◌, ltb, leb, ◌==◌,
  if◌then◌else◌,
}
use ps5x_windows.Cpu.Word.{add64}
use ps5x_windows.Cpu.State.{CpuState, StepResult, set_rip}
use ps5x_windows.Cpu.Guest.{Guest, le_read}

-- The 48 bytes of code_buf: the first `n` from memory, the rest HLT.
unfoldable pub code_byte : (ℕ → ℕ) → ℕ → ℕ → ℕ → ℕ
unfolding add64
code_byte memory rip n i = if ltb i n then memory (add64 rip i) else 0xF4

-- The loop that copies byte by byte and breaks at the first unreadable one. Its result counts
-- the bytes copied; `k` rounds are left, and `i` are done.
unfoldable pub copy_bytes : Guest → ℕ → ℕ → ℕ → ℕ
unfolding add64
copy_bytes g rip zero i = i
copy_bytes g rip (suc k) i =
    let rest = copy_bytes g rip k (suc i) in if g.readable (add64 rip i) 1 then rest else i

-- How many of the 32 bytes at rip can be fetched.
unfoldable pub prefetch : Guest → ℕ → ℕ
unfolding copy_bytes
prefetch g rip =
    let first_chunk = min 32 (4096 - rip % 4096) in
    if g.readable rip first_chunk
    then (if ltb first_chunk 32 && g.readable (add64 rip first_chunk) (32 - first_chunk)
        then 32
        else first_chunk)
    else copy_bytes g rip 32 0

-- The local variables of the prefix loop: `byte` is ip[off - 1].
pub record Prefix : Type 0 where
  pub rex_w : Bool
  pub rex_r : Bool
  pub rex_x : Bool
  pub rex_b : Bool
  pub prefix_66 : Bool
  pub byte : ℕ
  pub off : ℕ

unfoldable pub is_rex : ℕ → Bool
is_rex b = leb 0x40 b && leb b 0x4F

-- One round of the loop.
unfoldable pub take_prefix : (ℕ → ℕ) → Prefix → Prefix
unfolding is_rex
take_prefix code p =
    if is_rex p.byte
    then record p {
      rex_w = p.byte / 8 % 2 == 1;
      rex_r = p.byte / 4 % 2 == 1;
      rex_x = p.byte / 2 % 2 == 1;
      rex_b = p.byte % 2 == 1;
      byte = code p.off;
      off = p.off + 1;
    }
    else record p { prefix_66 = true; byte = code p.off; off = p.off + 1 }

unfoldable pub is_prefix : ℕ → Bool
unfolding is_rex
is_prefix b = is_rex b || b == 0x66

-- `while (true)`, with fuel for the 48 bytes of the buffer.
unfoldable pub take_prefixes : ℕ → (ℕ → ℕ) → Prefix → Prefix
unfolding take_prefix is_prefix
take_prefixes zero code p = p
take_prefixes (suc fuel) code p =
    let rest = take_prefixes fuel code (take_prefix code p) in if is_prefix p.byte then rest else p

abbrev pub buffer_size : ℕ
buffer_size = 48

abbrev pub first_prefix : (ℕ → ℕ) → Prefix
first_prefix code = record {
  rex_w = false;
  rex_r = false;
  rex_x = false;
  rex_b = false;
  prefix_66 = false;
  byte = code 0;
  off = 1;
}

-- What the cases of the switch share: the buffer, the opcode with its prefixes, and `off`.
pub record Insn : Type 0 where
  pub code : ℕ → ℕ
  pub opcode : ℕ
  pub rex_w : Bool
  pub rex_r : Bool
  pub rex_b : Bool
  pub off : ℕ

unfoldable pub decode_prefixes : (ℕ → ℕ) → Insn
unfolding take_prefixes
decode_prefixes code =
    let p = take_prefixes buffer_size code (first_prefix code) in
    record {
      code = code;
      opcode = p.byte;
      rex_w = p.rex_w;
      rex_r = p.rex_r;
      rex_b = p.rex_b;
      off = p.off;
    }

-- The end of a case: `break` with the final `off`, a `return`, or undefined behaviour of C++.
pub data Outcome : Type 0 where
  breaks : CpuState → ℕ → Outcome
  returns : StepResult → CpuState → Outcome
  traps : Outcome

-- Advance().
abbrev pub advance : CpuState → ℕ → CpuState
advance s off = set_rip s (add64 s.ctx.rip off)

-- The fields of a ModRM byte; a REX bit adds 8 to a register number below 8.
unfoldable pub modrm_reg : Insn → ℕ → ℕ
modrm_reg i m = m / 8 % 8 + (if i.rex_r then 8 else 0)

unfoldable pub modrm_rm : Insn → ℕ → ℕ
modrm_rm i m = m % 8 + (if i.rex_b then 8 else 0)

abbrev pub modrm_mod : ℕ → ℕ
modrm_mod m = m / 64

abbrev pub modrm_ext : ℕ → ℕ
modrm_ext m = m / 8 % 8

-- `(opcode & 0x7) | (rex_b ? 8 : 0)`.
unfoldable pub opcode_reg : Insn → ℕ
opcode_reg i = i.opcode % 8 + (if i.rex_b then 8 else 0)

-- Immediates and displacements at an offset of the buffer, as unsigned patterns.
abbrev pub imm16 : Insn → ℕ → ℕ
imm16 i off = le_read 2 i.code off

abbrev pub imm32 : Insn → ℕ → ℕ
imm32 i off = le_read 4 i.code off

abbrev pub imm64 : Insn → ℕ → ℕ
imm64 i off = le_read 8 i.code off
