-- ===== src/Cpu/Flags.antt =====
-- RFLAGS: CpuContext::flag and set_flag, Parity, UpdateFlagsLogic and UpdateFlagsArith.
pub mod Read
use Prim.Native.Nat.{bit_and, bit_or, bit_xor}
use ps5x_windows.Base.{ℕ, ◌-◌, ◌/◌, ◌%◌, ◌^◌, Bool, true, false, not, ltb, ◌==◌, if◌then◌else◌}
use ps5x_windows.Cpu.Word.{not64}
use ps5x_windows.Cpu.State.{CpuContext}

abbrev pub cf_mask : ℕ
cf_mask = 2 ^ 0

abbrev pub pf_mask : ℕ
pf_mask = 2 ^ 2

abbrev pub af_mask : ℕ
af_mask = 2 ^ 4

abbrev pub zf_mask : ℕ
zf_mask = 2 ^ 6

abbrev pub sf_mask : ℕ
sf_mask = 2 ^ 7

abbrev pub of_mask : ℕ
of_mask = 2 ^ 11

unfoldable pub flag : ℕ → ℕ → Bool
flag rflags mask = not (bit_and rflags mask == 0)

unfoldable pub set_flag : ℕ → ℕ → Bool → ℕ
unfolding not64
set_flag rflags mask v = if v then bit_or rflags mask else bit_and rflags (not64 mask)

-- The low byte has an even number of ones.
unfoldable pub parity : ℕ → Bool
parity result =
    let v0 = result % 2 ^ 8 in
    let v1 = bit_xor v0 (v0 / 2 ^ 4) in
    let v2 = bit_xor v1 (v1 / 2 ^ 2) in let v3 = bit_xor v2 (v2 / 2) in v3 % 2 == 0

-- `result &= mask` for the mask of 64, 32, 16 or 8 ones.
unfoldable pub masked : ℕ → ℕ → ℕ
masked bits v =
    if bits == 64
    then v % 2 ^ 64
    else if bits == 32
    then v % 2 ^ 32
    else if bits == 16
    then v % 2 ^ 16
    else v % 2 ^ 8

-- `(v >> k) & 1` as a bool.
unfoldable pub test_bit : ℕ → ℕ → Bool
test_bit v k = v / 2 ^ k % 2 == 1

unfoldable pub update_flags_logic : ℕ → ℕ → ℕ → ℕ
unfolding set_flag parity masked test_bit
update_flags_logic f0 result0 bits =
    let result = masked bits result0 in
    let f1 = set_flag f0 cf_mask false in
    let f2 = set_flag f1 of_mask false in
    let f3 = set_flag f2 zf_mask (result == 0) in
    let f4 = set_flag f3 sf_mask (test_bit result (bits - 1)) in set_flag f4 pf_mask (parity result)

-- The carry of an addition compares the uint64_t `result` with the mask: `result > mask`.
unfoldable pub arith_carry : ℕ → ℕ → ℕ → Bool → ℕ → Bool
unfolding masked
arith_carry a b result is_sub bits =
    if is_sub then ltb (masked bits a) (masked bits b) else ltb (masked bits (2 ^ 64 - 1)) result

unfoldable pub arith_overflow : ℕ → ℕ → ℕ → Bool → ℕ → Bool
unfolding test_bit not64
arith_overflow a b r is_sub bits =
    if is_sub
    then test_bit (bit_and (bit_xor a b) (bit_xor a r)) (bits - 1)
    else not (bit_and (bit_and (not64 (bit_xor a b)) (bit_xor a r)) (2 ^ (bits - 1)) == 0)

unfoldable pub update_flags_arith : ℕ → ℕ → ℕ → ℕ → Bool → ℕ → ℕ
unfolding set_flag parity masked test_bit arith_carry arith_overflow
update_flags_arith f0 a b result is_sub bits =
    let r = masked bits result in
    let f1 = set_flag f0 zf_mask (r == 0) in
    let f2 = set_flag f1 sf_mask (test_bit r (bits - 1)) in
    let f3 = set_flag f2 pf_mask (parity r) in
    let f4 = set_flag f3 cf_mask (arith_carry a b result is_sub bits) in
    set_flag f4 of_mask (arith_overflow a b r is_sub bits)
