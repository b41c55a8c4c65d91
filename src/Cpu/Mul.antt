-- ===== src/Cpu/Mul.antt =====
-- Mul128U and Mul128S: 64 by 64 bits to 128.
pub mod Portable
use Prim.Native.Nat.{bit_or}
use ps5x_windows.Base.{ℕ, ◌+◌, ◌-◌, ◌*◌, ◌/◌, ◌%◌, ◌^◌, ◌<◌, ◌≡◌, Bool, not, if◌then◌else◌, ◌==◌}
use ps5x_windows.Cpu.Word.{word_mod, word_max, is_negative}

-- The branch with `unsigned __int128`: (hi, lo).
unfoldable pub mul128u : ℕ → ℕ → ℕ × ℕ
mul128u a b = (a * b / word_mod % word_mod, a * b % word_mod)

-- The portable branch of Mul128U, by 32-bit halves. Every sum is taken in uint64_t.
unfoldable pub mul128u_portable : ℕ → ℕ → ℕ × ℕ
mul128u_portable a b =
    let a_lo = a % 2 ^ 32 in
    let a_hi = a / 2 ^ 32 in
    let b_lo = b % 2 ^ 32 in
    let b_hi = b / 2 ^ 32 in
    let p0 = a_lo * b_lo % word_mod in
    let p1 = a_lo * b_hi % word_mod in
    let p2 = a_hi * b_lo % word_mod in
    let p3 = a_hi * b_hi % word_mod in
    let cy = (p0 / 2 ^ 32 + p1 % 2 ^ 32 + p2 % 2 ^ 32) % word_mod in
    (
      (p3 + p1 / 2 ^ 32 + p2 / 2 ^ 32 + cy / 2 ^ 32) % word_mod,
      bit_or (p0 % 2 ^ 32) (cy % 2 ^ 32 * 2 ^ 32 % word_mod),
    )

-- An int64_t pattern as a pattern of __int128.
abbrev pub sext128 : ℕ → ℕ
sext128 v = if is_negative v then v + (2 ^ 128 - 2 ^ 64) else v

-- The branch with `__int128`: (hi, lo), hi as the pattern of an int64_t.
unfoldable pub mul128s : ℕ → ℕ → ℕ × ℕ
mul128s a b = let r = sext128 a * sext128 b % 2 ^ 128 in (r / word_mod, r % word_mod)

-- `hi != (static_cast<int64_t>(lo) >> 63)`.
unfoldable pub imul_overflows : ℕ → ℕ → Bool
imul_overflows hi lo = not (hi == (if is_negative lo then word_max else 0))
