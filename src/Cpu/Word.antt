-- ===== src/Cpu/Word.antt =====
-- uint64_t as a native number below 2 ^ 64, and the sign extensions of Cpu.cpp's casts.
use ps5x_windows.Base.{ℕ, ◌+◌, ◌-◌, ◌%◌, ◌^◌, ◌<◌, Bool, arith, ltb, leb, if◌then◌else◌}

abbrev pub word_mod : ℕ
word_mod = 2 ^ 64

abbrev pub word_max : ℕ
word_max = 2 ^ 64 - 1

-- uint64_t a + b and a - b. The operands are below 2 ^ 64.
unfoldable pub add64 : ℕ → ℕ → ℕ
add64 a b = (a + b) % word_mod

unfoldable pub sub64 : ℕ → ℕ → ℕ
sub64 a b = (a + word_mod - b) % word_mod

unfoldable pub not64 : ℕ → ℕ
not64 a = word_max - a

-- static_cast<uint64_t>(static_cast<int64_t>(v)) for an int8_t, int16_t or int32_t with pattern v.
unfoldable pub sext8 : ℕ → ℕ
sext8 v = if ltb v (2 ^ 7) then v else v + (word_mod - 2 ^ 8)

unfoldable pub sext16 : ℕ → ℕ
sext16 v = if ltb v (2 ^ 15) then v else v + (word_mod - 2 ^ 16)

unfoldable pub sext32 : ℕ → ℕ
sext32 v = if ltb v (2 ^ 31) then v else v + (word_mod - 2 ^ 32)

-- The sign of an int64_t with pattern v.
abbrev pub is_negative : ℕ → Bool
is_negative v = leb (2 ^ 63) v

abbrev pub IsWord : ℕ → Type 0
IsWord v = v < word_mod

pub add64-lt : (a b : ℕ) → IsWord (add64 a b)
unfolding add64
add64-lt a b = omega arith

pub sub64-lt : (a b : ℕ) → IsWord (sub64 a b)
unfolding sub64
sub64-lt a b = omega arith

pub not64-lt : (a : ℕ) → IsWord (not64 a)
unfolding not64
not64-lt a = omega arith

pub sext8-lt : (v : ℕ) → v < 2 ^ 8 → IsWord (sext8 v)
unfolding sext8
sext8-lt v h = ground arith

pub sext16-lt : (v : ℕ) → v < 2 ^ 16 → IsWord (sext16 v)
unfolding sext16
sext16-lt v h = ground arith

pub sext32-lt : (v : ℕ) → v < 2 ^ 32 → IsWord (sext32 v)
unfolding sext32
sext32-lt v h = ground arith
