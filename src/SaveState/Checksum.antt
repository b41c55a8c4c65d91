-- ===== src/SaveState/Checksum.antt =====
-- Crc32.
use Prim.Native.Nat.{bit_xor}
use ps5x_windows.Base.{ℕ, zero, suc, ◌/◌, ◌%◌, ◌^◌, List, [], ◌∷◌, ◌==◌, if◌then◌else◌}

-- One bit of a table's entry.
unfoldable pub crc_bit : ℕ → ℕ
crc_bit c = if c % 2 == 1 then bit_xor 0xEDB88320 (c / 2) else c / 2

unfoldable pub crc_bits : ℕ → ℕ → ℕ
crc_bits zero c = c
crc_bits (suc k) c = crc_bits k (crc_bit c)

-- Entry `i` of the table.
unfoldable pub crc_entry : ℕ → ℕ
crc_entry i = crc_bits 8 i

unfoldable pub crc_byte : ℕ → ℕ → ℕ
crc_byte crc b = bit_xor (crc_entry (bit_xor crc b % 256)) (crc / 2 ^ 8)

unfoldable pub crc_loop : ℕ → List ℕ → ℕ
crc_loop crc [] = crc
crc_loop crc (b ∷ bs) = crc_loop (crc_byte crc b) bs

unfoldable pub crc32 : List ℕ → ℕ
crc32 bytes = bit_xor (crc_loop 0xFFFFFFFF bytes) 0xFFFFFFFF
