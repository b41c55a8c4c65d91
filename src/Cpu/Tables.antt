-- ===== src/Cpu/Tables.antt =====
-- Facts by evaluation over a byte: parity, and which opcodes are implemented.
use ps5x_windows.Base.{
  ℕ, zero, suc, ◌+◌, ◌/◌, ◌%◌, ◌<◌, ◌≡◌, refl, ◌∙◌, Bool, true, false, not, xor, ◌||◌, ◌==◌, arith,
  List, [], ◌∷◌, holds_upto, holds_at,
}
use ps5x_windows.Cpu.Flags.{parity}
use ps5x_windows.Cpu.Step.{Op, unknown, op_of}

-- The number of ones among the low `k` bits.
unfoldable pub ones : ℕ → ℕ → ℕ
ones zero v = 0
ones (suc k) v = v % 2 + ones k (v / 2)

abbrev pub is_even : ℕ → Bool
is_even n = n % 2 == 0

same_bool : (a b : Bool) → xor a b ≡ false → a ≡ b
same_bool a b h = ground arith

parity_table : holds_upto (λ v. not (xor (parity v) (is_even (ones 8 v)))) 256 ≡ true
unfolding holds_upto parity ones
parity_table = refl

parity_low : (v : ℕ) → parity v ≡ parity (v % 256)
unfolding parity
parity_low v = let e : v % 256 % 256 ≡ v % 256 = omega arith in rw e

-- PF is set exactly when the low byte of the result has an even number of ones.
pub parity-even : (v : ℕ) → parity v ≡ is_even (ones 8 (v % 256))
parity-even v =
    parity_low v
    ∙ same_bool _ _ (
        ground (
          arith,
          holds_at (λ x. not (xor (parity x) (is_even (ones 8 x)))) 256 (v % 256) (omega arith)
              parity_table,
        ))

-- ImplementedOpcodes.
unfoldable pub implemented_opcodes : List ℕ
implemented_opcodes =
    0x03 ∷ 0x0B ∷ 0x0F ∷ 0x23 ∷ 0x2B ∷ 0x33 ∷ 0x39 ∷ 0x3B ∷ 0x50 ∷ 0x51 ∷ 0x52 ∷ 0x53 ∷ 0x54 ∷ 0x55
    ∷ 0x56 ∷ 0x57 ∷ 0x58 ∷ 0x59 ∷ 0x5A ∷ 0x5B ∷ 0x5C ∷ 0x5D ∷ 0x5E ∷ 0x5F ∷ 0x69 ∷ 0x70 ∷ 0x71
    ∷ 0x72 ∷ 0x73 ∷ 0x74 ∷ 0x75 ∷ 0x76 ∷ 0x77 ∷ 0x78 ∷ 0x79 ∷ 0x7A ∷ 0x7B ∷ 0x7C ∷ 0x7D ∷ 0x7E
    ∷ 0x7F ∷ 0x81 ∷ 0x83 ∷ 0x85 ∷ 0x89 ∷ 0x8B ∷ 0x8D ∷ 0x90 ∷ 0x91 ∷ 0x92 ∷ 0x93 ∷ 0x94 ∷ 0x95
    ∷ 0x96 ∷ 0x97 ∷ 0x9E ∷ 0x9F ∷ 0xA9 ∷ 0xB8 ∷ 0xB9 ∷ 0xBA ∷ 0xBB ∷ 0xBC ∷ 0xBD ∷ 0xBE ∷ 0xBF
    ∷ 0xC1 ∷ 0xC2 ∷ 0xC3 ∷ 0xC7 ∷ 0xCD ∷ 0xD3 ∷ 0xE8 ∷ 0xE9 ∷ 0xEB ∷ 0xF4 ∷ 0xF7 ∷ 0xFF ∷ []

unfoldable pub contains : ℕ → List ℕ → Bool
contains c [] = false
contains c (x ∷ xs) = c == x || contains c xs

abbrev pub is_unknown : Op → Bool
is_unknown unknown = true
is_unknown _ = false

opcode_table :
    holds_upto (λ c. xor (contains c implemented_opcodes) (is_unknown (op_of c))) 256 ≡ true
unfolding holds_upto contains implemented_opcodes op_of
opcode_table = refl

-- The published list is exact: a byte is in it exactly when the interpreter's switch has a case
-- for it.
pub implemented_opcodes_exact :
    (c : ℕ) → c < 256 → contains c implemented_opcodes ≡ not (is_unknown (op_of c))
implemented_opcodes_exact c h = ground (
  arith,
  holds_at (λ x. xor (contains x implemented_opcodes) (is_unknown (op_of x))) 256 c h opcode_table,
)
