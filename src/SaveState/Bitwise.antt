-- ===== src/SaveState/Bitwise.antt =====
-- The checksum bit by bit, without a table.
use Prim.Native.Nat.{bit_xor, differ}
use native.Mathlib.Nat.{pow-suc}
use ps5x_windows.Base.{
  ℕ, zero, suc, ◌*◌, ◌/◌, ◌%◌, ◌^◌, ◌<◌, ◌≡◌, refl, sym, ap, ◌∙◌, List, [], ◌∷◌, ◌==◌, All, arith,
  Bool-cases, inl, inr,
}
use ps5x_windows.Base.Bits.{bit_xor-lt}
use ps5x_windows.Base.Xor.{xor_fields, xor_half, xor_parity, xor_assoc}
use ps5x_windows.SaveState.Checksum.{crc_bit, crc_bits, crc_entry, crc_byte, crc_loop, crc32}
use ps5x_windows.SaveState.Crc.{IsByte, crc_byte-lt, xor_byte_high}

-- CRC-32 as it is defined: a byte is added to the low end, then eight single steps.
unfoldable pub plain_loop : ℕ → List ℕ → ℕ
plain_loop crc [] = crc
plain_loop crc (b ∷ bs) = plain_loop (crc_bits 8 (bit_xor crc b)) bs

unfoldable pub plain_crc32 : List ℕ → ℕ
plain_crc32 bytes = bit_xor (plain_loop 0xFFFFFFFF bytes) 0xFFFFFFFF

abbrev poly : ℕ
poly = 0xEDB88320

crc_bit-even : (c : ℕ) → c % 2 ≡ 0 → crc_bit c ≡ c / 2
unfolding crc_bit
crc_bit-even c h = ground arith

crc_bit-odd : (c : ℕ) → c % 2 ≡ 1 → crc_bit c ≡ bit_xor poly (c / 2)
unfolding crc_bit
crc_bit-odd c h = ground arith

crc_bit-lt : (c : ℕ) → c < 2 ^ 32 → crc_bit c < 2 ^ 32
crc_bit-lt c h = elim (Bool-cases (c % 2 == 1)) [
  | inl odd ↦
      rw (crc_bit-odd c (ground arith)) (bit_xor-lt 32 poly (c / 2) (omega arith) (omega arith))
  | inr even ↦ rw (crc_bit-even c (ground arith)) (omega arith)
]

-- An even word is only shifted.
crc_bit-xor :
    (a x : ℕ) → a < 2 ^ 32 → 2 * x < 2 ^ 32 → crc_bit (bit_xor a (2 * x)) ≡ bit_xor (crc_bit a) x
crc_bit-xor a x p q =
    let half : bit_xor a (2 * x) / 2 ≡ bit_xor (a / 2) x =
      xor_half a (2 * x) ∙ ap (bit_xor (a / 2)) (omega arith) in
    let parity : bit_xor a (2 * x) % 2 ≡ differ (a % 2) 0 =
      xor_parity a (2 * x) ∙ ap (differ (a % 2)) (omega arith) in
    elim (Bool-cases (a % 2 == 1)) [
      | inl odd ↦
          let r : a % 2 ≡ 1 = ground arith in
          crc_bit-odd (bit_xor a (2 * x)) (parity ∙ ap (λ t. differ t 0) r)
          ∙ ap (bit_xor poly) half
          ∙ sym (xor_assoc 32 poly (a / 2) x (omega arith) (omega arith) (omega arith))
          ∙ ap (λ t. bit_xor t x) (sym (crc_bit-odd a r))
      | inr even ↦
          let r : a % 2 ≡ 0 = ground arith in
          crc_bit-even (bit_xor a (2 * x)) (parity ∙ ap (λ t. differ t 0) r)
          ∙ half
          ∙ ap (λ t. bit_xor t x) (sym (crc_bit-even a r))
    ]

crc_bits-xor :
    (k a x : ℕ)
    → a < 2 ^ 32
    → 2 ^ k * x < 2 ^ 32
    → crc_bits k (bit_xor a (2 ^ k * x)) ≡ bit_xor (crc_bits k a) x
unfolding crc_bits
crc_bits-xor zero a x p q = let e : 2 ^ 0 * x ≡ x = omega arith in rw e refl
crc_bits-xor (suc k) a x p q =
    let e : 2 ^ suc k * x ≡ 2 * (2 ^ k * x) = omega (arith, ap (λ (t : ℕ). t * x) (pow-suc 2 k)) in
    ap (λ t. crc_bits (suc k) (bit_xor a t)) e
    ∙ ap (crc_bits k) (crc_bit-xor a (2 ^ k * x) p (omega (arith, e)))
    ∙ crc_bits-xor k (crc_bit a) x (crc_bit-lt a p) (omega (arith, e))

crc_byte_lem : (c b : ℕ) → c < 2 ^ 32 → b < 256 → crc_byte c b ≡ crc_bits 8 (bit_xor c b)
unfolding crc_byte crc_entry
crc_byte_lem c b p q =
    let u = bit_xor c b in
    let small : u < 2 ^ 32 = bit_xor-lt 32 c b p (omega arith) in
    let fields : u ≡ bit_xor (u % 256) (2 ^ 8 * (u / 2 ^ 8)) =
      omega (arith, xor_fields 8 24 (u / 2 ^ 8) (u % 256) (omega arith) (omega arith)) in
    ap (bit_xor (crc_bits 8 (u % 256))) (sym (xor_byte_high c b p q))
    ∙ sym (crc_bits-xor 8 (u % 256) (u / 2 ^ 8) (omega arith) (omega arith))
    ∙ ap (crc_bits 8) (sym fields)

loops_agree : (c : ℕ) (bs : List ℕ) → c < 2 ^ 32 → All IsByte bs → crc_loop c bs ≡ plain_loop c bs
unfolding crc_loop plain_loop
loops_agree c [] h v = refl
loops_agree c (b ∷ bs) h v =
    loops_agree (crc_byte c b) bs (crc_byte-lt c b h) v.1
    ∙ ap (λ d. plain_loop d bs) (crc_byte_lem c b h v.0)

-- On any bytes, the checksum by the table of 256 entries equals the CRC-32 computed bit by bit
-- without a table.
pub crc32-plain_crc32 : (bytes : List ℕ) → All IsByte bytes → crc32 bytes ≡ plain_crc32 bytes
unfolding crc32 plain_crc32
crc32-plain_crc32 bytes v =
    ap (λ c. bit_xor c 0xFFFFFFFF) (loops_agree 0xFFFFFFFF bytes (omega arith) v)
