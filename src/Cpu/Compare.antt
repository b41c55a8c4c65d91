-- ===== src/Cpu/Compare.antt =====
-- What a conditional jump after CMP or SUB decides.
use Prim.Native.Nat.{bit_and, bit_xor, differ}
use ps5x_windows.Base.{
  ℕ, zero, suc, ◌+◌, ◌-◌, ◌/◌, ◌%◌, ◌^◌, ◌<◌, ◌≡◌, refl, ap, ap₂, ◌∙◌, Bool, true, false, not, xor,
  ◌&&◌, ◌||◌, ◌==◌, ltb, leb, if◌then◌else◌, arith,
}
use ps5x_windows.Base.Bits.{bit, bit-lt-two, bit-bit_and, bit-bit_xor, bit-eq-div}
use ps5x_windows.Cpu.Word.{IsWord, sub64, add64}
use ps5x_windows.Cpu.Flags.{masked, test_bit, arith_carry, arith_overflow}
use ps5x_windows.Cpu.Flags.Read.{update_flags_arith-FlagsAre}
use ps5x_windows.Cpu.Exec.Alu.{alu_cmp, alu_add}
use ps5x_windows.Cpu.Exec.Control.{cond_taken}

-- a < b as int64_t: in the order that is shifted by 2 ^ 63.
abbrev pub signed_ltb : ℕ → ℕ → Bool
signed_ltb a b = ltb ((a + 2 ^ 63) % 2 ^ 64) ((b + 2 ^ 63) % 2 ^ 64)

differ_digits : (x y : ℕ) → x < 2 → y < 2 → differ x y ≡ (if x == y then 0 else 1)
differ_digits zero zero p q = refl
differ_digits zero (suc zero) p q = refl
differ_digits zero (suc (suc y)) p q = absurd (omega arith)
differ_digits (suc zero) zero p q = refl
differ_digits (suc zero) (suc zero) p q = refl
differ_digits (suc zero) (suc (suc y)) p q = absurd (omega arith)
differ_digits (suc (suc x)) y p q = absurd (omega arith)

-- The overflow of a subtraction, by the three sign bits.
overflow_signs :
    (a b r : ℕ)
    → arith_overflow a b r true 64 ≡ (not (bit 63 a == bit 63 b) && not (bit 63 a == bit 63 r))
unfolding arith_overflow test_bit
overflow_signs a b r =
    let w = bit_and (bit_xor a b) (bit_xor a r) in
    ground (
      arith,
      bit-eq-div 63 w,
      bit-bit_and 63 (bit_xor a b) (bit_xor a r),
      bit-bit_xor 63 a b,
      bit-bit_xor 63 a r,
      differ_digits (bit 63 a) (bit 63 b) (bit-lt-two 63 a) (bit-lt-two 63 b),
      differ_digits (bit 63 a) (bit 63 r) (bit-lt-two 63 a) (bit-lt-two 63 r),
    )

-- The eight cases of the sign bits of a, b and a - b.
signed_cases :
    (x y z a b : ℕ)
    → x < 2
    → y < 2
    → z < 2
    → IsWord a
    → IsWord b
    → x ≡ a / 2 ^ 63 % 2
    → y ≡ b / 2 ^ 63 % 2
    → z ≡ (a + 2 ^ 64 - b) % 2 ^ 64 / 2 ^ 63 % 2
    → xor (z == 1) (not (x == y) && not (x == z)) ≡ signed_ltb a b
signed_cases zero zero zero a b p q r ha hb ex ey ez = ground arith
signed_cases zero zero (suc zero) a b p q r ha hb ex ey ez = ground arith
signed_cases zero (suc zero) zero a b p q r ha hb ex ey ez = ground arith
signed_cases zero (suc zero) (suc zero) a b p q r ha hb ex ey ez = ground arith
signed_cases (suc zero) zero zero a b p q r ha hb ex ey ez = ground arith
signed_cases (suc zero) zero (suc zero) a b p q r ha hb ex ey ez = ground arith
signed_cases (suc zero) (suc zero) zero a b p q r ha hb ex ey ez = ground arith
signed_cases (suc zero) (suc zero) (suc zero) a b p q r ha hb ex ey ez = ground arith
signed_cases (suc (suc x)) y z a b p q r ha hb ex ey ez = absurd (omega arith)
signed_cases zero (suc (suc y)) z a b p q r ha hb ex ey ez = absurd (omega arith)
signed_cases (suc zero) (suc (suc y)) z a b p q r ha hb ex ey ez = absurd (omega arith)
signed_cases zero zero (suc (suc z)) a b p q r ha hb ex ey ez = absurd (omega arith)
signed_cases zero (suc zero) (suc (suc z)) a b p q r ha hb ex ey ez = absurd (omega arith)
signed_cases (suc zero) zero (suc (suc z)) a b p q r ha hb ex ey ez = absurd (omega arith)
signed_cases (suc zero) (suc zero) (suc (suc z)) a b p q r ha hb ex ey ez = absurd (omega arith)

masked-sub64 : (a b : ℕ) → masked 64 (sub64 a b) ≡ (a + 2 ^ 64 - b) % 2 ^ 64
unfolding masked sub64
masked-sub64 a b = omega arith

-- SF differs from OF exactly when a < b as signed numbers.
sign_and_overflow :
    (a b : ℕ)
    → IsWord a
    → IsWord b
    → xor (test_bit (masked 64 (sub64 a b)) 63) (arith_overflow a b (masked 64 (sub64 a b)) true 64)
      ≡ signed_ltb a b
unfolding test_bit
sign_and_overflow a b ha hb =
    let r = masked 64 (sub64 a b) in
    rw (overflow_signs a b r, ← bit-eq-div 63 r)
      (signed_cases (bit 63 a) (bit 63 b) (bit 63 r) a b (bit-lt-two 63 a) (bit-lt-two 63 b)
        (bit-lt-two 63 r) ha hb (bit-eq-div 63 a) (bit-eq-div 63 b)
        (rw (← masked-sub64 a b) (bit-eq-div 63 r)))

zero_difference : (a b : ℕ) → IsWord a → IsWord b → (masked 64 (sub64 a b) == 0) ≡ (a == b)
unfolding sub64 masked
zero_difference a b ha hb = ground arith

borrow : (a b r : ℕ) → IsWord a → IsWord b → arith_carry a b r true 64 ≡ ltb a b
unfolding arith_carry masked
borrow a b r ha hb = ground arith

-- The conditions after CMP a, b (and after SUB) in terms of the operands.
abbrev pub Decides : ℕ → ℕ → ℕ → Type 0
Decides f a b =
    (cond_taken 0x2 f ≡ ltb a b)
    × (cond_taken 0x3 f ≡ leb b a)
    × (cond_taken 0x4 f ≡ (a == b))
    × (cond_taken 0x5 f ≡ not (a == b))
    × (cond_taken 0x6 f ≡ leb a b)
    × (cond_taken 0x7 f ≡ ltb b a)
    × (cond_taken 0xC f ≡ signed_ltb a b)
    × (cond_taken 0xD f ≡ not (signed_ltb a b))
    × (cond_taken 0xE f ≡ not (signed_ltb b a))
    × (cond_taken 0xF f ≡ signed_ltb b a)

module _ (a b : ℕ) (ha : IsWord a) (hb : IsWord b) where
  unsigned_below : (ltb a b || (a == b)) ≡ leb a b
  unsigned_below = ground arith

  not_below : not (ltb a b) ≡ leb b a
  not_below = ground arith

  unsigned_above : (not (ltb a b) && not (a == b)) ≡ ltb b a
  unsigned_above = ground arith

  signed_below : ((a == b) || signed_ltb a b) ≡ not (signed_ltb b a)
  signed_below = ground arith

  signed_above : (not (a == b) && not (signed_ltb a b)) ≡ signed_ltb b a
  signed_above = ground arith

-- For any two 64-bit operands, the flags that CMP a, b leaves make each conditional jump decide
-- its relation: JB, JAE, JBE and JA the unsigned order, JE and JNE equality, and JL, JGE, JLE and
-- JG the signed order.
pub alu_cmp-Decides : (f a b : ℕ) → IsWord a → IsWord b → Decides (alu_cmp f a b).0 a b
unfolding alu_cmp cond_taken
alu_cmp-Decides f a b ha hb =
    let (cf, _, zf, sf, of) = update_flags_arith-FlagsAre f a b (sub64 a b) true in
    let c = cf ∙ borrow a b (sub64 a b) ha hb in
    let z = zf ∙ zero_difference a b ha hb in
    let l = ap₂ xor sf of ∙ sign_and_overflow a b ha hb in
    (
      c,
      ap not c ∙ not_below a b ha hb,
      z,
      ap not z,
      ap₂ ◌||◌ c z ∙ unsigned_below a b ha hb,
      ap₂ (λ x y. not x && not y) c z ∙ unsigned_above a b ha hb,
      l,
      ap not l,
      ap₂ ◌||◌ z l ∙ signed_below a b ha hb,
      ap₂ (λ x y. not x && not y) z l ∙ signed_above a b ha hb,
    )

no_carry : (a b : ℕ) → arith_carry a b (add64 a b) false 64 ≡ false
unfolding arith_carry add64 masked
no_carry a b = ground arith

alu_add-carry_lost : (f a b : ℕ) → cond_taken 0x2 (alu_add f a b).0 ≡ false
unfolding alu_add cond_taken
alu_add-carry_lost f a b = (update_flags_arith-FlagsAre f a b (add64 a b) false).0 ∙ no_carry a b
