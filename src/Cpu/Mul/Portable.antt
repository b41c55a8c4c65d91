-- ===== src/Cpu/Mul/Portable.antt =====
-- The portable multiplication against the 128-bit product.
use Prim.Native.Nat.{bit_or}
use ps5x_windows.Base.Bits.{bit_or_fields_low}
use ps5x_windows.Base.{ℕ, ◌+◌, ◌-◌, ◌*◌, ◌/◌, ◌%◌, ◌^◌, ◌≤◌, ◌<◌, ◌≡◌, ap₂, ◌∙◌, arith}
use ps5x_windows.Cpu.Word.{IsWord, word_mod}
use ps5x_windows.Cpu.Mul.{mul128u, mul128u_portable}

half_product : (x y : ℕ) → x < 2 ^ 32 → y < 2 ^ 32 → x * y ≤ (2 ^ 32 - 1) * (2 ^ 32 - 1)
half_product x y p q = grind arith

-- The carries between the halves: `p0` to `p3` are the products of the halves.
carries :
    (p0 p1 p2 p3 : ℕ)
    → p0 ≤ (2 ^ 32 - 1) * (2 ^ 32 - 1)
    → p1 ≤ (2 ^ 32 - 1) * (2 ^ 32 - 1)
    → p2 ≤ (2 ^ 32 - 1) * (2 ^ 32 - 1)
    → p3 ≤ (2 ^ 32 - 1) * (2 ^ 32 - 1)
    → let cy = (p0 / 2 ^ 32 + p1 % 2 ^ 32 + p2 % 2 ^ 32) % 2 ^ 64 in
      let r = p0 + 2 ^ 32 * p1 + 2 ^ 32 * p2 + 2 ^ 64 * p3 in
      ((p3 + p1 / 2 ^ 32 + p2 / 2 ^ 32 + cy / 2 ^ 32) % 2 ^ 64 ≡ r / 2 ^ 64 % 2 ^ 64)
      × (cy % 2 ^ 32 * 2 ^ 32 % 2 ^ 64 + p0 % 2 ^ 32 ≡ r % 2 ^ 64)
carries p0 p1 p2 p3 h0 h1 h2 h3 = (omega arith, omega arith)

-- A product by the products of its halves.
by_halves :
    (al ah bl bh : ℕ)
    → (2 ^ 32 * ah + al) * (2 ^ 32 * bh + bl)
      ≡ al * bl + 2 ^ 32 * (al * bh) + 2 ^ 32 * (ah * bl) + 2 ^ 64 * (ah * bh)
by_halves al ah bl bh = omega arith

small : (p : ℕ) → p ≤ (2 ^ 32 - 1) * (2 ^ 32 - 1) → p % word_mod ≡ p
small p h = omega arith

halves : (a : ℕ) → a ≡ 2 ^ 32 * (a / 2 ^ 32) + a % 2 ^ 32
halves a = omega arith

join :
    (p c : ℕ)
    → bit_or (p % 2 ^ 32) (c % 2 ^ 32 * 2 ^ 32 % word_mod)
      ≡ c % 2 ^ 32 * 2 ^ 32 % 2 ^ 64 + p % 2 ^ 32
join p c =
    let e : c % 2 ^ 32 * 2 ^ 32 % word_mod ≡ c % 2 ^ 32 * 2 ^ 32 = omega arith in
    rw e (bit_or_fields_low 32 (c % 2 ^ 32) (p % 2 ^ 32) (omega arith))

-- On all 64-bit operands the portable branch of Mul128U, with its hand-made carries, gives the
-- same high and low words as the branch with 128-bit integers.
pub mul128u_portable_exact : (a b : ℕ) → IsWord a → IsWord b → mul128u_portable a b ≡ mul128u a b
unfolding mul128u_portable mul128u
mul128u_portable_exact a b ha hb =
    let al = a % 2 ^ 32 in
    let ah = a / 2 ^ 32 in
    let bl = b % 2 ^ 32 in
    let bh = b / 2 ^ 32 in
    let h0 = half_product al bl (omega arith) (omega arith) in
    let h1 = half_product al bh (omega arith) (omega arith) in
    let h2 = half_product ah bl (omega arith) (omega arith) in
    let h3 = half_product ah bh (omega arith) (omega arith) in
    let product : a * b ≡ al * bl + 2 ^ 32 * (al * bh) + 2 ^ 32 * (ah * bl) + 2 ^ 64 * (ah * bh) =
      ap₂ (λ (x y : ℕ). x * y) (halves a) (halves b) ∙ by_halves al ah bl bh in
    let (high, low) = carries (al * bl) (al * bh) (ah * bl) (ah * bh) h0 h1 h2 h3 in
    rw (small _ h0, small _ h1, small _ h2, small _ h3, product)
      (ap₂ (λ (x y : ℕ). (x, y)) high (join (al * bl) _ ∙ low))
