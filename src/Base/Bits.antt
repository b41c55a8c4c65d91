-- ===== src/Base/Bits.antt =====
-- The native bit operations, digit by digit, at every width.
use Prim.Native.Nat.{
  ℕ, zero, suc, ◌+◌, ◌-◌, ◌*◌, ◌/◌, ◌%◌, ◌^◌, ◌≤◌, ◌<◌, min, max, bit_and, bit_or, bit_xor, digits,
  bitwise, differ, bit_and-bitwise, bit_or-bitwise, bit_xor-bitwise,
}
use mathlib.Core.Path.{◌≡◌, refl, ap, ◌∙◌}
use native.Mathlib.Omega.{arith}
use native.Mathlib.Nat.{pow-suc, one-le-pow, div-div-eq-div-mul}

-- One digit of the recursion that a native operation stands for, whatever its fuel.
module _ (rest : ℕ → ℕ) (op : ℕ → ℕ → ℕ) where
  digits_enough : (k l a b : ℕ) → a ≤ k → a ≤ l → digits rest op k a b ≡ digits rest op l a b
  digits_enough zero zero a b p q = refl
  digits_enough zero (suc l) zero b p q = refl
  digits_enough zero (suc l) (suc a) b p q = absurd (omega arith)
  digits_enough (suc k) zero zero b p q = refl
  digits_enough (suc k) zero (suc a) b p q = absurd (omega arith)
  digits_enough (suc k) (suc l) zero b p q = refl
  digits_enough (suc k) (suc l) (suc a) b p q =
      omega (arith, digits_enough k l (suc a / 2) (b / 2) (omega arith) (omega arith))

  bitwise_digit :
      (a b : ℕ)
      → bitwise rest op (suc a) b ≡ bitwise rest op (suc a / 2) (b / 2) * 2 + op (suc a % 2) (b % 2)
  bitwise_digit a b =
      omega (arith, digits_enough a (suc a / 2) (suc a / 2) (b / 2) (omega arith) (omega arith))

and_digit : (a b : ℕ) → bit_and a b ≡ bit_and (a / 2) (b / 2) * 2 + min (a % 2) (b % 2)
and_digit zero b = simp bit_and-bitwise (omega arith)
and_digit (suc a) b = simp bit_and-bitwise (bitwise_digit (λ _. zero) min a b)

or_digit : (a b : ℕ) → bit_or a b ≡ bit_or (a / 2) (b / 2) * 2 + max (a % 2) (b % 2)
or_digit zero b = simp bit_or-bitwise (omega arith)
or_digit (suc a) b = simp bit_or-bitwise (bitwise_digit (λ x. x) max a b)

differ-zero : (x : ℕ) → x < 2 → differ 0 x ≡ x
differ-zero zero h = refl
differ-zero (suc zero) h = refl
differ-zero (suc (suc x)) h = absurd (omega arith)

pub xor_digit : (a b : ℕ) → bit_xor a b ≡ bit_xor (a / 2) (b / 2) * 2 + differ (a % 2) (b % 2)
xor_digit zero b = simp bit_xor-bitwise (omega (arith, differ-zero (b % 2) (omega arith)))
xor_digit (suc a) b = simp bit_xor-bitwise (bitwise_digit (λ x. x) differ a b)

-- Bit `k` of a number: 0 or 1.
unfoldable pub bit : ℕ → ℕ → ℕ
bit zero a = a % 2
bit (suc k) a = bit k (a / 2)

pub bit-lt-two : (k a : ℕ) → bit k a < 2
unfolding bit
bit-lt-two zero a = omega arith
bit-lt-two (suc k) a = bit-lt-two k (a / 2)

pub bit-bit_and : (k a b : ℕ) → bit k (bit_and a b) ≡ min (bit k a) (bit k b)
unfolding bit
bit-bit_and zero a b = omega (arith, and_digit a b)
bit-bit_and (suc k) a b =
    let e : bit_and a b / 2 ≡ bit_and (a / 2) (b / 2) = omega (arith, and_digit a b) in
    rw e (bit-bit_and k (a / 2) (b / 2))

pub bit-bit_or : (k a b : ℕ) → bit k (bit_or a b) ≡ max (bit k a) (bit k b)
unfolding bit
bit-bit_or zero a b = omega (arith, or_digit a b)
bit-bit_or (suc k) a b =
    let e : bit_or a b / 2 ≡ bit_or (a / 2) (b / 2) = omega (arith, or_digit a b) in
    rw e (bit-bit_or k (a / 2) (b / 2))

pub differ-lt-two : (x y : ℕ) → x < 2 → y < 2 → differ x y < 2
differ-lt-two zero y p q = omega (arith, differ-zero y q)
differ-lt-two (suc zero) zero p q = omega arith
differ-lt-two (suc zero) (suc zero) p q = omega arith
differ-lt-two (suc zero) (suc (suc y)) p q = absurd (omega arith)
differ-lt-two (suc (suc x)) y p q = absurd (omega arith)

pub bit-bit_xor : (k a b : ℕ) → bit k (bit_xor a b) ≡ differ (bit k a) (bit k b)
unfolding bit
bit-bit_xor zero a b =
    omega (arith, xor_digit a b, differ-lt-two (a % 2) (b % 2) (omega arith) (omega arith))
bit-bit_xor (suc k) a b =
    let e : bit_xor a b / 2 ≡ bit_xor (a / 2) (b / 2) =
      omega (arith, xor_digit a b, differ-lt-two (a % 2) (b % 2) (omega arith) (omega arith)) in
    rw e (bit-bit_xor k (a / 2) (b / 2))

-- None of the operations makes a word wider.
pub bit_or-lt : (k a b : ℕ) → a < 2 ^ k → b < 2 ^ k → bit_or a b < 2 ^ k
bit_or-lt zero a b p q = let e : a ≡ 0 = omega arith in rw e (simp bit_or-bitwise (omega arith))
bit_or-lt (suc k) a b p q = omega (
  arith,
  or_digit a b,
  pow-suc 2 k,
  bit_or-lt k (a / 2) (b / 2) (omega (arith, pow-suc 2 k)) (omega (arith, pow-suc 2 k)),
)

pub bit_xor-lt : (k a b : ℕ) → a < 2 ^ k → b < 2 ^ k → bit_xor a b < 2 ^ k
bit_xor-lt zero a b p q = let e : a ≡ 0 = omega arith in rw e (simp bit_xor-bitwise (omega arith))
bit_xor-lt (suc k) a b p q = omega (
  arith,
  xor_digit a b,
  differ-lt-two (a % 2) (b % 2) (omega arith) (omega arith),
  pow-suc 2 k,
  bit_xor-lt k (a / 2) (b / 2) (omega (arith, pow-suc 2 k)) (omega (arith, pow-suc 2 k)),
)

pub bit_and-lt : (k a b : ℕ) → a < 2 ^ k → bit_and a b < 2 ^ k
bit_and-lt zero a b p = let e : a ≡ 0 = omega arith in rw e (simp bit_and-bitwise (omega arith))
bit_and-lt (suc k) a b p =
    omega
      (arith, and_digit a b, pow-suc 2 k, bit_and-lt k (a / 2) (b / 2) (omega (arith, pow-suc 2 k)))

-- A mask of one bit keeps that bit in its place.
and_none : (k a : ℕ) → a ≤ k → bit_and a 0 ≡ 0
and_none k zero h = simp bit_and-bitwise
and_none zero (suc a) h = absurd (omega arith)
and_none (suc k) (suc a) h =
    omega (arith, and_digit (suc a) 0, and_none k (suc a / 2) (omega arith))

pub bit_and_one_bit : (k a : ℕ) → bit_and a (2 ^ k) ≡ bit k a * 2 ^ k
unfolding bit
bit_and_one_bit zero a = omega (arith, and_digit a 1, and_none (a / 2) (a / 2) (omega arith))
bit_and_one_bit (suc k) a =
    let e : 2 ^ suc k / 2 ≡ 2 ^ k = omega (arith, pow-suc 2 k) in
    let r : 2 ^ suc k % 2 ≡ 0 = omega (arith, pow-suc 2 k) in
    let ih : bit_and (a / 2) (2 ^ suc k / 2) ≡ bit k (a / 2) * 2 ^ k =
      rw e (bit_and_one_bit k (a / 2)) in
    omega (arith, and_digit a (2 ^ suc k), ih, r, ap (λ (t : ℕ). bit k (a / 2) * t) (pow-suc 2 k))

pub bit-eq-div : (k a : ℕ) → bit k a ≡ a / 2 ^ k % 2
unfolding bit
bit-eq-div zero a = omega arith
bit-eq-div (suc k) a =
    bit-eq-div k (a / 2)
    ∙ ap (λ (t : ℕ). t % 2) (div-div-eq-div-mul a 2 (2 ^ k) ∙ ap (λ (t : ℕ). a / t) two_pow)
  where
    two_pow : 2 * 2 ^ k ≡ 2 ^ suc k
    two_pow = omega (arith, pow-suc 2 k)

or_none : (k a : ℕ) → a ≤ k → bit_or 0 a ≡ a
or_none k zero h = refl
or_none zero (suc a) h = absurd (omega arith)
or_none (suc k) (suc a) h = omega (arith, or_digit 0 (suc a), or_none k (suc a / 2) (omega arith))

-- `|` of a low field and a field above it is a sum.
pub bit_or_fields_low : (k q r : ℕ) → r < 2 ^ k → bit_or r (q * 2 ^ k) ≡ q * 2 ^ k + r
bit_or_fields_low zero q r h =
    let e : r ≡ 0 = omega arith in
    let f : q * 2 ^ 0 ≡ q = omega arith in rw (e, f) (omega (arith, or_none q q (omega arith)))
bit_or_fields_low (suc k) q r h =
    let d : q * 2 ^ suc k ≡ 2 * (q * 2 ^ k) = omega (arith, ap (λ (t : ℕ). q * t) (pow-suc 2 k)) in
    let half : q * 2 ^ suc k / 2 ≡ q * 2 ^ k = omega (arith, d) in
    let ih : bit_or (r / 2) (q * 2 ^ suc k / 2) ≡ q * 2 ^ k + r / 2 =
      rw half (bit_or_fields_low k q (r / 2) (omega (arith, pow-suc 2 k))) in
    omega (arith, or_digit r (q * 2 ^ suc k), ih, d)

and_ones : (w a : ℕ) → a < 2 ^ w → bit_and a (2 ^ w - 1) ≡ a
and_ones zero a h = let e : a ≡ 0 = omega arith in rw e refl
and_ones (suc w) a h =
    let half : (2 ^ suc w - 1) / 2 ≡ 2 ^ w - 1 = omega (arith, pow-suc 2 w) in
    let odd : (2 ^ suc w - 1) % 2 ≡ 1 = omega (arith, pow-suc 2 w, one-le-pow w 2 (omega arith)) in
    let ih : bit_and (a / 2) ((2 ^ suc w - 1) / 2) ≡ a / 2 =
      rw half (and_ones w (a / 2) (omega (arith, pow-suc 2 w))) in
    omega (arith, and_digit a (2 ^ suc w - 1), ih, odd)

-- A mask that is shifted up by `k` keeps the bits from `k` on.
bit_and_shifted : (k a m : ℕ) → bit_and a (m * 2 ^ k) ≡ bit_and (a / 2 ^ k) m * 2 ^ k
bit_and_shifted zero a m =
    let e : m * 2 ^ 0 ≡ m = omega arith in
    let f : a / 2 ^ 0 ≡ a = omega arith in rw (e, f) (omega arith)
bit_and_shifted (suc k) a m =
    let d : m * 2 ^ suc k ≡ 2 * (m * 2 ^ k) = omega (arith, ap (λ (t : ℕ). m * t) (pow-suc 2 k)) in
    let half : m * 2 ^ suc k / 2 ≡ m * 2 ^ k = omega (arith, d) in
    let even : m * 2 ^ suc k % 2 ≡ 0 = omega (arith, d) in
    let ih : bit_and (a / 2) (m * 2 ^ suc k / 2) ≡ bit_and (a / 2 / 2 ^ k) m * 2 ^ k =
      rw half (bit_and_shifted k (a / 2) m) in
    let two_pow : 2 * 2 ^ k ≡ 2 ^ suc k = omega (arith, pow-suc 2 k) in
    let quot : a / 2 / 2 ^ k ≡ a / 2 ^ suc k =
      div-div-eq-div-mul a 2 (2 ^ k) ∙ ap (λ (t : ℕ). a / t) two_pow in
    let g : bit_and (a / 2) (m * 2 ^ suc k / 2) ≡ bit_and (a / 2 ^ suc k) m * 2 ^ k =
      ih ∙ ap (λ (t : ℕ). bit_and t m * 2 ^ k) quot in
    omega (
      arith,
      and_digit a (m * 2 ^ suc k),
      g,
      even,
      ap (λ (t : ℕ). bit_and (a / 2 ^ suc k) m * t) (pow-suc 2 k),
    )

-- `a & ~(2 ^ k - 1)`: the mask has `w` ones above `k` zeros.
pub bit_and_high :
    (k w a : ℕ) → a / 2 ^ k < 2 ^ w → bit_and a ((2 ^ w - 1) * 2 ^ k) ≡ a / 2 ^ k * 2 ^ k
bit_and_high k w a h =
    bit_and_shifted k a (2 ^ w - 1) ∙ ap (λ (t : ℕ). t * 2 ^ k) (and_ones w (a / 2 ^ k) h)
