-- ===== src/Base/Xor.antt =====
-- `^` on words: halves, the laws of a group, and shifts.
use Prim.Native.Nat.{ℕ, zero, suc, ◌+◌, ◌*◌, ◌/◌, ◌%◌, ◌^◌, ◌<◌, bit_xor, differ}
use mathlib.Core.Path.{◌≡◌, refl, sym, ap, ap₂, ◌∙◌}
use native.Mathlib.Omega.{arith}
use native.Mathlib.Nat.{pow-suc, div-div-eq-div-mul}
use ps5x_windows.Base.Bits.{xor_digit, differ-lt-two}

pub xor_half : (a b : ℕ) → bit_xor a b / 2 ≡ bit_xor (a / 2) (b / 2)
xor_half a b =
    omega (arith, xor_digit a b, differ-lt-two (a % 2) (b % 2) (omega arith) (omega arith))

pub xor_parity : (a b : ℕ) → bit_xor a b % 2 ≡ differ (a % 2) (b % 2)
xor_parity a b =
    omega (arith, xor_digit a b, differ-lt-two (a % 2) (b % 2) (omega arith) (omega arith))

-- A number is its half and its parity.
halves : (a b : ℕ) → a / 2 ≡ b / 2 → a % 2 ≡ b % 2 → a ≡ b
halves a b h p = omega arith

pub xor_shift : (k a b : ℕ) → bit_xor a b / 2 ^ k ≡ bit_xor (a / 2 ^ k) (b / 2 ^ k)
xor_shift zero a b = let e : (x : ℕ) → x / 2 ^ 0 ≡ x = λ x. omega arith in rw (e, e a, e b) refl
xor_shift (suc k) a b =
    let next : (x : ℕ) → x / 2 / 2 ^ k ≡ x / 2 ^ suc k =
      λ x. div-div-eq-div-mul x 2 (2 ^ k) ∙ ap (λ (t : ℕ). x / t) two_pow in
    sym (next (bit_xor a b))
    ∙ ap (λ (t : ℕ). t / 2 ^ k) (xor_half a b)
    ∙ xor_shift k (a / 2) (b / 2)
    ∙ ap₂ bit_xor (next a) (next b)
  where
    two_pow : 2 * 2 ^ k ≡ 2 ^ suc k
    two_pow = omega (arith, pow-suc 2 k)

differ_back : (x y : ℕ) → x < 2 → y < 2 → differ x (differ x y) ≡ y
differ_back zero zero p q = refl
differ_back zero (suc zero) p q = refl
differ_back (suc zero) zero p q = refl
differ_back (suc zero) (suc zero) p q = refl
differ_back (suc (suc x)) y p q = absurd (omega arith)
differ_back x (suc (suc y)) p q = absurd (omega arith)

differ_comm : (x y : ℕ) → x < 2 → y < 2 → differ x y ≡ differ y x
differ_comm zero zero p q = refl
differ_comm zero (suc zero) p q = refl
differ_comm (suc zero) zero p q = refl
differ_comm (suc zero) (suc zero) p q = refl
differ_comm (suc (suc x)) y p q = absurd (omega arith)
differ_comm x (suc (suc y)) p q = absurd (omega arith)

differ_assoc : (x y z : ℕ) → x < 2 → y < 2 → z < 2 → differ (differ x y) z ≡ differ x (differ y z)
differ_assoc zero zero zero p q r = refl
differ_assoc zero zero (suc zero) p q r = refl
differ_assoc zero (suc zero) zero p q r = refl
differ_assoc zero (suc zero) (suc zero) p q r = refl
differ_assoc (suc zero) zero zero p q r = refl
differ_assoc (suc zero) zero (suc zero) p q r = refl
differ_assoc (suc zero) (suc zero) zero p q r = refl
differ_assoc (suc zero) (suc zero) (suc zero) p q r = refl
differ_assoc (suc (suc x)) y z p q r = absurd (omega arith)
differ_assoc x (suc (suc y)) z p q r = absurd (omega arith)
differ_assoc x y (suc (suc z)) p q r = absurd (omega arith)

pub xor_comm : (k a b : ℕ) → a < 2 ^ k → b < 2 ^ k → bit_xor a b ≡ bit_xor b a
xor_comm zero a b p q = let e : a ≡ 0 = omega arith in let f : b ≡ 0 = omega arith in rw (e, f) refl
xor_comm (suc k) a b p q =
    halves (bit_xor a b) (bit_xor b a)
      (xor_half a b
        ∙ xor_comm k (a / 2) (b / 2) (omega (arith, pow-suc 2 k)) (omega (arith, pow-suc 2 k))
        ∙ sym (xor_half b a))
      (xor_parity a b
        ∙ differ_comm (a % 2) (b % 2) (omega arith) (omega arith)
        ∙ sym (xor_parity b a))

pub xor_back : (k a b : ℕ) → a < 2 ^ k → b < 2 ^ k → bit_xor a (bit_xor a b) ≡ b
xor_back zero a b p q = let e : a ≡ 0 = omega arith in let f : b ≡ 0 = omega arith in rw (e, f) refl
xor_back (suc k) a b p q =
    halves (bit_xor a (bit_xor a b)) b
      (xor_half a (bit_xor a b)
        ∙ ap (λ t. bit_xor (a / 2) t) (xor_half a b)
        ∙ xor_back k (a / 2) (b / 2) (omega (arith, pow-suc 2 k)) (omega (arith, pow-suc 2 k)))
      (xor_parity a (bit_xor a b)
        ∙ ap (λ t. differ (a % 2) t) (xor_parity a b)
        ∙ differ_back (a % 2) (b % 2) (omega arith) (omega arith))

pub xor_assoc :
    (k a b c : ℕ)
    → a < 2 ^ k
    → b < 2 ^ k
    → c < 2 ^ k
    → bit_xor (bit_xor a b) c ≡ bit_xor a (bit_xor b c)
xor_assoc zero a b c p q r =
    let e : a ≡ 0 = omega arith in
    let f : b ≡ 0 = omega arith in let g : c ≡ 0 = omega arith in rw (e, f, g) refl
xor_assoc (suc k) a b c p q r =
    halves (bit_xor (bit_xor a b) c) (bit_xor a (bit_xor b c))
      (xor_half (bit_xor a b) c
        ∙ ap (λ t. bit_xor t (c / 2)) (xor_half a b)
        ∙ xor_assoc k (a / 2) (b / 2) (c / 2) (omega (arith, pow-suc 2 k))
            (omega (arith, pow-suc 2 k)) (omega (arith, pow-suc 2 k))
        ∙ ap (λ t. bit_xor (a / 2) t) (sym (xor_half b c))
        ∙ sym (xor_half a (bit_xor b c)))
      (xor_parity (bit_xor a b) c
        ∙ ap (λ t. differ t (c % 2)) (xor_parity a b)
        ∙ differ_assoc (a % 2) (b % 2) (c % 2) (omega arith) (omega arith) (omega arith)
        ∙ ap (λ t. differ (a % 2) t) (sym (xor_parity b c))
        ∙ sym (xor_parity a (bit_xor b c)))

-- Equal results from one operand come from equal operands.
pub xor_cancel :
    (k a b c : ℕ) → a < 2 ^ k → b < 2 ^ k → c < 2 ^ k → bit_xor a b ≡ bit_xor a c → b ≡ c
xor_cancel k a b c p q r e = sym (xor_back k a b p q) ∙ ap (bit_xor a) e ∙ xor_back k a c p r

differ_none : (x : ℕ) → x < 2 → differ 0 x ≡ x
differ_none zero h = refl
differ_none (suc zero) h = refl
differ_none (suc (suc x)) h = absurd (omega arith)

pub xor_none : (k a : ℕ) → a < 2 ^ k → bit_xor a 0 ≡ a
xor_none zero a p = let e : a ≡ 0 = omega arith in rw e refl
xor_none (suc k) a p =
    halves (bit_xor a 0) a (xor_half a 0 ∙ xor_none k (a / 2) (omega (arith, pow-suc 2 k))) (
      xor_parity a 0
      ∙ differ_comm (a % 2) 0 (omega arith) (omega arith)
      ∙ differ_none (a % 2) (omega arith))

-- `^` of a low field and a field above it is a sum.
pub xor_fields : (k w q r : ℕ) → r < 2 ^ k → q < 2 ^ w → bit_xor r (2 ^ k * q) ≡ 2 ^ k * q + r
xor_fields zero w q r h s =
    let e : r ≡ 0 = omega arith in
    let f : 2 ^ 0 * q ≡ q = omega arith in
    rw (e, f) (xor_comm w 0 q (omega (arith, s)) s ∙ xor_none w q s ∙ omega arith)
xor_fields (suc k) w q r h s =
    let d : 2 ^ suc k * q ≡ 2 * (2 ^ k * q) = omega (arith, ap (λ (t : ℕ). t * q) (pow-suc 2 k)) in
    let half : 2 ^ suc k * q / 2 ≡ 2 ^ k * q = omega (arith, d) in
    let even : 2 ^ suc k * q % 2 ≡ 0 = omega (arith, d) in
    let ih : bit_xor (r / 2) (2 ^ suc k * q / 2) ≡ 2 ^ k * q + r / 2 =
      rw half (xor_fields k w q (r / 2) (omega (arith, pow-suc 2 k)) s) in
    let parity : bit_xor r (2 ^ suc k * q) % 2 ≡ r % 2 =
      xor_parity r (2 ^ suc k * q)
      ∙ ap (differ (r % 2)) even
      ∙ differ_comm (r % 2) 0 (omega arith) (omega arith)
      ∙ differ_none (r % 2) (omega arith) in
    halves (bit_xor r (2 ^ suc k * q)) (2 ^ suc k * q + r)
      (xor_half r (2 ^ suc k * q) ∙ ih ∙ omega (arith, d)) (parity ∙ omega (arith, d))
