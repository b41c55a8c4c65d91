-- ===== src/Cpu/Guest/Laws.antt =====
-- Reading back what was written to the guest's memory.
use ps5x_windows.Base.{ℕ, zero, suc, ◌+◌, ◌/◌, ◌%◌, ◌^◌, ◌≤◌, ◌<◌, ◌≡◌, refl, ◌∙◌, update, arith}
use native.Mathlib.Nat.{pow-suc}
use ps5x_windows.Cpu.Guest.{le_read, le_write}

-- A write leaves the bytes below it alone.
le_write_below : (n : ℕ) (m : ℕ → ℕ) (a v b : ℕ) → b < a → le_write n m a v b ≡ m b
unfolding le_write
le_write_below zero m a v b h = refl
le_write_below (suc n) m a v b h =
    le_write_below n (update m a (v % 256)) (a + 1) (v / 256) b (omega arith) ∙ ground arith

-- And those above it.
le_write_above : (n : ℕ) (m : ℕ → ℕ) (a v b : ℕ) → a + n ≤ b → le_write n m a v b ≡ m b
unfolding le_write
le_write_above zero m a v b h = refl
le_write_above (suc n) m a v b h =
    le_write_above n (update m a (v % 256)) (a + 1) (v / 256) b (omega arith) ∙ ground arith

pub le_read-lt : (n : ℕ) (m : ℕ → ℕ) (a : ℕ) → ((b : ℕ) → m b < 256) → le_read n m a < 256 ^ n
unfolding le_read
le_read-lt zero m a h = omega arith
le_read-lt (suc n) m a h = omega (arith, h a, le_read-lt n m (a + 1) h, pow-suc 256 n)

-- A value that fits is read back.
pub le_read-le_write :
    (n : ℕ) (m : ℕ → ℕ) (a v : ℕ) → v < 256 ^ n → le_read n (le_write n m a v) a ≡ v
unfolding le_read le_write
le_read-le_write zero m a v h = omega arith
le_read-le_write (suc n) m a v h =
    let m' = update m a (v % 256) in
    let low : le_write n m' (a + 1) (v / 256) a ≡ v % 256 =
      le_write_below n m' (a + 1) (v / 256) a (omega arith) ∙ ground arith in
    omega (arith, low, le_read-le_write n m' (a + 1) (v / 256) (omega (arith, pow-suc 256 n)))
