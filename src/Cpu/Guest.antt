-- ===== src/Cpu/Guest.antt =====
-- GuestRead and GuestWrite: little-endian accesses to the guest's memory, behind the checks of
-- the memory manager.
pub mod Laws
use ps5x_windows.Base.{
  ℕ, zero, suc, ◌+◌, ◌*◌, ◌/◌, ◌%◌, Bool, Option, none, some, if◌then◌else◌, update, ◌==◌,
}
use ps5x_windows.Cpu.State.{CpuState, set_memory}

-- What the interpreter asks of the memory manager. `writable` may leave another memory behind:
-- Memory::IsWritable overwrites the range and restores it.
pub record Guest : Type 0 where
  pub readable : ℕ → ℕ → Bool
  pub writable : ℕ → ℕ → (ℕ → ℕ) → Bool × (ℕ → ℕ)

-- std::memcpy from and to `n` bytes, on a little-endian host.
unfoldable pub le_read : ℕ → (ℕ → ℕ) → ℕ → ℕ
le_read zero m a = 0
le_read (suc n) m a = m a + 256 * le_read n m (a + 1)

unfoldable pub le_write : ℕ → (ℕ → ℕ) → ℕ → ℕ → (ℕ → ℕ)
le_write zero m a v = m
le_write (suc n) m a v = le_write n (update m a (v % 256)) (a + 1) (v / 256)

unfoldable pub guest_read : ℕ → Guest → CpuState → ℕ → Option ℕ
guest_read n g s a = if g.readable a n then some (le_read n s.memory a) else none

-- The state after the write, and whether it was made.
unfoldable pub guest_write : ℕ → Guest → CpuState → ℕ → ℕ → Bool × CpuState
guest_write n g s a v =
    let (done, m) = g.writable a n s.memory in
    (done, set_memory s (if done then le_write n m a v else m))
