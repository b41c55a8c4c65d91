-- ===== src/Gpu/Heap.antt =====
-- GpuHeap: a bump allocator over 256 MB.
use Prim.Native.Nat.{bit_and}
use ps5x_windows.Base.{
  ℕ, ◌+◌, ◌-◌, ◌*◌, ◌/◌, ◌%◌, ◌^◌, ◌≤◌, ◌<◌, ◌≡◌, refl, false, ltb, if◌then◌else◌, ◌≢◌, ltb→lt,
  Bool-cases, inl, inr, ◌⊎◌, arith,
}
use ps5x_windows.Base.Bits.{bit_and_high}

abbrev pub heap_size : ℕ
heap_size = 256 * 1024 * 1024

pub record GpuHeap : Type 0 where
  pub base : ℕ
  pub used : ℕ

-- `(used + align - 1) & ~(align - 1)`, in size_t.
unfoldable pub align_used : ℕ → ℕ → ℕ
align_used used align =
    bit_and ((used + align - 1) % 2 ^ 64) (2 ^ 64 - 1 - (align + 2 ^ 64 - 1) % 2 ^ 64)

-- Alloc: a pointer, 0 for nullptr. Both sums of sizes are taken in size_t. The base is not looked at:
-- where Init got no memory it is null, and the offset alone comes back.
unfoldable pub alloc : GpuHeap → ℕ → ℕ → ℕ × GpuHeap
unfolding align_used
alloc h bytes align =
    let aligned = align_used h.used align in
    if ltb heap_size ((aligned + bytes) % 2 ^ 64)
    then (0, h)
    else (h.base + aligned, record h { used = (aligned + bytes) % 2 ^ 64 })

-- With the default alignment of 256 the offset is `used` rounded up.
align_used_default : (used : ℕ) → used ≤ heap_size → align_used used 256 ≡ (used + 255) / 256 * 256
unfolding align_used
align_used_default used h =
    let e : (used + 256 - 1) % 2 ^ 64 ≡ used + 255 = omega arith in
    rw e (bit_and_high 8 56 (used + 255) (omega arith))

-- A request below 2 ^ 63 bytes with the default alignment, from a heap whose base is not null and
-- that is within its bounds: a refusal gives nullptr, changes nothing and comes only when the
-- rounded offset leaves no room; a success gives a pointer that is not null, to a range at an
-- aligned offset that starts at or above everything handed out before, and that the heap has.
pub alloc_safe :
    (h : GpuHeap) (bytes : ℕ)
    → h.base ≢ 0
    → h.used ≤ heap_size
    → bytes < 2 ^ 63
    → ((alloc h bytes 256 ≡ (0, h)) × (heap_size < (h.used + 255) / 256 * 256 + bytes))
      ⊎ ((o : ℕ) × (alloc h bytes 256 ≡ (h.base + o, record h { used = o + bytes }))
          × (h.base + o ≢ 0)
          × (o % 256 ≡ 0)
          × (h.used ≤ o)
          × (o + bytes ≤ heap_size))
unfolding alloc
alloc_safe h bytes n u b =
    let o = (h.used + 255) / 256 * 256 in
    let a = align_used_default h.used u in
    let e : (o + bytes) % 2 ^ 64 ≡ o + bytes = omega arith in
    rw (a, e)
      (elim (Bool-cases (ltb heap_size (o + bytes))) [
        | inl full ↦ rw full (inl (refl, ltb→lt _ _ full))
        | inr room ↦
            rw room
              (inr (o, refl, λ z. n (omega (arith, z)), omega arith, omega arith, ground arith))
      ])

-- A request of less than 2 ^ 64 bytes whose sum with the rounded offset of a heap in use wraps: it
-- is granted, the range passes the end of the heap, and the heap then counts less as used than the
-- offset it gave.
pub alloc_wraps :
    (h : GpuHeap) (bytes : ℕ)
    → h.used ≤ heap_size
    → 0 < h.used
    → bytes < 2 ^ 64
    → 2 ^ 64 ≤ (h.used + 255) / 256 * 256 + bytes
    → (o : ℕ) × (u : ℕ) × (alloc h bytes 256 ≡ (h.base + o, record h { used = u }))
      × (u < o)
      × (heap_size < o + bytes)
unfolding alloc
alloc_wraps h bytes u pos b w =
    let o = (h.used + 255) / 256 * 256 in
    let a = align_used_default h.used u in
    let fits : ltb heap_size ((o + bytes) % 2 ^ 64) ≡ false = ground arith in
    (o, (o + bytes) % 2 ^ 64, rw (a, fits) refl, omega arith, omega arith)
