-- ===== src/Gpu/Tests.antt =====
-- The theorems of the heap and of fences at concrete states.
use ps5x_windows.Base.{
  ℕ, ◌+◌, ◌*◌, ◌/◌, ◌%◌, ◌^◌, ◌≤◌, ◌<◌, ◌≡◌, ◌-◌, ◌⊎◌, arith, true, false, [], ◌∷◌, ◌≢◌, lookup,
}
use ps5x_windows.Gpu.{
  GpuState, no_target, no_depth, create_fence, signal_fence, wait_fence, is_fence_signalled,
  destroy_fence,
}
use ps5x_windows.Gpu.Fences.{signal_fence-create_fence}
use ps5x_windows.Gpu.Heap.{GpuHeap, heap_size, alloc, alloc_safe, alloc_wraps}

abbrev started : GpuHeap
started = record { base = 0x10000; used = 300 }

alloc_safe_example :
    ((alloc started 1000 256 ≡ (0, started))
      × (heap_size < (started.used + 255) / 256 * 256 + 1000))
    ⊎ ((o : ℕ) × (alloc started 1000 256 ≡ (0x10000 + o, record started { used = o + 1000 }))
        × (0x10000 + o ≢ 0)
        × (o % 256 ≡ 0)
        × (started.used ≤ o)
        × (o + 1000 ≤ heap_size))
alloc_safe_example = alloc_safe started 1000 (λ e. omega (arith, e)) (omega arith) (omega arith)

alloc_wraps_example :
    (o : ℕ) × (u : ℕ) × (alloc started (2 ^ 64 - 512) 256
      ≡ (0x10000 + o, record started { used = u }))
    × (u < o)
    × (heap_size < o + (2 ^ 64 - 512))
alloc_wraps_example =
    alloc_wraps started (2 ^ 64 - 512) (omega arith) (omega arith) (omega arith) (omega arith)

abbrev drawing : GpuState
drawing = record {
  has_backend = true;
  null_mode = false;
  current_rt = no_target;
  current_dt = no_depth;
  fences = (3, true) ∷ [];
  next_fence = 4;
  queues = [];
  next_queue = 1;
  stats = record { submits = 0; flips = 0; barriers = 0; fences_signaled = 1; active_queues = 0 };
  frame = λ a. 0;
}

signal_fence-create_fence_example :
    let (h, t) = create_fence drawing in
    (u : GpuState) × (is_fence_signalled t h ≡ false)
    × (wait_fence t h false ≡ false)
    × (signal_fence t h ≡ (true, u))
    × (is_fence_signalled u h ≡ true)
    × (wait_fence u h false ≡ true)
    × (wait_fence (destroy_fence u h) h false ≡ false)
    × ((k : ℕ) → k ≢ h → lookup k (destroy_fence u h).fences ≡ lookup k drawing.fences)
signal_fence-create_fence_example = signal_fence-create_fence drawing false
