-- ===== src/CommandProcessor/Tests.antt =====
-- The theorems of Process at a concrete command list.
use ps5x_windows.Base.{ℕ, ◌*◌, ◌%◌, ◌≤◌, ◌≡◌, true, false, some, List, [], ◌∷◌, length, arith, All}
use ps5x_windows.Gpu.{GpuState, no_target, no_depth}
use ps5x_windows.CommandProcessor.Command.{
  Command, nop, clear_color, draw_direct, barrier, begin_render_pass, build,
}
use ps5x_windows.CommandProcessor.Process.{CpState, zero_stats, process, finish}
use ps5x_windows.CommandProcessor.Meaning.{Fits, perform_all}
use ps5x_windows.CommandProcessor.RoundTrip.{process-build}
use ps5x_windows.CommandProcessor.Total.{process-total}

abbrev idle_gpu : GpuState
idle_gpu = record {
  has_backend = true;
  null_mode = false;
  current_rt = no_target;
  current_dt = no_depth;
  fences = [];
  next_fence = 1;
  queues = [];
  next_queue = 1;
  stats = record { submits = 0; flips = 0; barriers = 0; fences_signaled = 0; active_queues = 0 };
  frame = λ a. 0;
}

abbrev idle : CpState
idle = record {
  backend = true;
  stats = zero_stats;
  initialised = true;
  gpu = idle_gpu;
  frame_events = [];
}

abbrev some_calls : List Command
some_calls =
    clear_color 0 0 0 0 0x3F800000
    ∷ begin_render_pass (112 ∷ 49 ∷ [])
    ∷ draw_direct 3 1 0 0
    ∷ barrier (record { gpu_addr = 0x200000000; before = 1; after = 2 })
    ∷ nop
    ∷ []

abbrev broken_bytes : List ℕ
broken_bytes = 16 ∷ 0 ∷ 0 ∷ 0 ∷ 7 ∷ []

some_calls-Fits : All Fits some_calls
some_calls-Fits = (
  (omega arith, omega arith, omega arith, omega arith, omega arith),
  (
    omega arith,
    (
      (omega arith, omega arith, omega arith, omega arith),
      ((omega arith, omega arith, omega arith), (tt, tt)),
    ),
  ),
)

process-build_example :
    process (λ x. x % 256) idle (build some_calls)
    ≡ some (5, finish 5 (perform_all (λ x. x % 256) idle some_calls))
process-build_example = process-build (λ x. x % 256) idle some_calls some_calls-Fits (omega arith)

process-total_example :
    (n : ℕ) × (t : CpState) × (process (λ x. x % 256) idle broken_bytes ≡ some (n, t))
    × (4 * n ≤ length broken_bytes)
process-total_example = process-total (λ x. x % 256) idle broken_bytes (omega arith)
