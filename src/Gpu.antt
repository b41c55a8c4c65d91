-- ===== src/Gpu.antt =====
-- source/chuckstation5/src/GPU/GPU.cpp and include/ChuckStation5/GPU/GPU.h: targets, the heap of
-- GPU-visible memory, queues, fences and barriers.
pub mod Heap
pub mod Fences
mod Tests
use ps5x_windows.Base.{
  ℕ, zero, suc, ◌+◌, ◌-◌, ◌*◌, ◌%◌, ◌^◌, Bool, true, false, not, ◌&&◌, Option, none, some, List, [],
  ◌∷◌, ◌==◌, ltb, if◌then◌else◌, lookup, insert, erase, update,
}

-- RenderTarget and DepthTarget; `data_ptr` is 0 for nullptr. A format is its number.
pub record RenderTarget : Type 0 where
  pub data_ptr : ℕ
  pub gpu_addr : ℕ
  pub width : ℕ
  pub height : ℕ
  pub pitch : ℕ
  pub format : ℕ

pub record DepthTarget : Type 0 where
  pub data_ptr : ℕ
  pub gpu_addr : ℕ
  pub width : ℕ
  pub height : ℕ
  pub format : ℕ

-- ResourceState is an enum of a uint8_t.
pub record Barrier : Type 0 where
  pub gpu_addr : ℕ
  pub before : ℕ
  pub after : ℕ

pub data QueueType : Type 0 where
  graphics compute transfer : QueueType

pub record QueueEntry : Type 0 where
  pub type : QueueType
  pub submits : ℕ

pub record GpuStats : Type 0 where
  pub submits : ℕ
  pub flips : ℕ
  pub barriers : ℕ
  pub fences_signaled : ℕ
  pub active_queues : ℕ

-- GpuState and GpuExtState. `fences` maps a handle to `signalled`; `frame` is the memory that
-- ClearRenderTarget writes.
pub record GpuState : Type 0 where
  pub has_backend : Bool
  pub null_mode : Bool
  pub current_rt : RenderTarget
  pub current_dt : DepthTarget
  pub fences : List (ℕ × Bool)
  pub next_fence : ℕ
  pub queues : List (ℕ × QueueEntry)
  pub next_queue : ℕ
  pub stats : GpuStats
  pub frame : ℕ → ℕ

abbrev pub no_target : RenderTarget
no_target = record { data_ptr = 0; gpu_addr = 0; width = 0; height = 0; pitch = 0; format = 0 }

-- A default DepthTarget has format D32_Float.
abbrev pub no_depth : DepthTarget
no_depth = record { data_ptr = 0; gpu_addr = 0; width = 0; height = 0; format = 20 }

-- Init, with a backend or in null mode, less its heap and its refusal of one test program's name.
unfoldable pub init : Bool → GpuState → GpuState
init backend s = record s {
  has_backend = backend;
  null_mode = not backend;
  current_rt = no_target;
  current_dt = no_depth;
}

unfoldable pub shutdown : GpuState → GpuState
shutdown s = record s { has_backend = false; null_mode = false }

-- The slot is not used.
unfoldable pub set_render_target : GpuState → ℕ → RenderTarget → GpuState
set_render_target s slot rt = record s { current_rt = rt }

unfoldable pub set_depth_target : GpuState → DepthTarget → GpuState
set_depth_target s dt = record s { current_dt = dt }

-- The loop of ClearRenderTarget over the pixels from `i` on: four bytes each.
unfoldable pub fill_pixels : ℕ → ℕ → ℕ → ℕ → ℕ → ℕ → (ℕ → ℕ) → ℕ → ℕ
fill_pixels zero base r g b a fb = fb
fill_pixels (suc n) base r g b a fb =
    fill_pixels n (base + 4) r g b a
      (update (update (update (update fb base r) (base + 1) g) (base + 2) b) (base + 3) a)

-- `static_cast<uint8_t>(x * 255)` of a float with pattern x.
module _ (unorm_byte : ℕ → ℕ) where
  unfoldable pub clear_render_target : GpuState → ℕ → ℕ → ℕ → ℕ → ℕ → GpuState
  unfolding fill_pixels
  clear_render_target s slot r g b a =
      let rt = s.current_rt in
      if not s.null_mode && not (rt.data_ptr == 0)
      then record s {
        frame =
            fill_pixels (rt.width * rt.height) rt.data_ptr (unorm_byte r) (unorm_byte g)
              (unorm_byte b) (unorm_byte a) s.frame;
      }
      else s

-- ClearDepthTarget only logs.
unfoldable pub clear_depth_target : GpuState → ℕ → ℕ → GpuState
clear_depth_target s depth stencil = s

abbrev bump_submits : GpuStats → GpuStats
bump_submits t = record t { submits = t.submits + 1 }

unfoldable pub create_queue : GpuState → QueueType → ℕ × GpuState
create_queue s ty = (
  s.next_queue,
  record s {
    next_queue = s.next_queue + 1;
    queues = insert s.next_queue (record { type = ty; submits = 0 }) s.queues;
    stats = record (s.stats) { active_queues = (s.stats.active_queues + 1) % 2 ^ 32 };
  },
)

unfoldable pub destroy_queue : GpuState → ℕ → Bool × GpuState
destroy_queue s h = elim (lookup h s.queues) [
  | none ↦ (false, s)
  | some q ↦ (
    true,
    record s {
      queues = erase h s.queues;
      stats = record (s.stats) { active_queues = s.stats.active_queues - 1 };
    },
  )
]

-- SubmitToQueue; Submit itself only logs.
unfoldable pub submit_to_queue : GpuState → ℕ → Bool × GpuState
submit_to_queue s h = elim (lookup h s.queues) [
  | none ↦ (false, s)
  | some q ↦ (
    true,
    record s {
      queues = insert h (record q { submits = q.submits + 1 }) s.queues;
      stats = bump_submits s.stats;
    },
  )
]

unfoldable pub create_fence : GpuState → ℕ × GpuState
create_fence s = (
  s.next_fence,
  record s { next_fence = s.next_fence + 1; fences = insert s.next_fence false s.fences },
)

unfoldable pub signal_fence : GpuState → ℕ → Bool × GpuState
signal_fence s h = elim (lookup h s.fences) [
  | none ↦ (false, s)
  | some v ↦ (
    true,
    record s {
      fences = insert h true s.fences;
      stats = record (s.stats) { fences_signaled = s.stats.fences_signaled + 1 };
    },
  )
]

-- WaitFence; `in_time` says whether another thread signals before the time is over. It changes
-- nothing.
unfoldable pub wait_fence : GpuState → ℕ → Bool → Bool
wait_fence s h in_time = elim (lookup h s.fences) [
  | none ↦ false
  | some true ↦ true
  | some false ↦ in_time
]

unfoldable pub is_fence_signalled : GpuState → ℕ → Bool
is_fence_signalled s h = elim (lookup h s.fences) [ none ↦ false | some v ↦ v ]

unfoldable pub destroy_fence : GpuState → ℕ → GpuState
destroy_fence s h = record s { fences = erase h s.fences }

unfoldable pub insert_barrier : GpuState → Barrier → GpuState
insert_barrier s b = record s { stats = record (s.stats) { barriers = s.stats.barriers + 1 } }

unfoldable pub insert_barriers : GpuState → List Barrier → GpuState
unfolding insert_barrier
insert_barriers s [] = s
insert_barriers s (b ∷ bs) = insert_barriers (insert_barrier s b) bs
