-- ===== src/CommandProcessor/Process.antt =====
-- Process: the interpreter of the bytes. Reads past the end give 0 and move nothing.
use ps5x_windows.Base.{
  ℕ, zero, suc, ◌+◌, ◌*◌, ◌%◌, ◌^◌, min, Bool, true, false, Option, none, some, List, [], ◌∷◌, ◌==◌,
  ◌-◌, ltb, leb, if◌then◌else◌, length, take, drop,
}
use ps5x_windows.Gpu.{GpuState, RenderTarget, DepthTarget, Barrier}
use ps5x_windows.Gpu

-- The counters of ProcessorStats; the time spent is left out.
pub record ProcessorStats : Type 0 where
  pub command_lists_processed : ℕ
  pub commands_processed : ℕ
  pub draw_calls : ℕ
  pub compute_dispatches : ℕ
  pub barriers : ℕ
  pub render_pass_begins : ℕ
  pub unknown_commands : ℕ

-- CpState with the GPU that it drives. `frame_events` is the FrameEnd events published, newest
-- first, each by the number that it carries.
pub record CpState : Type 0 where
  pub backend : Bool
  pub stats : ProcessorStats
  pub initialised : Bool
  pub gpu : GpuState
  pub frame_events : List ℕ

abbrev pub zero_stats : ProcessorStats
zero_stats = record {
  command_lists_processed = 0;
  commands_processed = 0;
  draw_calls = 0;
  compute_dispatches = 0;
  barriers = 0;
  render_pass_begins = 0;
  unknown_commands = 0;
}

unfoldable pub init : Bool → CpState → CpState
init backend s = record s { backend = backend; stats = zero_stats; initialised = true }

unfoldable pub shutdown : CpState → CpState
shutdown s = record s { backend = false; initialised = false }

unfoldable pub reset_stats : CpState → CpState
reset_stats s = record s { stats = zero_stats }

-- The number that little-endian bytes stand for.
unfoldable pub le_value : List ℕ → ℕ
le_value [] = 0
le_value (x ∷ xs) = x + 256 * le_value xs

-- ReadVal of an n-byte type: the value, and what is left.
unfoldable pub read_val : ℕ → List ℕ → ℕ × List ℕ
read_val n bytes =
    if leb n (length bytes) then (le_value (take n bytes), drop n bytes) else (0, bytes)

-- A label: its length, and that many bytes as far as they go.
unfoldable pub skip_label : List ℕ → List ℕ
skip_label bytes = let (len, rest) = read_val 4 bytes in drop (min len (length rest)) rest

abbrev pub set_gpu : CpState → GpuState → CpState
set_gpu s g = record s { gpu = g }

abbrev pub count_draw : CpState → CpState
count_draw s = record s { stats = record (s.stats) { draw_calls = s.stats.draw_calls + 1 } }

abbrev pub count_dispatch : CpState → CpState
count_dispatch s = record s {
  stats = record (s.stats) { compute_dispatches = s.stats.compute_dispatches + 1 };
}

abbrev pub count_barrier : CpState → CpState
count_barrier s = record s { stats = record (s.stats) { barriers = s.stats.barriers + 1 } }

abbrev pub count_pass : CpState → CpState
count_pass s = record s {
  stats = record (s.stats) { render_pass_begins = s.stats.render_pass_begins + 1 };
}

abbrev pub count_unknown : CpState → CpState
count_unknown s = record s {
  stats = record (s.stats) { unknown_commands = s.stats.unknown_commands + 1 };
}

-- One case of the switch: the state and the bytes left, or the end of the list.
pub data Round : Type 0 where
  next : CpState → List ℕ → Round
  done : CpState → Round

module _ (unorm_byte : ℕ → ℕ) where
  unfoldable pub on_clear_color : CpState → List ℕ → Round
  on_clear_color s p0 =
      let (slot, p1) = read_val 4 p0 in
      let (r, p2) = read_val 4 p1 in
      let (g, p3) = read_val 4 p2 in
      let (b, p4) = read_val 4 p3 in
      let (a, p5) = read_val 4 p4 in
      next
        (if s.backend then set_gpu s (Gpu.clear_render_target unorm_byte s.gpu slot r g b a) else s)
        p5

unfoldable pub on_clear_depth : CpState → List ℕ → Round
on_clear_depth s p0 =
    let (depth, p1) = read_val 4 p0 in
    let (stencil, p2) = read_val 4 p1 in
    next (if s.backend then set_gpu s (Gpu.clear_depth_target s.gpu depth (stencil % 2 ^ 8)) else s)
      p2

-- Reads that are thrown away.
unfoldable pub skip_words : ℕ → List ℕ → List ℕ
skip_words zero p = p
skip_words (suc n) p = skip_words n (read_val 4 p).1

-- The casts to ResourceState keep a byte.
unfoldable pub on_barrier : CpState → List ℕ → Round
on_barrier s p0 =
    let (addr, p1) = read_val 8 p0 in
    let (before, p2) = read_val 4 p1 in
    let (after, p3) = read_val 4 p2 in
    let b : Barrier = record { gpu_addr = addr; before = before % 2 ^ 8; after = after % 2 ^ 8 } in
    next (count_barrier (set_gpu s (Gpu.insert_barrier s.gpu b))) p3

unfoldable pub on_signal_fence : CpState → List ℕ → Round
on_signal_fence s p0 =
    let (h, p1) = read_val 4 p0 in next (set_gpu s (Gpu.signal_fence s.gpu h).1) p1

unfoldable pub on_set_render_target : CpState → List ℕ → Round
on_set_render_target s p0 =
    let (slot, p1) = read_val 4 p0 in
    let (addr, p2) = read_val 8 p1 in
    let (width, p3) = read_val 4 p2 in
    let (height, p4) = read_val 4 p3 in
    let (pitch, p5) = read_val 4 p4 in
    let (format, p6) = read_val 4 p5 in
    let rt : RenderTarget = record {
      data_ptr = 0;
      gpu_addr = addr;
      width = width;
      height = height;
      pitch = pitch;
      format = format;
    } in
    next (set_gpu s (Gpu.set_render_target s.gpu slot rt)) p6

unfoldable pub on_set_depth_target : CpState → List ℕ → Round
on_set_depth_target s p0 =
    let (addr, p1) = read_val 8 p0 in
    let (width, p2) = read_val 4 p1 in
    let (height, p3) = read_val 4 p2 in
    let (format, p4) = read_val 4 p3 in
    let dt : DepthTarget = record {
      data_ptr = 0;
      gpu_addr = addr;
      width = width;
      height = height;
      format = format;
    } in
    next (set_gpu s (Gpu.set_depth_target s.gpu dt)) p4

-- What follows the loop.
unfoldable pub finish : ℕ → CpState → CpState
finish count s =
    let n = s.stats.command_lists_processed + 1 in
    record s {
      stats = record (s.stats) {
        command_lists_processed = n;
        commands_processed = s.stats.commands_processed + count;
      };
      frame_events = n ∷ s.frame_events;
    }

unfoldable pub after_loop : Option (ℕ × CpState) → Option (ℕ × CpState)
unfolding finish
after_loop none = none
after_loop (some (count, s)) = some (count, finish count s)

module _ (unorm_byte : ℕ → ℕ) where
  -- The switch. The wait of WaitFence changes nothing.
  unfoldable pub process_op : ℕ → CpState → List ℕ → Round
  process_op op s p =
      if op == 0x0000
      then next s p
      else if op == 0x0010
      then on_clear_color unorm_byte s p
      else if op == 0x0011
      then on_clear_depth s p
      else if op == 0x0101
      then next (count_draw s) (skip_words 4 p)
      else if op == 0x0100
      then next (count_draw s) (skip_words 5 p)
      else if op == 0x0200
      then next (count_dispatch s) (skip_words 3 p)
      else if op == 0x0400
      then on_barrier s p
      else if op == 0x0500
      then next s (skip_words 1 p)
      else if op == 0x0501
      then on_signal_fence s p
      else if op == 0x0600
      then next (count_pass s) (skip_label p)
      else if op == 0x0601
      then next s p
      else if op == 0x0700
      then next s (skip_label p)
      else if op == 0x0701
      then next s p
      else if op == 0x0300
      then next s (drop 24 p)
      else if op == 0x0301
      then next s (drop 16 p)
      else if op == 0x0001
      then on_set_render_target s p
      else if op == 0x0002
      then on_set_depth_target s p
      else if op == 0xFFFF
      then done s
      else done (count_unknown s)

  -- The loop: the commands counted, in an int32_t, and the state. `none` where the fuel runs out or
  -- where the count overflows, which has no defined behaviour.
  unfoldable pub process_loop : ℕ → ℕ → CpState → List ℕ → Option (ℕ × CpState)
  process_loop zero count s p = none
  process_loop (suc fuel) count s p =
      let (op, rest) = read_val 4 p in
      if leb 4 (length p)
      then elim (process_op op s rest) [
        | next t q ↦ if ltb count (2 ^ 31 - 1) then process_loop fuel (count + 1) t q else none
        | done t ↦ some (count, t)
      ]
      else some (count, s)

  -- Process(data, size). Each round takes 4 bytes or more, so the length is fuel enough.
  unfoldable pub process : CpState → List ℕ → Option (ℕ × CpState)
  unfolding process_loop after_loop
  process s [] = some (0, s)
  process s (x ∷ xs) = after_loop (process_loop (length (x ∷ xs)) 0 s (x ∷ xs))
