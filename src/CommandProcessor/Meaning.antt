-- ===== src/CommandProcessor/Meaning.antt =====
-- What each call of the builder stands for: the independent description that Process is held to.
use ps5x_windows.Base.{ℕ, ◌^◌, ◌<◌, List, [], ◌∷◌, if◌then◌else◌, length}
use ps5x_windows.Gpu.{RenderTarget, DepthTarget}
use ps5x_windows.Gpu
use ps5x_windows.CommandProcessor.Command.{
  Command, nop, set_render_target, set_depth_target, clear_color, clear_depth, draw_direct,
  draw_indexed, dispatch, set_viewport, set_scissor, barrier, wait_fence, signal_fence,
  begin_render_pass, end_render_pass, push_debug_label, pop_debug_label,
}
use ps5x_windows.CommandProcessor.Process.{
  CpState, set_gpu, count_draw, count_dispatch, count_barrier, count_pass,
}

-- The arguments fit the types of the builder's parameters, and a label the 32 bits of its length.
abbrev pub Fits : Command → Type 0
Fits nop = Unit
Fits (set_render_target slot rt) =
    (slot < 2 ^ 32)
    × (rt.gpu_addr < 2 ^ 64)
    × (rt.width < 2 ^ 32)
    × (rt.height < 2 ^ 32)
    × (rt.pitch < 2 ^ 32)
    × (rt.format < 2 ^ 32)
Fits (set_depth_target dt) =
    (dt.gpu_addr < 2 ^ 64) × (dt.width < 2 ^ 32) × (dt.height < 2 ^ 32) × (dt.format < 2 ^ 32)
Fits (clear_color slot r g b a) =
    (slot < 2 ^ 32) × (r < 2 ^ 32) × (g < 2 ^ 32) × (b < 2 ^ 32) × (a < 2 ^ 32)
Fits (clear_depth depth stencil) = (depth < 2 ^ 32) × (stencil < 2 ^ 8)
Fits (draw_direct vc ic fv fi) = (vc < 2 ^ 32) × (ic < 2 ^ 32) × (fv < 2 ^ 32) × (fi < 2 ^ 32)
Fits (draw_indexed ic inst fi vo fii) =
    (ic < 2 ^ 32) × (inst < 2 ^ 32) × (fi < 2 ^ 32) × (vo < 2 ^ 32) × (fii < 2 ^ 32)
Fits (dispatch gx gy gz) = (gx < 2 ^ 32) × (gy < 2 ^ 32) × (gz < 2 ^ 32)
Fits (set_viewport x y w h lo hi) = Unit
Fits (set_scissor x y w h) = Unit
Fits (barrier b) = (b.gpu_addr < 2 ^ 64) × (b.before < 2 ^ 8) × (b.after < 2 ^ 8)
Fits (wait_fence h) = h < 2 ^ 32
Fits (signal_fence h) = h < 2 ^ 32
Fits (begin_render_pass label) = length label < 2 ^ 32
Fits end_render_pass = Unit
Fits (push_debug_label label) = length label < 2 ^ 32
Fits pop_debug_label = Unit

-- The host pointer of a target is not sent.
abbrev pub sent_target : RenderTarget → RenderTarget
sent_target rt = record rt { data_ptr = 0 }

abbrev pub sent_depth : DepthTarget → DepthTarget
sent_depth dt = record dt { data_ptr = 0 }

module _ (unorm_byte : ℕ → ℕ) where
  unfoldable pub perform : CpState → Command → CpState
  perform s nop = s
  perform s (set_render_target slot rt) =
      set_gpu s (Gpu.set_render_target s.gpu slot (sent_target rt))
  perform s (set_depth_target dt) = set_gpu s (Gpu.set_depth_target s.gpu (sent_depth dt))
  perform s (clear_color slot r g b a) =
      if s.backend then set_gpu s (Gpu.clear_render_target unorm_byte s.gpu slot r g b a) else s
  perform s (clear_depth depth stencil) =
      if s.backend then set_gpu s (Gpu.clear_depth_target s.gpu depth stencil) else s
  perform s (draw_direct vc ic fv fi) = count_draw s
  perform s (draw_indexed ic inst fi vo fii) = count_draw s
  perform s (dispatch gx gy gz) = count_dispatch s
  perform s (set_viewport x y w h lo hi) = s
  perform s (set_scissor x y w h) = s
  perform s (barrier b) = count_barrier (set_gpu s (Gpu.insert_barrier s.gpu b))
  perform s (wait_fence h) = s
  perform s (signal_fence h) = set_gpu s (Gpu.signal_fence s.gpu h).1
  perform s (begin_render_pass label) = count_pass s
  perform s end_render_pass = s
  perform s (push_debug_label label) = s
  perform s pop_debug_label = s

  unfoldable pub perform_all : CpState → List Command → CpState
  perform_all s [] = s
  perform_all s (c ∷ cs) = perform_all (perform s c) cs
