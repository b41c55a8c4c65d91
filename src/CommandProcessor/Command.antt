-- ===== src/CommandProcessor/Command.antt =====
-- The opcodes, and the builder CommandList.
use ps5x_windows.Base.{ℕ, zero, suc, ◌/◌, ◌%◌, List, [], ◌∷◌, ◌++◌, length}
use ps5x_windows.Gpu.{RenderTarget, DepthTarget, Barrier}

-- A call of one method of the builder. Floats and int32_t are their bit patterns, a label is its
-- bytes.
pub data Command : Type 0 where
  nop : Command
  set_render_target : ℕ → RenderTarget → Command
  set_depth_target : DepthTarget → Command
  clear_color : (slot r g b a : ℕ) → Command
  clear_depth : (depth stencil : ℕ) → Command
  draw_direct : (vertex_count instance_count first_vertex first_instance : ℕ) → Command
  draw_indexed : (index_count instance_count first_index vertex_offset first_instance : ℕ) → Command
  dispatch : (gx gy gz : ℕ) → Command
  set_viewport : (x y width height min_depth max_depth : ℕ) → Command
  set_scissor : (x y width height : ℕ) → Command
  barrier : Barrier → Command
  wait_fence signal_fence : ℕ → Command
  begin_render_pass : List ℕ → Command
  end_render_pass : Command
  push_debug_label : List ℕ → Command
  pop_debug_label : Command

-- WriteBytes of an n-byte integer, little-endian.
unfoldable pub le_bytes : ℕ → ℕ → List ℕ
le_bytes zero v = []
le_bytes (suc n) v = (v % 256) ∷ le_bytes n (v / 256)

abbrev pub u32 : ℕ → List ℕ
u32 v = le_bytes 4 v

abbrev pub u64 : ℕ → List ℕ
u64 v = le_bytes 8 v

-- CommandOpcode's numbers.
abbrev pub end_opcode : ℕ
end_opcode = 0xFFFF

unfoldable pub opcode : Command → ℕ
opcode nop = 0x0000
opcode (set_render_target slot rt) = 0x0001
opcode (set_depth_target dt) = 0x0002
opcode (clear_color slot r g b a) = 0x0010
opcode (clear_depth depth stencil) = 0x0011
opcode (draw_indexed ic inst fi vo fii) = 0x0100
opcode (draw_direct vc ic fv fi) = 0x0101
opcode (dispatch gx gy gz) = 0x0200
opcode (set_viewport x y w h lo hi) = 0x0300
opcode (set_scissor x y w h) = 0x0301
opcode (barrier b) = 0x0400
opcode (wait_fence h) = 0x0500
opcode (signal_fence h) = 0x0501
opcode (begin_render_pass label) = 0x0600
opcode end_render_pass = 0x0601
opcode (push_debug_label label) = 0x0700
opcode pop_debug_label = 0x0701

-- What each method writes behind its opcode.
unfoldable pub operands : Command → List ℕ
operands nop = []
operands (set_render_target slot rt) =
    u32 slot
    ++ (u64 rt.gpu_addr ++ (u32 rt.width ++ (u32 rt.height ++ (u32 rt.pitch ++ u32 rt.format))))
operands (set_depth_target dt) =
    u64 dt.gpu_addr ++ (u32 dt.width ++ (u32 dt.height ++ u32 dt.format))
operands (clear_color slot r g b a) = u32 slot ++ (u32 r ++ (u32 g ++ (u32 b ++ u32 a)))
operands (clear_depth depth stencil) = u32 depth ++ u32 stencil
operands (draw_direct vc ic fv fi) = u32 vc ++ (u32 ic ++ (u32 fv ++ u32 fi))
operands (draw_indexed ic inst fi vo fii) = u32 ic ++ (u32 inst ++ (u32 fi ++ (u32 vo ++ u32 fii)))
operands (dispatch gx gy gz) = u32 gx ++ (u32 gy ++ u32 gz)
operands (set_viewport x y w h lo hi) = u32 x ++ (u32 y ++ (u32 w ++ (u32 h ++ (u32 lo ++ u32 hi))))
operands (set_scissor x y w h) = u32 x ++ (u32 y ++ (u32 w ++ u32 h))
operands (barrier b) = u64 b.gpu_addr ++ (u32 b.before ++ u32 b.after)
operands (wait_fence h) = u32 h
operands (signal_fence h) = u32 h
operands (begin_render_pass label) = u32 (length label) ++ label
operands end_render_pass = []
operands (push_debug_label label) = u32 (length label) ++ label
operands pop_debug_label = []

-- A method appends its bytes to `_buf`.
unfoldable pub write : List ℕ → Command → List ℕ
write buf c = buf ++ (u32 (opcode c) ++ operands c)

unfoldable pub write_end : List ℕ → List ℕ
write_end buf = buf ++ u32 end_opcode

-- A list of calls, and End.
unfoldable pub build_from : List ℕ → List Command → List ℕ
build_from buf [] = buf
build_from buf (c ∷ cs) = build_from (write buf c) cs

unfoldable pub build : List Command → List ℕ
build cs = write_end (build_from [] cs)
