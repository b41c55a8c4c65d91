-- ===== src/CommandProcessor/RoundTrip.antt =====
-- Processing what the builder wrote.
use mathlib.Core.List.{append_assoc, append-nil}
use native.Mathlib.Nat.{pow-suc, zero-add}
use ps5x_windows.Base.{
  ℕ, zero, suc, ◌+◌, ◌/◌, ◌%◌, ◌^◌, ◌≤◌, ◌<◌, ◌≡◌, refl, sym, ap, ◌∙◌, some, List, [], ◌∷◌, ◌++◌,
  length, length-append, drop-append, split_at, leb, arith, min, All, true, le→leb, lt→ltb, ltb,
  ◌-◌,
}
use ps5x_windows.CommandProcessor.Command.{
  Command, nop, set_render_target, set_depth_target, clear_color, clear_depth, draw_direct,
  draw_indexed, dispatch, set_viewport, set_scissor, barrier, wait_fence, signal_fence,
  begin_render_pass, end_render_pass, push_debug_label, pop_debug_label, le_bytes, u32, u64, opcode,
  operands, write, write_end, build_from, build, end_opcode,
}
use ps5x_windows.CommandProcessor.Process.{
  CpState, Round, next, le_value, read_val, skip_label, skip_words, process_op, process_loop,
  finish, after_loop, process, on_clear_color, on_clear_depth, on_barrier, on_signal_fence,
  on_set_render_target, on_set_depth_target,
}
use ps5x_windows.CommandProcessor.Meaning.{Fits, perform, perform_all}

pub length-le_bytes : (n v : ℕ) → length (le_bytes n v) ≡ n
unfolding le_bytes
length-le_bytes zero v = refl
length-le_bytes (suc n) v = ap suc (length-le_bytes n (v / 256))

pub le_value-le_bytes : (n v : ℕ) → v < 256 ^ n → le_value (le_bytes n v) ≡ v
unfolding le_value le_bytes
le_value-le_bytes zero v h = omega arith
le_value-le_bytes (suc n) v h =
    omega (arith, le_value-le_bytes n (v / 256) (omega (arith, pow-suc 256 n)))

-- A number that fits is read back, with the rest left.
read_val-le_bytes :
    (n v : ℕ) (rest : List ℕ) → v < 256 ^ n → read_val n (le_bytes n v ++ rest) ≡ (v, rest)
unfolding read_val
read_val-le_bytes n v rest h =
    let (t, d, l) = split_at n (le_bytes n v) rest (length-le_bytes n v) in
    rw (le→leb _ _ l, t, d, le_value-le_bytes n v h) refl

read_u32 : (v : ℕ) (rest : List ℕ) → v < 2 ^ 32 → read_val 4 (u32 v ++ rest) ≡ (v, rest)
read_u32 v rest h = read_val-le_bytes 4 v rest h

read_u64 : (v : ℕ) (rest : List ℕ) → v < 2 ^ 64 → read_val 8 (u64 v ++ rest) ≡ (v, rest)
read_u64 v rest h = read_val-le_bytes 8 v rest h

skip_label_lem :
    (label rest : List ℕ)
    → length label < 2 ^ 32
    → skip_label (u32 (length label) ++ (label ++ rest)) ≡ rest
unfolding skip_label
skip_label_lem label rest h =
    let e : min (length label) (length (label ++ rest)) ≡ length label =
      omega (arith, length-append label rest) in
    rw (read_u32 (length label) (label ++ rest) h, e) (drop-append label rest)

skip_word :
    (n v : ℕ) (rest : List ℕ) → v < 2 ^ 32 → skip_words (suc n) (u32 v ++ rest) ≡ skip_words n rest
unfolding skip_words
skip_word n v rest h = rw (read_u32 v rest h) refl

module _ (unorm_byte : ℕ → ℕ) where
  abbrev handle : CpState → Command → List ℕ → Round
  handle s c rest = process_op unorm_byte (opcode c) s (operands c ++ rest)

  -- One case of the switch does what the builder's call stands for, and stops at its end.
  process_op-operands :
      (s : CpState) (c : Command) (rest : List ℕ)
      → Fits c
      → handle s c rest ≡ next (perform unorm_byte s c) rest
  unfolding process_op opcode operands perform on_clear_color on_clear_depth on_barrier
      on_signal_fence on_set_render_target on_set_depth_target skip_words
  process_op-operands s nop rest h = refl
  process_op-operands s (set_render_target slot rt) rest (h0, h1, h2, h3, h4, h5) =
      simp append_assoc (
        rw
          (
            read_u32 slot _ h0,
            read_u64 rt.gpu_addr _ h1,
            read_u32 rt.width _ h2,
            read_u32 rt.height _ h3,
            read_u32 rt.pitch _ h4,
            read_u32 rt.format _ h5,
          )
          refl)
  process_op-operands s (set_depth_target dt) rest (h0, h1, h2, h3) = simp append_assoc (
      rw
        (
          read_u64 dt.gpu_addr _ h0,
          read_u32 dt.width _ h1,
          read_u32 dt.height _ h2,
          read_u32 dt.format _ h3,
        )
        refl)
  process_op-operands s (clear_color slot r g b a) rest (h0, h1, h2, h3, h4) = simp append_assoc (
      rw (read_u32 slot _ h0, read_u32 r _ h1, read_u32 g _ h2, read_u32 b _ h3, read_u32 a _ h4)
        refl)
  process_op-operands s (clear_depth depth stencil) rest (h0, h1) =
      let e : stencil % 2 ^ 8 ≡ stencil = omega arith in
      simp append_assoc (rw (read_u32 depth _ h0, read_u32 stencil _ (omega arith), e) refl)
  process_op-operands s (draw_direct vc ic fv fi) rest (h0, h1, h2, h3) =
      simp append_assoc (
        rw (skip_word 3 vc _ h0, skip_word 2 ic _ h1, skip_word 1 fv _ h2, skip_word 0 fi _ h3)
          refl)
  process_op-operands s (draw_indexed ic inst fi vo fii) rest (h0, h1, h2, h3, h4) =
      simp append_assoc (
        rw
          (
            skip_word 4 ic _ h0,
            skip_word 3 inst _ h1,
            skip_word 2 fi _ h2,
            skip_word 1 vo _ h3,
            skip_word 0 fii _ h4,
          )
          refl)
  process_op-operands s (dispatch gx gy gz) rest (h0, h1, h2) =
      simp append_assoc (rw (skip_word 2 gx _ h0, skip_word 1 gy _ h1, skip_word 0 gz _ h2) refl)
  process_op-operands s (set_viewport x y w h lo hi) rest _ = unfold le_bytes in refl
  process_op-operands s (set_scissor x y w h) rest _ = unfold le_bytes in refl
  process_op-operands s (barrier b) rest (h0, h1, h2) =
      let e : b.before % 2 ^ 8 ≡ b.before = omega arith in
      let f : b.after % 2 ^ 8 ≡ b.after = omega arith in
      simp append_assoc (
        rw
          (
            read_u64 b.gpu_addr _ h0,
            read_u32 b.before _ (omega arith),
            read_u32 b.after _ (omega arith),
            e,
            f,
          )
          refl)
  process_op-operands s (wait_fence h) rest h0 = rw (skip_word 0 h rest h0) refl
  process_op-operands s (signal_fence h) rest h0 = rw (read_u32 h rest h0) refl
  process_op-operands s (begin_render_pass label) rest h =
      simp append_assoc (rw (skip_label_lem label rest h) refl)
  process_op-operands s end_render_pass rest h = refl
  process_op-operands s (push_debug_label label) rest h =
      simp append_assoc (rw (skip_label_lem label rest h) refl)
  process_op-operands s pop_debug_label rest h = refl

opcode-lt : (c : Command) → opcode c < 2 ^ 32
unfolding opcode
opcode-lt nop = omega arith
opcode-lt _ = omega arith

encode : Command → List ℕ
encode c = u32 (opcode c) ++ operands c

encode_all : List Command → List ℕ
unfolding encode
encode_all [] = []
encode_all (c ∷ cs) = encode c ++ encode_all cs

build_from_lem : (buf : List ℕ) (cs : List Command) → build_from buf cs ≡ buf ++ encode_all cs
unfolding build_from encode_all write
build_from_lem buf [] = sym (append-nil buf)
build_from_lem buf (c ∷ cs) =
    build_from_lem (write buf c) cs ∙ append_assoc buf (encode c) (encode_all cs)

build_lem : (cs : List Command) → build cs ≡ encode_all cs ++ u32 end_opcode
unfolding build write_end
build_lem cs = ap (λ l. l ++ u32 end_opcode) (build_from_lem [] cs)

length-u32 : (v : ℕ) (rest : List ℕ) → length (u32 v ++ rest) ≡ 4 + length rest
length-u32 v rest = omega (arith, length-append (u32 v) rest, length-le_bytes 4 v)

long_enough : (v : ℕ) (rest : List ℕ) → leb 4 (length (u32 v ++ rest)) ≡ true
long_enough v rest = le→leb 4 _ (omega (arith, length-u32 v rest))

module _ (unorm_byte : ℕ → ℕ) where
  -- The loop over the bytes of some calls and End.
  process_loop-encode_all :
      (fuel count : ℕ) (s : CpState) (cs : List Command)
      → All Fits cs
      → length cs < fuel
      → count + length cs < 2 ^ 31
      → process_loop unorm_byte fuel count s (encode_all cs ++ u32 end_opcode)
        ≡ some (count + length cs, perform_all unorm_byte s cs)
  unfolding process_loop encode_all perform_all
  process_loop-encode_all zero count s cs h f b = absurd (omega arith)
  process_loop-encode_all (suc fuel) count s [] h f b =
      let e : count + 0 ≡ count = omega arith in
      unfold le_bytes read_val le_value process_op in rw e refl
  process_loop-encode_all (suc fuel) count s (c ∷ cs) h f b =
      let few : ltb count (2 ^ 31 - 1) ≡ true = lt→ltb _ _ (omega arith) in
      let tail = operands c ++ (encode_all cs ++ u32 end_opcode) in
      let shape : encode_all (c ∷ cs) ++ u32 end_opcode ≡ u32 (opcode c) ++ tail =
        append_assoc (encode c) (encode_all cs) (u32 end_opcode)
        ∙ append_assoc (u32 (opcode c)) (operands c) (encode_all cs ++ u32 end_opcode) in
      let sum : count + 1 + length cs ≡ count + length (c ∷ cs) = omega arith in
      rw
        (
          shape,
          read_u32 (opcode c) tail (opcode-lt c),
          long_enough (opcode c) tail,
          process_op-operands unorm_byte s c (encode_all cs ++ u32 end_opcode) h.0,
          process_loop,
          few,
          ← sum,
        )
        (process_loop-encode_all fuel (count + 1) (perform unorm_byte s c) cs h.1 (omega arith)
          (omega arith))

length-encode_all : (cs : List Command) → length cs ≤ length (encode_all cs)
unfolding encode_all encode
length-encode_all [] = omega arith
length-encode_all (c ∷ cs) = omega (
  arith,
  length-encode_all cs,
  length-append (encode c) (encode_all cs),
  length-u32 (opcode c) (operands c),
)

module _ (unorm_byte : ℕ → ℕ) where
  process_nonempty :
      (s : CpState) (p : List ℕ)
      → 0 < length p
      → process unorm_byte s p ≡ after_loop (process_loop unorm_byte (length p) 0 s p)
  unfolding process
  process_nonempty s [] h = absurd (omega arith)
  process_nonempty s (x ∷ xs) h = refl

  -- Process executes exactly what was recorded: on the bytes of any builder calls, fewer than 2 ^
  -- 31, whose arguments fit, closed by End, it runs to the end, counts one command for each call,
  -- and leaves the state that the calls stand for, performed in order, with the list and its
  -- commands counted.
  pub process-build :
      (s : CpState) (cs : List Command)
      → All Fits cs
      → length cs < 2 ^ 31
      → process unorm_byte s (build cs)
        ≡ some (length cs, finish (length cs) (perform_all unorm_byte s cs))
  unfolding after_loop
  process-build s cs h few =
      let bytes = encode_all cs ++ u32 end_opcode in
      let long : length cs < length bytes = omega (
        arith,
        length-append (encode_all cs) (u32 end_opcode),
        length-encode_all cs,
        length-le_bytes 4 end_opcode,
      ) in
      rw (build_lem cs) (
        process_nonempty s bytes (omega arith)
        ∙ ap after_loop (
            process_loop-encode_all unorm_byte (length bytes) 0 s cs h long (omega arith)
            ∙ ap (λ (n : ℕ). some (n, perform_all unorm_byte s cs)) (zero-add (length cs))))
