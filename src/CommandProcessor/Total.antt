-- ===== src/CommandProcessor/Total.antt =====
-- The termination of Process.
use ps5x_windows.Base.{
  ℕ, zero, suc, ◌+◌, ◌*◌, ◌≤◌, ◌<◌, ◌≡◌, refl, ap, ◌∙◌, some, List, [], ◌∷◌, length, length-drop,
  leb, ltb, lt→ltb, ◌^◌, ◌-◌, arith, min, true, Bool-cases, inl, inr, ◌⊎◌,
}
use ps5x_windows.CommandProcessor.Process.{
  CpState, Round, next, done, read_val, skip_label, skip_words, process_op, process_loop, process,
  after_loop, finish, on_clear_color, on_clear_depth, on_barrier, on_signal_fence,
  on_set_render_target, on_set_depth_target,
}

-- No read makes the rest longer.
read_val-le : (n : ℕ) (p : List ℕ) → length (read_val n p).1 ≤ length p
unfolding read_val
read_val-le n p = ground (arith, length-drop n p)

read_val-lt : (p : List ℕ) → leb 4 (length p) ≡ true → length (read_val 4 p).1 + 4 ≡ length p
unfolding read_val
read_val-lt p h = ground (arith, length-drop 4 p)

skip_words-le : (n : ℕ) (p : List ℕ) → length (skip_words n p) ≤ length p
unfolding skip_words
skip_words-le zero p = omega arith
skip_words-le (suc n) p = omega (arith, skip_words-le n (read_val 4 p).1, read_val-le 4 p)

skip_label-le : (p : List ℕ) → length (skip_label p) ≤ length p
unfolding skip_label
skip_label-le p =
    let (len, rest) = read_val 4 p in
    omega (arith, length-drop (min len (length rest)) rest, read_val-le 4 p)

abbrev rest_of : Round → List ℕ
rest_of (next s p) = p
rest_of (done s) = []

Round-cases :
    (r : Round) → ((t : CpState) × (q : List ℕ) × (r ≡ next t q)) ⊎ ((t : CpState) × (r ≡ done t))
Round-cases (next t q) = inl (t, q, refl)
Round-cases (done t) = inr (t, refl)

-- Six reads in a row, of any sizes.
reads_le :
    (a b c d e f : ℕ) (p : List ℕ)
    → let p1 = (read_val a p).1 in
      let p2 = (read_val b p1).1 in
      let p3 = (read_val c p2).1 in
      let p4 = (read_val d p3).1 in
      let p5 = (read_val e p4).1 in
      let p6 = (read_val f p5).1 in
      (length p1 ≤ length p)
      × (length p2 ≤ length p)
      × (length p3 ≤ length p)
      × (length p4 ≤ length p)
      × (length p5 ≤ length p)
      × (length p6 ≤ length p)
reads_le a b c d e f p =
    let p1 = (read_val a p).1 in
    let p2 = (read_val b p1).1 in
    let p3 = (read_val c p2).1 in
    let p4 = (read_val d p3).1 in
    let p5 = (read_val e p4).1 in
    let h1 = read_val-le a p in
    let h2 = read_val-le b p1 in
    let h3 = read_val-le c p2 in
    let h4 = read_val-le d p3 in
    let h5 = read_val-le e p4 in
    let h6 = read_val-le f p5 in
    (omega arith, omega arith, omega arith, omega arith, omega arith, omega arith)

module _ (unorm_byte : ℕ → ℕ) where
  process_op-le :
      (op : ℕ) (s : CpState) (p : List ℕ)
      → length (rest_of (process_op unorm_byte op s p)) ≤ length p
  unfolding process_op on_clear_color on_clear_depth on_barrier on_signal_fence on_set_render_target
      on_set_depth_target
  process_op-le op s p = ground (
    arith,
    skip_words-le 1 p,
    skip_words-le 3 p,
    skip_words-le 4 p,
    skip_words-le 5 p,
    skip_label-le p,
    length-drop 24 p,
    length-drop 16 p,
    reads_le 4 4 4 4 4 4 p,
    reads_le 4 8 4 4 4 4 p,
    reads_le 8 4 4 4 4 4 p,
  )

  process_loop-next :
      (fuel count : ℕ) (s : CpState) (p : List ℕ) (t : CpState) (q : List ℕ)
      → leb 4 (length p) ≡ true
      → process_op unorm_byte (read_val 4 p).0 s (read_val 4 p).1 ≡ next t q
      → ltb count (2 ^ 31 - 1) ≡ true
      → process_loop unorm_byte (suc fuel) count s p ≡ process_loop unorm_byte fuel (count + 1) t q
  unfolding process_loop
  process_loop-next fuel count s p t q long e few = rw (long, e, few, process_loop) refl

  -- The loop with enough fuel has a result, and counts no more than a command for 4 bytes.
  process_loop-total :
      (fuel count : ℕ) (s : CpState) (p : List ℕ)
      → length p < 4 * fuel
      → 4 * count + length p < 2 ^ 33
      → (n : ℕ) × (t : CpState) × (process_loop unorm_byte fuel count s p ≡ some (n, t))
        × (4 * n ≤ 4 * count + length p)
  unfolding process_loop
  process_loop-total zero count s p h b = absurd (omega arith)
  process_loop-total (suc fuel) count s p h small_size = elim (Bool-cases (leb 4 (length p))) [
    | inr short ↦ (count, s, rw short refl, omega arith)
    | inl long ↦
        let op = (read_val 4 p).0 in
        let rest = (read_val 4 p).1 in
        let small = read_val-lt p long in
        let kept = process_op-le op s rest in
        elim (Round-cases (process_op unorm_byte op s rest)) [
          | inr (t, e) ↦ (count, t, rw (long, e, process_loop) refl, omega arith)
          | inl (t, q, e) ↦
              let le : length q ≤ length rest = rw (ap rest_of e) at kept in
              let few : ltb count (2 ^ 31 - 1) ≡ true = lt→ltb _ _ (omega arith) in
              let (n, u, eq, b) =
                process_loop-total fuel (count + 1) t q (omega arith) (omega arith) in
              (n, u, process_loop-next fuel count s p t q long e few ∙ eq, omega arith)
        ]
  ]

  -- On any bytes, fewer than 2 ^ 33, Process ends, with a count that is at most a quarter of the
  -- bytes and so within its int32_t.
  pub process-total :
      (s : CpState) (p : List ℕ)
      → length p < 2 ^ 33
      → (n : ℕ) × (t : CpState) × (process unorm_byte s p ≡ some (n, t)) × (4 * n ≤ length p)
  unfolding process after_loop
  process-total s [] small = (0, s, refl, omega arith)
  process-total s (x ∷ xs) small =
      let (n, t, e, b) =
        process_loop-total (length (x ∷ xs)) 0 s (x ∷ xs) (omega arith) (omega arith) in
      (n, finish n t, ap after_loop e, omega arith)
