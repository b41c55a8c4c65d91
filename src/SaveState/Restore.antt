-- ===== src/SaveState/Restore.antt =====
-- What is read back of the interpreter's state and of the memory.
use mathlib.Core.List.{append_assoc, append-nil}
use ps5x_windows.Base.{
  ℕ, zero, suc, ◌+◌, ◌%◌, ◌^◌, ◌≤◌, ◌<◌, ◌≡◌, inl, inr, refl, sym, ap, ◌∙◌, some, List, [], ◌++◌,
  true, le→leb, ◌==◌, length, update, split_at, arith, Bool-cases,
}
use ps5x_windows.CommandProcessor.Command.{le_bytes, u32, u64}
use ps5x_windows.CommandProcessor.RoundTrip.{le_value-le_bytes, length-le_bytes}
use ps5x_windows.Cpu.State.{CpuContext}
use ps5x_windows.SaveState.Blob.{
  after_gprs, after_specials, after_xmms, Machine, str_bytes, read_bytes, read_t, read_str,
  gpr_bytes, xmm_bytes, serialize_cpu_context, read_gprs, read_xmms, read_specials,
  deserialize_cpu_context,
}

pub read_bytes-append :
    (n : ℕ) (xs rest : List ℕ) → length xs ≡ n → read_bytes n (xs ++ rest) ≡ some (xs, rest)
unfolding read_bytes
read_bytes-append n xs rest h = let (t, d, l) = split_at n xs rest h in rw (le→leb _ _ l, t, d) refl

pub read_t-le_bytes :
    (n v : ℕ) (rest : List ℕ) → v < 256 ^ n → read_t n (le_bytes n v ++ rest) ≡ some (v, rest)
unfolding read_t
read_t-le_bytes n v rest h =
    rw
      (
        read_t,
        read_bytes-append n (le_bytes n v) rest (length-le_bytes n v),
        le_value-le_bytes n v h,
      )
      refl

pub read_u64 : (v : ℕ) (rest : List ℕ) → v < 2 ^ 64 → read_t 8 (u64 v ++ rest) ≡ some (v, rest)
read_u64 v rest h = read_t-le_bytes 8 v rest h

pub read_u32 : (v : ℕ) (rest : List ℕ) → v < 2 ^ 32 → read_t 4 (u32 v ++ rest) ≡ some (v, rest)
read_u32 v rest h = read_t-le_bytes 4 v rest h

pub read_str-str_bytes :
    (s rest : List ℕ) → length s < 2 ^ 32 → read_str (str_bytes s ++ rest) ≡ some (s, rest)
unfolding read_str str_bytes
read_str-str_bytes s rest h =
    let small : length s % 2 ^ 32 ≡ length s = omega arith in
    simp append_assoc (
      rw
        (
          small,
          read_str,
          read_u32 (length s) (s ++ rest) h,
          read_bytes-append (length s) s rest refl,
        )
        refl)

-- The registers from number `i` on, and those below left as they were.
read_gprs-gpr_bytes :
    (i count : ℕ) (gpr old : ℕ → ℕ) (rest : List ℕ)
    → ((k : ℕ) → gpr k < 2 ^ 64)
    → (now : ℕ → ℕ) × (read_gprs i count old (gpr_bytes i count gpr ++ rest) ≡ (now, some rest))
      × ((k : ℕ) → i ≤ k → k < i + count → now k ≡ gpr k)
      × ((k : ℕ) → k < i → now k ≡ old k)
unfolding read_gprs gpr_bytes
read_gprs-gpr_bytes i zero gpr old rest small =
    (old, refl, λ k above below. absurd (omega arith), λ k below. refl)
read_gprs-gpr_bytes i (suc count) gpr old rest small =
    let (now, e, same, kept) =
      read_gprs-gpr_bytes (suc i) count gpr (update old i (gpr i)) rest small in
    (
      now,
      rw
          (
            append_assoc (u64 (gpr i)) (gpr_bytes (suc i) count gpr) rest,
            read_gprs,
            read_u64 (gpr i) (gpr_bytes (suc i) count gpr ++ rest) (small i),
          )
          e,
      λ k above below. elim (Bool-cases (i == k)) [
        | inl here ↦ ground (arith, kept k)
        | inr later ↦ same k (ground arith) (omega arith)
      ],
      λ k below. kept k (omega arith) ∙ ground arith,
    )

read_xmms-xmm_bytes :
    (i count : ℕ) (xmm old : ℕ → List ℕ) (rest : List ℕ)
    → ((k : ℕ) → length (xmm k) ≡ 16)
    → (now : ℕ → List ℕ) × (read_xmms i count old (xmm_bytes i count xmm ++ rest) ≡ (now, true))
      × ((k : ℕ) → i ≤ k → k < i + count → now k ≡ xmm k)
      × ((k : ℕ) → k < i → now k ≡ old k)
unfolding read_xmms xmm_bytes
read_xmms-xmm_bytes i zero xmm old rest full =
    (old, refl, λ k above below. absurd (omega arith), λ k below. refl)
read_xmms-xmm_bytes i (suc count) xmm old rest full =
    let (now, e, same, kept) =
      read_xmms-xmm_bytes (suc i) count xmm (update old i (xmm i)) rest full in
    (
      now,
      rw
          (
            append_assoc (xmm i) (xmm_bytes (suc i) count xmm) rest,
            read_xmms,
            read_bytes-append 16 (xmm i) (xmm_bytes (suc i) count xmm ++ rest) (full i),
          )
          e,
      λ k above below. elim (Bool-cases (i == k)) [
        | inl here ↦ ground (arith, kept k)
        | inr later ↦ same k (ground arith) (omega arith)
      ],
      λ k below. kept k (omega arith) ∙ ground arith,
    )

-- A context as the interpreter has it.
pub record IsContext (m : Machine) : Type 0 where
  pub gprs : (k : ℕ) → m.ctx.gpr k < 2 ^ 64
  pub rip : m.ctx.rip < 2 ^ 64
  pub rflags : m.ctx.rflags < 2 ^ 64
  pub cs : m.ctx.cs < 2 ^ 64
  pub ss : m.ctx.ss < 2 ^ 64
  pub xmms : (k : ℕ) → length (m.xmm k) ≡ 16

-- Two machines with one context.
pub record SameContext (n m : Machine) : Type 0 where
  pub gprs : (k : ℕ) → k < 16 → n.ctx.gpr k ≡ m.ctx.gpr k
  pub rip : n.ctx.rip ≡ m.ctx.rip
  pub rflags : n.ctx.rflags ≡ m.ctx.rflags
  pub cs : n.ctx.cs ≡ m.ctx.cs
  pub ss : n.ctx.ss ≡ m.ctx.ss
  pub xmms : (k : ℕ) → k < 16 → n.xmm k ≡ m.xmm k

read_specials_lem :
    (c d : CpuContext) (rest : List ℕ)
    → d.rip < 2 ^ 64
    → d.rflags < 2 ^ 64
    → d.cs < 2 ^ 64
    → d.ss < 2 ^ 64
    → read_specials c (u64 d.rip ++ (u64 d.rflags ++ (u64 d.cs ++ (u64 d.ss ++ rest))))
      ≡ (record d { gpr = c.gpr }, some rest)
unfolding read_specials
read_specials_lem c d rest h0 h1 h2 h3 =
    rw
      (
        read_specials,
        read_u64 d.rip _ h0,
        read_u64 d.rflags _ h1,
        read_u64 d.cs _ h2,
        read_u64 d.ss rest h3,
      )
      refl

deserialize_cpu_context_lem :
    (n : Machine) (bytes p q : List ℕ) (gpr : ℕ → ℕ) (ctx : CpuContext) (xmm : ℕ → List ℕ)
    → read_gprs 0 16 n.ctx.gpr bytes ≡ (gpr, some p)
    → read_specials (record n.ctx { gpr = gpr }) p ≡ (ctx, some q)
    → read_xmms 0 16 n.xmm q ≡ (xmm, true)
    → deserialize_cpu_context n bytes ≡ (true, record n { ctx = ctx; xmm = xmm })
unfolding deserialize_cpu_context after_gprs after_specials after_xmms
deserialize_cpu_context_lem n bytes p q gpr ctx xmm e f g =
    ap (after_gprs n) e
    ∙ ap (after_specials (record n { ctx = record n.ctx { gpr = gpr } })) f
    ∙ ap (after_xmms (record n { ctx = ctx })) g

pub deserialize_cpu_context-serialize_cpu_context :
    (m n : Machine)
    → IsContext m
    → (u : Machine) × (deserialize_cpu_context n (serialize_cpu_context m) ≡ (true, u))
      × SameContext u m
      × (u.memory ≡ n.memory)
      × (u.bytes ≡ n.bytes)
unfolding serialize_cpu_context
deserialize_cpu_context-serialize_cpu_context m n c =
    let words =
      u64 m.ctx.rip
      ++ (u64 m.ctx.rflags ++ (u64 m.ctx.cs ++ (u64 m.ctx.ss ++ xmm_bytes 0 16 m.xmm))) in
    let (gpr, e, same, kept) = read_gprs-gpr_bytes 0 16 m.ctx.gpr n.ctx.gpr words c.gprs in
    let (xmm, f, equal, left) = read_xmms-xmm_bytes 0 16 m.xmm n.xmm [] c.xmms in
    let g : read_xmms 0 16 n.xmm (xmm_bytes 0 16 m.xmm) ≡ (xmm, true) =
      ap (read_xmms 0 16 n.xmm) (sym (append-nil (xmm_bytes 0 16 m.xmm))) ∙ f in
    let specials =
      read_specials_lem (record n.ctx { gpr = gpr }) m.ctx (xmm_bytes 0 16 m.xmm) c.rip c.rflags
        c.cs c.ss in
    (
      record n { ctx = record m.ctx { gpr = gpr }; xmm = xmm },
      deserialize_cpu_context_lem n (serialize_cpu_context m) words (xmm_bytes 0 16 m.xmm) gpr
          (record m.ctx { gpr = gpr }) xmm e specials g,
      record {
        gprs = λ k below. same k (omega arith) (omega arith);
        rip = refl;
        rflags = refl;
        cs = refl;
        ss = refl;
        xmms = λ k below. equal k (omega arith) (omega arith);
      },
      refl,
      refl,
    )
