-- ===== src/SaveState/Blob.antt =====
-- Blob, BlobReader and what is written of the interpreter and the GPU.
use ps5x_windows.Base.{
  ℕ, zero, suc, ◌%◌, ◌^◌, Option, none, some, List, [], ◌++◌, Bool, true, false, String, leb,
  if◌then◌else◌, length, take, drop, update,
}
use ps5x_windows.CommandProcessor.Command.{u32, u64}
use ps5x_windows.CommandProcessor.Process.{le_value}
use ps5x_windows.Cpu.State.{CpuContext}
use ps5x_windows.Gpu.{GpuStats}
use ps5x_windows.Memory.State.{MemState}

-- What is saved: the interpreter's context with its XMM registers, the memory manager, the
-- contents of the host's memory, and the GPU's counters.
pub record Machine : Type 0 where
  pub ctx : CpuContext
  pub xmm : ℕ → List ℕ
  pub memory : MemState
  pub bytes : ℕ → ℕ
  pub stats : GpuStats

-- The bytes of a std::string that the memory manager's model has as text, and back.
pub record TextBytes : Type 0 where
  pub bytes_of : String → List ℕ
  pub text_of : List ℕ → String

-- WriteStr.
unfoldable pub str_bytes : List ℕ → List ℕ
str_bytes s = u32 (length s % 2 ^ 32) ++ s

-- BlobReader::Read: the bytes and what is left; ReadT and ReadStr. A reader is what is left.
unfoldable pub read_bytes : ℕ → List ℕ → Option (List ℕ × List ℕ)
read_bytes len rest = if leb len (length rest) then some (take len rest, drop len rest) else none

unfoldable pub read_t : ℕ → List ℕ → Option (ℕ × List ℕ)
read_t len rest = elim (read_bytes len rest) [
  | none ↦ none
  | some (value, more) ↦ some (le_value value, more)
]

unfoldable pub read_str : List ℕ → Option (List ℕ × List ℕ)
read_str rest = elim (read_t 4 rest) [ none ↦ none | some (len, more) ↦ read_bytes len more ]

-- `count` registers from number `i` on.
unfoldable pub gpr_bytes : ℕ → ℕ → (ℕ → ℕ) → List ℕ
gpr_bytes i zero gpr = []
gpr_bytes i (suc count) gpr = u64 (gpr i) ++ gpr_bytes (suc i) count gpr

unfoldable pub xmm_bytes : ℕ → ℕ → (ℕ → List ℕ) → List ℕ
xmm_bytes i zero xmm = []
xmm_bytes i (suc count) xmm = xmm i ++ xmm_bytes (suc i) count xmm

unfoldable pub serialize_cpu_context : Machine → List ℕ
serialize_cpu_context m =
    gpr_bytes 0 16 m.ctx.gpr
    ++ (u64 m.ctx.rip
        ++ (u64 m.ctx.rflags ++ (u64 m.ctx.cs ++ (u64 m.ctx.ss ++ xmm_bytes 0 16 m.xmm))))

-- The registers are written one by one, those before a failure too.
unfoldable pub read_gprs : ℕ → ℕ → (ℕ → ℕ) → List ℕ → (ℕ → ℕ) × Option (List ℕ)
read_gprs i zero gpr rest = (gpr, some rest)
read_gprs i (suc count) gpr rest = elim (read_t 8 rest) [
  | none ↦ (gpr, none)
  | some (v, more) ↦ read_gprs (suc i) count (update gpr i v) more
]

unfoldable pub read_xmms : ℕ → ℕ → (ℕ → List ℕ) → List ℕ → (ℕ → List ℕ) × Bool
read_xmms i zero xmm rest = (xmm, true)
read_xmms i (suc count) xmm rest = elim (read_bytes 16 rest) [
  | none ↦ (xmm, false)
  | some (v, more) ↦ read_xmms (suc i) count (update xmm i v) more
]

-- rip, rflags, cs and ss.
unfoldable pub read_specials : CpuContext → List ℕ → CpuContext × Option (List ℕ)
read_specials c rest = elim (read_t 8 rest) [
  | none ↦ (c, none)
  | some (rip, p1) ↦
      let c1 = record c { rip = rip } in
      elim (read_t 8 p1) [
        | none ↦ (c1, none)
        | some (rflags, p2) ↦
            let c2 = record c1 { rflags = rflags } in
            elim (read_t 8 p2) [
              | none ↦ (c2, none)
              | some (cs, p3) ↦
                  let c3 = record c2 { cs = cs } in
                  elim (read_t 8 p3) [
                    | none ↦ (c3, none)
                    | some (ss, p4) ↦ (record c3 { ss = ss }, some p4)
                  ]
            ]
      ]
]

-- What each part leaves in the context, and the parts that follow it.
unfoldable pub after_xmms : Machine → (ℕ → List ℕ) × Bool → Bool × Machine
after_xmms m (xmm, ok) = (ok, record m { xmm = xmm })

unfoldable pub after_specials : Machine → CpuContext × Option (List ℕ) → Bool × Machine
after_specials m (ctx, none) = (false, record m { ctx = ctx })
after_specials m (ctx, some rest) = after_xmms (record m { ctx = ctx }) (read_xmms 0 16 m.xmm rest)

unfoldable pub after_gprs : Machine → (ℕ → ℕ) × Option (List ℕ) → Bool × Machine
after_gprs m (gpr, none) = (false, record m { ctx = record m.ctx { gpr = gpr } })
after_gprs m (gpr, some rest) =
    let ctx = record m.ctx { gpr = gpr } in
    after_specials (record m { ctx = ctx }) (read_specials ctx rest)

unfoldable pub deserialize_cpu_context : Machine → List ℕ → Bool × Machine
deserialize_cpu_context m rest = after_gprs m (read_gprs 0 16 m.ctx.gpr rest)

unfoldable pub serialize_gpu_state : GpuStats → List ℕ
serialize_gpu_state s =
    u64 s.submits
    ++ (u64 s.flips ++ (u64 s.barriers ++ (u64 s.fences_signaled ++ u32 s.active_queues)))

-- The counters are read and dropped.
unfoldable pub deserialize_gpu_state : List ℕ → Bool
deserialize_gpu_state rest = elim (read_t 8 rest) [
  | none ↦ false
  | some (submits, p1) ↦ elim (read_t 8 p1) [
    | none ↦ false
    | some (flips, p2) ↦ elim (read_t 8 p2) [
      | none ↦ false
      | some (barriers, p3) ↦ elim (read_t 8 p3) [
        | none ↦ false
        | some (fences, p4) ↦ elim (read_t 4 p4) [ none ↦ false | some (queues, p5) ↦ true ]
      ]
    ]
  ]
]
